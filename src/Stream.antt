-- ===== src/Stream.antt =====
-- nre/libs/libstdc++/stream/OStream.cc and nre/include/util/Digits.h: printing numbers and texts
-- with padding. What a function writes is a list of bytes beside its result; an `int` is the number
-- of its 32 bits, a `llong` that of its 64 bits. Texts are without their final zero. The flags of a
-- format are a record of Booleans, one for each bit of `_flags`.
pub mod Numbers
pub mod Input
pub mod Padding
pub mod Params
pub mod Writef
mod Tests
use Prim.Native.Char.{code}
use Prim.Native.String
use Prim.Native.String.{String}
use nre.Base.{
  ℕ, zero, suc, ◌+◌, ◌-◌, ◌*◌, ◌/◌, ◌%◌, ◌^◌, Bool, true, false, ◌&&◌, ◌||◌, not, Option, none,
  some, List, [], ◌∷◌, ◌++◌, replicate, ltb, leb, ◌==◌, if◌then◌else◌, length, get_elem?, word_mod,
  u32_mod, add32, sub32, sub64, bit_and,
}

abbrev pub Bytes : Type 0
Bytes = List ℕ

abbrev pub codes : String → Bytes
codes String.[] = []
codes (String.◌∷◌ c s) = code c ∷ codes s

pub record Flags : Type 0 where
  pub padright : Bool
  pub forcesign : Bool
  pub spacesign : Bool
  pub printbase : Bool
  pub padzeros : Bool
  pub caphex : Bool
  pub longlong : Bool
  pub long : Bool
  pub size_t : Bool
  pub intptr_t : Bool
  pub pointer : Bool

abbrev pub hexchars_big : Bytes
hexchars_big = codes "0123456789ABCDEF"

abbrev pub hexchars_small : Bytes
hexchars_small = codes "0123456789abcdef"

-- `chars[i]`, for an index in the array
abbrev pub char_at : Bytes → ℕ → ℕ
char_at [] i = 0
char_at (c ∷ cs) zero = c
char_at (c ∷ cs) (suc i) = char_at cs i

-- `n < 0` and `-n` of a `llong`
abbrev pub negative : ℕ → Bool
negative n = leb (2 ^ 63) n

abbrev pub negate : ℕ → ℕ
negate n = sub64 0 n

-- The loop of both functions of `Digits`; the fuel bounds the number of digits.
pub count_from : ℕ → ℕ → ℕ → ℕ → ℕ
count_from zero n base width = width
count_from (suc fuel) n base width =
    let more = count_from fuel (n / base) base (width + 1) in if leb base n then more else width

-- No 64-bit number has more digits in any base from 2 on.
abbrev pub max_digits : ℕ
max_digits = 64

pub count_unsigned : ℕ → ℕ → ℕ
unfolding count_from
count_unsigned n base = count_from max_digits n base 1

-- A negative number that `-n` leaves negative is below the base.
pub count_signed : ℕ → ℕ → ℕ
unfolding count_from
count_signed n base =
    let m = negate n in
    if negative n
    then (if negative m then 2 else count_from max_digits m base 2)
    else count_from max_digits n base 1

-- `printu`: the digits behind those of `n / base`
pub print_digits : ℕ → ℕ → ℕ → Bytes → ℕ × Bytes
print_digits zero n base chars = (0, [])
print_digits (suc fuel) n base chars =
    let front = print_digits fuel (n / base) base chars in
    let c = char_at chars (n % base) in
    if leb base n then (front.0 + 1, front.1 ++ c ∷ []) else (1, c ∷ [])

pub printu : ℕ → ℕ → Bytes → ℕ × Bytes
unfolding print_digits
printu n base chars = print_digits max_digits n base chars

-- The calls of `printn` for numbers that are not negative, whose digits are the decimal ones.
pub printn_positive : ℕ → ℕ × Bytes
unfolding print_digits
printn_positive n = print_digits max_digits n 10 hexchars_small

-- Where `-n` leaves the number negative, `n % 10` is negative too.
pub printn : ℕ → ℕ × Bytes
unfolding printn_positive
printn n =
    let m = negate n in
    let rest = printn_positive m in
    if negative n
    then (if negative m
        then (2, b'-' ∷ (b'0' - (word_mod - m) % 10) ∷ [])
        else (rest.0 + 1, b'-' ∷ rest.1))
    else printn_positive n

pub printpad : ℕ → Flags → ℕ × Bytes
printpad count flags =
    let c = if flags.padzeros then b'0' else b' ' in
    (count, if ltb count (2 ^ 31) then replicate count c else [])

-- A number is positive if it is neither negative nor zero.
pub printsignedprefix : ℕ → Flags → ℕ × Bytes
printsignedprefix n flags =
    if not (negative n) && not (n == 0)
    then (if flags.forcesign
        then (1, b'+' ∷ [])
        else if flags.spacesign
        then (1, b' ' ∷ [])
        else (0, []))
    else (0, [])

-- Two pieces of output, and their counts added as `int`s.
abbrev pub andthen : ℕ × Bytes → ℕ × Bytes → ℕ × Bytes
andthen a b = (add32 a.0 b.0, a.1 ++ b.1)

abbrev pub nothing : ℕ × Bytes
nothing = (0, [])

pub printnpad : ℕ → ℕ → Flags → ℕ × Bytes
unfolding count_signed printpad printsignedprefix printn
printnpad n pad flags =
    let width = count_signed n 10 in
    let signed = not (negative n) && not (n == 0) && (flags.forcesign || flags.spacesign) in
    let width' = if signed then width + 1 else width in
    let left =
      if not flags.padright && ltb 0 pad
      then printpad (sub64 pad width' % u32_mod) flags
      else nothing in
    let number = andthen (andthen left (printsignedprefix n flags)) (printn n) in
    if flags.padright && ltb 0 pad
    then andthen number (printpad (sub32 pad number.0) flags)
    else number

pub base_prefix : ℕ → Flags → ℕ × Bytes
base_prefix base flags =
    if flags.printbase
    then (if base == 16
        then (2, b'0' ∷ (if flags.caphex then b'X' else b'x') ∷ [])
        else if base == 8
        then (1, b'0' ∷ [])
        else nothing)
    else nothing

pub printupad : ℕ → ℕ → ℕ → Flags → ℕ × Bytes
unfolding count_unsigned printpad base_prefix printu
printupad u base pad flags =
    let padding = printpad (sub64 pad (count_unsigned u base) % u32_mod) flags in
    let spaces =
      if not flags.padright && not flags.padzeros && ltb 0 pad then padding else nothing in
    let zeros = if not flags.padright && flags.padzeros && ltb 0 pad then padding else nothing in
    let digits = printu u base (if flags.caphex then hexchars_big else hexchars_small) in
    let number = andthen (andthen (andthen spaces (base_prefix base flags)) zeros) digits in
    if flags.padright && ltb 0 pad
    then andthen number (printpad (sub32 pad number.0) flags)
    else number

-- `puts` with the limit `prec` on the characters
pub puts : Bytes → ℕ → ℕ × Bytes
puts [] prec = nothing
puts (c ∷ s) prec =
    let rest = puts s (if prec == word_mod - 1 then prec else prec - 1) in
    if prec == word_mod - 1 || ltb 0 prec then (rest.0 + 1, c ∷ rest.1) else nothing

-- A precision of `-1` is one of 32 bits.
pub putspad : Bytes → ℕ → ℕ → Flags → ℕ × Bytes
unfolding printpad puts
putspad s pad prec flags =
    let width = if not (prec == u32_mod - 1) then prec else length s in
    let left =
      if ltb 0 pad && not flags.padright
      then printpad (sub64 pad width % u32_mod) flags
      else nothing in
    let text = andthen left (puts s prec) in
    if ltb 0 pad && flags.padright then andthen text (printpad (sub32 pad text.0) flags) else text

-- The loop of `printptr` with so many pairs of bytes left.
pub print_pairs : ℕ → ℕ → Flags → ℕ × Bytes
unfolding printupad
print_pairs zero u flags = nothing
print_pairs (suc pairs) u flags =
    let rest = print_pairs pairs u flags in
    let part = printupad (u / 2 ^ (pairs * 16) % 2 ^ 16) 16 4 flags in
    if ltb 0 pairs then andthen (andthen part (1, b':' ∷ [])) rest else part

pub printptr : ℕ → Flags → ℕ × Bytes
unfolding print_pairs
printptr u flags = print_pairs 4 u (record flags { padzeros = true })
