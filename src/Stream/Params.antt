-- ===== src/Stream/Params.antt =====
-- `OStream::FormatParams`: the format between a `%` and its type. An argument of `writef` is a
-- number of 64 bits or a text; that its kind is what the format says is the caller's promise.
pub mod Lengths
pub mod Reading
use nre.Base.{
  ℕ, zero, suc, ◌+◌, ◌-◌, ◌*◌, ◌%◌, Bool, true, false, ◌&&◌, Option, none, some, List, [], ◌∷◌, leb,
  ◌==◌, if◌then◌else◌, u32_mod, add32,
}
use nre.Stream.{Bytes, Flags}

pub data Arg : Type 0 where
  number : ℕ → Arg
  text : Bytes → Arg

abbrev pub as_number : Arg → ℕ
as_number (number n) = n
as_number (text s) = 0

abbrev pub as_text : Arg → Bytes
as_text (number n) = []
as_text (text s) = s

-- `va_arg`; an argument that is not there is read as zero.
abbrev pub next_arg : List Arg → Arg × List Arg
next_arg [] = (number 0, [])
next_arg (a ∷ args) = (a, args)

abbrev pub no_flags : Flags
no_flags = record {
  padright = false;
  forcesign = false;
  spacesign = false;
  printbase = false;
  padzeros = false;
  caphex = false;
  longlong = false;
  long = false;
  size_t = false;
  intptr_t = false;
  pointer = false;
}

pub record Params : Type 0 where
  pub base : ℕ
  pub flags : Flags
  pub pad : ℕ
  pub prec : ℕ
  -- `_end`
  pub rest : Bytes

-- `*fmt`, which is the final zero at the end
abbrev pub head_or_zero : Bytes → ℕ
head_or_zero [] = 0
head_or_zero (c ∷ s) = c

abbrev pub tail_of : Bytes → Bytes
tail_of [] = []
tail_of (c ∷ s) = s

pub data Flag : Type 0 where
  dash plus space hash nought : Flag

pub flag_of : ℕ → Option Flag
flag_of c =
    if c == b'-'
    then some dash
    else if c == b'+'
    then some plus
    else if c == b' '
    then some space
    else if c == b'#'
    then some hash
    else if c == b'0'
    then some nought
    else none

pub with_flag : Flag → Flags → Flags
with_flag dash flags = record flags { padright = true }
with_flag plus flags = record flags { forcesign = true }
with_flag space flags = record flags { spacesign = true }
with_flag hash flags = record flags { printbase = true }
with_flag nought flags = record flags { padzeros = true }

pub read_flags : Bytes → Flags → Flags × Bytes
unfolding flag_of with_flag
read_flags [] flags = (flags, [])
read_flags (c ∷ s) flags = elim (flag_of c) [
  | none ↦ (flags, c ∷ s)
  | some f ↦ read_flags s (with_flag f flags)
]

pub is_digit : ℕ → Bool
is_digit c = leb b'0' c && leb c b'9'

-- The two loops that read a number into a `uint`.
pub read_number : Bytes → ℕ → ℕ × Bytes
unfolding is_digit
read_number [] n = (n, [])
read_number (c ∷ s) n =
    let more = read_number s (add32 (n * 10) (c - b'0')) in if is_digit c then more else (n, c ∷ s)

-- The width or the precision that stands at `fmt`, from there or, at `*`, from the arguments.
pub read_width : Bytes → List Arg → ℕ × Bytes × List Arg
unfolding read_number
read_width s args =
    let (a, args') = next_arg args in
    let (n, s') = read_number s 0 in
    if head_or_zero s == b'*' then (as_number a % u32_mod, tail_of s, args') else (n, s', args)

pub read_prec : Bytes → List Arg → ℕ × Bytes × List Arg
unfolding read_width
read_prec s args =
    let number = read_width (tail_of s) args in
    if head_or_zero s == b'.' then number else (u32_mod - 1, s, args)

pub read_length : Bytes → Flags → Flags × Bytes
read_length s flags =
    let c = head_or_zero s in
    if c == b'l'
    then (record flags { long = true }, tail_of s)
    else if c == b'L'
    then (record flags { longlong = true }, tail_of s)
    else if c == b'z'
    then (record flags { size_t = true }, tail_of s)
    else if c == b'P'
    then (record flags { intptr_t = true }, tail_of s)
    else (flags, s)

-- The type, which stays in the text.
pub read_base : Bytes → Flags → ℕ × Flags
read_base s flags =
    let c = head_or_zero s in
    if c == b'X'
    then (16, record flags { caphex = true })
    else if c == b'x'
    then (16, flags)
    else if c == b'o'
    then (8, flags)
    else if c == b'b'
    then (2, flags)
    else if c == b'p'
    then (10, record flags { pointer = true })
    else (10, flags)

-- The constructor with `all = true`, with the arguments left.
pub format_params : Bytes → List Arg → Params × List Arg
unfolding read_flags read_width read_prec read_length read_base
format_params fmt args =
    let (flags, s₁) = read_flags fmt no_flags in
    let (pad, s₂, args₂) = read_width s₁ args in
    let (prec, s₃, args₃) = read_prec s₂ args₂ in
    let (flags', s₄) = read_length s₃ flags in
    let (base, flags'') = read_base s₄ flags' in
    (record { base = base; flags = flags''; pad = pad; prec = prec; rest = s₄ }, args₃)

-- The constructor with `all = false`, which `fmt()` uses.
pub short_params : Bytes → Params
unfolding read_flags read_base
short_params fmt =
    let (flags, s) = read_flags fmt no_flags in
    let (base, flags') = read_base s flags in
    record { base = base; flags = flags'; pad = 0; prec = u32_mod - 1; rest = s }
