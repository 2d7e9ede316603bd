-- ===== src/Stream/Padding.antt =====
-- Padded numbers: how long the output is, and what the functions return.
use nre.Base.{
  ℕ, zero, suc, ◌+◌, ◌/◌, ◌%◌, ◌^◌, ◌≤◌, ◌<◌, ◌≡◌, inl, inr, refl, sym, ap, ◌∙◌, arith, Bool, true,
  false, not, ◌&&◌, replicate, ltb, leb, ◌==◌, if◌then◌else◌, length, length-append, append-nil,
  word_mod, u32_mod, add32, sub32, sub64, Bool-cases, if_intro,
}
use nre.Stream.{
  Bytes, Flags, hexchars_big, hexchars_small, count_unsigned, count_from, printu, printpad,
  base_prefix, printupad, andthen, nothing,
}
use nre.Stream.Numbers.{IsTable, big, small, printu-spells}

abbrev pub maximum : ℕ → ℕ → ℕ
maximum a b = if leb a b then b else a

length-replicate {ℓ} : {A : Type ℓ} (n : ℕ) (a : A) → length (replicate n a) ≡ n
length-replicate zero a = refl
length-replicate (suc n) a = ap suc (length-replicate n a)

-- The characters that `printpad` writes, and the number that it returns.
printpad-length :
    (count : ℕ) (flags : Flags)
    → (length (printpad count flags).1 ≡ (if ltb count (2 ^ 31) then count else 0))
      × ((printpad count flags).0 ≡ count)
unfolding printpad
printpad-length count flags = elim (Bool-cases (ltb count (2 ^ 31))) [
  | inl e ↦ rw e (length-replicate count _, refl)
  | inr e ↦ rw e (refl, refl)
]

-- The table that a format asks for.
hexchars-IsTable : (flags : Flags) → IsTable (if flags.caphex then hexchars_big else hexchars_small)
hexchars-IsTable flags = if_intro IsTable flags.caphex (λ e. big) (λ e. small)

-- The characters of the prefix of a base.
abbrev pub prefix_length : ℕ → Flags → ℕ
prefix_length base flags =
    if flags.printbase then (if base == 16 then 2 else if base == 8 then 1 else 0) else 0

prefix-length :
    (base : ℕ) (flags : Flags)
    → ((base_prefix base flags).0 ≡ prefix_length base flags)
      × (length (base_prefix base flags).1 ≡ prefix_length base flags)
unfolding base_prefix
prefix-length base flags = ground arith

-- Putting the pieces of a number together, with any prefix and any digits.
module _ (prefix digits : ℕ × Bytes) (b d : ℕ) (flags : Flags) where
  padded : Bool → Bool → ℕ → ℕ × Bytes
  padded right zeros pad =
      let padding = printpad (sub64 pad d % u32_mod) flags in
      let before = if not right && not zeros && ltb 0 pad then padding else nothing in
      let between = if not right && zeros && ltb 0 pad then padding else nothing in
      let number = andthen (andthen (andthen before prefix) between) digits in
      if right && ltb 0 pad then andthen number (printpad (sub32 pad number.0) flags) else number

  padded-length :
      (right zeros : Bool) (pad : ℕ)
      → prefix.0 ≡ b
      → length prefix.1 ≡ b
      → digits.0 ≡ d
      → length digits.1 ≡ d
      → b ≤ 2
      → d ≤ 65
      → pad < 2 ^ 31
      → (length (padded right zeros pad).1
          ≡ (if right then maximum pad (b + d) else b + maximum pad d))
        × ((padded right zeros pad).0
            ≡ (if pad == 0 then b + d else if right then pad else b + pad))
  unfolding padded
  padded-length true zeros pad pb pl db dl bb dd h =
      let number : add32 (add32 (add32 (add32 0 0) prefix.0) 0) digits.0 ≡ b + d = omega arith in
      elim (Bool-cases (ltb 0 pad)) [
        | inl e ↦
            let fill = printpad-length (sub32 pad (b + d)) flags in
            rw (e, number, append-nil, length-append, length-append) (ground (arith, fill))
        | inr e ↦ rw (e, number, append-nil, length-append) (ground arith)
      ]
  padded-length false true pad pb pl db dl bb dd h =
      let fill = printpad-length (sub64 pad d % u32_mod) flags in
      elim (Bool-cases (ltb 0 pad)) [
        | inl e ↦ rw (e, length-append, length-append) (ground (arith, fill))
        | inr e ↦ rw (e, append-nil, length-append) (ground arith)
      ]
  padded-length false false pad pb pl db dl bb dd h =
      let fill = printpad-length (sub64 pad d % u32_mod) flags in
      elim (Bool-cases (ltb 0 pad)) [
        | inl e ↦ rw (e, append-nil, length-append, length-append) (ground (arith, fill))
        | inr e ↦ rw (e, append-nil, length-append) (ground arith)
      ]

count_from-le : (fuel n base w : ℕ) → count_from fuel n base w ≤ w + fuel
unfolding count_from
count_from-le zero n base w = omega arith
count_from-le (suc fuel) n base w = ground (arith, count_from-le fuel (n / base) base (w + 1))

count_unsigned-le : (n base : ℕ) → count_unsigned n base ≤ 65
unfolding count_unsigned
count_unsigned-le n base = count_from-le 64 n base 1

-- For a 64-bit number with `d` digits in a base from 2 to 16, a prefix of `b` characters and a width
-- below 2 ^ 31: `printupad` writes, padding on the left, the prefix and as many characters as the
-- greater of the width and `d`, and on the right, the greater of the width and both together. It
-- returns their number if no width is given; otherwise it returns the width, with the prefix where
-- the padding is on the left, also if it wrote more.
pub printupad_lem :
    (u base pad : ℕ) (flags : Flags)
    → 2 ≤ base
    → base ≤ 16
    → u < word_mod
    → pad < 2 ^ 31
    → let d = count_unsigned u base in
      let b = prefix_length base flags in
      (length (printupad u base pad flags).1
        ≡ (if flags.padright then maximum pad (b + d) else b + maximum pad d))
      × ((printupad u base pad flags).0
          ≡ (if pad == 0 then b + d else if flags.padright then pad else b + pad))
unfolding printupad padded
printupad_lem u base pad flags lo hi h narrow =
    let chars = if flags.caphex then hexchars_big else hexchars_small in
    let number = printu-spells u base chars (hexchars-IsTable flags) lo hi h in
    let before = prefix-length base flags in
    let short : prefix_length base flags ≤ 2 = ground arith in
    padded-length (base_prefix base flags) (printu u base chars) (prefix_length base flags)
      (count_unsigned u base) flags flags.padright flags.padzeros pad before.0 before.1
      (number.1 ∙ sym number.2) (sym number.2) short (count_unsigned-le u base) narrow
