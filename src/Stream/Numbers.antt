-- ===== src/Stream/Numbers.antt =====
-- What `printu` writes spells the number, in as many characters as `Digits` counts.
use native.Mathlib.Nat.{pow-suc, div-mul-le_self, mul-le-mul_right, mul_comm, mod-eq_of_lt}
use mathlib.Core.List.{foldl}
use nre.Base.{
  ℕ, zero, suc, ◌+◌, ◌-◌, ◌*◌, ◌/◌, ◌%◌, ◌^◌, ◌≤◌, ◌<◌, ◌≡◌, inl, inr, refl, sym, ◌∙◌, arith, [],
  ◌∷◌, ◌++◌, ltb, leb, ◌==◌, if◌then◌else◌, length, length-append, word_mod, Bool-cases, failures,
  no_failure, ==_iff,
}
use nre.Stream.{
  Bytes, hexchars_big, hexchars_small, char_at, count_from, count_unsigned, print_digits, printu,
  max_digits,
}

-- The digit that a character stands for, and the number that a text spells behind `v`.
abbrev pub digit_of : ℕ → ℕ
digit_of c = if ltb c 58 then c - 48 else if ltb c 91 then c - 55 else c - 87

abbrev pub spells : ℕ → ℕ → Bytes → ℕ
spells base v s = foldl (λ n c. n * base + digit_of c) v s

spells-snoc :
    (base v : ℕ) (s : Bytes) (c : ℕ)
    → spells base v (s ++ c ∷ []) ≡ spells base v s * base + digit_of c
spells-snoc base v [] c = refl
spells-snoc base v (x ∷ s) c = spells-snoc base (v * base + digit_of x) s c

-- The two tables of digits.
pub data IsTable : Bytes → Type 0 where
  big : IsTable hexchars_big
  small : IsTable hexchars_small

big_table : failures 16 (λ d. digit_of (char_at hexchars_big d) == d) ≡ 0
big_table = refl

small_table : failures 16 (λ d. digit_of (char_at hexchars_small d) == d) ≡ 0
small_table = refl

table_digit : (chars : Bytes) (d : ℕ) → IsTable chars → d < 16 → digit_of (char_at chars d) ≡ d
table_digit chars d big h =
    (==_iff _ d).0 (no_failure 16 (λ x. digit_of (char_at hexchars_big x) == x) big_table d h)
table_digit chars d small h =
    (==_iff _ d).0 (no_failure 16 (λ x. digit_of (char_at hexchars_small x) == x) small_table d h)

-- One division takes a number below the next smaller power of two.
pub half : (n base : ℕ) → 2 ≤ base → n / base * 2 ≤ n
half n base h =
    let whole : n / base * base ≤ n = div-mul-le_self n base in
    let twice : 2 * (n / base) ≤ base * (n / base) = mul-le-mul_right (n / base) h in
    omega (arith, mul_comm base (n / base))

parts : (n base : ℕ) → 2 ≤ base → (n ≡ n / base * base + n % base) × (n % base < base)
parts n base h = (grind arith, grind arith)

one_left : (fuel n base : ℕ) → 2 ≤ base → n < 2 ^ suc fuel → base ≤ n → 1 ≤ fuel
one_left zero n base lo h le = absurd (omega arith)
one_left (suc fuel) n base lo h le = omega arith

print_digits-spells :
    (fuel n base : ℕ) (chars : Bytes)
    → IsTable chars
    → 2 ≤ base
    → base ≤ 16
    → n < 2 ^ fuel
    → 1 ≤ fuel
    → spells base 0 (print_digits fuel n base chars).1 ≡ n
unfolding print_digits
print_digits-spells zero n base chars t lo hi h pos = absurd (omega arith)
print_digits-spells (suc fuel) n base chars t lo hi h pos = elim (Bool-cases (leb base n)) [
  | inl more ↦
      let step = half n base lo in
      let power = pow-suc 2 fuel in
      let positive : 1 ≤ fuel = one_left fuel n base lo h (ground arith) in
      let ih = print_digits-spells fuel (n / base) base chars t lo hi (omega arith) positive in
      let digit = table_digit chars (n % base) t (omega (arith, (parts n base lo).1)) in
      let front : Bytes = (print_digits fuel (n / base) base chars).1 in
      let last : spells base 0 front * base + digit_of (char_at chars (n % base)) ≡ n =
        rw (ih, digit) (sym (parts n base lo).0) in
      rw more (spells-snoc base 0 front (char_at chars (n % base)) ∙ last)
  | inr less ↦
      let small : n < base = ground arith in
      let same : n % base ≡ n = mod-eq_of_lt small in
      let digit = table_digit chars n t (omega arith) in rw less (rw (same, digit) (omega arith))
]

print_digits-length :
    (fuel n base w : ℕ) (chars : Bytes)
    → 2 ≤ base
    → n < 2 ^ fuel
    → 1 ≤ fuel
    → (count_from fuel n base w + 1 ≡ w + length (print_digits fuel n base chars).1)
      × ((print_digits fuel n base chars).0 ≡ length (print_digits fuel n base chars).1)
unfolding print_digits count_from
print_digits-length zero n base w chars lo h pos = absurd (omega arith)
print_digits-length (suc fuel) n base w chars lo h pos = elim (Bool-cases (leb base n)) [
  | inl more ↦
      let step = half n base lo in
      let power = pow-suc 2 fuel in
      let positive : 1 ≤ fuel = one_left fuel n base lo h (ground arith) in
      let ih = print_digits-length fuel (n / base) base (w + 1) chars lo (omega arith) positive in
      rw more (rw length-append (omega (arith, ih)), rw length-append (omega (arith, ih)))
  | inr less ↦ rw less (refl, refl)
]

-- For a base from 2 to 16 and a 64-bit number: the characters that `printu` writes spell the number,
-- and there are as many as `Digits::count_unsigned` counts and `printu` returns.
pub printu-spells :
    (n base : ℕ) (chars : Bytes)
    → IsTable chars
    → 2 ≤ base
    → base ≤ 16
    → n < word_mod
    → (spells base 0 (printu n base chars).1 ≡ n)
      × ((printu n base chars).0 ≡ length (printu n base chars).1)
      × (count_unsigned n base ≡ length (printu n base chars).1)
unfolding printu count_unsigned
printu-spells n base chars t lo hi h =
    let size = print_digits-length max_digits n base 1 chars lo h (omega arith) in
    (
      print_digits-spells max_digits n base chars t lo hi h (omega arith),
      size.1,
      omega (arith, size.0),
    )
