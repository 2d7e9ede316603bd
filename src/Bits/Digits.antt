-- ===== src/Bits/Digits.antt =====
-- `&` and `|` of numbers that are cut at a binary digit.
use Prim.Native.Nat.{digits, max, bit_or-bitwise}
use native.Mathlib.Nat.{pow-suc}
use nre.Base.{
  ℕ, zero, suc, ◌+◌, ◌*◌, ◌/◌, ◌%◌, ◌^◌, ◌≤◌, ◌<◌, ◌≡◌, refl, sym, ap, ◌∙◌, arith, bit_and, bit_or,
  bit_and_digit, bit_and-zero,
}

-- `|` as the library defines it, digit by digit on fuel
abbrev disj : ℕ → ℕ → ℕ → ℕ
disj fuel x y = digits (λ b. b) max fuel x y

disj-zero : (fuel y : ℕ) → disj fuel 0 y ≡ y
disj-zero zero y = refl
disj-zero (suc fuel) y = refl

-- Any two amounts of fuel that are enough give the same digits.
enough_fuel : (x y f g : ℕ) → x ≤ f → x ≤ g → disj f x y ≡ disj g x y
enough_fuel zero y f g hf hg = disj-zero f y ∙ sym (disj-zero g y)
enough_fuel (suc x) y zero g hf hg = absurd (omega arith)
enough_fuel (suc x) y (suc f) zero hf hg = absurd (omega arith)
enough_fuel (suc x) y (suc f) (suc g) hf hg =
    let half = suc x / 2 in omega (arith, enough_fuel half (y / 2) f g (omega arith) (omega arith))

pub bit_or_digit : (x y : ℕ) → bit_or x y ≡ bit_or (x / 2) (y / 2) * 2 + max (x % 2) (y % 2)
bit_or_digit zero y = omega (arith, bit_or-bitwise 0 y, bit_or-bitwise 0 (y / 2))
bit_or_digit (suc x) y =
    let half = suc x / 2 in
    let same = enough_fuel half (y / 2) x half (omega arith) (omega arith) in
    omega (arith, same, bit_or-bitwise half (y / 2), bit_or-bitwise (suc x) y)

or-zero_below : (bound x : ℕ) → x ≤ bound → bit_or x 0 ≡ x
or-zero_below bound zero h = refl
or-zero_below zero (suc x) h = absurd (omega arith)
or-zero_below (suc bound) (suc x) h =
    omega (arith, or-zero_below bound (suc x / 2) (omega arith), bit_or_digit (suc x) 0)

pub bit_or-zero : (x : ℕ) → bit_or x 0 ≡ x
bit_or-zero x = or-zero_below x x (omega arith)

pub zero_bit_or : (y : ℕ) → bit_or 0 y ≡ y
zero_bit_or y = bit_or-bitwise 0 y

-- Cut at any digit, the upper and the lower parts are joined on their own.
pub or_parts :
    (k h g b c : ℕ)
    → b < 2 ^ k
    → c < 2 ^ k
    → bit_or (h * 2 ^ k + b) (g * 2 ^ k + c) ≡ bit_or h g * 2 ^ k + bit_or b c
or_parts zero h g b c hb hc =
    let e : b ≡ 0 = omega arith in
    let f : c ≡ 0 = omega arith in
    let e' : h * 1 + b ≡ h = omega arith in
    let f' : g * 1 + c ≡ g = omega arith in rw (e', f') (rw (e, f) (omega (arith, bit_or-zero 0)))
or_parts (suc k) h g b c hb hc = ground (
  arith,
  bit_or_digit (h * 2 ^ suc k + b) (g * 2 ^ suc k + c),
  bit_or_digit b c,
  ap (λ (t : ℕ). h * t) (pow-suc 2 k),
  ap (λ (t : ℕ). g * t) (pow-suc 2 k),
  ap (λ (t : ℕ). bit_or h g * t) (pow-suc 2 k),
  pow-suc 2 k,
  or_parts k h g (b / 2) (c / 2),
)

pub and_parts :
    (k h g b c : ℕ)
    → b < 2 ^ k
    → c < 2 ^ k
    → bit_and (h * 2 ^ k + b) (g * 2 ^ k + c) ≡ bit_and h g * 2 ^ k + bit_and b c
and_parts zero h g b c hb hc =
    let e : b ≡ 0 = omega arith in
    let f : c ≡ 0 = omega arith in
    let e' : h * 1 + b ≡ h = omega arith in
    let f' : g * 1 + c ≡ g = omega arith in rw (e', f') (rw (e, f) (omega (arith, bit_and-zero 0)))
and_parts (suc k) h g b c hb hc = ground (
  arith,
  bit_and_digit (h * 2 ^ suc k + b) (g * 2 ^ suc k + c),
  bit_and_digit b c,
  ap (λ (t : ℕ). h * t) (pow-suc 2 k),
  ap (λ (t : ℕ). g * t) (pow-suc 2 k),
  ap (λ (t : ℕ). bit_and h g * t) (pow-suc 2 k),
  pow-suc 2 k,
  and_parts k h g (b / 2) (c / 2),
)
