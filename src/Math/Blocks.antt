-- ===== src/Math/Blocks.antt =====
-- `minshift`: the aligned blocks into which a range of pages or selectors is cut.
use native.Mathlib.Nat.{pow-suc, one-le-pow, pow-le-pow_right, mul-div_cancel}
use nre.Base.{
  ℕ, zero, suc, ◌+◌, ◌-◌, ◌*◌, ◌/◌, ◌%◌, ◌^◌, ◌≤◌, ◌<◌, ◌≡◌, ◌⊎◌, inl, inr, refl, ap, sym, ◌∙◌,
  arith, some, min, u32_mod, ◌==◌, Bool-cases,
}
use nre.Math.{low_bit, bit_scan_forward, bit_scan_reverse, or_bit, minshift}
use nre.Math.Powers.{scan_bounds, scan-eq}
use nre.Math.Rounding.{pow_split}

-- The lowest one bit divides, and twice it does not.
abbrev Lowest : ℕ → ℕ → Type 0
Lowest v k = (q : ℕ) × (v ≡ (2 * q + 1) * 2 ^ k)

low_bit_lem :
    (bits v q r : ℕ)
    → v ≡ q * 2 ^ bits + r
    → 0 < r
    → r < 2 ^ bits
    → (k : ℕ) × (low_bit bits v ≡ some k) × (k < bits) × Lowest v k
unfolding low_bit
low_bit_lem zero v q r e h l = absurd (omega (arith, h, l))
low_bit_lem (suc bits) v q r e h l = elim (Bool-cases (v % 2 == 1)) [
  | inl odd ↦ (0, rw odd refl, omega arith, (v / 2, ground (arith, odd)))
  | inr even ↦
      (let twice = ap (λ (t : ℕ). q * t) (pow-suc 2 bits) in
        let power = pow-suc 2 bits in
        let even' : v % 2 ≡ 0 = ground (arith, even) in
        let half : v / 2 ≡ q * 2 ^ bits + r / 2 = omega (arith, twice, e, even') in
        let (k, found, small, (p, split)) =
          low_bit_lem bits (v / 2) q (r / 2) half (omega (arith, twice, e, even', h))
            (omega (arith, power, l)) in
        let twice' = ap (λ (t : ℕ). (2 * p + 1) * t) (pow-suc 2 k) in
        (
          suc k,
          rw (even, found) refl,
          omega (arith, small),
          (p, omega (arith, split, even', twice')),
        ))
]

-- Every bit of a block's first number below the block's size is zero, in the sense of a multiple.
abbrev pub Multiple : ℕ → ℕ → Type 0
Multiple start n = (q : ℕ) × (start ≡ q * 2 ^ n)

pub lower : (start n m : ℕ) → m ≤ n → Multiple start n → Multiple start m
lower start n m h (q, e) =
    let power = ap (λ (t : ℕ). q * t) (pow_split m (n - m) n (omega (arith, h))) in
    (q * 2 ^ (n - m), omega (arith, e, power))

not_twice : (start k : ℕ) → Lowest start k → Multiple start (suc k) → ⊥
not_twice start k (p, e) (q, f) =
    let power = ap (λ (t : ℕ). q * t) (pow-suc 2 k) in
    let same : (2 * p + 1) * 2 ^ k ≡ (2 * q) * 2 ^ k = omega (arith, e, f, power) in
    let positive = one-le-pow k 2 (omega arith) in
    let parts : 2 * p + 1 ≡ 2 * q =
      sym (mul-div_cancel (2 * p + 1) positive)
      ∙ ap (λ (t : ℕ). t / 2 ^ k) same
      ∙ mul-div_cancel (2 * q) positive in
    omega (arith, parts)

low_bit-add : (bits v c : ℕ) → low_bit bits (v + c * 2 ^ bits) ≡ low_bit bits v
unfolding low_bit
low_bit-add zero v c = refl
low_bit-add (suc bits) v c =
    let power = ap (λ (t : ℕ). c * t) (pow-suc 2 bits) in
    let parity : (v + c * 2 ^ suc bits) % 2 ≡ v % 2 = omega (arith, power) in
    let half : (v + c * 2 ^ suc bits) / 2 ≡ v / 2 + c * 2 ^ bits = omega (arith, power) in
    rw (parity, half, low_bit-add bits (v / 2) c) refl

or_bit-cases : (k v : ℕ) → (or_bit k v ≡ v) ⊎ (or_bit k v ≡ v + 2 ^ k)
unfolding or_bit
or_bit-cases k v = elim (Bool-cases (v / 2 ^ k % 2 == 1)) [
  | inl e ↦ inl (rw (e, or_bit) refl)
  | inr e ↦ inr (rw (e, or_bit) refl)
]

scan_forward_low : (v : ℕ) → bit_scan_forward v ≡ low_bit 32 v
unfolding bit_scan_forward
scan_forward_low v = refl

forward : (start : ℕ) → bit_scan_forward (or_bit 63 start) ≡ low_bit 32 start
forward start = scan_forward_low (or_bit 63 start) ∙ (elim (or_bit-cases 63 start) [
  | inl e ↦ ap (λ (v : ℕ). low_bit 32 v) e
  | inr e ↦ ap (λ (v : ℕ). low_bit 32 v) e ∙ low_bit-add 32 start (2 ^ 31)
])

or_bit_zero :
    (size : ℕ) → (size ≤ or_bit 0 size) × (or_bit 0 size ≤ size + 1) × (or_bit 0 size % 2 ≡ 1)
unfolding or_bit
or_bit_zero size = (ground arith, ground arith, ground arith)

power_below : (s v size : ℕ) → 2 ^ s ≤ v → v % 2 ≡ 1 → v ≤ size + 1 → 0 < size → 2 ^ s ≤ size
power_below zero v size h k l m = omega (arith, m)
power_below (suc s) v size h k l m = omega (arith, h, k, l, pow-suc 2 s)

-- The highest bit of a size, with its lowest bit set.
size_bounds :
    (size : ℕ)
    → 0 < size
    → size < u32_mod
    → let s = bit_scan_reverse (or_bit 0 size) in (2 ^ s ≤ size) × (size < 2 ^ suc s)
size_bounds size h k =
    let (low, high, odd) = or_bit_zero size in
    let (least, most, few) =
      scan_bounds (or_bit 0 size) (omega (arith, low, h)) (omega (arith, high, odd, k)) in
    (
      power_below (bit_scan_reverse (or_bit 0 size)) (or_bit 0 size) size least odd high h,
      omega (arith, low, most, pow-suc 2 (bit_scan_reverse (or_bit 0 size))),
    )

le-cases : (a b : ℕ) → (a ≤ b) ⊎ (b < a)
le-cases a b = ground arith

minshift-some :
    (start size k : ℕ)
    → bit_scan_forward (or_bit 63 start) ≡ some k
    → minshift start size ≡ some (min k (bit_scan_reverse (or_bit 0 size)))
unfolding minshift
minshift-some start size k e = rw (e, minshift) refl

-- For a start whose low 32 bits are not all zero and a size from 1 to below 2 ^ 32: `minshift` is the
-- order of a block that begins at the start, at a multiple of its size, and ends within the range; a
-- block of twice the size would not begin at a multiple of its size, or not end within the range.
pub minshift_lem :
    (start size : ℕ)
    → 0 < start % u32_mod
    → 0 < size
    → size < u32_mod
    → (n : ℕ) × (minshift start size ≡ some n)
      × Multiple start n
      × (2 ^ n ≤ size)
      × ((Multiple start (suc n) → ⊥) ⊎ (size < 2 ^ suc n))
minshift_lem start size h k l =
    let (b, found, small, lowest) =
      low_bit_lem 32 start (start / u32_mod) (start % u32_mod) (omega arith) h (omega arith) in
    let s = bit_scan_reverse (or_bit 0 size) in
    let (fits, close) = size_bounds size k l in
    let result = minshift-some start size b (forward start ∙ found) in
    let multiple : Multiple start b = (2 * lowest.0 + 1, lowest.1) in
    elim (le-cases b s) [
      | inl e ↦ (
        b,
        result ∙ ap (λ (n : ℕ). some n) (omega (arith, e)),
        multiple,
        omega (arith, fits, pow-le-pow_right {n = 2} (omega arith) e),
        inl (not_twice start b lowest),
      )
      | inr e ↦ (
        s,
        result ∙ ap (λ (n : ℕ). some n) (omega (arith, e)),
        lower start b s (omega (arith, e)) multiple,
        fits,
        inr close,
      )
    ]

pub minshift_run : minshift 0x310 32 ≡ some 4
unfolding minshift bit_scan_forward low_bit or_bit
minshift_run =
    ap (λ (n : ℕ). some (min 4 n)) (scan-eq 5 33 (omega arith) (omega arith) (omega arith))
