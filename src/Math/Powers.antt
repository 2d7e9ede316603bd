-- ===== src/Math/Powers.antt =====
-- `bit_scan_reverse`, `is_pow2` and `prev_pow2`.
use native.Mathlib.Decide.{dec_le, ℕ_discrete}
use native.Mathlib.Nat.{pow-suc, one-le-pow, mod_self, mod-eq_of_lt, pow-le-pow_right}
use nre.Base.{
  ℕ, zero, suc, ◌+◌, ◌-◌, ◌*◌, ◌/◌, ◌%◌, ◌^◌, ◌≤◌, ◌<◌, ◌≡◌, inl, inr, refl, ap, ◌∙◌, arith,
  bit_and, bit_and_digit, bit_and_low, bit_xor_31, word_mod, u32_mod, ltb, ◌==◌, if◌then◌else◌,
  Bool-cases, sub64, add64, false,
}
use nre.Math.{top_bit, bit_scan_reverse, is_pow2, prev_pow2, next_pow2, next_pow2_shift, shifted}

-- `top_bit` is the exponent of the greatest power of two up to the number.
top_bit_bounds :
    (bits v : ℕ)
    → 0 < v
    → v < 2 ^ suc bits
    → (2 ^ top_bit bits v ≤ v) × (v < 2 * 2 ^ top_bit bits v) × (top_bit bits v ≤ bits)
unfolding top_bit
top_bit_bounds zero v p h = omega arith
top_bit_bounds (suc bits) v p h = elim (Bool-cases (ltb v 2)) [
  | inl e ↦ rw e (ground arith)
  | inr e ↦ rw e (
      ground (
        arith,
        top_bit_bounds bits (v / 2),
        pow-suc 2 (suc bits),
        pow-suc 2 (top_bit bits (v / 2)),
      ))
]

pub scan_bounds :
    (v : ℕ)
    → 0 < v
    → v < u32_mod
    → (2 ^ bit_scan_reverse v ≤ v) × (v < 2 * 2 ^ bit_scan_reverse v) × (bit_scan_reverse v ≤ 31)
unfolding bit_scan_reverse
scan_bounds v p h =
    rw (mod-eq_of_lt h, bit_xor_31 (top_bit 31 v) (omega (arith, top_bit_bounds 31 v p h)))
      (top_bit_bounds 31 v p h)

-- Below a common top bit, `&` goes on with the rest.
and_top :
    (k r s : ℕ) → r < 2 ^ k → s < 2 ^ k → bit_and (2 ^ k + r) (2 ^ k + s) ≡ 2 ^ k + bit_and r s
and_top zero r s hr hs =
    let e : r ≡ 0 = omega arith in let f : s ≡ 0 = omega arith in rw (e, f) refl
and_top (suc k) r s hr hs = ground (
  arith,
  bit_and_digit (2 ^ suc k + r) (2 ^ suc k + s),
  bit_and_digit r s,
  pow-suc 2 k,
  and_top k (r / 2) (s / 2),
)

and_pred_power : (n v : ℕ) → v ≡ 2 ^ n → bit_and v (v - 1) ≡ 0
and_pred_power n v e = rw e (bit_and_low n (2 ^ n) ∙ mod_self (2 ^ n))

and_pred_other : (n v : ℕ) → 2 ^ n < v → v < 2 * 2 ^ n → 0 < bit_and v (v - 1)
and_pred_other n v lo hi =
    let r : ℕ = v - 2 ^ n in
    let e : v ≡ 2 ^ n + r = omega arith in
    let f : v - 1 ≡ 2 ^ n + (r - 1) = omega arith in
    let top = and_top n r (r - 1) (omega arith) (omega arith) in
    rw (f, ap (λ x. bit_and x (2 ^ n + (r - 1))) e) (omega (arith, top, one-le-pow n 2))

-- Between two powers of two, `is_pow2` holds at the lower one only.
is_pow2-between : (n v : ℕ) → 2 ^ n ≤ v → v < 2 * 2 ^ n → v < word_mod → is_pow2 v ≡ (v == 2 ^ n)
unfolding is_pow2
is_pow2-between n v lo hi h =
    let pos : 1 ≤ v = omega (arith, one-le-pow n 2) in
    let pred : sub64 v 1 ≡ v - 1 = omega arith in
    rw pred (elim (ℕ_discrete v (2 ^ n)) [
      | yes e ↦ ground (arith, and_pred_power n v e)
      | no e ↦ ground (arith, and_pred_other n v)
    ])

-- The exponent between two powers of two is determined.
pub exponent_le : (a b v : ℕ) → 2 ^ a ≤ v → v < 2 * 2 ^ b → a ≤ b
exponent_le a b v h k = elim (dec_le a b) [
  | yes p ↦ p
  | no p ↦ absurd (
      omega (
        arith,
        pow-suc 2 b,
        pow-le-pow_right {n = 2} (omega arith) {i = suc b} {j = a} (omega arith),
      ))
]

pub scan-eq : (n v : ℕ) → 2 ^ n ≤ v → v < 2 * 2 ^ n → v < u32_mod → bit_scan_reverse v ≡ n
scan-eq n v lo hi h =
    let b = scan_bounds v (omega (arith, one-le-pow n 2)) h in
    omega (
      arith,
      exponent_le n (bit_scan_reverse v) v lo b.1,
      exponent_le (bit_scan_reverse v) n v b.0 hi,
    )

-- For a number of at least two and below 2 ^ 31, with 2 ^ n the greatest power of two up to it:
-- `prev_pow2` returns the number itself if it is that power, and otherwise half of that power.
pub prev_pow2_lem :
    (n v : ℕ)
    → 1 ≤ n
    → 2 ^ n ≤ v
    → v < 2 * 2 ^ n
    → v < 2 ^ 31
    → prev_pow2 v ≡ (if v == 2 ^ n then v else 2 ^ (n - 1))
unfolding prev_pow2
prev_pow2_lem n v hn lo hi h = ground (
  arith,
  scan-eq n v lo hi,
  is_pow2-between n v lo hi,
  pow-suc 2 (n - 1),
  one-le-pow n 2,
  exponent_le n 30 v lo,
)

shifted_few : (n : ℕ) → n < 31 → shifted n ≡ 2 ^ n
unfolding shifted
shifted_few n h =
    let same : n % 32 ≡ n = omega (arith, h) in
    let small : (n == 31) ≡ false = ground (arith, h) in rw (same, small) refl

next_at :
    (n v : ℕ)
    → bit_scan_reverse v ≡ n
    → 0 < v
    → v < 2 * 2 ^ n
    → 2 ^ n ≤ v
    → is_pow2 v ≡ (v == 2 ^ n)
    → v ≤ 2 ^ 30
    → next_pow2 v ≡ (if v == 2 ^ n then v else 2 ^ suc n)
unfolding next_pow2 next_pow2_shift
next_at n v e h lo hi k f =
    let some_v : (v == 0) ≡ false = ground (arith, h) in
    elim (Bool-cases (v == 2 ^ n)) [
      | inl y ↦ rw (k ∙ y, y) refl
      | inr z ↦
          (let below : 2 ^ n ≤ v - 1 = ground (arith, z, lo) in
            let few : n ≤ 29 = exponent_le n 29 (v - 1) below (omega (arith, h, f)) in
            let s : add64 n 1 ≡ suc n = omega (arith, few) in
            rw (k ∙ z, z)
              (rw (some_v, e) (ap shifted s ∙ shifted_few (suc n) (omega (arith, few)))))
    ]

-- For a number from 1 to 2 ^ 30: `next_pow2` is a power of two, at least the number and less than
-- twice the number.
pub next_pow2_lem :
    (v : ℕ) → 0 < v → v ≤ 2 ^ 30 → (m : ℕ) × (next_pow2 v ≡ 2 ^ m) × (v ≤ 2 ^ m) × (2 ^ m < 2 * v)
next_pow2_lem v h k =
    let (lo, hi, few) = scan_bounds v h (omega arith) in
    let n = bit_scan_reverse v in
    let e = next_at n v refl h hi lo (is_pow2-between n v lo hi (omega arith)) k in
    elim (Bool-cases (v == 2 ^ n)) [
      | inl y ↦ (n, ground (arith, e, y), ground (arith, hi, lo, y), ground (arith, h, y))
      | inr z ↦ (
        suc n,
        ground (arith, e, z),
        omega (arith, hi, pow-suc 2 n),
        ground (arith, z, lo, pow-suc 2 n),
      )
    ]

pub next_pow2_run : next_pow2 192 ≡ 256
unfolding next_pow2 next_pow2_shift is_pow2 shifted
next_pow2_run =
    ap (λ (n : ℕ). shifted (add64 n 1)) (scan-eq 7 192 (omega arith) (omega arith) (omega arith))
