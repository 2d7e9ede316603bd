-- ===== src/Math/Rounding.antt =====
-- `round_up` and `round_dn` at an alignment that is a power of two.
use mathlib.Core.Path.{subst}
use native.Mathlib.Nat.{pow-suc, one-le-pow, mod-eq-sub-div-mul, mul-div_cancel}
use nre.Base.{
  ℕ, zero, suc, ◌+◌, ◌-◌, ◌*◌, ◌/◌, ◌%◌, ◌^◌, ◌≤◌, ◌<◌, ◌≡◌, sym, ap, arith, bit_and, bit_and_high,
  word_mod, add64, sub64, not64,
}
use nre.Math.{round_up, round_dn}

pub pow_split : (k m n : ℕ) → k + m ≡ n → 2 ^ n ≡ 2 ^ m * 2 ^ k
pow_split zero m n e = let e' : m ≡ n = omega arith in rw (← e') (omega arith)
pow_split (suc k) m zero e = absurd (omega arith)
pow_split (suc k) m (suc n) e =
    omega
      (arith, pow-suc 2 n, ap (λ (t : ℕ). 2 ^ m * t) (pow-suc 2 k), pow_split k m n (omega arith))

pub sub_one-mul : (p k : ℕ) → 1 ≤ p → (p - 1) * k + k ≡ p * k
sub_one-mul zero k h = absurd (omega arith)
sub_one-mul (suc p) k h = let e : suc p - 1 ≡ p = omega arith in rw e (omega arith)

pub div-lt : (x p k : ℕ) → 1 ≤ k → x < p * k → x / k < p
div-lt x p k hk h = grind arith

mask_high : (p k : ℕ) → p * k ≡ word_mod → 1 ≤ p → 1 ≤ k → not64 (sub64 k 1) ≡ (p - 1) * k
mask_high p k e hp hk = ground (arith, sub_one-mul p k hp, bound)
  where
    bound : k ≤ p * k
    bound = grind arith

-- `a & ~(2^k - 1)` of a word clears the digits below the `k`-th.
pub clear_low :
    (k m x : ℕ)
    → k + m ≡ 64
    → x < word_mod
    → bit_and x (not64 (sub64 (2 ^ k) 1)) ≡ x / 2 ^ k * 2 ^ k
clear_low k m x e h =
    let e64 : 2 ^ m * 2 ^ k ≡ word_mod = sym (pow_split k m 64 e) in
    let hk : 1 ≤ 2 ^ k = one-le-pow k 2 (omega arith) in
    let small : x < 2 ^ m * 2 ^ k = rw e64 h in
    rw (mask_high (2 ^ m) (2 ^ k) e64 (one-le-pow m 2 (omega arith)) hk) (
      subst (λ y. bit_and y ((2 ^ m - 1) * 2 ^ k) ≡ x / 2 ^ k * 2 ^ k) (sym (split (2 ^ k) hk))
        (bit_and_high k m (x / 2 ^ k) (x % 2 ^ k) (div-lt x (2 ^ m) (2 ^ k) hk small)
          (rem (2 ^ k) hk)))
  where
    split : (d : ℕ) → 1 ≤ d → x ≡ x / d * d + x % d
    split d hd = grind arith

    rem : (d : ℕ) → 1 ≤ d → x % d < d
    rem d hd = omega arith

-- The value up to which the source rounds down to get the next multiple.
pub round_up-eq :
    (k value : ℕ)
    → k ≤ 64
    → value + 2 ^ k ≤ word_mod
    → round_up value (2 ^ k) ≡ (value + (2 ^ k - 1)) / 2 ^ k * 2 ^ k
unfolding round_up
round_up-eq k value hk h = rw last (clear_low k (64 - k) (value + (2 ^ k - 1)) (omega arith) small)
  where
    pos : 1 ≤ 2 ^ k
    pos = one-le-pow k 2 (omega arith)

    last : sub64 (add64 value (2 ^ k)) 1 ≡ value + (2 ^ k - 1)
    last = omega (arith, pos)

    small : value + (2 ^ k - 1) < word_mod
    small = omega (arith, pos)

pub mul-mod : (q d : ℕ) → 1 ≤ d → q * d % d ≡ 0
mul-mod q d h = rw (mod-eq-sub-div-mul, mul-div_cancel q h) (omega arith)

pub multiple_bounds : (x d : ℕ) → 1 ≤ d → (x / d * d ≤ x) × (x < x / d * d + d)
multiple_bounds x d h = (grind arith, grind arith)

-- For an alignment 2 ^ k and a value that is not within one alignment of the end of the address
-- space, `round_up` gives a multiple of the alignment, at least the value and less than one
-- alignment above it.
pub round_up_lem :
    (k value : ℕ)
    → k ≤ 64
    → value + 2 ^ k ≤ word_mod
    → (round_up value (2 ^ k) % 2 ^ k ≡ 0)
      × (value ≤ round_up value (2 ^ k))
      × (round_up value (2 ^ k) < value + 2 ^ k)
round_up_lem k value hk h =
    let e = round_up-eq k value hk h in
    let pos : 1 ≤ 2 ^ k = one-le-pow k 2 (omega arith) in
    let x : ℕ = value + (2 ^ k - 1) in
    (
      rw e (mul-mod (x / 2 ^ k) (2 ^ k) pos),
      omega (arith, e, multiple_bounds x (2 ^ k) pos),
      omega (arith, e, multiple_bounds x (2 ^ k) pos),
    )

-- For an alignment 2 ^ k, `round_dn` of a word gives the multiple of the alignment in the last
-- 2 ^ k numbers up to it.
pub round_dn_lem :
    (k value : ℕ)
    → k ≤ 64
    → value < word_mod
    → (round_dn value (2 ^ k) % 2 ^ k ≡ 0)
      × (round_dn value (2 ^ k) ≤ value)
      × (value < round_dn value (2 ^ k) + 2 ^ k)
unfolding round_dn
round_dn_lem k value hk h =
    let e = clear_low k (64 - k) value (omega arith) h in
    let pos : 1 ≤ 2 ^ k = one-le-pow k 2 (omega arith) in
    (
      rw e (mul-mod (value / 2 ^ k) (2 ^ k) pos),
      rw e (multiple_bounds value (2 ^ k) pos).0,
      rw e (multiple_bounds value (2 ^ k) pos).1,
    )
