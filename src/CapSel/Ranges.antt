-- ===== src/CapSel/Ranges.antt =====
-- The selectors given out: aligned, below the kernel's bound, and never given out twice.
use mathlib.Core.Path.{subst}
use native.Mathlib.Decide.{dec_le}
use native.Mathlib.Nat.{one-le-pow, pow-le-pow_right}
use nre.Base.{
  ℕ, ◌+◌, ◌-◌, ◌*◌, ◌/◌, ◌%◌, ◌^◌, ◌≤◌, ◌<◌, ◌≡◌, sym, arith, none, some, List, [], ◌∷◌, All,
  bit_and, bit_and_high, u32_mod, add32, sub32,
}
use nre.Math.Rounding.{pow_split, sub_one-mul, div-lt, mul-mod, multiple_bounds}
use nre.CapSel.{aligned, allocate}

aligned-eq :
    (k off : ℕ) → k ≤ 30 → off < 2 ^ 31 → aligned off (2 ^ k) ≡ (off + (2 ^ k - 1)) / 2 ^ k * 2 ^ k
unfolding aligned
aligned-eq k off hk h =
    let small : 2 ^ k ≤ 2 ^ 30 = pow-le-pow_right (omega arith) hk in
    let pos : 1 ≤ 2 ^ k = one-le-pow k 2 (omega arith) in
    let sum : sub32 (add32 off (2 ^ k)) 1 ≡ off + (2 ^ k - 1) = omega arith in
    let whole : 2 ^ 32 ≡ 2 ^ (32 - k) * 2 ^ k = pow_split k (32 - k) 32 (omega arith) in
    let x : ℕ = off + (2 ^ k - 1) in
    let mask : u32_mod - 1 - sub32 (2 ^ k) 1 ≡ (2 ^ (32 - k) - 1) * 2 ^ k =
      omega
        (arith, whole, sub_one-mul (2 ^ (32 - k)) (2 ^ k) (one-le-pow (32 - k) 2 (omega arith))) in
    let split : x ≡ x / 2 ^ k * 2 ^ k + x % 2 ^ k = parts x (2 ^ k) pos in
    let q : x / 2 ^ k < 2 ^ (32 - k) = div-lt x (2 ^ (32 - k)) (2 ^ k) pos (omega (arith, whole)) in
    rw (sum, mask)
      (subst (λ y. bit_and y ((2 ^ (32 - k) - 1) * 2 ^ k) ≡ x / 2 ^ k * 2 ^ k) (sym split)
        (bit_and_high k (32 - k) (x / 2 ^ k) (x % 2 ^ k) q (below x (2 ^ k) pos)))
  where
    parts : (y d : ℕ) → 1 ≤ d → y ≡ y / d * d + y % d
    parts y d h = grind arith

    below : (y d : ℕ) → 1 ≤ d → y % d < d
    below y d h = omega arith

-- For at most 2 ^ 31 selectors of which `off` are used, a count of 32 bits and an alignment 2 ^ k of
-- at most 2 ^ 30: `allocate` returns the first aligned selector that is not used, and all up to the
-- end of the range are used then; it throws E_NO_CAP_SELS exactly if the range from that selector on
-- ends above the kernel's bound.
pub allocate_lem :
    (cfg_cap off count k : ℕ)
    → k ≤ 30
    → cfg_cap < 2 ^ 31
    → off ≤ cfg_cap
    → count < u32_mod
    → (res : ℕ) × (res % 2 ^ k ≡ 0)
      × (off ≤ res)
      × (res < off + 2 ^ k)
      × (res + count ≤ cfg_cap → allocate cfg_cap off count (2 ^ k) ≡ some (res, res + count))
      × (cfg_cap < res + count → allocate cfg_cap off count (2 ^ k) ≡ none)
unfolding allocate
allocate_lem cfg_cap off count k hk cap used hc =
    let small : 2 ^ k ≤ 2 ^ 30 = pow-le-pow_right (omega arith) hk in
    let pos : 1 ≤ 2 ^ k = one-le-pow k 2 (omega arith) in
    let x : ℕ = off + (2 ^ k - 1) in
    let e = aligned-eq k off hk (omega arith) in
    let bounds = multiple_bounds x (2 ^ k) pos in
    (
      x / 2 ^ k * 2 ^ k,
      mul-mod (x / 2 ^ k) (2 ^ k) pos,
      omega (arith, bounds),
      omega (arith, bounds),
      λ h. rw (e, allocate) (ground (arith, bounds)),
      λ h. rw (e, allocate) (ground (arith, bounds)),
    )

-- The ranges that a program is given for requests of a count and an alignment's exponent, one after
-- the other; a refused request leaves the state as it is.
pub allocate_all : ℕ → ℕ → List (ℕ × ℕ) → List (ℕ × ℕ)
allocate_all cfg_cap off [] = []
allocate_all cfg_cap off ((count, k) ∷ rs) = elim (allocate cfg_cap off count (2 ^ k)) [
  | none ↦ allocate_all cfg_cap off rs
  | some (res, off') ↦ (res, count) ∷ allocate_all cfg_cap off' rs
]

-- The ranges start at `lo` or above, each behind the one before it, and end below `hi`.
abbrev pub Rising : ℕ → ℕ → List (ℕ × ℕ) → Type 0
Rising lo hi [] = Unit
Rising lo hi ((a, n) ∷ l) = (lo ≤ a) × (a + n ≤ hi) × Rising (a + n) hi l

abbrev pub Legal : ℕ × ℕ → Type 0
Legal (count, k) = (count < u32_mod) × (k ≤ 30)

Rising-lower : (lo mid hi : ℕ) (l : List (ℕ × ℕ)) → lo ≤ mid → Rising mid hi l → Rising lo hi l
Rising-lower lo mid hi [] le h = tt
Rising-lower lo mid hi ((a, n) ∷ l) le h = (omega (arith, h.0), h.1, h.2)

-- For at most 2 ^ 31 selectors, from a state within them on, and any requests with alignments up to
-- 2 ^ 30: the ranges given out follow each other without overlap, above what was used before and below
-- the kernel's bound.
pub allocate_all-Rising :
    (cfg_cap off : ℕ) (rs : List (ℕ × ℕ))
    → cfg_cap < 2 ^ 31
    → off ≤ cfg_cap
    → All Legal rs
    → Rising off cfg_cap (allocate_all cfg_cap off rs)
unfolding allocate_all
allocate_all-Rising cfg_cap off [] cap used legal = tt
allocate_all-Rising cfg_cap off ((count, k) ∷ rs) cap used legal =
    let (res, multiple, lo, hi, fits, full) =
      allocate_lem cfg_cap off count k legal.0.1 cap used legal.0.0 in
    elim (dec_le (res + count) cfg_cap) [
      | yes h ↦
          rw (fits h, allocate_all)
            (lo, h, allocate_all-Rising cfg_cap (res + count) rs cap h legal.1)
      | no h ↦
          rw (full (omega arith), allocate_all)
            (allocate_all-Rising cfg_cap off rs cap used legal.1)
    ]
