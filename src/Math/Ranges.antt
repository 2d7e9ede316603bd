-- ===== src/Math/Ranges.antt =====
-- `in_range` and `overlapped` against membership of addresses.
use nre.Base.{ℕ, ◌+◌, ◌≤◌, ◌<◌, ◌≡◌, ◌↔◌, true, arith, leb, word_mod, Bool-cases, inl, inr}
use nre.Math.{in_range, overlapped}

-- `a` is one of the `size` addresses from `base` on.
abbrev pub Within : ℕ → ℕ → ℕ → Type 0
Within a base size = (base ≤ a) × (a < base + size)

-- For a nonempty range that ends below the end of the address space, `in_range` holds exactly at
-- the addresses of the range.
pub in_range_iff :
    (a base size : ℕ)
    → 0 < size
    → base + size < word_mod
    → (in_range a base size ≡ true) ↔ Within a base size
unfolding in_range
in_range_iff a base size h fits = ground arith

-- For two nonempty ranges that end below the end of the address space, `overlapped` holds exactly
-- if some address lies in both.
pub overlapped_iff :
    (b1 s1 b2 s2 : ℕ)
    → 0 < s1
    → 0 < s2
    → b1 + s1 < word_mod
    → b2 + s2 < word_mod
    → (overlapped b1 s1 b2 s2 ≡ true) ↔ ((a : ℕ) × Within a b1 s1 × Within a b2 s2)
unfolding overlapped
overlapped_iff b1 s1 b2 s2 p1 p2 f1 f2 = (there, λ w. ground (arith, w.1, w.2))
  where
    there : overlapped b1 s1 b2 s2 ≡ true → (a : ℕ) × Within a b1 s1 × Within a b2 s2
    there h = elim (Bool-cases (leb b1 b2)) [
      | inl e ↦ (b2, ground arith, ground arith)
      | inr e ↦ (b1, ground arith, ground arith)
    ]
