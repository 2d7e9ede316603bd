-- ===== src/Region/Sum.antt =====
-- Sums over the regions of a list of a weight that is additive in the size: the number of regions
-- that hold an address, and the number of units.
use nre.Base.{
  ℕ, zero, suc, ◌+◌, ◌-◌, ◌≤◌, ◌<◌, ◌≡◌, refl, ap, arith, List, [], ◌∷◌, ◌++◌, some, leb, ltb, ◌&&◌,
  if◌then◌else◌, get_elem?, set, erase_at, word_mod,
}
use nre.Region.{Region, total_from, total_count}

-- A weight of ranges: the two parts of a range weigh together what the range does.
pub record IsAdditive (w : ℕ → ℕ → ℕ) : Type 0 where
  pub split : (a s t : ℕ) → w a (s + t) ≡ w a s + w (a + s) t

pub weight_zero : (w : ℕ → ℕ → ℕ) → IsAdditive w → (a : ℕ) → w a 0 ≡ 0
weight_zero w ad a = omega (arith, ad.split a 0 0, ap (λ (x : ℕ). w x 0) same)
  where
    same : a + 0 ≡ a
    same = omega arith

-- A range splits into what stands before a part of it, the part, and what stands after it.
pub weight_parts :
    (w : ℕ → ℕ → ℕ)
    → IsAdditive w
    → (a size s count : ℕ) → a ≤ s
    → s + count ≤ a + size
    → w a size ≡ w a (s - a) + (w s count + w (s + count) (a + size - (s + count)))
weight_parts w ad a size s count above inside =
    let e : size ≡ s - a + (size - (s - a)) = omega arith in
    let f : size - (s - a) ≡ count + (a + size - (s + count)) = omega arith in
    let g : a + (s - a) ≡ s = omega arith in
    omega (
      arith,
      ap (λ (x : ℕ). w a x) e,
      ad.split a (s - a) (size - (s - a)),
      ap (λ (x : ℕ). w x (size - (s - a))) g,
      ap (λ (x : ℕ). w s x) f,
      ad.split s count (a + size - (s + count)),
    )

unfoldable pub sum : (ℕ → ℕ → ℕ) → List Region → ℕ
sum w [] = 0
sum w (r ∷ rs) = w r.addr r.size + sum w rs

module _ (w : ℕ → ℕ → ℕ) where
  pub sum-set :
      (regs : List Region) (i : ℕ) (r v : Region)
      → get_elem? regs i ≡ some r
      → sum w (set regs i v) + w r.addr r.size ≡ sum w regs + w v.addr v.size
  unfolding sum
  sum-set [] i r v e = cc
  sum-set (x ∷ xs) zero r v e = ground arith
  sum-set (x ∷ xs) (suc i) r v e = ground (arith, sum-set xs i r v e)

  pub sum-erase_at :
      (regs : List Region) (i : ℕ) (r : Region)
      → get_elem? regs i ≡ some r
      → sum w (erase_at regs i) + w r.addr r.size ≡ sum w regs
  unfolding sum
  sum-erase_at [] i r e = cc
  sum-erase_at (x ∷ xs) zero r e = ground arith
  sum-erase_at (x ∷ xs) (suc i) r e = ground (arith, sum-erase_at xs i r e)

  pub sum-append : (xs ys : List Region) → sum w (xs ++ ys) ≡ sum w xs + sum w ys
  unfolding sum
  sum-append [] ys = omega arith
  sum-append (x ∷ xs) ys = omega (arith, sum-append xs ys)

  pub sum-snoc : (xs : List Region) (r : Region) → sum w (xs ++ r ∷ []) ≡ sum w xs + w r.addr r.size
  unfolding sum
  sum-snoc xs r = omega (arith, sum-append xs (r ∷ []))

-- 1 for an address of the range, 0 for any other
pub holds : ℕ → ℕ → ℕ → ℕ
holds a addr size = if leb addr a && ltb a (addr + size) then 1 else 0

pub holds-IsAdditive : (a : ℕ) → IsAdditive (holds a)
unfolding holds
holds-IsAdditive a = record { split = λ b s t. ground arith }

abbrev pub units : ℕ → ℕ → ℕ
units addr size = size

pub units-IsAdditive : IsAdditive units
units-IsAdditive = record { split = λ b s t. refl }

-- The number of regions that hold an address.
unfoldable pub cover : List Region → ℕ → ℕ
unfolding sum holds
cover regs a = sum (holds a) regs

total_from-sum :
    (s : ℕ) (regs : List Region)
    → s + sum units regs < word_mod
    → total_from s regs ≡ s + sum units regs
unfolding total_from sum
total_from-sum s [] h = omega arith
total_from-sum s (r ∷ rs) h = ground (arith, total_from-sum (s + r.size) rs)

-- Where the sum of the sizes is a word, `total_count` is that sum.
pub total_count-sum :
    (regs : List Region) → sum units regs < word_mod → total_count regs ≡ sum units regs
unfolding total_count
total_count-sum regs h = omega (arith, total_from-sum 0 regs)
