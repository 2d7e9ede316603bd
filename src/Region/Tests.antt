-- ===== src/Region/Tests.antt =====
-- The region manager at concrete lists.
use nre.Base.{ℕ, ◌+◌, ◌%◌, ◌^◌, ◌≡◌, ◌⊎◌, true, refl, arith, List, [], ◌∷◌, some, get_elem?, All}
use nre.Math.{overlapped, round_up}
use nre.Region.{
  Region, removed, exists_error, alloc_at_loop, alloc_at, alloc, free, get_from, accepts, take_at,
  remove_from, scan,
}
use nre.Region.Sum.{cover, holds}
use nre.Region.Free.{cover-free}
use nre.Region.Alloc.{cover-alloc}
use nre.Region.AllocAt.{Misses, NoneBefore, Contains, alloc_at_required}

abbrev region : ℕ → ℕ → Region
region a s = record { addr = a; size = s }

abbrev two : List Region
two = region 0x1000 0x2000 ∷ region 0x8000 0x1000 ∷ []

free_runs : free two 0x3000 0x5000 ≡ region 0x1000 0x8000 ∷ []
unfolding free scan
free_runs = refl

alloc_runs :
    alloc (region 0x1800 0x3000 ∷ []) 0x800 0x1000
    ≡ some (0x2000, region 0x2800 0x2000 ∷ region 0x1800 0x800 ∷ [])
unfolding alloc get_from accepts take_at round_up
alloc_runs = refl

alloc_at_runs :
    alloc_at 5 two 0x1800 0x100 true
    ≡ removed 0x100 (region 0x1000 0x800 ∷ region 0x8000 0x1000 ∷ region 0x1900 0x1700 ∷ [])
unfolding alloc_at alloc_at_loop remove_from overlapped
alloc_at_runs = refl

cover-free_example :
    cover (free two 0x3000 0x10) 0x3008 ≡ cover two 0x3008 + holds 0x3008 0x3000 0x10
cover-free_example = cover-free two 0x3000 0x10 0x3008 (omega arith) (omega arith) (omega arith)

cover-alloc_example :
    (0x2000 % 2 ^ 12 ≡ 0)
    × ((a : ℕ)
        → cover (region 0x2800 0x2000 ∷ region 0x1800 0x800 ∷ []) a + holds a 0x2000 0x800
          ≡ cover (region 0x1800 0x3000 ∷ []) a)
unfolding round_up
cover-alloc_example =
    cover-alloc (region 0x1800 0x3000 ∷ []) 0x800 12
      (0x2000, region 0x2800 0x2000 ∷ region 0x1800 0x800 ∷ []) (omega arith) (omega arith)
      (omega arith) alloc_runs

alloc_at_required_example :
    (All (Misses 0x1800 0x100) two × (alloc_at 3 two 0x1800 0x100 true ≡ removed 0 two))
    ⊎ ((i : ℕ) × (r : Region) × (get_elem? two i ≡ some r)
        × NoneBefore two i 0x1800 0x100
        × (overlapped 0x1800 0x100 r.addr r.size ≡ true)
        × (¬ Contains 0x1800 0x100 r)
        × (alloc_at 3 two 0x1800 0x100 true ≡ exists_error))
    ⊎ ((i : ℕ) × (r : Region) × (get_elem? two i ≡ some r)
        × NoneBefore two i 0x1800 0x100
        × (overlapped 0x1800 0x100 r.addr r.size ≡ true)
        × Contains 0x1800 0x100 r
        × (regs' : List Region) × (alloc_at 3 two 0x1800 0x100 true ≡ removed 0x100 regs')
        × ((a : ℕ) → cover regs' a + holds a 0x1800 0x100 ≡ cover two a))
alloc_at_required_example =
    alloc_at_required 3 two 0x1800 0x100 (omega arith) (omega arith) (omega arith) (omega arith)
