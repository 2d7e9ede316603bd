-- ===== src/Region/Skips.antt =====
-- `alloc_at` without `free_required`: after it has taken something out, the loop restarts at the
-- list's beginning and then steps past the first region.
use nre.Base.{
  ℕ, zero, suc, true, false, Bool, ◌+◌, ◌≤◌, ◌<◌, ◌≡◌, refl, ◌∙◌, arith, List, [], ◌∷◌, some,
  get_elem?, word_mod, add64, All, length,
}
use nre.Math.{overlapped}
use nre.Region.{Region, removed, null_fault, after_begin, remove_from, alloc_at_loop, alloc_at}
use nre.Region.Free.{Fits}
use nre.Region.AllocAt.{Misses, step_end, step_miss}

-- The region lies in the range.
abbrev pub InRange : ℕ → ℕ → Region → Type 0
InRange start count r = (start ≤ r.addr) × (r.addr + r.size ≤ start + count)

-- Where no region from the index on overlaps the range, the loop ends with what it has.
loop-Misses :
    (regs : List Region) (start count : ℕ) (fr : Bool) (total fuel i : ℕ) (rs : List Region)
    → length rs < fuel
    → All (Misses start count) rs
    → ((j : ℕ) → get_elem? regs (i + j) ≡ get_elem? rs j)
    → alloc_at_loop fuel regs i start count fr total ≡ removed total regs
loop-Misses regs start count fr total zero i rs enough misses agree = absurd (omega arith)
loop-Misses regs start count fr total (suc fuel) i [] enough misses agree =
    let e : i + 0 ≡ i = omega arith in step_end fuel regs i start count fr total (rw e at (agree 0))
loop-Misses regs start count fr total (suc fuel) i (r ∷ rs) enough misses agree =
    step_miss fuel regs i start count fr total r here misses.0
    ∙ loop-Misses regs start count fr total fuel (i + 1) rs (omega arith) misses.1 agree'
  where
    here : get_elem? regs i ≡ some r
    here = let e : i + 0 ≡ i = omega arith in rw e at (agree 0)

    agree' : (j : ℕ) → get_elem? regs (i + 1 + j) ≡ get_elem? rs j
    agree' j = let e : i + 1 + j ≡ i + suc j = omega arith in rw e (agree (suc j))

module _ (r : Region) (start count : ℕ) (range : start + count < word_mod) (fits : Fits r)
    (some_units : 0 < r.size) (inside : InRange start count r) where
  hit : overlapped start count r.addr r.size ≡ true
  unfolding overlapped
  hit = ground arith

  remove_whole : (rs : List Region) → remove_from (r ∷ rs) 0 r start count ≡ (r.size, rs)
  unfolding remove_from
  remove_whole rs = ground arith

  restart_first :
      (fuel : ℕ) (r2 : Region) (rest : List Region)
      → alloc_at_loop (suc fuel) (r ∷ r2 ∷ rest) 0 start count false 0
        ≡ alloc_at_loop fuel (r2 ∷ rest) 1 start count false (add64 0 r.size)
  unfolding alloc_at_loop after_begin
  restart_first fuel r2 rest = rw (hit, remove_whole (r2 ∷ rest)) (rw (remove_whole (r2 ∷ rest)))

  restart_last : (fuel : ℕ) → alloc_at_loop (suc fuel) (r ∷ []) 0 start count false 0 ≡ null_fault
  unfolding alloc_at_loop after_begin
  restart_last fuel = rw (hit, remove_whole [])

-- If the first region is nonempty and lies wholly in the range, a second one follows, and no later
-- one overlaps the range, then `alloc_at` without `free_required` removes the first region only:
-- the second one stays, also where the range covers it.
pub alloc_at_skips :
    (r r2 : Region) (rest : List Region) (start count fuel : ℕ)
    → start + count < word_mod
    → Fits r
    → 0 < r.size
    → InRange start count r
    → All (Misses start count) rest
    → length rest < fuel
    → alloc_at (suc fuel) (r ∷ r2 ∷ rest) start count false ≡ removed r.size (r2 ∷ rest)
unfolding alloc_at
alloc_at_skips r r2 rest start count fuel range fits units inside misses enough =
    let sum : add64 0 r.size ≡ r.size = omega arith in
    rw (restart_first r start count range fits units inside fuel r2 rest, sum)
      (loop-Misses (r2 ∷ rest) start count false r.size fuel 1 rest enough misses
        (λ j. let e : 1 + j ≡ suc j = omega arith in rw e refl))

-- If the only region is nonempty and lies wholly in the range, then `alloc_at` without
-- `free_required` advances an iterator over the empty list, which reads through the null pointer.
pub alloc_at_faults :
    (r : Region) (start count fuel : ℕ)
    → start + count < word_mod
    → Fits r
    → 0 < r.size
    → InRange start count r
    → alloc_at (suc fuel) (r ∷ []) start count false ≡ null_fault
unfolding alloc_at
alloc_at_faults r start count fuel range fits units inside =
    restart_last r start count range fits units inside fuel
