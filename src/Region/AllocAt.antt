-- ===== src/Region/AllocAt.antt =====
-- `alloc_at`: with `free_required` it takes the range out of the one region that contains it, or
-- throws; without it, the restart of the loop passes the first region over.
use nre.Base.{
  ℕ, zero, suc, true, false, ◌+◌, ◌-◌, ◌≤◌, ◌<◌, ◌≡◌, refl, sym, ap, ◌∙◌, ◌⊎◌, inl, inr, arith,
  Bool-cases, List, [], ◌∷◌, some, get_elem?, set, word_mod, add64, sub64, leb, none, Bool, ◌&&◌,
  if◌then◌else◌, All, All-get, length,
}
use mathlib.Core.Path.{subst}
use mathlib.Core.Option.{some-injective}
use native.Mathlib.Decide.{ℕ_discrete}
use nre.Math.{overlapped}
use nre.Region.{Region, Outcome, removed, exists_error, remove_from, alloc_at_loop, alloc_at}
use nre.Region.Free.{Fits}
use nre.Region.Sum.{
  IsAdditive, weight_zero, weight_parts, sum, sum-set, sum-erase_at, sum-snoc, cover, holds,
  holds-IsAdditive,
}

-- The range lies in the region.
abbrev pub Contains : ℕ → ℕ → Region → Type 0
Contains start count r = (r.addr ≤ start) × (start + count ≤ r.addr + r.size)

abbrev pub Misses : ℕ → ℕ → Region → Type 0
Misses start count r = overlapped start count r.addr r.size ≡ false

module _ (w : ℕ → ℕ → ℕ) (ad : IsAdditive w) (regs : List Region) (i : ℕ) (r : Region)
    (start count : ℕ) (at : get_elem? regs i ≡ some r) (fits : Fits r) (pos : 0 < count)
    (inside : Contains start count r) where
  remove_from-sum :
      ((remove_from regs i r start count).0 ≡ count)
      × (sum w (remove_from regs i r start count).1 + w start count ≡ sum w regs)
  unfolding remove_from
  remove_from-sum =
      let stop : add64 start count ≡ start + count = omega arith in
      let r_stop : add64 r.addr r.size ≡ r.addr + r.size = omega arith in
      let cut : sub64 start r.addr ≡ start - r.addr = omega arith in
      let len : sub64 r.size (sub64 (start + count) r.addr) ≡ r.addr + r.size - (start + count) =
        omega arith in
      let rest : sub64 (r.addr + r.size) (start + count) ≡ r.addr + r.size - (start + count) =
        omega arith in
      rw (stop, r_stop, cut, len, rest)
        (ground (
          arith,
          weight_parts w ad r.addr r.size start count inside.0 inside.1,
          sum-erase_at w regs i r at,
          sum-set w regs i r
              (record { addr = start + count; size = r.addr + r.size - (start + count) }) at,
          sum-set w regs i r (record { addr = r.addr; size = start - r.addr }) at,
          sum-snoc w (set regs i (record { addr = r.addr; size = start - r.addr }))
              (record { addr = start + count; size = r.addr + r.size - (start + count) }),
          weight_zero w ad (start + count),
          weight_zero w ad r.addr,
        ))

-- One round of the loop, by what stands at its index.
pub step_end :
    (fuel : ℕ) (regs : List Region) (i start count : ℕ) (fr : Bool) (total : ℕ)
    → get_elem? regs i ≡ none
    → alloc_at_loop (suc fuel) regs i start count fr total ≡ removed total regs
unfolding alloc_at_loop
step_end fuel regs i start count fr total e = rw (e, alloc_at_loop)

module _ (fuel : ℕ) (regs : List Region) (i start count : ℕ) (fr : Bool) (total : ℕ)
    (r : Region) where
  pub step_miss :
      get_elem? regs i ≡ some r
      → Misses start count r
      → alloc_at_loop (suc fuel) regs i start count fr total
        ≡ alloc_at_loop fuel regs (i + 1) start count fr total
  unfolding alloc_at_loop
  step_miss e miss = rw (e, alloc_at_loop) (rw miss)

  step_hit :
      get_elem? regs i ≡ some r
      → overlapped start count r.addr r.size ≡ true
      → alloc_at_loop (suc fuel) regs i start count true total ≡ (
          if leb r.addr start && leb (add64 start count) (add64 r.addr r.size)
          then removed
              (add64 total (remove_from regs i r start count).0)
              (remove_from regs i r start count).1
          else exists_error)
  unfolding alloc_at_loop
  step_hit e hit = rw (e, alloc_at_loop) (rw hit (ground arith))

-- No region before this index overlaps the range.
abbrev pub NoneBefore : List Region → ℕ → ℕ → ℕ → Type 0
NoneBefore regs i start count =
    (j : ℕ) (r : Region) → j < i → get_elem? regs j ≡ some r → Misses start count r

-- How `alloc_at` with `free_required` ends when the loop stands before the regions `rs`: none of
-- them overlaps the range; the first that overlaps it does not contain it; or the first that
-- overlaps it contains it, and the range is taken out of that one.
abbrev pub Ended : List Region → List Region → ℕ → ℕ → Outcome → Type 0
Ended regs rs start count out =
    (All (Misses start count) rs × (out ≡ removed 0 regs))
    ⊎ ((i : ℕ) × (r : Region) × (get_elem? regs i ≡ some r)
        × NoneBefore regs i start count
        × (overlapped start count r.addr r.size ≡ true)
        × (¬ Contains start count r)
        × (out ≡ exists_error))
    ⊎ ((i : ℕ) × (r : Region) × (get_elem? regs i ≡ some r)
        × NoneBefore regs i start count
        × (overlapped start count r.addr r.size ≡ true)
        × Contains start count r
        × (out ≡ removed count (remove_from regs i r start count).1))

module _ (regs : List Region) (start count : ℕ) (range : start + count < word_mod)
    (pos : 0 < count) where
  past_miss :
      (i : ℕ) (r : Region) (rs : List Region) {out out' : Outcome}
      → Misses start count r
      → out ≡ out'
      → Ended regs rs start count out'
      → Ended regs (r ∷ rs) start count out
  past_miss i r rs miss e (inl (m, o)) = inl ((miss, m), e ∙ o)
  past_miss i r rs miss e (inr (inl (j, x, a, n, b, c, o))) = inr (inl (j, x, a, n, b, c, e ∙ o))
  past_miss i r rs miss e (inr (inr (j, x, a, n, b, c, o))) = inr (inr (j, x, a, n, b, c, e ∙ o))

  is_inside :
      (r : Region)
      → Fits r
      → (leb r.addr start && leb (add64 start count) (add64 r.addr r.size)) ≡ true
      → Contains start count r
  is_inside r fits e = ground arith

  not_inside :
      (r : Region)
      → Fits r
      → (leb r.addr start && leb (add64 start count) (add64 r.addr r.size)) ≡ false
      → Contains start count r
      → ⊥
  not_inside r fits e c = ground arith

  at_hit :
      (i : ℕ) (r : Region) (rs : List Region) {out : Outcome}
      → get_elem? regs i ≡ some r
      → NoneBefore regs i start count
      → Fits r
      → overlapped start count r.addr r.size ≡ true
      → out ≡ (
          if leb r.addr start && leb (add64 start count) (add64 r.addr r.size)
          then removed
              (add64 0 (remove_from regs i r start count).0)
              (remove_from regs i r start count).1
          else exists_error)
      → Ended regs (r ∷ rs) start count out
  at_hit i r rs here passed fits hit e =
      elim (Bool-cases (leb r.addr start && leb (add64 start count) (add64 r.addr r.size))) [
        | inl inside ↦
            let c : Contains start count r = is_inside r fits inside in
            let taken =
              remove_from-sum (holds 0) (holds-IsAdditive 0) regs i r start count here fits pos c in
            let sum : add64 0 count ≡ count = omega arith in
            inr (inr (i, r, here, passed, hit, c, e ∙ rw (inside, taken.0, sum) refl))
        | inr outside ↦
            inr
              (inl (i, r, here, passed, hit, λ c. not_inside r fits outside c, e ∙ rw outside refl))
      ]

  one_more :
      (i : ℕ) (r : Region)
      → get_elem? regs i ≡ some r
      → Misses start count r
      → NoneBefore regs i start count
      → NoneBefore regs (i + 1) start count
  one_more i r here miss passed j x below at = elim (ℕ_discrete j i) [
    | yes e ↦
        let same : r ≡ x = some-injective _ _ (sym here ∙ ap (get_elem? regs) (sym e) ∙ at) in
        subst (Misses start count) same miss
    | no ne ↦ passed j x (omega (arith, below, ne)) at
  ]

  loop_required :
      (fuel i : ℕ) (rs : List Region)
      → length rs < fuel
      → All Fits rs
      → ((j : ℕ) → get_elem? regs (i + j) ≡ get_elem? rs j)
      → NoneBefore regs i start count
      → Ended regs rs start count (alloc_at_loop fuel regs i start count true 0)
  unfolding alloc_at_loop
  loop_required zero i rs enough fits agree passed = absurd (omega arith)
  loop_required (suc fuel) i [] enough fits agree passed =
      let e : i + 0 ≡ i = omega arith in
      inl (tt, step_end fuel regs i start count true 0 (rw e at (agree 0)))
  loop_required (suc fuel) i (r ∷ rs) enough fits agree passed =
      elim (Bool-cases (overlapped start count r.addr r.size)) [
        | inl hit ↦
            at_hit i r rs here passed fits.0 hit
              (step_hit fuel regs i start count true 0 r here hit)
        | inr miss ↦ past_miss i r rs miss (step_miss fuel regs i start count true 0 r here miss) (
            loop_required fuel (i + 1) rs (omega arith) fits.1 agree'
              (one_more i r here miss passed))
      ]
    where
      here : get_elem? regs i ≡ some r
      here = let e : i + 0 ≡ i = omega arith in rw e at (agree 0)

      agree' : (j : ℕ) → get_elem? regs (i + 1 + j) ≡ get_elem? rs j
      agree' j = let e : i + 1 + j ≡ i + suc j = omega arith in rw e (agree (suc j))

-- For a nonempty range and regions that end below the end of the address space, with more fuel than
-- regions, `alloc_at` with `free_required` ends in one of three ways. No region overlaps the range:
-- it returns 0 and changes nothing, without an exception. The first region that overlaps does not
-- contain the range: it throws E_EXISTS. Or the first region that overlaps contains the range: it
-- returns the size of the range, and afterwards every address is held by as many regions as before,
-- less one if it lies in the range.
pub alloc_at_required :
    (fuel : ℕ) (regs : List Region) (start count : ℕ)
    → start + count < word_mod
    → 0 < count
    → length regs < fuel
    → All Fits regs
    → (All (Misses start count) regs × (alloc_at fuel regs start count true ≡ removed 0 regs))
      ⊎ ((i : ℕ) × (r : Region) × (get_elem? regs i ≡ some r)
          × NoneBefore regs i start count
          × (overlapped start count r.addr r.size ≡ true)
          × (¬ Contains start count r)
          × (alloc_at fuel regs start count true ≡ exists_error))
      ⊎ ((i : ℕ) × (r : Region) × (get_elem? regs i ≡ some r)
          × NoneBefore regs i start count
          × (overlapped start count r.addr r.size ≡ true)
          × Contains start count r
          × (regs' : List Region) × (alloc_at fuel regs start count true ≡ removed count regs')
          × ((a : ℕ) → cover regs' a + holds a start count ≡ cover regs a))
unfolding alloc_at cover
alloc_at_required fuel regs start count range pos enough fits =
    elim (loop_required regs start count range pos fuel 0 regs enough fits
      (λ j. let e : 0 + j ≡ j = omega arith in rw e refl)
      (λ j r below at. absurd (omega (arith, below)))) [
        | inl h ↦ inl h
        | inr (inl h) ↦ inr (inl h)
        | inr (inr (i, r, here, before, hit, c, e)) ↦ inr (
            inr (
              i,
              r,
              here,
              before,
              hit,
              c,
              (remove_from regs i r start count).1,
              e,
              λ a.
                  (remove_from-sum (holds a) (holds-IsAdditive a) regs i r start count here
                    (All-get Fits regs i fits here) pos c).1,
            ))
      ]
