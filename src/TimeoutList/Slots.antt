-- ===== src/TimeoutList/Slots.antt =====
-- `alloc` and `dealloc` give out and take back the slots of the list.
use mathlib.Core.Path.{subst}
use native.Mathlib.Decide.{ℕ_discrete}
use nre.Base.{
  ℕ, zero, suc, ◌+◌, ◌-◌, ◌≤◌, ◌<◌, ◌≡◌, ◌≢◌, refl, arith, true, false, Option, none, some, List,
  ◌⊎◌, inl, inr, Bool-cases, update,
}
use nre.TimeoutList.{TimeoutList, alloc, alloc_from, dealloc}
use nre.TimeoutList.Queue.{Holds, without}
use nre.TimeoutList.Cancel.{cancel_refines}

-- The entry `i` is taken, with this data.
pub marked : TimeoutList → ℕ → ℕ → TimeoutList
marked t i dat = record t { data_of = update t.data_of i dat; is_free = update t.is_free i false }

-- How a search for a free slot from `lo` on and below `hi` ends.
abbrev pub Ends : TimeoutList → ℕ → ℕ → ℕ → Option (ℕ × TimeoutList) → Type 0
Ends t dat lo hi r =
    ((r ≡ none) × ((j : ℕ) → lo ≤ j → j < hi → t.is_free j ≡ false))
    ⊎ ((i : ℕ) × (r ≡ some (i, marked t i dat))
        × (lo ≤ i)
        × (i < hi)
        × (t.is_free i ≡ true)
        × ((j : ℕ) → lo ≤ j → j < i → t.is_free j ≡ false))

-- A range that is used up to the last entry is used.
grow :
    (t : TimeoutList) (i hi : ℕ)
    → t.is_free i ≡ false
    → ((j : ℕ) → i + 1 ≤ j → j < hi → t.is_free j ≡ false)
    → (j : ℕ) → i ≤ j
    → j < hi
    → t.is_free j ≡ false
grow t i hi used all j h k = elim (ℕ_discrete i j) [
  | yes e ↦ subst (λ z. t.is_free z ≡ false) e used
  | no ne ↦ all j (omega arith) k
]

alloc_from-Ends :
    (left i : ℕ) (t : TimeoutList) (dat : ℕ) → Ends t dat i (i + left) (alloc_from left i t dat)
unfolding alloc_from marked
alloc_from-Ends zero i t dat = inl (refl, λ j h k. absurd (omega arith))
alloc_from-Ends (suc left) i t dat = elim (Bool-cases (t.is_free i)) [
  | inl free ↦ inr (i, rw free refl, omega arith, omega arith, free, λ j h k. absurd (omega arith))
  | inr used ↦ elim (alloc_from-Ends left (i + 1) t dat) [
    | inl (e, all) ↦ inl (rw used e, grow t i (i + suc left) used (λ j h k. all j h (omega arith)))
    | inr (k, e, lo, hi, f, all) ↦
        inr (k, rw used e, omega arith, omega arith, f, grow t i k used all)
  ]
]

-- `alloc` marks the first free slot from 1 on as taken, with the data given, and returns it; it
-- throws E_CAPACITY exactly if no slot from 1 to `entries - 1` is free.
pub alloc-Ends :
    (entries : ℕ) (t : TimeoutList) (dat : ℕ)
    → 1 ≤ entries
    → Ends t dat 1 entries (alloc entries t dat)
unfolding alloc
alloc-Ends entries t dat h =
    let e : 1 + (entries - 1) ≡ entries = omega arith in
    subst (λ n. Ends t dat 1 n (alloc entries t dat)) e (alloc_from-Ends (entries - 1) 1 t dat)

-- `dealloc` with cancelling: a free slot is refused and nothing changes; a taken slot other than 0
-- becomes free, with no data, and leaves the queue, in which the others keep their order.
pub dealloc_refines :
    (t : TimeoutList) (nr : ℕ) (qs : List ℕ)
    → nr ≢ 0
    → Holds t qs
    → (t.is_free nr ≡ true → dealloc t nr true ≡ (false, t))
      × (t.is_free nr ≡ false
          → ((dealloc t nr true).0 ≡ true)
            × ((dealloc t nr true).1.is_free nr ≡ true)
            × ((dealloc t nr true).1.data_of nr ≡ 0)
            × Holds (dealloc t nr true).1 (without nr qs))
unfolding dealloc
dealloc_refines t nr qs nz v =
    let w = (cancel_refines t nr qs nz v).1 in
    (
      λ e. rw e refl,
      λ e. rw e (
        refl,
        ground arith,
        ground arith,
        record {
          chain = w.chain;
          distinct = w.distinct;
          alone = w.alone;
          sorted = w.sorted;
          bounded = w.bounded;
          last = w.last;
        },
      ),
    )
