-- ===== src/Spaces/Counts.antt =====
-- References are counted, and failing constructors use up the free slots.
use nre.Base.{
  ℕ, zero, suc, ◌+◌, ◌≤◌, ◌<◌, ◌≡◌, refl, ◌∙◌, ap, arith, true, false, Option, none, some, List, [],
  ◌∷◌, ◌==◌, if◌then◌else◌, sub32, add32, u32_mod, update, length, Bool-cases, ==_iff, inl, inr,
}
use nre.Treap
use nre.Treap.{Treap, find}
use nre.Treap.Order.{Fresh}
use nre.Treap.Find.{OwnsId}
use nre.Treap.Heap.{IsValid, find-insert, find-remove, insert-IsValid}
use nre.Spaces.{
  DataSpace, Slot, Manager, done, no_slots, constructor_failed, occupy, create, find_unmap, vacate,
  release, join, find_from, max_slots,
}

-- For a tree in order that does not hold the new dataspace's unmap selector, and a free slot: `create`
-- takes the first free slot, gives it one reference, and then the selector finds this slot and every
-- other selector what it found before; the tree stays in order.
pub create_lem :
    (m : Manager) (i : ℕ) (rest : List ℕ) (d : DataSpace)
    → IsValid m.tree
    → Fresh d.unmapsel m.tree.root
    → m.free ≡ i ∷ rest
    → (m' : Manager) × (create m (some d) ≡ done i m')
      × (m'.free ≡ rest)
      × ((m'.slots i).ds ≡ some d)
      × ((m'.slots i).refs ≡ 1)
      × IsValid m'.tree
      × ((j : ℕ) → find_unmap m' j ≡ (if d.unmapsel == j then some i else find_unmap m j))
unfolding create occupy find_unmap
create_lem m i rest d v f e = (
  record {
    slots = update m.slots i (record { ds = some d; refs = 1; key = d.unmapsel });
    free = rest;
    tree = Treap.insert m.tree i d.unmapsel;
  },
  rw (e, create, occupy) refl,
  refl,
  ap (λ (s : Slot). s.ds) (self m.slots i _),
  ap (λ (s : Slot). s.refs) (self m.slots i _),
  insert-IsValid m.tree i d.unmapsel v f,
  λ j. find-insert m.tree i d.unmapsel j v f,
)
  where
    self : (s : ℕ → Slot) (i : ℕ) (x : Slot) → update s i x i ≡ x
    self s i x = ground arith

vacate-eq :
    (m : Manager) (i : ℕ) (t : Treap)
    → Treap.remove m.tree i (m.slots i).key ≡ some t
    → vacate m i
      ≡ done (m.slots i).ds (record {
        slots = update m.slots i (record (m.slots i) { ds = none; refs = 0 });
        free = i ∷ m.free;
        tree = t;
      })
unfolding vacate
vacate-eq m i t e = rw (e, vacate) refl

-- For a tree in order in which the selector finds the slot `i`, no other node has this address, and
-- the slot has that key and at least one reference: with more than one, `release` takes one away and
-- all selectors find what they did; with one, it hands the dataspace out, the slot is the first free
-- one, the selector finds nothing, every other one what it found before, and the tree stays in order.
pub release_lem :
    (m : Manager) (i sel : ℕ)
    → IsValid m.tree
    → OwnsId i sel m.tree.root
    → find_unmap m sel ≡ some i
    → (m.slots i).key ≡ sel
    → 1 ≤ (m.slots i).refs
    → (m.slots i).refs < u32_mod
    → (1 < (m.slots i).refs
        → (m' : Manager) × (release m sel ≡ done none m')
          × ((m'.slots i).refs + 1 ≡ (m.slots i).refs)
          × (m'.free ≡ m.free)
          × (m'.tree ≡ m.tree))
      × ((m.slots i).refs ≡ 1
          → (m' : Manager) × (release m sel ≡ done ((m.slots i).ds) m')
            × (m'.free ≡ i ∷ m.free)
            × ((m'.slots i).ds ≡ none)
            × IsValid m'.tree
            × ((j : ℕ) → find_unmap m' j ≡ (if j == sel then none else find_unmap m j)))
unfolding release find_unmap
release_lem m i sel v o f k pos small = (
  λ more.
      let refs' : ℕ = sub32 (m.slots i).refs 1 in
      let s' : Slot = record (m.slots i) { refs = refs' } in
      let some_left : (refs' == 0) ≡ false = ground arith in
      (
        record m { slots = update m.slots i s' },
        rw (f, release) (rw some_left refl),
        count m.slots i s' ∙ omega arith,
        refl,
        refl,
      ),
  λ one.
      let last : (sub32 (m.slots i).refs 1 == 0) ≡ true = ground arith in
      let (t, gone, valid, others) = find-remove m.tree i sel v o f in
      (
        record {
          slots = update m.slots i (record (m.slots i) { ds = none; refs = 0 });
          free = i ∷ m.free;
          tree = t;
        },
        rw (f, release) (rw last (vacate-eq m i t (rw k gone))),
        refl,
        ap (λ (s : Slot). s.ds) (self m.slots i _),
        valid,
        others,
      ),
)
  where
    self : (s : ℕ → Slot) (i : ℕ) (x : Slot) → update s i x i ≡ x
    self s i x = ground arith

    count : (s : ℕ → Slot) (i : ℕ) (x : Slot) → (update s i x i).refs + 1 ≡ x.refs + 1
    count s i x = ap (λ (y : Slot). y.refs + 1) (self s i x)

-- So many calls of `create` whose constructor throws.
pub failing : ℕ → Manager → Manager
failing zero m = m
failing (suc n) m = elim (create m none) [ constructor_failed m' ↦ failing n m' | _ ↦ m ]

failing-step :
    (m : Manager) (i : ℕ) (rest : List ℕ) (n : ℕ)
    → m.free ≡ i ∷ rest
    → failing (suc n) m ≡ failing n (record m { free = rest })
unfolding failing create occupy
failing-step m i rest n e = rw (e, failing, create, occupy) refl

-- Every `create` whose constructor throws takes a slot from the free ones for good: after as many of
-- them as there are free slots, `create` throws E_CAPACITY whatever the constructor would give, while
-- the slots and the tree hold what they held before.
pub failing-exhausts :
    (free : List ℕ) (m : Manager) (made : Option DataSpace)
    → m.free ≡ free
    → (create (failing (length free) m) made ≡ no_slots)
      × ((failing (length free) m).slots ≡ m.slots)
      × ((failing (length free) m).tree ≡ m.tree)
unfolding failing create occupy
failing-exhausts [] m made e = (rw (e, create, occupy) refl, refl, refl)
failing-exhausts (i ∷ rest) m made e =
    let go = failing-exhausts rest (record m { free = rest }) made refl in
    rw (failing-step m i rest (length rest) e) go

update-here : (slots : ℕ → Slot) (i : ℕ) (x : Slot) → update slots i x i ≡ x
update-here slots i x = ground arith

update_twice :
    (slots : ℕ → Slot) (i x : ℕ) (a b : Slot)
    → b ≡ slots i
    → update (update slots i a) i b x ≡ slots x
update_twice slots i x a b e = elim (Bool-cases (i == x)) [
  | inl y ↦ rw y (e ∙ ap slots ((==_iff i x).0 y))
  | inr n ↦ rw n refl
]

-- A `join` of a dataspace that a slot has, and the `release` of its unmap selector behind it: all
-- slots, the free ones and the tree are as they were before.
pub join_release :
    (m : Manager) (i sel unmapsel : ℕ) (made : Option DataSpace)
    → find_from max_slots 0 m.slots sel ≡ some i
    → find_unmap m unmapsel ≡ some i
    → 1 ≤ (m.slots i).refs
    → (m.slots i).refs + 1 < u32_mod
    → (m₁ : Manager) × (m₂ : Manager) × (join m sel made ≡ done i m₁)
      × ((m₁.slots i).ds ≡ (m.slots i).ds)
      × (release m₁ unmapsel ≡ done none m₂)
      × ((x : ℕ) → m₂.slots x ≡ m.slots x)
      × (m₂.free ≡ m.free)
      × (m₂.tree ≡ m.tree)
unfolding join release find_unmap
join_release m i sel unmapsel made at found some_refs few =
    let s = m.slots i in
    let s₁ : Slot = record s { refs = add32 s.refs 1 } in
    let m₁ : Manager = record m { slots = update m.slots i s₁ } in
    let here : update m.slots i s₁ i ≡ s₁ = update-here m.slots i s₁ in
    let s₂ : Slot = record s₁ { refs = sub32 s₁.refs 1 } in
    let left : (sub32 s₁.refs 1 == 0) ≡ false = ground (arith, some_refs, few) in
    let same : s₂ ≡ s = ap (λ (n : ℕ). record s { refs = n }) (omega (arith, some_refs, few)) in
    (
      m₁,
      record m₁ { slots = update m₁.slots i s₂ },
      rw (at, join) refl,
      ap (λ (t : Slot). t.ds) here,
      rw (found, release) (rw here (rw left refl)),
      (λ x. update_twice m.slots i x s₁ s₂ same),
      refl,
      refl,
    )
