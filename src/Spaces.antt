-- ===== src/Spaces.antt =====
-- nre/include/mem/DataSpaceManager.h. A pointer to a slot is its index; the list of free slots is the
-- list of their indices; the tree holds the used slots by the unmap selector. A dataspace is made by
-- the parent, so that what its constructor gives is an argument: `none` is an exception of it.
pub mod Counts
pub mod Swap
mod Tests
use nre.Base.{
  ℕ, zero, suc, ◌+◌, Bool, true, false, Option, none, some, List, [], ◌∷◌, ◌==◌, if◌then◌else◌,
  add32, sub32, update,
}
use nre.Treap
use nre.Treap.{Treap, find}

pub record DataSpace : Type 0 where
  pub sel : ℕ
  pub unmapsel : ℕ
  pub virt : ℕ

pub record Slot : Type 0 where
  pub ds : Option DataSpace
  pub refs : ℕ
  pub key : ℕ

pub record Manager : Type 0 where
  pub slots : ℕ → Slot
  pub free : List ℕ
  pub tree : Treap

abbrev pub max_slots : ℕ
max_slots = 512

-- The slots from the last one down to the first.
pub countdown : ℕ → List ℕ
countdown zero = []
countdown (suc n) = n ∷ countdown n

pub start : Manager
unfolding countdown
start = record {
  slots = λ i. record { ds = none; refs = 0; key = 0 };
  free = countdown max_slots;
  tree = Treap.init;
}

-- How an operation ends: with a result and the new state; with an exception of the manager, which
-- changes nothing; or with an exception of the dataspace's constructor, with the state it leaves.
pub data Result (A : Type 0) : Type 0 where
  done : A → Manager → Result A
  no_slots : Result A
  not_found : Result A
  constructor_failed : Manager → Result A

-- What `create`, and `join` of an unknown selector, do with a free slot.
pub occupy : Manager → Option DataSpace → Result ℕ
occupy m made = elim m.free [
  | [] ↦ no_slots
  | i ∷ rest ↦ elim made [
    | none ↦ constructor_failed (record m { free = rest })
    | some d ↦ done i (record {
      slots = update m.slots i (record { ds = some d; refs = 1; key = d.unmapsel });
      free = rest;
      tree = Treap.insert m.tree i d.unmapsel;
    })
  ]
]

pub create : Manager → Option DataSpace → Result ℕ
unfolding occupy
create m made = occupy m made

unfoldable pub has_sel : ℕ → Slot → Bool
has_sel sel s = elim s.ds [ none ↦ false | some d ↦ d.sel == sel ]

-- The loop of the private `find` with so many slots left from index `i` on.
unfoldable pub find_from : ℕ → ℕ → (ℕ → Slot) → ℕ → Option ℕ
unfolding has_sel
find_from zero i slots sel = none
find_from (suc left) i slots sel =
    let rest = find_from left (i + 1) slots sel in if has_sel sel (slots i) then some i else rest

pub join : Manager → ℕ → Option DataSpace → Result ℕ
unfolding occupy find_from
join m sel made = elim (find_from max_slots 0 m.slots sel) [
  | none ↦ occupy m made
  | some i ↦
      let s = m.slots i in
      done i (record m { slots = update m.slots i (record s { refs = add32 s.refs 1 }) })
]

unfoldable pub find_unmap : Manager → ℕ → Option ℕ
find_unmap m sel = find m.tree.root sel

-- The slot `i` once its last reference is gone; its key is what `_tree.remove` searches for.
pub vacate : Manager → ℕ → Result (Option DataSpace)
vacate m i =
    let s = m.slots i in
    elim (Treap.remove m.tree i s.key) [
      | none ↦ not_found
      | some t ↦ done s.ds (record {
        slots = update m.slots i (record s { ds = none; refs = 0 });
        free = i ∷ m.free;
        tree = t;
      })
    ]

-- The dataspace whose descriptor is handed out, if it is destroyed.
pub release : Manager → ℕ → Result (Option DataSpace)
unfolding find_unmap vacate
release m sel = elim (find_unmap m sel) [
  | none ↦ not_found
  | some i ↦
      let s = m.slots i in
      if sub32 s.refs 1 == 0
      then vacate m i
      else done none (record m { slots = update m.slots i (record s { refs = sub32 s.refs 1 }) })
]

-- The slot's dataspace at another virtual address; `none` is a slot without a dataspace, through whose
-- null pointer the source writes.
pub at_virt : Slot → ℕ → Option Slot
at_virt s v = elim s.ds [
  | none ↦ none
  | some d ↦ some (record s { ds = some (record d { virt = v }) })
]

pub virt_of : Slot → ℕ
virt_of s = elim s.ds [ none ↦ 0 | some d ↦ d.virt ]

-- The two writes of `swap` to the slots `i` and `j`, in this order.
pub exchange : Manager → ℕ → ℕ → Option Manager
unfolding at_virt virt_of
exchange m i j =
    let tmp = virt_of (m.slots i) in
    elim (at_virt (m.slots i) (virt_of (m.slots j))) [
      | none ↦ none
      | some s ↦
          let slots' = update m.slots i s in
          elim (at_virt (slots' j) tmp) [
            | none ↦ none
            | some s' ↦ some (record m { slots = update slots' j s' })
          ]
    ]

-- `none` is the exception E_NOT_FOUND or a slot without a dataspace.
pub swap : Manager → ℕ → ℕ → Option Manager
unfolding find_unmap exchange
swap m ds1 ds2 = elim (find_unmap m ds1) [
  | none ↦ none
  | some i ↦ elim (find_unmap m ds2) [ none ↦ none | some j ↦ exchange m i j ]
]
