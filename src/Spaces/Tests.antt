-- ===== src/Spaces/Tests.antt =====
-- The dataspace manager at concrete states.
use nre.Base.{ℕ, some, none, List, [], ◌∷◌, ◌==◌, if◌then◌else◌}
use nre.Treap.{leaf, node}
use nre.Treap.Heap.{IsValid}
use nre.Spaces.{DataSpace, Manager}

abbrev space : DataSpace
space = record { sel = 0x40; unmapsel = 0x41; virt = 0x5000 }

abbrev other : DataSpace
other = record { sel = 0x50; unmapsel = 0x51; virt = 0x9000 }

-- Slot 3 holds a dataspace with `refs` references; the slots 2 and 1 are free.
abbrev counted : ℕ → Manager
counted refs = record {
  slots = λ i.
      if i == 3
      then record { ds = some space; refs = refs; key = 0x41 }
      else record { ds = none; refs = 0; key = 0 };
  free = 2 ∷ 1 ∷ [];
  tree = record { root = node (record { id = 3; key = 0x41; prio = 5 }) leaf leaf; prio = 7 };
}

abbrev free_slots : List ℕ
free_slots = 2 ∷ 1 ∷ []

counted-IsValid : (refs : ℕ) → IsValid (counted refs).tree
counted-IsValid refs = record { search = (tt, tt, tt, tt); heap = (tt, tt, tt, tt) }

-- Slot 3 and slot 4 hold a dataspace each.
abbrev both : Manager
both = record {
  slots = λ i.
      if i == 3
      then record { ds = some space; refs = 1; key = 0x41 }
      else record { ds = some other; refs = 1; key = 0x51 };
  free = [];
  tree = record {
    root =
        node (record { id = 3; key = 0x41; prio = 5 }) leaf
          (node (record { id = 4; key = 0x51; prio = 6 }) leaf leaf);
    prio = 7;
  };
}
