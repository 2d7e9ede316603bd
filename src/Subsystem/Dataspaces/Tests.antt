-- ===== src/Subsystem/Dataspaces/Tests.antt =====
-- The requests for dataspaces at concrete children.
use nre.Base.{ℕ, ◌^◌, ◌≡◌, refl, true, false, some, none, List, [], ◌∷◌, if◌then◌else◌, ◌==◌}
use nre.Child.{
  Ds, anonymous, find, find_by_addr, covers, index_of, page_perms, find_free, candidate, last,
  last_end, remove, remove_at,
}
use nre.Math.{in_range}
use nre.Port.{fresh, manage_used}
use nre.Treap.{leaf, node}
use nre.Treap
use nre.Treap.Heap.{IsValid}
use nre.Spaces.{Manager, find_unmap, find_from, has_sel, max_slots}
use nre.Subsystem.{ChildState}
use nre.Subsystem.Faults.{Fault, violates}
use nre.Subsystem.Dataspaces.{Memory, is_virtual, switch_self, move_to, change_at}

abbrev space : ℕ → ℕ → ℕ → ℕ → Ds
space virt origin size cap = record {
  desc = record {
    virt = virt;
    phys = 0;
    origin = origin;
    size = size;
    align = 0;
    flags = 3;
    backing = anonymous;
  };
  cap = cap;
  perms = 3 ∷ 3 ∷ [];
}

abbrev first : Ds
first = space 0x1000 0x100000 0x2000 0x21

abbrev second : Ds
second = space 0x8000 0x200000 0x2000 0x22

abbrev child_of : List Ds → ChildState
child_of regs = record {
  started = true;
  regs = regs;
  io = fresh manage_used;
  gsis = 0 ∷ 0 ∷ [];
  gsi_next = 0;
  last_fault_addr = 0;
  last_fault_cpu = 0;
}

-- Slot 3 holds a dataspace with two references.
abbrev counted : Manager
counted = record {
  slots = λ i.
      if i == 3
      then record {
        ds = some (record { sel = 0x40; unmapsel = 0x41; virt = 0x5000 });
        refs = 2;
        key = 0x41;
      }
      else record { ds = none; refs = 0; key = 0 };
  free = 2 ∷ 1 ∷ [];
  tree = record { root = node (record { id = 3; key = 0x41; prio = 5 }) leaf leaf; prio = 7 };
}

counted-IsValid : IsValid counted.tree
counted-IsValid = record { search = (tt, tt, tt, tt); heap = (tt, tt, tt, tt) }

-- A child whose memory ends at the page below the kernel's part, and one without memory.
abbrev memory : List Ds → Memory
memory regs = record { regs = regs; dsm = counted; descs = λ i. first.desc }

abbrev high : List Ds
high = space 0x7fffff000000 0x100000 0xffe000 0x21 ∷ []

unmap_run : remove [] 0x41 ≡ none
unfolding remove remove_at find index_of
unmap_run = refl

found_unmap : find_unmap counted 0x41 ≡ some 3
unfolding find_unmap Treap.find
found_unmap = refl

anonymous_space : is_virtual first.desc ≡ false
unfolding is_virtual
anonymous_space = refl

found_sel : find_from max_slots 0 counted.slots 0x40 ≡ some 3
unfolding find_from has_sel
found_sel = refl

no_room : find_free high 0x2000 (2 ^ 12) ≡ none
unfolding find_free candidate last last_end
no_room = refl

abbrev both : ChildState
both = child_of (first ∷ second ∷ [])

abbrev only_second : ChildState
only_second = child_of (second ∷ [])

sels_found : (find both.regs 0x21 ≡ some 0) × (find both.regs 0x22 ≡ some 1)
unfolding find index_of
sels_found = (refl, refl)

one_missing : (find only_second.regs 0x21 ≡ none) × (find only_second.regs 0x22 ≡ some 0)
unfolding find index_of
one_missing = (refl, refl)

abbrev switched_both : ChildState
switched_both = child_of (move_to 0x200000 first ∷ move_to 0x100000 second ∷ [])

switch_run : switch_self 0x21 0x22 both ≡ some (switched_both, 0x100000, 0x200000)
unfolding switch_self change_at find index_of
switch_run = refl

abbrev fault : Fault
fault = record { addr = 0x8800; eip = 0x5000; error = 0; cpu = 0 }

second_found : find_by_addr both.regs 0x8800 ≡ some 1
unfolding find_by_addr covers index_of in_range
second_found = refl

second_perms : page_perms second 0x8800 ≡ some 3
unfolding page_perms
second_perms = refl

no_violation : violates 0 3 ≡ false
unfolding violates
no_violation = refl
