-- ===== src/Subsystem/Faults/Tests.antt =====
-- Page faults at a concrete child.
use nre.Base.{ℕ, ◌≡◌, refl, arith, true, false, some, List, [], ◌∷◌}
use nre.Child.{
  Ds, anonymous, find_by_addr, covers, index_of, page_perms, origin_of, set_page_perms, set_from,
  with_field,
}
use nre.Math.{in_range}
use nre.Math.Blocks.{minshift_run}
use nre.Port.{fresh, manage_used}
use nre.Subsystem.{ChildState}
use nre.Subsystem.Faults.{
  Fault, CapRange, resumes, page_of, first_page, violates, limit_to, limit_from, wanted_range,
  map_pages, pf_ds, pf,
}
use nre.Subsystem.Faults.Safety.{Contained, pf-Contained}

abbrev space : ℕ → ℕ → ℕ → ℕ → ℕ → Ds
space virt origin cap flags perm = record {
  desc = record {
    virt = virt;
    phys = 0;
    origin = origin;
    size = 0x3000;
    align = 0;
    flags = flags;
    backing = anonymous;
  };
  cap = cap;
  perms = perm ∷ 3 ∷ 3 ∷ [];
}

abbrev first : Ds
first = space 0x1000 0x100000 0x21 3 1

abbrev second : Ds
second = space 0x8000 0x200000 0x22 3 3

-- The flag of the child's own memory, without a right.
abbrev useless : Ds
useless = space 0x10000 0x300000 0x23 0x10 0

abbrev child_of : List Ds → ChildState
child_of regs = record {
  started = true;
  regs = regs;
  io = fresh manage_used;
  gsis = 0 ∷ 0 ∷ [];
  gsi_next = 0;
  last_fault_addr = 0;
  last_fault_cpu = 0;
}

abbrev faulting : ChildState
faulting = child_of (first ∷ second ∷ useless ∷ [])

abbrev fault_at : ℕ → Fault
fault_at addr = record { addr = addr; eip = 0x5000; error = 0; cpu = 0 }

first_found : find_by_addr faulting.regs 0x1800 ≡ some 0
unfolding find_by_addr covers index_of in_range
first_found = refl

first_perms : page_perms first 0x1800 ≡ some 1
unfolding page_perms
first_perms = refl

no_violation : violates 0 3 ≡ false
unfolding violates
no_violation = refl

useless_found : find_by_addr faulting.regs 0x10800 ≡ some 2
unfolding find_by_addr covers index_of in_range
useless_found = refl

useless_perms : page_perms useless 0x10800 ≡ some 0
unfolding page_perms
useless_perms = refl

useless_first : page_perms useless (first_page useless (page_of 0x10800)) ≡ some 0
unfolding page_perms first_page
useless_first = refl

useless_wanted :
    wanted_range useless 0x10000 ≡ record { start = 0x300; count = 32; perms = 0; hotspot = 0x10 }
unfolding wanted_range first_page origin_of
useless_wanted = refl

abbrev useless_range : CapRange
useless_range = record { start = 0x300; count = 16; perms = 0; hotspot = 0x10 }

useless_limit :
    limit_to 1 (record { start = 0x300; count = 32; perms = 0; hotspot = 0x10 })
    ≡ some useless_range
unfolding limit_to limit_from
useless_limit = rw (minshift_run, limit_to) refl

-- A dataspace that may be read and written, and of which no page is mapped.
abbrev unmapped : Ds
unmapped = record (space 0x10000 0x300000 0x24 3 0) { perms = 0 ∷ 0 ∷ 0 ∷ [] }

abbrev waiting : ChildState
waiting = child_of (unmapped ∷ [])

unmapped_found : find_by_addr waiting.regs 0x10800 ≡ some 0
unfolding find_by_addr covers index_of in_range
unmapped_found = refl

unmapped_perms : page_perms unmapped 0x10800 ≡ some 0
unfolding page_perms
unmapped_perms = refl

map_run :
    map_pages 1 waiting 0 unmapped 0x10000
    ≡ resumes
        (child_of (record unmapped { perms = 3 ∷ 3 ∷ 3 ∷ [] } ∷ []))
        (some (record { start = 0x300; count = 3; perms = 3; hotspot = 0x10 }))
unfolding map_pages set_page_perms set_from with_field first_page origin_of
map_run = rw (minshift_run, map_pages) refl

-- The three pages of the dataspace are mapped.
pf_run :
    pf (λ page. false) 1 waiting (fault_at 0x10800)
    ≡ resumes
        (child_of (record unmapped { perms = 3 ∷ 3 ∷ 3 ∷ [] } ∷ []))
        (some (record { start = 0x300; count = 3; perms = 3; hotspot = 0x10 }))
unfolding pf pf_ds
pf_run = rw (unmapped_found, pf) (rw (unmapped_perms, pf_ds) map_run)

pf-Contained_example : Contained unmapped 0x10000 (pf (λ page. false) 1 waiting (fault_at 0x10800))
pf-Contained_example =
    pf-Contained (λ page. false) 1 waiting (fault_at 0x10800) 0 unmapped
      (refl, unmapped_found, refl, omega arith) (refl, omega arith, omega arith, refl) (omega arith)
      (omega arith)
