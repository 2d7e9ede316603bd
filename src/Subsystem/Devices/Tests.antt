-- ===== src/Subsystem/Devices/Tests.antt =====
-- Interrupts and ports of concrete children.
use nre.Base.{ℕ, ◌≤◌, ◌≡◌, refl, arith, true, some, none, List, [], ◌∷◌}
use nre.Bits.{set_to, bitpos}
use nre.Port.{fresh, manage_used}
use nre.Subsystem.{ChildState, new_child}
use nre.Subsystem.Devices.{
  alloc, release, parent_refused, granted, gsi_portal, call_gsi, may_ask, io_portal, returned,
  release_ports,
}
use nre.Subsystem.Devices.Interrupts.{Request, serve, caps_of, Increasing, serve-Increasing}
use nre.Subsystem.Devices.Ports.{alloc_all, all_delegated, ports_forgotten}

abbrev child_with : ℕ → ChildState
child_with next = record {
  started = true;
  regs = [];
  io = fresh manage_used;
  gsis = 0 ∷ 0 ∷ [];
  gsi_next = next;
  last_fault_addr = 0;
  last_fault_cpu = 0;
}

abbrev requests : List Request
requests = (alloc, 4, some 4) ∷ (alloc, 9, none) ∷ (release, 4, some 4) ∷ []

serve-Increasing_example :
    ((serve requests (child_with 0)).1.gsi_next ≤ 128)
    × Increasing 0
        (caps_of (serve requests (child_with 0)).0)
        (serve requests (child_with 0)).1.gsi_next
serve-Increasing_example = serve-Increasing requests (child_with 0) (omega arith)

-- The parent refuses the first request and agrees to the second.
abbrev asked : List Request
asked = (alloc, 4, none) ∷ (alloc, 9, some 9) ∷ []

asked_run : (serve asked (child_with 126)).0 ≡ parent_refused ∷ granted 9 127 ∷ []
unfolding serve gsi_portal call_gsi may_ask set_to bitpos
asked_run = refl

ports_forgotten_example :
    (alloc_all ((0x3f8, 8) ∷ []) new_child ≡ (all_delegated ((0x3f8, 8) ∷ []), new_child))
    × (release_ports new_child ≡ [])
    × (c' : ChildState) × (io_portal true new_child release 0x60 5
        ≡ (returned, c', (release, 0x60, 5) ∷ []))
    × (release_ports c' ≡ (0x60, 5) ∷ [])
ports_forgotten_example = ports_forgotten ((0x3f8, 8) ∷ []) 0x60 5 (omega arith)
