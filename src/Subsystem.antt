-- ===== src/Subsystem.antt =====
-- nre/libs/libstdc++/subsystem/ChildManager.cc, with nre/include/subsystem/ChildManager.h and Child.h:
-- the portals through which a child asks its parent for memory, ports and interrupts, and the page
-- faults of a child, on the lists of Child, Spaces, Port and Registry. The answers of the kernel and of
-- the parent of this program are arguments.
pub mod Dataspaces
pub mod Faults
pub mod Devices
pub mod Slots
pub mod Segments
use nre.Base.{ℕ, zero, suc, ◌+◌, ◌^◌, Bool, true, false, Option, none, some, List, [], ◌∷◌}
use nre.Child.{Ds, DataSpaceDesc, page_size}
use nre.Port.{PortManager, fresh, manage_used}

pub record ChildState : Type 0 where
  pub started : Bool
  pub regs : List Ds
  pub io : PortManager
  pub gsis : List ℕ
  pub gsi_next : ℕ
  pub last_fault_addr : ℕ
  pub last_fault_cpu : ℕ

-- The constructor.
pub new_child : ChildState
new_child = record {
  started = false;
  regs = [];
  io = fresh manage_used;
  gsis = 0 ∷ 0 ∷ [];
  gsi_next = 0;
  last_fault_addr = 0;
  last_fault_cpu = 0;
}
