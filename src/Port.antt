-- ===== src/Port.antt =====
-- nre/include/region/PortManager.h, on the region manager's list of regions.
pub mod Used
use nre.Base.{ℕ, suc, true, List, [], length}
use nre.Region.{Region, Outcome, removed, exists_error, null_fault, out_of_fuel, alloc_at, free}

pub data Mode : Type 0 where
  manage_free : Mode
  manage_used : Mode

pub record PortManager : Type 0 where
  pub mode : Mode
  pub ports : List Region

-- How a call ends: with the new state, with the exception E_EXISTS, or with an outcome of
-- `alloc_at` that needs `free_required = false`.
pub data Result : Type 0 where
  done : PortManager → Result
  refused : Result
  faulted : Result

pub fresh : Mode → PortManager
fresh m = record { mode = m; ports = [] }

-- The regions after `_ports.alloc_at(start, count, true)`.
pub take_ports : PortManager → ℕ → ℕ → Result
take_ports pm start count = elim (alloc_at (suc (length pm.ports)) pm.ports start count true) [
  | removed n regs ↦ done (record pm { ports = regs })
  | exists_error ↦ refused
  | null_fault ↦ faulted
  | out_of_fuel ↦ faulted
]

pub give_ports : PortManager → ℕ → ℕ → Result
give_ports pm start count = done (record pm { ports = free pm.ports start count })

pub add : PortManager → ℕ → ℕ → Result
unfolding take_ports give_ports
add pm start count = elim pm.mode [
  | manage_free ↦ give_ports pm start count
  | manage_used ↦ take_ports pm start count
]

pub remove : PortManager → ℕ → ℕ → Result
unfolding take_ports give_ports
remove pm start count = elim pm.mode [
  | manage_free ↦ take_ports pm start count
  | manage_used ↦ give_ports pm start count
]
