-- ===== src/Subsystem/Devices.antt =====
-- The portals `gsi` and `io`, and `release_gsis` and `release_ports` of
-- nre/libs/libstdc++/subsystem/Child.cc. What the parent of this program answers is an argument.
pub mod Interrupts
pub mod Ports
mod Tests
use nre.Base.{
  ℕ, zero, suc, ◌+◌, Bool, true, false, ◌&&◌, not, Option, none, some, List, [], ◌∷◌, ◌==◌, leb,
  if◌then◌else◌,
}
use nre.Bits.{is_set, set_to}
use nre.Region.{Region}
use nre.Port.{PortManager, Result, done, refused, faulted}
use nre.Port
use nre.Subsystem.{ChildState}

abbrev pub max_gsis : ℕ
max_gsis = 128

-- The operation as a child sends it, which may be a number that stands for neither.
pub data Op : Type 0 where
  alloc : Op
  release : Op
  other_op : Op

-- The answer to a request for an interrupt: the interrupt and the number of its capability, or one of
-- the exceptions; or what is done is not defined.
pub data GsiReply : Type 0 where
  granted : ℕ → ℕ → GsiReply
  given_back : GsiReply
  invalid_gsi : GsiReply
  no_slots : GsiReply
  parent_refused : GsiReply
  undefined : GsiReply

-- The call of the parent, whose answer to `alloc` is an interrupt, and what follows it.
pub call_gsi : Option ℕ → ChildState → Op → ℕ → GsiReply × ChildState
call_gsi answer c alloc gsi =
    let c' : ChildState = record c { gsi_next = c.gsi_next + 1 } in
    elim answer [
      | none ↦ (parent_refused, c')
      | some g ↦ elim (set_to c.gsis g true) [
        | none ↦ (undefined, c')
        | some words ↦ (granted g c.gsi_next, record c' { gsis = words })
      ]
    ]
call_gsi answer c release gsi = elim answer [
  | none ↦ (parent_refused, c)
  | some _ ↦ elim (set_to c.gsis gsi false) [
    | none ↦ (undefined, c)
    | some words ↦ (given_back, record c { gsis = words })
  ]
]
call_gsi answer c other_op gsi = elim answer [
  | none ↦ (parent_refused, c)
  | some _ ↦ elim (set_to c.gsis gsi false) [
    | none ↦ (undefined, c)
    | some words ↦ (given_back, record c { gsis = words })
  ]
]

-- Whether the child may ask: just the owner can release an interrupt.
pub may_ask : ChildState → Op → ℕ → Option Bool
may_ask c alloc gsi = some true
may_ask c release gsi = is_set c.gsis gsi
may_ask c other_op gsi = some true

pub gsi_portal : Option ℕ → ChildState → Op → ℕ → GsiReply × ChildState
unfolding call_gsi may_ask
gsi_portal answer c op gsi =
    if leb max_gsis gsi then (invalid_gsi, c) else elim (may_ask c op gsi) [
      | none ↦ (undefined, c)
      | some allowed ↦
          if not allowed
          then (invalid_gsi, c)
          else if c.gsi_next == max_gsis
          then (no_slots, c)
          else call_gsi answer c op gsi
    ]

-- The interrupts that the parent is asked to take back when a child dies, from one on.
pub gsis_from : ℕ → ℕ → List ℕ → Option (List ℕ)
gsis_from zero i words = some []
gsis_from (suc left) i words =
    let rest = gsis_from left (suc i) words in
    elim (is_set words i) [
      | none ↦ none
      | some b ↦ if b then elim rest [ none ↦ none | some gsis ↦ some (i ∷ gsis) ] else rest
    ]

pub release_gsis : ChildState → Option (List ℕ)
unfolding gsis_from
release_gsis c = gsis_from max_gsis 0 c.gsis

pub data IoReply : Type 0 where
  delegated : ℕ → ℕ → IoReply
  returned : IoReply
  io_refused : IoReply
  io_undefined : IoReply

-- `accepts` is the parent's answer. The last component is what the parent was asked.
pub io_portal : Bool → ChildState → Op → ℕ → ℕ → IoReply × ChildState × List (Op × ℕ × ℕ)
io_portal accepts c alloc base count =
    let asked : List (Op × ℕ × ℕ) = (alloc, base, count) ∷ [] in
    if not accepts then (io_refused, c, asked) else elim (Port.add c.io base count) [
      | done io ↦ (delegated base count, record c { io = io }, asked)
      | refused ↦ (io_refused, c, asked)
      | faulted ↦ (io_undefined, c, asked)
    ]
io_portal accepts c release base count = elim (Port.remove c.io base count) [
  | done io ↦
      (if accepts then returned else io_refused, record c { io = io }, (release, base, count) ∷ [])
  | refused ↦ (io_refused, c, [])
  | faulted ↦ (io_undefined, c, [])
]
io_portal accepts c other_op base count =
    (if accepts then returned else io_refused, c, (other_op, base, count) ∷ [])

-- The ranges that the parent is asked to take back when a child dies.
pub ports_of : List Region → List (ℕ × ℕ)
ports_of [] = []
ports_of (r ∷ regs) =
    let rest = ports_of regs in if r.size == 0 then rest else (r.addr, r.size) ∷ rest

pub release_ports : ChildState → List (ℕ × ℕ)
unfolding ports_of
release_ports c = ports_of c.io.ports
