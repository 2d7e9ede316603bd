-- ===== src/Subsystem/Dataspaces.antt =====
-- `map`, `unmap` and `switch_to`: a child asks for memory, gives it back, and exchanges two
-- dataspaces. The state is the child's list, the dataspaces of the parent, and the descriptor of the
-- dataspace in each slot, of which Spaces keeps the selectors and the address.
pub mod Failures
pub mod Switches
mod Tests
use nre.Base.{
  ℕ, zero, suc, ◌+◌, ◌-◌, ◌*◌, ◌/◌, ◌%◌, ◌^◌, Bool, true, false, ◌&&◌, ◌||◌, not, Option, none,
  some, List, [], ◌∷◌, get_elem?, set, bit_and, bit_or, ◌==◌, if◌then◌else◌, u32_mod, update, ltb,
}
use nre.Child.{
  Ds, DataSpaceDesc, Backing, virtual, page_size, own, find, find_free, add, remove, remove_by_addr,
  all_perms,
}
use nre.Subsystem.{ChildState}
use nre.Spaces
use nre.Spaces.{
  DataSpace, Manager, Result, done, no_slots, not_found, constructor_failed, find_from, max_slots,
  virt_of,
}

pub record Memory : Type 0 where
  pub regs : List Ds
  pub dsm : Manager
  pub descs : ℕ → DataSpaceDesc

-- What the construction of a dataspace gives: its selectors and address, and its descriptor.
abbrev pub Made : Type 0
Made = Option (DataSpace × DataSpaceDesc)

pub space_of : Made → Option DataSpace
space_of none = none
space_of (some (d, desc)) = some d

pub desc_of : Made → DataSpaceDesc → DataSpaceDesc
desc_of none old = old
desc_of (some (d, desc)) old = desc

pub is_virtual : DataSpaceDesc → Bool
is_virtual desc = elim desc.backing [ virtual ↦ true | _ ↦ false ]

-- The selector of a dataspace without one, `ObjCap::INVALID`.
abbrev pub invalid : ℕ
invalid = 0x3fffffff

-- The answer: `none` is an exception.
abbrev pub Answer : Type 0
Answer = Option DataSpaceDesc

-- The new descriptor is made with the alignment in the place of the origin, and without one.
pub map_virtual : (ℕ → ℕ) → Memory → DataSpaceDesc → Answer × Memory
map_virtual junk m desc = elim (find_free m.regs desc.size 1) [
  | none ↦ (none, m)
  | some addr ↦
      let desc' : DataSpaceDesc = record desc {
        virt = 0;
        phys = 0;
        origin = desc.align;
        align = 0;
      } in
      (
        some (record desc' { virt = addr }),
        record m { regs = add junk m.regs desc' addr desc.flags invalid },
      )
]

-- The flags in the child: of a new dataspace, the child's own unless it is the memory of a device; of
-- a joined one, without the rights that the semaphore's selector lacks.
pub create_flags : DataSpaceDesc → ℕ → ℕ
create_flags desc flags = if desc.phys == 0 then bit_or flags own else flags

pub join_flags : Bool → Bool → ℕ → ℕ
join_flags up down flags =
    let writes = if up then flags else bit_and flags (u32_mod - 1 - 2) in
    if down then writes else bit_and writes (u32_mod - 1 - 4)

-- What is done in the `catch`.
pub give_back : Memory → ℕ → Memory
give_back m unmapsel = elim (Spaces.release m.dsm unmapsel) [
  | done _ dsm ↦ record m { dsm = dsm }
  | _ ↦ m
]

-- The dataspace of the slot `i` is put into the list: the part of `map` behind `join` and `create`.
pub attach : (ℕ → ℕ) → Memory → ℕ → DataSpace → ℕ → ℕ → Answer × Memory
unfolding give_back
attach junk m i d flags align =
    let desc = m.descs i in
    elim (find_free m.regs desc.size align) [
      | none ↦ (none, give_back m d.unmapsel)
      | some addr ↦ (
        some (record desc { flags = bit_and desc.flags flags; virt = addr; origin = d.virt }),
        record m { regs = add junk m.regs (record desc { virt = d.virt }) addr flags d.unmapsel },
      )
    ]

-- The slot that `create` or `join` gives, with the dataspace in it.
pub attach_slot :
    (ℕ → ℕ) → Memory → Result ℕ → (ℕ → DataSpaceDesc) → (DataSpaceDesc → ℕ) → ℕ → Answer × Memory
unfolding attach
attach_slot junk m result descs flags align = elim result [
  | done i dsm ↦
      let m' : Memory = record m { dsm = dsm; descs = descs } in
      elim (dsm.slots i).ds [
        | none ↦ (none, m')
        | some d ↦ attach junk m' i d (flags (descs i)) align
      ]
  | constructor_failed dsm ↦ (none, record m { dsm = dsm })
  | _ ↦ (none, m)
]

-- The slot that a new dataspace gets.
pub next_slot : Manager → ℕ
next_slot dsm = elim dsm.free [ [] ↦ 0 | i ∷ rest ↦ i ]

-- `1 << (desc.align() + PAGE_SHIFT)` is computed in `int` and is defined for alignments below 19.
pub map_create : (ℕ → ℕ) → Memory → DataSpaceDesc → Made → Answer × Memory
unfolding attach_slot next_slot space_of desc_of create_flags
map_create junk m desc made =
    let i = next_slot m.dsm in
    attach_slot junk m (Spaces.create m.dsm (space_of made))
      (update m.descs i (desc_of made (m.descs i))) (λ d. create_flags desc d.flags)
      (2 ^ (desc.align + 12))

-- `made` is what the construction from the selector gives, if no slot has it.
pub map_join : (ℕ → ℕ) → Memory → ℕ → Bool → Bool → Made → Answer × Memory
unfolding attach_slot next_slot space_of desc_of join_flags
map_join junk m sel up down made =
    let i = next_slot m.dsm in
    attach_slot junk m (Spaces.join m.dsm sel (space_of made))
      (elim (find_from max_slots 0 m.dsm.slots sel) [
        | none ↦ update m.descs i (desc_of made (m.descs i))
        | some _ ↦ m.descs
      ])
      (λ d. join_flags up down d.flags) (2 ^ 12)

pub data Request : Type 0 where
  create_request : DataSpaceDesc → Made → Request
  join_request : ℕ → Bool → Bool → Made → Request

pub map_space : (ℕ → ℕ) → Memory → Request → Answer × Memory
unfolding map_virtual map_create map_join is_virtual
map_space junk m (create_request desc made) =
    if is_virtual desc then map_virtual junk m desc else map_create junk m desc made
map_space junk m (join_request sel up down made) = map_join junk m sel up down made

-- Whether the child gets its answer without an exception, and the state.
pub unmap : Memory → DataSpaceDesc → ℕ → Bool × Memory
unfolding is_virtual
unmap m desc sel =
    if is_virtual desc
    then elim (remove_by_addr m.regs desc.virt) [
      | none ↦ (false, m)
      | some removed ↦ (true, record m { regs = removed.2 })
    ]
    else elim (Spaces.release m.dsm sel) [
      | done _ dsm ↦ elim (remove m.regs sel) [
        | none ↦ (false, record m { dsm = dsm })
        | some removed ↦ (true, record m { dsm = dsm; regs = removed.2 })
      ]
      | _ ↦ (false, m)
    ]

-- The dataspace with another origin.
pub with_origin : ℕ → Ds → Ds
with_origin origin ds = record ds { desc = record ds.desc { origin = origin } }

-- The dataspace at an index changed.
pub change_at : (Ds → Ds) → List Ds → ℕ → List Ds
change_at change regs i = elim (get_elem? regs i) [ none ↦ regs | some ds ↦ set regs i (change ds) ]

-- with another origin and without permissions
pub move_to : ℕ → Ds → Ds
unfolding with_origin
move_to origin ds = all_perms (with_origin origin ds) 0

-- The change of another child; the first component tells whether it has one of the dataspaces.
-- `none` is the write through the null pointer `src`.
pub switch_other : ℕ → ℕ → ℕ → ℕ → ChildState → Option (Bool × ChildState)
unfolding change_at move_to with_origin
switch_other srcsel dstsel srcorg dstorg ch =
    let reset : List Ds → ChildState =
      λ regs. record ch { regs = regs; last_fault_addr = 0; last_fault_cpu = 0 } in
    elim (find ch.regs srcsel) [
      | none ↦ elim (find ch.regs dstsel) [ none ↦ some (false, ch) | some j ↦ none ]
      | some i ↦
          let regs₁ = change_at (move_to dstorg) ch.regs i in
          elim (find ch.regs dstsel) [
            | none ↦ some (true, reset regs₁)
            | some j ↦ some (
              true,
              reset (change_at (λ d. all_perms d 0) (change_at (with_origin srcorg) regs₁ j) i),
            )
          ]
    ]

abbrev onto :
    Option ChildState → Option (List (Option ChildState)) → Option (List (Option ChildState))
onto c none = none
onto c (some childs) = some (c ∷ childs)

-- The loop over the slots of the children from the index `i` on, with `x` children changed so far;
-- the child with the index `self` is the one that asks.
pub switch_others :
    ℕ → ℕ → ℕ → ℕ → ℕ → ℕ → ℕ → ℕ → List (Option ChildState) → Option (List (Option ChildState))
unfolding switch_other
switch_others srcsel dstsel srcorg dstorg count self i x [] = some []
switch_others srcsel dstsel srcorg dstorg count self i x (c ∷ childs) =
    let skipped = onto c (switch_others srcsel dstsel srcorg dstorg count self (i + 1) x childs) in
    if not (ltb x count) then some (c ∷ childs) else elim c [
      | none ↦ skipped
      | some ch ↦
          if i == self then skipped else elim (switch_other srcsel dstsel srcorg dstorg ch) [
            | none ↦ none
            | some changed ↦ onto (some changed.1) (
                switch_others srcsel dstsel srcorg dstorg count self (i + 1)
                  (if changed.0 then x + 1 else x) childs)
          ]
    ]

-- The part for the child that asks: its new state, and the origins that the two dataspaces had.
-- `none` is the exception E_ARGS_INVALID.
pub switch_self : ℕ → ℕ → ChildState → Option (ChildState × ℕ × ℕ)
unfolding change_at move_to
switch_self srcsel dstsel c = elim (find c.regs srcsel) [
  | none ↦ none
  | some i ↦ elim (find c.regs dstsel) [
    | none ↦ none
    | some j ↦ elim (get_elem? c.regs i) [
      | none ↦ none
      | some src ↦ elim (get_elem? c.regs j) [
        | none ↦ none
        | some dst ↦
            let srcorg = src.desc.origin in
            let dstorg = dst.desc.origin in
            let regs₁ = change_at (move_to dstorg) c.regs i in
            let regs₂ = change_at (move_to srcorg) regs₁ j in
            if src.desc.size == dst.desc.size
            then some
                (record c { regs = regs₂; last_fault_addr = 0; last_fault_cpu = 0 }, srcorg, dstorg)
            else none
      ]
    ]
  ]
]

-- How `switch_to` ends: with an exception before anything was changed, with an exception of the
-- last step after the children were changed, with a write through a null pointer, or as asked.
pub data Switched : Type 0 where
  refused : Switched
  half : List (Option ChildState) → Switched
  crashed : Switched
  switched : List (Option ChildState) → Manager → Switched

pub switch_to : List (Option ChildState) → ℕ → ℕ → Manager → ℕ → ℕ → Switched
unfolding switch_self switch_others
switch_to childs count self dsm srcsel dstsel = elim (get_elem? childs self) [
  | none ↦ refused
  | some slot ↦ elim slot [
    | none ↦ refused
    | some c ↦ elim (switch_self srcsel dstsel c) [
      | none ↦ refused
      | some (c', srcorg, dstorg) ↦
          elim (switch_others srcsel dstsel srcorg dstorg count self 0 0
            (set childs self (some c'))) [
              | none ↦ crashed
              | some childs' ↦ elim (Spaces.swap dsm srcsel dstsel) [
                | none ↦ half childs'
                | some dsm' ↦ switched childs' dsm'
              ]
            ]
    ]
  ]
]
