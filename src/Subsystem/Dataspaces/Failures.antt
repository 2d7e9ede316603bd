-- ===== src/Subsystem/Dataspaces/Failures.antt =====
-- What `map` and `unmap` leave behind when they fail.
use nre.Base.{ℕ, ◌+◌, ◌^◌, ◌≤◌, ◌<◌, ◌≡◌, refl, ◌∙◌, arith, Bool, false, none, some, u32_mod}
use nre.Child.{DataSpaceDesc, find_free, remove}
use nre.Treap.Heap.{IsValid}
use nre.Treap.Find.{OwnsId}
use nre.Spaces.{DataSpace, Manager, done, find_from, find_unmap, max_slots, release}
use nre.Spaces.Counts.{release_lem, join_release}
use nre.Subsystem.Dataspaces.{
  Memory, Made, is_virtual, unmap, map_join, attach_slot, attach, give_back, space_of, join_flags,
}

-- A child gives back a dataspace by a selector that the manager knows, with more than one reference,
-- but that the child's list does not have: it gets an exception, its list stays, and yet one reference
-- of the dataspace is gone.
pub unmap_unlisted :
    (m : Memory) (desc : DataSpaceDesc) (i sel : ℕ)
    → is_virtual desc ≡ false
    → remove m.regs sel ≡ none
    → IsValid m.dsm.tree
    → OwnsId i sel m.dsm.tree.root
    → find_unmap m.dsm sel ≡ some i
    → (m.dsm.slots i).key ≡ sel
    → 1 < (m.dsm.slots i).refs
    → (m.dsm.slots i).refs < u32_mod
    → (m' : Memory) × (unmap m desc sel ≡ (false, m'))
      × (m'.regs ≡ m.regs)
      × ((m'.dsm.slots i).refs + 1 ≡ (m.dsm.slots i).refs)
unfolding unmap
unmap_unlisted m desc i sel real unlisted valid owned found key more few =
    let cases = release_lem m.dsm i sel valid owned found key (omega (arith, more)) few in
    let (dsm, released, one_less, free, tree) = cases.0 more in
    (record m { dsm = dsm }, rw (real, unmap) (rw released (rw unlisted refl)), refl, one_less)

attach_full :
    (junk : ℕ → ℕ) (m : Memory) (i : ℕ) (d : DataSpace) (flags align : ℕ) (dsm : Manager)
    → find_free m.regs (m.descs i).size align ≡ none
    → release m.dsm d.unmapsel ≡ done none dsm
    → attach junk m i d flags align ≡ (none, record m { dsm = dsm })
unfolding attach give_back
attach_full junk m i d flags align dsm full released =
    rw (full, attach) (rw (released, give_back) refl)

attach_slot-done :
    (junk : ℕ → ℕ) (m : Memory) (i : ℕ) (dsm : Manager) (d : DataSpace) (descs : ℕ → DataSpaceDesc)
    (flags : DataSpaceDesc → ℕ) (align : ℕ)
    → (dsm.slots i).ds ≡ some d
    → attach_slot junk m (done i dsm) descs flags align
      ≡ attach junk (record m { dsm = dsm; descs = descs }) i d (flags (descs i)) align
unfolding attach_slot
attach_slot-done junk m i dsm d descs flags align held = rw (held, attach_slot) refl

-- A child joins a dataspace that a slot has, and there is no room for it below the kernel's part of
-- the child's address space: the child gets an exception, and its list, all slots of the manager, the
-- free slots and the tree are as they were before.
pub map_join_full :
    (junk : ℕ → ℕ) (m : Memory) (i sel : ℕ) (d : DataSpace) (up down : Bool) (made : Made)
    → find_from max_slots 0 m.dsm.slots sel ≡ some i
    → (m.dsm.slots i).ds ≡ some d
    → find_unmap m.dsm d.unmapsel ≡ some i
    → 1 ≤ (m.dsm.slots i).refs
    → (m.dsm.slots i).refs + 1 < u32_mod
    → find_free m.regs (m.descs i).size (2 ^ 12) ≡ none
    → (m' : Memory) × (map_join junk m sel up down made ≡ (none, m'))
      × (m'.regs ≡ m.regs)
      × ((x : ℕ) → m'.dsm.slots x ≡ m.dsm.slots x)
      × (m'.dsm.free ≡ m.dsm.free)
      × (m'.dsm.tree ≡ m.dsm.tree)
unfolding map_join
map_join_full junk m i sel d up down made at held found some_refs few full =
    let (m₁, m₂, joined, kept, released, slots, free, tree) =
      join_release m.dsm i sel d.unmapsel (space_of made) at found some_refs few in
    let mine : Memory = record m { dsm = m₁ } in
    (
      record m { dsm = m₂ },
      rw (at, map_join)
          (rw joined (
            attach_slot-done junk m i m₁ d m.descs
              (λ (x : DataSpaceDesc). join_flags up down x.flags) (2 ^ 12) (kept ∙ held)
            ∙ attach_full junk mine i d _ (2 ^ 12) m₂ full released)),
      refl,
      slots,
      free,
      tree,
    )
