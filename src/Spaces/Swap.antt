-- ===== src/Spaces/Swap.antt =====
-- `swap` exchanges the virtual addresses of two dataspaces.
use nre.Base.{ℕ, ◌≡◌, ◌≢◌, refl, ap, arith, some, update}
use nre.Spaces.{DataSpace, Slot, Manager, at_virt, virt_of, exchange, find_unmap, swap}

virt_of-eq : (s : Slot) (d : DataSpace) → s.ds ≡ some d → virt_of s ≡ d.virt
unfolding virt_of
virt_of-eq s d h = rw (h, virt_of) refl

at_virt-eq :
    (s : Slot) (d : DataSpace) (v : ℕ)
    → s.ds ≡ some d
    → at_virt s v ≡ some (record s { ds = some (record d { virt = v }) })
unfolding at_virt
at_virt-eq s d v h = rw (h, at_virt) refl

exchange-eq :
    (m : Manager) (i j : ℕ) (d e : DataSpace)
    → i ≢ j
    → (m.slots i).ds ≡ some d
    → (m.slots j).ds ≡ some e
    → exchange m i j
      ≡ some (record m {
        slots =
            update
              (update m.slots i (record (m.slots i) { ds = some (record d { virt = e.virt }) }))
              j
              (record (m.slots j) { ds = some (record e { virt = d.virt }) });
      })
unfolding exchange
exchange-eq m i j d e ne hd he =
    let a : Slot = record (m.slots i) { ds = some (record d { virt = e.virt }) } in
    let same : update m.slots i a j ≡ m.slots j = ground arith in
    let here : at_virt (m.slots i) (virt_of (m.slots j)) ≡ some a =
      rw (virt_of-eq (m.slots j) e he) (at_virt-eq (m.slots i) d e.virt hd) in
    let there : at_virt (update m.slots i a j) (virt_of (m.slots i))
        ≡ some (record (m.slots j) { ds = some (record e { virt = d.virt }) }) =
      rw (same, virt_of-eq (m.slots i) d hd) (at_virt-eq (m.slots j) e d.virt he) in
    rw (here, exchange) (rw (there, exchange) refl)

-- For two selectors that find different slots with a dataspace each: after `swap` each of the two
-- dataspaces stands at the other's virtual address, and all other slots, the free slots and the tree
-- are as they were.
pub swap_lem :
    (m : Manager) (ds1 ds2 i j : ℕ) (d e : DataSpace)
    → find_unmap m ds1 ≡ some i
    → find_unmap m ds2 ≡ some j
    → i ≢ j
    → (m.slots i).ds ≡ some d
    → (m.slots j).ds ≡ some e
    → (m' : Manager) × (swap m ds1 ds2 ≡ some m')
      × ((m'.slots i).ds ≡ some (record d { virt = e.virt }))
      × ((m'.slots j).ds ≡ some (record e { virt = d.virt }))
      × ((x : ℕ) → x ≢ i → x ≢ j → m'.slots x ≡ m.slots x)
      × (m'.free ≡ m.free)
      × (m'.tree ≡ m.tree)
unfolding swap
swap_lem m ds1 ds2 i j d e f g ne hd he =
    let a : Slot = record (m.slots i) { ds = some (record d { virt = e.virt }) } in
    let b : Slot = record (m.slots j) { ds = some (record e { virt = d.virt }) } in
    let at_i : update (update m.slots i a) j b i ≡ a = ground arith in
    let at_j : update (update m.slots i a) j b j ≡ b = ground arith in
    (
      record m { slots = update (update m.slots i a) j b },
      rw (f, g, swap) (exchange-eq m i j d e ne hd he),
      ap (λ (s : Slot). s.ds) at_i,
      ap (λ (s : Slot). s.ds) at_j,
      λ x x_i x_j. ground arith,
      refl,
      refl,
    )
