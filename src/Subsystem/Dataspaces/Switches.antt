-- ===== src/Subsystem/Dataspaces/Switches.antt =====
-- What `switch_to` does to the other children.
use nre.Base.{
  ℕ, ◌/◌, ◌≡◌, ◌≢◌, refl, sym, ap, ◌∙◌, arith, Bool, true, false, none, some, List, get_elem?, set,
  if◌then◌else◌, get_elem?-set_ne, get_elem?-set_at,
}
use nre.Child.{Ds, DataSpaceDesc, find, find_by_addr, page_perms, all_perms, origin_of, page_size}
use nre.Child.Listed.{find_by_addr-set}
use nre.Child.Perms.{page_perms_same, all_perms_shape}
use nre.Subsystem.{ChildState}
use nre.Subsystem.Dataspaces.{with_origin, change_at, move_to, switch_other}
use nre.Subsystem.Faults.{Fault, page_of, pf, killed, resumes}
use nre.Subsystem.Faults.Repeated.{At, Mapped, remember, remembered, pf_twice}

change_at-get :
    (change : Ds → Ds) (regs : List Ds) (i : ℕ) (d : Ds)
    → get_elem? regs i ≡ some d
    → change_at change regs i ≡ set regs i (change d)
unfolding change_at
change_at-get change regs i d e = rw (e, change_at) refl

all_perms_desc : (ds : Ds) (perms : ℕ) → (all_perms ds perms).desc ≡ ds.desc
all_perms_desc ds perms = let (pages, e, n) = all_perms_shape ds perms in ap (λ (d : Ds). d.desc) e

move_to_desc : (origin : ℕ) (ds : Ds) → (move_to origin ds).desc ≡ (with_origin origin ds).desc
unfolding move_to
move_to_desc origin ds = all_perms_desc (with_origin origin ds) 0

-- A change at an index of which the address and the size of the dataspace stay the same.
change_at_lem :
    (change : Ds → Ds) (regs : List Ds) (i : ℕ) (d : Ds)
    → get_elem? regs i ≡ some d
    → (change d).desc.virt ≡ d.desc.virt
    → (change d).desc.size ≡ d.desc.size
    → (get_elem? (change_at change regs i) i ≡ some (change d))
      × ((j : ℕ) → j ≢ i → get_elem? (change_at change regs i) j ≡ get_elem? regs j)
      × ((addr : ℕ) → find_by_addr (change_at change regs i) addr ≡ find_by_addr regs addr)
change_at_lem change regs i d h v s =
    let e = change_at-get change regs i d h in
    (
      ap (λ (l : List Ds). get_elem? l i) e ∙ get_elem?-set_at regs i (change d) h,
      (λ j ne.
          ap (λ (l : List Ds). get_elem? l j) e
          ∙ get_elem?-set_ne regs (change d) (λ q. ne (sym q))),
      (λ addr.
          ap (λ (l : List Ds). find_by_addr l addr) e
          ∙ find_by_addr-set regs i addr d (change d) h v s),
    )

-- What is left of a list in which three changes were made, two at `i` and one in between at `j`.
three_changes :
    (regs : List Ds) (i j srcorg dstorg : ℕ) (s d : Ds)
    → i ≢ j
    → get_elem? regs i ≡ some s
    → get_elem? regs j ≡ some d
    → let regs' =
        change_at
          (λ (x : Ds). all_perms x 0)
          (change_at (with_origin srcorg) (change_at (move_to dstorg) regs i) j)
          i in
      (get_elem? regs' j ≡ some (with_origin srcorg d))
      × ((addr : ℕ) → find_by_addr regs' addr ≡ find_by_addr regs addr)
unfolding with_origin
three_changes regs i j srcorg dstorg s d ne at_i at_j =
    let moved = move_to_desc dstorg s in
    let cleared = all_perms_desc (move_to dstorg s) 0 in
    let one =
      change_at_lem (move_to dstorg) regs i s at_i (ap (λ (x : DataSpaceDesc). x.virt) moved)
        (ap (λ (x : DataSpaceDesc). x.size) moved) in
    let two =
      change_at_lem (with_origin srcorg) (change_at (move_to dstorg) regs i) j d
        (one.1 j (λ e. ne (sym e)) ∙ at_j) refl refl in
    let three =
      change_at_lem (λ (x : Ds). all_perms x 0)
        (change_at (with_origin srcorg) (change_at (move_to dstorg) regs i) j) i (move_to dstorg s)
        (two.1 i ne ∙ one.0) (ap (λ (x : DataSpaceDesc). x.virt) cleared)
        (ap (λ (x : DataSpaceDesc). x.size) cleared) in
    (three.1 j (λ e. ne (sym e)) ∙ two.0, (λ addr. three.2 addr ∙ two.2 addr ∙ one.2 addr))

-- The state of a child that has both dataspaces, after another child has switched them.
abbrev pub after_switch : ℕ → ℕ → ℕ → ℕ → ChildState → ChildState
after_switch i j srcorg dstorg ch = record ch {
  regs =
      change_at (λ (x : Ds). all_perms x 0)
        (change_at (with_origin srcorg) (change_at (move_to dstorg) ch.regs i) j) i;
  last_fault_addr = 0;
  last_fault_cpu = 0;
}

switch_other_both :
    (srcsel dstsel srcorg dstorg i j : ℕ) (ch : ChildState)
    → find ch.regs srcsel ≡ some i
    → find ch.regs dstsel ≡ some j
    → switch_other srcsel dstsel srcorg dstorg ch ≡ some (true, after_switch i j srcorg dstorg ch)
unfolding switch_other
switch_other_both srcsel dstsel srcorg dstorg i j ch e f = rw (e, switch_other) (rw f refl)

-- A child other than the one that asks has both dataspaces, and a page of the second one is mapped:
-- the switch leaves the permissions of this page, so that the next fault in it, which comes since
-- the page was revoked, maps nothing, and the same fault again kills the child.
pub switch_other_kills :
    (is_null : ℕ → Bool) (free_typed : ℕ) (ch : ChildState) (f : Fault)
    (srcsel dstsel srcorg dstorg i j flags : ℕ) (s d : Ds)
    → find ch.regs srcsel ≡ some i
    → find ch.regs dstsel ≡ some j
    → i ≢ j
    → get_elem? ch.regs i ≡ some s
    → At ch f j d
    → Mapped (λ page. false) f d flags
    → is_null (origin_of (with_origin srcorg d) f.addr / page_size) ≡ false
    → page_of f.addr ≢ 0
    → (ch' : ChildState) × (switch_other srcsel dstsel srcorg dstorg ch ≡ some (true, ch'))
      × (pf is_null free_typed ch' f ≡ resumes (remember ch' f) none)
      × (pf is_null free_typed (remember ch' f) f ≡ killed)
unfolding with_origin
switch_other_kills is_null free_typed ch f srcsel dstsel srcorg dstorg i j flags s d e g ne at_i at
      mapped present page =
    let ch' = after_switch i j srcorg dstorg ch in
    let changes = three_changes ch.regs i j srcorg dstorg s d ne at_i at.2 in
    let at' : At ch' f j (with_origin srcorg d) =
      (at.0, changes.1 f.addr ∙ at.1, changes.0, at.3) in
    let perms : page_perms (with_origin srcorg d) f.addr ≡ some flags =
      page_perms_same d (record d.desc { origin = srcorg }) f.addr refl ∙ mapped.0 in
    let twice =
      pf_twice is_null free_typed ch' f j flags (with_origin srcorg d) at'
        (perms, mapped.1, mapped.2, present) in
    let new : remembered ch' f ≡ false = ground (arith, page) in
    (
      ch',
      switch_other_both srcsel dstsel srcorg dstorg i j ch e g,
      twice.0 ∙ ap (λ (b : Bool). if b then killed else resumes (remember ch' f) none) new,
      twice.1,
    )
