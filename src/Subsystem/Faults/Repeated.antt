-- ===== src/Subsystem/Faults/Repeated.antt =====
-- A fault that comes again.
use mathlib.Core.Option.{some-injective}
use nre.Base.{
  ℕ, zero, suc, ◌/◌, ◌≡◌, ◌≢◌, refl, sym, ap, ◌∙◌, arith, Bool, true, false, ◌&&◌, none, some, List,
  [], ◌∷◌, get_elem?, set, ◌==◌, leb, if◌then◌else◌,
}
use nre.Child.{Ds, page_size, find_by_addr, page_perms, origin_of}
use nre.Child.Perms.{set_page_perms_same}
use nre.Subsystem.{ChildState}
use nre.Subsystem.Faults.{
  Fault, CapRange, killed, resumes, page_of, rights_of, violates, map_pages, pf_ds, pf, exit_start,
  thread_exit, limit_to, wanted_range, first_page,
}

-- Whether the fault is the child's way to exit.
abbrev pub leaving : Fault → Bool
leaving f = f.addr == f.eip && leb exit_start f.addr && leb f.addr thread_exit

-- The dataspace in which a fault lies, if it may be accessed.
abbrev pub At : ChildState → Fault → ℕ → Ds → Type 0
At c f i ds =
    (leaving f ≡ false)
    × (find_by_addr c.regs f.addr ≡ some i)
    × (get_elem? c.regs i ≡ some ds)
    × (ds.desc.flags ≢ 0)

pub pf-At :
    (is_null : ℕ → Bool) (free_typed : ℕ) (c : ChildState) (f : Fault) (i : ℕ) (ds : Ds)
    → At c f i ds
    → pf is_null free_typed c f ≡ pf_ds is_null free_typed c f i ds
unfolding pf
pf-At is_null free_typed c f i ds (stays, found, at, allowed) =
    let flags : (ds.desc.flags == 0) ≡ false = ground (arith, allowed) in
    rw (stays, found, pf) (rw at (rw flags refl))

-- In a page that is mapped: the fault is not a violation, and the kernel has the memory.
abbrev pub Mapped : (ℕ → Bool) → Fault → Ds → ℕ → Type 0
Mapped is_null f ds flags =
    (page_perms ds f.addr ≡ some flags)
    × (flags ≢ 0)
    × (violates f.error (rights_of ds) ≡ false)
    × (is_null (origin_of ds f.addr / page_size) ≡ false)

abbrev pub remember : ChildState → Fault → ChildState
remember c f = record c { last_fault_addr = page_of f.addr; last_fault_cpu = f.cpu }

abbrev pub remembered : ChildState → Fault → Bool
remembered c f = page_of f.addr == c.last_fault_addr && f.cpu == c.last_fault_cpu

pf_ds-Mapped :
    (is_null : ℕ → Bool) (free_typed : ℕ) (c : ChildState) (f : Fault) (i flags : ℕ) (ds : Ds)
    → Mapped is_null f ds flags
    → pf_ds is_null free_typed c f i ds
      ≡ (if remembered c f then killed else resumes (remember c f) none)
unfolding pf_ds
pf_ds-Mapped is_null free_typed c f i flags ds (perms, some_perms, fine, present) =
    let mapped : (flags == 0) ≡ false = ground (arith, some_perms) in
    rw (perms, pf_ds) (rw (mapped, fine, present) refl)

-- A fault that is no violation, in a page that is mapped and that the kernel has: the child goes on
-- without a new mapping, unless this processor's last fault was in this page; the same fault again
-- kills the child.
pub pf_twice :
    (is_null : ℕ → Bool) (free_typed : ℕ) (c : ChildState) (f : Fault) (i flags : ℕ) (ds : Ds)
    → At c f i ds
    → Mapped is_null f ds flags
    → (pf is_null free_typed c f ≡ (if remembered c f then killed else resumes (remember c f) none))
      × (pf is_null free_typed (remember c f) f ≡ killed)
pf_twice is_null free_typed c f i flags ds at mapped =
    let again : remembered (remember c f) f ≡ true = ground arith in
    (
      pf-At is_null free_typed c f i ds at ∙ pf_ds-Mapped is_null free_typed c f i flags ds mapped,
      pf-At is_null free_typed (remember c f) f i ds at
          ∙ pf_ds-Mapped is_null free_typed (remember c f) f i flags ds mapped
          ∙ ap (λ (b : Bool). if b then killed else resumes (remember (remember c f) f) none) again,
    )

set-same : (xs : List Ds) (i : ℕ) (d : Ds) → get_elem? xs i ≡ some d → set xs i d ≡ xs
set-same [] i d h = refl
set-same (x ∷ xs) zero d h = ap (λ (y : Ds). y ∷ xs) (sym (some-injective x d h))
set-same (x ∷ xs) (suc i) d h = ap (λ (ys : List Ds). x ∷ ys) (set-same xs i d h)

-- A fault in a dataspace that has flags, but no right to be read, written or executed, at a page
-- without a permission: the child goes on with nothing mapped and with the state it had, so that the
-- same fault comes again for ever.
pub pf_forever :
    (is_null : ℕ → Bool) (free_typed : ℕ) (c : ChildState) (f : Fault) (i : ℕ) (ds : Ds)
    (cr : CapRange)
    → At c f i ds
    → rights_of ds ≡ 0
    → page_perms ds f.addr ≡ some 0
    → page_perms ds (first_page ds (page_of f.addr)) ≡ some 0
    → limit_to free_typed (wanted_range ds (page_of f.addr)) ≡ some cr
    → pf is_null free_typed c f ≡ resumes c (some (record cr { count = 0 }))
unfolding pf_ds map_pages
pf_forever is_null free_typed c f i ds cr at rights perms first limited =
    let same = set_page_perms_same ds (first_page ds (page_of f.addr)) cr.count 0 first in
    let kept = set-same c.regs i ds at.2 in
    pf-At is_null free_typed c f i ds at
    ∙ rw (perms, pf_ds)
        (rw (limited, map_pages)
          (rw (rights, same)
            (ap (λ (l : List Ds). resumes (record c { regs = l }) (some (record cr { count = 0 })))
              kept)))
