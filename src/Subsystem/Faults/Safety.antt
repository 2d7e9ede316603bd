-- ===== src/Subsystem/Faults/Safety.antt =====
-- What a fault maps.
use mathlib.Core.Path.{subst}
use nre.Base.{
  ℕ, ◌+◌, ◌-◌, ◌*◌, ◌/◌, ◌%◌, ◌^◌, ◌≤◌, ◌<◌, ◌≡◌, refl, sym, ap, ◌∙◌, arith, Bool, bit_and_low,
  true, false, ◌&&◌, none, some, List, set, length, ◌==◌, if◌then◌else◌, Option-cases, inl, inr,
}
use nre.Math.Rounding.{clear_low}
use nre.Child.{Ds, page_size, page_perms, set_page_perms, all_perms, origin_of}
use nre.Child.Perms.{set_page_perms_lem, all_perms_shape, origin_of_same}
use nre.Subsystem.{ChildState}
use nre.Subsystem.Faults.{
  Fault, CapRange, Reaction, exits, killed, resumes, undefined, page_of, is_big, rights_of,
  violates, map_pages, pf_ds, pf, limit_to, limit_from, wanted_range, first_page,
}
use nre.Subsystem.Faults.Repeated.{At, pf-At}

-- A range of pages of a dataspace from a page on: where it is, its rights, and that it ends within
-- the dataspace.
abbrev pub Inside : Ds → ℕ → CapRange → Type 0
Inside ds page cr =
    (cr.start ≡ origin_of ds page / page_size)
    × (cr.hotspot ≡ page / page_size)
    × (cr.perms ≡ rights_of ds)
    × (page - ds.desc.virt + cr.count * page_size ≤ ds.desc.size)

abbrev pub Contained : Ds → ℕ → Reaction → Type 0
Contained ds page (resumes c (some cr)) = Inside ds page cr
Contained ds page _ = Unit

-- A dataspace that begins at a page, in the lower part of the address space, with a permission for
-- each page.
abbrev pub IsSound : Ds → Type 0
IsSound ds =
    (ds.desc.virt % page_size ≡ 0)
    × (ds.desc.virt + ds.desc.size < 2 ^ 64)
    × (ds.desc.size / page_size ≤ length ds.perms)
    × (is_big ds ≡ false)

limit_to_same :
    (free_typed : ℕ) (cr cr' : CapRange)
    → limit_to free_typed cr ≡ some cr'
    → (cr'.start ≡ cr.start) × (cr'.hotspot ≡ cr.hotspot) × (cr'.perms ≡ cr.perms)
unfolding limit_to
limit_to_same free_typed cr cr' h =
    elim (Option-cases (limit_from free_typed cr.start cr.hotspot cr.count)) [
      | inl e ↦ ground (arith, h, e)
      | inr (c, e) ↦ ground (arith, h, e)
    ]

first_page_small : (ds : Ds) (page : ℕ) → is_big ds ≡ false → first_page ds page ≡ page
unfolding first_page
first_page_small ds page h = rw h refl

wanted_range_small :
    (ds : Ds) (page : ℕ)
    → is_big ds ≡ false
    → ((wanted_range ds page).start ≡ origin_of ds page / page_size)
      × ((wanted_range ds page).hotspot ≡ page / page_size)
      × ((wanted_range ds page).perms ≡ rights_of ds)
unfolding wanted_range
wanted_range_small ds page h =
    let e = first_page_small ds page h in
    (ap (λ (p : ℕ). origin_of ds p / page_size) e, ap (λ (p : ℕ). p / page_size) e, refl)

rights_small : (ds : Ds) → rights_of ds < 2 ^ 4
rights_small ds = omega (arith, bit_and_low 3 ds.desc.flags)

map_pages-none :
    (free_typed : ℕ) (c : ChildState) (i : ℕ) (ds : Ds) (page : ℕ)
    → limit_to free_typed (wanted_range ds page) ≡ none
    → map_pages free_typed c i ds page ≡ undefined
unfolding map_pages
map_pages-none free_typed c i ds page e = rw (e, map_pages) refl

map_pages-some :
    (free_typed : ℕ) (c : ChildState) (i : ℕ) (ds ds' : Ds) (page n : ℕ) (cr : CapRange)
    → limit_to free_typed (wanted_range ds page) ≡ some cr
    → set_page_perms ds (first_page ds page) cr.count (rights_of ds) ≡ some (n, ds')
    → map_pages free_typed c i ds page
      ≡ resumes (record c { regs = set c.regs i ds' }) (some (record cr { count = n }))
unfolding map_pages
map_pages-some free_typed c i ds ds' page n cr e f = rw (e, map_pages) (rw f refl)

map_pages-Contained :
    (free_typed : ℕ) (c : ChildState) (i : ℕ) (ds : Ds) (page : ℕ)
    → IsSound ds
    → ds.desc.virt ≤ page
    → page - ds.desc.virt ≤ ds.desc.size
    → Contained ds page (map_pages free_typed c i ds page)
map_pages-Contained free_typed c i ds page (aligned, ends, field, small) low high =
    elim (Option-cases (limit_to free_typed (wanted_range ds page))) [
      | inl e ↦ subst (Contained ds page) (sym (map_pages-none free_typed c i ds page e)) tt
      | inr (cr, e) ↦
          (let (n, pages, run, set_all) =
              set_page_perms_lem ds page cr.count (rights_of ds) (rights_small ds) low high
                (omega (arith, ends)) (omega (arith, ends, low, high)) field in
            let first = first_page_small ds page small in
            let run' = ap (λ (p : ℕ). set_page_perms ds p cr.count (rights_of ds)) first ∙ run in
            let (start, hotspot, perms) = limit_to_same free_typed (wanted_range ds page) cr e in
            let wanted = wanted_range_small ds page small in
            subst (Contained ds page)
              (sym
                (map_pages-some free_typed c i ds (record ds { perms = pages }) page n cr e run'))
              (
                start ∙ wanted.0,
                hotspot ∙ wanted.1,
                perms ∙ wanted.2,
                omega (arith, set_all.0, high),
              ))
    ]

if-Contained :
    (b : Bool) (ds : Ds) (page : ℕ) (r s : Reaction)
    → Contained ds page r
    → Contained ds page s
    → Contained ds page (if b then r else s)
if-Contained true ds page r s hr hs = hr
if-Contained false ds page r s hr hs = hs

-- The permissions of a dataspace do not matter for where its ranges are.
Contained-same :
    (ds : Ds) (pages : List ℕ) (page : ℕ) (r : Reaction)
    → Contained (record ds { perms = pages }) page r
    → Contained ds page r
Contained-same ds pages page exits h = tt
Contained-same ds pages page killed h = tt
Contained-same ds pages page undefined h = tt
Contained-same ds pages page (resumes c none) h = tt
Contained-same ds pages page (resumes c (some cr)) (start, hotspot, perms, ends) =
    (start ∙ ap (λ (o : ℕ). o / page_size) (origin_of_same ds pages page), hotspot, perms, ends)

unmapped-Contained :
    (free_typed : ℕ) (c : ChildState) (i : ℕ) (ds : Ds) (page : ℕ)
    → IsSound ds
    → ds.desc.virt ≤ page
    → page - ds.desc.virt ≤ ds.desc.size
    → Contained ds page (map_pages free_typed c i (all_perms ds 0) page)
unmapped-Contained free_typed c i ds page (aligned, ends, field, small) low high =
    let (pages, e, n) = all_perms_shape ds 0 in
    let ds' : Ds = record ds { perms = pages } in
    let sound : IsSound ds' = (aligned, ends, omega (arith, n, field), small) in
    Contained-same ds pages page (map_pages free_typed c i (all_perms ds 0) page) (
      subst (λ (d : Ds). Contained ds' page (map_pages free_typed c i d page)) (sym e)
        (map_pages-Contained free_typed c i ds' page sound low high))

pf_ds-Contained :
    (is_null : ℕ → Bool) (free_typed : ℕ) (c : ChildState) (f : Fault) (i : ℕ) (ds : Ds)
    → IsSound ds
    → ds.desc.virt ≤ page_of f.addr
    → page_of f.addr - ds.desc.virt ≤ ds.desc.size
    → Contained ds (page_of f.addr) (pf_ds is_null free_typed c f i ds)
unfolding pf_ds
pf_ds-Contained is_null free_typed c f i ds sound low high =
    let page = page_of f.addr in
    let here = map_pages-Contained free_typed c i ds page sound low high in
    let c' = record c {
      regs = set c.regs i (all_perms ds 0);
      last_fault_addr = 0;
      last_fault_cpu = 0;
    } in
    let anew = unmapped-Contained free_typed c' i ds page sound low high in
    elim (Option-cases (page_perms ds f.addr)) [
      | inl e ↦ rw (e, pf_ds) tt
      | inr (flags, e) ↦
          rw (e, pf_ds)
            (if-Contained (flags == 0) ds page _ _ here (
              if-Contained (violates f.error (rights_of ds)) ds page _ _ tt (
                if-Contained (is_null (origin_of ds f.addr / page_size)) ds page _ _ anew (
                  if-Contained (page == c.last_fault_addr && f.cpu == c.last_fault_cpu) ds page _ _
                    tt tt))))
    ]

page_of_lem :
    (virt addr : ℕ)
    → virt % page_size ≡ 0
    → virt ≤ addr
    → addr < 2 ^ 64
    → (virt ≤ page_of addr) × (page_of addr ≤ addr)
page_of_lem virt addr h k l =
    let e : page_of addr ≡ addr / 2 ^ 12 * 2 ^ 12 = clear_low 12 52 addr refl l in
    (omega (arith, e, h, k), omega (arith, e))

-- Whatever a fault in a sound dataspace without big pages makes the portal map: the range begins at
-- the fault's page, at the memory that the dataspace has for it, with the rights of the dataspace,
-- and ends within the dataspace.
pub pf-Contained :
    (is_null : ℕ → Bool) (free_typed : ℕ) (c : ChildState) (f : Fault) (i : ℕ) (ds : Ds)
    → At c f i ds
    → IsSound ds
    → ds.desc.virt ≤ f.addr
    → f.addr < ds.desc.virt + ds.desc.size
    → Contained ds (page_of f.addr) (pf is_null free_typed c f)
pf-Contained is_null free_typed c f i ds at sound low high =
    let (above, below) =
      page_of_lem ds.desc.virt f.addr sound.0 low (omega (arith, high, sound.1)) in
    subst (Contained ds (page_of f.addr)) (sym (pf-At is_null free_typed c f i ds at))
      (pf_ds-Contained is_null free_typed c f i ds sound above (omega (arith, above, below, high)))
