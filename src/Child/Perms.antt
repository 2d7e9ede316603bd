-- ===== src/Child/Perms.antt =====
-- Setting the permissions of a range of pages.
use mathlib.Core.Path.{subst}
use native.Mathlib.Decide.{ℕ_discrete}
use nre.Base.{
  ℕ, zero, suc, ◌+◌, ◌-◌, ◌/◌, ◌%◌, ◌^◌, ◌≤◌, ◌<◌, ◌≡◌, refl, sym, ◌∙◌, ap, arith, true, false,
  Option, some, List, [], ◌∷◌, ltb, leb, ◌==◌, if◌then◌else◌, sub64, length, get_elem?, set, ◌&&◌,
  min, replicate, length-set, get_elem?-set_self, get_elem?-set_ne,
}
use nre.Child.{
  Ds, DataSpaceDesc, page_size, set_from, with_field, set_page_perms, page_perms, all_perms,
  origin_of,
}

get_below : (field : List ℕ) (o : ℕ) → o < length field → (v : ℕ) × (get_elem? field o ≡ some v)
get_below [] o h = absurd (omega arith)
get_below (x ∷ xs) zero h = (x, refl)
get_below (x ∷ xs) (suc o) h = get_below xs o (omega arith)

-- The pages `o` to `o + n - 1` have the permissions, and the others are as they were; with fewer than
-- `pages` pages set, the page after them had them before.
abbrev pub Set : List ℕ → ℕ → ℕ → ℕ → ℕ → List ℕ → Type 0
Set field pages o perms n field' =
    (n ≤ pages)
    × ((j : ℕ)
        → get_elem? field' j ≡ (if leb o j && ltb j (o + n) then some perms else get_elem? field j))
    × (n < pages → get_elem? field (o + n) ≡ some perms)

after_first :
    (field : List ℕ) (o perms n j : ℕ)
    → o < length field
    → (if leb (o + 1) j && ltb j (o + 1 + n) then some perms else get_elem? (set field o perms) j)
      ≡ (if leb o j && ltb j (o + suc n) then some perms else get_elem? field j)
after_first field o perms n j h = elim (ℕ_discrete o j) [
  | yes e ↦
      let self : get_elem? (set field o perms) j ≡ some perms =
        subst (λ z. get_elem? (set field o perms) z ≡ some perms) e
          (get_elem?-set_self field o perms h) in
      ground (arith, self)
  | no ne ↦
      let other : get_elem? (set field o perms) j ≡ get_elem? field j =
        get_elem?-set_ne field perms ne in
      ground (arith, other)
]

set_from-Set :
    (pages : ℕ) (field : List ℕ) (i o perms : ℕ)
    → perms < 2 ^ 4
    → o + pages ≤ length field
    → (n : ℕ) × (field' : List ℕ) × (set_from pages field i o perms ≡ some (i + n, field'))
      × Set field pages o perms n field'
unfolding set_from
set_from-Set zero field i o perms hp h = (
  0,
  field,
  ap (λ z. some (z, field)) (omega arith),
  (omega arith, λ j. ground arith, λ l. absurd (omega arith)),
)
set_from-Set (suc pages) field i o perms hp h =
    let (old, at) = get_below field o (omega arith) in
    let mask : perms % 2 ^ 4 ≡ perms = omega arith in
    elim (ℕ_discrete old perms) [
      | yes e ↦
          let same : (old == perms) ≡ true = ground arith in
          (
            0,
            field,
            rw (at, set_from) (rw same (ap (λ z. some (z, field)) (omega arith))),
            (
              omega arith,
              λ j. ground arith,
              λ l. ap (get_elem? field) (omega arith) ∙ (at ∙ ap some e),
            ),
          )
      | no ne ↦
          let differs : (old == perms) ≡ false = ground arith in
          let more =
            set_from-Set pages (set field o perms) (i + 1) (o + 1) perms hp
              (omega (arith, length-set field o perms)) in
          let (n, field', run, tail) = more in
          let (le, all, stop) = tail in
          (
            suc n,
            field',
            rw (at, set_from) (rw (differs, mask) (run ∙ ap (λ z. some (z, field')) (omega arith))),
            (
              omega arith,
              λ j. all j ∙ after_first field o perms n j (omega arith),
              λ l.
                  sym (get_elem?-set_ne field perms (λ q. absurd (omega arith)))
                  ∙ (ap (get_elem? (set field o perms)) (omega arith) ∙ stop (omega arith)),
            ),
          )
    ]

-- For an address in the dataspace, permissions of four bits, and a field with a mask for every page:
-- `page_perms` sets the permissions of the pages from the address's on and returns how many, at most
-- those asked for and those that the dataspace has from there on; it stops early only at a page that
-- had the permissions already, and all other pages keep theirs.
pub set_page_perms_lem :
    (ds : Ds) (addr pages perms : ℕ)
    → perms < 2 ^ 4
    → ds.desc.virt ≤ addr
    → addr - ds.desc.virt ≤ ds.desc.size
    → ds.desc.size < 2 ^ 64
    → addr < 2 ^ 64
    → ds.desc.size / page_size ≤ length ds.perms
    → (n : ℕ) × (field : List ℕ) × (set_page_perms ds addr pages perms
        ≡ some (n, record ds { perms = field }))
      × Set ds.perms
          (min pages ((ds.desc.size - (addr - ds.desc.virt)) / page_size))
          ((addr - ds.desc.virt) / page_size)
          perms
          n
          field
unfolding set_page_perms with_field
set_page_perms_lem ds addr pages perms hp lo hi small word room =
    let off : sub64 addr ds.desc.virt ≡ addr - ds.desc.virt = omega arith in
    let left : sub64 ds.desc.size (addr - ds.desc.virt) ≡ ds.desc.size - (addr - ds.desc.virt) =
      omega arith in
    let (n, field, run, rest) =
      set_from-Set (min pages ((ds.desc.size - (addr - ds.desc.virt)) / page_size)) ds.perms 0
        ((addr - ds.desc.virt) / page_size) perms hp (omega arith) in
    let entry : set_page_perms ds addr pages perms
        ≡ with_field ds (
            set_from (min pages ((ds.desc.size - (addr - ds.desc.virt)) / page_size)) ds.perms 0
              ((addr - ds.desc.virt) / page_size) perms) =
      rw (off, left) refl in
    let start : 0 + n ≡ n = omega arith in
    (
      n,
      field,
      entry ∙ (ap (with_field ds) run ∙ ap (λ z. some (z, record ds { perms = field })) start),
      rest,
    )

set_from_same :
    (pages : ℕ) (field : List ℕ) (i o perms : ℕ)
    → get_elem? field o ≡ some perms
    → set_from pages field i o perms ≡ some (i, field)
unfolding set_from
set_from_same zero field i o perms h = refl
set_from_same (suc pages) field i o perms h =
    let same : (perms == perms) ≡ true = ground arith in rw (h, set_from) (rw same refl)

with_field_same : (ds : Ds) (n : ℕ) → with_field ds (some (n, ds.perms)) ≡ some (n, ds)
unfolding with_field
with_field_same ds n = refl

-- A page that has the permissions already ends the loop at once.
pub set_page_perms_same :
    (ds : Ds) (addr pages perms : ℕ)
    → page_perms ds addr ≡ some perms
    → set_page_perms ds addr pages perms ≡ some (0, ds)
unfolding set_page_perms page_perms
set_page_perms_same ds addr pages perms h =
    let off = sub64 addr ds.desc.virt in
    ap (λ (r : Option (ℕ × List ℕ)). with_field ds r)
      (set_from_same (min pages (sub64 ds.desc.size off / page_size)) ds.perms 0 (off / page_size)
        perms h)
    ∙ with_field_same ds 0

length-replicate : (n a : ℕ) → length (replicate n a) ≡ n
length-replicate zero a = refl
length-replicate (suc n) a = ap suc (length-replicate n a)

-- `all_perms` changes nothing but the permissions, of which there are as many as before.
pub all_perms_shape :
    (ds : Ds) (perms : ℕ)
    → (pages : List ℕ) × (all_perms ds perms ≡ record ds { perms = pages })
      × (length pages ≡ length ds.perms)
unfolding all_perms
all_perms_shape ds perms = (
  replicate (length ds.perms) (perms % 2 ^ 4),
  refl,
  length-replicate (length ds.perms) (perms % 2 ^ 4),
)

pub origin_of_same :
    (ds : Ds) (pages : List ℕ) (addr : ℕ)
    → origin_of (record ds { perms = pages }) addr ≡ origin_of ds addr
unfolding origin_of
origin_of_same ds pages addr = refl

pub page_perms_same :
    (ds : Ds) (desc : DataSpaceDesc) (addr : ℕ)
    → desc.virt ≡ ds.desc.virt
    → page_perms (record ds { desc = desc }) addr ≡ page_perms ds addr
unfolding page_perms
page_perms_same ds desc addr e = ap (λ (v : ℕ). get_elem? ds.perms (sub64 addr v / page_size)) e
