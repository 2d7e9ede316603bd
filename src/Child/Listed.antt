-- ===== src/Child/Listed.antt =====
-- The dataspaces of a child stand in the order of their addresses and do not overlap.
use mathlib.Core.Option.{some-injective}
use nre.Base.{
  ℕ, zero, suc, ◌+◌, ◌≤◌, ◌<◌, ◌≡◌, ◌⊎◌, inl, inr, refl, ap, arith, true, Option, none, some, List,
  [], ◌∷◌, ltb, word_mod, get_elem?, set, sym, erase_at, ◌∙◌, ◌↔◌, All, All-map, Bool-cases,
  if_intro,
}
use nre.Child.{Ds, isless, insert, covers, index_of, find_by_addr}

abbrev pub end_of : Ds → ℕ
end_of d = d.desc.virt + d.desc.size

abbrev pub Ordered : List Ds → Type 0
Ordered [] = Unit
Ordered (d ∷ ds) = All (λ e. end_of d ≤ e.desc.virt) ds × Ordered ds

-- It is not empty and ends below the end of the address space.
abbrev pub Fits : Ds → Type 0
Fits d = (1 ≤ d.desc.size) × (end_of d < word_mod)

-- The two do not overlap.
abbrev pub Beside : Ds → Ds → Type 0
Beside e d = (end_of d ≤ e.desc.virt) ⊎ (end_of e ≤ d.desc.virt)

pub insert-All {κ} :
    (P : Ds → Type κ) (list : List Ds) (e : Ds) → P e → All P list → All P (insert list e)
unfolding insert
insert-All P [] e p h = (p, tt)
insert-All P (d ∷ ds) e p h =
    if_intro (All P) (isless d e) (λ t. (h.0, insert-All P ds e p h.1)) (λ t. (p, h))

-- A dataspace that overlaps none of an ordered list is inserted in order.
pub insert-Ordered :
    (list : List Ds) (e : Ds)
    → All Fits list
    → Ordered list
    → 1 ≤ e.desc.size
    → All (Beside e) list
    → Ordered (insert list e)
unfolding insert isless
insert-Ordered [] e f o pos h = (tt, tt)
insert-Ordered (d ∷ ds) e f o pos h = elim (Bool-cases (ltb d.desc.virt e.desc.virt)) [
  | inl below ↦
      let beside = h.0 in
      let first : end_of d ≤ e.desc.virt = ground arith in
      rw below (
        insert-All (λ x. end_of d ≤ x.desc.virt) ds e first o.0,
        insert-Ordered ds e f.1 o.1 pos h.1,
      )
  | inr above ↦
      let beside = h.0 in
      let fits = f.0 in
      let first : end_of e ≤ d.desc.virt = ground arith in
      let rest : All (λ x. end_of e ≤ x.desc.virt) ds = All-map ds (λ x l. omega arith) o.0 in
      rw above ((first, rest), o)
]

erase_at-All {κ} : (P : Ds → Type κ) (list : List Ds) (i : ℕ) → All P list → All P (erase_at list i)
erase_at-All P [] i h = tt
erase_at-All P (d ∷ ds) zero h = h.1
erase_at-All P (d ∷ ds) (suc i) h = (h.0, erase_at-All P ds i h.1)

pub erase_at-Ordered : (list : List Ds) (i : ℕ) → Ordered list → Ordered (erase_at list i)
erase_at-Ordered [] i o = tt
erase_at-Ordered (d ∷ ds) zero o = o.1
erase_at-Ordered (d ∷ ds) (suc i) o =
    (erase_at-All (λ e. end_of d ≤ e.desc.virt) ds i o.0, erase_at-Ordered ds i o.1)

covers_iff :
    (d : Ds) (addr : ℕ)
    → Fits d
    → (covers addr d ≡ true) ↔ ((d.desc.virt ≤ addr) × (addr < end_of d))
unfolding covers
covers_iff d addr f = ground arith

-- No dataspace of the list holds the address.
abbrev pub Uncovered : List Ds → ℕ → Type 0
Uncovered list addr = All (λ d. ¬ ((d.desc.virt ≤ addr) × (addr < end_of d))) list

-- A search that starts at the index `i` finds the one dataspace that holds the address, or none does.
abbrev Found : List Ds → ℕ → ℕ → Option ℕ → Type 0
Found list addr i r =
    ((r ≡ none) × Uncovered list addr)
    ⊎ ((j : ℕ) × (d : Ds) × (r ≡ some (i + j))
        × (get_elem? list j ≡ some d)
        × (d.desc.virt ≤ addr)
        × (addr < end_of d)
        × Uncovered (erase_at list j) addr)

index_of-Found :
    (list : List Ds) (addr i : ℕ)
    → All Fits list
    → Ordered list
    → Found list addr i (index_of (covers addr) i list)
unfolding index_of
index_of-Found [] addr i f o = inl (refl, tt)
index_of-Found (d ∷ ds) addr i f o = elim (Bool-cases (covers addr d)) [
  | inl hit ↦
      let (lo, hi) = (covers_iff d addr f.0).0 hit in
      inr (
        0,
        d,
        rw hit (ap some (omega arith)),
        refl,
        lo,
        hi,
        All-map ds (λ e l w. omega (arith, w.0)) o.0,
      )
  | inr miss ↦
      let away : ¬ ((d.desc.virt ≤ addr) × (addr < end_of d)) =
        λ w. (let t = (covers_iff d addr f.0).1 w in cc) in
      elim (index_of-Found ds addr (i + 1) f.1 o.1) [
        | inl (e, un) ↦ inl (rw miss e, (away, un))
        | inr (j, x, e, at, lo, hi, un) ↦
            inr (suc j, x, rw miss (e ∙ ap some (omega arith)), at, lo, hi, (away, un))
      ]
]

-- For nonempty dataspaces in order that end within the address space: `find_by_addr` returns null if
-- no dataspace holds the address, and otherwise the index of the one that does; no other one holds it.
pub find_by_addr_lem :
    (list : List Ds) (addr : ℕ)
    → All Fits list
    → Ordered list
    → ((find_by_addr list addr ≡ none) × Uncovered list addr)
      ⊎ ((j : ℕ) × (d : Ds) × (find_by_addr list addr ≡ some j)
          × (get_elem? list j ≡ some d)
          × (d.desc.virt ≤ addr)
          × (addr < end_of d)
          × Uncovered (erase_at list j) addr)
unfolding find_by_addr
find_by_addr_lem list addr f o = elim (index_of-Found list addr 0 f o) [
  | inl h ↦ inl h
  | inr (j, d, e, at, lo, hi, un) ↦ inr (j, d, e ∙ ap some (omega arith), at, lo, hi, un)
]

index_of-set :
    (addr k : ℕ) (list : List Ds) (i : ℕ) (d d' : Ds)
    → get_elem? list i ≡ some d
    → covers addr d' ≡ covers addr d
    → index_of (covers addr) k (set list i d') ≡ index_of (covers addr) k list
unfolding index_of
index_of-set addr k [] i d d' h e = refl
index_of-set addr k (x ∷ xs) zero d d' h e =
    let same : covers addr d' ≡ covers addr x = e ∙ ap (covers addr) (sym (some-injective x d h)) in
    rw same refl
index_of-set addr k (x ∷ xs) (suc i) d d' h e = rw (index_of-set addr (k + 1) xs i d d' h e) refl

-- A dataspace that is changed at its place in the list, but for its address and its size, is found as
-- before.
pub find_by_addr-set :
    (list : List Ds) (i addr : ℕ) (d d' : Ds)
    → get_elem? list i ≡ some d
    → d'.desc.virt ≡ d.desc.virt
    → d'.desc.size ≡ d.desc.size
    → find_by_addr (set list i d') addr ≡ find_by_addr list addr
unfolding find_by_addr covers
find_by_addr-set list i addr d d' h v s = index_of-set addr 0 list i d d' h (rw (v, s, covers) refl)
