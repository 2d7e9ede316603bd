-- ===== src/Child/Space.antt =====
-- Free positions in the child's address space, and the dataspaces that are put there.
use nre.Base.{
  ℕ, ◌+◌, ◌-◌, ◌*◌, ◌/◌, ◌%◌, ◌^◌, ◌≤◌, ◌<◌, ◌≡◌, ◌⊎◌, inl, inr, refl, arith, ◌||◌, Option, none,
  some, List, [], ◌∷◌, ltb, if◌then◌else◌, add64, sub64, not64, bit_and, word_mod, erase_at, All,
  All-map,
}
use mathlib.Core.Path.{subst}
use native.Mathlib.Nat.{pow-le-pow_right}
use nre.Math.{round_up}
use nre.Math.Rounding.{clear_low, round_up_lem}
use nre.Child.{
  DataSpaceDesc, Ds, page_size, kernel_start, last, last_end, candidate, find_free, make_ds,
  make_desc, add, remove_at, remove_by_addr,
}
use nre.Child.Listed.{
  end_of, Ordered, Fits, insert-Ordered, insert-All, Uncovered, find_by_addr_lem, erase_at-Ordered,
}

-- It is not empty and ends below the kernel.
abbrev pub Below : Ds → Type 0
Below d = (1 ≤ d.desc.size) × (end_of d ≤ kernel_start)

-- The end of the last dataspace.
abbrev end_all : Option Ds → ℕ
end_all none = 0
end_all (some d) = end_of d

ends_before : (list : List Ds) → Ordered list → All (λ d. end_of d ≤ end_all (last list)) list
unfolding last
ends_before [] o = tt
ends_before (d ∷ []) o = (omega arith, tt)
ends_before (d ∷ e ∷ ds) o =
    let rest = ends_before (e ∷ ds) o.1 in let r0 = rest.0 in let o0 = o.0.0 in (omega arith, rest)

last-Below : (list : List Ds) → All Below list → end_all (last list) ≤ kernel_start
unfolding last
last-Below [] h = omega arith
last-Below (d ∷ []) h = h.0.1
last-Below (d ∷ e ∷ ds) h = last-Below (e ∷ ds) h.1

last_end-eq : (o : Option Ds) → end_all o ≤ kernel_start → last_end o ≡ end_all o
unfolding last_end
last_end-eq none h = refl
last_end-eq (some d) h = omega arith

page_above :
    (x : ℕ)
    → x ≤ kernel_start
    → bit_and (sub64 (add64 x (page_size * 2)) 1) (not64 (page_size - 1)) ≡ (x + 8191) / 4096 * 4096
page_above x h =
    let e : sub64 (add64 x (page_size * 2)) 1 ≡ x + 8191 = omega arith in
    rw e (clear_low 12 52 (x + 8191) refl (omega arith))

candidate-above :
    (list : List Ds) (k : ℕ)
    → k ≤ 46
    → end_all (last list) ≤ kernel_start
    → (end_all (last list) + page_size ≤ candidate list (2 ^ k))
      × (candidate list (2 ^ k) % 2 ^ k ≡ 0)
      × (candidate list (2 ^ k) < 2 ^ 63)
unfolding candidate round_up
candidate-above list k hk h =
    let x : ℕ = (end_all (last list) + 8191) / 4096 * 4096 in
    let small : 2 ^ k ≤ 2 ^ 46 = pow-le-pow_right (omega arith) hk in
    let (multiple, lo, hi) = round_up_lem k x (omega arith) (omega arith) in
    rw (last_end-eq (last list) h, page_above (end_all (last list)) h)
      (omega (arith, lo), multiple, omega (arith, hi))

-- For nonempty dataspaces in order that end below the kernel and an alignment 2 ^ k of at most 2 ^ 46:
-- the position that `find_free` returns is a multiple of the alignment, is at least a page behind every
-- dataspace, and the size ends below the kernel there; a dataspace of any nonempty size up to that
-- one that `add` puts there keeps all of them nonempty, in order, and below the kernel.
pub find_free-add :
    (list : List Ds) (size k e : ℕ)
    → k ≤ 46
    → size < word_mod
    → All Below list
    → Ordered list
    → find_free list size (2 ^ k) ≡ some e
    → (e % 2 ^ k ≡ 0)
      × All (λ d. end_of d + page_size ≤ e) list
      × (e + size ≤ kernel_start)
      × ((junk : ℕ → ℕ) (desc : DataSpaceDesc) (flags sel : ℕ)
          → 1 ≤ desc.size
          → desc.size ≤ size
          → Ordered (add junk list desc e flags sel) × All Below (add junk list desc e flags sel))
unfolding find_free add make_ds make_desc
find_free-add list size k e hk hs below o found =
    let bound = last-Below list below in
    let (behind, multiple, small) = candidate-above list k hk bound in
    let (same, fits) = accepted (candidate list (2 ^ k)) size e hs small found in
    let after : All (λ d. end_of d + page_size ≤ e) list =
      All-map list (λ d l. omega (arith, behind, same)) (ends_before list o) in
    (
      subst (λ z. z % 2 ^ k ≡ 0) same multiple,
      after,
      fits,
      λ junk desc flags sel pos le. (
        insert-Ordered list _ (All-map list (λ d b. (b.0, omega (arith, b.1))) below) o pos
            (All-map list (λ d l. inl (omega (arith, l))) after),
        insert-All Below list _ (pos, omega (arith, fits)) below,
      ),
    )
  where
    accepted :
        (c size e : ℕ)
        → size < word_mod
        → c < 2 ^ 63
        → (if ltb (add64 c size) c || ltb kernel_start (add64 c size) then none else some c)
          ≡ some e
        → (c ≡ e) × (e + size ≤ kernel_start)
    accepted c size e hs small found = ground arith

-- For nonempty dataspaces in order that end within the address space: `remove_by_addr` throws
-- E_NOT_FOUND if no dataspace holds the address; otherwise it gives the descriptor and the selector of
-- the one that does, and no dataspace left holds the address; they are still in order.
pub remove_by_addr_lem :
    (list : List Ds) (addr : ℕ)
    → All Fits list
    → Ordered list
    → ((remove_by_addr list addr ≡ none) × Uncovered list addr)
      ⊎ ((d : Ds) × (rest : List Ds) × (remove_by_addr list addr ≡ some (d.desc, d.cap, rest))
          × (d.desc.virt ≤ addr)
          × (addr < end_of d)
          × Uncovered rest addr
          × Ordered rest)
unfolding remove_by_addr remove_at
remove_by_addr_lem list addr f o = elim (find_by_addr_lem list addr f o) [
  | inl (e, un) ↦ inl (rw e refl, un)
  | inr (j, d, e, at, lo, hi, un) ↦
      inr
        (d, erase_at list j, rw e (rw (at, remove_at) refl), lo, hi, un, erase_at-Ordered list j o)
]
