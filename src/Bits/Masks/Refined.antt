-- ===== src/Bits/Masks/Refined.antt =====
-- The words of a field of masks stand for the list of masks that the module Child has in its place.
use nre.Base.{
  ℕ, zero, suc, ◌+◌, ◌*◌, ◌/◌, ◌%◌, ◌^◌, ◌≤◌, ◌<◌, ◌≡◌, refl, sym, ap, ◌∙◌, arith, some, List, [],
  ◌∷◌, get_elem?, set, length, replicate, length-set, get_elem?-set_self, get_elem?-set_ne, All,
  All-get,
}
use native.Mathlib.Decide.{ℕ_discrete}
use mathlib.Core.Path.{subst}
use nre.Bits.Masks.{get, set_mask, set_from}
use nre.Bits.Masks.Access.{set_mask-get, set_mask-kept}

abbrev Small : ℕ → Type 0
Small w = w < 2 ^ 64

-- Words that hold these masks.
pub record Represents (words field : List ℕ) : Type 0 where
  pub small : All Small words
  pub room : length field ≤ 16 * length words
  pub few : length field ≤ 2 ^ 30
  pub reads : (j : ℕ) → j < length field → get words j ≡ get_elem? field j

get_elem?-lt : (xs : List ℕ) (i : ℕ) → i < length xs → (x : ℕ) × (get_elem? xs i ≡ some x)
get_elem?-lt [] i h = absurd (omega (arith, h))
get_elem?-lt (x ∷ xs) zero h = (x, refl)
get_elem?-lt (x ∷ xs) (suc i) h = get_elem?-lt xs i (omega (arith, h))

-- Setting a mask of the words sets it in the list.
pub set_mask_refines :
    (words field : List ℕ) (i m : ℕ)
    → Represents words field
    → i < length field
    → (words' : List ℕ) × (set_mask words i m ≡ some words')
      × Represents words' (set field i (m % 16))
set_mask_refines words field i m r inside =
    let (w, at) = get_elem?-lt words (i / 16) (omega (arith, inside, r.room)) in
    let w_small : w < 2 ^ 64 = All-get Small words (i / 16) r.small at in
    let i_few : i < 2 ^ 30 = omega (arith, inside, r.few) in
    let (words', run, here, others) = set_mask-get words i m w i_few at w_small in
    let (still_small, size) = set_mask-kept words words' i m w i_few at w_small r.small run in
    let same = length-set field i (m % 16) in
    (
      words',
      run,
      record {
        small = still_small;
        room = omega (arith, same, size, r.room);
        few = omega (arith, same, r.few);
        reads = λ j h. elim (ℕ_discrete i j) [
          | yes e ↦
              ap (get words') (sym e)
              ∙ here
              ∙ sym (get_elem?-set_self field i (m % 16) inside)
              ∙ ap (get_elem? (set field i (m % 16))) e
          | no ne ↦
              others j (omega (arith, h, same, r.few)) (λ q. ne (sym q))
              ∙ r.reads j (omega (arith, h, same))
              ∙ sym (get_elem?-set_ne field (m % 16) ne)
        ];
      },
    )

-- The masks from an index on, one after the other.
fill : ℕ → ℕ → List ℕ → ℕ → List ℕ
fill zero i field v = field
fill (suc left) i field v = fill left (suc i) (set field i v) v

fill_behind :
    (left i x v : ℕ) (field : List ℕ) → fill left (suc i) (x ∷ field) v ≡ x ∷ fill left i field v
unfolding fill
fill_behind zero i x v field = refl
fill_behind (suc left) i x v field = fill_behind left (suc i) x v (set field i v)

fill_all : (field : List ℕ) (v : ℕ) → fill (length field) 0 field v ≡ replicate (length field) v
unfolding fill
fill_all [] v = refl
fill_all (x ∷ field) v =
    fill_behind (length field) 0 v v field ∙ ap (λ (l : List ℕ). v ∷ l) (fill_all field v)

set_from_refines :
    (left i m : ℕ) (words field : List ℕ)
    → Represents words field
    → i + left ≤ length field
    → (words' : List ℕ) × (set_from left i words m ≡ some words')
      × Represents words' (fill left i field (m % 16))
unfolding set_from fill
set_from_refines zero i m words field r h = (words, refl, r)
set_from_refines (suc left) i m words field r h =
    let (words₁, run, r₁) = set_mask_refines words field i m r (omega (arith, h)) in
    let (words₂, run₂, r₂) =
      set_from_refines left (suc i) m words₁ (set field i (m % 16)) r₁
        (omega (arith, h, length-set field i (m % 16))) in
    (words₂, rw (run, set_from) run₂, r₂)

-- `set_all` of the words sets every mask of the list.
pub set_all_refines :
    (words field : List ℕ) (m : ℕ)
    → Represents words field
    → (words' : List ℕ) × (set_from (length field) 0 words m ≡ some words')
      × Represents words' (replicate (length field) (m % 16))
set_all_refines words field m r =
    let (words', run, r') = set_from_refines (length field) 0 m words field r (omega arith) in
    (words', run, subst (Represents words') (fill_all field (m % 16)) r')

-- Words that hold a list of masks: setting a mask of the list is done, and the new words hold the list
-- with the lowest four bits of the value at its place; setting all masks is done, and the new words
-- hold as many times the lowest four bits of the value.
pub masks_refine :
    (words field : List ℕ) (m : ℕ)
    → Represents words field
    → ((i : ℕ)
        → i < length field
        → (words' : List ℕ) × (set_mask words i m ≡ some words')
          × Represents words' (set field i (m % 16)))
      × ((words' : List ℕ) × (set_from (length field) 0 words m ≡ some words')
          × Represents words' (replicate (length field) (m % 16)))
masks_refine words field m r =
    (λ i h. set_mask_refines words field i m r h, set_all_refines words field m r)
