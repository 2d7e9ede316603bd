-- ===== src/Bits/Masks/Access.antt =====
-- A field of masks as a sequence of masks.
use native.Mathlib.Decide.{ℕ_discrete}
use mathlib.Core.Option.{some-injective}
use mathlib.Core.Path.{subst}
use nre.Base.{
  ℕ, ◌*◌, ◌/◌, ◌%◌, ◌^◌, ◌<◌, ◌≡◌, ◌≢◌, refl, sym, ap, ◌∙◌, arith, some, List, get_elem?, set,
  bit_and_low, get_elem?-set_ne, get_elem?-set_at, All, All-set, length, length-set,
}
use nre.Bits.Masks.{word_of, obj, get, set_mask, with_mask}
use nre.Bits.Masks.Word.{nibble, with_mask-nibble, with_mask-small}

place : (i : ℕ) → i < 2 ^ 30 → (word_of i ≡ i / 16) × (obj i ≡ i % 16)
unfolding word_of obj
place i h = (omega (arith, h), omega (arith, h))

get-at :
    (words : List ℕ) (j w : ℕ)
    → get_elem? words (word_of j) ≡ some w
    → get words j ≡ some (nibble w (4 * obj j))
unfolding get nibble
get-at words j w h = rw (h, get) (ap (λ (x : ℕ). some x) (bit_and_low 4 (w / 2 ^ (4 * obj j))))

get-same :
    (words words' : List ℕ) (j : ℕ)
    → get_elem? words' (word_of j) ≡ get_elem? words (word_of j)
    → get words' j ≡ get words j
unfolding get
get-same words words' j h = rw (h, get) refl

set_mask-at :
    (words : List ℕ) (i m w : ℕ)
    → get_elem? words (word_of i) ≡ some w
    → set_mask words i m ≡ some (set words (word_of i) (with_mask w (4 * obj i) m))
unfolding set_mask
set_mask-at words i m w h = rw (h, set_mask) refl

-- The masks of fields of fewer than 2 ^ 30 masks are changed on their own: setting one of them whose
-- word is there sets it to the lowest four bits of the value, and all others read as before.
pub set_mask-get :
    (words : List ℕ) (i m w : ℕ)
    → i < 2 ^ 30
    → get_elem? words (i / 16) ≡ some w
    → w < 2 ^ 64
    → (words' : List ℕ) × (set_mask words i m ≡ some words')
      × (get words' i ≡ some (m % 16))
      × ((j : ℕ) → j < 2 ^ 30 → j ≢ i → get words' j ≡ get words j)
set_mask-get words i m w hi at small =
    let (word, within) = place i hi in
    let at' : get_elem? words (word_of i) ≡ some w = ap (get_elem? words) word ∙ at in
    let w' : ℕ = with_mask w (4 * obj i) m in
    let words' : List ℕ = set words (word_of i) w' in
    let new : get_elem? words' (word_of i) ≡ some w' = get_elem?-set_at words (word_of i) w' at' in
    let masks : (j : ℕ)
        → j < 2 ^ 30
        → (obj i ≡ obj j → nibble w' (4 * obj j) ≡ m % 16)
          × (obj i ≢ obj j → nibble w' (4 * obj j) ≡ nibble w (4 * obj j)) =
      λ j hj.
        with_mask-nibble w (obj i) (obj j) m (omega (arith, within)) (omega (arith, place j hj))
          small in
    (
      words',
      set_mask-at words i m w at',
      get-at words' i w' new ∙ ap (λ (x : ℕ). some x) ((masks i hi).0 refl),
      λ j hj ne. elim (ℕ_discrete (word_of i) (word_of j)) [
        | yes same ↦
            (let there = sym (ap (get_elem? words') same) ∙ new in
              let was = sym (ap (get_elem? words) same) ∙ at' in
              get-at words' j w' there
              ∙ ap (λ (x : ℕ). some x)
                  ((masks j hj).1 (omega (arith, same, ne, place j hj, word, within)))
              ∙ sym (get-at words j w was))
        | no apart ↦ get-same words words' j (get_elem?-set_ne words w' apart)
      ],
    )

-- What `set_mask` keeps: that the words are words, and their number.
pub set_mask-kept :
    (words words' : List ℕ) (i m w : ℕ)
    → i < 2 ^ 30
    → get_elem? words (i / 16) ≡ some w
    → w < 2 ^ 64
    → All (λ x. x < 2 ^ 64) words
    → set_mask words i m ≡ some words'
    → All (λ x. x < 2 ^ 64) words' × (length words' ≡ length words)
set_mask-kept words words' i m w hi at small all run =
    let (word, within) = place i hi in
    let at' : get_elem? words (word_of i) ≡ some w = ap (get_elem? words) word ∙ at in
    let w' : ℕ = with_mask w (4 * obj i) m in
    let e : set words (word_of i) w' ≡ words' =
      some-injective _ _ (sym (set_mask-at words i m w at') ∙ run) in
    let w'_small = with_mask-small w (obj i) m (omega (arith, within)) small in
    (
      subst (All (λ x. x < 2 ^ 64)) e
          (All-set (λ (x : ℕ). x < 2 ^ 64) words (word_of i) w' all w'_small),
      ap length (sym e) ∙ length-set words (word_of i) w',
    )
