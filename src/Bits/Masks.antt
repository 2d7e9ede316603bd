-- ===== src/Bits/Masks.antt =====
-- nre/include/bits/MaskField.h with four bits for each mask, as nre/include/subsystem/ChildMemory.h
-- uses it for the permissions of pages, on 64-bit words. `none` is a word outside the field.
pub mod Word
pub mod Access
pub mod Refined
mod Tests
use nre.Base.{
  ℕ, zero, suc, ◌+◌, ◌-◌, ◌*◌, ◌/◌, ◌%◌, ◌^◌, Option, none, some, List, [], ◌∷◌, get_elem?, set,
  bit_and, bit_or, not64, u32_mod,
}

abbrev mask : ℕ
mask = 15

-- `idx`, whose parameter and product are `uint`
pub word_of : ℕ → ℕ
word_of i = i % u32_mod * 4 % u32_mod / 64

pub obj : ℕ → ℕ
obj i = i % u32_mod % 16

pub get : List ℕ → ℕ → Option ℕ
unfolding word_of obj
get words i = elim (get_elem? words (word_of i)) [
  | none ↦ none
  | some w ↦ some (bit_and (w / 2 ^ (4 * obj i)) mask)
]

pub with_mask : ℕ → ℕ → ℕ → ℕ
with_mask w shift m = bit_or (bit_and w (not64 (mask * 2 ^ shift))) (bit_and m mask * 2 ^ shift)

pub set_mask : List ℕ → ℕ → ℕ → Option (List ℕ)
unfolding word_of obj with_mask
set_mask words i m = elim (get_elem? words (word_of i)) [
  | none ↦ none
  | some w ↦ some (set words (word_of i) (with_mask w (4 * obj i) m))
]

-- `set_all` with a mask: the loop over so many masks from the index `i` on.
pub set_from : ℕ → ℕ → List ℕ → ℕ → Option (List ℕ)
unfolding set_mask
set_from zero i words m = some words
set_from (suc left) i words m = elim (set_mask words i m) [
  | none ↦ none
  | some words' ↦ set_from left (suc i) words' m
]
