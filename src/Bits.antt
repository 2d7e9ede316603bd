-- ===== src/Bits.antt =====
-- nre/include/bits/BitField.h, on 64-bit words. `none` is what the source does not define: a word
-- outside the field, or the shift `1 << n` by more than 31, which is computed in `int`.
pub mod Digits
pub mod Masks
mod Tests
use nre.Base.{
  ℕ, zero, suc, ◌+◌, ◌-◌, ◌/◌, ◌%◌, ◌^◌, Bool, true, false, not, Option, none, some, List, [], ◌∷◌,
  map, get_elem?, set, bit_and, bit_or, ◌==◌, ltb, leb, if◌then◌else◌, not64,
}

pub idx : ℕ → ℕ
idx bit = bit / 64

-- `1 << 31` is negative in `int`, and the sign is extended when it becomes a `size_t`.
unfoldable pub bitpos : ℕ → Option ℕ
bitpos bit =
    let n : ℕ = bit % 64 in
    if ltb n 31 then some (2 ^ n) else if n == 31 then some (2 ^ 64 - 2 ^ 31) else none

-- The change of the word with the bit.
pub change : (ℕ → ℕ → ℕ) → List ℕ → ℕ → Option (List ℕ)
unfolding idx
change f words bit = elim (bitpos bit) [
  | none ↦ none
  | some pos ↦ elim (get_elem? words (idx bit)) [
    | none ↦ none
    | some word ↦ some (set words (idx bit) (f word pos))
  ]
]

unfoldable pub is_set : List ℕ → ℕ → Option Bool
unfolding idx
is_set words bit = elim (bitpos bit) [
  | none ↦ none
  | some pos ↦ elim (get_elem? words (idx bit)) [
    | none ↦ none
    | some word ↦ some (not (bit_and word pos == 0))
  ]
]

unfoldable pub set_bit : List ℕ → ℕ → Option (List ℕ)
unfolding change
set_bit words bit = change bit_or words bit

unfoldable pub clear : List ℕ → ℕ → Option (List ℕ)
unfolding change
clear words bit = change (λ word pos. bit_and word (not64 pos)) words bit

-- `set` with a value
unfoldable pub set_to : List ℕ → ℕ → Bool → Option (List ℕ)
unfolding set_bit clear
set_to words bit value = if value then set_bit words bit else clear words bit

-- The loop of `first_set` from a bit on, with the number of bits that are left.
first_from : ℕ → ℕ → List ℕ → Option ℕ
unfolding is_set
first_from zero bit words = some bit
first_from (suc left) bit words =
    let rest = first_from left (suc bit) words in
    elim (is_set words bit) [ none ↦ none | some b ↦ if b then some bit else rest ]

pub first_set : ℕ → List ℕ → Option ℕ
unfolding first_from
first_set bits words = first_from bits 0 words

pub set_all : List ℕ → List ℕ
set_all words = map (λ (w : ℕ). 2 ^ 64 - 1) words

pub clear_all : List ℕ → List ℕ
clear_all words = map (λ (w : ℕ). 0) words
