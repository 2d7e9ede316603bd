-- ===== src/Bits/Masks/Tests.antt =====
-- Three masks in a word.
use nre.Base.{ℕ, zero, suc, ◌<◌, ◌≡◌, refl, arith, some, List, [], ◌∷◌, set, get_elem?}
use nre.Bits.Masks.{get, word_of, obj, set_mask, set_from}
use nre.Bits.Masks.Refined.{Represents, masks_refine}

reads_run :
    (get (0x31 ∷ []) 0 ≡ some 1) × (get (0x31 ∷ []) 1 ≡ some 3) × (get (0x31 ∷ []) 2 ≡ some 0)
unfolding get word_of obj
reads_run = (refl, refl, refl)

three_reads : (j : ℕ) → j < 3 → get (0x31 ∷ []) j ≡ get_elem? (1 ∷ 3 ∷ 0 ∷ []) j
three_reads zero h = reads_run.0
three_reads (suc zero) h = reads_run.1
three_reads (suc (suc zero)) h = reads_run.2
three_reads (suc (suc (suc j))) h = absurd (omega (arith, h))

three-Represents : Represents (0x31 ∷ []) (1 ∷ 3 ∷ 0 ∷ [])
three-Represents = record {
  small = (omega arith, tt);
  room = omega arith;
  few = omega arith;
  reads = three_reads;
}

masks_refine_example :
    ((i : ℕ)
      → i < 3
      → (words' : List ℕ) × (set_mask (0x31 ∷ []) i 7 ≡ some words')
        × Represents words' (set (1 ∷ 3 ∷ 0 ∷ []) i 7))
    × ((words' : List ℕ) × (set_from 3 0 (0x31 ∷ []) 7 ≡ some words')
        × Represents words' (7 ∷ 7 ∷ 7 ∷ []))
masks_refine_example = masks_refine (0x31 ∷ []) (1 ∷ 3 ∷ 0 ∷ []) 7 three-Represents
