-- ===== src/Bits/Tests.antt =====
-- The bit field at two words.
use nre.Base.{◌≡◌, refl, true, some, none, [], ◌∷◌}
use nre.Bits.{set_bit, change, idx, bitpos, is_set, first_set, first_from}

-- Bit 31 is every bit from 31 to 63, and bit 32 is undefined.
bit_31_run :
    (set_bit (0 ∷ 0 ∷ []) 31 ≡ some (0xffffffff80000000 ∷ 0 ∷ []))
    × (is_set (0x100000000 ∷ 0 ∷ []) 31 ≡ some true)
    × (is_set (0 ∷ 0 ∷ []) 32 ≡ none)
unfolding set_bit change idx bitpos is_set
bit_31_run = (refl, refl, refl)

first_run : (set_bit (0 ∷ 0 ∷ []) 66 ≡ some (0 ∷ 4 ∷ [])) × (first_set 128 (0x10 ∷ 0 ∷ []) ≡ some 4)
unfolding set_bit change idx bitpos is_set first_set first_from
first_run = (refl, refl)
