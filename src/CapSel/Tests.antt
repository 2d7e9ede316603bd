-- ===== src/CapSel/Tests.antt =====
-- The selectors at concrete states.
use nre.Base.{ℕ, arith, List, [], ◌∷◌}
use nre.CapSel.Ranges.{allocate_all, Rising, allocate_all-Rising}

abbrev requests : List (ℕ × ℕ)
requests = (16, 4) ∷ (0x2000, 0) ∷ (1, 0) ∷ []

allocate_all-Rising_example : Rising 0x29 0x1000 (allocate_all 0x1000 0x29 requests)
allocate_all-Rising_example =
    allocate_all-Rising 0x1000 0x29 requests (omega arith) (omega arith)
      ((omega arith, omega arith), ((omega arith, omega arith), ((omega arith, omega arith), tt)))
