-- ===== src/QuickSort/Tests.antt =====
-- Four numbers, two of which are equal.
use nre.Base.{ℕ, ◌+◌, ◌*◌, ◌≡◌, refl, arith, ltb, ◌==◌, if◌then◌else◌, Option, none, some}
use nre.QuickSort.{Array, sort, sort_range, partition, partition_loop, swap, as_place}
use nre.QuickSort.Shuffle.{IsShuffle}
use nre.QuickSort.Sorted.{IsStrict, IsSorted, sort-IsSorted}

abbrev numbers : Array ℕ
numbers k =
    if k == 0 then 3 else if k == 1 then 1 else if k == 2 then 3 else if k == 3 then 2 else 9

ltb-IsStrict : IsStrict ltb
ltb-IsStrict = record {
  asym = λ x y e. ground (arith, e);
  trans = λ x y z e f. ground (arith, e, f);
}

sort-IsSorted_example :
    (b : Array ℕ) × (sort ltb 4 numbers 4 ≡ some b) × IsShuffle numbers b 0 4 × IsSorted ltb b 0 4
sort-IsSorted_example = sort-IsSorted ltb 4 numbers 4 ltb-IsStrict (omega arith) (omega arith)

-- The numbers that the array of a run holds.
four : Option (Array ℕ) → ℕ
four o = elim o [ none ↦ 0 | some b ↦ b 0 * 1000 + b 1 * 100 + b 2 * 10 + b 3 ]

sort_run : four (sort ltb 4 numbers 4) ≡ 1233
unfolding four sort sort_range partition partition_loop swap as_place
sort_run = refl
