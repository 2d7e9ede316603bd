-- ===== src/QuickSort.antt =====
-- nre/include/collection/QuickSort.h: the sorting of an array in place. An array is a function from the index to
-- the item, and a range ends before its `stop`, which is `right + 1`, so that the range before the first
-- item is no exception. A place that `partition` returns has been cut to an `int`; as a `ssize_t` it is
-- the number of its 64 bits, so that the negative ones are those from 2 ^ 63 on.
pub mod Shuffle
pub mod Partition
pub mod Sorted
mod Tests
use nre.Base.{
  ℕ, zero, suc, ◌+◌, ◌-◌, ◌*◌, ◌/◌, Bool, true, false, if◌then◌else◌, ltb, leb, ◌==◌, Option, none,
  some, ◌%◌, ◌^◌, u32_mod, word_mod, add64,
}

abbrev pub Array {ℓ} : Type ℓ → Type ℓ
Array A = ℕ → A

unfoldable pub swap {ℓ} : {A : Type ℓ} → Array A → ℕ → ℕ → Array A
swap a i j k = if k == j then a i else if k == i then a j else a k

-- So many rounds of the loop of `partition`, from `i` on; the last item of the range is the pivot.
unfoldable pub partition_loop {ℓ} :
    {A : Type ℓ} → (A → A → Bool) → ℕ → Array A → ℕ → ℕ → ℕ → Array A × ℕ
unfolding swap
partition_loop cmp zero a right i si = (a, si)
partition_loop cmp (suc rounds) a right i si = elim (cmp (a i) (a right)) [
  | true ↦ partition_loop cmp rounds (swap a i si) right (suc i) (suc si)
  | false ↦ partition_loop cmp rounds a right (suc i) si
]

-- An `int` that becomes a `ssize_t`.
unfoldable pub as_place : ℕ → ℕ
as_place si =
    if ltb (si % u32_mod) (2 ^ 31) then si % u32_mod else si % u32_mod + (word_mod - u32_mod)

unfoldable pub partition {ℓ} : {A : Type ℓ} → (A → A → Bool) → Array A → ℕ → ℕ → ℕ → Array A × ℕ
unfolding partition_loop swap as_place
partition cmp a left right pivot =
    let (b, si) = partition_loop cmp (right - left) (swap a pivot right) right left left in
    (swap b si right, as_place si)

-- The range from `left` to before `stop`, with so many calls inside each other left. The range below a
-- negative place is empty; `none` is also a range that begins at a negative place, whose items lie
-- outside the array.
unfoldable pub sort_range {ℓ} :
    {A : Type ℓ} → (A → A → Bool) → ℕ → Array A → ℕ → ℕ → Option (Array A)
unfolding partition
sort_range cmp zero a left stop = if ltb (left + 1) stop then none else some a
sort_range cmp (suc fuel) a left stop = elim (ltb (left + 1) stop) [
  | false ↦ some a
  | true ↦
      let (b, pivot) = partition cmp a left (stop - 1) ((left + (stop - 1)) / 2) in
      let lower : Option (Array _) = elim (leb (2 ^ 63) pivot) [
        | true ↦ some b
        | false ↦ sort_range cmp fuel b left pivot
      ] in
      elim lower [
        | none ↦ none
        | some c ↦ elim (leb (2 ^ 63) (add64 pivot 1)) [
          | true ↦ none
          | false ↦ sort_range cmp fuel c (add64 pivot 1) stop
        ]
      ]
]

unfoldable pub sort {ℓ} : {A : Type ℓ} → (A → A → Bool) → ℕ → Array A → ℕ → Option (Array A)
unfolding sort_range
sort cmp fuel a count = if ltb 1 count then sort_range cmp fuel a 0 count else some a
