-- ===== src/QuickSort/Sorted.antt =====
-- The sorting of a range.
use nre.Base.{
  ℕ, zero, suc, ◌+◌, ◌-◌, ◌/◌, ◌≤◌, ◌<◌, ◌≡◌, refl, ap, ◌∙◌, arith, Bool, true, false, ltb, leb,
  add64, ◌^◌, Option, none, some, Bool-cases, inl, inr,
}
use native.Mathlib.Decide.{ℕ_discrete}
use nre.QuickSort.{Array, partition, sort_range, sort}
use nre.QuickSort.Shuffle.{IsShuffle, IsShuffle-refl, IsShuffle-trans, IsShuffle-widen}
use nre.QuickSort.Partition.{partition_lem}

-- A comparison that tells which of two items comes before the other.
pub record IsStrict {ℓ} {A : Type ℓ} (cmp : A → A → Bool) : Type ℓ where
  pub asym : (x y : A) → cmp x y ≡ true → cmp y x ≡ false
  pub trans : (x y z : A) → cmp x y ≡ true → cmp y z ≡ true → cmp x z ≡ true

-- No item of the range comes before one that stands below it.
pub IsSorted {ℓ} : {A : Type ℓ} → (A → A → Bool) → Array A → ℕ → ℕ → Type 0
IsSorted cmp a lo hi = (i j : ℕ) → lo ≤ i → i < j → j < hi → cmp (a j) (a i) ≡ false

-- What comes after the pivot does not come before what comes before it.
apart {ℓ} :
    {A : Type ℓ} (cmp : A → A → Bool) (x p y : A)
    → IsStrict cmp
    → cmp x p ≡ true
    → cmp y p ≡ false
    → cmp y x ≡ false
apart cmp x p y strict under over = elim (Bool-cases (cmp y x)) [
  | inl before ↦ cc (strict.trans y x p before under, over)
  | inr e ↦ e
]

-- The parts of a range, sorted on their own, with the pivot between them.
join {ℓ} :
    {A : Type ℓ} (cmp : A → A → Bool) (b c d : Array A) (lo s hi : ℕ)
    → IsStrict cmp
    → lo ≤ s
    → s < hi
    → ((k : ℕ) → lo ≤ k → k < s → cmp (b k) (b s) ≡ true)
    → ((k : ℕ) → s < k → k < hi → cmp (b k) (b s) ≡ false)
    → IsShuffle b c lo s
    → IsSorted cmp c lo s
    → IsShuffle c d (s + 1) hi
    → IsSorted cmp d (s + 1) hi
    → IsSorted cmp d lo hi
unfolding IsSorted
join cmp b c d lo s hi strict h h' under over left sorted right sorted' =
    let low : (k : ℕ) → k ≤ s → d k ≡ c k =
      λ k x. right.items k ∙ ap c (right.below k (omega (arith, x))) in
    let pivot : d s ≡ b s =
      low s (omega arith) ∙ left.items s ∙ ap b (left.above s (omega arith)) in
    let under' : (k : ℕ) → lo ≤ k → k < s → cmp (d k) (b s) ≡ true = λ k x y.
      let (x', y') = left.inside k x y in
      ap (λ v. cmp v (b s)) (low k (omega (arith, y)) ∙ left.items k) ∙ under (left.to k) x' y' in
    let over' : (k : ℕ) → s < k → k < hi → cmp (d k) (b s) ≡ false = λ k x y.
      let (x', y') = right.inside k (omega (arith, x)) y in
      ap (λ v. cmp v (b s))
        (right.items k
          ∙ left.items (right.to k)
          ∙ ap b (left.above (right.to k) (omega (arith, x'))))
      ∙ over (right.to k) (omega (arith, x')) y' in
    λ i j x y z. elim (Bool-cases (ltb i s)) [
      | inl i_low ↦ elim (Bool-cases (ltb j s)) [
        | inl j_low ↦ cc (
          low i (ground (arith, i_low)),
          low j (ground (arith, j_low)),
          sorted i j x y (ground (arith, j_low)),
        )
        | inr j_high ↦ elim (ℕ_discrete j s) [
          | yes e ↦ cc (e, pivot, strict.asym (d i) (b s) (under' i x (ground (arith, i_low))))
          | no ne ↦
              apart cmp (d i) (b s) (d j) strict (under' i x (ground (arith, i_low)))
                (over' j (ground (arith, j_high, ne)) z)
        ]
      ]
      | inr i_high ↦ elim (ℕ_discrete i s) [
        | yes e ↦ cc (e, pivot, over' j (omega (arith, y, e)) z)
        | no ne ↦ sorted' i j (ground (arith, i_high, ne)) y z
      ]
    ]

short {ℓ} :
    {A : Type ℓ} (cmp : A → A → Bool) (a : Array A) (lo hi : ℕ) → hi ≤ lo + 1 → IsSorted cmp a lo hi
unfolding IsSorted
short cmp a lo hi h i j x y z = absurd (omega (arith, h, x, y, z))

both_parts {ℓ} : {A : Type ℓ} → (A → A → Bool) → ℕ → Array A × ℕ → ℕ → ℕ → Option (Array A)
both_parts cmp fuel (b, s) left stop =
    let lower : Option (Array _) = elim (leb (2 ^ 63) s) [
      | true ↦ some b
      | false ↦ sort_range cmp fuel b left s
    ] in
    elim lower [
      | none ↦ none
      | some c ↦ elim (leb (2 ^ 63) (add64 s 1)) [
        | true ↦ none
        | false ↦ sort_range cmp fuel c (add64 s 1) stop
      ]
    ]

-- The parts beside a place that fits.
both_parts-small {ℓ} :
    {A : Type ℓ} (cmp : A → A → Bool) (fuel : ℕ) (b c : Array A) (left stop s : ℕ)
    → s < 2 ^ 31
    → sort_range cmp fuel b left s ≡ some c
    → both_parts cmp fuel (b, s) left stop ≡ sort_range cmp fuel c (s + 1) stop
unfolding both_parts
both_parts-small cmp fuel b c left stop s few lower =
    let positive : leb (2 ^ 63) s ≡ false = ground (arith, few) in
    let positive' : leb (2 ^ 63) (add64 s 1) ≡ false = ground (arith, few) in
    rw (positive, both_parts)
      (rw (lower, both_parts)
        (rw (positive', both_parts)
          (ap (λ (n : ℕ). sort_range cmp fuel c n stop) (omega (arith, few)))))

range_more {ℓ} :
    {A : Type ℓ} (cmp : A → A → Bool) (fuel : ℕ) (a : Array A) (left stop : ℕ)
    → ltb (left + 1) stop ≡ true
    → sort_range cmp (suc fuel) a left stop
      ≡ both_parts cmp fuel (partition cmp a left (stop - 1) ((left + (stop - 1)) / 2)) left stop
unfolding sort_range both_parts
range_more cmp fuel a left stop more = rw (more, sort_range) refl

range_single {ℓ} :
    {A : Type ℓ} (cmp : A → A → Bool) (fuel : ℕ) (a : Array A) (left stop : ℕ)
    → ltb (left + 1) stop ≡ false
    → sort_range cmp fuel a left stop ≡ some a
unfolding sort_range
range_single cmp zero a left stop single = rw (single, sort_range) refl
range_single cmp (suc fuel) a left stop single = rw (single, sort_range) refl

range_step {ℓ} :
    {A : Type ℓ} (cmp : A → A → Bool) (fuel : ℕ) (a b c : Array A) (left stop s : ℕ)
    → ltb (left + 1) stop ≡ true
    → partition cmp a left (stop - 1) ((left + (stop - 1)) / 2) ≡ (b, s)
    → s < 2 ^ 31
    → sort_range cmp fuel b left s ≡ some c
    → sort_range cmp (suc fuel) a left stop ≡ sort_range cmp fuel c (s + 1) stop
range_step cmp fuel a b c left stop s more parts few lower =
    range_more cmp fuel a left stop more
    ∙ ap (λ (x : Array _ × ℕ). both_parts cmp fuel x left stop) parts
    ∙ both_parts-small cmp fuel b c left stop s few lower

range_lem {ℓ} :
    {A : Type ℓ} (cmp : A → A → Bool) (fuel : ℕ) (a : Array A) (left stop : ℕ)
    → IsStrict cmp
    → stop ≤ left + fuel
    → stop ≤ 2 ^ 31
    → (b : Array A) × (sort_range cmp fuel a left stop ≡ some b)
      × IsShuffle a b left stop
      × IsSorted cmp b left stop
range_lem cmp zero a left stop strict enough few =
    let single : ltb (left + 1) stop ≡ false = ground (arith, enough) in
    (
      a,
      range_single cmp zero a left stop single,
      IsShuffle-refl a left stop,
      short cmp a left stop (omega (arith, enough)),
    )
range_lem cmp (suc fuel) a left stop strict enough few = elim (Bool-cases (ltb (left + 1) stop)) [
  | inr single ↦ (
    a,
    range_single cmp (suc fuel) a left stop single,
    IsShuffle-refl a left stop,
    short cmp a left stop (ground (arith, single)),
  )
  | inl more ↦
      let some_items : left + 1 < stop = ground (arith, more) in
      let (b, s, parts, l, r, under, over, moved) =
        partition_lem cmp a left (stop - 1) ((left + (stop - 1)) / 2) (omega (arith, some_items))
          (omega (arith, some_items)) (omega (arith, some_items, few)) in
      let (c, lower, moved₁, sorted) =
        range_lem cmp fuel b left s strict (omega (arith, r, enough)) (omega (arith, r, few)) in
      let (d, upper, moved₂, sorted') =
        range_lem cmp fuel c (s + 1) stop strict (omega (arith, l, enough)) few in
      (
        d,
        range_step cmp fuel a b c left stop s more parts (omega (arith, r, some_items, few)) lower
            ∙ upper,
        IsShuffle-trans (IsShuffle-widen (omega arith) (omega (arith, some_items)) moved) (
            IsShuffle-trans (IsShuffle-widen (omega arith) (omega (arith, r)) moved₁)
              (IsShuffle-widen (omega (arith, l)) (omega arith) moved₂)),
        join cmp b c d left s stop strict l (omega (arith, r, some_items)) under
            (λ k x y. over k x (omega (arith, y))) moved₁ sorted moved₂ sorted',
      )
]

-- A comparison that is asymmetric and transitive, at most 2 ^ 31 items, and at least as many nested
-- calls as items. The array is sorted: the outcome has the items of the array, moved by a bijection that keeps the places below the
-- number of items there and leaves all others alone, and none of them comes before an earlier one.
pub sort-IsSorted {ℓ} :
    {A : Type ℓ} (cmp : A → A → Bool) (fuel : ℕ) (a : Array A) (count : ℕ)
    → IsStrict cmp
    → count ≤ fuel
    → count ≤ 2 ^ 31
    → (b : Array A) × (sort cmp fuel a count ≡ some b)
      × IsShuffle a b 0 count
      × IsSorted cmp b 0 count
unfolding sort
sort-IsSorted cmp fuel a count strict enough few = elim (Bool-cases (ltb 1 count)) [
  | inl more ↦
      let (b, run, moved, sorted) =
        range_lem cmp fuel a 0 count strict (omega (arith, enough)) few in
      (b, rw (more, sort) run, moved, sorted)
  | inr single ↦ (
    a,
    rw (single, sort) refl,
    IsShuffle-refl a 0 count,
    short cmp a 0 count (ground (arith, single)),
  )
]
