-- ===== src/QuickSort/Partition.antt =====
-- What a partition leaves: the pivot at its place, the items that come before it below, the others above.
use nre.Base.{
  ℕ, zero, suc, ◌+◌, ◌-◌, ◌^◌, ◌≤◌, ◌<◌, ◌≡◌, ◌≢◌, refl, sym, ap, ◌∙◌, arith, Bool, true, false,
  Bool-cases, inl, inr,
}
use native.Mathlib.Decide.{ℕ_discrete}
use nre.QuickSort.{Array, swap, partition_loop, partition, as_place}
use nre.QuickSort.Shuffle.{
  IsShuffle, IsShuffle-refl, IsShuffle-trans, IsShuffle-widen, IsShuffle-swap,
}

-- The items from `left` to before `si` come before the pivot, those from there to before `i` do not.
pub record IsSplit {ℓ} {A : Type ℓ} (cmp : A → A → Bool) (a : Array A) (p : A) (left si i : ℕ)
    : Type ℓ where
  pub under : (k : ℕ) → left ≤ k → k < si → cmp (a k) p ≡ true
  pub over : (k : ℕ) → si ≤ k → k < i → cmp (a k) p ≡ false

pub swap_second {ℓ} : {A : Type ℓ} (a : Array A) (i j : ℕ) → swap a i j j ≡ a i
unfolding swap
swap_second a i j = ground arith

pub swap_first {ℓ} : {A : Type ℓ} (a : Array A) (i j : ℕ) → swap a i j i ≡ a j
unfolding swap
swap_first a i j = elim (ℕ_discrete i j) [
  | yes e ↦ ap (swap a i j) e ∙ swap_second a i j ∙ ap a e
  | no ne ↦ ground (arith, ne)
]

pub swap_other {ℓ} : {A : Type ℓ} (a : Array A) (i j k : ℕ) → k ≢ i → k ≢ j → swap a i j k ≡ a k
unfolding swap
swap_other a i j k h h' = ground (arith, h, h')

-- The item at `i` comes before the pivot, and is exchanged with the first that does not.
IsSplit-swap {ℓ} :
    {A : Type ℓ} (cmp : A → A → Bool) (a : Array A) (p : A) (left si i : ℕ)
    → left ≤ si
    → si ≤ i
    → IsSplit cmp a p left si i
    → cmp (a i) p ≡ true
    → IsSplit cmp (swap a i si) p left (suc si) (suc i)
IsSplit-swap cmp a p left si i h h' s e = record {
  under = λ k x y. elim (ℕ_discrete k si) [
    | yes same ↦ ap (λ j. cmp (swap a i si j) p) same ∙ ap (λ v. cmp v p) (swap_second a i si) ∙ e
    | no other ↦
        ap (λ v. cmp v p) (swap_other a i si k (omega (arith, y, h', other)) other)
        ∙ s.under k x (omega (arith, y, other))
  ];
  over = λ k x y. elim (ℕ_discrete k i) [
    | yes same ↦
        ap (λ j. cmp (swap a i si j) p) same
        ∙ ap (λ v. cmp v p) (swap_first a i si)
        ∙ s.over si (omega arith) (omega (arith, x, same))
    | no other ↦
        ap (λ v. cmp v p) (swap_other a i si k other (omega (arith, x)))
        ∙ s.over k (omega (arith, x)) (omega (arith, y, other))
  ];
}

IsSplit-stay {ℓ} :
    {A : Type ℓ} (cmp : A → A → Bool) (a : Array A) (p : A) (left si i : ℕ)
    → IsSplit cmp a p left si i
    → cmp (a i) p ≡ false
    → IsSplit cmp a p left si (suc i)
IsSplit-stay cmp a p left si i s e = record {
  under = s.under;
  over = λ k x y. elim (ℕ_discrete k i) [
    | yes same ↦ ap (λ j. cmp (a j) p) same ∙ e
    | no other ↦ s.over k x (omega (arith, y, other))
  ];
}

IsSplit-to {ℓ} :
    {A : Type ℓ} (cmp : A → A → Bool) (a : Array A) (p : A) (left si i j : ℕ)
    → i ≡ j
    → IsSplit cmp a p left si i
    → IsSplit cmp a p left si j
IsSplit-to cmp a p left si i j e s = record {
  under = s.under;
  over = λ k x y. s.over k x (omega (arith, y, e));
}

loop_under {ℓ} :
    {A : Type ℓ} (cmp : A → A → Bool) (rounds : ℕ) (a : Array A) (right i si : ℕ)
    → cmp (a i) (a right) ≡ true
    → partition_loop cmp (suc rounds) a right i si
      ≡ partition_loop cmp rounds (swap a i si) right (suc i) (suc si)
unfolding partition_loop
loop_under cmp rounds a right i si e = rw (e, partition_loop) refl

loop_over {ℓ} :
    {A : Type ℓ} (cmp : A → A → Bool) (rounds : ℕ) (a : Array A) (right i si : ℕ)
    → cmp (a i) (a right) ≡ false
    → partition_loop cmp (suc rounds) a right i si ≡ partition_loop cmp rounds a right (suc i) si
unfolding partition_loop
loop_over cmp rounds a right i si e = rw (e, partition_loop) refl

partition_loop_lem {ℓ} :
    {A : Type ℓ} (cmp : A → A → Bool) (rounds : ℕ) (a : Array A) (p : A) (left right i si : ℕ)
    → i + rounds ≡ right
    → left ≤ si
    → si ≤ i
    → a right ≡ p
    → IsSplit cmp a p left si i
    → (b : Array A) × (s : ℕ) × (partition_loop cmp rounds a right i si ≡ (b, s))
      × (left ≤ s)
      × (s ≤ right)
      × (b right ≡ p)
      × IsSplit cmp b p left s right
      × IsShuffle a b left right
unfolding partition_loop
partition_loop_lem cmp zero a p left right i si e h h' at s =
    let end : i ≡ right = omega (arith, e) in
    (
      a,
      si,
      refl,
      h,
      omega (arith, h', end),
      at,
      IsSplit-to cmp a p left si i right end s,
      IsShuffle-refl a left right,
    )
partition_loop_lem cmp (suc rounds) a p left right i si e h h' at s =
    elim (Bool-cases (cmp (a i) (a right))) [
      | inl under ↦
          let under' : cmp (a i) p ≡ true = ap (cmp (a i)) (sym at) ∙ under in
          let kept : swap a i si right ≡ p =
            swap_other a i si right (omega (arith, e)) (omega (arith, e, h')) ∙ at in
          let (b, t, run, l, r, at', split, moved) =
            partition_loop_lem cmp rounds (swap a i si) p left right (suc i) (suc si)
              (omega (arith, e)) (omega (arith, h)) (omega (arith, h')) kept
              (IsSplit-swap cmp a p left si i h h' s under') in
          (
            b,
            t,
            loop_under cmp rounds a right i si under ∙ run,
            l,
            r,
            at',
            split,
            IsShuffle-trans
                (IsShuffle-swap a left right i si (omega (arith, h, h')) (omega (arith, e)) h
                  (omega (arith, e, h')))
                moved,
          )
      | inr over ↦
          let over' : cmp (a i) p ≡ false = ap (cmp (a i)) (sym at) ∙ over in
          let (b, t, run, l, r, at', split, moved) =
            partition_loop_lem cmp rounds a p left right (suc i) si (omega (arith, e)) h
              (omega (arith, h')) at (IsSplit-stay cmp a p left si i s over') in
          (b, t, loop_over cmp rounds a right i si over ∙ run, l, r, at', split, moved)
    ]

as_place_lem : (si : ℕ) → si < 2 ^ 31 → as_place si ≡ si
unfolding as_place
as_place_lem si h = ground (arith, h)

-- The range has at least one item, and the pivot's place is in it.
pub partition_lem {ℓ} :
    {A : Type ℓ} (cmp : A → A → Bool) (a : Array A) (left right pivot : ℕ)
    → left ≤ pivot
    → pivot ≤ right
    → right < 2 ^ 31
    → (b : Array A) × (s : ℕ) × (partition cmp a left right pivot ≡ (b, s))
      × (left ≤ s)
      × (s ≤ right)
      × ((k : ℕ) → left ≤ k → k < s → cmp (b k) (b s) ≡ true)
      × ((k : ℕ) → s < k → k ≤ right → cmp (b k) (b s) ≡ false)
      × IsShuffle a b left (suc right)
unfolding partition
partition_lem cmp a left right pivot h h' few =
    let a₁ = swap a pivot right in
    let p = a₁ right in
    let start : IsSplit cmp a₁ p left left left = record {
      under = λ k x y. absurd (omega (arith, x, y));
      over = λ k x y. absurd (omega (arith, x, y));
    } in
    let (b, s, run, l, r, at, split, moved) =
      partition_loop_lem cmp (right - left) a₁ p left right left left (omega (arith, h, h'))
        (omega arith) (omega arith) refl start in
    let c = swap b s right in
    let at_s : c s ≡ p = swap_first b s right ∙ at in
    (
      c,
      s,
      ap (λ (x : Array _ × ℕ). (swap x.0 x.1 right, as_place x.1)) run
          ∙ ap (λ (x : ℕ). (c, x)) (as_place_lem s (omega (arith, r, few))),
      l,
      r,
      λ k x y.
          ap (cmp (c k)) at_s
          ∙ ap (λ v. cmp v p) (swap_other b s right k (omega (arith, y)) (omega (arith, y, r)))
          ∙ split.under k x y,
      λ k x y. ap (cmp (c k)) at_s ∙ elim (ℕ_discrete k right) [
        | yes last ↦
            ap (λ j. cmp (c j) p) last
            ∙ ap (λ v. cmp v p) (swap_second b s right)
            ∙ split.over s (omega arith) (omega (arith, x, last))
        | no other ↦
            ap (λ v. cmp v p) (swap_other b s right k (omega (arith, x)) other)
            ∙ split.over k (omega (arith, x)) (omega (arith, y, other))
      ],
      IsShuffle-trans
          (IsShuffle-swap a left (suc right) pivot right h (omega (arith, h'))
            (omega (arith, h, h')) (omega arith))
          (IsShuffle-trans (IsShuffle-widen (omega arith) (omega arith) moved) (
            IsShuffle-swap b left (suc right) s right l (omega (arith, r)) (omega (arith, h, h'))
              (omega arith))),
    )
