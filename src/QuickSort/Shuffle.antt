-- ===== src/QuickSort/Shuffle.antt =====
-- An array that holds the items of another one at exchanged places of a range.
use nre.Base.{
  ℕ, ◌≤◌, ◌<◌, ◌≡◌, refl, ap, ◌∙◌, arith, if◌then◌else◌, ltb, ◌==◌, Bool-cases, inl, inr,
}
use nre.QuickSort.{Array, swap}

pub record IsShuffle {ℓ} {A : Type ℓ} (a b : Array A) (lo hi : ℕ) : Type ℓ where
  pub to : ℕ → ℕ
  pub back : ℕ → ℕ
  pub to_back : (k : ℕ) → to (back k) ≡ k
  pub back_to : (k : ℕ) → back (to k) ≡ k
  pub items : (k : ℕ) → b k ≡ a (to k)
  pub inside : (k : ℕ) → lo ≤ k → k < hi → (lo ≤ to k) × (to k < hi)
  pub below : (k : ℕ) → k < lo → to k ≡ k
  pub above : (k : ℕ) → hi ≤ k → to k ≡ k

pub IsShuffle-refl {ℓ} : {A : Type ℓ} (a : Array A) (lo hi : ℕ) → IsShuffle a a lo hi
IsShuffle-refl a lo hi = record {
  to = λ k. k;
  back = λ k. k;
  to_back = λ k. refl;
  back_to = λ k. refl;
  items = λ k. refl;
  inside = λ k x y. (x, y);
  below = λ k x. refl;
  above = λ k x. refl;
}

pub IsShuffle-trans {ℓ} :
    {A : Type ℓ} {a b c : Array A} {lo hi : ℕ}
    → IsShuffle a b lo hi
    → IsShuffle b c lo hi
    → IsShuffle a c lo hi
IsShuffle-trans s t = record {
  to = λ k. s.to (t.to k);
  back = λ k. t.back (s.back k);
  to_back = λ k. ap s.to (t.to_back (s.back k)) ∙ s.to_back k;
  back_to = λ k. ap t.back (s.back_to (t.to k)) ∙ t.back_to k;
  items = λ k. t.items k ∙ s.items (t.to k);
  inside = λ k x y. let (x', y') = t.inside k x y in s.inside (t.to k) x' y';
  below = λ k x. ap s.to (t.below k x) ∙ s.below k x;
  above = λ k x. ap s.to (t.above k x) ∙ s.above k x;
}

pub IsShuffle-widen {ℓ} :
    {A : Type ℓ} {a b : Array A} {lo hi lo' hi' : ℕ}
    → lo' ≤ lo
    → hi ≤ hi'
    → IsShuffle a b lo hi
    → IsShuffle a b lo' hi'
IsShuffle-widen {lo = lo} {hi = hi} l h s = record {
  to = s.to;
  back = s.back;
  to_back = s.to_back;
  back_to = s.back_to;
  items = s.items;
  inside = λ k x y. elim (Bool-cases (ltb k lo)) [
    | inl out ↦
        let same = s.below k (ground (arith, out)) in
        (omega (arith, x, same), omega (arith, y, same))
    | inr from ↦ elim (Bool-cases (ltb k hi)) [
      | inl within ↦
          let (x', y') = s.inside k (ground (arith, from)) (ground (arith, within)) in
          (omega (arith, l, x'), omega (arith, h, y'))
      | inr out ↦
          let same = s.above k (ground (arith, out)) in
          (omega (arith, x, same), omega (arith, y, same))
    ]
  ];
  below = λ k x. s.below k (omega (arith, l, x));
  above = λ k x. s.above k (omega (arith, h, x));
}

exchanged : ℕ → ℕ → ℕ → ℕ
exchanged i j k = if k == j then i else if k == i then j else k

swap-exchanged {ℓ} : {A : Type ℓ} (a : Array A) (i j k : ℕ) → swap a i j k ≡ a (exchanged i j k)
unfolding swap exchanged
swap-exchanged a i j k = elim (Bool-cases (k == j)) [
  | inl e ↦ rw e refl
  | inr e ↦ rw e (elim (Bool-cases (k == i)) [ inl f ↦ rw f refl | inr f ↦ rw f refl ])
]

pub IsShuffle-swap {ℓ} :
    {A : Type ℓ} (a : Array A) (lo hi i j : ℕ)
    → lo ≤ i
    → i < hi
    → lo ≤ j
    → j < hi
    → IsShuffle a (swap a i j) lo hi
unfolding swap exchanged
IsShuffle-swap a lo hi i j hi₁ hi₂ hj₁ hj₂ = record {
  to = exchanged i j;
  back = exchanged i j;
  to_back = λ k. ground arith;
  back_to = λ k. ground arith;
  items = λ k. swap-exchanged a i j k;
  inside = λ k x y. (ground (arith, x, hi₁, hj₁), ground (arith, y, hi₂, hj₂));
  below = λ k x. ground (arith, x, hi₁, hj₁);
  above = λ k x. ground (arith, x, hi₂, hj₂);
}
