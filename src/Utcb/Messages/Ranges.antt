-- ===== src/Utcb/Messages/Ranges.antt =====
-- The descriptors that are sent for a range of selectors.
use nre.Base.{
  ℕ, zero, suc, ◌+◌, ◌-◌, ◌^◌, ◌≤◌, ◌<◌, ◌≡◌, refl, ap, ◌∙◌, arith, false, ◌==◌, Option, none, some,
  List, [], ◌∷◌, add64, sub64,
}
use native.Mathlib.Nat.{one-le-pow}
use mathlib.Core.Path.{subst}
use nre.Math.{minshift}
use nre.Math.Blocks.{Multiple, minshift_lem}
use nre.Utcb.Messages.{crd, range_crds}

-- The descriptors are those of pieces that are aligned to their sizes and follow each other, up to the end.
pub data AllAligned (attr : ℕ) : ℕ → ℕ → List ℕ → Type 0 where
  nil : (start : ℕ) → AllAligned attr start start []
  cons :
      (start stop n : ℕ) (crds : List ℕ)
      → Multiple start n
      → start + 2 ^ n ≤ stop
      → AllAligned attr (start + 2 ^ n) stop crds
      → AllAligned attr start stop (crd start n attr ∷ crds)

range_step :
    (fuel start count attr n : ℕ) (crds : List ℕ)
    → 0 < count
    → minshift start count ≡ some n
    → range_crds fuel (add64 start (2 ^ n)) (sub64 count (2 ^ n)) attr ≡ some crds
    → range_crds (suc fuel) start count attr ≡ some (crd start n attr ∷ crds)
unfolding range_crds
range_step fuel start count attr n crds h shift rest =
    let more : (count == 0) ≡ false = ground (arith, h) in
    rw (more, range_crds)
      (ap
          (λ (o : Option ℕ). elim o [
            | none ↦ none
            | some k ↦ elim (range_crds fuel (add64 start (2 ^ k)) (sub64 count (2 ^ k)) attr) [
              | none ↦ none
              | some cs ↦ some (crd start k attr ∷ cs)
            ]
          ])
          shift
        ∙ ap
            (λ (o : Option (List ℕ)). elim o [
              | none ↦ none
              | some cs ↦ some (crd start n attr ∷ cs)
            ])
            rest)

ends : (attr start stop : ℕ) → start ≡ stop → AllAligned attr start stop []
ends attr start stop e = subst (λ x. AllAligned attr start x []) e (AllAligned.nil start)

range_end : (fuel start attr : ℕ) → range_crds fuel start 0 attr ≡ some []
unfolding range_crds
range_end zero start attr = refl
range_end (suc fuel) start attr = refl

-- A range of selectors that begins above 0 and ends below 2 ^ 31, with as many rounds as selectors: the
-- descriptors that are sent for it are those of pieces that are aligned to their sizes and follow each
-- other, from its start to its end.
pub range_crds-AllAligned :
    (fuel start count attr : ℕ)
    → 0 < start
    → start + count < 2 ^ 31
    → count ≤ fuel
    → (crds : List ℕ) × (range_crds fuel start count attr ≡ some crds)
      × AllAligned attr start (start + count) crds
range_crds-AllAligned fuel start zero attr h small enough =
    ([], range_end fuel start attr, ends attr start (start + 0) (omega arith))
range_crds-AllAligned zero start (suc count) attr h small enough = absurd (omega (arith, enough))
range_crds-AllAligned (suc fuel) start (suc count) attr h small enough =
    let (n, shift, multiple, fits, _) =
      minshift_lem start (suc count) (omega (arith, h, small)) (omega arith)
        (omega (arith, small)) in
    let positive : 1 ≤ 2 ^ n = one-le-pow n 2 (omega arith) in
    let (crds, rest, aligned) =
      range_crds-AllAligned fuel (start + 2 ^ n) (suc count - 2 ^ n) attr (omega (arith, h))
        (omega (arith, small, fits)) (omega (arith, enough, positive)) in
    let next : add64 start (2 ^ n) ≡ start + 2 ^ n = omega (arith, small, fits) in
    let less : sub64 (suc count) (2 ^ n) ≡ suc count - 2 ^ n = omega (arith, small, fits) in
    let end : start + 2 ^ n + (suc count - 2 ^ n) ≡ start + suc count = omega (arith, fits) in
    (
      crd start n attr ∷ crds,
      range_step fuel start (suc count) attr n crds (omega arith) shift (cc (next, less, rest)),
      AllAligned.cons start (start + suc count) n crds multiple (omega (arith, fits))
          (subst (λ x. AllAligned attr (start + 2 ^ n) x crds) end aligned),
    )
