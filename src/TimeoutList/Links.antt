-- ===== src/TimeoutList/Links.antt =====
-- A chain of entries through `_next` and `_prev`, and what writes to the two arrays do to it.
use mathlib.Core.Path.{subst}
use nre.Base.{ℕ, ◌≡◌, ◌≢◌, sym, ◌∙◌, ap, List, [], ◌∷◌, ◌++◌, All, Apart, Distinct}

-- `xs` are the entries strictly between `a` and `b`, in order.
abbrev pub Chain : (ℕ → ℕ) → (ℕ → ℕ) → ℕ → List ℕ → ℕ → Type 0
Chain nx pv a [] b = (nx a ≡ b) × (pv b ≡ a)
Chain nx pv a (x ∷ xs) b = (nx a ≡ x) × (pv x ≡ a) × Chain nx pv x xs b

module _ (nx pv : ℕ → ℕ) where
  pub Chain-append :
      (a : ℕ) (xs : List ℕ) (y : ℕ) (ys : List ℕ) (b : ℕ)
      → Chain nx pv a xs y
      → Chain nx pv y ys b
      → Chain nx pv a (xs ++ y ∷ ys) b
  Chain-append a [] y ys b h k = (h.0, h.1, k)
  Chain-append a (x ∷ xs) y ys b h k = (h.0, h.1, Chain-append x xs y ys b h.2 k)

  pub Chain-split :
      (a : ℕ) (xs : List ℕ) (y : ℕ) (ys : List ℕ) (b : ℕ)
      → Chain nx pv a (xs ++ y ∷ ys) b
      → Chain nx pv a xs y × Chain nx pv y ys b
  Chain-split a [] y ys b h = ((h.0, h.1), h.2)
  Chain-split a (x ∷ xs) y ys b h = let (f, g) = Chain-split x xs y ys b h.2 in ((h.0, h.1, f), g)

  -- What holds of the start and of the entries between holds of the entry before the end.
  pub before_end {κ} :
      (P : ℕ → Type κ) (a : ℕ) (xs : List ℕ) (b : ℕ)
      → Chain nx pv a xs b
      → P a
      → All P xs
      → P (pv b)
  before_end P a [] b h p q = subst P (sym h.1) p
  before_end P a (x ∷ xs) b h p q = before_end P x xs b h.2 q.0 q.1

  pub first_of_end {κ} :
      (P : ℕ → Type κ) (a : ℕ) (xs : List ℕ) (b : ℕ)
      → Chain nx pv a xs b
      → P b
      → All P xs
      → P (nx a)
  first_of_end P a [] b h p q = subst P (sym h.0) p
  first_of_end P a (x ∷ xs) b h p q = subst P (sym h.0) q.0

  -- Other arrays that agree where the chain looks hold the same chain.
  pub Chain-frame :
      (nx' pv' : ℕ → ℕ) (a : ℕ) (xs : List ℕ) (b : ℕ)
      → nx' a ≡ nx a
      → pv' b ≡ pv b
      → All (λ x. (nx' x ≡ nx x) × (pv' x ≡ pv x)) xs
      → Chain nx pv a xs b
      → Chain nx' pv' a xs b
  Chain-frame nx' pv' a [] b e f g h = (e ∙ h.0, f ∙ h.1)
  Chain-frame nx' pv' a (x ∷ xs) b e f g h =
      (e ∙ h.0, g.0.1 ∙ h.1, Chain-frame nx' pv' x xs b g.0.0 f g.1 h.2)

  -- The chain is bent from `b` to `c` by the writes `next[prev[b]] = c` and `prev[c] = prev[b]`.
  pub Chain-bend :
      (nx' pv' : ℕ → ℕ) (a : ℕ) (xs : List ℕ) (b c : ℕ)
      → Distinct (a ∷ xs)
      → nx' (pv b) ≡ c
      → pv' c ≡ pv b
      → All (λ x. x ≢ pv b → nx' x ≡ nx x) (a ∷ xs)
      → All (λ x. pv' x ≡ pv x) xs
      → Chain nx pv a xs b
      → Chain nx' pv' a xs c
  Chain-bend nx' pv' a [] b c d e f keep same h = (ap nx' (sym h.1) ∙ e, f ∙ h.1)
  Chain-bend nx' pv' a (x ∷ xs) b c d e f keep same h = (
    keep.0 (before_end (λ z. a ≢ z) x xs b h.2 (λ q. d.0.0 (sym q)) (flip xs d.0.1)) ∙ h.0,
    same.0 ∙ h.1,
    Chain-bend nx' pv' x xs b c d.1 e f keep.1 same.1 h.2,
  )
    where
      flip : (zs : List ℕ) → Apart a zs → All (λ z. a ≢ z) zs
      flip [] k = tt
      flip (z ∷ zs) k = (λ q. k.0 (sym q), flip zs k.1)
