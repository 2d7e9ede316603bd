-- ===== src/Base/Lists.antt =====
-- Lists measured and indexed by native numbers, under the library's names, and predicates on them.
use Prim.Native.Nat.{ℕ, zero, suc, ◌+◌, ◌<◌}
use mathlib.Core.Path.{◌≡◌, refl, sym, ap, subst}
use mathlib.Core.Logic.{◌≢◌, ◌↔◌, ◌⊎◌, inl, inr}
use native.Mathlib.Decide.{ℕ_discrete}
use nre.Base.Tests.{◌==◌, if◌then◌else◌}
use mathlib.Core.List.{List, [], ◌∷◌, ◌++◌}
use mathlib.Core.Option.{Option, none, some, some-injective}
use native.Mathlib.Omega.{arith}

module _ {ℓ} {A : Type ℓ} where
  abbrev pub length : List A → ℕ
  length [] = 0
  length (x ∷ xs) = suc (length xs)

  abbrev pub get_elem? : List A → ℕ → Option A
  get_elem? [] i = none
  get_elem? (x ∷ xs) zero = some x
  get_elem? (x ∷ xs) (suc i) = get_elem? xs i

  -- A write out of bounds changes nothing.
  abbrev pub set : List A → ℕ → A → List A
  set [] i v = []
  set (x ∷ xs) zero v = v ∷ xs
  set (x ∷ xs) (suc i) v = x ∷ set xs i v

  -- The list without its element at an index.
  abbrev pub erase_at : List A → ℕ → List A
  erase_at [] i = []
  erase_at (x ∷ xs) zero = xs
  erase_at (x ∷ xs) (suc i) = x ∷ erase_at xs i

  abbrev pub replicate : ℕ → A → List A
  replicate zero a = []
  replicate (suc n) a = a ∷ replicate n a

  pub length-append : (xs ys : List A) → length (xs ++ ys) ≡ length xs + length ys
  length-append [] ys = omega arith
  length-append (x ∷ xs) ys = omega (arith, length-append xs ys)

  pub length-set : (xs : List A) (i : ℕ) (v : A) → length (set xs i v) ≡ length xs
  length-set [] i v = refl
  length-set (x ∷ xs) zero v = refl
  length-set (x ∷ xs) (suc i) v = ap suc (length-set xs i v)

  pub get_elem?-set_self :
      (xs : List A) (i : ℕ) (v : A) → i < length xs → get_elem? (set xs i v) i ≡ some v
  get_elem?-set_self [] i v h = elim h [ ]
  get_elem?-set_self (x ∷ xs) zero v h = refl
  get_elem?-set_self (x ∷ xs) (suc i) v h = get_elem?-set_self xs i v (omega arith)

  -- at an index that has an element
  pub get_elem?-set_at :
      (xs : List A) (i : ℕ) {v : A} (w : A)
      → get_elem? xs i ≡ some v
      → get_elem? (set xs i w) i ≡ some w
  get_elem?-set_at [] i w h = cc
  get_elem?-set_at (x ∷ xs) zero w h = refl
  get_elem?-set_at (x ∷ xs) (suc i) w h = get_elem?-set_at xs i w h

  pub get_elem?-set_ne :
      (xs : List A) {i j : ℕ} (v : A) → i ≢ j → get_elem? (set xs i v) j ≡ get_elem? xs j
  get_elem?-set_ne [] v h = refl
  get_elem?-set_ne (x ∷ xs) {i = zero} {j = zero} v h = absurd (h refl)
  get_elem?-set_ne (x ∷ xs) {i = zero} {j = suc j} v h = refl
  get_elem?-set_ne (x ∷ xs) {i = suc i} {j = zero} v h = refl
  get_elem?-set_ne (x ∷ xs) {i = suc i} {j = suc j} v h = get_elem?-set_ne xs v (λ e. h (ap suc e))

-- A predicate by recursion, which the tactics read and build.
abbrev pub All {ℓ κ} : {A : Type ℓ} → (A → Type κ) → List A → Type κ
All P [] = Unit
All P (x ∷ xs) = P x × All P xs

module _ {ℓ κ} {A : Type ℓ} (P : A → Type κ) where
  pub All-append : (xs ys : List A) → All P xs → All P ys → All P (xs ++ ys)
  All-append [] ys hx hy = hy
  All-append (x ∷ xs) ys hx hy = (hx.0, All-append xs ys hx.1 hy)

  pub All-set : (xs : List A) (i : ℕ) (v : A) → All P xs → P v → All P (set xs i v)
  All-set [] i v h p = tt
  All-set (x ∷ xs) zero v h p = (p, h.1)
  All-set (x ∷ xs) (suc i) v h p = (h.0, All-set xs i v h.1 p)

  pub All-erase_at : (xs : List A) (i : ℕ) → All P xs → All P (erase_at xs i)
  All-erase_at [] i h = tt
  All-erase_at (x ∷ xs) zero h = h.1
  All-erase_at (x ∷ xs) (suc i) h = (h.0, All-erase_at xs i h.1)

  pub All-get : (xs : List A) (i : ℕ) {x : A} → All P xs → get_elem? xs i ≡ some x → P x
  All-get [] i h e = cc
  All-get (y ∷ ys) zero h e = subst P (some-injective _ _ e) h.0
  All-get (y ∷ ys) (suc i) h e = All-get ys i h.1 e

-- A function changed at one argument: an array after a write.
abbrev pub update {ℓ} : {A : Type ℓ} → (ℕ → A) → ℕ → A → ℕ → A
update f i v j = if i == j then v else f j

-- The number occurs nowhere in the list; no number occurs twice.
abbrev pub Apart : ℕ → List ℕ → Type 0
Apart x = All (λ y. y ≢ x)

abbrev pub Distinct : List ℕ → Type 0
Distinct [] = Unit
Distinct (x ∷ xs) = Apart x xs × Distinct xs

module _ {ℓ κ} {A : Type ℓ} (P : A → Type κ) where
  pub All-append_iff : (xs ys : List A) → All P (xs ++ ys) ↔ (All P xs × All P ys)
  All-append_iff [] ys = (λ h. (tt, h), λ h. h.1)
  All-append_iff (x ∷ xs) ys =
      let (f, g) = All-append_iff xs ys in
      (λ h. ((h.0, (f h.1).0), (f h.1).1), λ h. (h.0.0, g (h.0.1, h.1)))

-- Taking the middle element out of a list without repetition.
pub Distinct-middle :
    (xs ys : List ℕ) (y : ℕ)
    → Distinct (xs ++ y ∷ ys)
    → Apart y xs × Apart y ys × Distinct (xs ++ ys) × Distinct ys
Distinct-middle [] ys y d = (tt, d.0, d.1, d.1)
Distinct-middle (x ∷ xs) ys y d =
    let rest = Distinct-middle xs ys y d.1 in
    let here = (All-append_iff (λ z. z ≢ x) xs (y ∷ ys)).0 d.0 in
    (
      (λ e. here.1.0 (sym e), rest.0),
      rest.1,
      ((All-append_iff (λ z. z ≢ x) xs ys).1 (here.0, here.1.1), rest.2),
      rest.3,
    )

pub Distinct-insert :
    (xs ys : List ℕ) (y : ℕ)
    → Apart y xs
    → Apart y ys
    → Distinct (xs ++ ys)
    → Distinct (xs ++ y ∷ ys)
Distinct-insert [] ys y h k d = (k, d)
Distinct-insert (x ∷ xs) ys y h k d =
    let here = (All-append_iff (λ z. z ≢ x) xs ys).0 d.0 in
    (
      (All-append_iff (λ z. z ≢ x) xs (y ∷ ys)).1 (here.0, (λ e. h.0 (sym e), here.1)),
      Distinct-insert xs ys y h.1 k d.1,
    )

module _ {ℓ κ μ} {A : Type ℓ} {P : A → Type κ} {Q : A → Type μ} where
  pub All-map : (xs : List A) → ((a : A) → P a → Q a) → All P xs → All Q xs
  All-map [] f h = tt
  All-map (x ∷ xs) f h = (f x h.0, All-map xs f h.1)

module _ {ℓ κ μ ν} {A : Type ℓ} {P : A → Type κ} {Q : A → Type μ} {R : A → Type ν} where
  pub All-map₂ : (xs : List A) → ((a : A) → P a → Q a → R a) → All P xs → All Q xs → All R xs
  All-map₂ [] f h k = tt
  All-map₂ (x ∷ xs) f h k = (f x h.0 k.0, All-map₂ xs f h.1 k.1)

-- A number is missing from a list, or it splits the list.
pub Apart-cases :
    (x : ℕ) (l : List ℕ) → Apart x l ⊎ ((xs : List ℕ) × (ys : List ℕ) × (l ≡ xs ++ x ∷ ys))
Apart-cases x [] = inl tt
Apart-cases x (y ∷ l) = elim (ℕ_discrete y x) [
  | yes e ↦ inr ([], l, ap (λ (z : ℕ). z ∷ l) e)
  | no ne ↦ elim (Apart-cases x l) [
    | inl h ↦ inl (ne, h)
    | inr (xs, ys, e) ↦ inr (y ∷ xs, ys, ap (λ (m : List ℕ). y ∷ m) e)
  ]
]

-- In a list without repetition the first part shares nothing with the second.
pub Distinct-append :
    (xs ys : List ℕ) → Distinct (xs ++ ys) → All (λ x. Apart x ys) xs × Distinct xs × Distinct ys
Distinct-append [] ys d = (tt, tt, d)
Distinct-append (x ∷ xs) ys d =
    let rest = Distinct-append xs ys d.1 in
    let here = (All-append_iff (λ z. z ≢ x) xs ys).0 d.0 in
    ((here.1, rest.0), (here.0, rest.1), rest.2)
