-- ===== src/TimeoutList/Queue.antt =====
-- What a timeout list promises: the queued entries in the order of their timeouts.
use mathlib.Core.Path.{subst}
use native.Mathlib.Decide.{ℕ_discrete}
use nre.Base.{
  ==_refl, length, ℕ, ◌≤◌, ◌≡◌, ◌≢◌, refl, arith, Bool, true, false, List, [], ◌∷◌, ◌++◌, All,
  Apart, Distinct, ltb, ◌==◌, if◌then◌else◌,
}
use nre.TimeoutList.{TimeoutList, never, init}
use nre.TimeoutList.Links.{Chain}

abbrev pub Sorted : (ℕ → ℕ) → List ℕ → Type 0
Sorted tm [] = Unit
Sorted tm (x ∷ xs) = All (λ y. tm x ≤ tm y) xs × Sorted tm xs

-- The entries `qs` are queued in this order, earliest first; entry 0 is the list's head, whose
-- timeout is the greatest there is; every other entry points to itself.
pub record Holds (t : TimeoutList) (qs : List ℕ) : Type 0 where
  pub chain : Chain t.next t.prev 0 qs 0
  pub distinct : Distinct (0 ∷ qs)
  pub alone : (x : ℕ) → x ≢ 0 → Apart x qs → (t.next x ≡ x) × (t.prev x ≡ x)
  pub sorted : Sorted t.timeout_of qs
  pub bounded : All (λ x. t.timeout_of x ≤ never) qs
  pub last : t.timeout_of 0 ≡ never

unfoldable pub contains : ℕ → List ℕ → Bool
contains x [] = false
contains x (y ∷ ys) = if y == x then true else contains x ys

-- The entry is queued, and another one is due before it.
unfoldable pub waits_behind : ℕ → List ℕ → Bool
unfolding contains
waits_behind x [] = false
waits_behind x (y ∷ ys) = if y == x then false else contains x ys

unfoldable pub without : ℕ → List ℕ → List ℕ
without x [] = []
without x (y ∷ ys) = if y == x then ys else y ∷ without x ys

-- Before the first entry that is not due earlier.
unfoldable pub enqueue : (ℕ → ℕ) → ℕ → ℕ → List ℕ → List ℕ
enqueue tm x to [] = x ∷ []
enqueue tm x to (y ∷ ys) = if ltb (tm y) to then y ∷ enqueue tm x to ys else x ∷ y ∷ ys

-- A new list queues nothing.
pub init-Holds : Holds init []
unfolding init
init-Holds = record {
  chain = (refl, refl);
  distinct = (tt, tt);
  alone = λ x h a. (refl, refl);
  sorted = tt;
  bounded = tt;
  last = refl;
}

pub without-middle : (x : ℕ) (xs ys : List ℕ) → Apart x xs → without x (xs ++ x ∷ ys) ≡ xs ++ ys
unfolding without
without-middle x [] ys h = ground arith
without-middle x (y ∷ xs) ys h = ground (arith, without-middle x xs ys h.1)

pub without-Apart : (x : ℕ) (xs : List ℕ) → Apart x xs → without x xs ≡ xs
unfolding without
without-Apart x [] h = refl
without-Apart x (y ∷ xs) h = ground (arith, without-Apart x xs h.1)

pub contains-Apart : (x : ℕ) (xs : List ℕ) → Apart x xs → contains x xs ≡ false
unfolding contains
contains-Apart x [] h = refl
contains-Apart x (y ∷ xs) h = ground (arith, contains-Apart x xs h.1)

pub contains-middle : (x : ℕ) (xs ys : List ℕ) → contains x (xs ++ x ∷ ys) ≡ true
unfolding contains
contains-middle x [] ys = ground arith
contains-middle x (y ∷ xs) ys = ground (arith, contains-middle x xs ys)

pub Apart-without : (x : ℕ) (xs : List ℕ) → Distinct xs → Apart x (without x xs)
unfolding without
Apart-without x [] d = tt
Apart-without x (y ∷ xs) d = elim (ℕ_discrete y x) [
  | yes e ↦ rw (e, ==_refl x) (subst (λ z. Apart z xs) e d.0)
  | no ne ↦ let differs : (y == x) ≡ false = ground arith in rw differs (ne, Apart-without x xs d.1)
]

pub length-without-le : (x : ℕ) (xs : List ℕ) → length (without x xs) ≤ length xs
unfolding without
length-without-le x [] = omega arith
length-without-le x (y ∷ xs) = ground (arith, length-without-le x xs)
