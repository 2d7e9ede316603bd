-- ===== src/Registry/Names.antt =====
-- Names: a service is found by its name as long as it is registered, and no name is there twice.
use nre.Base.{
  ℕ, ◌≡◌, ◌≢◌, refl, ◌∙◌, arith, true, false, Option, none, some, List, [], ◌∷◌, ◌++◌,
  if◌then◌else◌, Option-cases, inl, inr, ◌⊎◌,
}
use nre.Registry.{String, strcmp, same, Service, search, done, exists_error, reg}

-- No service behind another one has its name.
abbrev pub Distinct : List Service → Type 0
Distinct [] = Unit
Distinct (s ∷ srvs) = (search srvs s.name ≡ none) × Distinct srvs

strcmp_refl : (s : String) → strcmp s s ≡ true
unfolding strcmp
strcmp_refl [] = refl
strcmp_refl (x ∷ xs) = ground (arith, strcmp_refl xs)

strcmp_trans : (s t u : String) → strcmp s t ≡ true → strcmp s u ≡ strcmp t u
unfolding strcmp
strcmp_trans [] [] u h = refl
strcmp_trans [] (y ∷ ys) [] h = ground (arith, h)
strcmp_trans [] (y ∷ ys) (z ∷ zs) h = ground (arith, h)
strcmp_trans (x ∷ xs) [] [] h = ground (arith, h)
strcmp_trans (x ∷ xs) [] (z ∷ zs) h = ground (arith, h)
strcmp_trans (x ∷ xs) (y ∷ ys) [] h = ground (arith, h)
strcmp_trans (x ∷ xs) (y ∷ ys) (z ∷ zs) h = ground (arith, h, strcmp_trans xs ys zs)

same_refl : (s : String) → same s s ≡ true
unfolding same
same_refl s = ground (arith, strcmp_refl s)

same_trans : (s t u : String) → same s t ≡ true → same s u ≡ same t u
unfolding same
same_trans s t u h = ground (arith, h, strcmp_trans s t u)

strcmp_comm : (s t : String) → strcmp s t ≡ strcmp t s
unfolding strcmp
strcmp_comm [] [] = refl
strcmp_comm [] (y ∷ ys) = refl
strcmp_comm (x ∷ xs) [] = refl
strcmp_comm (x ∷ xs) (y ∷ ys) = ground (arith, strcmp_comm xs ys)

same_comm : (s t : String) → same s t ≡ same t s
unfolding same
same_comm s t = ground (arith, strcmp_comm s t)

search-append :
    (xs ys : List Service) (n : String)
    → search (xs ++ ys) n ≡ elim (search xs n) [ none ↦ search ys n | some s ↦ some s ]
unfolding search
search-append [] ys n = refl
search-append (s ∷ xs) ys n = ground (arith, search-append xs ys n)

-- The names found do not depend on how the name is given.
search-same : (xs : List Service) (n m : String) → same n m ≡ true → search xs n ≡ search xs m
unfolding search
search-same [] n m h = refl
search-same (s ∷ xs) n m h =
    let e : same s.name n ≡ same s.name m =
      same_comm s.name n ∙ same_trans n m s.name h ∙ same_comm m s.name in
    rw (e, search-same xs n m h) refl

-- A list in which a name is not found.
search_none :
    (x : Service) (xs : List Service) (n : String)
    → search (x ∷ xs) n ≡ none
    → (same x.name n ≡ false) × (search xs n ≡ none)
unfolding search
search_none x xs n h = ground (arith, h)

Distinct-append :
    (xs : List Service) (s : Service)
    → Distinct xs
    → search xs s.name ≡ none
    → Distinct (xs ++ s ∷ [])
unfolding search
Distinct-append [] s h k = (refl, tt)
Distinct-append (x ∷ xs) s h k =
    let (apart, k') = search_none x xs s.name k in
    let apart' : same s.name x.name ≡ false = same_comm s.name x.name ∙ apart in
    (ground (arith, search-append xs (s ∷ []) x.name, h.0, apart'), Distinct-append xs s h.1 k')

abbrev pub made : Option ℕ → String → ℕ → ℕ → ℕ → Service
made child name pts count available = record {
  child = child;
  name = name;
  pts = pts;
  count = count;
  sm = 0;
  available = available;
}

search-made :
    (srvs : List Service) (s : Service) (n : String)
    → search srvs s.name ≡ none
    → search (srvs ++ s ∷ []) n ≡ (if same s.name n then some s else search srvs n)
unfolding search
search-made srvs s n h = ground (arith, h, search-append srvs (s ∷ []) n, search-same srvs s.name n)

-- In a registry without a name twice, `reg` either refuses a name that is found already, or it gives
-- a registry without a name twice in which this name is found as the new service and every other
-- name as before.
pub reg_lem :
    (srvs : List Service) (child : Option ℕ) (name : String) (pts count available : ℕ)
    → Distinct srvs
    → let out = reg srvs child name pts count available in
      ((out ≡ exists_error) × (search srvs name ≢ none))
      ⊎ ((srvs' : List Service) × (out ≡ done srvs')
          × (search srvs name ≡ none)
          × Distinct srvs'
          × ((n : String)
              → search srvs' n ≡ (
                  if same name n
                  then some (made child name pts count available)
                  else search srvs n)))
unfolding reg
reg_lem srvs child name pts count available h =
    let s = made child name pts count available in
    elim (Option-cases (search srvs name)) [
      | inl e ↦ inr (
        srvs ++ s ∷ [],
        rw (e, reg) refl,
        e,
        Distinct-append srvs s h e,
        (λ n. search-made srvs s n e),
      )
      | inr (x, e) ↦ inl (rw (e, reg) refl, (λ k. ground (arith, k, e)))
    ]
