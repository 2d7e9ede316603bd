-- ===== src/Registry/Owners.antt =====
-- The services of a child that is destroyed.
use nre.Base.{
  ℕ, zero, suc, ◌<◌, ◌≡◌, refl, sym, ap, ◌∙◌, arith, Option, none, some, List, [], ◌∷◌, length,
  if◌then◌else◌, Option-cases, inl, inr,
}
use nre.Registry.{Service, same_child, remove_first, remove_from, remove}

-- The services of the other children, in their order.
unfoldable pub others : List Service → Option ℕ → List Service
others [] child = []
others (s ∷ srvs) child =
    let rest = others srvs child in if same_child s.child child then rest else s ∷ rest

remove_first-none :
    (srvs : List Service) (child : Option ℕ)
    → remove_first srvs child ≡ none
    → others srvs child ≡ srvs
unfolding remove_first others
remove_first-none [] child h = refl
remove_first-none (s ∷ srvs) child h = ground (arith, h, remove_first-none srvs child)

remove_first-some :
    (srvs left : List Service) (child : Option ℕ)
    → remove_first srvs child ≡ some left
    → (others left child ≡ others srvs child) × (length srvs ≡ suc (length left))
unfolding remove_first others
remove_first-some [] left child h = ground (arith, h)
remove_first-some (s ∷ srvs) left child h = elim (Option-cases (remove_first srvs child)) [
  | inl e ↦ ground (arith, h, e)
  | inr (l, e) ↦ ground (arith, h, e, remove_first-some srvs l child e)
]

remove_from-others :
    (fuel : ℕ) (srvs : List Service) (child : Option ℕ)
    → length srvs < fuel
    → remove_from fuel srvs child ≡ some (others srvs child)
unfolding remove_from
remove_from-others zero srvs child h = absurd (omega arith)
remove_from-others (suc fuel) srvs child h = elim (Option-cases (remove_first srvs child)) [
  | inl e ↦
      rw (e, remove_from) (ap (λ (l : List Service). some l) (sym (remove_first-none srvs child e)))
  | inr (left, e) ↦
      (let (same_rest, shorter) = remove_first-some srvs left child e in
        rw (e, remove_from)
          (remove_from-others fuel left child (omega (arith, h, shorter))
            ∙ ap (λ (l : List Service). some l) same_rest))
]

-- `remove` ends, and leaves the services of all other children in their order.
pub remove-others :
    (srvs : List Service) (child : Option ℕ) → remove srvs child ≡ some (others srvs child)
unfolding remove
remove-others srvs child = remove_from-others (suc (length srvs)) srvs child (omega arith)
