-- ===== src/Subsystem/Slots/Destroyed.antt =====
-- `destroy_child` and the slot that is free after it.
use nre.Base.{
  ℕ, zero, suc, ◌+◌, ◌≤◌, ◌≡◌, ◌≢◌, refl, sym, arith, Option, none, some, List, [], ◌∷◌, get_elem?,
  set, map, get_elem?-set_ne, get_elem?-set_at, Option-cases, inl, inr, sub64,
}
use nre.Registry.{Service, notify_services}
use nre.Registry.Owners.{others, remove-others}
use nre.Subsystem.{ChildState}
use nre.Subsystem.Slots.{
  ChildManager, missing, child, get_at, get_child, index_of, free_slot, free_from, destroy_child,
}

free_from-set :
    (childs : List (Option ChildState)) (i k : ℕ) (c : Option ChildState)
    → get_elem? childs i ≡ some c
    → (j : ℕ) × (free_from (set childs i none) k ≡ some j) × (j ≤ k + i)
unfolding free_from
free_from-set [] i k c h = absurd (ground (arith, h))
free_from-set (c' ∷ childs) zero k c h = (k, refl, omega arith)
free_from-set (none ∷ childs) (suc i) k c h = (k, refl, omega arith)
free_from-set (some ch ∷ childs) (suc i) k c h =
    let (j, e, n) = free_from-set childs i (suc k) c h in (j, e, omega (arith, n))

get_at-child :
    (cm : ChildManager) (i : ℕ) (c : ChildState)
    → get_at cm i ≡ child c
    → get_elem? cm.childs i ≡ some (some c)
unfolding get_at
get_at-child cm i c h = elim (Option-cases (get_elem? cm.childs i)) [
  | inl e ↦ ground (arith, h, e)
  | inr (none, e) ↦ ground (arith, h, e)
  | inr (some d, e) ↦ ground (arith, h, e)
]

get_at-same :
    (cm cm' : ChildManager) (i : ℕ)
    → get_elem? cm'.childs i ≡ get_elem? cm.childs i
    → get_at cm' i ≡ get_at cm i
unfolding get_at
get_at-same cm cm' i h = rw (h, get_at) refl

get_at-none :
    (cm : ChildManager) (i : ℕ) → get_elem? cm.childs i ≡ some none → get_at cm i ≡ missing
unfolding get_at
get_at-none cm i h = rw (h, get_at) refl

destroyed : ChildManager → ℕ → ChildManager
destroyed cm i = record cm {
  childs = set cm.childs i none;
  registry = notify_services (others cm.registry (some i));
  child_count = sub64 cm.child_count 1;
  diesm = cm.diesm + 1;
}

destroy_child_at :
    (cm : ChildManager) (pid : ℕ) (c : ChildState)
    → get_elem? cm.childs (index_of cm pid) ≡ some (some c)
    → destroy_child cm pid ≡ some (destroyed cm (index_of cm pid))
unfolding destroy_child destroyed
destroy_child_at cm pid c h =
    rw (h, destroy_child) (rw (remove-others cm.registry (some (index_of cm pid))) refl)

-- A child that is destroyed: afterwards its slot has none and the other slots are as before, a slot
-- is free that is not behind it, the services are those of the others in their order, the semaphore of
-- each upped once and nothing else of it changed, and one child less is counted.
pub destroy_child_lem :
    (cm : ChildManager) (pid : ℕ) (c : ChildState)
    → get_child cm pid ≡ child c
    → (cm' : ChildManager) × (destroy_child cm pid ≡ some cm')
      × (get_child cm' pid ≡ missing)
      × ((i : ℕ) → i ≢ index_of cm pid → get_at cm' i ≡ get_at cm i)
      × ((j : ℕ) × (free_slot cm' ≡ some j) × (j ≤ index_of cm pid))
      × (cm'.registry
          ≡ map
              (λ (s : Service). record s { sm = s.sm + 1 })
              (others cm.registry (some (index_of cm pid))))
      × (cm'.child_count ≡ sub64 cm.child_count 1)
unfolding get_child index_of free_slot destroyed notify_services
destroy_child_lem cm pid c h =
    let i = index_of cm pid in
    let cm' = destroyed cm i in
    let at = get_at-child cm i c h in
    (
      cm',
      destroy_child_at cm pid c at,
      get_at-none cm' i (get_elem?-set_at cm.childs i none at),
      (λ j ne. get_at-same cm cm' j (get_elem?-set_ne cm.childs none (λ q. ne (sym q)))),
      (let (j, e, n) = free_from-set cm.childs i 0 (some c) at in (j, e, omega (arith, n))),
      refl,
      refl,
    )
