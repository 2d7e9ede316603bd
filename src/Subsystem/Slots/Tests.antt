-- ===== src/Subsystem/Slots/Tests.antt =====
-- The slots of a concrete child manager.
use nre.Base.{ℕ, ◌/◌, ◌≤◌, ◌≡◌, ◌≢◌, refl, arith, some, none, [], ◌∷◌, ◌+◌, map, sub64, ap}
use nre.Math.Powers.{next_pow2_run}
use nre.Registry.{Service, same_child}
use nre.Registry.Owners.{others}
use nre.Subsystem.{new_child}
use nre.Subsystem.Slots.{
  ChildManager, missing, child, get_at, get_child, get_cpu, get_vector, index_of, portal_of,
  per_child_caps, free_slot, destroy_child,
}
use nre.Subsystem.Slots.Portals.{portal_of_lem}
use nre.Subsystem.Slots.Destroyed.{destroy_child_lem}

abbrev own_service : Service
own_service = record { child = some 1; name = 0x61 ∷ []; pts = 7; count = 3; sm = 0; available = 1 }

abbrev other_service : Service
other_service = record {
  child = some 2;
  name = 0x62 ∷ [];
  pts = 9;
  count = 3;
  sm = 4;
  available = 1;
}

abbrev manager : ChildManager
manager = record {
  service_caps = 64;
  cpus = 3;
  child_count = 1;
  childs = none ∷ some new_child ∷ none ∷ [];
  portal_caps = 0x1000;
  registry = own_service ∷ other_service ∷ [];
  diesm = 0;
}

per_child : per_child_caps manager ≡ 256
unfolding per_child_caps
per_child = next_pow2_run

portal_of_lem_example :
    (index_of manager (portal_of manager 1 2 14) ≡ 1)
    × (get_cpu manager (portal_of manager 1 2 14) ≡ 2)
    × (get_vector manager (portal_of manager 1 2 14) ≡ 14)
portal_of_lem_example =
    portal_of_lem manager 6 1 2 14 refl (omega arith) (omega arith) (omega arith) (omega arith)
      (omega (arith, per_child))

index_run : index_of manager 0x1100 ≡ 1
unfolding index_of
index_run = ap (λ (n : ℕ). 256 / n) per_child

second_child : get_child manager 0x1100 ≡ child new_child
unfolding get_child get_at
second_child = rw (index_run, get_child) refl

others_run :
    map
      (λ (s : Service). record s { sm = s.sm + 1 })
      (others (own_service ∷ other_service ∷ []) (some 1))
    ≡ record other_service { sm = 5 } ∷ []
unfolding others same_child
others_run = refl

destroy_child_lem_example :
    (cm : ChildManager) × (destroy_child manager 0x1100 ≡ some cm)
    × (get_child cm 0x1100 ≡ missing)
    × ((i : ℕ) → i ≢ index_of manager 0x1100 → get_at cm i ≡ get_at manager i)
    × ((j : ℕ) × (free_slot cm ≡ some j) × (j ≤ index_of manager 0x1100))
    × (cm.registry
        ≡ map
            (λ (s : Service). record s { sm = s.sm + 1 })
            (others (own_service ∷ other_service ∷ []) (some (index_of manager 0x1100))))
    × (cm.child_count ≡ sub64 1 1)
destroy_child_lem_example = destroy_child_lem manager 0x1100 new_child second_child
