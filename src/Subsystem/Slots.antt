-- ===== src/Subsystem/Slots.antt =====
-- The slots of the children and their portals: nre/include/subsystem/ChildManager.h, and `load` and
-- `destroy_child` of nre/libs/libstdc++/subsystem/ChildManager.cc. A child that is destroyed is freed
-- later by RCU; a reader that has its pointer is not modelled.
pub mod Portals
pub mod Destroyed
mod Tests
use nre.Base.{
  ℕ, zero, suc, ◌+◌, ◌*◌, ◌/◌, ◌%◌, Bool, true, false, not, Option, none, some, List, [], ◌∷◌,
  get_elem?, set, ◌==◌, if◌then◌else◌, sub64, sub32, add64, u32_mod, ◌^◌,
}
use nre.Math.{next_pow2}
use nre.Registry.{Service, remove, notify_services}
use nre.Subsystem.{ChildState}

abbrev pub max_childs : ℕ
max_childs = 32

-- `service_caps` is that of the kernel's information page, `cpus` is `CPU::count()`.
pub record ChildManager : Type 0 where
  pub service_caps : ℕ
  pub cpus : ℕ
  pub child_count : ℕ
  pub childs : List (Option ChildState)
  pub portal_caps : ℕ
  pub registry : List Service
  pub diesm : ℕ

free_from : List (Option ChildState) → ℕ → Option ℕ
free_from [] i = none
free_from (c ∷ childs) i =
    let rest = free_from childs (suc i) in elim c [ none ↦ some i | some _ ↦ rest ]

-- `none` is the exception E_CAPACITY.
unfoldable pub free_slot : ChildManager → Option ℕ
unfolding free_from
free_slot cm = free_from cm.childs 0

pub per_child_caps : ChildManager → ℕ
per_child_caps cm = next_pow2 (cm.service_caps * cm.cpus)

-- A selector is 32-bit, and so is its distance from the first one. The index of the child of a portal, and of the child with an id, which is its first portal.
pub index_of : ChildManager → ℕ → ℕ
unfolding per_child_caps
index_of cm pid = sub32 pid cm.portal_caps / per_child_caps cm

-- A child, none in the slot, or an index outside the array.
pub data Found : Type 0 where
  child : ChildState → Found
  missing : Found
  outside : Found

pub get_at : ChildManager → ℕ → Found
get_at cm i = elim (get_elem? cm.childs i) [
  | none ↦ outside
  | some c ↦ elim c [ none ↦ missing | some ch ↦ child ch ]
]

pub get_child : ChildManager → ℕ → Found
unfolding index_of get_at
get_child cm id = get_at cm (index_of cm id)

pub get_cpu : ChildManager → ℕ → ℕ
unfolding per_child_caps
get_cpu cm pid = sub32 pid cm.portal_caps % per_child_caps cm / cm.service_caps % 2 ^ 8

pub get_vector : ChildManager → ℕ → ℕ
get_vector cm pid = sub32 pid cm.portal_caps % cm.service_caps

-- The selector of a child's portal on a processor, as `load` makes it: `pts` and the selector are
-- 32-bit, what is between them is a `size_t`.
pub portal_of : ChildManager → ℕ → ℕ → ℕ → ℕ
unfolding per_child_caps
portal_of cm i cpu vector =
    let pts = add64 cm.portal_caps (i * per_child_caps cm) % u32_mod in
    let off = cpu * cm.service_caps % u32_mod in add64 (add64 pts off) vector % u32_mod

-- `destroy_child`, and `kill`; `none` is what is not defined.
pub destroy_child : ChildManager → ℕ → Option ChildManager
unfolding index_of
destroy_child cm pid = elim (get_elem? cm.childs (index_of cm pid)) [
  | none ↦ none
  | some c ↦ elim c [
    | none ↦ some cm
    | some _ ↦ elim (remove cm.registry (some (index_of cm pid))) [
      | none ↦ none
      | some srvs ↦ some (record cm {
        childs = set cm.childs (index_of cm pid) none;
        registry = notify_services srvs;
        child_count = sub64 cm.child_count 1;
        diesm = cm.diesm + 1;
      })
    ]
  ]
]
