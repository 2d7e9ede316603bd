-- ===== src/Registry.antt =====
-- nre/include/subsystem/ServiceRegistry.h, on the list of nre/include/collection/SList.h, and the
-- functions of nre/include/subsystem/ChildManager.h that use it. A pointer to a child is its slot, and
-- `none` is the null pointer; the semaphore of a service is the number of its `up`s.
pub mod Names
pub mod Owners
mod Tests
use nre.Base.{
  ℕ, zero, suc, ◌+◌, Bool, true, false, ◌&&◌, Option, none, some, List, [], ◌∷◌, ◌++◌, map, length,
  ◌==◌, if◌then◌else◌,
}

abbrev pub String : Type 0
String = List ℕ

-- `strcmp(s1, s2) == 0` of two strings that end with a zero.
pub strcmp : String → String → Bool
strcmp [] [] = true
strcmp [] (y ∷ ys) = y == 0
strcmp (x ∷ xs) [] = x == 0
strcmp (x ∷ xs) (y ∷ ys) =
    let rest = strcmp xs ys in if x == y then (if x == 0 then true else rest) else false

-- `==` of strings
pub same : String → String → Bool
unfolding strcmp
same s1 s2 = length s1 == length s2 && strcmp s1 s2

pub record Service : Type 0 where
  pub child : Option ℕ
  pub name : String
  pub pts : ℕ
  pub count : ℕ
  pub sm : ℕ
  pub available : ℕ

-- `==` of pointers to children
unfoldable pub same_child : Option ℕ → Option ℕ → Bool
same_child none none = true
same_child none (some d) = false
same_child (some c) none = false
same_child (some c) (some d) = c == d

-- `search` and `find`
pub search : List Service → String → Option Service
unfolding same
search [] name = none
search (s ∷ srvs) name = let rest = search srvs name in if same s.name name then some s else rest

-- How `reg` and `unreg` end.
pub data Outcome : Type 0 where
  done : List Service → Outcome
  exists_error : Outcome
  not_found : Outcome
  not_owner : Outcome

pub reg : List Service → Option ℕ → String → ℕ → ℕ → ℕ → Outcome
unfolding search
reg srvs child name pts count available = elim (search srvs name) [
  | some s ↦ exists_error
  | none ↦ done (
      srvs
      ++ record {
        child = child;
        name = name;
        pts = pts;
        count = count;
        sm = 0;
        available = available;
      }
        ∷ [])
]

-- `_srvs.remove(s)` of the service that `search` finds.
pub remove_named : List Service → String → List Service
unfolding same
remove_named [] name = []
remove_named (s ∷ srvs) name =
    let rest = remove_named srvs name in if same s.name name then srvs else s ∷ rest

pub unreg : List Service → Option ℕ → String → Outcome
unfolding search same_child remove_named
unreg srvs child name = elim (search srvs name) [
  | none ↦ not_found
  | some s ↦ if same_child s.child child then done (remove_named srvs name) else not_owner
]

-- The first service of a child, and the list without it.
pub remove_first : List Service → Option ℕ → Option (List Service)
unfolding same_child
remove_first [] child = none
remove_first (s ∷ srvs) child =
    let rest = remove_first srvs child in
    if same_child s.child child
    then some srvs
    else elim rest [ none ↦ none | some left ↦ some (s ∷ left) ]

-- The loop of `remove`, which begins anew after each service that it takes out.
pub remove_from : ℕ → List Service → Option ℕ → Option (List Service)
unfolding remove_first
remove_from zero srvs child = none
remove_from (suc fuel) srvs child = elim (remove_first srvs child) [
  | none ↦ some srvs
  | some left ↦ remove_from fuel left child
]

-- `none` is the end of the fuel.
pub remove : List Service → Option ℕ → Option (List Service)
unfolding remove_from
remove srvs child = remove_from (suc (length srvs)) srvs child

-- `reg_service` of the child manager, with the ups of `_regsm`.
pub reg_service : List Service → ℕ → Option ℕ → ℕ → ℕ → String → ℕ → Outcome × ℕ
unfolding reg
reg_service srvs regsm child count pts name available =
    let out = reg srvs child name pts count available in
    (out, elim out [ done _ ↦ regsm + 1 | _ ↦ regsm ])

-- `get_service`: the service if there is one, with the registry and `_regsm` afterwards. `parent` is
-- what the parent of this program answers, the portals and the processors; there is none at root.
pub get_service :
    Option (String → Option (ℕ × ℕ))
    → ℕ
    → List Service
    → ℕ
    → String
    → Option Service × List Service × ℕ
unfolding search reg_service
get_service parent count srvs regsm name = elim (search srvs name) [
  | some s ↦ (some s, srvs, regsm)
  | none ↦ elim parent [
    | none ↦ (none, srvs, regsm)
    | some ask ↦ elim (ask name) [
      | none ↦ (none, srvs, regsm)
      | some answer ↦
          let (out, regsm') = reg_service srvs regsm none count answer.0 name answer.1 in
          elim out [ done srvs' ↦ (search srvs' name, srvs', regsm') | _ ↦ (none, srvs, regsm) ]
    ]
  ]
]

-- The first part of `notify_services`.
unfoldable pub notify_services : List Service → List Service
notify_services srvs = map (λ (s : Service). record s { sm = s.sm + 1 }) srvs
