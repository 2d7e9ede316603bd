-- ===== src/Port/Used.antt =====
-- The mode in which the manager is to track the ports in use.
use nre.Base.{ℕ, ◌≡◌, refl, List, [], ◌∷◌, true}
use nre.Region.{alloc_at, free}
use nre.Region.AllocAt.{step_end}
use nre.Port.{
  PortManager, manage_used, Result, done, refused, faulted, fresh, add, remove, take_ports,
  give_ports,
}

-- Adding ranges one after the other, up to the first that is refused.
pub add_all : PortManager → List (ℕ × ℕ) → Result
add_all pm [] = done pm
add_all pm ((start, count) ∷ rs) = elim (add pm start count) [
  | done pm' ↦ add_all pm' rs
  | refused ↦ refused
  | faulted ↦ faulted
]

pub add-fresh : (start count : ℕ) → add (fresh manage_used) start count ≡ done (fresh manage_used)
unfolding add take_ports fresh alloc_at
add-fresh start count = rw (step_end 0 [] 0 start count true 0 refl, add, take_ports, alloc_at) refl

-- On a new manager of used ports, adding any ranges is accepted and records none of them, and
-- after it the removal of any range is accepted, whatever was added.
pub used_forgets :
    (rs : List (ℕ × ℕ)) (start count : ℕ)
    → (add_all (fresh manage_used) rs ≡ done (fresh manage_used))
      × (remove (fresh manage_used) start count
          ≡ done (record { mode = manage_used; ports = free [] start count }))
unfolding add_all remove give_ports fresh
used_forgets [] start count = (refl, refl)
used_forgets ((s, n) ∷ rs) start count =
    (rw (add-fresh s n, add_all) (used_forgets rs start count).0, refl)

pub fresh_ports : (fresh manage_used).ports ≡ []
unfolding fresh
fresh_ports = refl
