-- ===== src/Subsystem/Devices/Ports.antt =====
-- The ports of a child, and what the parent is asked when it dies.
use nre.Base.{ℕ, ◌≡◌, ◌≢◌, refl, sym, ap, ◌∙◌, arith, true, false, List, [], ◌∷◌, ◌==◌}
use nre.Region.{free}
use nre.Region.Free.{free_empty}
use nre.Port.{PortManager, manage_used, fresh, add, remove}
use nre.Port.Used.{used_forgets, add-fresh, fresh_ports}
use nre.Subsystem.{ChildState, new_child}
use nre.Subsystem.Devices.{
  alloc, release, IoReply, delegated, returned, io_portal, ports_of, release_ports,
}

-- Requests for ranges of ports that the parent grants.
pub alloc_all : List (ℕ × ℕ) → ChildState → List IoReply × ChildState
alloc_all [] c = ([], c)
alloc_all ((base, count) ∷ ranges) c =
    let (reply, c', asked) = io_portal true c alloc base count in
    let (replies, last) = alloc_all ranges c' in (reply ∷ replies, last)

pub all_delegated : List (ℕ × ℕ) → List IoReply
all_delegated [] = []
all_delegated ((base, count) ∷ ranges) = delegated base count ∷ all_delegated ranges

alloc_forgets :
    (c : ChildState) (base count : ℕ)
    → c.io ≡ fresh manage_used
    → io_portal true c alloc base count ≡ (delegated base count, c, (alloc, base, count) ∷ [])
unfolding io_portal
alloc_forgets c base count e =
    rw (ap (λ (io : PortManager). add io base count) e ∙ add-fresh base count, io_portal)
      (ap
        (λ (io : PortManager).
          (delegated base count, record c { io = io }, (alloc, base, count) ∷ []))
        (sym e))

release_new :
    (c : ChildState) (base count : ℕ)
    → c.io ≡ fresh manage_used
    → io_portal true c release base count ≡ (
      returned,
      record c { io = record { mode = manage_used; ports = free [] base count } },
      (release, base, count) ∷ [],
    )
unfolding io_portal
release_new c base count e =
    rw
      (
        ap (λ (io : PortManager). remove io base count) e ∙ (used_forgets [] base count).1,
        io_portal,
      )
      refl

ports_of-free : (base count : ℕ) → count ≢ 0 → ports_of (free [] base count) ≡ (base, count) ∷ []
unfolding ports_of
ports_of-free base count h =
    let some_ports : (count == 0) ≡ false = ground (arith, h) in
    rw (free_empty base count) (rw some_ports refl)

fresh_new : new_child.io ≡ fresh manage_used
unfolding new_child
fresh_new = refl

no_ports : release_ports new_child ≡ []
unfolding release_ports ports_of
no_ports = ap (λ (io : PortManager). ports_of io.ports) fresh_new ∙ ap ports_of fresh_ports

alloc_all_forgets :
    (ranges : List (ℕ × ℕ)) (c : ChildState)
    → c.io ≡ fresh manage_used
    → alloc_all ranges c ≡ (all_delegated ranges, c)
unfolding alloc_all all_delegated
alloc_all_forgets [] c e = refl
alloc_all_forgets ((base, count) ∷ ranges) c e =
    rw (alloc_forgets c base count e, alloc_all) (rw (alloc_all_forgets ranges c e) refl)

-- A new child gets all ranges of ports that the parent grants, but the portal records none of them,
-- so that they stay with the child's parent for ever when it dies. It gives back any other range,
-- which it never had: this is accepted and passed on to the parent, and when the child dies the
-- parent is asked to take the same range a second time.
pub ports_forgotten :
    (ranges : List (ℕ × ℕ)) (base count : ℕ)
    → count ≢ 0
    → (alloc_all ranges new_child ≡ (all_delegated ranges, new_child))
      × (release_ports new_child ≡ [])
      × (c' : ChildState) × (io_portal true new_child release base count
          ≡ (returned, c', (release, base, count) ∷ []))
      × (release_ports c' ≡ (base, count) ∷ [])
unfolding release_ports ports_of
ports_forgotten ranges base count h =
    let c' : ChildState = record new_child {
      io = record { mode = manage_used; ports = free [] base count };
    } in
    (
      alloc_all_forgets ranges new_child fresh_new,
      no_ports,
      c',
      release_new new_child base count fresh_new,
      ports_of-free base count h,
    )
