-- ===== src/Subsystem/Devices/Interrupts.antt =====
-- Sequences of requests for interrupts.
use nre.Base.{
  ℕ, suc, ◌≤◌, ◌<◌, ◌≡◌, refl, arith, Bool, true, false, not, Option, none, some, List, [], ◌∷◌,
  ◌==◌, leb, if◌then◌else◌, Option-cases, inl, inr,
}
use nre.Bits.{set_to}
use nre.Subsystem.{ChildState}
use nre.Subsystem.Devices.{
  Op, alloc, release, other_op, GsiReply, granted, given_back, invalid_gsi, no_slots,
  parent_refused, undefined, call_gsi, may_ask, gsi_portal, max_gsis,
}

-- A request: the operation, the interrupt, and the parent's answer if it is asked.
abbrev pub Request : Type 0
Request = Op × ℕ × Option ℕ

unfoldable pub serve : List Request → ChildState → List GsiReply × ChildState
serve [] c = ([], c)
serve ((op, gsi, answer) ∷ requests) c =
    let (reply, c') = gsi_portal answer c op gsi in
    let (replies, last) = serve requests c' in (reply ∷ replies, last)

-- The numbers of the capabilities that were delegated.
pub caps_of : List GsiReply → List ℕ
caps_of [] = []
caps_of (granted gsi cap ∷ replies) = cap ∷ caps_of replies
caps_of (_ ∷ replies) = caps_of replies

-- Numbers that increase strictly from at least `low` to below `high`.
pub Increasing : ℕ → List ℕ → ℕ → Type 0
Increasing low [] high = low ≤ high
Increasing low (x ∷ xs) high = (low ≤ x) × Increasing (suc x) xs high

pub Refused : GsiReply → Type 0
Refused (granted gsi cap) = ⊥
Refused given_back = ⊥
Refused _ = Unit

pub AllRefused : List GsiReply → Type 0
AllRefused [] = Unit
AllRefused (reply ∷ replies) = Refused reply × AllRefused replies

if-Either :
    (P : GsiReply × ChildState → Type 0) (b : Bool) (r s : GsiReply × ChildState)
    → P r
    → (b ≡ false → P s)
    → P (if b then r else s)
if-Either P true r s h k = h
if-Either P false r s h k = k refl

-- What holds of every reply without a call of the parent, and of the call if there are capabilities
-- left, holds of the portal.
portal-Either :
    (P : GsiReply × ChildState → Type 0) (answer : Option ℕ) (c : ChildState) (op : Op) (gsi : ℕ)
    → P (invalid_gsi, c)
    → P (undefined, c)
    → P (no_slots, c)
    → ((c.gsi_next == max_gsis) ≡ false → P (call_gsi answer c op gsi))
    → P (gsi_portal answer c op gsi)
unfolding gsi_portal
portal-Either P answer c op gsi invalid undef full asks = elim (Option-cases (may_ask c op gsi)) [
  | inl e ↦ rw (e, gsi_portal) (if-Either P (leb max_gsis gsi) _ _ invalid (λ _. undef))
  | inr (allowed, e) ↦
      rw (e, gsi_portal)
        (if-Either P (leb max_gsis gsi) _ _ invalid (λ _.
          if-Either P (not allowed) _ _ invalid
            (λ _. if-Either P (c.gsi_next == max_gsis) _ _ full asks)))
]

abbrev Kept : ChildState → GsiReply × ChildState → Type 0
Kept c (reply, c') = Refused reply × (c' ≡ c)

weaken :
    (low middle : ℕ) (xs : List ℕ) (high : ℕ)
    → low ≤ middle
    → Increasing middle xs high
    → Increasing low xs high
unfolding Increasing
weaken low middle [] high h k = omega (arith, h, k)
weaken low middle (x ∷ xs) high h k = (omega (arith, h, k.0), k.1)

-- What a request does to the number of the next capability: it stays or grows by one, and a
-- capability that is delegated has the number before.
abbrev Step : ChildState → GsiReply × ChildState → Type 0
Step c (reply, c') =
    (c'.gsi_next ≤ max_gsis) × Increasing c.gsi_next (caps_of (reply ∷ [])) c'.gsi_next

call_gsi-Step :
    (answer : Option ℕ) (c : ChildState) (op : Op) (gsi : ℕ)
    → c.gsi_next < max_gsis
    → Step c (call_gsi answer c op gsi)
unfolding call_gsi caps_of Increasing
call_gsi-Step none c alloc gsi h = (omega (arith, h), omega arith)
call_gsi-Step (some g) c alloc gsi h = elim (Option-cases (set_to c.gsis g true)) [
  | inl e ↦ rw (e, call_gsi) (omega (arith, h), omega arith)
  | inr (words, e) ↦ rw (e, call_gsi) (omega (arith, h), (omega arith, omega arith))
]
call_gsi-Step none c release gsi h = (omega (arith, h), omega arith)
call_gsi-Step (some g) c release gsi h = elim (Option-cases (set_to c.gsis gsi false)) [
  | inl e ↦ rw (e, call_gsi) (omega (arith, h), omega arith)
  | inr (words, e) ↦ rw (e, call_gsi) (omega (arith, h), omega arith)
]
call_gsi-Step none c other_op gsi h = (omega (arith, h), omega arith)
call_gsi-Step (some g) c other_op gsi h = elim (Option-cases (set_to c.gsis gsi false)) [
  | inl e ↦ rw (e, call_gsi) (omega (arith, h), omega arith)
  | inr (words, e) ↦ rw (e, call_gsi) (omega (arith, h), omega arith)
]

portal-Step :
    (answer : Option ℕ) (c : ChildState) (op : Op) (gsi : ℕ)
    → c.gsi_next ≤ max_gsis
    → Step c (gsi_portal answer c op gsi)
unfolding caps_of Increasing
portal-Step answer c op gsi h =
    let stays : Step c (invalid_gsi, c) = (h, omega arith) in
    portal-Either (Step c) answer c op gsi stays stays stays
      (λ n. call_gsi-Step answer c op gsi (ground (arith, h, n)))

Increasing-join :
    (reply : GsiReply) (replies : List GsiReply) (low middle high : ℕ)
    → Increasing low (caps_of (reply ∷ [])) middle
    → Increasing middle (caps_of replies) high
    → Increasing low (caps_of (reply ∷ replies)) high
unfolding caps_of Increasing
Increasing-join (granted g cap) replies low middle high (h, k) l =
    (h, weaken (suc cap) middle (caps_of replies) high k l)
Increasing-join given_back replies low middle high h l =
    weaken low middle (caps_of replies) high h l
Increasing-join invalid_gsi replies low middle high h l =
    weaken low middle (caps_of replies) high h l
Increasing-join no_slots replies low middle high h l = weaken low middle (caps_of replies) high h l
Increasing-join parent_refused replies low middle high h l =
    weaken low middle (caps_of replies) high h l
Increasing-join undefined replies low middle high h l = weaken low middle (caps_of replies) high h l

-- Whatever a child asks and the parent answers: the capabilities that are delegated are below 128,
-- and each has a greater number than the one before, so that none is delegated twice.
pub serve-Increasing :
    (requests : List Request) (c : ChildState)
    → c.gsi_next ≤ max_gsis
    → ((serve requests c).1.gsi_next ≤ max_gsis)
      × Increasing c.gsi_next (caps_of (serve requests c).0) (serve requests c).1.gsi_next
unfolding serve caps_of Increasing
serve-Increasing [] c h = (h, omega arith)
serve-Increasing ((op, gsi, answer) ∷ requests) c h =
    let (reply, c') = gsi_portal answer c op gsi in
    let first = portal-Step answer c op gsi h in
    let rest = serve-Increasing requests (gsi_portal answer c op gsi).1 first.0 in
    (
      rest.0,
      Increasing-join (gsi_portal answer c op gsi).0
          (serve requests (gsi_portal answer c op gsi).1).0 c.gsi_next
          (gsi_portal answer c op gsi).1.gsi_next _ first.1 rest.1,
    )

-- A request for one of the interrupts below 128, with whatever answer of the parent.
unfoldable pub IsWanted : Request → Type 0
IsWanted (alloc, gsi, answer) = gsi < max_gsis
IsWanted (release, gsi, answer) = ⊥
IsWanted (other_op, gsi, answer) = ⊥
