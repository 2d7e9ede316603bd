-- ===== src/Ring/Interleaved.antt =====
-- Producer and consumer in any order of their steps, with what was sent and received so far.
use nre.Base.{
  ℕ, ◌+◌, ◌≤◌, ◌<◌, ◌≡◌, refl, sym, ◌∙◌, ap, arith, true, false, Bool, List, [], ◌∷◌, ◌++◌,
  append_assoc, length, some, inl, inr, if◌then◌else◌,
}
use nre.Ring.{Ring, current, publish, write, item, get, release, reset, stopped, waits}
use nre.Ring.Fifo.{Holds, IsSize, current-cases, write-Holds, publish-Holds, get_refines}

pub record Both {ℓ} (T : Type ℓ) : Type ℓ where
  pub ring : Ring T
  pub sent : List T
  pub received : List T

-- The producer writes to its slot (as often as it wants) and publishes it; the consumer looks at
-- its item and gives it back.
pub data Step {ℓ} {T : Type ℓ} (max : ℕ) : Both T → Both T → Type ℓ where
  writes :
      (b : Both T) (i : ℕ) (v : T)
      → current max b.ring ≡ some i
      → Step max b (record b { ring = write b.ring i v })
  publishes :
      (b : Both T) (i : ℕ)
      → current max b.ring ≡ some i
      → Step max b (record b { ring = publish max b.ring; sent = b.sent ++ b.ring.buffer i ∷ [] })
  takes :
      (b : Both T) (stop : Bool) (x : T)
      → get stop b.ring ≡ item x
      → Step max b (record b { ring = release max b.ring; received = b.received ++ x ∷ [] })

pub data Steps {ℓ} {T : Type ℓ} (max : ℕ) : Both T → Both T → Type ℓ where
  here : (b : Both T) → Steps max b b
  go_on : (a b c : Both T) → Steps max a b → Step max b c → Steps max a c

abbrev pub start {ℓ} : {T : Type ℓ} → Ring T → Both T
start r = record { ring = reset r; sent = []; received = [] }

-- What is sent is what was received, and behind it what the ring holds.
pub record Delivers {ℓ} {T : Type ℓ} (max : ℕ) (b : Both T) : Type ℓ where
  pub pending : List T
  pub holds : Holds max b.ring pending
  pub account : b.sent ≡ b.received ++ pending

free_slot {ℓ} :
    {T : Type ℓ} (k max : ℕ) (s : IsSize k max) (r : Ring T) (xs : List T) (i : ℕ)
    → Holds max r xs
    → current max r ≡ some i
    → (length xs + 1 < max) × (i ≡ r.wpos)
free_slot k max s r xs i h e =
    let room = h.room in let c = current-cases k max s r xs h in ground (arith, c, e)

no_item {ℓ} : {T : Type ℓ} (stop : Bool) (x : T) → (if stop then stopped else waits) ≡ item x → ⊥
no_item true x e = cc
no_item false x e = cc

item-injective {ℓ} : {T : Type ℓ} {x y : T} → item x ≡ item y → x ≡ y
item-injective e = cc

Step-Delivers {ℓ} :
    {T : Type ℓ} (k max : ℕ) {b c : Both T}
    → IsSize k max
    → Step max b c
    → Delivers max b
    → Delivers max c
Step-Delivers k max s (writes b i v e) d =
    let slot = free_slot k max s b.ring d.pending i d.holds e in
    record {
      pending = d.pending;
      holds = rw slot.1 (write-Holds max b.ring d.pending v d.holds);
      account = d.account;
    }
Step-Delivers k max s (publishes b i e) d =
    let slot = free_slot k max s b.ring d.pending i d.holds e in
    record {
      pending = d.pending ++ b.ring.buffer i ∷ [];
      holds = rw slot.1 (publish-Holds k max s b.ring d.pending d.holds slot.0);
      account = ap (λ l. l ++ b.ring.buffer i ∷ []) d.account ∙ append_assoc b.received d.pending _;
    }
Step-Delivers k max s (takes b stop x e) d =
    let h = d.holds in
    elim (get_refines k max s b.ring d.pending stop d.holds) [
      | inl (none_left, g, idle) ↦ absurd (no_item stop x (sym g ∙ e))
      | inr (y, ys, split, g, ready, rest) ↦
          let same : y ≡ x = item-injective (sym g ∙ e) in
          record {
            pending = ys;
            holds = rest;
            account = d.account ∙ rw (split, same) (sym (append_assoc b.received (x ∷ []) ys));
          }
    ]

Delivers-Steps {ℓ} :
    {T : Type ℓ} (k max : ℕ) {b c : Both T}
    → IsSize k max
    → Steps max b c
    → Delivers max b
    → Delivers max c
Delivers-Steps k max s (here b) d = d
Delivers-Steps k max s (go_on a b c rest one) d =
    Step-Delivers k max s one (Delivers-Steps k max s rest d)

start-Delivers {ℓ} : {T : Type ℓ} (max : ℕ) (r : Ring T) → 1 ≤ max → Delivers max (start r)
unfolding reset
start-Delivers max r pos = record {
  pending = [];
  holds = record { reads = omega arith; room = omega arith; stands = ground arith; cells = tt };
  account = refl;
}

-- For a ring whose length is a power of two, from its initialisation on and through any order of the
-- producer's and the consumer's steps: what was received is the first part of what was sent, in the
-- same order, and what was sent and not yet received is the queue that the ring holds.
pub Steps-Delivers {ℓ} :
    {T : Type ℓ} (k max : ℕ) (r : Ring T) {c : Both T}
    → IsSize k max
    → 1 ≤ max
    → Steps max (start r) c
    → Delivers max c
Steps-Delivers k max r s pos steps = Delivers-Steps k max s steps (start-Delivers max r pos)
