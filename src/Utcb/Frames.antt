-- ===== src/Utcb/Frames.antt =====
-- What saving and restoring a frame do to the page.
use nre.Base.{
  ℕ, ◌+◌, ◌-◌, ◌*◌, ◌≤◌, ◌<◌, ◌≡◌, ◌≢◌, refl, ap, ◌∙◌, arith, true, ltb, update, sub32, sub64,
}
use nre.Utcb.{
  Memory, untyped, typed, slot, msg, top, head_words, pos_slot, untyped_start, typed_start,
  layer_of, untyped_of, typed_of, copy, save, restore, push, pop, push_layer, pop_layer, reset,
  with_untyped, with_typed,
}
use nre.Utcb.Slot.{fields, fields_read, with_untyped-fields, with_typed-fields, with_layer-fields}

-- `save` and `restore` with the places given.
pub save_to : Memory → ℕ → ℕ → ℕ → ℕ → ℕ → Memory
save_to m ub tb utc tc p =
    let m₁ = copy m (ub - utc) 0 utc in
    let m₂ = update m₁ (ub - (utc + 1)) utc in
    let m₃ = copy m₂ tb (top - tc) tc in let m₄ = update m₃ (tb + tc) tc in update m₄ slot p

pub restore_from : Memory → ℕ → ℕ → ℕ → ℕ → ℕ → Memory
restore_from m ub tb utc tc p =
    let m₁ = copy m 0 (ub + 1) utc in
    let m₂ = copy m₁ (top - tc) (tb - tc - 1) tc in update m₂ slot p

pub save_to-slot : (m : Memory) (ub tb utc tc p : ℕ) → save_to m ub tb utc tc p slot ≡ p
unfolding save_to
save_to-slot m ub tb utc tc p = ground arith

copy-in : (m : Memory) (dst src n j : ℕ) → j < n → copy m dst src n (dst + j) ≡ m (src + j)
unfolding copy
copy-in m dst src n j h =
    let e : dst + j - dst ≡ j = omega arith in ground (arith, ap (λ (x : ℕ). m (src + x)) e)

copy-first : (m : Memory) (src n j : ℕ) → j < n → copy m 0 src n j ≡ m (src + j)
copy-first m src n j h =
    let e : j ≡ 0 + j = omega arith in ap (copy m 0 src n) e ∙ copy-in m 0 src n j h

copy-below : (m : Memory) (dst src n i : ℕ) → i < dst → copy m dst src n i ≡ m i
unfolding copy
copy-below m dst src n i h = ground arith

copy-above : (m : Memory) (dst src n i : ℕ) → dst + n ≤ i → copy m dst src n i ≡ m i
unfolding copy
copy-above m dst src n i h = ground arith

pub save_to_lem :
    (m : Memory) (ub tb utc tc p : ℕ)
    → 2 * utc + 1 ≤ ub
    → ub ≤ slot
    → slot < tb
    → tb + tc + tc + 1 ≤ top
    → (save_to m ub tb utc tc p slot ≡ p)
      × ((j : ℕ) → j < utc → save_to m ub tb utc tc p (ub - utc + j) ≡ m j)
      × (save_to m ub tb utc tc p (ub - (utc + 1)) ≡ utc)
      × ((j : ℕ) → j < tc → save_to m ub tb utc tc p (tb + j) ≡ m (top - tc + j))
      × (save_to m ub tb utc tc p (tb + tc) ≡ tc)
      × ((i : ℕ) → ub ≤ i → i < tb → i ≢ slot → save_to m ub tb utc tc p i ≡ m i)
unfolding save_to
save_to_lem m ub tb utc tc p h₁ h₂ h₃ h₄ =
    let m₁ = copy m (ub - utc) 0 utc in
    let m₂ = update m₁ (ub - (utc + 1)) utc in
    (
      ground arith,
      λ j hj.
          ground
            (arith, copy-below m₂ tb (top - tc) tc (ub - utc + j), copy-in m (ub - utc) 0 utc j),
      ground (arith, copy-below m₂ tb (top - tc) tc (ub - (utc + 1))),
      λ j hj.
          ground
            (arith, copy-in m₂ tb (top - tc) tc j, copy-above m (ub - utc) 0 utc (top - tc + j)),
      ground arith,
      λ i a b ne. ground (arith, copy-below m₂ tb (top - tc) tc i, copy-above m (ub - utc) 0 utc i),
    )

pub restore_from_lem :
    (m : Memory) (ub tb utc tc p : ℕ)
    → utc ≤ slot
    → slot < top - tc
    → tc < tb
    → (restore_from m ub tb utc tc p slot ≡ p)
      × ((j : ℕ) → j < utc → restore_from m ub tb utc tc p j ≡ m (ub + 1 + j))
      × ((j : ℕ)
          → j < tc
          → tb - tc - 1 + j < top
          → utc ≤ tb - tc - 1 + j
          → restore_from m ub tb utc tc p (top - tc + j) ≡ m (tb - tc - 1 + j))
      × ((i : ℕ) → utc ≤ i → i < top - tc → i ≢ slot → restore_from m ub tb utc tc p i ≡ m i)
unfolding restore_from
restore_from_lem m ub tb utc tc p h₁ h₂ h₃ =
    let m₁ = copy m 0 (ub + 1) utc in
    (
      ground arith,
      λ j hj.
          ground (arith, copy-below m₁ (top - tc) (tb - tc - 1) tc j, copy-first m (ub + 1) utc j),
      λ j hj a b. ground (
        arith,
        copy-in m₁ (top - tc) (tb - tc - 1) tc j,
        copy-above m 0 (ub + 1) utc (tb - tc - 1 + j),
      ),
      λ i a b ne.
          ground
            (arith, copy-below m₁ (top - tc) (tb - tc - 1) tc i, copy-above m 0 (ub + 1) utc i),
    )

-- The places and the new counts, in numbers.
start_places :
    (p t l c : ℕ)
    → p ≡ fields t l c
    → t < 512
    → l < 16
    → c ≤ pos_slot
    → (msg (untyped_start p) ≡ slot - c)
      × (msg (typed_start p) ≡ slot + 1 + t)
      × (untyped_of p ≡ c)
      × (typed_of p ≡ t)
unfolding untyped_start typed_start
start_places p t l c e ht hl hc =
    let (ts, ls, cs) = fields_read t l c (omega (arith, ht)) hl (omega (arith, hc)) in
    let us : untyped_of p ≡ c = ap untyped_of e ∙ cs in
    let tys : typed_of p ≡ t = ap typed_of e ∙ ts in
    (omega (arith, us, hc), omega (arith, tys), us, tys)

save_as :
    (m : Memory)
    → save m
      ≡ save_to m
          (msg (untyped_start (m slot)))
          (msg (typed_start (m slot)))
          (head_words + untyped m)
          (typed m * 2)
          (with_typed
            (with_untyped (m slot) (untyped_of (m slot) + (head_words + untyped m) + 1))
            (typed_of (m slot) + typed m * 2 + 1))
unfolding save save_to
save_as m = refl

pub save_places :
    (m : Memory) (t l c : ℕ)
    → m slot ≡ fields t l c
    → t < 512
    → l < 16
    → c + head_words + untyped m + 1 ≤ slot
    → c ≤ pos_slot
    → save m
      ≡ save_to m
          (slot - c)
          (slot + 1 + t)
          (head_words + untyped m)
          (typed m * 2)
          (fields (t + typed m * 2 + 1) l (c + (head_words + untyped m) + 1))
save_places m t l c e ht hl hc room =
    let (ub, tb, us, ts) = start_places (m slot) t l c e ht hl room in
    let utc : ℕ = head_words + untyped m in
    let sum : untyped_of (m slot) + utc + 1 ≡ c + utc + 1 = omega (arith, us) in
    let sum' : typed_of (m slot) + typed m * 2 + 1 ≡ t + typed m * 2 + 1 = omega (arith, ts) in
    let one =
      with_untyped-fields t l c (c + utc + 1) (omega (arith, ht)) hl (omega (arith, hc))
        (omega (arith, hc)) in
    let two = with_typed-fields t l (c + utc + 1) (t + typed m * 2 + 1) hl (omega (arith, hc)) in
    save_as m ∙ cc (ub, tb, sum, sum', one, two, e)

restore_as :
    (m : Memory)
    → restore m
      ≡ restore_from m
          (msg (untyped_start (m slot)))
          (msg (typed_start (m slot)))
          (m (msg (untyped_start (m slot))))
          (m (msg (typed_start (m slot)) - 1))
          (with_typed
            (with_untyped
              (m slot)
              (sub64 (untyped_of (m slot)) (m (msg (untyped_start (m slot))) + 1)))
            (sub32 (typed_of (m slot)) (m (msg (typed_start (m slot)) - 1) + 1)))
unfolding restore restore_from
restore_as m = refl

pub restore_places :
    (m : Memory) (t l c utc tc : ℕ)
    → m slot ≡ fields (t + tc + 1) l (c + utc + 1)
    → t + tc + 1 < 512
    → l < 16
    → c + utc + 1 ≤ pos_slot
    → m (slot - (c + utc + 1)) ≡ utc
    → m (slot + 1 + t + tc) ≡ tc
    → restore m
      ≡ restore_from m (slot - (c + utc + 1)) (slot + 1 + (t + tc + 1)) utc tc (fields t l c)
restore_places m t l c utc tc e ht hl hc at_ub at_tb =
    let (ub, tb, us, ts) = start_places (m slot) (t + tc + 1) l (c + utc + 1) e ht hl hc in
    let before : msg (typed_start (m slot)) - 1 ≡ slot + 1 + t + tc = omega (arith, tb) in
    let u : m (msg (untyped_start (m slot))) ≡ utc = ap m ub ∙ at_ub in
    let v : m (msg (typed_start (m slot)) - 1) ≡ tc = ap m before ∙ at_tb in
    let left : sub64 (untyped_of (m slot)) (m (msg (untyped_start (m slot))) + 1) ≡ c =
      omega (arith, us, u, hc) in
    let left' : sub32 (typed_of (m slot)) (m (msg (typed_start (m slot)) - 1) + 1) ≡ t =
      omega (arith, ts, v, ht) in
    let one =
      with_untyped-fields (t + tc + 1) l (c + utc + 1) c (omega (arith, ht)) hl (omega (arith, hc))
        (omega (arith, hc)) in
    let two = with_typed-fields (t + tc + 1) l c t hl (omega (arith, hc)) in
    restore_as m ∙ cc (ub, tb, u, v, left, left', one, two, e)

pub push_layer_lem :
    (m : Memory) (t l c : ℕ)
    → m slot ≡ fields t l c
    → t < 512
    → l < 15
    → c ≤ pos_slot
    → (push_layer m slot ≡ fields t (l + 1) c) × ((i : ℕ) → i ≢ slot → push_layer m i ≡ m i)
unfolding push_layer
push_layer_lem m t l c e ht hl hc =
    let (ts, ls, cs) =
      fields_read t l c (omega (arith, ht)) (omega (arith, hl)) (omega (arith, hc)) in
    let more : layer_of (m slot) + 1 ≡ l + 1 = omega (arith, ap layer_of e ∙ ls) in
    let set_it =
      with_layer-fields t l c (l + 1) (omega (arith, ht)) (omega (arith, hl)) (omega (arith, hc))
        (omega (arith, hl)) in
    (cc (more, set_it, e), λ i ne. ground (arith, ne))

pub pop_layer_ne : (m : Memory) (i : ℕ) → i ≢ slot → pop_layer m i ≡ m i
unfolding pop_layer
pop_layer_ne m i ne = ground (arith, ne)

pub pop_layer_lem :
    (m : Memory) (t l c : ℕ)
    → m slot ≡ fields t (l + 1) c
    → t < 512
    → l < 15
    → c ≤ pos_slot
    → pop_layer m slot ≡ fields t l c
unfolding pop_layer
pop_layer_lem m t l c e ht hl hc =
    let (ts, ls, cs) =
      fields_read t (l + 1) c (omega (arith, ht)) (omega (arith, hl)) (omega (arith, hc)) in
    let less : layer_of (m slot) - 1 ≡ l = omega (arith, ap layer_of e ∙ ls) in
    let set_it =
      with_layer-fields t (l + 1) c l (omega (arith, ht)) (omega (arith, hl)) (omega (arith, hc))
        (omega (arith, hl)) in
    cc (less, set_it, e)

-- On an inner layer, `push` saves and `pop` restores.
pub inner :
    (m : Memory) (t l c : ℕ)
    → m slot ≡ fields t l c
    → t < 512
    → l < 16
    → c ≤ pos_slot
    → 1 < l
    → (push m ≡ reset (save m)) × (pop m ≡ restore m)
unfolding push pop
inner m t l c e ht hl hc h =
    let (ts, ls, cs) = fields_read t l c (omega (arith, ht)) hl (omega (arith, hc)) in
    let is_inner : ltb 1 (layer_of (m slot)) ≡ true = ground (arith, ap layer_of e ∙ ls, h) in
    (rw is_inner refl, rw is_inner refl)

pub reset_keeps : (m : Memory) (i : ℕ) → 3 < i → reset m i ≡ m i
unfolding reset
reset_keeps m i h = ground arith
