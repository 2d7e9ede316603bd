-- ===== src/Utcb/Nested.antt =====
-- A frame that is opened and closed while another one is in use.
use nre.Base.{ℕ, ◌+◌, ◌-◌, ◌*◌, ◌/◌, ◌%◌, ◌^◌, ◌≤◌, ◌<◌, ◌≡◌, ◌≢◌, sym, ap, ◌∙◌, arith}
use native.Mathlib.Decide.{ℕ_discrete}
use nre.Utcb.{
  Memory, untyped, typed, slot, top, head_words, pos_slot, save, push_layer, pop_layer, frame_begin,
  frame_end,
}
use nre.Utcb.Slot.{fields}
use nre.Utcb.Frames.{
  save_to, restore_from, save_to_lem, restore_from_lem, save_places, restore_places, push_layer_lem,
  pop_layer_lem, pop_layer_ne, inner, reset_keeps,
}

-- A page with a frame in use: what the slot counts, and room for its items beside the saved ones.
pub record IsRoomy (m : Memory) (t l c : ℕ) : Type 0 where
  pub counts : m slot ≡ fields t l c
  pub inside : 0 < l
  pub layers : l < 15
  pub below : 2 * (head_words + untyped m) + 1 + c ≤ slot
  pub above : slot + 1 + t + 2 * (typed m * 2) + 1 ≤ top

-- The words of the head and of the untyped items, and those of the typed items.
abbrev pub untyped_words : Memory → ℕ
untyped_words m = head_words + untyped m

abbrev pub typed_words : Memory → ℕ
typed_words m = typed m * 2

push_layer-counts :
    (m : Memory) (t l c : ℕ)
    → IsRoomy m t l c
    → (untyped (push_layer m) ≡ untyped m) × (typed (push_layer m) ≡ typed m)
unfolding untyped typed
push_layer-counts m t l c r =
    let same =
      (push_layer_lem m t l c r.counts (omega (arith, r.above)) r.layers (omega (arith, r.below))).1
        1 (omega arith) in
    (ap (λ (x : ℕ). x % 2 ^ 16) same, ap (λ (x : ℕ). x / 2 ^ 16 % 2 ^ 16) same)

-- The new frame's page, outside of the head: what is saved, and the slot.
begin_places :
    (m : Memory) (t l c i : ℕ)
    → IsRoomy m t l c
    → 3 < i
    → frame_begin m i
      ≡ save_to
          (push_layer m)
          (slot - c)
          (slot + 1 + t)
          (untyped_words m)
          (typed_words m)
          (fields (t + typed_words m + 1) (l + 1) (c + untyped_words m + 1))
          i
unfolding frame_begin
begin_places m t l c i r h =
    let m₁ = push_layer m in
    let (us, ts) = push_layer-counts m t l c r in
    let e =
      (push_layer_lem m t l c r.counts (omega (arith, r.above)) r.layers
        (omega (arith, r.below))).0 in
    let pushed =
      (inner m₁ t (l + 1) c e (omega (arith, r.above)) (omega (arith, r.layers))
        (omega (arith, r.below)) (omega (arith, r.inside))).0 in
    let places =
      save_places m₁ t (l + 1) c e (omega (arith, r.above)) (omega (arith, r.layers))
        (omega (arith, r.below, us)) (omega (arith, r.below)) in
    ap (λ (x : Memory). x i) pushed
    ∙ reset_keeps (save m₁) i h
    ∙ ap (λ (x : Memory). x i) places
    ∙ cc (us, ts)

-- What `frame_end` gives for a page whose slot and saved counts are as the frame left them.
end_places :
    (m : Memory) (t l c utc tc i : ℕ)
    → m slot ≡ fields (t + tc + 1) (l + 1) (c + utc + 1)
    → t + tc + 1 < 512
    → 0 < l
    → l < 15
    → c + utc + 1 ≤ pos_slot
    → m (slot - (c + utc + 1)) ≡ utc
    → m (slot + 1 + t + tc) ≡ tc
    → (i ≢ slot
        → frame_end m i
          ≡ restore_from m
              (slot - (c + utc + 1))
              (slot + 1 + (t + tc + 1))
              utc
              tc
              (fields t (l + 1) c)
              i)
      × (restore_from m
              (slot - (c + utc + 1))
              (slot + 1 + (t + tc + 1))
              utc
              tc
              (fields t (l + 1) c)
              slot
            ≡ fields t (l + 1) c
          → frame_end m slot ≡ fields t l c)
unfolding frame_end
end_places m t l c utc tc i e ht some_layer hl hc at_ub at_tb =
    let R =
      restore_from m (slot - (c + utc + 1)) (slot + 1 + (t + tc + 1)) utc tc (fields t (l + 1) c) in
    let popped =
      (inner m (t + tc + 1) (l + 1) (c + utc + 1) e ht (omega (arith, hl)) hc
        (omega (arith, some_layer))).1 in
    let places =
      popped ∙ restore_places m t (l + 1) c utc tc e ht (omega (arith, hl)) hc at_ub at_tb in
    let shape = ap (λ (x : Memory). pop_layer x) places in
    (
      λ ne. ap (λ (x : Memory). x i) shape ∙ pop_layer_ne R i ne,
      λ s.
          ap (λ (x : Memory). x slot) shape
          ∙ (pop_layer_lem R t l c s (omega (arith, ht)) hl (omega (arith, hc))),
    )

-- The page that a frame is opened on has one in use, with room for its items beside the saved ones, and
-- whatever is done with the new frame leaves the words between the saved items as they were. Then
-- closing it brings back the head and the untyped items, the typed items, and all that was saved
-- before, with the slot.
pub frame_lem :
    (m m' : Memory) (t l c : ℕ)
    → IsRoomy m t l c
    → ((i : ℕ)
        → slot - c - untyped_words m - 1 ≤ i
        → i ≤ slot + 1 + t + typed_words m
        → m' i ≡ frame_begin m i)
    → ((j : ℕ) → j < untyped_words m → frame_end m' j ≡ m j)
      × ((j : ℕ)
          → j < typed_words m
          → frame_end m' (top - typed_words m + j) ≡ m (top - typed_words m + j))
      × ((i : ℕ) → slot - c ≤ i → i < slot + 1 + t → frame_end m' i ≡ m i)
frame_lem m m' t l c r kept =
    let utc : ℕ = untyped_words m in
    let tc : ℕ = typed_words m in
    let m₁ = push_layer m in
    let pushed =
      (push_layer_lem m t l c r.counts (omega (arith, r.above)) r.layers
        (omega (arith, r.below))).1 in
    let S =
      save_to m₁ (slot - c) (slot + 1 + t) utc tc (fields (t + tc + 1) (l + 1) (c + utc + 1)) in
    let (s₀, s₁, s₂, s₃, s₄, s₅) =
      save_to_lem m₁ (slot - c) (slot + 1 + t) utc tc (fields (t + tc + 1) (l + 1) (c + utc + 1))
        (omega (arith, r.below)) (omega arith) (omega arith) (omega (arith, r.above)) in
    let mid : (i : ℕ) → slot - c - utc - 1 ≤ i → i ≤ slot + 1 + t + tc → m' i ≡ S i =
      λ i a b. kept i a b ∙ begin_places m t l c i r (omega (arith, a, r.below)) in
    let at_slot : m' slot ≡ fields (t + tc + 1) (l + 1) (c + utc + 1) =
      mid slot (omega arith) (omega arith) ∙ s₀ in
    let low : slot - (c + utc + 1) ≡ slot - c - (utc + 1) = omega (arith, r.below) in
    let at_ub : m' (slot - (c + utc + 1)) ≡ utc =
      mid (slot - (c + utc + 1)) (omega arith) (omega arith) ∙ ap S low ∙ s₂ in
    let at_tb : m' (slot + 1 + t + tc) ≡ tc =
      mid (slot + 1 + t + tc) (omega (arith, r.below)) (omega arith) ∙ s₄ in
    let R =
      restore_from m' (slot - (c + utc + 1)) (slot + 1 + (t + tc + 1)) utc tc
        (fields t (l + 1) c) in
    let (r₀, r₁, r₂, r₃) =
      restore_from_lem m' (slot - (c + utc + 1)) (slot + 1 + (t + tc + 1)) utc tc
        (fields t (l + 1) c) (omega (arith, r.below)) (omega (arith, r.above)) (omega arith) in
    let ends = λ (i : ℕ).
      end_places m' t l c utc tc i at_slot (omega (arith, r.above)) r.inside r.layers
        (omega (arith, r.below)) at_ub at_tb in
    (
      λ j h.
          let at : slot - (c + utc + 1) + 1 + j ≡ slot - c - utc + j = omega (arith, r.below) in
          (ends j).0 (omega (arith, h, r.below))
          ∙ r₁ j h
          ∙ mid (slot - (c + utc + 1) + 1 + j) (omega arith) (omega (arith, h, r.below))
          ∙ ap S at
          ∙ s₁ j h
          ∙ pushed j (omega (arith, h, r.below)),
      λ j h.
          let at : slot + 1 + (t + tc + 1) - tc - 1 + j ≡ slot + 1 + t + j = omega arith in
          (ends (top - tc + j)).0 (omega (arith, r.above))
          ∙ r₂ j h (omega (arith, h, r.above)) (omega (arith, r.below))
          ∙ mid (slot + 1 + (t + tc + 1) - tc - 1 + j) (omega arith) (omega (arith, h))
          ∙ ap S at
          ∙ s₃ j h
          ∙ pushed (top - tc + j) (omega (arith, r.above)),
      λ i a b. elim (ℕ_discrete i slot) [
        | yes e ↦ ap (frame_end m') e ∙ (ends slot).1 r₀ ∙ sym (ap m e ∙ r.counts)
        | no ne ↦
            (ends i).0 ne
            ∙ r₃ i (omega (arith, a, r.below)) (omega (arith, b, r.above)) ne
            ∙ mid i (omega (arith, a)) (omega (arith, b))
            ∙ s₅ i a b ne
            ∙ pushed i ne
      ],
    )
