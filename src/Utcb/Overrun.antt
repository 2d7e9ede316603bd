-- ===== src/Utcb/Overrun.antt =====
-- nre/include/utcb/UtcbCopy.h: a frame that is opened where no room is left.
use nre.Base.{ℕ, ◌+◌, ◌-◌, ◌*◌, ◌/◌, ◌%◌, ◌^◌, ◌≤◌, ◌<◌, ◌≡◌, ap, ◌∙◌, arith}
use nre.Utcb.{
  Memory, untyped, typed, slot, head_words, pos_slot, save, reset, push_layer, frame_begin,
  free_untyped, untyped_of,
}
use nre.Utcb.Slot.{fields, fields_read}
use nre.Utcb.Frames.{save_to-slot, save_places, push_layer_lem, inner, reset_keeps}

untyped-reset : (m : Memory) → untyped (reset m) ≡ 0
unfolding untyped reset
untyped-reset m = ground arith

-- The slot of the new frame's page counts the head, the items and their number.
begin_slot :
    (m : Memory) (t l c : ℕ)
    → m slot ≡ fields t l c
    → t < 512
    → 0 < l
    → l < 15
    → c + head_words + untyped m + 1 ≤ slot
    → (untyped (frame_begin m) ≡ 0)
      × (frame_begin m slot
          ≡ fields (t + typed m * 2 + 1) (l + 1) (c + (head_words + untyped m) + 1))
unfolding frame_begin untyped typed
begin_slot m t l c e ht some_layer hl room =
    let m₁ = push_layer m in
    let (e₁, same) = push_layer_lem m t l c e ht hl (omega (arith, room)) in
    let one = same 1 (omega arith) in
    let pushed =
      (inner m₁ t (l + 1) c e₁ ht (omega (arith, hl)) (omega (arith, room))
        (omega (arith, some_layer))).0 in
    let us : untyped m₁ ≡ untyped m = ap (λ (x : ℕ). x % 2 ^ 16) one in
    let ts : typed m₁ ≡ typed m = ap (λ (x : ℕ). x / 2 ^ 16 % 2 ^ 16) one in
    let places =
      save_places m₁ t (l + 1) c e₁ ht (omega (arith, hl)) (omega (arith, room, us))
        (omega (arith, room)) in
    (
      ap untyped pushed ∙ untyped-reset (save m₁),
      ap (λ (x : Memory). x slot) pushed
          ∙ reset_keeps (save m₁) slot (omega arith)
          ∙ ap (λ (x : Memory). x slot) places
          ∙ save_to-slot m₁ (slot - c) (slot + 1 + t) (head_words + untyped m₁) (typed m₁ * 2)
              (fields (t + typed m₁ * 2 + 1) (l + 1) (c + (head_words + untyped m₁) + 1))
          ∙ cc (us, ts),
    )

-- A page on which the items and the saved ones leave between one and five words free. The frame that is
-- opened on it saves its head as well, so that the saved items pass the slot's place: what then counts
-- as free has wrapped around, and is more than any page has.
pub frame_begin-wraps :
    (m : Memory) (t l c : ℕ)
    → m slot ≡ fields t l c
    → t + typed m * 2 + 1 < 512
    → 0 < l
    → l < 15
    → 247 < c + untyped m
    → c + untyped m < pos_slot
    → (free_untyped m ≡ pos_slot - (c + untyped m))
      × (free_untyped (frame_begin m) ≡ 2 ^ 64 - (c + untyped m - 247))
unfolding free_untyped
frame_begin-wraps m t l c e ht some_layer hl full room =
    let (none_left, at) =
      begin_slot m t l c e (omega (arith, ht)) some_layer hl (omega (arith, room)) in
    let before : untyped_of (m slot) ≡ c =
      ap untyped_of e
      ∙ (fields_read t l c (omega (arith, ht)) (omega (arith, hl)) (omega (arith, room))).2 in
    let after : untyped_of (frame_begin m slot) ≡ c + (head_words + untyped m) + 1 =
      ap untyped_of at
      ∙ (fields_read (t + typed m * 2 + 1) (l + 1) (c + (head_words + untyped m) + 1)
          (omega (arith, ht)) (omega (arith, hl)) (omega (arith, room))).2 in
    (omega (arith, before, room), omega (arith, none_left, after, full, room))
