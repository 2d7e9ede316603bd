-- ===== src/Utcb/Tests.antt =====
-- The messages between threads on a concrete page: two untyped items and a typed one, on the first layer.
use nre.Base.{
  ℕ, ◌+◌, ◌-◌, ◌*◌, ◌^◌, ◌≤◌, ◌<◌, ◌≡◌, refl, arith, if◌then◌else◌, ◌==◌, none, some, List, [], ◌∷◌,
  length, map,
}
use nre.Utcb.{
  Memory, slot, top, untyped, typed, typed_of, free_untyped, frame_begin, frame_end, untyped_of,
  pos_slot,
}
use nre.Utcb.Slot.{fields}
use nre.Utcb.Nested.{IsRoomy, untyped_words, typed_words, frame_lem}
use nre.Utcb.Overrun.{frame_begin-wraps}
use nre.Utcb.Messages.{
  range_crds, FrameRef, crd, del_item, add_typed, get_delegated, get_translated,
}
use nre.Utcb.Messages.Sent.{put_all, take_all, total, put_all-take_all}
use nre.Utcb.Messages.Items.{add_typed-get_delegated}
use nre.Utcb.Messages.Ranges.{AllAligned, range_crds-AllAligned}

abbrev page : ℕ → Memory
page u i = if i == 1 then 2 ^ 16 + u else if i == slot then fields 0 1 0 else i * 10

page-IsRoomy : IsRoomy (page 2) 0 1 0
unfolding untyped typed
page-IsRoomy = record {
  counts = refl;
  inside = omega arith;
  layers = omega arith;
  below = omega arith;
  above = omega arith;
}

frame_example :
    ((j : ℕ) → j < untyped_words (page 2) → frame_end (frame_begin (page 2)) j ≡ page 2 j)
    × ((j : ℕ)
        → j < typed_words (page 2)
        → frame_end (frame_begin (page 2)) (top - typed_words (page 2) + j)
          ≡ page 2 (top - typed_words (page 2) + j))
    × ((i : ℕ) → slot - 0 ≤ i → i < slot + 1 + 0 → frame_end (frame_begin (page 2)) i ≡ page 2 i)
frame_example = frame_lem (page 2) (frame_begin (page 2)) 0 1 0 page-IsRoomy (λ i a b. refl)

abbrev objects : List (List ℕ)
objects = (7 ∷ 8 ∷ []) ∷ (9 ∷ []) ∷ []

put_example :
    (m' : Memory) × (put_all (page 2) objects ≡ some m')
    × (untyped m' ≡ untyped (page 2) + 3)
    × (take_all (record { mem = m'; upos = untyped (page 2); tpos = 0 }) (map length objects)
        ≡ some (objects, record { mem = m'; upos = untyped m'; tpos = 0 }))
unfolding untyped untyped_of total
put_example = put_all-take_all (page 2) 0 0 objects (refl, omega arith)

delegated_example :
    (m' : Memory) × (add_typed (page 2) (del_item (crd 5 3 0x1f) 0 5) ≡ some m')
    × (get_delegated (record { mem = m'; upos = 0; tpos = typed (page 2) }) 3 ≡ (
        if 3 == 3
        then some (crd 5 3 0x1f, record { mem = m'; upos = 0; tpos = typed (page 2) + 1 })
        else none))
    × (get_translated (record { mem = m'; upos = 0; tpos = typed (page 2) }) 3 ≡ none)
unfolding typed typed_of
delegated_example =
    add_typed-get_delegated (page 2) 5 3 0x1f 0 5 0 3 (omega arith) (omega arith) (omega arith)
      (omega arith) (omega arith)

wraps_example :
    (free_untyped (page 250) ≡ pos_slot - (0 + untyped (page 250)))
    × (free_untyped (frame_begin (page 250)) ≡ 2 ^ 64 - (0 + untyped (page 250) - 247))
unfolding untyped typed
wraps_example =
    frame_begin-wraps (page 250) 0 1 0 refl (omega arith) (omega arith) (omega arith) (omega arith)
      (omega arith)

abbrev huge : FrameRef
huge = record {
  mem = λ i. if i == 1 then 1 else if i == 5 then 2 ^ 64 - 2 else 0;
  upos = 0;
  tpos = 0;
}

range_crds_example :
    (crds : List ℕ) × (range_crds 6 4 6 31 ≡ some crds) × AllAligned 31 4 (4 + 6) crds
range_crds_example = range_crds-AllAligned 6 4 6 31 (omega arith) (omega arith) (omega arith)
