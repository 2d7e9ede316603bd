-- ===== src/Utcb/Messages.antt =====
-- nre/include/utcb/UtcbFrame.h: what is put into a frame and taken out of it, and the descriptors of
-- nre/include/Desc.h. An object is the words that it occupies; an exception is `none`.
pub mod Sent
pub mod Items
pub mod Lengths
pub mod Ranges
use nre.Base.{
  ℕ, zero, suc, ◌+◌, ◌-◌, ◌*◌, ◌/◌, ◌%◌, ◌^◌, Bool, true, false, ◌&&◌, ◌||◌, not, if◌then◌else◌,
  ltb, leb, ◌==◌, word_mod, Option, none, some, List, [], ◌∷◌, length, bit_and, bit_or, add64,
  sub64, update,
}
use nre.Math.{blockcount, minshift}
use nre.Utcb.{Memory, msg, top, untyped, typed, set_untyped, set_typed, free_untyped, free_typed}

-- A frame that is read, with the positions of the next items.
pub record FrameRef : Type 0 where
  pub mem : Memory
  pub upos : ℕ
  pub tpos : ℕ

abbrev pub begin_read : Memory → FrameRef
begin_read m = record { mem = m; upos = 0; tpos = 0 }

pub clear : Memory → Memory
clear m = update m 1 0

pub write_at : Memory → ℕ → List ℕ → Memory
write_at m i [] = m
write_at m i (w ∷ ws) = write_at (update m i w) (suc i) ws

-- `operator<<`
pub put : Memory → List ℕ → Option Memory
unfolding write_at
put m ws =
    if ltb (free_untyped m) (length ws)
    then none
    else some (set_untyped (write_at m (msg (untyped m)) ws) (untyped m + length ws))

pub read_at : Memory → ℕ → ℕ → List ℕ
read_at m i zero = []
read_at m i (suc n) = m i ∷ read_at m (suc i) n

-- `check_untyped_read`
unfoldable pub lacks_untyped : FrameRef → ℕ → Bool
lacks_untyped f u = ltb (untyped f.mem) (add64 f.upos u)

-- `operator>>` of an object of so many words.
pub take : FrameRef → ℕ → Option (List ℕ × FrameRef)
unfolding lacks_untyped read_at
take f words =
    if lacks_untyped f words
    then none
    else some (read_at f.mem (msg f.upos) words, record f { upos = add64 f.upos words })

-- What `init` of a string copies: so many characters, or those before the first zero. Either way it
-- allocates one more for the zero at the end.
pub data Copied : Type 0 where
  counted : ℕ → Copied
  until_zero : Copied

-- `reset` of a string, which takes a length of 2 ^ 64 - 1 as none.
unfoldable pub reset_string : ℕ → Copied
reset_string len = if len == word_mod - 1 then until_zero else counted len

-- `operator>>` of a string: what is copied from the words behind the length, and the frame behind the
-- string.
pub take_string : FrameRef → Option (Copied × FrameRef)
unfolding lacks_untyped reset_string
take_string f =
    let len = f.mem (msg f.upos) in
    let words = add64 (blockcount len 8) 1 in
    if lacks_untyped f 1
    then none
    else if lacks_untyped f words
    then none
    else some (reset_string len, record f { upos = add64 f.upos words })

-- `Crd`: the type and rights, the order and the offset in one word.
pub crd : ℕ → ℕ → ℕ → ℕ
crd offset order attr = bit_or (bit_or (offset * 2 ^ 12 % 2 ^ 64) (order * 2 ^ 7 % 2 ^ 32)) attr

pub crd_offset : ℕ → ℕ
crd_offset v = v / 2 ^ 12

pub crd_order : ℕ → ℕ
crd_order v = bit_and (v / 2 ^ 7) 0x1f

pub crd_attr : ℕ → ℕ
crd_attr v = bit_and v 0x1f

-- A typed item: its descriptor, and what is done with it.
pub record TypedItem : Type 0 where
  pub desc : ℕ
  pub aux : ℕ

pub xlt_item : ℕ → TypedItem
xlt_item desc = record { desc = desc; aux = 0 }

pub del_item : ℕ → ℕ → ℕ → TypedItem
del_item desc flags hotspot = record {
  desc = desc;
  aux = bit_or (bit_or 1 flags) (hotspot * 2 ^ 12 % 2 ^ 64);
}

pub add_typed : Memory → TypedItem → Option Memory
add_typed m item =
    let t = typed m in
    if ltb (free_typed m) 1
    then none
    else some (
        set_typed (update (update m (top - (t * 2 + 1)) item.aux) (top - (t * 2 + 2)) item.desc)
          (t + 1))

pub get_typed : FrameRef → Option (TypedItem × FrameRef)
get_typed f =
    if ltb (typed f.mem) (add64 f.tpos 1)
    then none
    else some (
      record { desc = f.mem (top - (f.tpos * 2 + 2)); aux = f.mem (top - (f.tpos * 2 + 1)) },
      record f { tpos = f.tpos + 1 },
    )

pub is_delegation : TypedItem → Bool
is_delegation item = not (bit_and item.aux 1 == 0)

pub get_translated : FrameRef → ℕ → Option (ℕ × FrameRef)
unfolding get_typed is_delegation crd_order
get_translated f order = elim (get_typed f) [
  | none ↦ none
  | some (item, f') ↦
      if item.desc == 0 || is_delegation item || not (crd_order item.desc == order)
      then none
      else some (item.desc, f')
]

pub get_delegated : FrameRef → ℕ → Option (ℕ × FrameRef)
unfolding get_typed is_delegation crd_order
get_delegated f order = elim (get_typed f) [
  | none ↦ none
  | some (item, f') ↦
      if item.desc == 0 || not (is_delegation item) || not (crd_order item.desc == order)
      then none
      else some (item.desc, f')
]

pub has_more : FrameRef → Bool
has_more f = ltb f.upos (untyped f.mem) || ltb f.tpos (typed f.mem)

pub finish_input : FrameRef → Option Memory
unfolding has_more clear
finish_input f = if has_more f then none else some (clear f.mem)

-- The descriptors that `translate` of a range puts into the frame, with so many rounds left; `none` is
-- a start for which `minshift` is not defined. `1 << minshift` is computed in `int`.
pub range_crds : ℕ → ℕ → ℕ → ℕ → Option (List ℕ)
unfolding crd
range_crds zero start count attr = if count == 0 then some [] else none
range_crds (suc fuel) start count attr =
    if count == 0 then some [] else elim (minshift start count) [
      | none ↦ none
      | some n ↦ elim (range_crds fuel (add64 start (2 ^ n)) (sub64 count (2 ^ n)) attr) [
        | none ↦ none
        | some crds ↦ some (crd start n attr ∷ crds)
      ]
    ]
