-- ===== src/Utcb.antt =====
-- nre/include/utcb/UtcbBase.h, UtcbHead.h and UtcbCopy.h (the variant that is built): the page through
-- which threads send messages, as 512 words. Words 0 to 4 are the head: 1 holds the numbers of items,
-- 2 and 3 the receive windows; the messages follow, and the typed items grow down from the end. The
-- asserts are not modelled.
pub mod Slot
pub mod Frames
pub mod Nested
pub mod Overrun
pub mod Messages
mod Tests
use nre.Base.{
  ℕ, zero, suc, ◌+◌, ◌-◌, ◌*◌, ◌/◌, ◌%◌, ◌^◌, Bool, true, false, ◌&&◌, if◌then◌else◌, ltb, leb,
  ◌==◌, bit_and, bit_or, sub64, sub32, u32_mod, update,
}

abbrev pub Memory : Type 0
Memory = ℕ → ℕ

abbrev pub head_words : ℕ
head_words = 5

-- The index of `msg[i]`.
abbrev pub msg : ℕ → ℕ
msg i = head_words + i

-- `POS_SLOT`: the message word that counts the saved items and the layers.
abbrev pub pos_slot : ℕ
pos_slot = 253

abbrev pub slots : ℕ
slots = 507

abbrev pub slot : ℕ
slot = 258

-- `get_top`
abbrev pub top : ℕ
top = 512

unfoldable pub untyped : Memory → ℕ
untyped m = m 1 % 2 ^ 16

unfoldable pub typed : Memory → ℕ
typed m = m 1 / 2 ^ 16 % 2 ^ 16

unfoldable pub set_untyped : Memory → ℕ → Memory
set_untyped m u = update m 1 (m 1 / 2 ^ 16 * 2 ^ 16 + u % 2 ^ 16)

unfoldable pub set_typed : Memory → ℕ → Memory
set_typed m t = update m 1 (m 1 / 2 ^ 32 * 2 ^ 32 + t % 2 ^ 16 * 2 ^ 16 + m 1 % 2 ^ 16)

pub reset : Memory → Memory
reset m = update (update (update m 1 0) 3 0) 2 0

unfoldable pub layer_of : ℕ → ℕ
layer_of p = bit_and (p / 2 ^ 12) 0xF

unfoldable pub untyped_of : ℕ → ℕ
untyped_of p = bit_and p 0xFFF

unfoldable pub typed_of : ℕ → ℕ
typed_of p = p / 2 ^ 16 % u32_mod

-- `add_untyped` with the sum, and `add_typed` and `set_layer`, on the slot's word.
pub with_untyped : ℕ → ℕ → ℕ
with_untyped p c = bit_or (bit_and p 0xFFFFF000) c

pub with_typed : ℕ → ℕ → ℕ
with_typed p t = bit_or (bit_and p 0xFFFF) (t * 2 ^ 16)

pub with_layer : ℕ → ℕ → ℕ
with_layer p l = bit_or (bit_and p 0xFFFF0FFF) (l * 2 ^ 12)

unfoldable pub untyped_start : ℕ → ℕ
untyped_start p = sub32 pos_slot (untyped_of p)

unfoldable pub typed_start : ℕ → ℕ
typed_start p = pos_slot + 1 + typed_of p

unfoldable pub free_typed : Memory → ℕ
free_typed m = sub64 (sub64 (slots - pos_slot - 1) (typed_of (m slot))) (typed m * 2) / 2

unfoldable pub free_untyped : Memory → ℕ
free_untyped m = sub64 (sub64 pos_slot (untyped_of (m slot))) (untyped m)

-- `memcpy` of words, from the memory as it was.
pub copy : Memory → ℕ → ℕ → ℕ → Memory
copy m dst src n i = if leb dst i && ltb i (dst + n) then m (src + (i - dst)) else m i

-- The items of the frame are saved, where all places lie within the page, towards both sides of the slot; the counts follow.
pub save : Memory → Memory
unfolding copy with_untyped with_typed
save m =
    let p = m slot in
    let utcount : ℕ = head_words + untyped m in
    let tcount : ℕ = typed m * 2 in
    let utbackup = msg (untyped_start p) in
    let tbackup = msg (typed_start p) in
    let m₁ = copy m (utbackup - utcount) 0 utcount in
    let m₂ = update m₁ (utbackup - (utcount + 1)) utcount in
    let m₃ = copy m₂ tbackup (top - tcount) tcount in
    let m₄ = update m₃ (tbackup + tcount) tcount in
    update m₄ slot
      (with_typed (with_untyped p (untyped_of p + utcount + 1)) (typed_of p + tcount + 1))

pub push : Memory → Memory
unfolding save reset
push m = if ltb 1 (layer_of (m slot)) then reset (save m) else reset m

pub restore : Memory → Memory
unfolding copy with_untyped with_typed
restore m =
    let p = m slot in
    let utbackup = msg (untyped_start p) in
    let tbackup = msg (typed_start p) in
    let utcount = m utbackup in
    let tcount = m (tbackup - 1) in
    let m₁ = copy m 0 (utbackup + 1) utcount in
    let m₂ = copy m₁ (top - tcount) (tbackup - tcount - 1) tcount in
    update m₂ slot (
      with_typed (with_untyped p (sub64 (untyped_of p) (utcount + 1)))
        (sub32 (typed_of p) (tcount + 1)))

pub pop : Memory → Memory
unfolding restore
pop m = if ltb 1 (layer_of (m slot)) then restore m else m

pub push_layer : Memory → Memory
unfolding with_layer
push_layer m = update m slot (with_layer (m slot) (layer_of (m slot) + 1))

pub pop_layer : Memory → Memory
unfolding with_layer
pop_layer m = update m slot (with_layer (m slot) (layer_of (m slot) - 1))

-- The constructor and the destructor of `UtcbFrame`.
pub frame_begin : Memory → Memory
unfolding push_layer push
frame_begin m = push (push_layer m)

pub frame_end : Memory → Memory
unfolding pop pop_layer
frame_end m = pop_layer (pop m)
