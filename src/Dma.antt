-- ===== src/Dma.antt =====
-- nre/include/util/DMA.h: lists of the pieces of a dataspace that a transfer takes or fills. A memory is a function
-- from the offset to the byte; the buffer of a transfer does not overlap the dataspace.
pub mod Gather
pub mod Sent
mod Tests
use nre.Base.{
  ℕ, zero, suc, ◌+◌, ◌-◌, ◌≤◌, Bool, true, false, ◌&&◌, ◌||◌, Option, none, some, List, [], ◌∷◌,
  ◌++◌, length, ltb, leb, ◌==◌, if◌then◌else◌, add64, sub64,
}
use Prim.Native.Nat.{min}

pub record DmaDesc : Type 0 where
  pub offset : ℕ
  pub count : ℕ

pub record DmaDescList : Type 0 where
  pub descs : List DmaDesc
  pub total : ℕ

abbrev pub empty : DmaDescList
empty = record { descs = []; total = 0 }

-- The list has room for `max` descriptors, and asserts that it is not full, and not empty in `pop`.
unfoldable pub push : ℕ → DmaDescList → DmaDesc → Option DmaDescList
push max l desc =
    if ltb (length l.descs) max
    then some (record { descs = l.descs ++ desc ∷ []; total = add64 l.total desc.count })
    else none

-- The descriptors without the last, and the last.
unfoldable pub split_last : List DmaDesc → Option (List DmaDesc × DmaDesc)
split_last [] = none
split_last (d ∷ ds) = elim (split_last ds) [
  | none ↦ some ([], d)
  | some (front, last) ↦ some (d ∷ front, last)
]

unfoldable pub pop : DmaDescList → Option DmaDescList
unfolding split_last
pop l = elim (split_last l.descs) [
  | none ↦ none
  | some (front, last) ↦ some (record { descs = front; total = sub64 l.total last.count })
]

abbrev pub Bytes : Type 0
Bytes = ℕ → ℕ

-- `memcpy`
pub copy : Bytes → ℕ → Bytes → ℕ → ℕ → Bytes
copy dst to src from n i = if leb to i && ltb i (to + n) then src (from + (i - to)) else dst i

-- The first loop of `inout`: the descriptors from that of the offset on, and the offset in it.
pub skip : List DmaDesc → ℕ → List DmaDesc × ℕ
skip [] offset = ([], offset)
skip (d ∷ ds) offset = elim (leb d.count offset) [
  | true ↦ skip ds (offset - d.count)
  | false ↦ (d ∷ ds, offset)
]

-- The bytes left, the buffer and the dataspace.
pub record Progress : Type 0 where
  pub left : ℕ
  pub buffer : Bytes
  pub data_space : Bytes

-- The second loop, at place `pos` of the buffer, for a dataspace of so many bytes.
pub transfer : Bool → ℕ → List DmaDesc → ℕ → ℕ → Progress → Progress
unfolding copy
transfer to_space size [] offset pos p = p
transfer to_space size (d ∷ ds) offset pos p =
    let sublen = min (d.count - offset) p.left in
    let start = add64 d.offset offset in
    elim (p.left == 0 || ltb size start || ltb size (add64 start sublen)) [
      | true ↦ p
      | false ↦ transfer to_space size ds 0 (pos + sublen) (record {
        left = p.left - sublen;
        buffer = if to_space then p.buffer else copy p.buffer pos p.data_space start sublen;
        data_space = if to_space then copy p.data_space start p.buffer pos sublen else p.data_space;
      })
    ]

-- The outcome and the memories of `inout`.
pub inout : Bool → DmaDescList → ℕ → ℕ → ℕ → Bytes → Bytes → Bool × Progress
unfolding skip transfer
inout to_space l size len offset buffer data_space =
    let (descs, offset') = skip l.descs offset in
    let p =
      transfer to_space size descs offset' 0
        (record { left = len; buffer = buffer; data_space = data_space }) in
    (ltb 0 p.left, p)
