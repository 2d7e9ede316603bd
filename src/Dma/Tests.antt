-- ===== src/Dma/Tests.antt =====
-- A transfer from the middle of one descriptor into the next.
use nre.Base.{◌^◌, ◌≡◌, refl, arith, false, [], ◌∷◌, ◌==◌, if◌then◌else◌, some}
use nre.Dma.{DmaDescList, Bytes, push, pop, split_last, inout}
use nre.Utcb.{Memory, slot, untyped, untyped_of}
use nre.Utcb.Messages.Sent.{total}
use nre.Dma.Sent.{words_of, send, receive, total_from, receive-send}
use nre.Dma.Gather.{AllWithin, IsGathered, bytes_of, inout-IsGathered}

abbrev pieces : DmaDescList
pieces = record {
  descs = record { offset = 10; count = 4 } ∷ record { offset = 2; count = 3 } ∷ [];
  total = 7;
}

push_run :
    (push 2
        (record { descs = record { offset = 10; count = 4 } ∷ []; total = 4 })
        (record { offset = 2; count = 3 })
      ≡ some pieces)
    × (pop pieces ≡ some (record { descs = record { offset = 10; count = 4 } ∷ []; total = 4 }))
unfolding push pop split_last
push_run = (refl, refl)

inout-IsGathered_example :
    (new : Bytes) × (inout false pieces 20 4 2 (λ i. 0) (λ i. i)
      ≡ (false, record { left = 0; buffer = new; data_space = λ i. i }))
    × IsGathered pieces.descs 2 4 0 (λ i. 0) new (λ i. i)
unfolding bytes_of
inout-IsGathered_example =
    inout-IsGathered pieces 20 4 2 (λ i. 0) (λ i. i) (omega arith)
      (AllWithin.cons _ _ (omega arith) (AllWithin.cons _ _ (omega arith) AllWithin.nil))
      (omega arith)

-- A page without items, on the first layer.
abbrev page : Memory
page i = if i == slot then 2 ^ 12 else 0

receive-send_example :
    (m' : Memory) × (send page pieces ≡ some m')
    × (receive 2 (record { mem = m'; upos = untyped page; tpos = 0 })
        ≡ some (pieces, record { mem = m'; upos = untyped m'; tpos = 0 }))
unfolding total_from total words_of untyped untyped_of
receive-send_example = receive-send 2 pieces page 0 0 refl (omega arith) refl (omega arith)
