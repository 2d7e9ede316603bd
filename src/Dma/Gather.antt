-- ===== src/Dma/Gather.antt =====
-- What `in` puts into the buffer.
use nre.Base.{
  ℕ, zero, suc, ◌+◌, ◌-◌, ◌^◌, ◌≤◌, ◌<◌, ◌≡◌, refl, sym, ap, ◌∙◌, arith, Bool, true, false, ◌&&◌,
  ◌||◌, List, [], ◌∷◌, ltb, leb, ◌==◌, if◌then◌else◌, add64, Bool-cases, inl, inr,
}
use Prim.Native.Nat.{min}
use nre.Dma.{DmaDesc, DmaDescList, Bytes, copy, skip, Progress, transfer, inout}

-- The bytes of all descriptors, and the place in the dataspace of one of them.
unfoldable pub bytes_of : List DmaDesc → ℕ
bytes_of [] = 0
bytes_of (d ∷ ds) = d.count + bytes_of ds

pub place : List DmaDesc → ℕ → ℕ
place [] k = 0
place (d ∷ ds) k = let rest = place ds (k - d.count) in if ltb k d.count then d.offset + k else rest

-- All descriptors lie within a dataspace of so many bytes.
pub data AllWithin (size : ℕ) : List DmaDesc → Type 0 where
  nil : AllWithin size []
  cons :
      (d : DmaDesc) (ds : List DmaDesc)
      → d.offset + d.count ≤ size
      → AllWithin size ds
      → AllWithin size (d ∷ ds)

-- The buffer holds the bytes of the descriptors from an offset on, at `pos`, and is the old one elsewhere.
pub record IsGathered (descs : List DmaDesc) (offset len pos : ℕ) (old new data_space : Bytes)
    : Type 0 where
  pub inside : (j : ℕ) → j < len → new (pos + j) ≡ data_space (place descs (offset + j))
  pub below : (i : ℕ) → i < pos → new i ≡ old i
  pub above : (i : ℕ) → pos + len ≤ i → new i ≡ old i

copy_inside :
    (dst : Bytes) (to : ℕ) (src : Bytes) (from n j : ℕ)
    → j < n
    → copy dst to src from n (to + j) ≡ src (from + j)
unfolding copy
copy_inside dst to src from n j h =
    let e : to + j - to ≡ j = omega arith in ground (arith, h, ap (λ (x : ℕ). src (from + x)) e)

copy_outside :
    (dst : Bytes) (to : ℕ) (src : Bytes) (from n i : ℕ)
    → (leb to i && ltb i (to + n)) ≡ false
    → copy dst to src from n i ≡ dst i
unfolding copy
copy_outside dst to src from n i h = rw h refl

-- What is done with one descriptor, and with the others behind it.
gather_step :
    (d : DmaDesc) (ds : List DmaDesc) (offset len pos : ℕ) (old new data_space : Bytes)
    → offset ≤ d.count
    → IsGathered ds 0
        (len - min (d.count - offset) len)
        (pos + min (d.count - offset) len)
        (copy old pos data_space (d.offset + offset) (min (d.count - offset) len))
        new
        data_space
    → IsGathered (d ∷ ds) offset len pos old new data_space
unfolding place
gather_step d ds offset len pos old new data_space h g =
    let n = min (d.count - offset) len in
    record {
      inside = λ j l. elim (Bool-cases (ltb j n)) [
        | inl low ↦
            let shut : ltb (offset + j) d.count ≡ true = ground (arith, low, h) in
            let at : d.offset + offset + j ≡ d.offset + (offset + j) = omega arith in
            g.below (pos + j) (ground (arith, low))
            ∙ copy_inside old pos data_space (d.offset + offset) n j (ground (arith, low))
            ∙ ap data_space at
            ∙ rw shut refl
        | inr high ↦
            let apart : ltb (offset + j) d.count ≡ false = ground (arith, high, h, l) in
            let at : pos + n + (j - n) ≡ pos + j = ground (arith, high) in
            let from : 0 + (j - n) ≡ offset + j - d.count = ground (arith, high, h, l) in
            ap new (sym at)
            ∙ g.inside (j - n) (ground (arith, high, h, l))
            ∙ ap (λ (x : ℕ). data_space (place ds x)) from
            ∙ rw apart refl
      ];
      below = λ i l.
          g.below i (omega (arith, l))
          ∙ copy_outside old pos data_space (d.offset + offset) n i (ground (arith, l));
      above = λ i l.
          g.above i (ground (arith, l))
          ∙ copy_outside old pos data_space (d.offset + offset) n i (ground (arith, l));
    }

abbrev progress : ℕ → Bytes → Bytes → Progress
progress left buffer data_space = record { left = left; buffer = buffer; data_space = data_space }

transfer_more :
    (size : ℕ) (d : DmaDesc) (ds : List DmaDesc) (offset pos len : ℕ) (buffer data_space : Bytes)
    → (len == 0
        || ltb size (add64 d.offset offset)
        || ltb size (add64 (add64 d.offset offset) (min (d.count - offset) len)))
      ≡ false
    → transfer false size (d ∷ ds) offset pos (progress len buffer data_space)
      ≡ transfer false size ds 0 (pos + min (d.count - offset) len) (
          progress
            (len - min (d.count - offset) len)
            (copy buffer pos data_space (add64 d.offset offset) (min (d.count - offset) len))
            data_space)
unfolding transfer
transfer_more size d ds offset pos len buffer data_space h = rw (h, transfer) refl

transfer_done :
    (size : ℕ) (ds : List DmaDesc) (offset pos : ℕ) (buffer data_space : Bytes)
    → transfer false size ds offset pos (progress 0 buffer data_space)
      ≡ progress 0 buffer data_space
unfolding transfer
transfer_done size [] offset pos buffer data_space = refl
transfer_done size (d ∷ ds) offset pos buffer data_space = refl

first_count : List DmaDesc → ℕ
first_count [] = 0
first_count (d ∷ ds) = d.count

transfer_lem :
    (size : ℕ) (ds : List DmaDesc) (offset pos len : ℕ) (buffer data_space : Bytes)
    → size < 2 ^ 64
    → AllWithin size ds
    → offset ≤ first_count ds
    → offset + len ≤ bytes_of ds
    → (new : Bytes) × (transfer false size ds offset pos (progress len buffer data_space)
        ≡ progress 0 new data_space)
      × IsGathered ds offset len pos buffer new data_space
unfolding first_count bytes_of
transfer_lem size ds offset pos zero buffer data_space small within first enough = (
  buffer,
  transfer_done size ds offset pos buffer data_space,
  record { inside = λ j l. absurd (omega (arith, l)); below = λ i l. refl; above = λ i l. refl },
)
transfer_lem size [] offset pos (suc len) buffer data_space small within first enough =
    absurd (omega (arith, enough))
transfer_lem size (d ∷ ds) offset pos (suc len) buffer data_space small
      (AllWithin.cons _ _ inside within) first enough =
    let n = min (d.count - offset) (suc len) in
    let start : add64 d.offset offset ≡ d.offset + offset = omega (arith, small, inside, first) in
    let goes_on : (suc len == 0
          || ltb size (add64 d.offset offset)
          || ltb size (add64 (add64 d.offset offset) n))
        ≡ false =
      ground (arith, small, inside, first) in
    let (new, run, g) =
      transfer_lem size ds 0 (pos + n) (suc len - n)
        (copy buffer pos data_space (d.offset + offset) n) data_space small within (omega arith)
        (omega (arith, enough, first)) in
    (
      new,
      transfer_more size d ds offset pos (suc len) buffer data_space goes_on
          ∙ ap
              (λ (x : ℕ).
                transfer false size ds 0 (pos + n)
                  (progress (suc len - n) (copy buffer pos data_space x n) data_space))
              start
          ∙ run,
      gather_step d ds offset (suc len) pos buffer new data_space first g,
    )

skip_passed :
    (d : DmaDesc) (ds : List DmaDesc) (offset : ℕ)
    → leb d.count offset ≡ true
    → skip (d ∷ ds) offset ≡ skip ds (offset - d.count)
unfolding skip
skip_passed d ds offset h = rw (h, skip) refl

outcome : Progress → Bool × Progress
outcome p = (ltb 0 p.left, p)

outcome_done :
    (new data_space : Bytes)
    → outcome (progress 0 new data_space) ≡ (false, progress 0 new data_space)
unfolding outcome
outcome_done new data_space = refl

inout_as :
    (l : DmaDescList) (size len offset : ℕ) (buffer data_space : Bytes)
    → inout false l size len offset buffer data_space
      ≡ outcome (
          transfer false size
            (skip l.descs offset).0
            (skip l.descs offset).1
            0
            (progress len buffer data_space))
unfolding inout outcome
inout_as l size len offset buffer data_space = refl

skip_lem :
    (size : ℕ) (ds : List DmaDesc) (offset : ℕ)
    → AllWithin size ds
    → offset ≤ bytes_of ds
    → (rest : List DmaDesc) × (left : ℕ) × (skip ds offset ≡ (rest, left))
      × AllWithin size rest
      × (left ≤ first_count rest)
      × (offset + bytes_of rest ≡ left + bytes_of ds)
      × ((k : ℕ) → place rest (left + k) ≡ place ds (offset + k))
unfolding bytes_of first_count place skip
skip_lem size [] offset w h = ([], offset, refl, w, h, refl, λ k. refl)
skip_lem size (d ∷ ds) offset (AllWithin.cons _ _ inside w) h =
    elim (Bool-cases (leb d.count offset)) [
      | inr stays ↦ (
        d ∷ ds,
        offset,
        rw (stays, skip) refl,
        AllWithin.cons d ds inside w,
        ground (arith, stays),
        refl,
        λ k. refl,
      )
      | inl passed ↦
          let (rest, left, run, w', first, sum, same) =
            skip_lem size ds (offset - d.count) w (omega (arith, h)) in
          (
            rest,
            left,
            skip_passed d ds offset passed ∙ run,
            w',
            first,
            ground (arith, passed, sum),
            λ k.
                let beyond : ltb (offset + k) d.count ≡ false = ground (arith, passed) in
                let at : offset - d.count + k ≡ offset + k - d.count = ground (arith, passed) in
                same k ∙ ap (place ds) at ∙ rw beyond refl,
          )
    ]

-- A transfer into the buffer, for descriptors that lie within the dataspace and have the bytes from the
-- offset on: it succeeds, which the code tells by false, the dataspace is as it was, and the buffer holds
-- the bytes of the descriptors from the offset on, in their order, and is otherwise the old one.
pub inout-IsGathered :
    (l : DmaDescList) (size len offset : ℕ) (buffer data_space : Bytes)
    → size < 2 ^ 64
    → AllWithin size l.descs
    → offset + len ≤ bytes_of l.descs
    → (new : Bytes) × (inout false l size len offset buffer data_space
        ≡ (false, record { left = 0; buffer = new; data_space = data_space }))
      × IsGathered l.descs offset len 0 buffer new data_space
inout-IsGathered l size len offset buffer data_space small w enough =
    let (rest, left, run, w', first, sum, same) =
      skip_lem size l.descs offset w (omega (arith, enough)) in
    let (new, moved, g) =
      transfer_lem size rest left 0 len buffer data_space small w' first
        (omega (arith, enough, sum)) in
    (
      new,
      inout_as l size len offset buffer data_space
          ∙ ap
              (λ (x : List DmaDesc × ℕ).
                outcome (transfer false size x.0 x.1 0 (progress len buffer data_space)))
              run
          ∙ ap outcome moved
          ∙ outcome_done new data_space,
      record {
        inside = λ j h. g.inside j h ∙ ap data_space (same j);
        below = g.below;
        above = g.above;
      },
    )
