-- ===== src/Dma/Sent.antt =====
-- The list of a transfer, as it is sent in a message and read from it.
use nre.Base.{
  ℕ, zero, suc, ◌+◌, ◌≤◌, ◌<◌, ◌≡◌, sym, ap, ◌∙◌, arith, Option, none, some, List, [], ◌∷◌, ◌++◌,
  length, length-append, map, add64, Option-cases, inl, inr,
}
use mathlib.Core.Option.{some-injective}
use mathlib.Core.List.{append_assoc, append-nil, head-eq_of_cons-eq, tail-eq_of_cons-eq}
use nre.Utcb.{Memory, slot, pos_slot, untyped, untyped_of}
use nre.Utcb.Messages.{FrameRef, take}
use nre.Utcb.Messages.Sent.{put_all, take_all, taken_with, total, put_all-take_all, take_all-step}
use nre.Dma.{DmaDesc, DmaDescList, empty, push}

unfoldable pub words_of : DmaDesc → List ℕ
words_of d = d.offset ∷ d.count ∷ []

-- `operator<<` of a list.
pub send : Memory → DmaDescList → Option Memory
unfolding words_of
send m l = put_all m ((length l.descs ∷ []) ∷ map words_of l.descs)

pub desc_of : List ℕ → DmaDesc
desc_of (offset ∷ count ∷ []) = record { offset = offset; count = count }
desc_of ws = record { offset = 0; count = 0 }

pub head : List ℕ → ℕ
head [] = 0
head (w ∷ ws) = w

-- The loop of `operator>>`, with so many descriptors left.
pub receive_loop : ℕ → ℕ → FrameRef → DmaDescList → Option (DmaDescList × FrameRef)
unfolding desc_of
receive_loop max zero f l = some (l, f)
receive_loop max (suc count) f l = elim (take f 2) [
  | none ↦ none
  | some (ws, f') ↦ elim (push max l (desc_of ws)) [
    | none ↦ none
    | some l' ↦ receive_loop max count f' l'
  ]
]

-- `operator>>` of a list.
pub receive : ℕ → FrameRef → Option (DmaDescList × FrameRef)
unfolding receive_loop head
receive max f = elim (take f 1) [
  | none ↦ none
  | some (ws, f') ↦ receive_loop max (head ws) f' empty
]

-- What `_total` is when the descriptors are pushed one after the other.
unfoldable pub total_from : ℕ → List DmaDesc → ℕ
total_from t [] = t
total_from t (d ∷ ds) = total_from (add64 t d.count) ds

none-some : {A : Type 0} {a : A} → none ≡ some a → ⊥
none-some e = cc e

take_all-none :
    (f : FrameRef) (n : ℕ) (sizes : List ℕ) → take f n ≡ none → take_all f (n ∷ sizes) ≡ none
unfolding take_all
take_all-none f n sizes e =
    ap
      (λ (o : Option (List ℕ × FrameRef)). elim o [
        | none ↦ none
        | some (x, g) ↦ taken_with x (take_all g sizes)
      ])
      e

-- The first object of those that are taken, and the others.
take_all-parts :
    (f g : FrameRef) (n : ℕ) (sizes : List ℕ) (ws : List ℕ) (objects : List (List ℕ))
    → take_all f (n ∷ sizes) ≡ some (ws ∷ objects, g)
    → (f' : FrameRef) × (take f n ≡ some (ws, f')) × (take_all f' sizes ≡ some (objects, g))
unfolding take_all taken_with
take_all-parts f g n sizes ws objects e = elim (Option-cases (take f n)) [
  | inl nothing ↦ absurd (none-some (sym (take_all-none f n sizes nothing) ∙ e))
  | inr ((vs, f'), got) ↦ elim (Option-cases (take_all f' sizes)) [
    | inl nothing ↦
        absurd
          (none-some (sym (take_all-step f f' n vs sizes got ∙ ap (taken_with vs) nothing) ∙ e))
    | inr ((os, last), more) ↦
        let same =
          some-injective _ _
            (sym (take_all-step f f' n vs sizes got ∙ ap (taken_with vs) more) ∙ e) in
        let words = head-eq_of_cons-eq (ap (λ (x : List (List ℕ) × FrameRef). x.0) same) in
        let others = tail-eq_of_cons-eq (ap (λ (x : List (List ℕ) × FrameRef). x.0) same) in
        let end = ap (λ (x : List (List ℕ) × FrameRef). x.1) same in
        (f', got ∙ ap (λ (x : List ℕ). some (x, f')) words, more ∙ cc (others, end))
  ]
]

receive_step :
    (max count : ℕ) (f f' : FrameRef) (l l' : DmaDescList) (ws : List ℕ)
    → take f 2 ≡ some (ws, f')
    → push max l (desc_of ws) ≡ some l'
    → receive_loop max (suc count) f l ≡ receive_loop max count f' l'
unfolding receive_loop
receive_step max count f f' l l' ws got pushed =
    ap
      (λ (o : Option (List ℕ × FrameRef)). elim o [
        | none ↦ none
        | some (x, g) ↦ elim (push max l (desc_of x)) [
          | none ↦ none
          | some y ↦ receive_loop max count g y
        ]
      ])
      got
    ∙ ap (λ (o : Option DmaDescList). elim o [ none ↦ none | some y ↦ receive_loop max count f' y ])
        pushed

pushes :
    (max : ℕ) (l : DmaDescList) (d : DmaDesc)
    → length l.descs < max
    → push max l (desc_of (words_of d))
      ≡ some (record { descs = l.descs ++ d ∷ []; total = add64 l.total d.count })
unfolding push desc_of words_of
pushes max l d h = ground (arith, h)

receive_loop_lem :
    (max : ℕ) (ds : List DmaDesc) (f g : FrameRef) (l : DmaDescList)
    → take_all f (map length (map words_of ds)) ≡ some (map words_of ds, g)
    → length l.descs + length ds ≤ max
    → receive_loop max (length ds) f l
      ≡ some (record { descs = l.descs ++ ds; total = total_from l.total ds }, g)
unfolding receive_loop total_from take_all words_of
receive_loop_lem max [] f g l e h =
    let at_end = ap (λ (x : List (List ℕ) × FrameRef). x.1) (some-injective _ _ e) in
    ap (λ (x : FrameRef). some (l, x)) at_end
    ∙ ap (λ (x : List DmaDesc). some (record { descs = x; total = l.total }, g))
        (sym (append-nil l.descs))
receive_loop_lem max (d ∷ ds) f g l e h =
    let (f', got, more) =
      take_all-parts f g 2 (map length (map words_of ds)) (words_of d) (map words_of ds) e in
    let l' : DmaDescList = record { descs = l.descs ++ d ∷ []; total = add64 l.total d.count } in
    receive_step max (length ds) f f' l l' (words_of d) got (pushes max l d (omega (arith, h)))
    ∙ receive_loop_lem max ds f' g l' more (omega (arith, h, length-append l.descs (d ∷ [])))
    ∙ ap
        (λ (x : List DmaDesc).
          some (record { descs = x; total = total_from (add64 l.total d.count) ds }, g))
        (append_assoc l.descs (d ∷ []) ds)

-- A list whose total is that of its descriptors, with at most as many descriptors as the receiver's list has
-- room for, is sent in a frame that has room for its count and descriptors. The receiver that begins
-- where they begin reads exactly this list, and is then at the end of the untyped items.
pub receive-send :
    (max : ℕ) (l : DmaDescList) (m : Memory) (c t : ℕ)
    → l.total ≡ total_from 0 l.descs
    → length l.descs ≤ max
    → untyped_of (m slot) ≡ c
    → c + untyped m + total ((length l.descs ∷ []) ∷ map words_of l.descs) ≤ pos_slot
    → (m' : Memory) × (send m l ≡ some m')
      × (receive max (record { mem = m'; upos = untyped m; tpos = t })
          ≡ some (l, record { mem = m'; upos = untyped m'; tpos = t }))
unfolding send receive head words_of
receive-send max l m c t summed fits saved room =
    let (m', run, counted, taken) =
      put_all-take_all m c t ((length l.descs ∷ []) ∷ map words_of l.descs) (saved, room) in
    let f : FrameRef = record { mem = m'; upos = untyped m; tpos = t } in
    let g : FrameRef = record { mem = m'; upos = untyped m'; tpos = t } in
    let (f', got, more) =
      take_all-parts f g 1 (map length (map words_of l.descs)) (length l.descs ∷ [])
        (map words_of l.descs) taken in
    (
      m',
      run,
      ap
            (λ (o : Option (List ℕ × FrameRef)). elim o [
              | none ↦ none
              | some (x, h) ↦ receive_loop max (head x) h empty
            ])
            got
          ∙ receive_loop_lem max l.descs f' g empty more (omega (arith, fits))
          ∙ ap (λ (x : ℕ). some (record { descs = l.descs; total = x }, g)) (sym summed),
    )
