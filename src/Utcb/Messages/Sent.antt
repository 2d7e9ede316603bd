-- ===== src/Utcb/Messages/Sent.antt =====
-- What is put into a frame is what the receiver takes out of it.
use nre.Base.{
  ℕ, zero, suc, ◌+◌, ◌-◌, ◌^◌, ◌≤◌, ◌<◌, ◌≡◌, refl, sym, ap, ◌∙◌, arith, false, ltb, Option, none,
  some, List, [], ◌∷◌, length, map, update, add64,
}
use mathlib.Core.Option.{some-injective}
use nre.Utcb.{Memory, msg, slot, pos_slot, untyped, set_untyped, free_untyped, untyped_of}
use nre.Utcb.Messages.{FrameRef, write_at, put, read_at, take, lacks_untyped}

pub put_all : Memory → List (List ℕ) → Option Memory
put_all m [] = some m
put_all m (ws ∷ objects) = elim (put m ws) [ none ↦ none | some m' ↦ put_all m' objects ]

unfoldable pub taken_with :
    List ℕ → Option (List (List ℕ) × FrameRef) → Option (List (List ℕ) × FrameRef)
taken_with ws none = none
taken_with ws (some (objects, last)) = some (ws ∷ objects, last)

unfoldable pub take_all : FrameRef → List ℕ → Option (List (List ℕ) × FrameRef)
unfolding taken_with
take_all f [] = some ([], f)
take_all f (n ∷ sizes) = elim (take f n) [
  | none ↦ none
  | some (ws, f') ↦ taken_with ws (take_all f' sizes)
]

pub take_all-step :
    (f f' : FrameRef) (n : ℕ) (ws : List ℕ) (sizes : List ℕ)
    → take f n ≡ some (ws, f')
    → take_all f (n ∷ sizes) ≡ taken_with ws (take_all f' sizes)
unfolding take_all
take_all-step f f' n ws sizes e =
    ap
      (λ (o : Option (List ℕ × FrameRef)). elim o [
        | none ↦ none
        | some (x, g) ↦ taken_with x (take_all g sizes)
      ])
      e

unfoldable pub total : List (List ℕ) → ℕ
total [] = 0
total (ws ∷ objects) = length ws + total objects

write_at-other : (m : Memory) (i : ℕ) (ws : List ℕ) (j : ℕ) → j < i → write_at m i ws j ≡ m j
unfolding write_at
write_at-other m i [] j h = refl
write_at-other m i (w ∷ ws) j h =
    write_at-other (update m i w) (suc i) ws j (omega (arith, h)) ∙ ground (arith, h)

write_at-above :
    (m : Memory) (i : ℕ) (ws : List ℕ) (j : ℕ) → i + length ws ≤ j → write_at m i ws j ≡ m j
unfolding write_at
write_at-above m i [] j h = refl
write_at-above m i (w ∷ ws) j h =
    write_at-above (update m i w) (suc i) ws j (omega (arith, h)) ∙ ground (arith, h)

read_at-same :
    (m m' : Memory) (i n : ℕ)
    → ((j : ℕ) → i ≤ j → j < i + n → m' j ≡ m j)
    → read_at m' i n ≡ read_at m i n
unfolding read_at
read_at-same m m' i zero h = refl
read_at-same m m' i (suc n) h =
    ap (λ (x : ℕ). x ∷ read_at m' (suc i) n) (h i (omega arith) (omega arith))
    ∙ ap (λ (l : List ℕ). m i ∷ l)
        (read_at-same m m' (suc i) n (λ j a b. h j (omega (arith, a)) (omega (arith, b))))

read_at-write_at : (m : Memory) (i : ℕ) (ws : List ℕ) → read_at (write_at m i ws) i (length ws) ≡ ws
unfolding read_at write_at
read_at-write_at m i [] = refl
read_at-write_at m i (w ∷ ws) =
    let here : write_at (update m i w) (suc i) ws i ≡ w =
      write_at-other (update m i w) (suc i) ws i (omega arith) ∙ ground arith in
    ap (λ (x : ℕ). x ∷ read_at (write_at (update m i w) (suc i) ws) (suc i) (length ws)) here
    ∙ ap (λ (l : List ℕ). w ∷ l) (read_at-write_at (update m i w) (suc i) ws)

-- A page whose untyped items and saved ones do not meet.
abbrev pub Roomy : Memory → ℕ → ℕ → Type 0
Roomy m c n = (untyped_of (m slot) ≡ c) × (c + untyped m + n ≤ pos_slot)

free_lem :
    (m : Memory) (c : ℕ)
    → untyped_of (m slot) ≡ c
    → c + untyped m ≤ pos_slot
    → free_untyped m ≡ pos_slot - c - untyped m
unfolding free_untyped
free_lem m c e h = omega (arith, e, h)

set_untyped_other : (m : Memory) (u j : ℕ) → 1 < j → set_untyped m u j ≡ m j
unfolding set_untyped
set_untyped_other m u j h = ground (arith, h)

untyped-set_untyped : (m : Memory) (u : ℕ) → u < 2 ^ 16 → untyped (set_untyped m u) ≡ u
unfolding untyped set_untyped
untyped-set_untyped m u h = omega (arith, h)

put_lem :
    (m : Memory) (c : ℕ) (ws : List ℕ) (rest : ℕ)
    → Roomy m c (length ws + rest)
    → (m' : Memory) × (put m ws ≡ some m')
      × (untyped m' ≡ untyped m + length ws)
      × Roomy m' c rest
      × (read_at m' (msg (untyped m)) (length ws) ≡ ws)
      × ((j : ℕ) → 1 < j → j < msg (untyped m) → m' j ≡ m j)
unfolding put
put_lem m c ws rest (saved, room) =
    let u = untyped m in
    let w = write_at m (msg u) ws in
    let m' = set_untyped w (u + length ws) in
    let fits : ltb (free_untyped m) (length ws) ≡ false =
      ground (arith, free_lem m c saved, room) in
    let above : (j : ℕ) → 1 < j → m' j ≡ w j = λ j h. set_untyped_other w (u + length ws) j h in
    let counted : untyped m' ≡ u + length ws =
      untyped-set_untyped w (u + length ws) (omega (arith, room)) in
    let same_slot : m' slot ≡ m slot =
      above slot (omega arith) ∙ write_at-above m (msg u) ws slot (omega (arith, room)) in
    (
      m',
      rw fits refl,
      counted,
      (ap untyped_of same_slot ∙ saved, omega (arith, counted, room)),
      read_at-same w m' (msg u) (length ws) (λ j a b. above j (omega (arith, a)))
          ∙ read_at-write_at m (msg u) ws,
      λ j a b. above j a ∙ write_at-other m (msg u) ws j b,
    )

put_all_keeps :
    (m m' : Memory) (c : ℕ) (objects : List (List ℕ))
    → Roomy m c (total objects)
    → put_all m objects ≡ some m'
    → (j : ℕ) → 1 < j
    → j < msg (untyped m)
    → m' j ≡ m j
unfolding put_all total
put_all_keeps m m' c [] r e j a b = ap (λ (x : Memory). x j) (sym (some-injective _ _ e))
put_all_keeps m m' c (ws ∷ objects) r e j a b =
    let (m₁, run, counted, r₁, reads, kept) = put_lem m c ws (total objects) r in
    put_all_keeps m₁ m' c objects r₁
      (sym (ap (λ (o : Option Memory). elim o [ none ↦ none | some x ↦ put_all x objects ]) run)
        ∙ e)
      j a (omega (arith, b, counted))
    ∙ kept j a b

take_lem :
    (m : Memory) (u t n : ℕ)
    → u + n ≤ untyped m
    → untyped m < 2 ^ 16
    → take (record { mem = m; upos = u; tpos = t }) n
      ≡ some (read_at m (msg u) n, record { mem = m; upos = u + n; tpos = t })
unfolding take lacks_untyped
take_lem m u t n h k =
    let enough : ltb (untyped m) (add64 u n) ≡ false = ground (arith, h, k) in
    let moved : add64 u n ≡ u + n = omega (arith, h, k) in
    rw enough
      (ap (λ (x : ℕ). some (read_at m (msg u) n, record { mem = m; upos = x; tpos = t })) moved)

untyped_small : (m : Memory) → untyped m < 2 ^ 16
unfolding untyped
untyped_small m = omega arith

-- Objects for which there is room beside the saved items: they are put into the frame, and the receiver
-- that begins where they begin takes them out again, word by word and in their order, and is then at
-- the end of the untyped items.
pub put_all-take_all :
    (m : Memory) (c t : ℕ) (objects : List (List ℕ))
    → Roomy m c (total objects)
    → (m' : Memory) × (put_all m objects ≡ some m')
      × (untyped m' ≡ untyped m + total objects)
      × (take_all (record { mem = m'; upos = untyped m; tpos = t }) (map length objects)
          ≡ some (objects, record { mem = m'; upos = untyped m'; tpos = t }))
unfolding put_all take_all total taken_with
put_all-take_all m c t [] r = (m, refl, omega arith, refl)
put_all-take_all m c t (ws ∷ objects) r =
    let (m₁, run, counted, r₁, reads, kept) = put_lem m c ws (total objects) r in
    let (m', runs, sum, takes) = put_all-take_all m₁ c t objects r₁ in
    let same : read_at m' (msg (untyped m)) (length ws) ≡ ws =
      read_at-same m₁ m' (msg (untyped m)) (length ws) (λ j a b.
        put_all_keeps m₁ m' c objects r₁ runs j (omega (arith, a)) (omega (arith, b, counted)))
      ∙ reads in
    let taken =
      take_lem m' (untyped m) t (length ws) (omega (arith, sum, counted)) (untyped_small m') in
    let at : untyped m + length ws ≡ untyped m₁ = sym counted in
    (
      m',
      ap (λ (o : Option Memory). elim o [ none ↦ none | some x ↦ put_all x objects ]) run ∙ runs,
      omega (arith, sum, counted),
      take_all-step (record { mem = m'; upos = untyped m; tpos = t })
            (record { mem = m'; upos = untyped m + length ws; tpos = t }) (length ws)
            (read_at m' (msg (untyped m)) (length ws)) (map length objects) taken
          ∙ ap
              (λ (x : List ℕ). taken_with x (
                take_all (record { mem = m'; upos = untyped m + length ws; tpos = t })
                  (map length objects)))
              same
          ∙ ap
              (λ (u : ℕ).
                taken_with ws
                  (take_all (record { mem = m'; upos = u; tpos = t }) (map length objects)))
              at
          ∙ ap (taken_with ws) takes,
    )
