-- ===== src/TimeoutList/Cancel.antt =====
-- `cancel` takes an entry out of the queue.
use mathlib.Core.Path.{subst}
use native.Mathlib.Decide.{ℕ_discrete}
use nre.Base.{
  ℕ, ◌≤◌, ◌≡◌, ◌≢◌, refl, sym, arith, false, not, List, [], ◌∷◌, ◌++◌, All, Apart, Distinct,
  Distinct-middle, Distinct-append, All-append_iff, All-map, All-map₂, Apart-cases, update, ◌==◌,
  inl, inr, append-nil,
}
use nre.TimeoutList.{TimeoutList, never, cancel}
use nre.TimeoutList.Links.{
  Chain, Chain-append, Chain-split, Chain-bend, Chain-frame, before_end, first_of_end,
}
use nre.TimeoutList.Queue.{
  Holds, Sorted, waits_behind, without, without-middle, without-Apart, contains-Apart,
  contains-middle,
}

-- The arrays after the entry `nr` was taken out.
abbrev pub next_without : TimeoutList → ℕ → ℕ → ℕ
next_without t nr = update (update t.next (t.prev nr) (t.next nr)) nr nr

abbrev pub prev_without : TimeoutList → ℕ → ℕ → ℕ
prev_without t nr = update (update t.prev (t.next nr) (t.prev nr)) nr nr

cancel-queued :
    (t : TimeoutList) (nr : ℕ)
    → t.next nr ≢ nr
    → cancel t nr
      ≡ (not (t.next 0 == nr), record t { next = next_without t nr; prev = prev_without t nr })
unfolding cancel
cancel-queued t nr ne =
    let same : update t.prev (t.next nr) (t.prev nr) nr ≡ t.prev nr = ground arith in
    rw same (ground arith)

-- Cutting the entry `nr` out of a chain that starts and ends at 0.
module _ (t : TimeoutList) (nr : ℕ) (nz : nr ≢ 0) (xs : List ℕ) where
  cut :
      (ys : List ℕ)
      → Distinct (0 ∷ (xs ++ nr ∷ ys))
      → Chain t.next t.prev 0 xs nr
      → Chain t.next t.prev nr ys 0
      → Chain (next_without t nr) (prev_without t nr) 0 (xs ++ ys) 0
  cut [] d c1 c2 =
      let parts = Distinct-append xs (nr ∷ []) d.1 in
      let zero = (All-append_iff (λ z. z ≢ 0) xs (nr ∷ [])).0 d.0 in
      let apart = (Distinct-middle xs [] nr d.1).0 in
      let p_ne : t.prev nr ≢ nr =
        before_end t.next t.prev (λ z. z ≢ nr) 0 xs nr c1 (λ e. nz (sym e)) apart in
      rw append-nil (
        Chain-bend t.next t.prev (next_without t nr) (prev_without t nr) 0 xs nr 0 (zero.0, parts.1)
          (ground arith) (ground arith)
          ((λ ne. ground arith), All-map xs (λ x x_ne ne. ground arith) apart)
          (All-map₂ xs (λ x x_ne x_nz. ground arith) apart zero.0) c1)
  cut (y ∷ ys) d c1 c2 =
      let parts = Distinct-append xs (nr ∷ y ∷ ys) d.1 in
      let zero = (All-append_iff (λ z. z ≢ 0) xs (nr ∷ y ∷ ys)).0 d.0 in
      let mid = Distinct-middle xs (y ∷ ys) nr d.1 in
      let p_ne : t.prev nr ≢ nr =
        before_end t.next t.prev (λ z. z ≢ nr) 0 xs nr c1 (λ e. nz (sym e)) mid.0 in
      let p_apart : Apart (t.prev nr) (y ∷ ys) =
        before_end t.next t.prev (λ z. Apart z (y ∷ ys)) 0 xs nr c1 zero.1.1
          (All-map xs (λ x h. h.1) parts.0) in
      let others : All (λ x. (x ≢ nr) × (x ≢ t.prev nr)) ys =
        All-map₂ ys (λ x h k. (h, k)) mid.1.1 p_apart.1 in
      Chain-append (next_without t nr) (prev_without t nr) 0 xs y ys 0
        (Chain-bend t.next t.prev (next_without t nr) (prev_without t nr) 0 xs nr y
          (zero.0, parts.1) (ground arith) (ground arith)
          ((λ ne. ground arith), All-map xs (λ x x_ne ne. ground arith) mid.0)
          (All-map₂ xs (λ x x_ne x_y. ground arith) mid.0 (All-map xs (λ x h. h.1.0) parts.0)) c1)
        (Chain-frame t.next t.prev (next_without t nr) (prev_without t nr) y ys 0 (ground arith)
          (ground arith) (All-map₂ ys (λ x h k. (ground arith, ground arith)) others mid.3.0) c2.2)

Sorted-middle :
    (tm : ℕ → ℕ) (xs ys : List ℕ) (y : ℕ) → Sorted tm (xs ++ y ∷ ys) → Sorted tm (xs ++ ys)
Sorted-middle tm [] ys y s = s.1
Sorted-middle tm (x ∷ xs) ys y s =
    let here = (All-append_iff (λ z. tm x ≤ tm z) xs (y ∷ ys)).0 s.0 in
    ((All-append_iff (λ z. tm x ≤ tm z) xs ys).1 (here.0, here.1.1), Sorted-middle tm xs ys y s.1)

Apart-grow : (x nr : ℕ) (xs ys : List ℕ) → nr ≢ x → Apart x (xs ++ ys) → Apart x (xs ++ nr ∷ ys)
Apart-grow x nr xs ys ne h =
    let parts = (All-append_iff (λ z. z ≢ x) xs ys).0 h in
    (All-append_iff (λ z. z ≢ x) xs (nr ∷ ys)).1 (parts.0, (ne, parts.1))

alone-without :
    (t : TimeoutList) (nr : ℕ) (xs ys : List ℕ)
    → Holds t (xs ++ nr ∷ ys)
    → Chain t.next t.prev 0 xs nr
    → Chain t.next t.prev nr ys 0
    → (x : ℕ) → x ≢ 0
    → Apart x (xs ++ ys)
    → (next_without t nr x ≡ x) × (prev_without t nr x ≡ x)
alone-without t nr xs ys v c1 c2 x x_nz apart = elim (ℕ_discrete nr x) [
  | yes e ↦ (ground arith, ground arith)
  | no ne ↦
      let parts = (All-append_iff (λ z. z ≢ x) xs ys).0 apart in
      let z_ne : 0 ≢ x = λ e. x_nz (sym e) in
      let p_ne : t.prev nr ≢ x = before_end t.next t.prev (λ z. z ≢ x) 0 xs nr c1 z_ne parts.0 in
      let q_ne : t.next nr ≢ x = first_of_end t.next t.prev (λ z. z ≢ x) nr ys 0 c2 z_ne parts.1 in
      let self = v.alone x x_nz (Apart-grow x nr xs ys ne apart) in
      (ground (arith, self), ground (arith, self))
]

cancel-middle :
    (t : TimeoutList) (nr : ℕ) (xs ys : List ℕ)
    → nr ≢ 0
    → Holds t (xs ++ nr ∷ ys)
    → (t.next nr ≢ nr)
      × Holds (record t { next = next_without t nr; prev = prev_without t nr }) (xs ++ ys)
cancel-middle t nr xs ys nz v =
    let mid = Distinct-middle xs ys nr v.distinct.1 in
    let zero = (All-append_iff (λ z. z ≢ 0) xs (nr ∷ ys)).0 v.distinct.0 in
    let (c1, c2) = Chain-split t.next t.prev 0 xs nr ys 0 v.chain in
    let bound = (All-append_iff (λ x. t.timeout_of x ≤ never) xs (nr ∷ ys)).0 v.bounded in
    let q_ne : t.next nr ≢ nr =
      first_of_end t.next t.prev (λ z. z ≢ nr) nr ys 0 c2 (λ e. nz (sym e)) mid.1 in
    (
      q_ne,
      record {
        chain = cut t nr nz xs ys v.distinct c1 c2;
        distinct = ((All-append_iff (λ z. z ≢ 0) xs ys).1 (zero.0, zero.1.1), mid.2);
        alone = λ x x_nz apart. alone-without t nr xs ys v c1 c2 x x_nz apart;
        sorted = Sorted-middle t.timeout_of xs ys nr v.sorted;
        bounded = (All-append_iff (λ x. t.timeout_of x ≤ never) xs ys).1 (bound.0, bound.1.1);
        last = v.last;
      },
    )

cancel-alone : (t : TimeoutList) (nr : ℕ) → t.next nr ≡ nr → cancel t nr ≡ (false, t)
unfolding cancel
cancel-alone t nr e = ground arith

waits_behind-Apart : (x : ℕ) (xs : List ℕ) → Apart x xs → waits_behind x xs ≡ false
unfolding waits_behind
waits_behind-Apart x [] h = refl
waits_behind-Apart x (y ∷ xs) h = ground (arith, contains-Apart x xs h.1)

-- Whether the head's successor is another entry tells whether the entry waits behind one.
head-waits_behind :
    (t : TimeoutList) (nr : ℕ) (xs ys : List ℕ)
    → Apart nr xs
    → Chain t.next t.prev 0 (xs ++ nr ∷ ys) 0
    → not (t.next 0 == nr) ≡ waits_behind nr (xs ++ nr ∷ ys)
unfolding waits_behind
head-waits_behind t nr [] ys h c = ground arith
head-waits_behind t nr (x ∷ xs) ys h c = ground (arith, contains-middle nr xs ys)

queued :
    (t : TimeoutList) (nr : ℕ) (qs : List ℕ)
    → nr ≢ 0
    → Holds t qs
    → (xs ys : List ℕ) → qs ≡ xs ++ nr ∷ ys
    → ((cancel t nr).0 ≡ waits_behind nr qs) × Holds (cancel t nr).1 (without nr qs)
queued t nr qs nz v xs ys e =
    let v' : Holds t (xs ++ nr ∷ ys) = subst (Holds t) e v in
    let apart = (Distinct-middle xs ys nr v'.distinct.1).0 in
    let (q_ne, w) = cancel-middle t nr xs ys nz v' in
    rw (e, cancel-queued t nr q_ne, without-middle nr xs ys apart)
      (head-waits_behind t nr xs ys apart v'.chain, w)

-- For a list that queues `qs` and a slot `nr` other than 0: `cancel` returns whether the entry
-- waited behind another one, and leaves a list that queues the others in the same order; nothing
-- changes if it was not queued.
pub cancel_refines :
    (t : TimeoutList) (nr : ℕ) (qs : List ℕ)
    → nr ≢ 0
    → Holds t qs
    → ((cancel t nr).0 ≡ waits_behind nr qs) × Holds (cancel t nr).1 (without nr qs)
cancel_refines t nr qs nz v = elim (Apart-cases nr qs) [
  | inl apart ↦
      let same = cancel-alone t nr (v.alone nr nz apart).0 in
      rw (same, without-Apart nr qs apart, waits_behind-Apart nr qs apart) (refl, v)
  | inr (xs, ys, e) ↦ queued t nr qs nz v xs ys e
]
