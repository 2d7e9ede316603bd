-- ===== src/TimeoutList/Request.antt =====
-- `request` puts an entry into the queue by its timeout, and `trigger` reads the queue's head.
use mathlib.Core.Path.{subst}
use nre.Base.{
  ℕ, zero, suc, ◌≤◌, ◌<◌, ◌≡◌, ◌≢◌, refl, sym, ap, arith, Bool, Option, none, some, List, [], ◌∷◌,
  ◌++◌, All, Apart, Distinct, Distinct-insert, Distinct-middle, Distinct-append, All-append_iff,
  All-map, All-map₂, update, ltb, ◌==◌, inl, inr, append-nil, length, Bool-cases, if_intro,
}
use nre.TimeoutList.{TimeoutList, never, cancel, timeout, seek, link_before, request, trigger}
use nre.TimeoutList.Links.{Chain, Chain-append, Chain-split, Chain-bend, Chain-frame, before_end}
use nre.TimeoutList.Queue.{Holds, Sorted, without, enqueue, Apart-without, length-without-le}
use nre.TimeoutList.Cancel.{cancel_refines}

abbrev pub first_or : List ℕ → ℕ → ℕ
first_or [] d = d
first_or (y ∷ ys) d = y

-- Where the search stops: `xs` are due before `to`, and `ys` begins with the entry it stops at.
record Stops (t : TimeoutList) (to nr : ℕ) (qs : List ℕ) (found : Option ℕ) : Type 0 where
  xs : List ℕ
  ys : List ℕ
  whole : qs ≡ xs ++ ys
  stop : found ≡ some (first_or ys 0)
  placed : enqueue t.timeout_of nr to qs ≡ xs ++ nr ∷ ys
  before : All (λ x. t.timeout_of x ≤ to) xs
  after : All (λ y. to ≤ t.timeout_of y) ys

seek-Stops :
    (t : TimeoutList) (to nr : ℕ) (fuel a : ℕ) (qs : List ℕ)
    → Chain t.next t.prev a qs 0
    → Sorted t.timeout_of qs
    → t.timeout_of 0 ≡ never
    → to ≤ never
    → length qs < fuel
    → Stops t to nr qs (seek fuel t to a)
unfolding seek enqueue
seek-Stops t to nr zero a qs c s last bound enough = absurd (omega arith)
seek-Stops t to nr (suc fuel) a [] c s last bound enough = record {
  xs = [];
  ys = [];
  whole = refl;
  stop = rw c.0 (ground arith);
  placed = refl;
  before = tt;
  after = tt;
}
seek-Stops t to nr (suc fuel) a (x ∷ qs) c s last bound enough =
    elim (Bool-cases (ltb (t.timeout_of x) to)) [
      | inl early ↦
          let r = seek-Stops t to nr fuel x qs c.2 s.1 last bound (omega arith) in
          record {
            xs = x ∷ r.xs;
            ys = r.ys;
            whole = ap (λ (l : List ℕ). x ∷ l) r.whole;
            stop = rw (c.0, early) r.stop;
            placed = rw (early, r.placed) refl;
            before = (ground arith, r.before);
            after = r.after;
          }
      | inr late ↦ record {
        xs = [];
        ys = x ∷ qs;
        whole = refl;
        stop = rw (c.0, late) refl;
        placed = rw late refl;
        before = tt;
        after = (ground arith, All-map qs (λ y h. ground arith) s.0);
      }
    ]

-- The arrays after the entry `nr` was linked in before `at`.
abbrev next_with : TimeoutList → ℕ → ℕ → ℕ → ℕ
next_with t nr at = update (update t.next nr at) (t.prev at) nr

abbrev prev_with : TimeoutList → ℕ → ℕ → ℕ → ℕ
prev_with t nr at = update (update t.prev nr (t.prev at)) at nr

link_before-eq :
    (t : TimeoutList) (nr to at : ℕ)
    → nr ≢ at
    → link_before t nr to at ≡ record t {
      timeout_of = update t.timeout_of nr to;
      next = next_with t nr at;
      prev = prev_with t nr at;
    }
unfolding link_before
link_before-eq t nr to at ne =
    let same : update t.prev nr (t.prev at) at ≡ t.prev at = ground arith in rw same refl

module _ (t : TimeoutList) (nr : ℕ) (nz : nr ≢ 0) (xs : List ℕ) where
  paste :
      (ys : List ℕ)
      → Distinct (0 ∷ (xs ++ ys))
      → Apart nr (xs ++ ys)
      → Chain t.next t.prev 0 (xs ++ ys) 0
      → Chain (next_with t nr (first_or ys 0)) (prev_with t nr (first_or ys 0)) 0 (xs ++ nr ∷ ys) 0
  paste [] d apart c =
      let c1 : Chain t.next t.prev 0 xs 0 =
        subst (λ l. Chain t.next t.prev 0 l 0) (append-nil xs) c in
      let d1 : Distinct (0 ∷ xs) = subst (λ l. Distinct (0 ∷ l)) (append-nil xs) d in
      let a1 : Apart nr xs = subst (Apart nr) (append-nil xs) apart in
      let p_ne : t.prev 0 ≢ nr =
        before_end t.next t.prev (λ z. z ≢ nr) 0 xs 0 c1 (λ e. nz (sym e)) a1 in
      Chain-append (next_with t nr 0) (prev_with t nr 0) 0 xs nr [] 0
        (Chain-bend t.next t.prev (next_with t nr 0) (prev_with t nr 0) 0 xs 0 nr d1 (ground arith)
          (ground arith) ((λ ne. ground arith), All-map xs (λ x x_ne ne. ground arith) a1)
          (All-map₂ xs (λ x x_ne x_nz. ground arith) a1 d1.0) c1)
        (ground arith, ground arith)
  paste (y ∷ ys) d apart c =
      let (c1, c2) = Chain-split t.next t.prev 0 xs y ys 0 c in
      let parts = Distinct-append xs (y ∷ ys) d.1 in
      let zero = (All-append_iff (λ z. z ≢ 0) xs (y ∷ ys)).0 d.0 in
      let new = (All-append_iff (λ z. z ≢ nr) xs (y ∷ ys)).0 apart in
      let mid = Distinct-middle xs ys y d.1 in
      let p_ne : t.prev y ≢ nr =
        before_end t.next t.prev (λ z. z ≢ nr) 0 xs y c1 (λ e. nz (sym e)) new.0 in
      let p_apart : Apart (t.prev y) (y ∷ ys) =
        before_end t.next t.prev (λ z. Apart z (y ∷ ys)) 0 xs y c1 zero.1
          (All-map xs (λ x h. h) parts.0) in
      let others : All (λ x. (x ≢ nr) × (x ≢ t.prev y)) ys =
        All-map₂ ys (λ x h k. (h, k)) new.1.1 p_apart.1 in
      Chain-append (next_with t nr y) (prev_with t nr y) 0 xs nr (y ∷ ys) 0
        (Chain-bend t.next t.prev (next_with t nr y) (prev_with t nr y) 0 xs y nr (zero.0, parts.1)
          (ground arith) (ground arith)
          ((λ ne. ground arith), All-map xs (λ x x_ne ne. ground arith) new.0)
          (All-map₂ xs (λ x x_ne x_y. ground arith) new.0 mid.0) c1)
        (
          ground arith,
          ground arith,
          Chain-frame t.next t.prev (next_with t nr y) (prev_with t nr y) y ys 0 (ground arith)
              (ground arith) (All-map₂ ys (λ x h k. (ground arith, ground arith)) others mid.1) c2,
        )

Sorted-insert :
    (tm : ℕ → ℕ) (nr to : ℕ) (xs ys : List ℕ)
    → Sorted tm (xs ++ ys)
    → Apart nr (xs ++ ys)
    → All (λ x. tm x ≤ to) xs
    → All (λ y. to ≤ tm y) ys
    → Sorted (update tm nr to) (xs ++ nr ∷ ys)
Sorted-insert tm nr to [] ys s a h k =
    (All-map₂ ys (λ y le ne. ground arith) k a, Sorted-frame ys s a)
  where
    Sorted-frame : (l : List ℕ) → Sorted tm l → Apart nr l → Sorted (update tm nr to) l
    Sorted-frame [] s a = tt
    Sorted-frame (x ∷ l) s a =
        (All-map₂ l (λ y le ne. ground arith) s.0 a.1, Sorted-frame l s.1 a.1)
Sorted-insert tm nr to (x ∷ xs) ys s a h k =
    let le = (All-append_iff (λ z. tm x ≤ tm z) xs ys).0 s.0 in
    let ne = (All-append_iff (λ z. z ≢ nr) xs ys).0 a.1 in
    (
      (All-append_iff (λ z. update tm nr to x ≤ update tm nr to z) xs (nr ∷ ys)).1 (
        All-map₂ xs (λ z p q. ground arith) le.0 ne.0,
        (ground arith, All-map₂ ys (λ z p q. ground arith) le.1 ne.1),
      ),
      Sorted-insert tm nr to xs ys s.1 a.1 h.1 k,
    )

prev_stop :
    (t : TimeoutList) (P : ℕ → Type 0) (xs ys : List ℕ)
    → Chain t.next t.prev 0 (xs ++ ys) 0
    → P 0
    → All P xs
    → P (t.prev (first_or ys 0))
prev_stop t P xs [] c z h =
    before_end t.next t.prev P 0 xs 0 (subst (λ l. Chain t.next t.prev 0 l 0) (append-nil xs) c) z h
prev_stop t P xs (y ∷ ys) c z h =
    before_end t.next t.prev P 0 xs y (Chain-split t.next t.prev 0 xs y ys 0 c).0 z h

first_or-All : (P : ℕ → Type 0) (ys : List ℕ) (d : ℕ) → P d → All P ys → P (first_or ys d)
first_or-All P [] d p h = p
first_or-All P (y ∷ ys) d p h = h.0

module _ (t : TimeoutList) (nr to : ℕ) (nz : nr ≢ 0) (xs ys : List ℕ) (v : Holds t (xs ++ ys))
    (apart : Apart nr (xs ++ ys)) where
  alone-with :
      (x : ℕ)
      → x ≢ 0
      → Apart x (xs ++ nr ∷ ys)
      → (next_with t nr (first_or ys 0) x ≡ x) × (prev_with t nr (first_or ys 0) x ≡ x)
  alone-with x x_nz h =
      let parts = (All-append_iff (λ z. z ≢ x) xs (nr ∷ ys)).0 h in
      let z_ne : 0 ≢ x = λ e. x_nz (sym e) in
      let p_ne = prev_stop t (λ z. z ≢ x) xs ys v.chain z_ne parts.0 in
      let at_ne = first_or-All (λ z. z ≢ x) ys 0 z_ne parts.1.1 in
      let nr_ne = parts.1.0 in
      let self = v.alone x x_nz ((All-append_iff (λ z. z ≢ x) xs ys).1 (parts.0, parts.1.1)) in
      (ground (arith, self), ground (arith, self))

  link_before-Holds :
      to ≤ never
      → All (λ x. t.timeout_of x ≤ to) xs
      → All (λ y. to ≤ t.timeout_of y) ys
      → Holds (link_before t nr to (first_or ys 0)) (xs ++ nr ∷ ys)
  link_before-Holds bound h k =
      let parts = (All-append_iff (λ z. z ≢ nr) xs ys).0 apart in
      let zero = (All-append_iff (λ z. z ≢ 0) xs ys).0 v.distinct.0 in
      let le = (All-append_iff (λ x. t.timeout_of x ≤ never) xs ys).0 v.bounded in
      let at_ne : nr ≢ first_or ys 0 =
        first_or-All (λ z. nr ≢ z) ys 0 nz (All-map ys (λ x ne e. ne (sym e)) parts.1) in
      rw (link_before-eq t nr to (first_or ys 0) at_ne) (record {
        chain = paste t nr nz xs ys v.distinct apart v.chain;
        distinct = (
          (All-append_iff (λ z. z ≢ 0) xs (nr ∷ ys)).1 (zero.0, (nz, zero.1)),
          Distinct-insert xs ys nr parts.0 parts.1 v.distinct.1,
        );
        alone = alone-with;
        sorted = Sorted-insert t.timeout_of nr to xs ys v.sorted apart h k;
        bounded = (All-append_iff (λ x. update t.timeout_of nr to x ≤ never) xs (nr ∷ ys)).1 (
          All-map₂ xs (λ z p q. ground arith) le.0 parts.0,
          (ground arith, All-map₂ ys (λ z p q. ground arith) le.1 parts.1),
        );
        last = let l = v.last in ground (arith, l);
      })

timeout_of-cancel : (t : TimeoutList) (nr : ℕ) → (cancel t nr).1.timeout_of ≡ t.timeout_of
unfolding cancel
timeout_of-cancel t nr =
    if_intro (λ (r : Bool × TimeoutList). r.1.timeout_of ≡ t.timeout_of) (t.next nr == nr)
      (λ e. refl) (λ e. refl)

-- Searching a list that does not queue `nr` and linking `nr` in where the search stops.
Linked : TimeoutList → ℕ → ℕ → ℕ → List ℕ → (ℕ → ℕ) → Type 0
Linked t fuel nr to rest tm =
    (at : ℕ) × (seek fuel t to 0 ≡ some at)
    × Holds (link_before t nr to at) (enqueue tm nr to rest)
    × ((link_before t nr to at).timeout_of ≡ update tm nr to)

link_rest :
    (t : TimeoutList) (fuel nr to : ℕ) (rest : List ℕ)
    → nr ≢ 0
    → to ≤ never
    → length rest < fuel
    → Apart nr rest
    → Holds t rest
    → Linked t fuel nr to rest t.timeout_of
unfolding link_before Linked
link_rest t fuel nr to rest nz bound enough apart v =
    let r = seek-Stops t to nr fuel 0 rest v.chain v.sorted v.last bound enough in
    let a = subst (Apart nr) r.whole apart in
    let v' = subst (Holds t) r.whole v in
    let put = link_before-Holds t nr to nz r.xs r.ys v' a bound r.before r.after in
    (
      first_or r.ys 0,
      r.stop,
      subst (Holds (link_before t nr to (first_or r.ys 0))) (sym r.placed) put,
      refl,
    )

-- For a list that queues `qs`, a slot `nr` other than 0, a 64-bit timeout and more fuel than queued
-- entries: `request` ends, the list then queues the entry before the first other one that is not due
-- earlier, with the timeout asked for and all other timeouts as they were, and the result tells
-- whether the earliest timeout stayed the same.
pub request_refines :
    (fuel : ℕ) (t : TimeoutList) (nr to : ℕ) (qs : List ℕ)
    → nr ≢ 0
    → to ≤ never
    → length qs < fuel
    → Holds t qs
    → (t' : TimeoutList) × (request fuel t nr to ≡ some (timeout t' == timeout t, t'))
      × Holds t' (enqueue t.timeout_of nr to (without nr qs))
      × (t'.timeout_of ≡ update t.timeout_of nr to)
unfolding request Linked
request_refines fuel t nr to qs nz bound enough v =
    let t₁ = (cancel t nr).1 in
    let rest = without nr qs in
    let found =
      link_rest t₁ fuel nr to rest nz bound (omega (arith, length-without-le nr qs))
        (Apart-without nr qs v.distinct.1) (cancel_refines t nr qs nz v).1 in
    let (at, stop, holds, times) =
      subst (Linked t₁ fuel nr to rest) (timeout_of-cancel t nr) found in
    (link_before t₁ nr to at, rw (stop, request) refl, holds, times)

-- For a list that queues `qs`, `trigger` returns the first entry with its data once its timeout has
-- come, and no queued entry is due before it; with nothing due it returns 0.
pub trigger_refines :
    (t : TimeoutList) (now : ℕ) (q : ℕ) (qs : List ℕ)
    → Holds t (q ∷ qs)
    → (t.timeout_of q ≤ now → trigger t now ≡ (q, some (t.data_of q)))
      × (now < t.timeout_of q → trigger t now ≡ (0, none))
      × All (λ x. timeout t ≤ t.timeout_of x) (q ∷ qs)
unfolding trigger timeout
trigger_refines t now q qs v =
    let c = v.chain.0 in
    (
      λ h. rw c (ground arith),
      λ h. rw c (ground arith),
      subst (λ z. All (λ x. t.timeout_of z ≤ t.timeout_of x) (q ∷ qs)) (sym c)
          (omega arith, v.sorted.0),
    )
