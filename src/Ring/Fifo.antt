-- ===== src/Ring/Fifo.antt =====
-- The ring buffer as a bounded queue.
use mathlib.Core.Path.{subst}
use native.Mathlib.Nat.{mod-eq_of_lt, mod_self, one-le-pow}
use nre.Base.{
  ℕ, suc, ◌+◌, ◌-◌, ◌^◌, ◌%◌, ◌<◌, ◌≡◌, ◌≢◌, refl, sym, ◌∙◌, ap, arith, Bool, true, false, List, [],
  ◌∷◌, ◌++◌, length, bit_and_low, add64, sub64, word_mod, inl, inr, ◌⊎◌, ltb, ◌==◌, if◌then◌else◌,
  update, none, some,
}
use nre.Ring.{
  Ring, next_pos, current, publish, write, produce, has_data, item, stopped, waits, get, release,
}

-- The position after `pos`, without the mask.
abbrev pub wrap : ℕ → ℕ → ℕ
wrap max pos = if pos + 1 == max then 0 else pos + 1

-- The items from position `r` on are `xs`.
abbrev pub Cells {ℓ} : {T : Type ℓ} → (ℕ → T) → ℕ → ℕ → List T → Type ℓ
Cells buf max r [] = Unit
Cells buf max r (x ∷ xs) = (buf r ≡ x) × Cells buf max (wrap max r) xs

-- The position `n` items after `r`.
abbrev pub ahead : ℕ → ℕ → ℕ → ℕ
ahead max r n = if ltb (r + n) max then r + n else r + n - max

-- The ring of length `max` holds the queue `xs`; one slot stays empty.
pub record Holds {ℓ} {T : Type ℓ} (max : ℕ) (r : Ring T) (xs : List T) : Type ℓ where
  pub reads : r.rpos < max
  pub room : length xs < max
  pub stands : r.wpos ≡ ahead max r.rpos (length xs)
  pub cells : Cells r.buffer max r.rpos xs

-- The sizes that a ring buffer in a dataspace can have.
pub record IsSize (k max : ℕ) : Type 0 where
  pub power : max ≡ 2 ^ k
  pub word : max < word_mod

pub next_pos-wrap : (k max pos : ℕ) → IsSize k max → pos < max → next_pos max pos ≡ wrap max pos
unfolding next_pos
next_pos-wrap k max pos s h =
    let e = s.power in
    let w = s.word in
    let a : add64 pos 1 ≡ pos + 1 = omega arith in
    let b : sub64 max 1 ≡ max - 1 = omega (arith, one-le-pow k 2) in
    let next_mod : (pos + 1 < 2 ^ k) → (pos + 1) % 2 ^ k ≡ pos + 1 = λ l. mod-eq_of_lt l in
    let h' : pos < 2 ^ k = omega (arith, e) in
    rw (a, b) (rw e (ground (arith, bit_and_low k (pos + 1), mod_self (2 ^ k), next_mod)))

-- Writing behind the items keeps them, and the item written is the next one.
Cells-write {ℓ} :
    {T : Type ℓ} (buf : ℕ → T) (max r : ℕ) (xs : List T) (v : T)
    → r < max
    → length xs < max
    → Cells buf max r xs
    → Cells (update buf (ahead max r (length xs)) v) max r xs
Cells-write buf max r [] v h k c = tt
Cells-write buf max r (x ∷ xs) v h k c =
    let moved : ahead max r (suc (length xs)) ≡ ahead max (wrap max r) (length xs) = ground arith in
    let other : r ≢ ahead max r (suc (length xs)) = λ e. ground arith in
    (
      ground (arith, c.0),
      subst (λ p. Cells (update buf p v) max (wrap max r) xs) (sym moved)
          (Cells-write buf max (wrap max r) xs v (ground arith) (omega arith) c.1),
    )

Cells-snoc {ℓ} :
    {T : Type ℓ} (buf : ℕ → T) (max r : ℕ) (xs : List T)
    → r < max
    → length xs < max
    → Cells buf max r xs
    → Cells buf max r (xs ++ buf (ahead max r (length xs)) ∷ [])
Cells-snoc buf max r [] h k c = let e : ahead max r 0 ≡ r = ground arith in (ap buf (sym e), tt)
Cells-snoc buf max r (x ∷ xs) h k c =
    let moved : ahead max r (suc (length xs)) ≡ ahead max (wrap max r) (length xs) = ground arith in
    (
      c.0,
      subst (λ p. Cells buf max (wrap max r) (xs ++ buf p ∷ [])) (sym moved)
          (Cells-snoc buf max (wrap max r) xs (ground arith) (omega arith) c.1),
    )

length-snoc {ℓ} : {T : Type ℓ} (xs : List T) (v : T) → length (xs ++ v ∷ []) ≡ suc (length xs)
length-snoc [] v = refl
length-snoc (x ∷ xs) v = ap suc (length-snoc xs v)

pub write-Holds {ℓ} :
    {T : Type ℓ} (max : ℕ) (r : Ring T) (xs : List T) (v : T)
    → Holds max r xs
    → Holds max (write r r.wpos v) xs
unfolding write
write-Holds max r xs v h = record {
  reads = h.reads;
  room = h.room;
  stands = h.stands;
  cells = rw h.stands (Cells-write r.buffer max r.rpos xs v h.reads h.room h.cells);
}

written {ℓ} :
    {T : Type ℓ} (r : Ring T) (v : T) → (write r r.wpos v).buffer (write r r.wpos v).wpos ≡ v
unfolding write
written r v = ground arith

module _ {ℓ} {T : Type ℓ} (k max : ℕ) (s : IsSize k max) where
  -- The producer sees a full ring exactly if the queue holds `max - 1` items.
  pub current-cases :
      (r : Ring T) (xs : List T)
      → Holds max r xs
      → current max r ≡ (if length xs + 1 == max then none else some r.wpos)
  unfolding current
  current-cases r xs v =
      let reads = v.reads in
      let room = v.room in
      let stands = v.stands in rw (next_pos-wrap k max r.wpos s (ground arith)) (ground arith)

  pub publish-Holds :
      (r : Ring T) (xs : List T)
      → Holds max r xs
      → length xs + 1 < max
      → Holds max (publish max r) (xs ++ r.buffer r.wpos ∷ [])
  unfolding publish
  publish-Holds r xs h lt =
      let reads = h.reads in
      let stands = h.stands in
      let next = next_pos-wrap k max r.wpos s (ground arith) in
      record {
        reads = h.reads;
        room = rw (length-snoc xs (r.buffer r.wpos)) (omega arith);
        stands = rw (length-snoc xs (r.buffer r.wpos), next) (ground arith);
        cells = rw stands (Cells-snoc r.buffer max r.rpos xs h.reads h.room h.cells);
      }

  pub release-Holds :
      (r : Ring T) (x : T) (xs : List T) → Holds max r (x ∷ xs) → Holds max (release max r) xs
  unfolding release
  release-Holds r x xs h =
      let reads = h.reads in
      let room = h.room in
      let stands = h.stands in
      let next = next_pos-wrap k max r.rpos s h.reads in
      record {
        reads = rw next (ground arith);
        room = omega arith;
        stands = rw next (ground arith);
        cells = rw next h.cells.1;
      }

  -- For a ring whose length is a power of two and that holds the queue `xs`: with `max - 1` items in
  -- it, `produce` does not wait for a free slot, but returns false and changes nothing; with fewer, it
  -- returns true and the item stands behind the others.
  pub produce_refines :
      (r : Ring T) (xs : List T) (v : T)
      → Holds max r xs
      → (length xs + 1 ≡ max → produce max r v ≡ (false, r))
        × (length xs + 1 < max
            → ((produce max r v).0 ≡ true) × Holds max (produce max r v).1 (xs ++ v ∷ []))
  unfolding produce
  produce_refines r xs v h =
      let put = write-Holds max r xs v h in
      (
        λ e.
            let full : current max r ≡ none = current-cases r xs h ∙ ground arith in
            rw (full, produce) refl,
        λ lt.
            let free : current max r ≡ some r.wpos = current-cases r xs h ∙ ground arith in
            rw (free, produce)
              (
                refl,
                subst (λ z. Holds max (publish max (write r r.wpos v)) (xs ++ z ∷ [])) (written r v)
                    (publish-Holds (write r r.wpos v) xs put lt),
              ),
      )

  -- For a ring whose length is a power of two: if it holds no item, `get` waits, or returns null
  -- once stopped, and `has_data` is false; otherwise `get` returns the first item, and after
  -- `next` the ring holds the others.
  pub get_refines :
      (r : Ring T) (xs : List T) (stop : Bool)
      → Holds max r xs
      → ((xs ≡ []) × (get stop r ≡ (if stop then stopped else waits)) × (has_data r ≡ false))
        ⊎ ((x : T) × (ys : List T) × (xs ≡ x ∷ ys)
            × (get stop r ≡ item x)
            × (has_data r ≡ true)
            × Holds max (release max r) ys)
  unfolding get has_data
  get_refines r [] stop h =
      let reads = h.reads in
      let stands = h.stands in
      let same : (r.rpos == r.wpos) ≡ true = ground arith in inl (refl, rw same refl, rw same refl)
  get_refines r (x ∷ xs) stop h =
      let reads = h.reads in
      let room = h.room in
      let stands = h.stands in
      let other : (r.rpos == r.wpos) ≡ false = ground arith in
      inr (x, xs, refl, rw other (ap item h.cells.0), rw other refl, release-Holds r x xs h)
