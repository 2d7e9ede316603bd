-- ===== src/Region/Alloc.antt =====
-- `alloc` takes an aligned range out of a region, and fails only where no region has one.
use mathlib.Core.Option.{some-injective}
use nre.Base.{
  ℕ, suc, true, false, ◌+◌, ◌-◌, ◌%◌, ◌^◌, ◌≤◌, ◌<◌, ◌≡◌, inl, inr, refl, sym, arith, Bool-cases,
  List, [], ◌∷◌, none, some, get_elem?, set, word_mod, add64, sub64, All, All-get, Option-cases,
}
use nre.Math.{round_up}
use nre.Math.Rounding.{round_up_lem}
use nre.Region.{Region, accepts, get_from, take_at, alloc}
use nre.Region.Free.{Fits}
use nre.Region.Sum.{
  IsAdditive, weight_zero, weight_parts, sum, sum-set, sum-erase_at, sum-snoc, cover, holds,
  holds-IsAdditive,
}

-- `get` stops at a region of the list that passes its test.
get_from-some :
    (regs : List Region) (i : ℕ) (rs : List Region) (count align j : ℕ) (r : Region)
    → ((k : ℕ) → get_elem? regs (i + k) ≡ get_elem? rs k)
    → get_from i rs count align ≡ some (j, r)
    → (get_elem? regs j ≡ some r) × (accepts count align r ≡ true)
unfolding get_from
get_from-some regs i [] count align j r agree e = cc
get_from-some regs i (x ∷ rs) count align j r agree e = elim (Bool-cases (accepts count align x)) [
  | inl yes_e ↦ ground (arith, here)
  | inr no_e ↦ get_from-some regs (i + 1) rs count align j r agree' (ground arith)
]
  where
    here : get_elem? regs i ≡ some x
    here = let e : i + 0 ≡ i = omega arith in rw (← e) (agree 0)

    agree' : (j : ℕ) → get_elem? regs (i + 1 + j) ≡ get_elem? rs j
    agree' j = let e : i + 1 + j ≡ i + suc j = omega arith in rw e (agree (suc j))

-- It fails only if no region passes.
get_from-none :
    (i : ℕ) (rs : List Region) (count align : ℕ)
    → get_from i rs count align ≡ none
    → All (λ r. accepts count align r ≡ false) rs
unfolding get_from
get_from-none i [] count align e = tt
get_from-none i (x ∷ rs) count align e =
    (ground arith, get_from-none (i + 1) rs count align (ground arith))

-- A region in which rounding the address up stays within 2 ^ 64, and within the region if it
-- has as many units as are asked for.
abbrev pub HasRoom : ℕ → ℕ → Region → Type 0
HasRoom count k r =
    (r.addr + 2 ^ k ≤ word_mod) × (count ≤ r.size → round_up r.addr (2 ^ k) ≤ r.addr + r.size)

module _ (w : ℕ → ℕ → ℕ) (ad : IsAdditive w) (regs : List Region) (i : ℕ) (r : Region) (count s : ℕ)
    (at : get_elem? regs i ≡ some r) (fits : Fits r) (above : r.addr ≤ s)
    (inside : s + count ≤ r.addr + r.size) where
  pub sum-take_at :
      sum w (take_at regs i r count s).1 + w (take_at regs i r count s).0 count ≡ sum w regs
  unfolding take_at
  sum-take_at =
      let gap : sub64 s r.addr ≡ s - r.addr = omega arith in
      let cnt : add64 count (s - r.addr) ≡ s + count - r.addr = omega arith in
      let nxt : add64 r.addr (s + count - r.addr) ≡ s + count = omega arith in
      let rem : sub64 r.size (s + count - r.addr) ≡ r.addr + r.size - (s + count) = omega arith in
      rw (gap, cnt, nxt, rem)
        (ground (
          arith,
          weight_parts w ad r.addr r.size s count above inside,
          sum-set w regs i r (record { addr = s + count; size = r.addr + r.size - (s + count) }) at,
          sum-set w regs i r (record { addr = r.addr; size = s - r.addr }) at,
          sum-erase_at w regs i r at,
          sum-snoc w
              (set regs i (record { addr = s + count; size = r.addr + r.size - (s + count) }))
              (record { addr = r.addr; size = s - r.addr }),
          weight_zero w ad (s + count),
          weight_zero w ad r.addr,
        ))

accepts_inside :
    (count k : ℕ) (r : Region)
    → k ≤ 64
    → Fits r
    → HasRoom count k r
    → accepts count (2 ^ k) r ≡ true
    → (r.addr ≤ round_up r.addr (2 ^ k)) × (round_up r.addr (2 ^ k) + count ≤ r.addr + r.size)
unfolding accepts
accepts_inside count k r hk fits room acc = ground (arith, round_up_lem k r.addr hk room.0, room.1)

-- A successful `alloc` takes its range out of some region `r` of the list.
pub record Took (regs : List Region) (count k : ℕ) (out : ℕ × List Region) : Type 0 where
  pub index : ℕ
  pub region : Region
  pub found : get_elem? regs index ≡ some region
  pub result : out ≡ take_at regs index region count (round_up region.addr (2 ^ k))
  pub passes : accepts count (2 ^ k) region ≡ true

alloc-Took :
    (regs : List Region) (count k : ℕ) (out : ℕ × List Region)
    → alloc regs count (2 ^ k) ≡ some out
    → Took regs count k out
unfolding alloc
alloc-Took regs count k out e = elim (Option-cases (get_from 0 regs count (2 ^ k))) [
  | inl none_e ↦ absurd (cc (rw (none_e, alloc) at e))
  | inr (x, some_e) ↦
      let stops =
        get_from-some regs 0 regs count (2 ^ k) x.0 x.1
          (λ j. let e : 0 + j ≡ j = omega arith in rw e refl) some_e in
      record {
        index = x.0;
        region = x.1;
        found = stops.0;
        result = sym (some-injective _ _ (rw (some_e, alloc) at e));
        passes = stops.1;
      }
]

start-take_at :
    (regs : List Region) (i : ℕ) (r : Region) (count s : ℕ) → (take_at regs i r count s).0 ≡ s
unfolding take_at
start-take_at regs i r count s = ground arith

-- For an alignment 2 ^ k and a list whose regions end below the end of the address space and are
-- not left by rounding up (`HasRoom`): what `alloc` returns is a multiple of the alignment, and
-- afterwards every address is held by as many regions as before, less one if it lies in the
-- allocated range; so the range was free throughout.
pub cover-alloc :
    (regs : List Region) (count k : ℕ) (out : ℕ × List Region)
    → k ≤ 64
    → All Fits regs
    → All (HasRoom count k) regs
    → alloc regs count (2 ^ k) ≡ some out
    → (out.0 % 2 ^ k ≡ 0) × ((a : ℕ) → cover out.1 a + holds a out.0 count ≡ cover regs a)
unfolding cover
cover-alloc regs count k out hk fits room done =
    let t = alloc-Took regs count k out done in
    let r_fits = All-get Fits regs t.index fits t.found in
    let r_room = All-get (HasRoom count k) regs t.index room t.found in
    let within = accepts_inside count k t.region hk r_fits r_room t.passes in
    let start = start-take_at regs t.index t.region count (round_up t.region.addr (2 ^ k)) in
    (
      rw (t.result, start) (round_up_lem k t.region.addr hk r_room.0).0,
      λ a. rw t.result (
          sum-take_at (holds a) (holds-IsAdditive a) regs t.index t.region count
            (round_up t.region.addr (2 ^ k)) t.found r_fits within.0 within.1),
    )

refused :
    (count k : ℕ) (r : Region)
    → k ≤ 64
    → Fits r
    → HasRoom count k r
    → accepts count (2 ^ k) r ≡ false
    → r.addr + r.size < round_up r.addr (2 ^ k) + count
unfolding accepts
refused count k r hk fits room n = ground (arith, round_up_lem k r.addr hk room.0, room.1)

All-refused :
    (count k : ℕ) (rs : List Region)
    → k ≤ 64
    → All Fits rs
    → All (HasRoom count k) rs
    → All (λ r. accepts count (2 ^ k) r ≡ false) rs
    → All (λ r. r.addr + r.size < round_up r.addr (2 ^ k) + count) rs
All-refused count k [] hk f h n = tt
All-refused count k (r ∷ rs) hk f h n =
    (refused count k r hk f.0 h.0 n.0, All-refused count k rs hk f.1 h.1 n.1)

-- Under the same conditions `alloc` fails only if in every region fewer units than asked for lie
-- at or above its aligned address.
pub alloc-none :
    (regs : List Region) (count k : ℕ)
    → k ≤ 64
    → All Fits regs
    → All (HasRoom count k) regs
    → alloc regs count (2 ^ k) ≡ none
    → All (λ r. r.addr + r.size < round_up r.addr (2 ^ k) + count) regs
unfolding alloc
alloc-none regs count k hk fits room failed = elim (Option-cases (get_from 0 regs count (2 ^ k))) [
  | inl none_e ↦ All-refused count k regs hk fits room (get_from-none 0 regs count (2 ^ k) none_e)
  | inr (x, some_e) ↦ absurd (cc (rw (some_e, alloc) at failed))
]

wrap_accepts :
    (r : Region) (count k : ℕ)
    → k < 64
    → Fits r
    → r.addr + 2 ^ k + count ≤ word_mod
    → count ≤ r.size
    → r.addr + r.size < round_up r.addr (2 ^ k)
    → accepts count (2 ^ k) r ≡ true
unfolding accepts
wrap_accepts r count k hk fits bound enough left = ground (arith, round_up_lem k r.addr)

-- The first region has at least `count` units, but rounding its address up leaves it (by less than
-- 2 ^ 64 - `count`): `alloc` then returns an address behind the region, since the difference of
-- sizes in `get` wraps.
pub alloc_outside :
    (r : Region) (rs : List Region) (count k : ℕ)
    → k < 64
    → Fits r
    → r.addr + 2 ^ k + count ≤ word_mod
    → count ≤ r.size
    → r.addr + r.size < round_up r.addr (2 ^ k)
    → (regs' : List Region) × (alloc (r ∷ rs) count (2 ^ k) ≡ some (round_up r.addr (2 ^ k), regs'))
unfolding alloc get_from
alloc_outside r rs count k hk fits bound enough left = (
  (take_at (r ∷ rs) 0 r count (round_up r.addr (2 ^ k))).1,
  rw (wrap_accepts r count k hk fits bound enough left, alloc)
      (ground (arith, start-take_at (r ∷ rs) 0 r count (round_up r.addr (2 ^ k)))),
)
