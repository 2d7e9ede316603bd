-- ===== src/Region/Free.antt =====
-- `free` adds exactly the units of its range.
use mathlib.Core.Option.{some-injective}
use nre.Base.{
  ℕ, ◌+◌, ◌<◌, ◌≡◌, ◌≢◌, sym, ◌∙◌, ap, arith, List, [], ◌∷◌, refl, none, some, get_elem?, set,
  get_elem?-set_ne, word_mod, add64, sub64, All, All-get,
}
use nre.Region.{Region, Ptr, scan, merge, free, total_count}
use nre.Region.Scan.{Points, Ends, Begins, scan_lem}
use nre.Region.Sum.{
  IsAdditive, sum, sum-set, sum-erase_at, sum-snoc, cover, holds, holds-IsAdditive, total_count-sum,
  units, units-IsAdditive,
}

-- The range ends below the end of the address space.
abbrev pub Fits : Region → Type 0
Fits r = r.addr + r.size < word_mod

-- A region that ends where the range begins is no region that begins where it ends.
apart :
    (regs : List Region) (start count i j : ℕ) (p n : Region)
    → 0 < count
    → get_elem? regs i ≡ some p
    → get_elem? regs j ≡ some n
    → p.addr + p.size ≡ start
    → n.addr ≡ start + count
    → i ≡ j
    → ⊥
apart regs start count i j p n pos hp hn a b ij =
    let same : some p ≡ some n = sym hp ∙ ap (get_elem? regs) ij ∙ hn in
    let e = ap (λ (r : Region). r.addr) (some-injective p n same) in omega arith

module _ (w : ℕ → ℕ → ℕ) (ad : IsAdditive w) (regs : List Region) (start count : ℕ) where
  sum-merge :
      (p n : Ptr)
      → All Fits regs
      → start + count < word_mod
      → 0 < count
      → Points regs (Ends start) p
      → Points regs (Begins start count) n
      → sum w (merge regs start count (p, n)) ≡ sum w regs + w start count
  unfolding merge
  sum-merge none none fits range pos hp hn = sum-snoc w regs (record { addr = start; size = count })
  sum-merge (some (i, p)) none fits range pos hp hn =
      let fp = All-get Fits regs i fits hp.0 in
      let e : add64 p.size count ≡ p.size + count = omega arith in
      let f : p.addr + p.size ≡ start = omega arith in
      rw e (
        omega (
          arith,
          sum-set w regs i p (record p { size = p.size + count }) hp.0,
          ad.split p.addr p.size count,
          ap (λ (a : ℕ). w a count) f,
        ))
  sum-merge none (some (j, n)) fits range pos hp hn =
      let fn = All-get Fits regs j fits hn.0 in
      let b : n.addr ≡ start + count = omega arith in
      let e : sub64 n.addr count ≡ start = omega arith in
      let f : add64 n.size count ≡ count + n.size = omega arith in
      rw (e, f)
        (omega (
          arith,
          sum-set w regs j n (record { addr = start; size = count + n.size }) hn.0,
          ad.split start count n.size,
          ap (λ (a : ℕ). w a n.size) b,
        ))
  sum-merge (some (i, p)) (some (j, n)) fits range pos hp hn =
      let fp = All-get Fits regs i fits hp.0 in
      let fn = All-get Fits regs j fits hn.0 in
      let a : p.addr + p.size ≡ start = omega arith in
      let b : n.addr ≡ start + count = omega arith in
      let ne : i ≢ j = λ ij. apart regs start count i j p n pos hp.0 hn.0 a b ij in
      let e : add64 p.size (add64 count n.size) ≡ p.size + (count + n.size) = omega arith in
      let v : Region = record p { size = p.size + (count + n.size) } in
      rw e (
        omega (
          arith,
          sum-set w regs i p v hp.0,
          sum-erase_at w (set regs i v) j n (get_elem?-set_ne regs v ne ∙ hn.0),
          ad.split p.addr p.size (count + n.size),
          ad.split start count n.size,
          ap (λ (x : ℕ). w x (count + n.size)) a,
          ap (λ (x : ℕ). w x n.size) b,
        ))

  -- `free` adds to the sum the weight of the freed range.
  pub sum-free :
      All Fits regs
      → start + count < word_mod
      → 0 < count
      → sum w (free regs start count) ≡ sum w regs + w start count
  unfolding free
  sum-free fits range pos =
      let found = scan_lem regs start count in
      sum-merge (scan 0 regs start count none none).0 (scan 0 regs start count none none).1 fits
        range pos found.0 found.1

-- For a list whose regions and a nonempty freed range end below the end of the address space:
-- after `free` every address is held by as many regions as before, and by one more if it lies in the
-- freed range.
pub cover-free :
    (regs : List Region) (start count a : ℕ)
    → All Fits regs
    → start + count < word_mod
    → 0 < count
    → cover (free regs start count) a ≡ cover regs a + holds a start count
unfolding cover
cover-free regs start count a = sum-free (holds a) (holds-IsAdditive a) regs start count

-- Under the same conditions, and if the units stay a word, `total_count` grows by the freed units.
pub total_count-free :
    (regs : List Region) (start count : ℕ)
    → All Fits regs
    → start + count < word_mod
    → 0 < count
    → sum units regs + count < word_mod
    → total_count (free regs start count) ≡ total_count regs + count
total_count-free regs start count fits range pos small = omega (
  arith,
  sum-free units units-IsAdditive regs start count fits range pos,
  total_count-sum regs,
  total_count-sum (free regs start count),
)

pub free_empty :
    (start count : ℕ) → free [] start count ≡ record { addr = start; size = count } ∷ []
unfolding free merge scan
free_empty start count = refl
