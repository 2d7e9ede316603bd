-- ===== src/Region/Scan.antt =====
-- What the loop of `free` finds.
use nre.Base.{
  ℕ, suc, ◌+◌, ◌≡◌, refl, arith, List, [], ◌∷◌, none, some, get_elem?, add64, ◌==◌, is_some,
  if_intro, if◌then◌else◌, ==_iff, ◌&&◌,
}
use nre.Region.{Region, Ptr, scan}

-- The pointer is null, or its index holds its region, and the region has the property.
abbrev pub Points : List Region → (Region → Type 0) → Ptr → Type 0
Points regs Q none = Unit {0}
Points regs Q (some (i, r)) = (get_elem? regs i ≡ some r) × Q r

abbrev pub Ends : ℕ → Region → Type 0
Ends start r = add64 r.addr r.size ≡ start

abbrev pub Begins : ℕ → ℕ → Region → Type 0
Begins start count r = r.addr ≡ add64 start count

scan-Points :
    (regs : List Region) (i : ℕ) (rs : List Region) (start count : ℕ) (p n : Ptr)
    → ((j : ℕ) → get_elem? regs (i + j) ≡ get_elem? rs j)
    → Points regs (Ends start) p
    → Points regs (Begins start count) n
    → Points regs (Ends start) (scan i rs start count p n).0
      × Points regs (Begins start count) (scan i rs start count p n).1
unfolding scan
scan-Points regs i [] start count p n agree hp hn = (hp, hn)
scan-Points regs i (r ∷ rs) start count p n agree hp hn =
    if_intro (λ (q : Ptr × Ptr). Points regs Q q.0 × Points regs R q.1) (is_some n' && is_some p')
      (λ e. (hp', hn')) (λ e. scan-Points regs (i + 1) rs start count p' n' agree' hp' hn')
  where
    Q : Region → Type 0
    Q = Ends start

    R : Region → Type 0
    R = Begins start count

    p' : Ptr
    p' = if add64 r.addr r.size == start then some (i, r) else p

    n' : Ptr
    n' =
        if add64 r.addr r.size == start
        then n
        else if r.addr == add64 start count
        then some (i, r)
        else n

    here : get_elem? regs i ≡ some r
    here = let e : i + 0 ≡ i = omega arith in rw (← e) (agree 0)

    agree' : (j : ℕ) → get_elem? regs (i + 1 + j) ≡ get_elem? rs j
    agree' j = let e : i + 1 + j ≡ i + suc j = omega arith in rw e (agree (suc j))

    hp' : Points regs Q p'
    hp' =
        if_intro (Points regs Q) (add64 r.addr r.size == start) (λ e. (here, (==_iff _ start).0 e))
          (λ e. hp)

    hn' : Points regs R n'
    hn' =
        if_intro (Points regs R) (add64 r.addr r.size == start) (λ e. hn)
          (λ e.
            if_intro (Points regs R) (r.addr == add64 start count) (λ e'. (here, (==_iff _ _).0 e'))
              (λ e'. hn))

-- The pointers that `free` works with: `p` points to a region of the list that ends at `start`, and
-- `n` to one that begins at `start + count`.
pub scan_lem :
    (regs : List Region) (start count : ℕ)
    → Points regs (Ends start) (scan 0 regs start count none none).0
      × Points regs (Begins start count) (scan 0 regs start count none none).1
scan_lem regs start count =
    scan-Points regs 0 regs start count none none
      (λ j. let e : 0 + j ≡ j = omega arith in rw e refl) tt tt
