-- ===== src/Child/Tests.antt =====
-- A child's memory at a concrete state.
use nre.Base.{ℕ, ◌+◌, ◌%◌, ◌^◌, ◌≤◌, ◌≡◌, refl, arith, some, List, [], ◌∷◌, All}
use nre.Child.{
  DataSpaceDesc, Ds, anonymous, page_size, kernel_start, last, last_end, candidate, find_free, add,
}
use nre.Child.Listed.{end_of, Ordered, Fits}
use nre.Child.Space.{Below, find_free-add}

abbrev space : ℕ → ℕ → ℕ → Ds
space virt size cap = record {
  desc = record {
    virt = virt;
    phys = 0;
    origin = 0x100000;
    size = size;
    align = 0;
    flags = 3;
    backing = anonymous;
  };
  cap = cap;
  perms = 1 ∷ 3 ∷ 3 ∷ [];
}

abbrev two : List Ds
two = space 0x1000 0x3000 0x21 ∷ space 0x8000 0x3000 0x22 ∷ []

two-Ordered : Ordered two
two-Ordered = ((omega arith, tt), (tt, tt))

two-Fits : All Fits two
two-Fits = ((omega arith, omega arith), ((omega arith, omega arith), tt))

find_free_runs : find_free two 0x2000 (2 ^ 14) ≡ some 0xc000
unfolding find_free candidate last last_end
find_free_runs = refl

find_free-add_example :
    (0xc000 % 2 ^ 14 ≡ 0)
    × All (λ d. end_of d + page_size ≤ 0xc000) two
    × (0xc000 + 0x2000 ≤ kernel_start)
    × ((junk : ℕ → ℕ) (desc : DataSpaceDesc) (flags sel : ℕ)
        → 1 ≤ desc.size
        → desc.size ≤ 0x2000
        → Ordered (add junk two desc 0xc000 flags sel)
          × All Below (add junk two desc 0xc000 flags sel))
find_free-add_example =
    find_free-add two 0x2000 14 0xc000 (omega arith) (omega arith)
      ((omega arith, omega arith), ((omega arith, omega arith), tt)) two-Ordered find_free_runs
