-- ===== src/Region.antt =====
-- nre/include/region/RegionManager.h. The intrusive list `_regs` is the list of its regions in
-- order; a pointer into it is an index, `append` adds at the end, and `remove_reg` takes an index
-- out. Addresses and sizes are 64-bit words.
pub mod Sum
pub mod Scan
pub mod Free
pub mod Alloc
pub mod AllocAt
pub mod Skips
mod Tests
use nre.Base.{
  ℕ, zero, suc, ◌+◌, Bool, true, false, ◌&&◌, ◌||◌, not, Option, none, some, List, [], ◌∷◌, ◌++◌,
  ltb, leb, ◌==◌, if◌then◌else◌, add64, sub64, is_some, get_elem?, set, erase_at,
}
use nre.Math.{round_up, overlapped}

pub record Region : Type 0 where
  pub addr : ℕ
  pub size : ℕ

total_from : ℕ → List Region → ℕ
total_from s [] = s
total_from s (r ∷ rs) = total_from (add64 s r.size) rs

unfoldable pub total_count : List Region → ℕ
unfolding total_from
total_count regs = total_from 0 regs

-- The two tests that `get` makes of a region.
pub accepts : ℕ → ℕ → Region → Bool
accepts count align r =
    let start = round_up r.addr align in
    leb count r.size && leb count (sub64 r.size (sub64 start r.addr))

-- The index and the region that `get` returns a pointer to; the search is at the index `i`.
pub get_from : ℕ → List Region → ℕ → ℕ → Option (ℕ × Region)
get_from i [] count align = none
get_from i (r ∷ rs) count align =
    if accepts count align r then some (i, r) else get_from (i + 1) rs count align

-- What the function returns and the new list.
pub remove_from : List Region → ℕ → Region → ℕ → ℕ → ℕ × List Region
remove_from regs i r start count =
    let stop = add64 start count in
    let r_stop = add64 r.addr r.size in
    if leb start r.addr && leb r_stop stop
    then (r.size, erase_at regs i)
    else if leb start r.addr
    then (count, set regs i (record { addr = stop; size = sub64 r.size (sub64 stop r.addr) }))
    else if leb r_stop stop
    then (count, set regs i (record r { size = sub64 start r.addr }))
    else (
      count,
      set regs i (record r { size = sub64 start r.addr })
          ++ record { addr = stop; size = sub64 r_stop stop } ∷ [],
    )

-- How `alloc_at` ends: with the units removed and the new list, with the exception E_EXISTS (the
-- list is unchanged then), with a dereference of the null pointer, or, in the model only, when the
-- fuel is used up.
pub data Outcome : Type 0 where
  removed : ℕ → List Region → Outcome
  exists_error : Outcome
  null_fault : Outcome
  out_of_fuel : Outcome

-- `it = _regs.begin()` and then `++it` of the loop head
pub after_begin : List Region → Option ℕ
after_begin [] = none
after_begin (r ∷ rs) = some 1

-- The loop at the list index `i`, with `total` removed so far.
pub alloc_at_loop : ℕ → List Region → ℕ → ℕ → ℕ → Bool → ℕ → Outcome
alloc_at_loop zero regs i start count free_required total = out_of_fuel
alloc_at_loop (suc fuel) regs i start count free_required total = elim (get_elem? regs i) [
  | none ↦ removed total regs
  | some r ↦
      let onwards = alloc_at_loop fuel regs (i + 1) start count free_required total in
      let taken = remove_from regs i r start count in
      let total' = add64 total taken.0 in
      let restart : Outcome = elim (after_begin taken.1) [
        | none ↦ null_fault
        | some j ↦ alloc_at_loop fuel taken.1 j start count free_required total'
      ] in
      if overlapped start count r.addr r.size
      then (if free_required
            && not (leb r.addr start && leb (add64 start count) (add64 r.addr r.size))
          then exists_error
          else if free_required
          then removed total' taken.1
          else restart)
      else onwards
]

unfoldable pub alloc_at : ℕ → List Region → ℕ → ℕ → Bool → Outcome
alloc_at fuel regs start count free_required = alloc_at_loop fuel regs 0 start count free_required 0

-- The part of `alloc` after `get`, for the aligned address `start` in the region.
pub take_at : List Region → ℕ → Region → ℕ → ℕ → ℕ × List Region
take_at regs i r count start =
    let count' = add64 count (sub64 start r.addr) in
    let r' : Region = record { addr = add64 r.addr count'; size = sub64 r.size count' } in
    let before : Region = record { addr = r.addr; size = sub64 start r.addr } in
    if ltb r.addr start
    then (if ltb 0 r'.size
        then (start, set regs i r' ++ before ∷ [])
        else (start, if before.size == 0 then erase_at regs i else set regs i before))
    else (start, if r'.size == 0 then erase_at regs i else set regs i r')

-- `none` is the exception E_CAPACITY.
unfoldable pub alloc : List Region → ℕ → ℕ → Option (ℕ × List Region)
alloc regs count align = elim (get_from 0 regs count align) [
  | none ↦ none
  | some (i, r) ↦ some (take_at regs i r count (round_up r.addr align))
]

-- A pointer to a region of the list: its index, and the region that stands there.
abbrev pub Ptr : Type 0
Ptr = Option (ℕ × Region)

-- The loop of `free`: the region that ends at `start` (`p`) and the one that begins at
-- `start + count` (`n`), as they stand when the loop ends.
pub scan : ℕ → List Region → ℕ → ℕ → Ptr → Ptr → Ptr × Ptr
scan i [] start count p n = (p, n)
scan i (r ∷ rs) start count p n =
    let ends = add64 r.addr r.size == start in
    let begins = r.addr == add64 start count in
    let p' = if ends then some (i, r) else p in
    let n' = if ends then n else if begins then some (i, r) else n in
    let rest = scan (i + 1) rs start count p' n' in
    if is_some n' && is_some p' then (p', n') else rest

-- The update that `free` makes for the two pointers.
pub merge : List Region → ℕ → ℕ → Ptr × Ptr → List Region
merge regs start count (some (i, p), some (j, n)) =
    erase_at (set regs i (record p { size = add64 p.size (add64 count n.size) })) j
merge regs start count (none, some (j, n)) =
    set regs j (record { addr = sub64 n.addr count; size = add64 n.size count })
merge regs start count (some (i, p), none) = set regs i (record p { size = add64 p.size count })
merge regs start count (none, none) = regs ++ record { addr = start; size = count } ∷ []

unfoldable pub free : List Region → ℕ → ℕ → List Region
unfolding merge
free regs start count = merge regs start count (scan 0 regs start count none none)
