-- ===== src/Child.antt =====
-- nre/include/subsystem/ChildMemory.h, with nre/include/mem/DataSpaceDesc.h and the sorted list of
-- nre/include/collection/SortedSList.h. The list of dataspaces is the list of their values in order;
-- a pointer into it is an index. The constants are those of the 64-bit architecture. A permission
-- field is the list of the pages' masks of four bits.
pub mod Listed
pub mod Space
pub mod Perms
mod Tests
use nre.Base.{
  ℕ, zero, suc, ◌+◌, ◌-◌, ◌*◌, ◌/◌, ◌%◌, ◌^◌, Bool, true, false, ◌&&◌, ◌||◌, not, Option, none,
  some, List, [], ◌∷◌, ◌++◌, replicate, bit_and, ltb, leb, ◌==◌, if◌then◌else◌, add64, sub64, not64,
  get_elem?, set, erase_at, length, min,
}
use nre.Math.{blockcount}

abbrev pub page_size : ℕ
page_size = 2 ^ 12

abbrev pub kernel_start : ℕ
kernel_start = 0x00007ffffffff000

pub data Backing : Type 0 where
  anonymous : Backing
  virtual : Backing
  locked : Backing

pub record DataSpaceDesc : Type 0 where
  pub virt : ℕ
  pub phys : ℕ
  pub origin : ℕ
  pub size : ℕ
  pub align : ℕ
  pub flags : ℕ
  pub backing : Backing

-- The constructor with all parameters but `align`.
pub make_desc : ℕ → Backing → ℕ → ℕ → ℕ → ℕ → DataSpaceDesc
make_desc size backing flags phys virt origin = record {
  virt = virt;
  phys = phys;
  origin = origin;
  size = size;
  align = 0;
  flags = flags;
  backing = backing;
}

-- `ChildMemory::OWN`
abbrev pub own : ℕ
own = 2 ^ 4

pub record Ds : Type 0 where
  pub desc : DataSpaceDesc
  pub cap : ℕ
  pub perms : List ℕ

-- The masks of so many pages, which `MaskField` does not initialise: `junk` is what the memory holds.
pub pages_of : ℕ → (ℕ → ℕ) → List ℕ
pages_of zero junk = []
pages_of (suc n) junk = junk n ∷ pages_of n junk

pub make_ds : (ℕ → ℕ) → DataSpaceDesc → ℕ → Ds
unfolding pages_of
make_ds junk desc cap = record {
  desc = desc;
  cap = cap;
  perms = pages_of (blockcount desc.size page_size) junk;
}

unfoldable pub origin_of : Ds → ℕ → ℕ
origin_of ds addr = add64 ds.desc.origin (sub64 addr ds.desc.virt)

-- `none` is a page outside the field.
unfoldable pub page_perms : Ds → ℕ → Option ℕ
page_perms ds addr = get_elem? ds.perms (sub64 addr ds.desc.virt / page_size)

-- The loop that sets `pages` pages from the page `o` on, with `i` pages set so far.
unfoldable pub set_from : ℕ → List ℕ → ℕ → ℕ → ℕ → Option (ℕ × List ℕ)
set_from zero field i o perms = some (i, field)
set_from (suc pages) field i o perms =
    let onwards = set_from pages (set field o (perms % 2 ^ 4)) (i + 1) (o + 1) perms in
    elim (get_elem? field o) [
      | none ↦ none
      | some old ↦ if old == perms then some (i, field) else onwards
    ]

unfoldable pub with_field : Ds → Option (ℕ × List ℕ) → Option (ℕ × Ds)
with_field ds none = none
with_field ds (some (n, field)) = some (n, record ds { perms = field })

-- the number of pages changed, and the new dataspace
unfoldable pub set_page_perms : Ds → ℕ → ℕ → ℕ → Option (ℕ × Ds)
unfolding set_from with_field
set_page_perms ds addr pages perms =
    let off = sub64 addr ds.desc.virt in
    let pages' = min pages (sub64 ds.desc.size off / page_size) in
    with_field ds (set_from pages' ds.perms 0 (off / page_size) perms)

unfoldable pub all_perms : Ds → ℕ → Ds
all_perms ds perms = record ds { perms = replicate (length ds.perms) (perms % 2 ^ 4) }

pub isless : Ds → Ds → Bool
isless a b = ltb a.desc.virt b.desc.virt

-- `SortedSList::insert`
pub insert : List Ds → Ds → List Ds
unfolding isless
insert [] e = e ∷ []
insert (d ∷ ds) e = if isless d e then d ∷ insert ds e else e ∷ d ∷ ds

-- the virtual memory in use and the physical memory acquired, with the sums so far
pub memusage_from : ℕ → ℕ → List Ds → ℕ × ℕ
memusage_from virt phys [] = (virt, phys)
memusage_from virt phys (d ∷ ds) =
    let backed : Bool = elim d.desc.backing [ virtual ↦ false | _ ↦ true ] in
    let phys' =
      if backed && not (bit_and d.desc.flags own == 0) then add64 phys d.desc.size else phys in
    memusage_from (add64 virt d.desc.size) phys' ds

pub memusage : List Ds → ℕ × ℕ
unfolding memusage_from
memusage list = memusage_from 0 0 list

unfoldable pub covers : ℕ → Ds → Bool
covers addr d = leb d.desc.virt addr && ltb addr (add64 d.desc.virt d.desc.size)

-- The loops of `find_by_addr` and `get`, from the index `i` on.
unfoldable pub index_of : (Ds → Bool) → ℕ → List Ds → Option ℕ
index_of test i [] = none
index_of test i (d ∷ ds) = if test d then some i else index_of test (i + 1) ds

unfoldable pub find_by_addr : List Ds → ℕ → Option ℕ
unfolding covers index_of
find_by_addr list addr = index_of (covers addr) 0 list

unfoldable pub find : List Ds → ℕ → Option ℕ
unfolding index_of
find list sel = index_of (λ d. d.cap == sel) 0 list

-- `_list.ctail()`
unfoldable pub last : List Ds → Option Ds
last [] = none
last (d ∷ []) = some d
last (d ∷ e ∷ ds) = last (e ∷ ds)

-- `_list.length() > 0 ? _list.ctail()->desc().virt() + _list.ctail()->desc().size() : 0`
unfoldable pub last_end : Option Ds → ℕ
last_end none = 0
last_end (some d) = add64 d.desc.virt d.desc.size

-- The end of the last dataspace, a page and the alignment after it.
unfoldable pub candidate : List Ds → ℕ → ℕ
unfolding last last_end
candidate list align =
    let e = last_end (last list) in
    let e' = bit_and (sub64 (add64 e (page_size * 2)) 1) (not64 (page_size - 1)) in
    bit_and (sub64 (add64 e' align) 1) (not64 (sub64 align 1))

-- `none` is the exception E_CAPACITY.
unfoldable pub find_free : List Ds → ℕ → ℕ → Option ℕ
unfolding candidate
find_free list size align =
    let e = candidate list align in
    if ltb (add64 e size) e || ltb kernel_start (add64 e size) then none else some e

pub add : (ℕ → ℕ) → List Ds → DataSpaceDesc → ℕ → ℕ → ℕ → List Ds
unfolding insert make_ds make_desc
add junk list desc addr flags sel =
    insert list (make_ds junk (make_desc desc.size desc.backing flags desc.phys addr desc.virt) sel)

-- The private `remove` of the dataspace at an index: the descriptor, the selector and the new list.
-- `none` is the exception E_NOT_FOUND.
unfoldable pub remove_at : List Ds → Option ℕ → Option (DataSpaceDesc × ℕ × List Ds)
remove_at list none = none
remove_at list (some i) = elim (get_elem? list i) [
  | none ↦ none
  | some d ↦ some (d.desc, d.cap, erase_at list i)
]

unfoldable pub remove : List Ds → ℕ → Option (DataSpaceDesc × ℕ × List Ds)
unfolding remove_at find
remove list sel = remove_at list (find list sel)

pub remove_by_addr : List Ds → ℕ → Option (DataSpaceDesc × ℕ × List Ds)
unfolding remove_at find_by_addr
remove_by_addr list addr = remove_at list (find_by_addr list addr)
