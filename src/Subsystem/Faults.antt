-- ===== src/Subsystem/Faults.antt =====
-- `Portals::pf`: a page fault of a child, with `limit_to` of nre/libs/libstdc++/cap/CapRange.cc.
pub mod Repeated
pub mod Safety
mod Tests
use nre.Base.{
  ℕ, zero, suc, ◌+◌, ◌-◌, ◌*◌, ◌/◌, ◌%◌, ◌^◌, Bool, true, false, ◌&&◌, ◌||◌, not, Option, none,
  some, List, [], ◌∷◌, get_elem?, set, bit_and, bit_or, ltb, leb, ◌==◌, if◌then◌else◌, add64, sub64,
  not64, min,
}
use nre.Child.{
  Ds, DataSpaceDesc, page_size, find_by_addr, page_perms, set_page_perms, all_perms, origin_of,
}
use nre.Math.{minshift}
use nre.Subsystem.{ChildState}

abbrev pub exit_start : ℕ
exit_start = 0x800

-- A fault: its address, the instruction, the error code and the processor.
pub record Fault : Type 0 where
  pub addr : ℕ
  pub eip : ℕ
  pub error : ℕ
  pub cpu : ℕ

-- The pages that are delegated.
pub record CapRange : Type 0 where
  pub start : ℕ
  pub count : ℕ
  pub perms : ℕ
  pub hotspot : ℕ

-- How the portal ends: the child exits, is killed, goes on with this state and perhaps more pages, or
-- the portal does what is not defined: it reads outside the permissions of the dataspace, or takes
-- the lowest one bit of 0.
pub data Reaction : Type 0 where
  exits : Reaction
  killed : Reaction
  resumes : ChildState → Option CapRange → Reaction
  undefined : Reaction

-- The loop of `limit_to`: the pages left when there are no items any more. The range has a hotspot and
-- at most 1024 pages, so that `1 << minshift`, which is computed in `int`, is below 2 ^ 11.
pub limit_from : ℕ → ℕ → ℕ → ℕ → Option ℕ
limit_from zero st hs c = some c
limit_from (suc free_typed) st hs c = if c == 0 then some c else elim (minshift (bit_or st hs) c) [
  | none ↦ none
  | some shift ↦
      limit_from free_typed (add64 st (2 ^ shift)) (add64 hs (2 ^ shift)) (sub64 c (2 ^ shift))
]

pub limit_to : ℕ → CapRange → Option CapRange
unfolding limit_from
limit_to free_typed cr = elim (limit_from free_typed cr.start cr.hotspot cr.count) [
  | none ↦ none
  | some c ↦ some (record cr { count = sub64 cr.count c })
]

abbrev pub page_of : ℕ → ℕ
page_of addr = bit_and addr (not64 (page_size - 1))

-- `DataSpaceDesc::BIGPAGES`
abbrev pub is_big : Ds → Bool
is_big ds = not (bit_and ds.desc.flags 8 == 0)

-- `ExecEnv::BIG_PAGE_SIZE`
abbrev pub big_page_size : ℕ
big_page_size = page_size * 1024

-- The page at which the mapping begins, and the pages that are tried.
pub first_page : Ds → ℕ → ℕ
first_page ds pfpage = if is_big ds then bit_and pfpage (not64 (big_page_size - 1)) else pfpage

abbrev pub rights_of : Ds → ℕ
rights_of ds = bit_and ds.desc.flags 7

pub wanted_range : Ds → ℕ → CapRange
unfolding first_page
wanted_range ds pfpage = record {
  start = origin_of ds (first_page ds pfpage) / page_size;
  count = if is_big ds then 1024 else 32;
  perms = rights_of ds;
  hotspot = first_page ds pfpage / page_size;
}

-- The part that maps the next pages of the dataspace with this index.
pub map_pages : ℕ → ChildState → ℕ → Ds → ℕ → Reaction
unfolding limit_to first_page wanted_range
map_pages free_typed c i ds pfpage = elim (limit_to free_typed (wanted_range ds pfpage)) [
  | none ↦ undefined
  | some cr ↦ elim (set_page_perms ds (first_page ds pfpage) cr.count (rights_of ds)) [
    | none ↦ undefined
    | some changed ↦
        resumes (record c { regs = set c.regs i changed.1 })
          (some (record cr { count = changed.0 }))
  ]
]

-- Whether the access rights of a mapped page are violated.
unfoldable pub violates : ℕ → ℕ → Bool
violates error perms =
    (not (bit_and error 2 == 0) && bit_and perms 2 == 0)
    || (not (bit_and error 4 == 0) && bit_and perms 1 == 0)

-- A fault in a dataspace that may be accessed; `is_null` is the kernel's answer whether a page of
-- this program is not mapped.
pub pf_ds : (ℕ → Bool) → ℕ → ChildState → Fault → ℕ → Ds → Reaction
unfolding violates map_pages
pf_ds is_null free_typed c f i ds =
    let pfpage = page_of f.addr in
    let unmapped = all_perms ds 0 in
    elim (page_perms ds f.addr) [
      | none ↦ undefined
      | some flags ↦
          if flags == 0
          then map_pages free_typed c i ds pfpage
          else if violates f.error (rights_of ds)
          then killed
          else if is_null (origin_of ds f.addr / page_size)
          then map_pages free_typed
              (record c { regs = set c.regs i unmapped; last_fault_addr = 0; last_fault_cpu = 0 }) i
              unmapped pfpage
          else if pfpage == c.last_fault_addr && f.cpu == c.last_fault_cpu
          then killed
          else resumes (record c { last_fault_addr = pfpage; last_fault_cpu = f.cpu }) none
    ]

-- `ExecEnv::THREAD_EXIT`
abbrev pub thread_exit : ℕ
thread_exit = exit_start + 0x20

pub pf : (ℕ → Bool) → ℕ → ChildState → Fault → Reaction
unfolding pf_ds
pf is_null free_typed c f =
    if f.addr == f.eip && leb exit_start f.addr && leb f.addr thread_exit
    then exits
    else elim (find_by_addr c.regs f.addr) [
      | none ↦ killed
      | some i ↦ elim (get_elem? c.regs i) [
        | none ↦ killed
        | some ds ↦ if ds.desc.flags == 0 then killed else pf_ds is_null free_typed c f i ds
      ]
    ]
