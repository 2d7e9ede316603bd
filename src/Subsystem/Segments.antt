-- ===== src/Subsystem/Segments.antt =====
-- The part of `load` (nre/libs/libstdc++/subsystem/ChildManager.cc) that checks the headers of a
-- program and copies its segments. The headers are what the memory of the file holds.
pub mod Inside
mod Tests
use nre.Base.{
  ℕ, zero, suc, ◌+◌, ◌*◌, ◌/◌, ◌%◌, ◌^◌, Bool, not, Option, none, some, List, [], ◌∷◌, ltb, ◌==◌,
  if◌then◌else◌, bit_and, bit_or, add64, sub64,
}
use nre.Math.{round_up}
use nre.Child.{page_size, own}

-- `sizeof(ElfPh)`
abbrev pub header_size : ℕ
header_size = 56

pub record ElfPh : Type 0 where
  pub p_type : ℕ
  pub p_offset : ℕ
  pub p_vaddr : ℕ
  pub p_filesz : ℕ
  pub p_memsz : ℕ
  pub p_flags : ℕ

-- The file in memory: its address and size, and where its headers are.
pub record Elf : Type 0 where
  pub addr : ℕ
  pub size : ℕ
  pub e_phoff : ℕ
  pub e_phentsize : ℕ
  pub header : ℕ → ElfPh

-- A segment: the bytes that are copied to the beginning of its dataspace, the bytes behind them that
-- are set to zero, the size of the dataspace, and where the child sees it.
pub record Segment : Type 0 where
  pub from : ℕ
  pub copied : ℕ
  pub zeroed : ℕ
  pub space : ℕ
  pub virt : ℕ
  pub perms : ℕ

-- `PF_R`, `PF_W` and `PF_X` are 4, 2 and 1, and `ChildMemory::R`, `W` and `X` are 1, 2 and 4.
pub perms_of : ℕ → ℕ
perms_of flags =
    let r = if bit_and flags 4 == 0 then own else bit_or own 1 in
    let w = if bit_and flags 2 == 0 then r else bit_or r 2 in
    if bit_and flags 1 == 0 then w else bit_or w 4

pub segment_of : Elf → ElfPh → Segment
unfolding perms_of
segment_of elf ph = record {
  from = add64 elf.addr ph.p_offset;
  copied = ph.p_filesz;
  zeroed = sub64 ph.p_memsz ph.p_filesz;
  space = round_up ph.p_memsz page_size;
  virt = ph.p_vaddr;
  perms = perms_of ph.p_flags;
}

pub outside_binary : Elf → ℕ → Bool
outside_binary elf i =
    ltb (add64 elf.addr elf.size)
      (add64 (add64 (add64 elf.addr elf.e_phoff) (i * elf.e_phentsize)) header_size)

-- The loop over so many headers from the index `i` on; `none` is the exception E_ELF_INVALID.
pub load_segments : ℕ → ℕ → Elf → Option (List Segment)
unfolding outside_binary segment_of
load_segments zero i elf = some []
load_segments (suc left) i elf =
    let rest = load_segments left (suc i) elf in
    let ph = elf.header i in
    if outside_binary elf i
    then none
    else if not (ph.p_type == 1)
    then rest
    else if ltb elf.size (add64 ph.p_offset ph.p_filesz)
    then none
    else elim rest [ none ↦ none | some segments ↦ some (segment_of elf ph ∷ segments) ]
