-- ===== src/Subsystem/Segments/Tests.antt =====
-- A file with one header.
use nre.Base.{ℕ, ◌^◌, ◌<◌, ◌≡◌, refl, arith, some, [], ◌∷◌, All}
use nre.Math.{round_up}
use nre.Subsystem.Segments.{Elf, Segment, segment_of, outside_binary, load_segments, perms_of}
use nre.Subsystem.Segments.Inside.{Within, load_segments-Within, load_segments-overflow}

abbrev file : ℕ → Elf
file memsz = record {
  addr = 0x40000;
  size = 0x4000;
  e_phoff = 64;
  e_phentsize = 56;
  header = λ i. record {
    p_type = 1;
    p_offset = 0x1000;
    p_vaddr = 0x400000;
    p_filesz = 0x2200;
    p_memsz = memsz;
    p_flags = 5;
  };
}

abbrev loaded : Segment
loaded = record {
  from = 0x41000;
  copied = 0x2200;
  zeroed = 0x300;
  space = 0x3000;
  virt = 0x400000;
  perms = 0x15;
}

load_run : load_segments 1 0 (file 0x2500) ≡ some (loaded ∷ [])
unfolding load_segments outside_binary segment_of perms_of round_up
load_run = refl

load_segments-Within_example : All (Within (file 0x2500)) (loaded ∷ [])
load_segments-Within_example =
    load_segments-Within 1 0 (file 0x2500) (loaded ∷ []) (omega arith)
      (λ j h. (omega arith, omega arith, omega arith)) load_run

load_segments-overflow_example :
    (s : Segment) × (load_segments 1 0 (file 0x1000) ≡ some (s ∷ []))
    × (s.space < s.copied)
    × (2 ^ 63 < s.zeroed)
load_segments-overflow_example =
    load_segments-overflow (file 0x1000) (omega arith) (omega arith) refl (omega arith)
      (omega arith) (omega arith)
