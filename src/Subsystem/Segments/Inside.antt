-- ===== src/Subsystem/Segments/Inside.antt =====
-- Where the segments of a program lie.
use nre.Base.{
  ℕ, zero, suc, ◌+◌, ◌%◌, ◌^◌, ◌≤◌, ◌<◌, ◌≡◌, refl, arith, Bool, true, false, not, Option, none,
  some, List, [], ◌∷◌, ltb, ◌==◌, if◌then◌else◌, add64, All,
}
use mathlib.Core.Option.{some-injective}
use mathlib.Core.Path.{subst}
use nre.Math.Rounding.{round_up_lem}
use nre.Child.{page_size}
use nre.Subsystem.Segments.{ElfPh, Elf, Segment, segment_of, outside_binary, load_segments}

-- A header of which the source relies on that its file has no more bytes than its memory, and that its
-- numbers do not pass the end of the address space.
abbrev pub IsSane : ElfPh → Type 0
IsSane ph =
    (ph.p_filesz ≤ ph.p_memsz)
    × (ph.p_offset + ph.p_filesz < 2 ^ 64)
    × (ph.p_memsz + page_size ≤ 2 ^ 64)

-- The copied bytes are in the file, and they and the zeroed ones in the dataspace, which is whole pages.
abbrev pub Within : Elf → Segment → Type 0
Within elf s =
    (elf.addr ≤ s.from)
    × (s.from + s.copied ≤ elf.addr + elf.size)
    × (s.copied + s.zeroed ≤ s.space)
    × (s.space % page_size ≡ 0)

segment_of-Within :
    (elf : Elf) (ph : ElfPh)
    → elf.addr + elf.size < 2 ^ 64
    → IsSane ph
    → add64 ph.p_offset ph.p_filesz ≤ elf.size
    → Within elf (segment_of elf ph)
unfolding segment_of
segment_of-Within elf ph ends (less, fits, room) inside =
    let (whole, above, below) = round_up_lem 12 ph.p_memsz (omega arith) (omega (arith, room)) in
    (
      omega (arith, ends, fits, inside),
      omega (arith, ends, fits, inside),
      omega (arith, less, above, room),
      whole,
    )

if-Within :
    (b : Bool) (elf : Elf) (r s : Option (List Segment)) (segments : List Segment)
    → (if b then r else s) ≡ some segments
    → (b ≡ true → r ≡ some segments → All (Within elf) segments)
    → (b ≡ false → s ≡ some segments → All (Within elf) segments)
    → All (Within elf) segments
if-Within true elf r s segments e f g = f refl e
if-Within false elf r s segments e f g = g refl e

cons-Within :
    (rest : Option (List Segment)) (elf : Elf) (s : Segment) (segments : List Segment)
    → (elim rest [ none ↦ none | some l ↦ some (s ∷ l) ]) ≡ some segments
    → Within elf s
    → ((l : List Segment) → rest ≡ some l → All (Within elf) l)
    → All (Within elf) segments
cons-Within none elf s segments e first others = absurd (ground (arith, e))
cons-Within (some l) elf s segments e first others =
    subst (All (Within elf)) (some-injective _ _ e) (first, others l refl)

-- A file below 2 ^ 64 whose headers have no more bytes in the file than in memory, and numbers that
-- do not pass 2 ^ 64: if `load` takes it, then every segment is copied from within the file to within
-- its dataspace, and the bytes that are set to zero are in it as well.
pub load_segments-Within :
    (left i : ℕ) (elf : Elf) (segments : List Segment)
    → elf.addr + elf.size < 2 ^ 64
    → ((j : ℕ) → j < i + left → IsSane (elf.header j))
    → load_segments left i elf ≡ some segments
    → All (Within elf) segments
unfolding load_segments
load_segments-Within zero i elf segments ends sane e =
    subst (All (Within elf)) (some-injective _ _ e) tt
load_segments-Within (suc left) i elf segments ends sane e =
    let ph = elf.header i in
    if-Within (outside_binary elf i) elf _ _ segments e (λ _ f. absurd (ground (arith, f)))
      (λ _ f.
        if-Within (not (ph.p_type == 1)) elf _ _ segments f
          (λ _ g.
            load_segments-Within left (suc i) elf segments ends (λ j l. sane j (omega (arith, l)))
              g)
          (λ _ g.
            if-Within (ltb elf.size (add64 ph.p_offset ph.p_filesz)) elf _ _ segments g
              (λ _ h. absurd (ground (arith, h)))
              (λ n h.
                cons-Within (load_segments left (suc i) elf) elf (segment_of elf ph) segments h
                  (segment_of-Within elf ph ends (sane i (omega arith)) (ground (arith, n)))
                  (λ l k.
                    load_segments-Within left (suc i) elf l ends (λ j o. sane j (omega (arith, o)))
                      k))))

-- A file below 2 ^ 64 with one header, of a segment of less than 2 ^ 63 bytes within the file, with
-- more bytes in the file than in memory, with a page to spare: `load` takes it, and copies more bytes
-- than the dataspace has; and so many bytes are set to zero behind them that the number passes the
-- half of the address space.
pub load_segments-overflow :
    (elf : Elf)
    → elf.addr + elf.size < 2 ^ 64
    → elf.addr + elf.e_phoff + 56 ≤ elf.addr + elf.size
    → (elf.header 0).p_type ≡ 1
    → (elf.header 0).p_offset + (elf.header 0).p_filesz ≤ elf.size
    → (elf.header 0).p_memsz + page_size ≤ (elf.header 0).p_filesz
    → (elf.header 0).p_filesz < 2 ^ 63
    → (s : Segment) × (load_segments 1 0 elf ≡ some (s ∷ []))
      × (s.space < s.copied)
      × (2 ^ 63 < s.zeroed)
unfolding load_segments outside_binary segment_of
load_segments-overflow elf ends head load inside more half =
    let ph = elf.header 0 in
    let reads : outside_binary elf 0 ≡ false = ground (arith, ends, head) in
    let accepts : ltb elf.size (add64 ph.p_offset ph.p_filesz) ≡ false =
      ground (arith, inside, ends) in
    let loads : not (ph.p_type == 1) ≡ false = ground (arith, load) in
    let (whole, above, below) =
      round_up_lem 12 ph.p_memsz (omega arith) (omega (arith, more, half)) in
    (
      segment_of elf ph,
      rw (reads, load_segments) (rw loads (rw accepts refl)),
      omega (arith, below, more),
      omega (arith, more, half),
    )
