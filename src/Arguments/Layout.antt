-- ===== src/Arguments/Layout.antt =====
-- Where `prepare_stack` writes.
use nre.Base.{
  ℕ, ◌+◌, ◌-◌, ◌*◌, ◌/◌, ◌%◌, ◌≤◌, ◌<◌, ◌≡◌, refl, arith, List, [], ◌∷◌, length, min, All, word_mod,
  add64, sub64, not64, bit_and,
}
use nre.Math.Rounding.{round_up_lem, clear_low, mul-mod}
use nre.Arguments.{
  count_args, walk, bottom_of, ptrs_of, stored_from, prepare_stack, max_cmdline_len,
}
use nre.Arguments.Counts.{walk-length}

bottom_of_lem :
    (sp size : ℕ)
    → sp < word_mod
    → 272 ≤ sp
    → let n = min max_cmdline_len size + 1 in
      (bottom_of sp size + n ≤ sp) × (sp < bottom_of sp size + n + 8)
unfolding bottom_of
bottom_of_lem sp size h k =
    let up = round_up_lem 3 (min max_cmdline_len size + 1) (omega arith) (omega arith) in
    ground (arith, up)

ptrs_of_lem :
    (bottom argc : ℕ)
    → bottom < word_mod
    → 8 * (argc + 1) ≤ bottom
    → (ptrs_of bottom argc % 16 ≡ 0)
      × (ptrs_of bottom argc + 8 * (argc + 1) ≤ bottom)
      × (bottom < ptrs_of bottom argc + 8 * (argc + 1) + 16)
unfolding ptrs_of
ptrs_of_lem bottom argc h k =
    let x = sub64 bottom (8 * (argc + 1)) in
    let e : bit_and x (not64 0xf) ≡ x / 16 * 16 = clear_low 4 60 x refl (omega arith) in
    rw e (mul-mod (x / 16) 16 (omega arith), (omega arith), (omega arith))

-- An address at which a word is written: from `low` on and below `top`.
abbrev pub Within : ℕ → ℕ → ℕ × ℕ → Type 0
Within low top (a, value) = (low ≤ a) × (a + 8 ≤ top)

stored_from-Within :
    (csp bottom low top ptr : ℕ) (offsets : List ℕ)
    → top < word_mod
    → low ≤ ptr
    → ptr + 8 * (length offsets + 1) ≤ top
    → All (Within low top) (stored_from csp bottom ptr offsets)
unfolding stored_from
stored_from-Within csp bottom low top ptr [] h k l = ((k, omega (arith, l)), tt)
stored_from-Within csp bottom low top ptr (o ∷ offsets) h k l =
    let e : add64 ptr 8 ≡ ptr + 8 = omega (arith, h, l) in
    (
      (k, omega (arith, l)),
      rw e (
          stored_from-Within csp bottom low top (ptr + 8) offsets h (omega (arith, k))
            (omega (arith, l))),
    )

-- With room for 320 bytes and 8 for each argument below the stack pointer: the command line is copied
-- to below the stack pointer, the pointers begin at a multiple of 16, and all words are written from
-- the new stack pointer on and below the command line.
pub prepare_stack-Within :
    (sp csp size : ℕ) (mem : List ℕ)
    → sp < word_mod
    → 320 + 8 * count_args mem ≤ sp
    → let bottom = bottom_of sp size in
      let ptrs = ptrs_of bottom (count_args mem) in
      (bottom + (min max_cmdline_len size + 1) ≤ sp)
      × (ptrs % 16 ≡ 0)
      × All (Within (ptrs - 16) bottom) (prepare_stack sp csp size mem).words
unfolding prepare_stack
prepare_stack-Within sp csp size mem h k =
    let argc = count_args mem in
    let bottom = bottom_of sp size in
    let ptrs = ptrs_of bottom argc in
    let b = bottom_of_lem sp size h (omega (arith, k)) in
    let n : min max_cmdline_len size ≤ 256 = omega arith in
    let p = ptrs_of_lem bottom argc (omega (arith, b, h)) (omega (arith, b, k, n)) in
    let wide : 16 ≤ ptrs = omega (arith, b, p, k, n) in
    let top : bottom < word_mod = omega (arith, b, h) in
    let e8 : sub64 ptrs 8 ≡ ptrs - 8 = omega (arith, wide, p, top) in
    let e16 : sub64 ptrs 16 ≡ ptrs - 16 = omega (arith, wide, p, top) in
    (
      b.0,
      p.0,
      rw (e8, e16)
          (
            (omega (arith, wide), omega (arith, wide, p)),
            (
              (omega (arith, wide), omega (arith, wide, p)),
              stored_from-Within csp bottom (ptrs - 16) bottom ptrs (walk mem).0 top (omega arith)
                  (omega (arith, p, walk-length mem)),
            ),
          ),
    )
