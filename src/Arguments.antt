-- ===== src/Arguments.antt =====
-- nre/libs/libstdc++/subsystem/ChildManager.cc: `prepare_stack`, which puts the command line of a child
-- on its stack and makes `argc` and `argv` of it. The memory from `bottom` on is a list of characters,
-- with the zero behind the command line and what is on the stack behind it; a pointer into it is an
-- offset from `bottom`.
pub mod Words
pub mod Counts
pub mod Layout
mod Tests
use nre.Base.{
  ℕ, zero, suc, ◌+◌, ◌-◌, ◌*◌, ◌^◌, Bool, true, false, ◌&&◌, not, List, [], ◌∷◌, ◌++◌, length, ◌==◌,
  ltb, if◌then◌else◌, min, ◌≤◌, ◌≡◌, refl, ap, ◌∙◌, append_assoc, arith, add64, sub64, not64,
  bit_and, set,
}
use nre.Math.{round_up}

abbrev pub space : ℕ
space = 0x20

abbrev pub max_cmdline_len : ℕ
max_cmdline_len = 256

first_chars : ℕ → List ℕ → List ℕ
first_chars zero mem = []
first_chars (suc n) [] = []
first_chars (suc n) (c ∷ mem) = c ∷ first_chars n mem

-- What the `memcpy` of a command line leaves at `bottom`: one character more than it counts, which is
-- the zero behind the command line only if the whole of it is copied.
unfoldable pub cmdline_copy : List ℕ → List ℕ
unfolding first_chars
cmdline_copy cmdline = first_chars (min max_cmdline_len (length cmdline) + 1) (cmdline ++ (0 ∷ []))

first_chars-all :
    (cmdline : List ℕ)
    → first_chars (length cmdline + 1) (cmdline ++ (0 ∷ [])) ≡ cmdline ++ (0 ∷ [])
unfolding first_chars
first_chars-all [] = refl
first_chars-all (c ∷ cmdline) =
    let size : suc (length cmdline) + 1 ≡ suc (length cmdline + 1) = omega arith in
    rw size (ap (λ (l : List ℕ). c ∷ l) (first_chars-all cmdline))

-- A command line of at most 256 characters is copied with its zero.
pub cmdline_copy_whole :
    (cmdline rest : List ℕ)
    → length cmdline ≤ max_cmdline_len
    → cmdline_copy cmdline ++ rest ≡ cmdline ++ (0 ∷ rest)
unfolding cmdline_copy
cmdline_copy_whole cmdline rest h =
    let size : min max_cmdline_len (length cmdline) ≡ length cmdline = omega (arith, h) in
    rw (size, cmdline_copy)
      (ap (λ (l : List ℕ). l ++ rest) (first_chars-all cmdline)
        ∙ append_assoc cmdline (0 ∷ []) rest)

-- The first loop: `i` and `argc` at its end.
pub count_args_from : ℕ → ℕ → List ℕ → ℕ × ℕ
count_args_from i argc [] = (i, argc)
count_args_from i argc (c ∷ mem) =
    let behind = count_args_from i (argc + 1) mem in
    let inside = count_args_from (i + 1) argc mem in
    let before = count_args_from i argc mem in
    if c == 0
    then (i, argc)
    else if c == space && ltb 0 i
    then behind
    else if not (c == space)
    then inside
    else before

pub count_args : List ℕ → ℕ
unfolding count_args_from
count_args mem = let (i, argc) = count_args_from 0 0 mem in if ltb 0 i then argc + 1 else argc

-- The second loop, at the offset `pos`: the pointers that it stores, and the memory afterwards.
pub walk_from : ℕ → ℕ → ℕ → List ℕ → List ℕ × List ℕ
walk_from i begin pos [] = ((if ltb 0 i then begin ∷ [] else []), [])
walk_from i begin pos (c ∷ mem) =
    let (ended, mem₁) = walk_from 0 begin (pos + 1) mem in
    let (inside, mem₂) = walk_from (i + 1) (if i == 0 then pos else begin) (pos + 1) mem in
    let (before, mem₃) = walk_from i begin (pos + 1) mem in
    if c == 0
    then ((if ltb 0 i then begin ∷ [] else []), c ∷ mem)
    else if c == space && ltb 0 i
    then (begin ∷ ended, 0 ∷ mem₁)
    else if not (c == space)
    then (inside, c ∷ mem₂)
    else (before, c ∷ mem₃)

pub walk : List ℕ → List ℕ × List ℕ
unfolding walk_from
walk mem = walk_from 0 0 0 mem

-- The command line that is copied, and the address that it is copied to.
pub bottom_of : ℕ → ℕ → ℕ
bottom_of sp size = sub64 sp (round_up (min max_cmdline_len size + 1) 8)

-- `ptrs`, below `bottom`
pub ptrs_of : ℕ → ℕ → ℕ
ptrs_of bottom argc = bit_and (sub64 bottom (8 * (argc + 1))) (not64 0xf)

-- an address in the child's stack
pub in_child : ℕ → ℕ → ℕ
in_child csp addr = add64 csp (bit_and addr (2 ^ 13 - 1))

-- The words that are stored, with their addresses, and the child's stack pointer: `argv`, `argc`, and
-- from `ptrs` on the pointers to the arguments and a zero.
pub stored_from : ℕ → ℕ → ℕ → List ℕ → List (ℕ × ℕ)
unfolding in_child
stored_from csp bottom ptr [] = (ptr, 0) ∷ []
stored_from csp bottom ptr (offset ∷ offsets) =
    (ptr, in_child csp (add64 bottom offset)) ∷ stored_from csp bottom (add64 ptr 8) offsets

pub record Prepared : Type 0 where
  pub sp : ℕ
  pub text : List ℕ
  pub words : List (ℕ × ℕ)

-- `size` is the length of the command line, and `mem` the memory from `bottom` on after the copy.
pub prepare_stack : ℕ → ℕ → ℕ → List ℕ → Prepared
unfolding bottom_of ptrs_of count_args walk in_child stored_from
prepare_stack sp csp size mem =
    let bottom = bottom_of sp size in
    let argc = count_args mem in
    let ptrs = ptrs_of bottom argc in
    let (offsets, text) = walk mem in
    record {
      sp = in_child csp (sub64 ptrs 16);
      text = text;
      words =
          (sub64 ptrs 8, in_child csp ptrs)
          ∷ (sub64 ptrs 16, argc)
          ∷ stored_from csp bottom ptrs offsets;
    }
