-- ===== src/Arguments/Counts.antt =====
-- The number of arguments: the first loop against the second.
use nre.Base.{
  ℕ, zero, suc, ◌+◌, ◌≤◌, ◌<◌, ◌≡◌, ◌≢◌, refl, ap, ◌∙◌, arith, List, [], ◌∷◌, ◌++◌, append_assoc,
  map, length, ◌==◌, ltb, if◌then◌else◌, replicate, All,
}
use nre.Arguments.{
  max_cmdline_len, cmdline_copy, cmdline_copy_whole, space, count_args_from, count_args, walk_from,
  walk,
}
use nre.Arguments.Words.{
  IsWord, spaced, string_at, walk-spaced, walk_from-begin, walk_from-space, walk_from_end,
}

-- The number of arguments where the loops have seen some characters.
abbrev counted : ℕ × ℕ → ℕ
counted (i, argc) = if ltb 0 i then argc + 1 else argc

-- The second loop's `i` is 0 behind an argument, while the first loop's is not.
walk_from-length :
    (mem : List ℕ) (i j argc begin pos : ℕ)
    → (i ≡ 0 → j ≡ 0)
    → argc + length (walk_from j begin pos mem).0 ≤ counted (count_args_from i argc mem)
unfolding walk_from count_args_from
walk_from-length [] i j argc begin pos h = ground (arith, h)
walk_from-length (c ∷ mem) i j argc begin pos h = ground (
  arith,
  h,
  walk_from-length mem i 0 (argc + 1) begin (pos + 1) (λ e. refl),
  walk_from-length mem i j (argc + 1) begin (pos + 1) h,
  walk_from-length mem i j argc begin (pos + 1) h,
  walk_from-length mem (i + 1) (j + 1) argc (if j == 0 then pos else begin) (pos + 1)
      (λ e. absurd (omega (arith, e))),
)

-- For every command line: the second loop stores no more pointers than the first loop has counted,
-- so that they and the zero behind them fit into what was reserved.
pub walk-length : (mem : List ℕ) → length (walk mem).0 ≤ count_args mem
unfolding walk count_args
walk-length mem = omega (arith, walk_from-length mem 0 0 0 0 0 (λ e. refl))

-- The spaces of the string.
pub spaces : List ℕ → ℕ
spaces [] = 0
spaces (c ∷ mem) =
    let rest = spaces mem in if c == 0 then 0 else if c == space then rest + 1 else rest

count_args_from-spaces :
    (mem : List ℕ) (i argc : ℕ)
    → 0 < i
    → counted (count_args_from i argc mem) ≡ argc + 1 + spaces mem
unfolding count_args_from spaces
count_args_from-spaces [] i argc h = ground (arith, h)
count_args_from-spaces (c ∷ mem) i argc h = ground (
  arith,
  h,
  count_args_from-spaces mem i (argc + 1) h,
  count_args_from-spaces mem (i + 1) argc (omega (arith, h)),
)

-- The first loop counts all spaces behind the first character, also those that end no argument.
pub count_args-spaces :
    (c : ℕ) (mem : List ℕ) → c ≢ 0 → c ≢ space → count_args (c ∷ mem) ≡ 1 + spaces mem
unfolding count_args count_args_from
count_args-spaces c mem h k = ground (arith, h, k, count_args_from-spaces mem 1 0 (omega arith))

spaces_end : (rest : List ℕ) → spaces (0 ∷ rest) ≡ 0
unfolding spaces
spaces_end rest = refl

spaces_next : (rest : List ℕ) → spaces (space ∷ rest) ≡ spaces rest + 1
unfolding spaces
spaces_next rest = refl

spaces-word : (w mem : List ℕ) → All (λ c. (c ≢ 0) × (c ≢ space)) w → spaces (w ++ mem) ≡ spaces mem
unfolding spaces
spaces-word [] mem h = refl
spaces-word (c ∷ w) mem h = ground (arith, h, spaces-word w mem h.1)

spaces-spaced :
    (w : List ℕ) (ws : List (List ℕ)) (rest : List ℕ)
    → IsWord w
    → All IsWord ws
    → spaces (spaced w ws ++ (0 ∷ rest)) ≡ length ws
unfolding spaced
spaces-spaced w [] rest h k = spaces-word w (0 ∷ rest) h.1 ∙ spaces_end rest
spaces-spaced w (v ∷ ws) rest h k =
    let mem = spaced v ws ++ (0 ∷ rest) in
    ap spaces (append_assoc w (space ∷ spaced v ws) (0 ∷ rest))
    ∙ spaces-word w (space ∷ mem) h.1
    ∙ spaces_next mem
    ∙ ap (λ (n : ℕ). n + 1) (spaces-spaced v ws rest k.0 k.1)
    ∙ omega arith

count_args-word : (w mem : List ℕ) → IsWord w → count_args (w ++ mem) ≡ 1 + spaces mem
count_args-word [] mem h = absurd (h.0 refl)
count_args-word (c ∷ w) mem h =
    count_args-spaces c (w ++ mem) h.1.0.0 h.1.0.1 ∙ ap (λ (n : ℕ). 1 + n) (spaces-word w mem h.1.1)

count_args-spaced :
    (w : List ℕ) (ws : List (List ℕ)) (rest : List ℕ)
    → IsWord w
    → All IsWord ws
    → count_args (spaced w ws ++ (0 ∷ rest)) ≡ length (w ∷ ws)
unfolding spaced
count_args-spaced w [] rest h k =
    count_args-word w (0 ∷ rest) h ∙ ap (λ (n : ℕ). 1 + n) (spaces_end rest)
count_args-spaced w (v ∷ ws) rest h k =
    let mem = spaced v ws ++ (0 ∷ rest) in
    ap count_args (append_assoc w (space ∷ spaced v ws) (0 ∷ rest))
    ∙ count_args-word w (space ∷ mem) h
    ∙ omega (arith, spaces_next mem, spaces-spaced v ws rest k.0 k.1)

-- A command line of words with one space between each two, of at most 256 characters, so that it is
-- copied whole and with its zero: `argc` is the number of words, and the strings that `argv` points to
-- afterwards are the words, in their order.
pub argv_lem :
    (w : List ℕ) (ws : List (List ℕ)) (rest : List ℕ)
    → IsWord w
    → All IsWord ws
    → length (spaced w ws) ≤ max_cmdline_len
    → let mem = cmdline_copy (spaced w ws) ++ rest in
      (count_args mem ≡ length (w ∷ ws)) × (map (string_at (walk mem).1) (walk mem).0 ≡ w ∷ ws)
unfolding cmdline_copy
argv_lem w ws rest h k short =
    let whole = cmdline_copy_whole (spaced w ws) rest short in
    (
      ap count_args whole ∙ count_args-spaced w ws rest h k,
      ap (λ (mem : List ℕ). map (string_at (walk mem).1) (walk mem).0) whole
          ∙ walk-spaced w ws rest h k,
    )

spaces-replicate : (k : ℕ) (rest : List ℕ) → spaces (replicate k space ++ (0 ∷ rest)) ≡ k
unfolding spaces
spaces-replicate zero rest = refl
spaces-replicate (suc k) rest = ground (arith, spaces-replicate k rest)

walk_from-replicate :
    (k begin pos : ℕ) (rest : List ℕ)
    → (walk_from 0 begin pos (replicate k space ++ (0 ∷ rest))).0 ≡ []
unfolding walk_from
walk_from-replicate zero begin pos rest = refl
walk_from-replicate (suc k) begin pos rest =
    ground (arith, walk_from-replicate k begin (pos + 1) rest)

walk-replicate :
    (w : List ℕ) (k : ℕ) (rest : List ℕ)
    → IsWord w
    → (walk (w ++ (replicate k space ++ (0 ∷ rest)))).0 ≡ 0 ∷ []
unfolding walk
walk-replicate [] k rest h = absurd (h.0 refl)
walk-replicate (c ∷ w) zero rest h =
    ap (λ (r : List ℕ × List ℕ). r.0) (walk_from-begin c w (0 ∷ rest) 0 0 h.1)
    ∙ ap (λ (r : List ℕ × List ℕ). r.0)
        (walk_from_end rest (1 + length w) 0 (0 + 1 + length w) (omega arith))
walk-replicate (c ∷ w) (suc k) rest h =
    let mem = replicate k space ++ (0 ∷ rest) in
    ap (λ (r : List ℕ × List ℕ). r.0) (walk_from-begin c w (space ∷ mem) 0 0 h.1)
    ∙ ap (λ (r : List ℕ × List ℕ). r.0)
        (walk_from-space mem (1 + length w) 0 (0 + 1 + length w) (omega arith))
    ∙ ap (λ (l : List ℕ). 0 ∷ l) (walk_from-replicate k 0 (0 + 1 + length w + 1) rest)

-- A command line of one word with `k` spaces behind it: only one pointer is stored, to the word, but
-- `argc` is `k + 1`, so that the arguments behind the first have no pointer.
pub argc_wrong :
    (w : List ℕ) (k : ℕ) (rest : List ℕ)
    → IsWord w
    → let mem = w ++ (replicate k space ++ (0 ∷ rest)) in
      ((walk mem).0 ≡ 0 ∷ []) × (count_args mem ≡ k + 1)
argc_wrong w k rest h = (
  walk-replicate w k rest h,
  count_args-word w (replicate k space ++ (0 ∷ rest)) h ∙ omega (arith, spaces-replicate k rest),
)
