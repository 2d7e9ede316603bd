-- ===== src/Arguments/Tests.antt =====
-- Command lines at concrete values.
use nre.Base.{ℕ, ◌≡◌, ◌≤◌, refl, arith, List, [], ◌∷◌, ◌++◌, map, length}
use nre.Arguments.{max_cmdline_len, cmdline_copy, count_args, count_args_from, walk, walk_from}
use nre.Arguments.Words.{IsWord, spaced, string_at}
use nre.Arguments.Counts.{argv_lem}

abbrev ls : List ℕ
ls = 0x6c ∷ 0x73 ∷ []

abbrev dot : List ℕ
dot = 0x2e ∷ []

ls-IsWord : IsWord ls
ls-IsWord = (
  (λ e. ground (arith, e)),
  (
    ((λ e. omega (arith, e)), (λ e. omega (arith, e))),
    (((λ e. omega (arith, e)), (λ e. omega (arith, e))), tt),
  ),
)

dot-IsWord : IsWord dot
dot-IsWord = ((λ e. ground (arith, e)), (((λ e. omega (arith, e)), (λ e. omega (arith, e))), tt))

walk_runs : (walk (0x20 ∷ 0x6c ∷ 0x20 ∷ 0x20 ∷ 0x73 ∷ 0 ∷ [])).0 ≡ 1 ∷ 4 ∷ []
unfolding walk walk_from
walk_runs = refl

count_args_runs : count_args (0x20 ∷ 0x6c ∷ 0x20 ∷ 0x20 ∷ 0x73 ∷ 0 ∷ []) ≡ 3
unfolding count_args count_args_from
count_args_runs = refl

short : length (spaced ls (dot ∷ [])) ≤ max_cmdline_len
unfolding spaced
short = omega arith

argv_lem_example :
    let mem = cmdline_copy (spaced ls (dot ∷ [])) ++ (7 ∷ []) in
    (count_args mem ≡ length (ls ∷ dot ∷ []))
    × (map (string_at (walk mem).1) (walk mem).0 ≡ ls ∷ dot ∷ [])
argv_lem_example = argv_lem ls (dot ∷ []) (7 ∷ []) ls-IsWord (dot-IsWord, tt) short
