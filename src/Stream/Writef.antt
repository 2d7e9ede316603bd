-- ===== src/Stream/Writef.antt =====
-- `OStream::vwritef`. A floating point argument is printed by `dbl`, a parameter: the model has no
-- floating point numbers.
pub mod Ends
use nre.Base.{
  ℕ, zero, suc, ◌+◌, ◌-◌, ◌%◌, ◌^◌, Bool, true, false, ◌||◌, Option, none, some, List, [], ◌∷◌,
  ◌++◌, leb, ◌==◌, if◌then◌else◌, word_mod, u32_mod, add32, add64,
}
use nre.Stream.{Bytes, Flags, andthen, printnpad, printupad, putspad, printptr}
use nre.Stream.Params.{Arg, Params, as_number, as_text, next_arg, format_params}

-- How a call ends: with the count it returns and what it wrote; behind the end of the format, which
-- it goes on to read; or, in the model only, without fuel.
pub data Outcome : Type 0 where
  finished : ℕ × Bytes → Outcome
  overrun : ℕ × Bytes → Outcome
  out_of_fuel : Outcome

-- An `int` as a `llong`
abbrev pub extended : ℕ → ℕ
extended n =
    if leb (2 ^ 31) (n % u32_mod) then add64 (n % u32_mod) (word_mod - u32_mod) else n % u32_mod

pub signed_arg : Flags → ℕ → ℕ
signed_arg flags n =
    if flags.longlong || flags.long || flags.size_t || flags.intptr_t
    then n % word_mod
    else extended n

pub unsigned_arg : Flags → ℕ → ℕ
unsigned_arg flags n =
    if flags.longlong || flags.long || flags.size_t || flags.intptr_t
    then n % word_mod
    else n % u32_mod

module _ (dbl : ℕ → Params → ℕ × Bytes) where
  -- What the type `c` writes, with the arguments left.
  pub convert : ℕ → Params → List Arg → (ℕ × Bytes) × List Arg
  unfolding signed_arg unsigned_arg
  convert c p args =
      let (a, rest) = next_arg args in
      let n = as_number a in
      if c == b'd' || c == b'i'
      then (printnpad (signed_arg p.flags n) p.pad p.flags, rest)
      else if c == b'p'
      then (printptr (n % word_mod) p.flags, rest)
      else if c == b'b' || c == b'u' || c == b'o' || c == b'x' || c == b'X'
      then (printupad (unsigned_arg p.flags n) p.base p.pad p.flags, rest)
      else if c == b'f'
      then (dbl n p, rest)
      else if c == b's'
      then (putspad (as_text a) p.pad p.prec p.flags, rest)
      else if c == b'c'
      then ((1, n % 256 ∷ []), rest)
      else ((1, c ∷ []), args)

  -- One character outside a `%`, or one format, for each unit of fuel; `done` is the count and the
  -- text so far.
  pub vwritef_from : ℕ → Bytes → List Arg → ℕ × Bytes → Outcome
  unfolding convert
  vwritef_from zero fmt args done = out_of_fuel
  vwritef_from (suc fuel) [] args done = finished (done.0, done.1 ++ 0 ∷ [])
  vwritef_from (suc fuel) (c ∷ s) args done =
      let plain = vwritef_from fuel s args (andthen done (1, c ∷ [])) in
      let (p, args') = format_params s args in
      let format : Outcome = elim p.rest [
        | [] ↦ overrun (andthen done (1, 0 ∷ []))
        | d ∷ s' ↦
            let (out, args'') = convert d p args' in vwritef_from fuel s' args'' (andthen done out)
      ] in
      if c == b'%' then format else plain

  pub vwritef : ℕ → Bytes → List Arg → Outcome
  unfolding vwritef_from
  vwritef fuel fmt args = vwritef_from fuel fmt args (0, [])
