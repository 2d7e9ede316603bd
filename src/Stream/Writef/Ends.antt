-- ===== src/Stream/Writef/Ends.antt =====
-- `writef` ends: every round takes characters off the format.
use mathlib.Core.Path.{subst}
use nre.Base.{
  ℕ, zero, suc, ◌≤◌, ◌<◌, ◌≡◌, ◌≢◌, ◌⊎◌, inl, inr, refl, arith, List, [], ◌∷◌, length, ◌==◌,
  if_intro,
}
use nre.Stream.{Bytes, andthen}
use nre.Stream.Params.{Arg, Params, format_params}
use nre.Stream.Params.Lengths.{format_params-le}
use nre.Stream.Writef.{out_of_fuel, vwritef_from, vwritef}

Bytes-cases : (s : Bytes) → (s ≡ []) ⊎ ((d : ℕ) × (t : Bytes) × (s ≡ d ∷ t))
Bytes-cases [] = inl refl
Bytes-cases (d ∷ t) = inr (d, t, refl)

from_ends :
    (dbl : ℕ → Params → ℕ × Bytes) (fuel : ℕ) (fmt : Bytes) (args : List Arg) (done : ℕ × Bytes)
    → length fmt < fuel
    → vwritef_from dbl fuel fmt args done ≢ out_of_fuel
unfolding vwritef_from
from_ends dbl zero fmt args done h = absurd (omega arith)
from_ends dbl (suc fuel) [] args done h = λ e. cc
from_ends dbl (suc fuel) (c ∷ s) args done h =
    if_intro (λ o. o ≢ out_of_fuel) (c == b'%')
      (λ percent. elim (Bytes-cases (format_params s args).0.rest) [
        | inl none_left ↦ rw none_left (λ e. cc)
        | inr (d, t, more) ↦
            let le = format_params-le s args in
            let shorter : suc (length t) ≤ length s = subst (λ z. length z ≤ length s) more le in
            rw more (from_ends dbl fuel t _ _ (omega arith))
      ])
      (λ plain. from_ends dbl fuel s args (andthen done (1, c ∷ [])) (omega arith))

-- `writef` ends on every format and all arguments, whatever prints the floating point numbers: with
-- more fuel than the format has characters, it returns or goes on behind the end of the format.
pub vwritef_ends :
    (dbl : ℕ → Params → ℕ × Bytes) (fuel : ℕ) (fmt : Bytes) (args : List Arg)
    → length fmt < fuel
    → vwritef dbl fuel fmt args ≢ out_of_fuel
unfolding vwritef
vwritef_ends dbl fuel fmt args h = from_ends dbl fuel fmt args (0, []) h
