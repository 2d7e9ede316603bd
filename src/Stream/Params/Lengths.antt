-- ===== src/Stream/Params/Lengths.antt =====
-- Reading a format only takes characters off it.
use nre.Base.{
  ℕ, ◌-◌, ◌*◌, ◌≤◌, ◌≡◌, inl, inr, refl, arith, List, [], ◌∷◌, length, add32, Option-cases,
}
use nre.Stream.{Bytes, Flags}
use nre.Stream.Params.{
  Arg, flag_of, with_flag, tail_of, read_flags, read_number, read_width, read_prec, read_length,
  read_base, format_params, no_flags,
}

tail-le : (s : Bytes) → length (tail_of s) ≤ length s
tail-le [] = omega arith
tail-le (c ∷ s) = omega arith

flags-le : (s : Bytes) (flags : Flags) → length (read_flags s flags).1 ≤ length s
unfolding read_flags
flags-le [] flags = omega arith
flags-le (c ∷ s) flags = elim (Option-cases (flag_of c)) [
  | inl e ↦ rw (e, read_flags) (omega arith)
  | inr (f, e) ↦ rw (e, read_flags) (omega (arith, flags-le s (with_flag f flags)))
]

number-le : (s : Bytes) (n : ℕ) → length (read_number s n).1 ≤ length s
unfolding read_number
number-le [] n = omega arith
number-le (c ∷ s) n = ground (arith, number-le s (add32 (n * 10) (c - b'0')))

width-le : (s : Bytes) (args : List Arg) → length (read_width s args).1 ≤ length s
unfolding read_width
width-le s args = ground (arith, number-le s 0, tail-le s)

prec-le : (s : Bytes) (args : List Arg) → length (read_prec s args).1 ≤ length s
unfolding read_prec
prec-le s args = ground (arith, width-le (tail_of s) args, tail-le s)

kind-le : (s : Bytes) (flags : Flags) → length (read_length s flags).1 ≤ length s
unfolding read_length
kind-le s flags = ground (arith, tail-le s)

pub format_params-le :
    (fmt : Bytes) (args : List Arg) → length (format_params fmt args).0.rest ≤ length fmt
unfolding format_params
format_params-le fmt args =
    let (flags, s₁) = read_flags fmt no_flags in
    let (pad, s₂, args₂) = read_width s₁ args in
    let (prec, s₃, args₃) = read_prec s₂ args₂ in
    omega (arith, flags-le fmt no_flags, width-le s₁ args, prec-le s₂ args₂, kind-le s₃ flags)

pub format_params-nil : (args : List Arg) → (format_params [] args).0.rest ≡ []
unfolding format_params read_flags read_width read_number read_prec read_length read_base
format_params-nil args = refl
