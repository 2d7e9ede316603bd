-- ===== src/Stream/Params/Reading.antt =====
-- The width of a format is read back from its decimal print.
use native.Mathlib.Nat.{pow-suc}
use nre.Base.{
  ℕ, zero, suc, ◌+◌, ◌-◌, ◌*◌, ◌/◌, ◌%◌, ◌^◌, ◌≤◌, ◌<◌, ◌≡◌, refl, ap, ◌∙◌, arith, true, false,
  ◌&&◌, none, List, [], ◌∷◌, ◌++◌, leb, ◌==◌, u32_mod, add32, All, All-append_iff, if_intro,
  failures, no_failure, ==_iff,
}
use nre.Stream.{Bytes, hexchars_small, char_at, print_digits, printu, max_digits}
use nre.Stream.Numbers.{spells, digit_of, small, printu-spells}
use nre.Stream.Params.{
  Arg, flag_of, read_flags, read_number, is_digit, read_width, format_params, no_flags,
}

abbrev pub IsDigit : ℕ → Type 0
IsDigit c = (b'0' ≤ c) × (c ≤ b'9')

-- The text begins with no digit.
abbrev pub Stops : Bytes → Type 0
Stops [] = Unit
Stops (c ∷ s) = ¬ IsDigit c

-- Numbers only grow while they are read.
spells-ge : (s : Bytes) (v : ℕ) → v ≤ spells 10 v s
spells-ge [] v = omega arith
spells-ge (c ∷ s) v = omega (arith, spells-ge s (v * 10 + digit_of c))

-- Reading digits is spelling them, as long as the number is a `uint`.
read_number-spells :
    (s rest : Bytes) (v : ℕ)
    → All IsDigit s
    → Stops rest
    → spells 10 v s < u32_mod
    → read_number (s ++ rest) v ≡ (spells 10 v s, rest)
unfolding read_number is_digit
read_number-spells [] [] v d e h = refl
read_number-spells [] (c ∷ rest) v d e h = ground arith
read_number-spells (c ∷ s) rest v d e h =
    let grows = spells-ge s (v * 10 + digit_of c) in
    let here = d.0 in
    let digit : digit_of c ≡ c - b'0' = ground arith in
    let value : add32 (v * 10) (c - b'0') ≡ v * 10 + digit_of c = omega arith in
    let yes_digit : (leb b'0' c && leb c b'9') ≡ true = ground arith in
    rw (yes_digit, value) (read_number-spells s rest (v * 10 + digit_of c) d.1 e h)

-- A decimal digit, and not a zero.
abbrev pub Leads : Bytes → Type 0
Leads [] = ⊥
Leads (c ∷ s) = (b'1' ≤ c) × (c ≤ b'9')

Leads-append : (s t : Bytes) → Leads s → Leads (s ++ t)
Leads-append [] t h = absurd h
Leads-append (c ∷ s) t h = h

digit_table : failures 10 (λ d. char_at hexchars_small d == b'0' + d) ≡ 0
digit_table = refl

digit_char : (d : ℕ) → d < 10 → char_at hexchars_small d ≡ b'0' + d
digit_char d h =
    (==_iff _ _).0 (no_failure 10 (λ x. char_at hexchars_small x == b'0' + x) digit_table d h)

print_digits-IsDigit : (fuel n : ℕ) → All IsDigit (print_digits fuel n 10 hexchars_small).1
unfolding print_digits
print_digits-IsDigit zero n = tt
print_digits-IsDigit (suc fuel) n =
    let digit = digit_char (n % 10) (omega arith) in
    let last : IsDigit (char_at hexchars_small (n % 10)) = omega (arith, digit) in
    let ih = print_digits-IsDigit fuel (n / 10) in
    if_intro (λ (r : ℕ × Bytes). All IsDigit r.1) (leb 10 n)
      (λ e.
        (All-append_iff IsDigit (print_digits fuel (n / 10) 10 hexchars_small).1 _).1
          (ih, (last, tt)))
      (λ e. (last, tt))

print_digits-Leads :
    (fuel n : ℕ) → 1 ≤ n → n < 2 ^ fuel → Leads (print_digits fuel n 10 hexchars_small).1
unfolding print_digits
print_digits-Leads zero n pos h = absurd (omega arith)
print_digits-Leads (suc fuel) n pos h =
    let power = pow-suc 2 fuel in
    if_intro (λ (r : ℕ × Bytes). Leads r.1) (leb 10 n)
      (λ e.
        let more : 10 ≤ n = ground arith in
        Leads-append (print_digits fuel (n / 10) 10 hexchars_small).1 _
          (print_digits-Leads fuel (n / 10) (omega arith) (omega arith)))
      (λ e.
        let less : n < 10 = ground arith in
        let digit = digit_char (n % 10) (omega arith) in omega (arith, digit))

-- A text that begins with a digit other than zero has no flags and no `*`.
width_at :
    (s : Bytes) (args : List Arg)
    → Leads s
    → (read_flags s no_flags ≡ (no_flags, s))
      × (read_width s args ≡ ((read_number s 0).0, (read_number s 0).1, args))
unfolding read_flags flag_of read_width
width_at [] args h = absurd h
width_at (c ∷ s) args h =
    let plain : flag_of c ≡ none = ground arith in
    let star : (c == b'*') ≡ false = ground arith in (rw (plain, read_flags) refl, rw star refl)

pad_at :
    (s : Bytes) (args : List Arg) → Leads s → (format_params s args).0.pad ≡ (read_number s 0).0
unfolding format_params
pad_at s args h = let (flags, width) = width_at s args h in rw flags (rw width refl)

-- For a width of 32 bits that is not zero, printed in decimal before a text that begins with no digit:
-- the format that is read has this width.
pub format_params-pad :
    (w : ℕ) (rest : Bytes) (args : List Arg)
    → 1 ≤ w
    → w < u32_mod
    → Stops rest
    → (format_params ((printu w 10 hexchars_small).1 ++ rest) args).0.pad ≡ w
unfolding printu
format_params-pad w rest args pos h e =
    let digits = (printu w 10 hexchars_small).1 in
    let value =
      (printu-spells w 10 hexchars_small small (omega arith) (omega arith) (omega arith)).0 in
    let read =
      read_number-spells digits rest 0 (print_digits-IsDigit max_digits w) e
        (omega (arith, value)) in
    let lead = Leads-append digits rest (print_digits-Leads max_digits w pos (omega arith)) in
    pad_at (digits ++ rest) args lead ∙ (ap (λ (r : ℕ × Bytes). r.0) read ∙ value)
