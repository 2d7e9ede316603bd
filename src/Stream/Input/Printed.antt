-- ===== src/Stream/Input/Printed.antt =====
-- A text with a number is read.
use native.Mathlib.Nat.{zero-mod, mod-add-div, add-mul-mod_self_left, mul_assoc}
use nre.Base.{
  ℕ, zero, suc, ◌+◌, ◌-◌, ◌*◌, ◌/◌, ◌%◌, ◌^◌, ◌≤◌, ◌<◌, ◌≡◌, ◌≢◌, refl, sym, ap, ◌∙◌, arith, true,
  false, Option, none, some, [], ◌∷◌, ◌++◌, leb, ◌==◌, length, Bool-cases, inl, inr, word_mod,
  failures, no_failure,
}
use nre.Stream.{Bytes, printu, print_digits, hexchars_small, char_at}
use nre.Stream.Numbers.{spells, digit_of, small, printu-spells}
use nre.Stream.Input.{
  Input, open_string, read, is_decimal, is_numeric, is_digit, next_value, digits_from, skip_from,
  skip_non_numeric, readu_at, readu,
}
use nre.Stream.Input.Endless.{NoNumber, skip_step}

pub data AllDecimal : Bytes → Type 0 where
  nil : AllDecimal []
  cons : (c : ℕ) (cs : Bytes) → is_decimal c ≡ true → AllDecimal cs → AllDecimal (c ∷ cs)

-- What follows a number ends it.
abbrev pub IsEnd : Bytes → Type 0
IsEnd after =
    (is_digit 10 (read after).last ≡ false)
    × ((read after).last ≢ b'x')
    × ((read after).last ≢ b'X')

wrapped_step : (m v d : ℕ) → (v % m * 10 + d) % m ≡ (v * 10 + d) % m
wrapped_step m v d =
    let parts : v % m * 10 + d + m * (v / m * 10) ≡ v * 10 + d =
      omega (arith, mod-add-div v m, mul_assoc m (v / m) 10) in
    sym (add-mul-mod_self_left (v % m * 10 + d) m (v / m * 10)) ∙ ap (λ (x : ℕ). x % m) parts

decimal_value :
    (bits v c : ℕ)
    → is_decimal c ≡ true
    → (next_value bits 10 (v % 2 ^ bits) c ≡ (v * 10 + digit_of c) % 2 ^ bits)
      × (is_digit 10 c ≡ true)
unfolding next_value is_decimal is_digit
decimal_value bits v c h =
    let d : digit_of c ≡ c - 48 = ground (arith, h) in
    let low : 48 ≤ c = ground (arith, h) in
    let not_small : leb b'a' c ≡ false = ground (arith, h) in
    let not_big : leb b'A' c ≡ false = ground (arith, h) in
    (
      rw (not_small, not_big)
          (ap (λ (x : ℕ). x % 2 ^ bits) (omega (arith, low))
            ∙ wrapped_step (2 ^ bits) v (c - 48)
            ∙ ap (λ (x : ℕ). (v * 10 + x) % 2 ^ bits) (sym d)),
      ground (arith, h),
    )

digits_step :
    (bits base u c x : ℕ) (xs : Bytes)
    → is_digit base c ≡ true
    → digits_from bits base u c (x ∷ xs) ≡ digits_from bits base (next_value bits base u c) x xs
unfolding digits_from
digits_step bits base u c x xs h = rw (h, digits_from) refl

digits_stop :
    (bits base u c : ℕ) (xs : Bytes)
    → is_digit base c ≡ false
    → digits_from bits base u c xs ≡ (u, record { last = c; rest = xs })
unfolding digits_from
digits_stop bits base u c [] h = rw (h, digits_from) refl
digits_stop bits base u c (x ∷ xs) h = rw (h, digits_from) refl

digits_last :
    (bits base u c : ℕ) (after : Bytes)
    → is_digit base c ≡ true
    → is_digit base (read after).last ≡ false
    → digits_from bits base u c after ≡ (next_value bits base u c, read after)
unfolding digits_from read
digits_last bits base u c [] h e = rw (h, digits_from) refl
digits_last bits base u c (x ∷ xs) h e =
    digits_step bits base u c x xs h ∙ digits_stop bits base (next_value bits base u c) x xs e

digits_all :
    (bits v c : ℕ) (cs after : Bytes)
    → is_decimal c ≡ true
    → AllDecimal cs
    → is_digit 10 (read after).last ≡ false
    → digits_from bits 10 (v % 2 ^ bits) c (cs ++ after)
      ≡ (spells 10 v (c ∷ cs) % 2 ^ bits, read after)
digits_all bits v c [] after h hs e =
    let (value, is_it) = decimal_value bits v c h in
    digits_last bits 10 (v % 2 ^ bits) c after is_it e ∙ ap (λ (x : ℕ). (x, read after)) value
digits_all bits v c (d ∷ ds) after h (AllDecimal.cons _ _ h' hs) e =
    let (value, is_it) = decimal_value bits v c h in
    digits_step bits 10 (v % 2 ^ bits) c d (ds ++ after) is_it
    ∙ ap (λ (x : ℕ). digits_from bits 10 x d (ds ++ after)) value
    ∙ digits_all bits (v * 10 + digit_of c) d ds after h' hs e

digits_zero :
    (bits c : ℕ) (cs after : Bytes)
    → is_decimal c ≡ true
    → AllDecimal cs
    → is_digit 10 (read after).last ≡ false
    → digits_from bits 10 0 c (cs ++ after) ≡ (spells 10 0 (c ∷ cs) % 2 ^ bits, read after)
digits_zero bits c cs after h hs e =
    ap (λ (x : ℕ). digits_from bits 10 x c (cs ++ after)) (sym (zero-mod (2 ^ bits)))
    ∙ digits_all bits 0 c cs after h hs e

-- The character behind a 0 that does not begin a number to the base 16.
decimal_from :
    (bits : ℕ) (rest : Bytes)
    → (read rest).last ≢ b'x'
    → (read rest).last ≢ b'X'
    → readu_at bits (record { last = b'0'; rest = rest })
      ≡ digits_from bits 10 0 (read rest).last (read rest).rest
unfolding readu_at
decimal_from bits rest hx hX =
    let no_x : ((read rest).last == b'x') ≡ false = ground (arith, hx) in
    let no_X : ((read rest).last == b'X') ≡ false = ground (arith, hX) in rw (no_x, no_X) refl

from_first :
    (bits c : ℕ) (rest : Bytes)
    → (c == b'0') ≡ false
    → readu_at bits (record { last = c; rest = rest }) ≡ digits_from bits 10 0 c rest
unfolding readu_at
from_first bits c rest h = rw h refl

behind_zero :
    (bits : ℕ) (cs after : Bytes)
    → AllDecimal cs
    → is_digit 10 (read after).last ≡ false
    → (read after).last ≢ b'x'
    → (read after).last ≢ b'X'
    → readu_at bits (record { last = b'0'; rest = cs ++ after })
      ≡ (spells 10 0 (b'0' ∷ cs) % 2 ^ bits, read after)
unfolding read is_decimal
behind_zero bits [] after hs end no_x no_X =
    decimal_from bits after no_x no_X
    ∙ digits_stop bits 10 0 (read after).last (read after).rest end
    ∙ ap (λ (x : ℕ). (x, read after)) (sym (zero-mod (2 ^ bits)))
behind_zero bits (d ∷ ds) after (AllDecimal.cons _ _ h hs) end no_x no_X =
    decimal_from bits (d ∷ ds ++ after) (ground (arith, h)) (ground (arith, h))
    ∙ digits_zero bits d ds after h hs end

readu_at-digits :
    (bits c : ℕ) (cs after : Bytes)
    → is_decimal c ≡ true
    → AllDecimal cs
    → IsEnd after
    → readu_at bits (record { last = c; rest = cs ++ after })
      ≡ (spells 10 0 (c ∷ cs) % 2 ^ bits, read after)
readu_at-digits bits c cs after h hs (end, no_x, no_X) = elim (Bool-cases (c == b'0')) [
  | inr other ↦ from_first bits c (cs ++ after) other ∙ digits_zero bits c cs after h hs end
  | inl null ↦
      let is_null : c ≡ b'0' = ground (arith, null) in
      ap (λ (x : ℕ). readu_at bits (record { last = x; rest = cs ++ after })) is_null
      ∙ behind_zero bits cs after hs end no_x no_X
      ∙ ap (λ (x : ℕ). (spells 10 0 (x ∷ cs) % 2 ^ bits, read after)) (sym is_null)
]

skip_junk :
    (rounds : ℕ) (junk : Bytes) (c : ℕ) (rest : Bytes)
    → NoNumber junk
    → length junk ≤ rounds
    → is_numeric c ≡ true
    → skip_from rounds (read (junk ++ c ∷ rest)) ≡ some (record { last = c; rest = rest })
unfolding skip_from read
skip_junk zero [] c rest h l e = rw (e, skip_from) refl
skip_junk (suc rounds) [] c rest h l e = rw (e, skip_from) refl
skip_junk zero (x ∷ xs) c rest h l e = absurd (omega (arith, l))
skip_junk (suc rounds) (x ∷ xs) c rest (NoNumber.cons _ _ f h) l e =
    skip_step rounds (record { last = x; rest = xs ++ c ∷ rest }) f
    ∙ skip_junk rounds xs c rest h (omega (arith, l)) e

decimal_table : failures 10 (λ d. is_decimal (char_at hexchars_small d)) ≡ 0
unfolding is_decimal
decimal_table = refl

snoc_all : (s : Bytes) (c : ℕ) → AllDecimal s → is_decimal c ≡ true → AllDecimal (s ++ c ∷ [])
snoc_all [] c h e = AllDecimal.cons c [] e AllDecimal.nil
snoc_all (x ∷ xs) c (AllDecimal.cons _ _ e' h) e =
    AllDecimal.cons x (xs ++ c ∷ []) e' (snoc_all xs c h e)

snoc_view :
    (s : Bytes) (c : ℕ)
    → AllDecimal s
    → is_decimal c ≡ true
    → (d : ℕ) × (ds : Bytes) × (s ++ c ∷ [] ≡ d ∷ ds) × (is_decimal d ≡ true) × AllDecimal ds
snoc_view [] c h e = (c, [], refl, e, AllDecimal.nil)
snoc_view (x ∷ xs) c (AllDecimal.cons _ _ e' h) e = (x, xs ++ c ∷ [], refl, e', snoc_all xs c h e)

print_digits-AllDecimal : (fuel n : ℕ) → AllDecimal (print_digits fuel n 10 hexchars_small).1
unfolding print_digits
print_digits-AllDecimal zero n = AllDecimal.nil
print_digits-AllDecimal (suc fuel) n =
    let digit =
      no_failure 10 (λ d. is_decimal (char_at hexchars_small d)) decimal_table (n % 10)
        (omega arith) in
    elim (Bool-cases (leb 10 n)) [
      | inl more ↦ rw more (
          snoc_all (print_digits fuel (n / 10) 10 hexchars_small).1
            (char_at hexchars_small (n % 10)) (print_digits-AllDecimal fuel (n / 10)) digit)
      | inr less ↦ rw less (AllDecimal.cons _ _ digit AllDecimal.nil)
    ]

print_digits-view :
    (fuel n : ℕ)
    → (d : ℕ) × (ds : Bytes) × ((print_digits (suc fuel) n 10 hexchars_small).1 ≡ d ∷ ds)
      × (is_decimal d ≡ true)
      × AllDecimal ds
unfolding print_digits
print_digits-view fuel n =
    let digit =
      no_failure 10 (λ d. is_decimal (char_at hexchars_small d)) decimal_table (n % 10)
        (omega arith) in
    elim (Bool-cases (leb 10 n)) [
      | inl more ↦ rw more (
          snoc_view (print_digits fuel (n / 10) 10 hexchars_small).1
            (char_at hexchars_small (n % 10)) (print_digits-AllDecimal fuel (n / 10)) digit)
      | inr less ↦ rw less (char_at hexchars_small (n % 10), [], refl, digit, AllDecimal.nil)
    ]

printu-view :
    (n : ℕ)
    → (d : ℕ) × (ds : Bytes) × ((printu n 10 hexchars_small).1 ≡ d ∷ ds)
      × (is_decimal d ≡ true)
      × AllDecimal ds
unfolding printu
printu-view n = print_digits-view 63 n

numeric_of : (c : ℕ) → is_decimal c ≡ true → is_numeric c ≡ true
unfolding is_numeric is_decimal
numeric_of c e = ground (arith, e)

-- A 64-bit number that `printu` has written in decimal digits, behind characters that start no number and
-- before a character that is no digit and no x: with at least one round for each of the characters in front,
-- `readu` reads this number, and has read the character behind it.
pub readu-printu :
    (n rounds : ℕ) (junk after : Bytes)
    → n < word_mod
    → NoNumber junk
    → length junk ≤ rounds
    → IsEnd after
    → readu 64 rounds (open_string (junk ++ ((printu n 10 hexchars_small).1 ++ after)))
      ≡ some (n, read after)
unfolding readu skip_non_numeric
readu-printu n rounds junk after h hj l end =
    let (d, ds, text, e, all) = printu-view n in
    let skipped = skip_junk rounds junk d (ds ++ after) hj l (numeric_of d e) in
    let spelled = (printu-spells n 10 hexchars_small small (omega arith) (omega arith) h).0 in
    let value : spells 10 0 (d ∷ ds) ≡ n = ap (spells 10 0) (sym text) ∙ spelled in
    ap (λ (t : Bytes). readu 64 rounds (open_string (junk ++ (t ++ after)))) text
    ∙ ap (λ (o : Option Input). elim o [ none ↦ none | some s ↦ some (readu_at 64 s) ]) skipped
    ∙ ap some (readu_at-digits 64 d ds after e all end)
    ∙ ap (λ (x : ℕ). some (x, read after)) (ap (λ (x : ℕ). x % 2 ^ 64) value ∙ omega (arith, h))
