-- ===== src/Stream/Input/Endless.antt =====
-- A text without a number.
use nre.Base.{ℕ, zero, suc, ◌≡◌, refl, ◌∙◌, false, none, [], ◌∷◌}
use nre.Stream.{Bytes}
use nre.Stream.Input.{
  Input, open_string, read, is_numeric, skip_from, skip_non_numeric, readu, readn,
}

-- No character of the text starts a number.
pub data NoNumber : Bytes → Type 0 where
  nil : NoNumber []
  cons : (c : ℕ) (cs : Bytes) → is_numeric c ≡ false → NoNumber cs → NoNumber (c ∷ cs)

numeric_false : (text : Bytes) → NoNumber text → is_numeric (read text).last ≡ false
unfolding read is_numeric
numeric_false [] h = refl
numeric_false (c ∷ cs) (NoNumber.cons _ _ e h) = e

rest_free : (text : Bytes) → NoNumber text → NoNumber (read text).rest
unfolding read
rest_free [] h = h
rest_free (c ∷ cs) (NoNumber.cons _ _ e h) = h

pub skip_step :
    (rounds : ℕ) (s : Input)
    → is_numeric s.last ≡ false
    → skip_from (suc rounds) s ≡ skip_from rounds (read s.rest)
unfolding skip_from
skip_step rounds s e = rw (e, skip_from) refl

skip_ever :
    (rounds : ℕ) (s : Input)
    → is_numeric s.last ≡ false
    → NoNumber s.rest
    → skip_from rounds s ≡ none
unfolding skip_from
skip_ever zero s e h = rw (e, skip_from) refl
skip_ever (suc rounds) s e h =
    skip_step rounds s e
    ∙ skip_ever rounds (read s.rest) (numeric_false s.rest h) (rest_free s.rest h)

-- A number is read from a text in which no character starts one: neither `readu` nor `readn` is done after
-- any number of rounds of the loop that looks for its start.
pub read-NoNumber :
    (bits rounds : ℕ) (text : Bytes)
    → NoNumber text
    → (readu bits rounds (open_string text) ≡ none) × (readn bits rounds (open_string text) ≡ none)
unfolding readu readn skip_non_numeric
read-NoNumber bits rounds text h =
    let ever = skip_ever rounds (read text) (numeric_false text h) (rest_free text h) in
    (rw (ever, readu) refl, rw (ever, readn) refl)
