-- ===== src/Stream/Input.antt =====
-- nre/include/stream/IStream.h and nre/include/stream/IStringStream.h: reading numbers from a text. The characters
-- are codes below 128; behind the last one of the text, each further read gives 0.
pub mod Printed
pub mod Endless
mod Tests
use nre.Base.{
  ℕ, zero, suc, ◌+◌, ◌-◌, ◌*◌, ◌%◌, ◌^◌, Bool, true, false, ◌&&◌, ◌||◌, not, Option, none, some,
  List, [], ◌∷◌, ltb, leb, ◌==◌, if◌then◌else◌,
}
use nre.Stream.{Bytes}

-- `_last`, and the text from `_pos` on.
pub record Input : Type 0 where
  pub last : ℕ
  pub rest : Bytes

abbrev pub open_string : Bytes → Input
open_string text = record { last = 0; rest = text }

-- `_last = read()`
unfoldable pub read : Bytes → Input
read [] = record { last = 0; rest = [] }
read (c ∷ cs) = record { last = c; rest = cs }

unfoldable pub is_decimal : ℕ → Bool
is_decimal c = leb b'0' c && leb c b'9'

unfoldable pub is_numeric : ℕ → Bool
unfolding is_decimal
is_numeric c = c == b'-' || is_decimal c

-- The loop of `skip_non_numeric`, with so many rounds left.
unfoldable pub skip_from : ℕ → Input → Option Input
unfolding read is_numeric
skip_from zero s = if is_numeric s.last then some s else none
skip_from (suc rounds) s = elim (is_numeric s.last) [
  | true ↦ some s
  | false ↦ skip_from rounds (read s.rest)
]

unfoldable pub skip_non_numeric : ℕ → Input → Option Input
unfolding skip_from
skip_non_numeric rounds s = skip_from rounds (if s.last == 0 then read s.rest else s)

unfoldable pub is_digit : ℕ → ℕ → Bool
unfolding is_decimal
is_digit base c =
    is_decimal c || (base == 16 && ((leb b'a' c && leb c b'f') || (leb b'A' c && leb c b'F')))

-- `u` behind one more digit, in a type of so many bits.
unfoldable pub next_value : ℕ → ℕ → ℕ → ℕ → ℕ
next_value bits base u c =
    (if leb b'a' c && leb c b'f'
      then u * base + c + 10 - b'a'
      else if leb b'A' c && leb c b'F'
      then u * base + c + 10 - b'A'
      else u * base + c - b'0')
    % 2 ^ bits

unfoldable pub digits_from : ℕ → ℕ → ℕ → ℕ → Bytes → ℕ × Input
digits_from bits base u last [] =
    if is_digit base last
    then (next_value bits base u last, record { last = 0; rest = [] })
    else (u, record { last = last; rest = [] })
digits_from bits base u last (c ∷ cs) = elim (is_digit base last) [
  | true ↦ digits_from bits base (next_value bits base u last) c cs
  | false ↦ (u, record { last = last; rest = c ∷ cs })
]

-- `readu`, behind the characters that are skipped.
unfoldable pub readu_at : ℕ → Input → ℕ × Input
unfolding digits_from
readu_at bits s =
    if s.last == b'0'
    then (let s' = read s.rest in
        if s'.last == b'x' || s'.last == b'X'
        then (let s'' = read s'.rest in digits_from bits 16 0 s''.last s''.rest)
        else digits_from bits 10 0 s'.last s'.rest)
    else digits_from bits 10 0 s.last s.rest

unfoldable pub readu : ℕ → ℕ → Input → Option (ℕ × Input)
unfolding skip_non_numeric readu_at
readu bits rounds s = elim (skip_non_numeric rounds s) [
  | none ↦ none
  | some s' ↦ some (readu_at bits s')
]

-- `readn`: a negative number is the number of its bits.
unfoldable pub readn_at : ℕ → Input → ℕ × Input
unfolding digits_from
readn_at bits s =
    let minus = s.last == b'-' in
    let s' = if minus then read s.rest else s in
    let (n, s'') = digits_from bits 10 0 s'.last s'.rest in
    (if minus then (2 ^ bits - n) % 2 ^ bits else n, s'')

unfoldable pub readn : ℕ → ℕ → Input → Option (ℕ × Input)
unfolding skip_non_numeric readn_at
readn bits rounds s = elim (skip_non_numeric rounds s) [
  | none ↦ none
  | some s' ↦ some (readn_at bits s')
]
