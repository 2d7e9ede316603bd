-- ===== src/Stream/Input/Tests.antt =====
-- Texts that are read: " n203", one with a space only, and one to the base 16.
use nre.Base.{◌≡◌, refl, arith, none, some, [], ◌∷◌, ◌++◌}
use nre.Stream.{Bytes, codes, printu, hexchars_small}
use nre.Stream.Input.{
  open_string, read, is_decimal, is_numeric, is_digit, readu, readn, readu_at, readn_at,
  skip_non_numeric, skip_from, digits_from, next_value,
}
use nre.Stream.Input.Endless.{NoNumber, read-NoNumber}
use nre.Stream.Input.Printed.{readu-printu}

abbrev front : Bytes
front = b' ' ∷ b'n' ∷ []

front-NoNumber : NoNumber front
unfolding is_numeric is_decimal
front-NoNumber = NoNumber.cons b' ' (b'n' ∷ []) refl (NoNumber.cons b'n' [] refl NoNumber.nil)

readu-printu_example :
    readu 64 2 (open_string (front ++ ((printu 203 10 hexchars_small).1 ++ (b'm' ∷ []))))
    ≡ some (203, read (b'm' ∷ []))
unfolding read is_digit is_decimal
readu-printu_example =
    readu-printu 203 2 front (b'm' ∷ []) (omega arith) front-NoNumber (omega arith)
      (refl, omega arith, omega arith)

read-NoNumber_example :
    (readu 32 1000 (open_string front) ≡ none) × (readn 32 1000 (open_string front) ≡ none)
read-NoNumber_example = read-NoNumber 32 1000 front front-NoNumber

hex_run :
    (readu 32 5 (open_string (codes "=0x1F")) ≡ some (31, record { last = 0; rest = [] }))
    × (readn 32 5 (open_string (codes "-12 "))
        ≡ some (4294967284, record { last = b' '; rest = [] }))
unfolding readu readn readu_at readn_at skip_non_numeric skip_from digits_from next_value is_digit
    is_numeric is_decimal read
hex_run = (refl, refl)
