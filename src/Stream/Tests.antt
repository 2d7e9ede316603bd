-- ===== src/Stream/Tests.antt =====
-- Printing at concrete values.
use nre.Base.{◌-◌, ◌^◌, ◌≡◌, refl}
use nre.Stream.{
  Bytes, codes, count_unsigned, count_from, printu, print_digits, printn, printn_positive,
  printupad, printpad, base_prefix, printptr, print_pairs,
}
use nre.Stream.Params.{Params, no_flags}

-- -9223372036854775808 loses its digits.
printn_least : (printn (2 ^ 63)).1 ≡ codes "-("
unfolding printn printn_positive print_digits
printn_least = refl

printn_runs : (printn (2 ^ 64 - 42)).1 ≡ codes "-42"
unfolding printn printn_positive print_digits
printn_runs = refl

printptr_runs : (printptr 0x123456789abc no_flags).1 ≡ codes "0000:1234:5678:9abc"
unfolding printptr print_pairs printupad printpad base_prefix printu print_digits count_unsigned
    count_from
printptr_runs = refl

abbrev hi : Bytes
hi = codes "Hi"
