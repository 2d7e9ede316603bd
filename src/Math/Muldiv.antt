-- ===== src/Math/Muldiv.antt =====
-- `muldiv128` and the BCD conversions.
use nre.Base.{
  ℕ, ◌+◌, ◌*◌, ◌/◌, ◌%◌, ◌^◌, ◌≤◌, ◌<◌, ◌≡◌, sym, ap, ◌∙◌, arith, word_mod, u32_mod, bit_and_low,
}
use native.Mathlib.Nat.{div-add-mod', mul-add-div_right, mod-lt, mod-eq_of_lt}
use nre.Math.{muldiv128, from_bcd, to_bcd}

-- Every number below 100 survives the way to binary coded decimals and back.
pub from_bcd-to_bcd : (v : ℕ) → v < 100 → from_bcd (to_bcd v) ≡ v
unfolding from_bcd to_bcd
from_bcd-to_bcd v h = omega (arith, bit_and_low 4 ((v / 10 * 2 ^ 4 + v % 10) % 256))

-- The division by parts that the source makes.
div_by_parts :
    (high low factor divisor : ℕ)
    → 0 < divisor
    → (high * 2 ^ 32 + low) * factor / divisor
      ≡ high * factor / divisor * 2 ^ 32
        + (low * factor + high * factor % divisor * 2 ^ 32) / divisor
div_by_parts high low factor divisor h = rw split (mul-add-div_right h _ _)
  where
    split :
        (high * 2 ^ 32 + low) * factor
        ≡ high * factor / divisor * 2 ^ 32 * divisor
          + (low * factor + high * factor % divisor * 2 ^ 32)
    split = omega (arith, div-add-mod' (high * factor) divisor)

mul-le : (a b m n : ℕ) → a < m → b ≤ n → a * b ≤ m * n
mul-le a b m n h k = grind arith

-- If factor and divisor add up to at most 2 ^ 32 and the quotient is a 64-bit number, then
-- `muldiv128` is the exact rounded quotient, also where the product has more than 64 bits.
pub muldiv128_lem :
    (value factor divisor : ℕ)
    → value < word_mod
    → 0 < divisor
    → factor + divisor ≤ u32_mod
    → value * factor / divisor < word_mod
    → muldiv128 value factor divisor ≡ value * factor / divisor
unfolding muldiv128
muldiv128_lem value factor divisor hv hd hs hr =
    let high : ℕ = value / 2 ^ 32 in
    let low : ℕ = value % u32_mod in
    let parts = div_by_parts high low factor divisor hd in
    let whole : high * 2 ^ 32 + low ≡ value = omega arith in
    let bound_low = mul-le low factor u32_mod factor (omega arith) (omega arith) in
    let bound_high = mul-le high factor u32_mod factor (omega arith) (omega arith) in
    let bound_rem = mod-lt (high * factor) hd in
    let value_fits = rw (← whole, parts) at hr in
    rw
      (
        mod-eq_of_lt {n = high} {m = u32_mod} (omega arith),
        mod-eq_of_lt {n = high * factor} {m = word_mod} (omega arith),
        mod-eq_of_lt {n = low * factor} {m = word_mod} (omega arith),
        mod-eq_of_lt {n = high * factor % divisor} {m = u32_mod} (omega arith),
        mod-eq_of_lt {n = high * factor % divisor * 2 ^ 32} {m = word_mod} (omega arith),
        mod-eq_of_lt {n = low * factor + high * factor % divisor * 2 ^ 32} {m = word_mod}
            (omega arith),
        mod-eq_of_lt {n = high * factor / divisor * 2 ^ 32} {m = word_mod} (omega arith),
      )
      (mod-eq_of_lt value_fits ∙ sym parts ∙ ap (λ (t : ℕ). t * factor / divisor) whole)
