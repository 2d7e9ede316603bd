-- ===== src/Math.antt =====
-- nre/include/util/Math.h. The templates are read at the 64-bit types with which the library calls
-- them (`size_t`, `uintptr_t`); a reference parameter that a function updates is returned beside its
-- result. `__builtin_clz` is the compiler's: the number of zero bits above the highest one of a
-- 32-bit argument.
pub mod Rounding
pub mod Ranges
pub mod Muldiv
pub mod Powers
pub mod Blocks
mod Tests
use nre.Base.{
  ℕ, zero, suc, ◌+◌, ◌-◌, ◌*◌, ◌/◌, ◌%◌, ◌^◌, Bool, Option, none, some, min, ◌&&◌, ◌||◌, not,
  bit_and, bit_xor, ltb, leb, ◌==◌, if◌then◌else◌, word_mod, u32_mod, add64, sub64, not64,
}

unfoldable pub round_up : ℕ → ℕ → ℕ
round_up value align = bit_and (sub64 (add64 value align) 1) (not64 (sub64 align 1))

pub round_dn : ℕ → ℕ → ℕ
round_dn value align = bit_and value (not64 (sub64 align 1))

-- The results are `uint8_t`.
pub from_bcd : ℕ → ℕ
from_bcd value = (bit_and value 0xf + value / 2 ^ 4 * 10) % 256

pub to_bcd : ℕ → ℕ
to_bcd value = (value / 10 * 2 ^ 4 + value % 10) % 256

-- the result, and the new `value`
unfoldable pub moddiv : ℕ → ℕ → ℕ × ℕ
moddiv value divisor = (value % divisor, value / divisor)

unfoldable pub divmod : ℕ → ℕ → ℕ × ℕ
divmod value divisor = (value / divisor, value % divisor)

-- `low`, `high` and `rem` are `uint32_t`; the rest is `uint64_t`.
pub muldiv128 : ℕ → ℕ → ℕ → ℕ
unfolding moddiv
muldiv128 value factor divisor =
    let low : ℕ = value % u32_mod in
    let high : ℕ = value / 2 ^ 32 % u32_mod in
    let lower : ℕ = low * factor % word_mod in
    let upper : ℕ = high * factor % word_mod in
    let rem : ℕ = (moddiv upper divisor).0 % u32_mod in
    let lower' : ℕ = add64 lower (rem * 2 ^ 32 % word_mod) / divisor in
    add64 ((moddiv upper divisor).1 * 2 ^ 32 % word_mod) lower'

unfoldable pub blockcount : ℕ → ℕ → ℕ
blockcount value blocksize = sub64 (add64 value blocksize) 1 / blocksize

unfoldable pub in_range : ℕ → ℕ → ℕ → Bool
in_range address base size = leb base address && leb address (sub64 (add64 base size) 1)

unfoldable pub overlapped : ℕ → ℕ → ℕ → ℕ → Bool
overlapped b1 s1 b2 s2 =
    let e1 = add64 b1 s1 in
    let e2 = add64 b2 s2 in
    (leb b2 b1 && ltb b1 e2) || (ltb b2 e1 && leb e1 e2) || (ltb b1 b2 && ltb e2 e1)

-- The position of the highest one bit, by halving; the fuel bounds the number of bits.
pub top_bit : ℕ → ℕ → ℕ
top_bit zero v = 0
top_bit (suc bits) v = if ltb v 2 then 0 else suc (top_bit bits (v / 2))

-- `__builtin_clz` of the argument cut to `unsigned int`
clz : ℕ → ℕ
unfolding top_bit
clz v = 31 - top_bit 31 (v % u32_mod)

pub bit_scan_reverse : ℕ → ℕ
unfolding clz
bit_scan_reverse value = bit_xor (clz value) 0x1F

pub is_pow2 : ℕ → Bool
is_pow2 value = bit_and value (sub64 value 1) == 0

pub prev_pow2_shift : ℕ → ℕ
unfolding is_pow2 bit_scan_reverse
prev_pow2_shift value =
    if leb value 1
    then value
    else if not (is_pow2 value)
    then sub64 (bit_scan_reverse value) 1
    else bit_scan_reverse value

-- `1 << shift` of an `int`, as a `size_t`. The language defines it for shifts below 31; the processor
-- takes the shift by 32, and the sign is extended.
unfoldable pub shifted : ℕ → ℕ
shifted shift = if shift % 32 == 31 then word_mod - 2 ^ 31 else 2 ^ (shift % 32)

unfoldable pub prev_pow2 : ℕ → ℕ
unfolding prev_pow2_shift shifted
prev_pow2 value = shifted (prev_pow2_shift value)

pub next_pow2_shift : ℕ → ℕ
unfolding is_pow2 bit_scan_reverse
next_pow2_shift value =
    if value == 0
    then 0
    else if is_pow2 value
    then bit_scan_reverse value
    else add64 (bit_scan_reverse value) 1

pub next_pow2 : ℕ → ℕ
unfolding is_pow2 next_pow2_shift shifted
next_pow2 value = if is_pow2 value then value else shifted (next_pow2_shift value)

-- The position of the lowest one bit, if there is one in so many bits.
pub low_bit : ℕ → ℕ → Option ℕ
low_bit zero v = none
low_bit (suc bits) v =
    let rest = low_bit bits (v / 2) in
    if v % 2 == 1 then some 0 else elim rest [ none ↦ none | some k ↦ some (suc k) ]

-- `__builtin_ctz` of the argument cut to `unsigned int`; `none` is the argument 0, for which it is
-- not defined.
pub bit_scan_forward : ℕ → Option ℕ
unfolding low_bit
bit_scan_forward value = low_bit 32 value

-- `value | 1ul << k`
pub or_bit : ℕ → ℕ → ℕ
or_bit k value = if value / 2 ^ k % 2 == 1 then value else value + 2 ^ k

-- `none` is undefined.
pub minshift : ℕ → ℕ → Option ℕ
unfolding bit_scan_forward bit_scan_reverse or_bit
minshift start size = elim (bit_scan_forward (or_bit 63 start)) [
  | none ↦ none
  | some basealign ↦ some (min basealign (bit_scan_reverse (or_bit 0 size)))
]
