-- ===== src/CapSel.antt =====
-- nre/include/cap/CapSelSpace.h, the numbers that stand for a program's capabilities. The state is
-- `_off`; `cfg_cap` is the number of selectors that the kernel reports. All numbers have 32 bits.
pub mod Ranges
mod Tests
use nre.Base.{ℕ, ◌-◌, Option, none, some, ◌||◌, ltb, if◌then◌else◌, bit_and, u32_mod, add32, sub32}

-- The first aligned selector from `off` on.
pub aligned : ℕ → ℕ → ℕ
aligned off align = bit_and (sub32 (add32 off align) 1) (u32_mod - 1 - sub32 align 1)

-- The selector and the new `_off`; `none` is the exception E_NO_CAP_SELS.
pub allocate : ℕ → ℕ → ℕ → ℕ → Option (ℕ × ℕ)
unfolding aligned
allocate cfg_cap off count align =
    let res = aligned off align in
    if ltb (add32 res count) res || ltb cfg_cap (add32 res count)
    then none
    else some (res, add32 res count)

-- `free`
pub free : ℕ → ℕ → ℕ → ℕ
free off base count = off
