-- ===== src/Math/Tests.antt =====
-- The arithmetic of Math.h at concrete inputs.
use nre.Base.{◌-◌, ◌*◌, ◌/◌, ◌^◌, ◌≡◌, ◌↔◌, ℕ, true, arith, refl}
use nre.Math.{round_up, round_dn, muldiv128, prev_pow2}
use nre.Math.Ranges.{Within, overlapped_iff}
use nre.Math.{divmod, overlapped, blockcount, next_pow2}

rounding_runs : (round_up 0x1001 0x1000 ≡ 0x2000) × (round_dn 0x1fff 0x1000 ≡ 0x1000)
unfolding round_up round_dn
rounding_runs = (refl, refl)

powers_run : (prev_pow2 8 ≡ 8) × (prev_pow2 6 ≡ 2) × (prev_pow2 1 ≡ 2) × (next_pow2 6 ≡ 8)
unfolding prev_pow2 next_pow2
powers_run = (refl, refl, refl, refl)

blocks_run : (blockcount 4097 4096 ≡ 2) × (divmod 17 5 ≡ (3, 2))
unfolding blockcount divmod
blocks_run = (refl, refl)

-- The sum of the two partial products passes 2 ^ 64, and the quotient comes out too small.
muldiv128_wraps :
    (muldiv128 (2 ^ 33 - 1) (2 ^ 32 - 2) (2 ^ 32 - 1) ≡ 4294967291)
    × ((2 ^ 33 - 1) * (2 ^ 32 - 2) / (2 ^ 32 - 1) ≡ 8589934588)
unfolding muldiv128
muldiv128_wraps = (refl, refl)

overlapped_iff_example :
    (overlapped 0x1000 0x2000 0x2fff 1 ≡ true)
    ↔ ((a : ℕ) × Within a 0x1000 0x2000 × Within a 0x2fff 1)
overlapped_iff_example =
    overlapped_iff 0x1000 0x2000 0x2fff 1 (omega arith) (omega arith) (omega arith) (omega arith)
