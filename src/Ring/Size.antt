-- ===== src/Ring/Size.antt =====
-- The ring's length and the dataspace.
use native.Mathlib.Nat.{pow-suc, div-mul-le_self, mul-le-mul_right}
use nre.Base.{ℕ, ◌+◌, ◌-◌, ◌*◌, ◌/◌, ◌^◌, ◌≤◌, ◌<◌, ◌≡◌, refl, ◌∙◌, arith, word_mod, sub64}
use nre.Math.{prev_pow2}
use nre.Math.Powers.{prev_pow2_lem}
use nre.Ring.{rblength}
use nre.Ring.Fifo.{IsSize}

-- For a dataspace that has room behind the header for a number of items that is between 2 ^ (k + 1)
-- and 2 ^ (k + 2) and no power of two, and below 2 ^ 31 items: the length of the ring is 2 ^ k, and its
-- slots end within the dataspace.
pub rblength_fits :
    (k ds_size header item : ℕ)
    → header ≤ ds_size
    → ds_size < word_mod
    → 1 ≤ item
    → 2 ^ (k + 1) < (ds_size - header) / item
    → (ds_size - header) / item < 2 * 2 ^ (k + 1)
    → (ds_size - header) / item < 2 ^ 31
    → IsSize k (rblength ds_size header item)
      × (header + rblength ds_size header item * item ≤ ds_size)
unfolding rblength
rblength_fits k ds_size header item room word pos lo hi small =
    let n : ℕ = (ds_size - header) / item in
    let e : sub64 ds_size header ≡ ds_size - header = omega arith in
    let p : prev_pow2 n ≡ 2 ^ k =
      prev_pow2_lem (k + 1) n (omega arith) (omega arith) hi small ∙ ground arith in
    let q : 2 ^ (k + 1) ≡ 2 ^ k * 2 = ground (arith, pow-suc 2 k) in
    let fits : 2 ^ k * item ≤ n * item = mul-le-mul_right item (omega arith) in
    let whole : n * item ≤ ds_size - header = div-mul-le_self _ _ in
    (record { power = rw (e, p) refl; word = rw (e, p) (omega arith) }, rw (e, p) (omega arith))
