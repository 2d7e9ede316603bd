-- ===== src/Bits/Masks/Word.antt =====
-- A mask of four bits in a word.
use native.Mathlib.Nat.{
  mod-eq_of_lt, mul-add-div_right, div-div-eq-div-mul, one-le-pow, div-eq_of_lt, div-add-mod,
  mod-lt, mul-le-mul_right,
}
use nre.Base.{
  ℕ, ◌+◌, ◌-◌, ◌*◌, ◌/◌, ◌%◌, ◌^◌, ◌≤◌, ◌<◌, ◌≡◌, ◌≢◌, ◌⊎◌, inl, inr, refl, sym, ap, ◌∙◌, arith,
  bit_and, bit_or, bit_and-zero, bit_and_low, not64,
}
use nre.Math.Rounding.{pow_split, sub_one-mul, div-lt}
use nre.Bits.Digits.{or_parts, and_parts, bit_or-zero, zero_bit_or}
use nre.Bits.Masks.{with_mask}

unfoldable pub nibble : ℕ → ℕ → ℕ
nibble w k = w / 2 ^ k % 16

-- The number with these upper digits, this mask and these lower digits.
abbrev word : ℕ → ℕ → ℕ → ℕ → ℕ
word a m k b = (a * 16 + m) * 2 ^ k + b

and_word :
    (a n k b h : ℕ)
    → n < 16
    → b < 2 ^ k
    → a < 2 ^ h
    → bit_and (word a n k b) (word (2 ^ h - 1) 0 k (2 ^ k - 1)) ≡ word a 0 k b
and_word a n k b h hn hb ha =
    let positive = one-le-pow k 2 (omega arith) in
    let outer =
      and_parts k (a * 16 + n) ((2 ^ h - 1) * 16 + 0) b (2 ^ k - 1) hb (omega (arith, positive)) in
    let inner = and_parts 4 a (2 ^ h - 1) n 0 hn (omega arith) in
    let upper : bit_and a (2 ^ h - 1) ≡ a = bit_and_low h a ∙ mod-eq_of_lt ha in
    let lower : bit_and b (2 ^ k - 1) ≡ b = bit_and_low k b ∙ mod-eq_of_lt hb in
    let middle : bit_and (a * 16 + n) ((2 ^ h - 1) * 16 + 0) ≡ a * 16 + 0 =
      inner ∙ omega (arith, upper, bit_and-zero n) in
    outer ∙ rw (middle, lower) refl

or_word : (a m k b : ℕ) → m < 16 → b < 2 ^ k → bit_or (word a 0 k b) (m * 2 ^ k) ≡ word a m k b
or_word a m k b hm hb =
    let positive = one-le-pow k 2 (omega arith) in
    let outer = or_parts k (a * 16 + 0) (0 * 16 + m) b 0 hb (omega (arith, positive)) in
    let inner = or_parts 4 a 0 0 m (omega arith) hm in
    let middle : bit_or (a * 16 + 0) (0 * 16 + m) ≡ a * 16 + m =
      inner ∙ omega (arith, bit_or-zero a, zero_bit_or m) in
    let right : m * 2 ^ k ≡ (0 * 16 + m) * 2 ^ k + 0 = omega arith in
    ap (λ (x : ℕ). bit_or (word a 0 k b) x) right ∙ outer ∙ rw middle (omega (arith, bit_or-zero b))

hole : (k h : ℕ) → k + 4 + h ≡ 64 → not64 (15 * 2 ^ k) ≡ word (2 ^ h - 1) 0 k (2 ^ k - 1)
hole k h e =
    let low = pow_split k 4 (k + 4) (omega arith) in
    let all = pow_split (k + 4) h 64 e in
    let whole : 2 ^ 64 ≡ 2 ^ h * 16 * 2 ^ k = omega (arith, all, ap (λ (t : ℕ). 2 ^ h * t) low) in
    let less = sub_one-mul (2 ^ h) (16 * 2 ^ k) (one-le-pow h 2 (omega arith)) in
    omega (arith, whole, less, one-le-pow k 2 (omega arith))

upper_small : (w k h : ℕ) → k + 4 + h ≡ 64 → w < 2 ^ 64 → w / 2 ^ k / 16 < 2 ^ h
upper_small w k h e small =
    let low = pow_split k 4 (k + 4) (omega arith) in
    let all = pow_split (k + 4) h 64 e in
    let below : w < 2 ^ h * 16 * 2 ^ k = omega (arith, small, all, ap (λ (t : ℕ). 2 ^ h * t) low) in
    omega (arith, div-lt w (2 ^ h * 16) (2 ^ k) (one-le-pow k 2 (omega arith)) below)

-- The digits of a word around the mask at `k`.
parts_of : (w k : ℕ) → w ≡ word (w / 2 ^ k / 16) (nibble w k) k (w % 2 ^ k)
unfolding nibble
parts_of w k =
    let cut : w / 2 ^ k ≡ w / 2 ^ k / 16 * 16 + w / 2 ^ k % 16 = omega arith in
    omega (arith, div-add-mod w (2 ^ k), ap (λ (t : ℕ). t * 2 ^ k) cut)

with_mask-word :
    (w k h m : ℕ)
    → k + 4 + h ≡ 64
    → w < 2 ^ 64
    → with_mask w k m ≡ word (w / 2 ^ k / 16) (m % 16) k (w % 2 ^ k)
unfolding with_mask nibble
with_mask-word w k h m e small =
    let a : ℕ = w / 2 ^ k / 16 in
    let n : ℕ = w / 2 ^ k % 16 in
    let b : ℕ = w % 2 ^ k in
    let b_small : b < 2 ^ k = mod-lt w (one-le-pow k 2 (omega arith)) in
    let cleared : bit_and w (not64 (15 * 2 ^ k)) ≡ word a 0 k b =
      ap (λ (x : ℕ). bit_and x (not64 (15 * 2 ^ k))) (parts_of w k)
      ∙ ap (λ (x : ℕ). bit_and (word a n k b) x) (hole k h e)
      ∙ and_word a n k b h (omega arith) b_small (upper_small w k h e small) in
    let low : bit_and m 15 ≡ m % 16 = bit_and_low 4 m in
    rw (cleared, low) (or_word a (m % 16) k b (omega arith) b_small)

upper_of : (q k b : ℕ) → b < 2 ^ k → (q * 2 ^ k + b) / 2 ^ k ≡ q
upper_of q k b h =
    mul-add-div_right (one-le-pow k 2 (omega arith)) q b ∙ omega (arith, div-eq_of_lt h)

nibble-word : (a m k b : ℕ) → m < 16 → b < 2 ^ k → nibble (word a m k b) k ≡ m
unfolding nibble
nibble-word a m k b hm hb = omega (arith, upper_of (a * 16 + m) k b hb, hm)

nibble_below : (q b k j t : ℕ) → j + 4 + t ≡ k → nibble (q * 2 ^ k + b) j ≡ nibble b j
unfolding nibble
nibble_below q b k j t e =
    let step = pow_split (j + 4) t k e in
    let low = pow_split j 4 (j + 4) (omega arith) in
    let whole : q * 2 ^ k ≡ q * 2 ^ t * 16 * 2 ^ j =
      omega (arith, ap (λ (x : ℕ). q * x) step, ap (λ (x : ℕ). q * 2 ^ t * x) low) in
    let cut = mul-add-div_right (one-le-pow j 2 (omega arith)) (q * 2 ^ t * 16) b in
    let cut' : (q * 2 ^ k + b) / 2 ^ j ≡ q * 2 ^ t * 16 + b / 2 ^ j =
      ap (λ (x : ℕ). (x + b) / 2 ^ j) whole ∙ cut in
    omega (arith, cut')

nibble_above : (x k j t : ℕ) → k + 4 + t ≡ j → nibble x j ≡ nibble (x / 2 ^ k / 16) t
unfolding nibble
nibble_above x k j t e =
    let step = pow_split (k + 4) t j e in
    let low = pow_split k 4 (k + 4) (omega arith) in
    let whole : 2 ^ j ≡ 2 ^ k * 16 * 2 ^ t = omega (arith, step, ap (λ (y : ℕ). 2 ^ t * y) low) in
    let cut : x / 2 ^ j ≡ x / 2 ^ k / 16 / 2 ^ t =
      ap (λ (y : ℕ). x / y) whole
      ∙ sym (div-div-eq-div-mul x (2 ^ k * 16) (2 ^ t))
      ∙ ap (λ (y : ℕ). y / 2 ^ t) (sym (div-div-eq-div-mul x (2 ^ k) 16)) in
    ap (λ (y : ℕ). y % 16) cut

lt-cases : (a b : ℕ) → (a < b) ⊎ (b ≤ a)
lt-cases a b = ground arith

-- The masks of a word in which the mask number `i` was changed.
pub with_mask-nibble :
    (w i j m : ℕ)
    → i < 16
    → j < 16
    → w < 2 ^ 64
    → (i ≡ j → nibble (with_mask w (4 * i) m) (4 * j) ≡ m % 16)
      × (i ≢ j → nibble (with_mask w (4 * i) m) (4 * j) ≡ nibble w (4 * j))
with_mask-nibble w i j m hi hj small =
    let k = 4 * i in
    let h : ℕ = 60 - k in
    let a : ℕ = w / 2 ^ k / 16 in
    let b : ℕ = w % 2 ^ k in
    let b_small : b < 2 ^ k = mod-lt w (one-le-pow k 2 (omega arith)) in
    let changed : with_mask w k m ≡ word a (m % 16) k b =
      with_mask-word w k h m (omega arith) small in
    let cut : word a (m % 16) k b / 2 ^ k ≡ a * 16 + m % 16 =
      upper_of (a * 16 + m % 16) k b b_small in
    (
      λ e.
          ap (λ (x : ℕ). nibble x (4 * j)) changed
          ∙ ap (λ (x : ℕ). nibble (word a (m % 16) k b) (4 * x)) (sym e)
          ∙ nibble-word a (m % 16) k b (omega arith) b_small,
      λ ne. ap (λ (x : ℕ). nibble x (4 * j)) changed ∙ elim (lt-cases j i) [
        | inl e ↦
            nibble_below (a * 16 + m % 16) b k (4 * j) (k - 4 * j - 4) (omega (arith, e))
            ∙ sym (
                ap (λ (x : ℕ). nibble x (4 * j)) (parts_of w k)
                ∙ nibble_below (a * 16 + nibble w k) b k (4 * j) (k - 4 * j - 4) (omega (arith, e)))
        | inr e ↦
            (let t : ℕ = 4 * j - k - 4 in
              let far : k + 4 + t ≡ 4 * j = omega (arith, e, ne) in
              nibble_above (word a (m % 16) k b) k (4 * j) t far
              ∙ ap (λ (x : ℕ). nibble x t) (omega (arith, cut))
              ∙ sym (nibble_above w k (4 * j) t far))
      ],
    )

pub with_mask-small : (w i m : ℕ) → i < 16 → w < 2 ^ 64 → with_mask w (4 * i) m < 2 ^ 64
with_mask-small w i m hi small =
    let k = 4 * i in
    let h : ℕ = 60 - k in
    let q : ℕ = w / 2 ^ k / 16 * 16 + m % 16 in
    let e : k + 4 + h ≡ 64 = omega (arith, hi) in
    let below : q + 1 ≤ 2 ^ h * 16 = omega (arith, upper_small w k h e small) in
    let low = pow_split k 4 (k + 4) (omega arith) in
    let all = pow_split (k + 4) h 64 e in
    omega (
      arith,
      with_mask-word w k h m e small,
      mul-le-mul_right (2 ^ k) below,
      mod-lt w (one-le-pow k 2 (omega arith)),
      all,
      ap (λ (t : ℕ). 2 ^ h * t) low,
    )
