-- ===== src/Utcb/Slot.antt =====
-- The word that counts the saved items and the layers.
use nre.Base.{
  ℕ, ◌+◌, ◌*◌, ◌/◌, ◌^◌, ◌<◌, ◌≡◌, ap, ◌∙◌, arith, bit_and, bit_or, bit_and_low, bit_and_high,
  bit_and-zero,
}
use nre.Bits.Digits.{or_parts, and_parts, bit_or-zero, zero_bit_or}
use nre.Utcb.{layer_of, untyped_of, typed_of, with_untyped, with_typed, with_layer}

abbrev pub fields : ℕ → ℕ → ℕ → ℕ
fields t l c = t * 2 ^ 16 + l * 2 ^ 12 + c

pub fields_read :
    (t l c : ℕ)
    → t < 2 ^ 16
    → l < 16
    → c < 2 ^ 12
    → (typed_of (fields t l c) ≡ t)
      × (layer_of (fields t l c) ≡ l)
      × (untyped_of (fields t l c) ≡ c)
unfolding typed_of layer_of untyped_of
fields_read t l c ht hl hc = (
  omega (arith, ht, hl, hc),
  bit_and_low 4 (fields t l c / 2 ^ 12) ∙ omega (arith, hl, hc),
  bit_and_low 12 (fields t l c) ∙ omega (arith, hc),
)

pub with_untyped-fields :
    (t l c c' : ℕ)
    → t < 2 ^ 16
    → l < 16
    → c < 2 ^ 12
    → c' < 2 ^ 12
    → with_untyped (fields t l c) c' ≡ fields t l c'
unfolding with_untyped
with_untyped-fields t l c c' ht hl hc hc' =
    let q : ℕ = t * 16 + l in
    let split : fields t l c ≡ q * 2 ^ 12 + c = omega arith in
    let high : bit_and (fields t l c) 0xFFFFF000 ≡ q * 2 ^ 12 + 0 =
      ap (λ (x : ℕ). bit_and x 0xFFFFF000) split
      ∙ bit_and_high 12 20 q c (omega (arith, ht, hl)) hc
      ∙ omega arith in
    let joined = or_parts 12 q 0 0 c' (omega arith) hc' in
    rw high (
      ap (λ (x : ℕ). bit_or (q * 2 ^ 12 + 0) x) (omega arith)
      ∙ joined
      ∙ omega (arith, bit_or-zero q, zero_bit_or c'))

pub with_typed-fields :
    (t l c t' : ℕ) → l < 16 → c < 2 ^ 12 → with_typed (fields t l c) t' ≡ fields t' l c
unfolding with_typed
with_typed-fields t l c t' hl hc =
    let r : ℕ = l * 2 ^ 12 + c in
    let low : bit_and (fields t l c) 0xFFFF ≡ 0 * 2 ^ 16 + r =
      bit_and_low 16 (fields t l c) ∙ omega (arith, hl, hc) in
    let joined = or_parts 16 0 t' r 0 (omega (arith, hl, hc)) (omega arith) in
    rw low (
      ap (λ (x : ℕ). bit_or (0 * 2 ^ 16 + r) x) (omega arith)
      ∙ joined
      ∙ omega (arith, bit_or-zero r, zero_bit_or t'))

pub with_layer-fields :
    (t l c l' : ℕ)
    → t < 2 ^ 16
    → l < 16
    → c < 2 ^ 12
    → l' < 16
    → with_layer (fields t l c) l' ≡ fields t l' c
unfolding with_layer
with_layer-fields t l c l' ht hl hc hl' =
    let outer =
      and_parts 16 t 0xFFFF (l * 2 ^ 12 + c) 0x0FFF (omega (arith, hl, hc)) (omega arith) in
    let inner = and_parts 12 l 0 c 0xFFF hc (omega arith) in
    let cleared : bit_and (fields t l c) 0xFFFF0FFF ≡ (t * 16 + 0) * 2 ^ 12 + c =
      ap (λ (x : ℕ). bit_and x 0xFFFF0FFF) (omega arith)
      ∙ outer
      ∙ omega (arith, inner, bit_and_low 16 t, bit_and_low 12 c, bit_and-zero l, ht, hc) in
    let upper = or_parts 12 (t * 16 + 0) l' c 0 hc (omega arith) in
    let joined = or_parts 4 t 0 0 l' (omega arith) hl' in
    rw cleared (
      ap (λ (x : ℕ). bit_or ((t * 16 + 0) * 2 ^ 12 + c) x) (omega arith)
      ∙ upper
      ∙ ap (λ (x : ℕ). x * 2 ^ 12 + bit_or c 0)
          (ap (λ (x : ℕ). bit_or (t * 16 + 0) x) (omega arith) ∙ joined)
      ∙ omega (arith, bit_or-zero t, zero_bit_or l', bit_or-zero c))
