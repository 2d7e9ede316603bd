-- ===== src/Base/Bits.antt =====
-- `&` with a mask of low ones or of high ones, as arithmetic, at every width.
use Prim.Native.Nat.{ℕ, zero, suc, ◌+◌, ◌-◌, ◌*◌, ◌/◌, ◌%◌, ◌^◌, ◌≤◌, ◌<◌, min}
use nre.Base.Tests.{◌==◌, ==_iff, if◌then◌else◌}
use mathlib.Core.Bool.{Bool, true}
use Prim.Native.Nat.{bit_and, bit_xor, digits, bit_and-bitwise}
use mathlib.Core.Path.{◌≡◌, refl, sym, ap, ◌∙◌}
use native.Mathlib.Nat.{pow-suc, one-le-pow, mod-eq_of_lt}
use native.Mathlib.Omega.{arith}

-- `&` as the library defines it, digit by digit on fuel
abbrev conj : ℕ → ℕ → ℕ → ℕ
conj fuel x y = digits (λ _. zero) min fuel x y

conj-zero : (fuel y : ℕ) → conj fuel 0 y ≡ 0
conj-zero zero y = refl
conj-zero (suc fuel) y = refl

-- Any two amounts of fuel that are enough give the same digits.
enough_fuel : (x y f g : ℕ) → x ≤ f → x ≤ g → conj f x y ≡ conj g x y
enough_fuel zero y f g hf hg = conj-zero f y ∙ sym (conj-zero g y)
enough_fuel (suc x) y zero g hf hg = absurd (omega arith)
enough_fuel (suc x) y (suc f) zero hf hg = absurd (omega arith)
enough_fuel (suc x) y (suc f) (suc g) hf hg =
    let half = suc x / 2 in omega (arith, enough_fuel half (y / 2) f g (omega arith) (omega arith))

-- The lowest digit of `&`, and the rest.
pub bit_and_digit : (x y : ℕ) → bit_and x y ≡ bit_and (x / 2) (y / 2) * 2 + min (x % 2) (y % 2)
bit_and_digit zero y =
    let none_left = bit_and-bitwise 0 (y / 2) in omega (arith, bit_and-bitwise 0 y, none_left)
bit_and_digit (suc x) y =
    let half = suc x / 2 in
    let same = enough_fuel half (y / 2) x half (omega arith) (omega arith) in
    omega (arith, same, bit_and-bitwise half (y / 2), bit_and-bitwise (suc x) y)

vanishes : (bound x : ℕ) → x ≤ bound → bit_and x 0 ≡ 0
vanishes bound zero h = refl
vanishes zero (suc x) h = absurd (omega arith)
vanishes (suc bound) (suc x) h =
    let rest = vanishes bound (suc x / 2) (omega arith) in
    omega (arith, rest, bit_and_digit (suc x) 0)

pub bit_and-zero : (x : ℕ) → bit_and x 0 ≡ 0
bit_and-zero x = vanishes x x (omega arith)

-- `a & (2^k - 1)` of a number written as quotient and remainder
bit_and_fields : (k q r : ℕ) → r < 2 ^ k → bit_and (q * 2 ^ k + r) (2 ^ k - 1) ≡ r
bit_and_fields zero q r h = ground (arith, bit_and-zero (q * 2 ^ 0 + r))
bit_and_fields (suc k) q r h = ground (
  arith,
  bit_and_digit (q * 2 ^ suc k + r) (2 ^ suc k - 1),
  ap (λ (t : ℕ). q * t) (pow-suc 2 k),
  pow-suc 2 k,
  one-le-pow k 2,
  bit_and_fields k q (r / 2),
)

-- `a & (2^k - 1)` is the remainder.
pub bit_and_low : (k a : ℕ) → bit_and a (2 ^ k - 1) ≡ a % 2 ^ k
bit_and_low k a = ground (arith, one-le-pow k 2, bit_and_fields k (a / 2 ^ k) (a % 2 ^ k))

-- `a & ~(2^k - 1)` in `n` bits clears the low digits: it takes the remainder away.
pub bit_and_high :
    (k m q r : ℕ)
    → q < 2 ^ m
    → r < 2 ^ k
    → bit_and (q * 2 ^ k + r) ((2 ^ m - 1) * 2 ^ k) ≡ q * 2 ^ k
bit_and_high zero m q r hq hr =
    let e : q * 1 + r ≡ q = omega arith in
    let f : (2 ^ m - 1) * 1 ≡ 2 ^ m - 1 = omega arith in
    rw (e, f) (bit_and_low m q ∙ mod-eq_of_lt hq ∙ omega arith)
bit_and_high (suc k) m q r hq hr = ground (
  arith,
  bit_and_digit (q * 2 ^ suc k + r) ((2 ^ m - 1) * 2 ^ suc k),
  ap (λ (t : ℕ). q * t) (pow-suc 2 k),
  ap (λ (t : ℕ). (2 ^ m - 1) * t) (pow-suc 2 k),
  pow-suc 2 k,
  bit_and_high k m q (r / 2) hq,
)

-- The number of inputs below a bound at which a test fails.
abbrev pub failures : ℕ → (ℕ → Bool) → ℕ
failures zero test = 0
failures (suc n) test = (if test n then 0 else 1) + failures n test

-- A test with no failure below a bound passes at each number below it.
pub no_failure :
    (bound : ℕ) (test : ℕ → Bool) → failures bound test ≡ 0 → (x : ℕ) → x < bound → test x ≡ true
no_failure zero test none_fail x h = absurd (omega arith)
no_failure (suc n) test none_fail x h = ground (arith, no_failure n test _ x)

xor_31_table : failures 32 (λ l. bit_xor (31 - l) 31 == l) ≡ 0
xor_31_table = refl

-- `^ 0x1F` is the difference from 31.
pub bit_xor_31 : (l : ℕ) → l < 32 → bit_xor (31 - l) 31 ≡ l
bit_xor_31 l h =
    let passes = no_failure 32 (λ l. bit_xor (31 - l) 31 == l) xor_31_table l h in
    (==_iff _ l).0 passes
