-- ===== src/Base/Words.antt =====
-- Machine words as native numbers: sums, differences and complements modulo 2 ^ 64 and 2 ^ 32.
use Prim.Native.Nat.{ℕ, ◌+◌, ◌-◌, ◌%◌, ◌^◌}

-- `uintptr_t`, `size_t` and `word_t` on x86_64, and `uint64_t`
abbrev pub word_mod : ℕ
word_mod = 2 ^ 64

-- `uint` and `uint32_t`
abbrev pub u32_mod : ℕ
u32_mod = 2 ^ 32

abbrev pub add64 : ℕ → ℕ → ℕ
add64 a b = (a + b) % word_mod

-- The subtrahend is a word, at most 2 ^ 64 - 1.
abbrev pub sub64 : ℕ → ℕ → ℕ
sub64 a b = (a + (word_mod - b)) % word_mod

-- `~a` of a word
abbrev pub not64 : ℕ → ℕ
not64 a = word_mod - 1 - a

abbrev pub add32 : ℕ → ℕ → ℕ
add32 a b = (a + b) % u32_mod

abbrev pub sub32 : ℕ → ℕ → ℕ
sub32 a b = (a + (u32_mod - b)) % u32_mod
