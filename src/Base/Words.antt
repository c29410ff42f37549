-- ===== src/Base/Words.antt =====
-- 64-bit words as native numbers below 2 ^ 64. An `int64_t` is its two's complement bit pattern,
-- so that `std::atomic<int64_t>::fetch_add` is addition modulo 2 ^ 64.
use Prim.Native.Nat.{ℕ, ◌+◌, ◌-◌, ◌%◌, ◌^◌, ◌<◌}
use mathlib.Core.Bool.{Bool}
use speedex_parallelize.Base.Tests.{leb, ltb}

abbrev pub u64 : ℕ → ℕ
u64 n = n % 2 ^ 64

abbrev pub add64 : ℕ → ℕ → ℕ
add64 a b = (a + b) % 2 ^ 64

-- a - b, for words; `-` on ℕ stops at 0, so the modulus is added first.
abbrev pub sub64 : ℕ → ℕ → ℕ
sub64 a b = (a + 2 ^ 64 - b) % 2 ^ 64

abbrev pub neg64 : ℕ → ℕ
neg64 a = (2 ^ 64 - a) % 2 ^ 64

-- The sign bit of an `int64_t`.
abbrev pub is_negative : ℕ → Bool
is_negative a = leb (2 ^ 63) a

abbrev pub IsWord : ℕ → Type 0
IsWord a = a < 2 ^ 64

-- An `int64_t` that is not negative.
abbrev pub IsNonneg : ℕ → Type 0
IsNonneg a = a < 2 ^ 63

-- `a < b` and `a <= b` of `int64` words.
abbrev pub signed_ltb : ℕ → ℕ → Bool
signed_ltb a b = ltb ((a + 2 ^ 63) % 2 ^ 64) ((b + 2 ^ 63) % 2 ^ 64)

abbrev pub signed_leb : ℕ → ℕ → Bool
signed_leb a b = leb ((a + 2 ^ 63) % 2 ^ 64) ((b + 2 ^ 63) % 2 ^ 64)
