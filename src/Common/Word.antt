-- ===== src/Common/Word.antt =====
-- 64-bit integers as bit patterns: a number below 2 ^ 64, read as `u64` or as `i64`.
use Prim.Native.Nat.{ℕ, ◌+◌, ◌%◌, ◌^◌, ◌<◌}
use mathlib.Core.Path.{◌≡◌}
use mathlib.Core.Bool.{Bool}
use native.Mathlib.Omega.{arith}
use place_net_hamlet.Common.Tests.{ltb, leb}

-- `a + b` on `i64` and `u64`, which wraps in a release build.
unfoldable pub add64 : ℕ → ℕ → ℕ
add64 a b = (a + b) % 2 ^ 64

-- `a < b` and `a <= b` on `i64`: the sign bit is flipped to compare as unsigned numbers.
unfoldable pub lt_i64 : ℕ → ℕ → Bool
lt_i64 a b = ltb ((a + 2 ^ 63) % 2 ^ 64) ((b + 2 ^ 63) % 2 ^ 64)

unfoldable pub le_i64 : ℕ → ℕ → Bool
le_i64 a b = leb ((a + 2 ^ 63) % 2 ^ 64) ((b + 2 ^ 63) % 2 ^ 64)

-- Where no sign bit is set, these are the operations on numbers.
pub add64-of_lt : (a b : ℕ) → a + b < 2 ^ 64 → add64 a b ≡ a + b
unfolding add64
add64-of_lt a b h = omega arith

pub lt_i64_nonneg : (a b : ℕ) → a < 2 ^ 63 → b < 2 ^ 63 → lt_i64 a b ≡ ltb a b
unfolding lt_i64
lt_i64_nonneg a b h k = ground arith

pub le_i64_nonneg : (a b : ℕ) → a < 2 ^ 63 → b < 2 ^ 63 → le_i64 a b ≡ leb a b
unfolding le_i64
le_i64_nonneg a b h k = ground arith
