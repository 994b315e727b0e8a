-- ===== src/Base/Words.antt =====
-- Machine words as bit patterns below 2 ^ 64: `int` and `int64` in two's complement, `uint64` as
-- the number itself.
use Prim.Native.Nat.{ℕ, ◌+◌, ◌-◌, ◌%◌, ◌^◌, ◌<◌}
use mathlib.Core.Bool.{Bool}
use mathlib.Core.Path.{◌≡◌}
use native.Mathlib.Omega.{arith}
use drt_go_chain_storage.Base.Tests.{ltb, leb}

abbrev pub add64 : ℕ → ℕ → ℕ
add64 a b = (a + b) % 2 ^ 64

abbrev pub sub64 : ℕ → ℕ → ℕ
sub64 a b = (a + 2 ^ 64 - b) % 2 ^ 64

-- the sign bit of an `int64`
abbrev pub is_negative : ℕ → Bool
is_negative a = leb (2 ^ 63) a

-- `a < b` of two `int64`
abbrev pub ltb_int64 : ℕ → ℕ → Bool
ltb_int64 a b = ltb ((a + 2 ^ 63) % 2 ^ 64) ((b + 2 ^ 63) % 2 ^ 64)

-- On patterns of numbers that are not negative, the signed test is the plain one.
pub ltb_int64-ltb : (a b : ℕ) → a < 2 ^ 63 → b < 2 ^ 63 → ltb_int64 a b ≡ ltb a b
ltb_int64-ltb a b ha hb = ground arith
