-- ===== src/Base/Word.antt =====
-- Go's 64-bit integers: an `int64` is an integer, and an operation wraps its result.
use Prim.Native.Nat.{ℕ, ◌-◌, ◌%◌, ◌^◌, ◌≤◌}
use mathlib.Core.Path.{◌≡◌}
use native.Mathlib.Omega.{arith}
use signoz_mcp_server.Base.Tests.{ltb, if◌then◌else◌}
use signoz_mcp_server.Base.Int.{ℤ, pos, negsuc, pos_part, neg_part}

-- The bit pattern of an integer, and the integer that a bit pattern stands for.
abbrev pub to_bits : ℤ → ℕ
to_bits (pos n) = n % 2 ^ 64
to_bits (negsuc n) = 2 ^ 64 - 1 - n % 2 ^ 64

abbrev pub of_bits : ℕ → ℤ
of_bits m = if ltb m (2 ^ 63) then pos m else negsuc (2 ^ 64 - 1 - m)

-- int64(x)
unfoldable pub wrap64 : ℤ → ℤ
wrap64 a = of_bits (to_bits a)

abbrev pub max_int64 : ℕ
max_int64 = 2 ^ 63 - 1

pub record IsInt64 (a : ℤ) : Type 0 where
  pub upper : pos_part a ≤ max_int64
  pub lower : neg_part a ≤ 2 ^ 63

pub wrap64-IsInt64 : (a : ℤ) → IsInt64 (wrap64 a)
unfolding wrap64
wrap64-IsInt64 a = ground arith

pub wrap64_of_IsInt64 : (a : ℤ) → IsInt64 a → wrap64 a ≡ a
unfolding wrap64
wrap64_of_IsInt64 a h = ground arith
