-- ===== src/Base/Int.antt =====
-- Signed integers over the native numbers, for the source's `i32`.
use Prim.Native.Nat.{ℕ, ◌-◌, ◌%◌, ◌^◌, ◌<◌}
use native.Mathlib.Omega.{arith}
use mathlib.Core.Path.{◌≡◌}
use nsq_async_rs.Base.Tests.{ltb, if◌then◌else◌}

-- `negsuc n` is -(n + 1).
pub data ℤ : Type 0 where
  pos : ℕ → ℤ
  negsuc : ℕ → ℤ

-- `i32::from_be_bytes` and `as i32`: the number that a 32-bit pattern stands for.
abbrev pub to_i32 : ℕ → ℤ
to_i32 w = if ltb w (2 ^ 31) then pos w else negsuc (2 ^ 32 - w - 1)

-- `as u32` of an `i32`: its bit pattern.
abbrev pub of_i32 : ℤ → ℕ
of_i32 (pos n) = n % 2 ^ 32
of_i32 (negsuc n) = 2 ^ 32 - 1 - n % 2 ^ 32

pub of_i32-to_i32 : (w : ℕ) → w < 2 ^ 32 → of_i32 (to_i32 w) ≡ w
of_i32-to_i32 w h = ground arith
