-- ===== src/Prelude/Int.antt =====
-- Signed integers over the native numbers, and the range of the source's `int`.
use Prim.Native.Nat.{ℕ, ◌^◌, ◌<◌}

-- `negsuc n` is -(n + 1).
pub data ℤ : Type 0 where
  pos : ℕ → ℤ
  negsuc : ℕ → ℤ

-- The values of a 32-bit `int`.
abbrev pub IsInt32 : ℤ → Type 0
IsInt32 (pos n) = n < 2 ^ 31
IsInt32 (negsuc n) = n < 2 ^ 31
