-- ===== src/Base/Int.antt =====
-- `isize` results: a count, or a negative error number.
use Prim.Native.Nat.{ℕ, ◌-◌}

-- `negsuc n` is -(n + 1).
pub data ℤ : Type 0 where
  pos : ℕ → ℤ
  negsuc : ℕ → ℤ

-- The error number `-n`, for a positive `n`.
abbrev pub neg : ℕ → ℤ
neg n = negsuc (n - 1)
