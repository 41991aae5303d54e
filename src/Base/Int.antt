-- ===== src/Base/Int.antt =====
-- Signed integers over the native numbers: what a `long` of the tracer stands for.
use Prim.Native.Nat.{ℕ, zero, suc}
use mathlib.Core.Bool.{Bool, true, false}

-- `negsuc n` is -(n + 1).
pub data ℤ : Type 0 where
  pos : ℕ → ℤ
  negsuc : ℕ → ℤ

-- `n >= 0`
abbrev pub is_nonneg : ℤ → Bool
is_nonneg (pos n) = true
is_nonneg (negsuc n) = false

-- `n > 0`
abbrev pub is_positive : ℤ → Bool
is_positive (pos n) = elim n [ zero ↦ false | suc k ↦ true ]
is_positive (negsuc n) = false

abbrev pub minus_one : ℤ
minus_one = negsuc 0

-- The magnitude of a number that is not negative.
abbrev pub to_ℕ : ℤ → ℕ
to_ℕ (pos n) = n
to_ℕ (negsuc n) = 0
