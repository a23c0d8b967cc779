-- ===== src/Common/Int.antt =====
-- Signed integers over the native numbers, as Go's `int` holds them.
use grumble.Common.{ℕ, zero, suc, Bool, true, false, ◌==◌}

-- `negsuc n` is -(n + 1).
pub data ℤ : Type 0 where
  pos : ℕ → ℤ
  negsuc : ℕ → ℤ

-- The absolute value.
abbrev pub abs : ℤ → ℕ
abs (pos n) = n
abs (negsuc n) = suc n

abbrev pub eqb_ℤ : ℤ → ℤ → Bool
eqb_ℤ (pos a) (pos b) = a == b
eqb_ℤ (negsuc a) (negsuc b) = a == b
eqb_ℤ _ _ = false

abbrev pub is_nonneg : ℤ → Bool
is_nonneg (pos n) = true
is_nonneg (negsuc n) = false

-- `-int(n)`
abbrev pub neg : ℕ → ℤ
neg zero = pos 0
neg (suc n) = negsuc n
