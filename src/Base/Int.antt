-- ===== src/Base/Int.antt =====
-- Integers over the native numbers, and the one that a 64-bit pattern stands for.
use Prim.Native.Nat.{ℕ, ◌-◌, ◌^◌}
use provider_operator_exampl.Base.Text.{if◌then◌else◌}
use provider_operator_exampl.Base.Decimal.{ltb}

-- `negsuc n` is -(n + 1).
pub data ℤ : Type 0 where
  pos : ℕ → ℤ
  negsuc : ℕ → ℤ

abbrev pub signed64 : ℕ → ℤ
signed64 w = if ltb w (2 ^ 63) then pos w else negsuc (2 ^ 64 - w - 1)
