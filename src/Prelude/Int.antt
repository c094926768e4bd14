-- ===== src/Prelude/Int.antt =====
-- Signed integers over the native numbers, as far as error codes and statuses need them.
use Prim.Native.Nat.{ℕ, ◌-◌}

-- `negsuc n` is -(n + 1).
pub data ℤ : Type 0 where
  pos : ℕ → ℤ
  negsuc : ℕ → ℤ

-- -n, for a positive numeral.
abbrev pub neg : ℕ → ℤ
neg n = negsuc (n - 1)
