-- ===== src/Prelude/Signed.antt =====
-- Signed request fields (`int64`, `int32`), and the guard `v <= 0`.
use Prim.Native.Nat.{ℕ, zero, suc, ◌<◌}
use mathlib.Core.Path.{◌≡◌}
use mathlib.Core.Option.{Option, none, some}
use native.Mathlib.Omega.{arith}

-- `negsuc n` is -(n + 1).
pub data ℤ : Type 0 where
  pos : ℕ → ℤ
  negsuc : ℕ → ℤ

-- `some n` for a positive value n; `none` where the code's guard `v <= 0` fires.
abbrev pub positive : ℤ → Option ℕ
positive (pos zero) = none
positive (pos (suc n)) = some (suc n)
positive (negsuc _) = none

pub positive_pos : (v : ℤ) {n : ℕ} → positive v ≡ some n → 0 < n
positive_pos v h = ground arith
