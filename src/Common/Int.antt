-- ===== src/Common/Int.antt =====
-- Go's signed `int` where the sign matters: the step of a movement, an index from outside.
use Prim.Native.Nat.{ℕ, suc, ◌+◌, ◌-◌}

-- `negsuc n` is -(n + 1).
pub data ℤ : Type 0 where
  pos : ℕ → ℤ
  negsuc : ℕ → ℤ

-- `max(0, n + d)`
abbrev pub move_by : ℕ → ℤ → ℕ
move_by n (pos d) = n + d
move_by n (negsuc d) = n - suc d
