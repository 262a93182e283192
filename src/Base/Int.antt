-- ===== src/Base/Int.antt =====
-- Python's signed integers, where a value may be negative. `negsuc n` is -(n + 1).
use Prim.Native.Nat.{ℕ, suc, ◌+◌, ◌-◌}

pub data ℤ : Type 0 where
  pos : ℕ → ℤ
  negsuc : ℕ → ℤ

-- `max(0, n + d)`
abbrev pub add_clamped : ℕ → ℤ → ℕ
add_clamped n (pos d) = n + d
add_clamped n (negsuc d) = n - suc d
