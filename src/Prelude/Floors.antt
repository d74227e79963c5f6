-- ===== src/Prelude/Floors.antt =====
-- Bounds on a floored quotient.
use Prim.Native.Nat.{ℕ, suc, ◌*◌, ◌/◌, ◌≤◌, ◌<◌}
use native.Mathlib.Omega.{arith}

pub floor_le : (n d : ℕ) → n / d * d ≤ n
floor_le n d = omega arith

pub lt_next_floor : (n d : ℕ) → 0 < d → n < suc (n / d) * d
lt_next_floor n d h = omega arith
