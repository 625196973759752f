-- ===== src/Prelude/Words.antt =====
-- Rust's `u64`: its bound and its saturating operations, on numbers that stay below the bound.
use Prim.Native.Nat.{ℕ, ◌+◌, ◌-◌, min}

abbrev pub u64_max : ℕ
u64_max = 18446744073709551615

-- `a.saturating_add(b)` on `u64`.
abbrev pub saturating_add : ℕ → ℕ → ℕ
saturating_add a b = min (a + b) u64_max

-- `a.saturating_sub(b)`, which truncated subtraction is.
abbrev pub saturating_sub : ℕ → ℕ → ℕ
saturating_sub a b = a - b

-- `a.abs_diff(b)`.
abbrev pub abs_diff : ℕ → ℕ → ℕ
abs_diff a b = (a - b) + (b - a)
