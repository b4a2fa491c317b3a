-- ===== src/Common/Rounding.antt =====
-- Whole numbers that a fraction is rounded up to.
use native.Mathlib.Nat
use Prim.Native.Nat.{ℕ, ◌+◌, ◌-◌, ◌*◌, ◌/◌, ◌<◌, ◌≤◌}
use native.Mathlib.Omega.{arith}

-- The least whole number that `n / d` does not exceed.
abbrev pub IsCeiling : ℕ → ℕ → ℕ → Type 0
IsCeiling n d amount = (n ≤ amount * d) × (amount * d < n + d)

pub rounded_up-IsCeiling : (n d : ℕ) → 0 < d → IsCeiling n d ((n + d - 1) / d)
rounded_up-IsCeiling n d h =
    let below : n + d - 1 < (n + d - 1) / d * d + d = Nat.lt-div-mul-add h in
    let above : (n + d - 1) / d * d ≤ n + d - 1 = Nat.div-mul-le_self (n + d - 1) d in
    (omega arith, omega arith)
