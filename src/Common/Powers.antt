-- ===== src/Common/Powers.antt =====
-- Powers, and comparisons of two products with a common factor.
use native.Mathlib.Nat
use Prim.Native.Nat.{ℕ, zero, suc, ◌+◌, ◌-◌, ◌*◌, ◌^◌, ◌<◌, ◌≤◌}
use mathlib.Core.Path.{◌≡◌, sym, ap, ◌∙◌}
use mathlib.Core.Logic.{◌↔◌}
use native.Mathlib.Omega.{arith}

pub pow_add : (b m n : ℕ) → b ^ (m + n) ≡ b ^ m * b ^ n
pow_add b m zero = rw (Nat.add-zero, Nat.pow-zero) (omega arith)
pow_add b m (suc n) = rw (Nat.add-suc, Nat.pow-suc, Nat.pow-suc, pow_add b m n) (omega arith)

pub pow_sub-mul : (b m s : ℕ) → s ≤ m → b ^ (m - s) * b ^ s ≡ b ^ m
pow_sub-mul b m s h = sym (pow_add b (m - s) s) ∙ ap (λ (e : ℕ). b ^ e) (Nat.sub-add_cancel h)

pub mul-lt_iff : (k m n : ℕ) → 0 < k → (m * k < n * k) ↔ (m < n)
mul-lt_iff k m n h = (Nat.lt_of_mul-lt-mul_right k, λ less. Nat.mul-lt-mul_of_pos_right less h)

pub mul-le_iff : (k m n : ℕ) → 0 < k → (m * k ≤ n * k) ↔ (m ≤ n)
mul-le_iff k m n h = (λ le. Nat.le_of_mul-le-mul_right le h, Nat.mul-le-mul_right k)

pub pow_pos : (n : ℕ) → 0 < 10 ^ n
pow_pos n = Nat.one-le-pow n 10 (omega arith)

pub mul-eq_cancel : (k m n : ℕ) → 0 < k → m * k ≡ n * k → m ≡ n
mul-eq_cancel k m n h e =
    let le : m ≤ n = (mul-le_iff k m n h).0 (omega arith) in
    let ge : n ≤ m = (mul-le_iff k n m h).0 (omega arith) in omega arith
