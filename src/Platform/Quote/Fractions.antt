-- ===== src/Platform/Quote/Fractions.antt =====
-- The fractions of packages/platform/src/quotes/quote-math.ts keep the value of what they are made of.
use native.Mathlib.Nat
use mathlib.Core.WellFounded.{Acc}
use Prim.Native.Nat.{◌∣◌}
use solana_payment_ops.Common.{
  ℕ, zero, suc, ◌+◌, ◌*◌, ◌/◌, ◌%◌, ◌<◌, ◌≡◌, refl, ap, false, ◌==◌, arith,
}
use solana_payment_ops.Common.Result.{ok}
use solana_payment_ops.Common.Decimal.{lt_wf}
use solana_payment_ops.Common.Powers.{mul-eq_cancel, mul-le_iff, mul-lt_iff}
use solana_payment_ops.Common.Rounding.{IsCeiling, rounded_up-IsCeiling}
use solana_payment_ops.Platform.Quote.{
  Fraction, euclid_loop, euclid_step_lt, greatest_common_divisor, reduce, multiply, divide,
  ceil_fraction,
}

euclid_loop-divides :
    (a b : ℕ) (seen : Acc ◌<◌ b) → (euclid_loop a b seen ∣ a) × (euclid_loop a b seen ∣ b)
unfolding euclid_loop
euclid_loop-divides a zero seen = (Nat.dvd_refl a, Nat.dvd-zero a)
euclid_loop-divides a (suc b) (Acc.intro _ below) =
    let rest = euclid_loop-divides (suc b) (a % suc b) (below (a % suc b) (euclid_step_lt a b)) in
    ((Nat.dvd-mod_iff _ rest.0).0 rest.1, rest.0)

divisor-divides : (n d : ℕ) → (greatest_common_divisor n d ∣ n) × (greatest_common_divisor n d ∣ d)
unfolding greatest_common_divisor
divisor-divides n d = euclid_loop-divides n d (lt_wf.apply d)

-- A fraction that stands for `n / d`.
abbrev pub StandsFor : Fraction → ℕ → ℕ → Type 0
StandsFor f n d = (0 < d) × (0 < f.d) × (f.n * d ≡ n * f.d)

factor_pos : (q g d : ℕ) → 0 < d → q * g ≡ d → 0 < q
factor_pos zero g d h e = omega (arith, e, Nat.zero-mul g)
factor_pos (suc q) g d h e = omega arith

pub reduce-StandsFor : (f : Fraction) → 0 < f.d → StandsFor (reduce f) f.n f.d
unfolding reduce
reduce-StandsFor f h =
    let g : ℕ = greatest_common_divisor f.n f.d in
    let divides = divisor-divides f.n f.d in
    let top : f.n / g * g ≡ f.n = Nat.div-mul_cancel g divides.0 in
    let bottom : f.d / g * g ≡ f.d = Nat.div-mul_cancel g divides.1 in
    (
      h,
      factor_pos (f.d / g) g f.d h bottom,
      omega (arith, ap (λ (t : ℕ). t * (f.d / g)) top, ap (λ (t : ℕ). f.n / g * t) bottom),
    )

StandsFor-trans :
    (f g : Fraction) (n d : ℕ) → StandsFor f n d → StandsFor g f.n f.d → StandsFor g n d
StandsFor-trans f g n d h k = (
  h.0,
  k.1,
  mul-eq_cancel f.d (g.n * d) (n * g.d) h.1
      (omega (arith, ap (λ (t : ℕ). t * g.d) h.2, ap (λ (t : ℕ). t * d) k.2)),
)

pub mul_pos : (a b : ℕ) → 0 < a → 0 < b → 0 < a * b
mul_pos a b h k = Nat.mul-le-mul h k

pub multiply-StandsFor :
    (a b : Fraction) (n d m e : ℕ)
    → StandsFor a n d
    → StandsFor b m e
    → StandsFor (multiply a b) (n * m) (d * e)
multiply-StandsFor a b n d m e h k =
    let product : Fraction = record { n = a.n * b.n; d = a.d * b.d } in
    StandsFor-trans product (multiply a b) (n * m) (d * e)
      (
        mul_pos d e h.0 k.0,
        mul_pos a.d b.d h.1 k.1,
        omega (arith, ap (λ (t : ℕ). t * (b.n * e)) h.2, ap (λ (t : ℕ). n * a.d * t) k.2),
      )
      (reduce-StandsFor product (mul_pos a.d b.d h.1 k.1))

-- Division by a positive fraction returns.
pub divide-StandsFor :
    (a b : Fraction) (n d m e : ℕ)
    → StandsFor a n d
    → StandsFor b m e
    → 0 < m
    → (f : Fraction) × (divide a b ≡ ok f) × StandsFor f (n * e) (d * m)
divide-StandsFor a b n d m e h k positive =
    let top : 0 < b.n = factor_pos b.n e (m * b.d) (mul_pos m b.d positive k.1) k.2 in
    let nonzero : (b.n == 0) ≡ false = ground arith in
    let quotient : Fraction = record { n = a.n * b.d; d = a.d * b.n } in
    (
      reduce quotient,
      rw nonzero refl,
      StandsFor-trans quotient (reduce quotient) (n * e) (d * m)
          (
            mul_pos d m h.0 positive,
            mul_pos a.d b.n h.1 top,
            omega (arith, ap (λ (t : ℕ). t * (b.d * m)) h.2, ap (λ (t : ℕ). n * a.d * t) k.2),
          )
          (reduce-StandsFor quotient (mul_pos a.d b.n h.1 top)),
    )

pub ceil_fraction-IsCeiling :
    (f : Fraction) (n d : ℕ) → StandsFor f n d → IsCeiling n d (ceil_fraction f)
ceil_fraction-IsCeiling f n d h =
    let c : ℕ = ceil_fraction f in
    let own : IsCeiling f.n f.d c = rounded_up-IsCeiling f.n f.d h.1 in
    let le = Nat.mul-le-mul_right d own.0 in
    let lt = Nat.mul-lt-mul_of_pos_right own.1 h.0 in
    (
      (mul-le_iff f.d n (c * d) h.1).0 (omega (arith, le, h.2)),
      (mul-lt_iff f.d (c * d) (n + d) h.1).0 (omega (arith, lt, h.2)),
    )
