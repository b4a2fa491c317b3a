-- ===== src/Platform/ExactDecimal/Value.antt =====
-- The operations of packages/platform/src/quotes/exact-decimal.ts against the numbers that decimals
-- stand for, compared by multiplying out the powers of ten.
use native.Mathlib.Nat
use solana_payment_ops.Common.{
  ℕ, zero, suc, ◌+◌, ◌-◌, ◌*◌, ◌/◌, ◌%◌, ◌^◌, ◌<◌, ◌≤◌, ◌≡◌, ◌↔◌, ◌⊎◌, inl, inr, refl, sym, ap, ap₂,
  ◌∙◌, true, if◌then◌else◌, ltb, leb, ◌==◌, arith, if-both,
}
use solana_payment_ops.Common.Powers.{pow_sub-mul, mul-lt_iff, mul-le_iff, mul-eq_cancel, pow_pos}
use solana_payment_ops.Platform.ExactDecimal.{
  ExactDecimal, strip_zeros, normalize, at_scale, common_scale, Comparison, less, greater, same,
  compare_decimal, ratio_at_most, absolute_difference,
}

-- The numerator of a decimal over the product of both scales' powers.
abbrev pub crossed : ExactDecimal → ExactDecimal → ℕ
crossed value other = value.coefficient * 10 ^ other.scale

-- Two decimals that stand for one number.
abbrev pub SameValue : ExactDecimal → ExactDecimal → Type 0
SameValue a b = crossed a b ≡ crossed b a

-- No zero at the end of the fraction.
abbrev pub IsNormal : ExactDecimal → Type 0
IsNormal value = (value.scale ≡ 0) ⊎ (0 < value.coefficient % 10)

pub strip_zeros-value :
    (c s : ℕ) → (strip_zeros c s).coefficient * 10 ^ s ≡ c * 10 ^ (strip_zeros c s).scale
strip_zeros-value c zero = refl
strip_zeros-value c (suc s) =
    if-both (λ (d : ExactDecimal). d.coefficient * 10 ^ suc s ≡ c * 10 ^ d.scale) (c % 10 == 0) _ _
      (λ divides.
        let rest = strip_zeros-value (c / 10) s in
        let ten : 10 * (c / 10) ≡ c = ground arith in
        rw Nat.pow-suc
          (omega (arith, rest, ap (λ (n : ℕ). n * 10 ^ (strip_zeros (c / 10) s).scale) ten)))
      (λ _. refl)

pub strip_zeros-IsNormal : (c s : ℕ) → IsNormal (strip_zeros c s)
strip_zeros-IsNormal c zero = inl refl
strip_zeros-IsNormal c (suc s) =
    if-both IsNormal (c % 10 == 0) _ _ (λ _. strip_zeros-IsNormal (c / 10) s)
      (λ ends. inr (ground arith))

-- Bringing a coefficient to a larger scale multiplies it by the missing powers of ten.
at_scale-value :
    (m : ℕ) (value : ExactDecimal)
    → value.scale ≤ m
    → at_scale m value * 10 ^ value.scale ≡ value.coefficient * 10 ^ m
at_scale-value m value h =
    omega (arith, ap (λ (p : ℕ). value.coefficient * p) (pow_sub-mul 10 m value.scale h))

-- Compared at any common scale, two decimals compare as their values do.
module _ (m : ℕ) (a b : ExactDecimal) (ha : a.scale ≤ m) (hb : b.scale ≤ m) where
  left_crossed : at_scale m a * (10 ^ a.scale * 10 ^ b.scale) ≡ crossed a b * 10 ^ m
  left_crossed = omega (arith, ap (λ (t : ℕ). t * 10 ^ b.scale) (at_scale-value m a ha))

  right_crossed : at_scale m b * (10 ^ a.scale * 10 ^ b.scale) ≡ crossed b a * 10 ^ m
  right_crossed = omega (arith, ap (λ (t : ℕ). t * 10 ^ a.scale) (at_scale-value m b hb))

  factor_pos : 0 < 10 ^ a.scale * 10 ^ b.scale
  factor_pos = Nat.mul-le-mul (pow_pos a.scale) (pow_pos b.scale)

  pub at_scale-lt_iff : (at_scale m a < at_scale m b) ↔ (crossed a b < crossed b a)
  at_scale-lt_iff =
      let scaled =
        mul-lt_iff (10 ^ a.scale * 10 ^ b.scale) (at_scale m a) (at_scale m b) factor_pos in
      let crosses = mul-lt_iff (10 ^ m) (crossed a b) (crossed b a) (pow_pos m) in
      (
        λ lt. crosses.0 (rw (left_crossed, right_crossed) at (scaled.1 lt)),
        λ lt. scaled.0 (rw (left_crossed, right_crossed) (crosses.1 lt)),
      )

  pub at_scale-le_iff :
      (p q : ℕ) → (at_scale m a * p ≤ at_scale m b * q) ↔ (crossed a b * p ≤ crossed b a * q)
  at_scale-le_iff p q =
      let scaled =
        mul-le_iff (10 ^ a.scale * 10 ^ b.scale) (at_scale m a * p) (at_scale m b * q) factor_pos in
      let crosses = mul-le_iff (10 ^ m) (crossed a b * p) (crossed b a * q) (pow_pos m) in
      let left = ap (λ (t : ℕ). t * p) left_crossed in
      let right = ap (λ (t : ℕ). t * q) right_crossed in
      (
        λ le. crosses.0 (let wide = scaled.1 le in omega arith),
        λ le. scaled.0 (let wide = crosses.1 le in omega arith),
      )

common_scale-le : (a b : ExactDecimal) → (a.scale ≤ common_scale a b) × (b.scale ≤ common_scale a b)
common_scale-le a b = (omega arith, omega arith)

comparison_of : ℕ → ℕ → Comparison
comparison_of x y = if ltb x y then less else if ltb y x then greater else same

comparison-of_lt :
    (x y u v : ℕ)
    → ((x < y) ↔ (u < v))
    → ((y < x) ↔ (v < u))
    → ((comparison_of x y ≡ less) ↔ (u < v))
      × ((comparison_of x y ≡ greater) ↔ (v < u))
      × ((comparison_of x y ≡ same) ↔ (u ≡ v))
unfolding comparison_of
comparison-of_lt x y u v below above = (
  ground (arith, below.0, below.1),
  ground (arith, above.0, above.1),
  ground (arith, below.0, below.1, above.0, above.1),
)

-- The comparison of two decimals is the comparison of the numbers they stand for.
pub compare_decimal-value :
    (a b : ExactDecimal)
    → ((compare_decimal a b ≡ less) ↔ (crossed a b < crossed b a))
      × ((compare_decimal a b ≡ greater) ↔ (crossed b a < crossed a b))
      × ((compare_decimal a b ≡ same) ↔ SameValue a b)
unfolding compare_decimal comparison_of
compare_decimal-value a b =
    let scales = common_scale-le a b in
    let below = at_scale-lt_iff (common_scale a b) a b scales.0 scales.1 in
    let above = at_scale-lt_iff (common_scale a b) b a scales.1 scales.0 in
    comparison-of_lt (at_scale (common_scale a b) a) (at_scale (common_scale a b) b) (crossed a b)
      (crossed b a) below above

-- The ratio of two decimals is at most p/q when the denominator is positive and the products say so.
pub ratio_at_most-value :
    (a b : ExactDecimal) (p q : ℕ)
    → (ratio_at_most a b p q ≡ true) ↔ ((0 < b.coefficient) × (crossed a b * q ≤ crossed b a * p))
unfolding ratio_at_most
ratio_at_most-value a b p q =
    let scales = common_scale-le a b in
    let iff = at_scale-le_iff (common_scale a b) a b scales.0 scales.1 q p in
    ground (arith, iff.0, iff.1)

abbrev pub distance : ℕ → ℕ → ℕ
distance x y = (x - y) + (y - x)

distance-mul : (x y k : ℕ) → distance (x * k) (y * k) ≡ distance x y * k
distance-mul x y k = omega (arith, Nat.mul-sub k x y, Nat.mul-sub k y x)

if-distance : (x y : ℕ) → (if leb y x then x - y else y - x) ≡ distance x y
if-distance x y = ground arith

cancel-scale : (c k d s g p : ℕ) → 0 < p → c * p ≡ d * s → d * k ≡ g * p → c * k ≡ g * s
cancel-scale c k d s g p h stripped scaled =
    mul-eq_cancel p (c * k) (g * s) h
      (omega (arith, ap (λ (t : ℕ). t * k) stripped, ap (λ (t : ℕ). t * s) scaled))

-- The absolute difference of two decimals stands for the distance of their numbers, and is normal.
pub absolute_difference-value :
    (a b : ExactDecimal)
    → ((absolute_difference a b).coefficient * (10 ^ a.scale * 10 ^ b.scale)
        ≡ distance (crossed a b) (crossed b a) * 10 ^ (absolute_difference a b).scale)
      × IsNormal (absolute_difference a b)
unfolding absolute_difference normalize
absolute_difference-value a b =
    let m = common_scale a b in
    let (ha, hb) = common_scale-le a b in
    let d : ℕ =
      (if leb (at_scale m b) (at_scale m a)
        then at_scale m a - at_scale m b
        else at_scale m b - at_scale m a) in
    let k = 10 ^ a.scale * 10 ^ b.scale in
    let scaled : d * k ≡ distance (crossed a b) (crossed b a) * 10 ^ m = rw if-distance (
      sym (distance-mul (at_scale m a) (at_scale m b) k)
      ∙ ap₂ distance (left_crossed m a b ha hb) (right_crossed m a b ha hb)
      ∙ distance-mul (crossed a b) (crossed b a) (10 ^ m)) in
    (
      cancel-scale (strip_zeros d m).coefficient k d (10 ^ (strip_zeros d m).scale) _ (10 ^ m)
          (pow_pos m) (strip_zeros-value d m) scaled,
      strip_zeros-IsNormal d m,
    )
