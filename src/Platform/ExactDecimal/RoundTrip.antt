-- ===== src/Platform/ExactDecimal/RoundTrip.antt =====
-- `parseUnsignedDecimal` reads what `formatDecimal` of packages/platform/src/quotes/exact-decimal.ts
-- writes.
use native.Mathlib.Nat
use mathlib.Core.List.{append-nil}
use solana_payment_ops.Common.{
  ℕ, zero, suc, ◌+◌, ◌-◌, ◌*◌, ◌/◌, ◌%◌, ◌^◌, ◌<◌, ◌≤◌, ◌≡◌, inl, inr, refl, ap, ◌∙◌, true, false,
  some, ◌∷◌, ◌++◌, ◌==◌, all, length, take, drop, length-take, length-drop, take-append-drop, arith,
  if-both,
}
use solana_payment_ops.Common.Result.{ok}
use solana_payment_ops.Common.Powers.{pow_add, mul-lt_iff, pow_pos}
use solana_payment_ops.Common.Decimal.{Text, parse, format, is_digit}
use solana_payment_ops.Common.Decimal.RoundTrip.{parse-format, all-is_digit-format}
use solana_payment_ops.Common.Decimal.Digits.{
  pad_start, starts_nonzero-format, length-format-of_lt, format_zero, length-pad_start,
  all-is_digit-pad_start, parse-pad_start, pad_start-cases,
}
use solana_payment_ops.Platform.Numerals.{is_integer_text, is_fraction_text}
use solana_payment_ops.Platform.Numerals.Shape.{
  before_point-joined, after_point-joined, before_point-digits, after_point-digits,
  is_integer_text-of_nonzero, all-take, all-drop, starts_nonzero-take,
}
use solana_payment_ops.Platform.ExactDecimal.{
  ExactDecimal, strip_zeros, normalize, parse_unsigned_decimal, slice_to, point_text,
  format_decimal,
}
use solana_payment_ops.Platform.ExactDecimal.Value.{
  IsNormal, SameValue, strip_zeros-value, strip_zeros-IsNormal,
}

strip_zeros-of_normal :
    (c s : ℕ)
    → IsNormal (record { coefficient = c; scale = s })
    → strip_zeros c s ≡ record { coefficient = c; scale = s }
strip_zeros-of_normal c zero h = refl
strip_zeros-of_normal c (suc s) (inl none_left) = absurd (omega arith)
strip_zeros-of_normal c (suc s) (inr ends) =
    let no : (c % 10 == 0) ≡ false = ground arith in rw no refl

-- A whole part, a fraction and the number they read as make a decimal.
parse_unsigned_decimal-joined :
    (whole fraction : Text) (c s : ℕ)
    → is_integer_text 37 whole ≡ true
    → all is_digit whole ≡ true
    → is_fraction_text 18 (some fraction) ≡ true
    → parse (whole ++ fraction) ≡ c
    → length fraction ≡ s
    → IsNormal (record { coefficient = c; scale = s })
    → parse_unsigned_decimal (whole ++ (b'.' ∷ fraction)) true
      ≡ ok (record { coefficient = c; scale = s })
unfolding parse_unsigned_decimal normalize
parse_unsigned_decimal-joined whole fraction c s integer digits decimals value long normal =
    rw
      (
        before_point-joined whole fraction digits,
        after_point-joined whole fraction digits,
        integer,
        decimals,
        value,
        long,
        strip_zeros-of_normal c s normal,
      )
      refl

parse_unsigned_decimal-whole :
    (whole : Text) (c : ℕ)
    → is_integer_text 37 whole ≡ true
    → all is_digit whole ≡ true
    → parse whole ≡ c
    → parse_unsigned_decimal whole true ≡ ok (record { coefficient = c; scale = 0 })
unfolding parse_unsigned_decimal normalize
parse_unsigned_decimal-whole whole c integer digits value =
    rw
      (
        before_point-digits whole digits,
        after_point-digits whole digits,
        integer,
        append-nil,
        value,
      )
      refl

whole-IsInteger : (c k : ℕ) → c < 10 ^ suc k → is_integer_text k (format c) ≡ true
whole-IsInteger zero k h = rw format_zero refl
whole-IsInteger (suc c) k h =
    is_integer_text-of_nonzero k (format (suc c)) (starts_nonzero-format (suc c) (omega arith))
      (all-is_digit-format (suc c)) (length-format-of_lt (suc k) (suc c) (omega arith) h)

-- Before the point stands a number of at most 38 digits.
slice_to-IsInteger :
    (c s : ℕ)
    → 0 < c
    → c < 10 ^ (38 + s)
    → is_integer_text 37 (slice_to s (pad_start (s + 1) (format c))) ≡ true
slice_to-IsInteger c s positive bound = elim (pad_start-cases (s + 1) (format c)) [
  | inl (long, unpadded) ↦ rw unpadded (
      let nonzero = starts_nonzero-format c positive in
      let few : length (format c) ≤ 38 + s = length-format-of_lt (38 + s) c (omega arith) bound in
      is_integer_text-of_nonzero 37 (slice_to s (format c))
        (starts_nonzero-take (length (format c) - s) (format c) (omega arith) nonzero)
        (all-take is_digit (length (format c) - s) (format c) (all-is_digit-format c))
        (omega (arith, length-take (length (format c) - s) (format c) (omega arith))))
  | inr (width, padded) ↦
      let one : length (pad_start (s + 1) (format c)) - s ≡ 1 = omega arith in
      rw (one, padded.1) refl
]

-- A normal decimal with at most 18 digits after the point and at most 38 before it reads back.
pub parse_unsigned_decimal-point_text :
    (c s : ℕ)
    → IsNormal (record { coefficient = c; scale = s })
    → s ≤ 18
    → c < 10 ^ (38 + s)
    → parse_unsigned_decimal (point_text c s) true ≡ ok (record { coefficient = c; scale = s })
unfolding point_text
parse_unsigned_decimal-point_text c zero normal few bound =
    parse_unsigned_decimal-whole (format c) c (whole-IsInteger c 37 bound) (all-is_digit-format c)
      (parse-format c)
parse_unsigned_decimal-point_text c (suc s) (inl whole) few bound = absurd (omega arith)
parse_unsigned_decimal-point_text c (suc s) (inr ends) few bound =
    let padded : Text = pad_start (suc s + 1) (format c) in
    let wide : suc s + 1 ≤ length padded = length-pad_start (suc s + 1) (format c) in
    let digits : all is_digit padded ≡ true =
      all-is_digit-pad_start (suc s + 1) (format c) (all-is_digit-format c) in
    let cut : ℕ = length padded - suc s in
    let decimals : length (drop cut padded) ≡ suc s = omega (arith, length-drop cut padded) in
    let pointed : (suc s == 0) ≡ false = ground arith in
    rw pointed (
      parse_unsigned_decimal-joined (take cut padded) (drop cut padded) c (suc s)
        (slice_to-IsInteger c (suc s) (ground arith) bound) (all-take is_digit cut padded digits)
        (ground (arith, all-drop is_digit cut padded digits))
        (rw (take-append-drop cut padded) (parse-pad_start (suc s + 1) (format c) ∙ parse-format c))
        decimals (inr ends))

strip_zeros-scale : (c s : ℕ) → (strip_zeros c s).scale ≤ s
strip_zeros-scale c zero = omega arith
strip_zeros-scale c (suc s) =
    if-both (λ (d : ExactDecimal). d.scale ≤ suc s) (c % 10 == 0) _ _
      (λ _. omega (arith, strip_zeros-scale (c / 10) s)) (λ _. omega arith)

-- Without zeros at the end, a decimal has no more digits before the point than it had.
strip_zeros-bound :
    (c s : ℕ)
    → c < 10 ^ (38 + s)
    → (strip_zeros c s).coefficient < 10 ^ (38 + (strip_zeros c s).scale)
strip_zeros-bound c s bound =
    let d : ExactDecimal = strip_zeros c s in
    let wide = Nat.mul-lt-mul_of_pos_right bound (pow_pos d.scale) in
    (mul-lt_iff (10 ^ s) d.coefficient (10 ^ (38 + d.scale)) (pow_pos s)).0 (
      omega (
        arith,
        strip_zeros-value c s,
        pow_add 10 38 s,
        pow_add 10 38 d.scale,
        ap (λ (t : ℕ). t * 10 ^ d.scale) (pow_add 10 38 s),
        ap (λ (t : ℕ). t * 10 ^ s) (pow_add 10 38 d.scale),
      ))

-- A decimal with at most 18 digits after the point and at most 38 before is written so that it reads
-- back as the decimal with the same value and no zero at the end of its fraction.
pub format_decimal-reads_back :
    (value : ExactDecimal)
    → value.scale ≤ 18
    → value.coefficient < 10 ^ (38 + value.scale)
    → (parse_unsigned_decimal (format_decimal value) true ≡ ok (normalize value))
      × SameValue (normalize value) value
      × IsNormal (normalize value)
unfolding format_decimal normalize
format_decimal-reads_back value few bound =
    let c = value.coefficient in
    let s = value.scale in
    let normal = strip_zeros-IsNormal c s in
    (
      parse_unsigned_decimal-point_text (strip_zeros c s).coefficient (strip_zeros c s).scale normal
          (omega (arith, strip_zeros-scale c s)) (strip_zeros-bound c s bound),
      strip_zeros-value c s,
      normal,
    )
