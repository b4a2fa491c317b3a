-- ===== src/Platform/ExactDecimal.antt =====
-- packages/platform/src/quotes/exact-decimal.ts: unsigned decimals as a coefficient over a power of
-- ten.
pub mod Value
pub mod RoundTrip
mod Tests
use solana_payment_ops.Common.{
  ℕ, zero, suc, ◌+◌, ◌-◌, ◌*◌, ◌/◌, ◌%◌, ◌^◌, max, Bool, true, false, ◌&&◌, ◌||◌, not, Option, none,
  some, List, [], ◌∷◌, ◌++◌, if◌then◌else◌, ltb, leb, ◌==◌, length, take, drop,
}
use solana_payment_ops.Common.Result.{Result, ok, err, ◌>>=◌, throw_if}
use solana_payment_ops.Common.Int.{ℤ, pos, negsuc}
use solana_payment_ops.Common.Decimal.{Text, parse, format}
use solana_payment_ops.Common.Decimal.Digits.{pad_start}
use solana_payment_ops.Platform.Numerals.{
  is_integer_text, is_decimal_text, before_point, after_point, or_empty,
}

pub record ExactDecimal : Type 0 where
  pub coefficient : ℕ
  pub scale : ℕ

-- `new Error("invalid_decimal")`
pub data DecimalError : Type 0 where
  invalid_decimal : DecimalError

-- The loop of `normalize`, which ends by the scale.
abbrev pub strip_zeros : ℕ → ℕ → ExactDecimal
strip_zeros coefficient zero = record { coefficient = coefficient; scale = zero }
strip_zeros coefficient (suc scale) =
    if coefficient % 10 == 0
    then strip_zeros (coefficient / 10) scale
    else record { coefficient = coefficient; scale = suc scale }

unfoldable pub normalize : ExactDecimal → ExactDecimal
normalize value = strip_zeros value.coefficient value.scale

unfoldable pub parse_unsigned_decimal : Text → Bool → Result DecimalError ExactDecimal
parse_unsigned_decimal value allow_zero =
    let fraction = or_empty (after_point value) in
    let decimal =
      normalize (record {
        coefficient = parse (before_point value ++ fraction);
        scale = length fraction;
      }) in
    throw_if (not (is_decimal_text 37 18 value)) invalid_decimal >>= λ _.
    throw_if (not allow_zero && decimal.coefficient == 0) invalid_decimal >>= λ _. ok decimal

-- `padded.slice(0, -scale)` and `padded.slice(-scale)`, for a scale that is not zero.
abbrev pub slice_to : ℕ → Text → Text
slice_to scale padded = take (length padded - scale) padded

abbrev pub slice_from : ℕ → Text → Text
slice_from scale padded = drop (length padded - scale) padded

-- The text of a coefficient and a scale.
unfoldable pub point_text : ℕ → ℕ → Text
point_text coefficient scale =
    let digits = format coefficient in
    let padded = pad_start (scale + 1) digits in
    if scale == 0 then digits else slice_to scale padded ++ (b'.' ∷ slice_from scale padded)

unfoldable pub format_decimal : ExactDecimal → Text
format_decimal value =
    let normalized = normalize value in point_text normalized.coefficient normalized.scale

-- The coefficient at a common scale: `value.coefficient * 10n ** BigInt(scale - value.scale)`.
abbrev pub at_scale : ℕ → ExactDecimal → ℕ
at_scale scale value = value.coefficient * 10 ^ (scale - value.scale)

abbrev pub common_scale : ExactDecimal → ExactDecimal → ℕ
common_scale left right = max left.scale right.scale

-- -1, 1 and 0.
pub data Comparison : Type 0 where
  less greater same : Comparison

unfoldable pub compare_decimal : ExactDecimal → ExactDecimal → Comparison
compare_decimal left right =
    let scale = common_scale left right in
    let left_value = at_scale scale left in
    let right_value = at_scale scale right in
    if ltb left_value right_value
    then less
    else if ltb right_value left_value
    then greater
    else same

unfoldable pub ratio_at_most : ExactDecimal → ExactDecimal → ℕ → ℕ → Bool
ratio_at_most numerator denominator maximum_numerator maximum_denominator =
    let scale = common_scale numerator denominator in
    if denominator.coefficient == 0
    then false
    else leb (at_scale scale numerator * maximum_denominator)
        (at_scale scale denominator * maximum_numerator)

unfoldable pub absolute_difference : ExactDecimal → ExactDecimal → ExactDecimal
absolute_difference left right =
    let scale = common_scale left right in
    let left_value = at_scale scale left in
    let right_value = at_scale scale right in
    normalize (record {
      coefficient =
          if leb right_value left_value then left_value - right_value else right_value - left_value;
      scale = scale;
    })

-- `/^-?(0|[1-9][0-9]{0,18})$/`; a text that passes and starts with a minus sign is not positive.
abbrev pub is_signed_text : Text → Bool
is_signed_text [] = false
is_signed_text (c ∷ s) = if c == b'-' then is_integer_text 18 s else is_integer_text 18 (c ∷ s)

-- `BigInt(integer)` of a text that passes, where `-0` is 0.
abbrev pub signed_value : Text → ℤ
signed_value [] = pos 0
signed_value (c ∷ s) =
    if c == b'-'
    then (if parse s == 0 then pos 0 else negsuc (parse s - 1))
    else pos (parse (c ∷ s))

-- The exponent is a whole number here; another one is refused.
abbrev pub exponent_fits : ℤ → Bool
exponent_fits (pos e) = leb e 18
exponent_fits (negsuc e) = leb (suc e) 18

abbrev pub shifted : ℕ → ℤ → ExactDecimal
shifted coefficient (pos e) = record { coefficient = coefficient * 10 ^ e; scale = 0 }
shifted coefficient (negsuc e) = record { coefficient = coefficient; scale = suc e }

-- `coefficient < 0n || (!allowZero && coefficient === 0n)`
abbrev pub accepted_coefficient : ℤ → Bool → Result DecimalError ℕ
accepted_coefficient (negsuc c) allow_zero = err invalid_decimal
accepted_coefficient (pos c) allow_zero =
    if not allow_zero && c == 0 then err invalid_decimal else ok c

unfoldable pub decimal_from_integer_exponent : Text → ℤ → Bool → Result DecimalError Text
decimal_from_integer_exponent integer exponent allow_zero =
    let fits = (if allow_zero then is_integer_text 19 integer else is_signed_text integer) in
    throw_if (not fits || not (exponent_fits exponent)) invalid_decimal >>= λ _.
    accepted_coefficient (signed_value integer) allow_zero >>= λ coefficient.
    ok (format_decimal (shifted coefficient exponent))
