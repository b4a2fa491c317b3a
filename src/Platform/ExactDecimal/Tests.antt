-- ===== src/Platform/ExactDecimal/Tests.antt =====
-- Decimals that are compared, subtracted, written and read.
use solana_payment_ops.Common.{ℕ, ◌*◌, ◌^◌, ◌<◌, ◌≤◌, ◌≡◌, ◌↔◌, refl, true, arith}
use solana_payment_ops.Common.Int.{negsuc}
use solana_payment_ops.Common.Result.{ok}
use solana_payment_ops.Common.Decimal.{codes, format}
use solana_payment_ops.Common.Decimal.Digits.{pad_start}
use solana_payment_ops.Platform.ExactDecimal.{
  ExactDecimal, normalize, parse_unsigned_decimal, point_text, format_decimal, less, greater, same,
  compare_decimal, ratio_at_most, absolute_difference, decimal_from_integer_exponent,
}
use solana_payment_ops.Platform.ExactDecimal.Value.{
  SameValue, IsNormal, distance, compare_decimal-value, ratio_at_most-value,
  absolute_difference-value,
}
use solana_payment_ops.Platform.ExactDecimal.RoundTrip.{format_decimal-reads_back}

abbrev decimal_of : ℕ → ℕ → ExactDecimal
decimal_of coefficient scale = record { coefficient = coefficient; scale = scale }

exponent_is_applied :
    decimal_from_integer_exponent (codes "100012") (negsuc 4) true ≡ ok (codes "1.00012")
unfolding decimal_from_integer_exponent format_decimal normalize point_text pad_start format
exponent_is_applied = refl

zeros_are_dropped : format_decimal (decimal_of 500 4) ≡ codes "0.05"
unfolding format_decimal normalize point_text pad_start format
zeros_are_dropped = refl

compare_decimal-value_example :
    ((compare_decimal (decimal_of 15 1) (decimal_of 149 2) ≡ less) ↔ (15 * 10 ^ 2 < 149 * 10 ^ 1))
    × ((compare_decimal (decimal_of 15 1) (decimal_of 149 2) ≡ greater)
        ↔ (149 * 10 ^ 1 < 15 * 10 ^ 2))
    × ((compare_decimal (decimal_of 15 1) (decimal_of 149 2) ≡ same)
        ↔ SameValue (decimal_of 15 1) (decimal_of 149 2))
compare_decimal-value_example = compare_decimal-value (decimal_of 15 1) (decimal_of 149 2)

ratio_at_most-value_example :
    (ratio_at_most (decimal_of 4 3) (decimal_of 1 0) 5 1000 ≡ true)
    ↔ ((0 < 1) × (4 * 10 ^ 0 * 1000 ≤ 1 * 10 ^ 3 * 5))
ratio_at_most-value_example = ratio_at_most-value (decimal_of 4 3) (decimal_of 1 0) 5 1000

absolute_difference-value_example :
    ((absolute_difference (decimal_of 15 1) (decimal_of 149 2)).coefficient * (10 ^ 1 * 10 ^ 2)
      ≡ distance (15 * 10 ^ 2) (149 * 10 ^ 1)
        * 10 ^ (absolute_difference (decimal_of 15 1) (decimal_of 149 2)).scale)
    × IsNormal (absolute_difference (decimal_of 15 1) (decimal_of 149 2))
absolute_difference-value_example = absolute_difference-value (decimal_of 15 1) (decimal_of 149 2)

format_decimal-reads_back_example :
    (parse_unsigned_decimal (format_decimal (decimal_of 500 4)) true
      ≡ ok (normalize (decimal_of 500 4)))
    × SameValue (normalize (decimal_of 500 4)) (decimal_of 500 4)
    × IsNormal (normalize (decimal_of 500 4))
format_decimal-reads_back_example =
    format_decimal-reads_back (decimal_of 500 4) (omega arith) (omega arith)
