-- ===== src/Platform/Quote/Tests.antt =====
-- Quotes of an invoice of 100.01 euro.
use solana_payment_ops.Common.{ℕ, ◌<◌, ◌≤◌, ◌≡◌, refl, some}
use solana_payment_ops.Common.Result.{ok, err}
use solana_payment_ops.Common.Rounding.{IsCeiling}
use solana_payment_ops.Common.Decimal.{Text, codes, format}
use solana_payment_ops.Common.Decimal.Digits.{pad_start}
use solana_payment_ops.Platform.ExactDecimal.{normalize, parse_unsigned_decimal, point_text}
use solana_payment_ops.Platform.Quote.{
  invalid_quote_input, eur, QuoteCalculationInput, Fraction, QuoteCalculation, maximum_base_units,
  greatest_common_divisor, reduce, normalize_input, usd_amount_of, base_units_to_tokens, quote_of,
  quote_normalized, calculate_quote, reproduce_quote,
}
use solana_payment_ops.Platform.Quote.Exact.{Rates, ReadsInput, units_over, units_under}
use solana_payment_ops.Platform.Quote.Accepted.{calculate_quote-covers}

abbrev fraction_text : Fraction → Text
fraction_text f = format f.n

abbrev no_digest : QuoteCalculationInput → Text
no_digest input = codes "digest"

abbrev euro_input : Text → QuoteCalculationInput
euro_input minor = record {
  invoice_currency = eur;
  invoice_minor_units = minor;
  stablecoin_usd_price = codes "0.9999";
  fiat_rates =
      some (record { usd_rate = codes "1.1"; gbp_rate = codes "0.85"; inr_rate = codes "95.5" });
}

abbrev euro_quote : QuoteCalculation
euro_quote =
    quote_of fraction_text no_digest (euro_input (codes "10001")) (record { n = 110011; d = 1000 })
      (record { n = 100010; d = 909 }) 110022003

euro_is_quoted :
    calculate_quote fraction_text no_digest (euro_input (codes "10001")) ≡ ok euro_quote
unfolding calculate_quote normalize_input quote_normalized usd_amount_of reduce
    greatest_common_divisor parse_unsigned_decimal normalize point_text pad_start format
    base_units_to_tokens
euro_is_quoted = refl

tokens_of_euro : euro_quote.amount_tokens ≡ codes "110.022003"
unfolding base_units_to_tokens pad_start format
tokens_of_euro = refl

other_digest_is_refused :
    reproduce_quote fraction_text no_digest (euro_input (codes "0")) (codes "other")
    ≡ err invalid_quote_input
unfolding reproduce_quote calculate_quote normalize_input
other_digest_is_refused = refl

calculate_quote-covers_example :
    (0 < 10001)
    × ((r : Rates) × ReadsInput (euro_input (codes "10001")) r
        × ((amount : ℕ) × (euro_quote.amount_base_units ≡ format amount)
            × (1 ≤ amount)
            × (amount ≤ maximum_base_units)
            × IsCeiling
                (units_over (euro_input (codes "10001")) r)
                (units_under (euro_input (codes "10001")) r)
                amount))
calculate_quote-covers_example =
    calculate_quote-covers fraction_text no_digest (euro_input (codes "10001")) euro_quote
      euro_is_quoted
