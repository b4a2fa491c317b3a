-- ===== src/Platform/Quote.antt =====
-- packages/platform/src/quotes/quote-math.ts: what an invoice costs in base units of a stablecoin.
-- The text that decimal.js makes of a fraction and the digest of the input are parameters.
pub mod Fractions
pub mod Exact
pub mod Accepted
mod Tests
use mathlib.Core.WellFounded.{Acc}
use solana_payment_ops.Common.{
  ℕ, zero, suc, ◌+◌, ◌-◌, ◌*◌, ◌/◌, ◌%◌, ◌^◌, ◌<◌, Bool, true, false, ◌&&◌, ◌||◌, not, Option, none,
  some, List, [], ◌∷◌, ◌++◌, if◌then◌else◌, ltb, leb, ◌==◌, length, arith,
}
use solana_payment_ops.Common.Result.{Result, ok, err, ◌>>=◌, throw_if}
use solana_payment_ops.Common.Decimal.{Text, parse, format, lt_wf}
use solana_payment_ops.Common.Decimal.Digits.{pad_start}
use solana_payment_ops.Platform.Numerals.{is_integer_text, eq_text}
use solana_payment_ops.Platform.ExactDecimal.{
  ExactDecimal, DecimalError, parse_unsigned_decimal, point_text, slice_to, slice_from,
}

-- The codes of `QuoteMathError`, and what `parseUnsignedDecimal` throws where nothing catches it.
pub data QuoteMathError : Type 0 where
  invalid_quote_input quote_amount_out_of_range quote_digest_mismatch : QuoteMathError
  uncaught : DecimalError → QuoteMathError

pub data QuoteCurrency : Type 0 where
  usd eur gbp inr : QuoteCurrency

pub record FiatRates : Type 0 where
  pub usd_rate : Text
  pub gbp_rate : Text
  pub inr_rate : Text

pub record QuoteCalculationInput : Type 0 where
  pub invoice_currency : QuoteCurrency
  pub invoice_minor_units : Text
  pub stablecoin_usd_price : Text
  pub fiat_rates : Option FiatRates

pub record Fraction : Type 0 where
  pub n : ℕ
  pub d : ℕ

pub euclid_step_lt : (a b : ℕ) → a % suc b < suc b
euclid_step_lt a b = omega arith

-- The loop of `greatestCommonDivisor`, which ends because its second number gets smaller.
euclid_loop : (a b : ℕ) → Acc ◌<◌ b → ℕ
euclid_loop a zero seen = a
euclid_loop a (suc b) (Acc.intro _ below) =
    euclid_loop (suc b) (a % suc b) (below (a % suc b) (euclid_step_lt a b))

unfoldable pub greatest_common_divisor : ℕ → ℕ → ℕ
unfolding euclid_loop lt_wf
greatest_common_divisor left right = euclid_loop left right (lt_wf.apply right)

unfoldable pub reduce : Fraction → Fraction
reduce value =
    let divisor = greatest_common_divisor value.n value.d in
    record { n = value.n / divisor; d = value.d / divisor }

abbrev pub multiply : Fraction → Fraction → Fraction
multiply left right = reduce (record { n = left.n * right.n; d = left.d * right.d })

abbrev pub divide : Fraction → Fraction → Result QuoteMathError Fraction
divide left right =
    if right.n == 0
    then err invalid_quote_input
    else ok (reduce (record { n = left.n * right.d; d = left.d * right.n }))

abbrev pub ceil_fraction : Fraction → ℕ
ceil_fraction value = (value.n + value.d - 1) / value.d

abbrev pub fraction_from_integer : Text → ℕ → Fraction
fraction_from_integer value divisor = reduce (record { n = parse value; d = divisor })

abbrev pub or_uncaught {ℓ} : {A : Type ℓ} → Result DecimalError A → Result QuoteMathError A
or_uncaught (ok a) = ok a
or_uncaught (err e) = err (uncaught e)

abbrev pub decimal_fraction : ExactDecimal → Fraction
decimal_fraction parsed = reduce (record { n = parsed.coefficient; d = 10 ^ parsed.scale })

abbrev pub fraction_from_decimal : Text → Result QuoteMathError Fraction
fraction_from_decimal value =
    or_uncaught (parse_unsigned_decimal value false) >>= λ parsed. ok (decimal_fraction parsed)

-- The closure of the `try`: the parsed number's text must be the given one.
abbrev pub canonical_of : Text → Result DecimalError ExactDecimal → Result QuoteMathError Text
canonical_of value (err e) = err invalid_quote_input
canonical_of value (ok parsed) =
    if eq_text (point_text parsed.coefficient parsed.scale) value
    then ok (point_text parsed.coefficient parsed.scale)
    else err invalid_quote_input

abbrev pub canonical_positive_decimal : Text → Result QuoteMathError Text
canonical_positive_decimal value = canonical_of value (parse_unsigned_decimal value false)

abbrev pub canonical_rates : FiatRates → Result QuoteMathError FiatRates
canonical_rates rates = canonical_positive_decimal rates.usd_rate >>= λ usd_text.
    canonical_positive_decimal rates.gbp_rate >>= λ gbp_text.
    canonical_positive_decimal rates.inr_rate >>= λ inr_text.
    ok (record { usd_rate = usd_text; gbp_rate = gbp_text; inr_rate = inr_text })

-- The rates that a currency comes with: none for dollars, all three for another currency.
abbrev pub normalize_rates :
    QuoteCurrency → Option FiatRates → Result QuoteMathError (Option FiatRates)
normalize_rates usd none = ok none
normalize_rates usd (some rates) = err invalid_quote_input
normalize_rates eur none = err invalid_quote_input
normalize_rates eur (some rates) = canonical_rates rates >>= λ canonical. ok (some canonical)
normalize_rates gbp none = err invalid_quote_input
normalize_rates gbp (some rates) = canonical_rates rates >>= λ canonical. ok (some canonical)
normalize_rates inr none = err invalid_quote_input
normalize_rates inr (some rates) = canonical_rates rates >>= λ canonical. ok (some canonical)

unfoldable pub normalize_input : QuoteCalculationInput → Result QuoteMathError QuoteCalculationInput
normalize_input input =
    throw_if
      (not (is_integer_text 37 input.invoice_minor_units) || parse input.invoice_minor_units == 0)
      invalid_quote_input
    >>= λ _. canonical_positive_decimal input.stablecoin_usd_price >>= λ price.
        normalize_rates input.invoice_currency input.fiat_rates >>= λ rates. ok (record {
          invoice_currency = input.invoice_currency;
          invoice_minor_units = input.invoice_minor_units;
          stablecoin_usd_price = price;
          fiat_rates = rates;
        })

-- The amount in dollars of an amount in a currency; without rates the non-null assertions fail, which
-- `normalizeInput` has excluded.
unfoldable pub usd_amount_of :
    QuoteCurrency → Option FiatRates → Fraction → Result QuoteMathError Fraction
usd_amount_of usd rates invoice = ok invoice
usd_amount_of eur none invoice = err invalid_quote_input
usd_amount_of eur (some rates) invoice =
    fraction_from_decimal rates.usd_rate >>= λ usd_rate. ok (multiply invoice usd_rate)
usd_amount_of gbp none invoice = err invalid_quote_input
usd_amount_of gbp (some rates) invoice = fraction_from_decimal rates.usd_rate >>= λ usd_rate.
    fraction_from_decimal rates.gbp_rate >>= λ own_rate. divide (multiply invoice usd_rate) own_rate
usd_amount_of inr none invoice = err invalid_quote_input
usd_amount_of inr (some rates) invoice = fraction_from_decimal rates.usd_rate >>= λ usd_rate.
    fraction_from_decimal rates.inr_rate >>= λ own_rate. divide (multiply invoice usd_rate) own_rate

-- `.replace(/0+$/, "")`
abbrev pub strip_trailing_zeros : Text → Text
strip_trailing_zeros [] = []
strip_trailing_zeros (c ∷ s) =
    let rest = strip_trailing_zeros s in if c == b'0' && length rest == 0 then [] else c ∷ rest

unfoldable pub base_units_to_tokens : ℕ → Text
base_units_to_tokens value =
    let digits = pad_start 7 (format value) in
    let fraction = strip_trailing_zeros (slice_from 6 digits) in
    if length fraction == 0 then slice_to 6 digits else slice_to 6 digits ++ (b'.' ∷ fraction)

pub record QuoteCalculation : Type 0 where
  pub currency : QuoteCurrency
  pub minor_units : Text
  pub fiat_amount : Text
  pub usd_amount : Text
  pub stablecoin_price : Text
  pub token_amount : Text
  pub amount_base_units : Text
  pub amount_tokens : Text
  pub input_digest : Text

abbrev pub maximum_base_units : ℕ
maximum_base_units = 18446744073709551615

-- The record that `calculateQuote` returns.
abbrev pub quote_of :
    (Fraction → Text)
    → (QuoteCalculationInput → Text)
    → QuoteCalculationInput
    → Fraction
    → Fraction
    → ℕ
    → QuoteCalculation
quote_of decimal_string digest normalized usd_fraction token amount = record {
  currency = normalized.invoice_currency;
  minor_units = normalized.invoice_minor_units;
  fiat_amount = decimal_string (fraction_from_integer normalized.invoice_minor_units 100);
  usd_amount = decimal_string usd_fraction;
  stablecoin_price = normalized.stablecoin_usd_price;
  token_amount = decimal_string token;
  amount_base_units = format amount;
  amount_tokens = base_units_to_tokens amount;
  input_digest = digest normalized;
}

-- The quote of a normalized input.
unfoldable pub quote_normalized :
    (Fraction → Text)
    → (QuoteCalculationInput → Text)
    → QuoteCalculationInput
    → Result QuoteMathError QuoteCalculation
quote_normalized decimal_string digest normalized =
    let invoice = fraction_from_integer normalized.invoice_minor_units 100 in
    usd_amount_of normalized.invoice_currency normalized.fiat_rates invoice >>= λ usd_fraction.
    fraction_from_decimal normalized.stablecoin_usd_price >>= λ price.
    divide usd_fraction price >>= λ token.
    let amount = ceil_fraction (multiply token (record { n = 1_000_000; d = 1 })) in
    if ltb amount 1 || ltb maximum_base_units amount
    then err quote_amount_out_of_range
    else ok (quote_of decimal_string digest normalized usd_fraction token amount)

unfoldable pub calculate_quote :
    (Fraction → Text)
    → (QuoteCalculationInput → Text)
    → QuoteCalculationInput
    → Result QuoteMathError QuoteCalculation
calculate_quote decimal_string digest input =
    normalize_input input >>= λ normalized. quote_normalized decimal_string digest normalized

unfoldable pub reproduce_quote :
    (Fraction → Text)
    → (QuoteCalculationInput → Text)
    → QuoteCalculationInput
    → Text
    → Result QuoteMathError QuoteCalculation
reproduce_quote decimal_string digest input expected =
    calculate_quote decimal_string digest input >>= λ quote.
    throw_if (not (eq_text quote.input_digest expected)) quote_digest_mismatch >>= λ _. ok quote
