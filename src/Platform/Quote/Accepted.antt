-- ===== src/Platform/Quote/Accepted.antt =====
-- What packages/platform/src/quotes/quote-math.ts has checked of an input that it quotes, and how it
-- fails otherwise.
use native.Mathlib.Nat
use solana_payment_ops.Common.{
  ℕ, ◌<◌, ◌≤◌, ◌≡◌, inr, refl, sym, ap, ◌∙◌, subst, Bool, false, ◌||◌, not, Option, none, some,
  ◌++◌, length, ltb, ◌==◌, arith,
}
use solana_payment_ops.Common.Result.{
  Result, ok, err, ◌>>=◌, >>=-eq-ok, if-eq-ok, if-else-eq-ok, ok-injective, throw_if-eq-ok,
}
use solana_payment_ops.Common.Rounding.{IsCeiling}
use solana_payment_ops.Common.Decimal.{Text, parse, format}
use solana_payment_ops.Platform.Numerals.{
  is_integer_text, eq_text, eq_text→eq, is_decimal_text, before_point, after_point, or_empty,
}
use solana_payment_ops.Platform.ExactDecimal.{
  ExactDecimal, DecimalError, parse_unsigned_decimal, normalize, invalid_decimal, point_text,
}
use solana_payment_ops.Platform.Quote.{
  invalid_quote_input, quote_amount_out_of_range, QuoteCurrency, usd, eur, gbp, inr, FiatRates,
  QuoteCalculationInput, Fraction, maximum_base_units, QuoteCalculation, quote_normalized,
  calculate_quote, normalize_input, canonical_positive_decimal, canonical_of, canonical_rates,
  normalize_rates,
}
use solana_payment_ops.Platform.Quote.Exact.{
  Rates, Reads, ReadsRates, ReadsInput, units_over, units_under, quote_normalized-exact,
}

-- A decimal that is read where zero is not allowed is positive.
pub parse_unsigned_decimal-pos :
    (text : Text) (value : ExactDecimal)
    → parse_unsigned_decimal text false ≡ ok value
    → 0 < value.coefficient
unfolding parse_unsigned_decimal
parse_unsigned_decimal-pos text value h =
    let decimal : ExactDecimal = normalize (record {
      coefficient = parse (before_point text ++ or_empty (after_point text));
      scale = length (or_empty (after_point text));
    }) in
    let matched = throw_if-eq-ok (not (is_decimal_text 37 18 text)) invalid_decimal _ h in
    let nonzero =
      throw_if-eq-ok (decimal.coefficient == 0) invalid_decimal (λ _. ok decimal) matched.1 in
    let positive : 0 < decimal.coefficient = ground arith in
    subst (λ (d : ExactDecimal). 0 < d.coefficient) (ok-injective nonzero.1) positive

canonical_of-ok :
    (text : Text) (read : Result DecimalError ExactDecimal) {out : Text}
    → canonical_of text read ≡ ok out
    → (out ≡ text) × ((value : ExactDecimal) × (read ≡ ok value))
canonical_of-ok text (err e) h = cc h
canonical_of-ok text (ok value) h =
    let test : Bool = eq_text (point_text value.coefficient value.scale) text in
    let equal = if-eq-ok test (ok (point_text value.coefficient value.scale)) _ h in
    (
      sym (ok-injective equal.1)
          ∙ eq_text→eq (point_text value.coefficient value.scale) text equal.0,
      (value, refl),
    )

canonical-Reads :
    (text : Text) {out : Text}
    → canonical_positive_decimal text ≡ ok out
    → (out ≡ text) × ((value : ExactDecimal) × Reads text value)
canonical-Reads text h =
    let (same, read) = canonical_of-ok text (parse_unsigned_decimal text false) h in
    (same, (read.0, (read.1, parse_unsigned_decimal-pos text read.0 read.1)))

same_rates :
    (rates : FiatRates) {u g i : Text}
    → u ≡ rates.usd_rate
    → g ≡ rates.gbp_rate
    → i ≡ rates.inr_rate
    → record { usd_rate = u; gbp_rate = g; inr_rate = i } ≡ rates
same_rates rates hu hg hi = cc

-- Rates that are accepted are given back as they are, and each of them can be read.
canonical_rates-Reads :
    (rates : FiatRates) {out : FiatRates}
    → canonical_rates rates ≡ ok out
    → (out ≡ rates)
      × ((value : ExactDecimal) × Reads rates.usd_rate value)
      × ((value : ExactDecimal) × Reads rates.gbp_rate value)
      × ((value : ExactDecimal) × Reads rates.inr_rate value)
canonical_rates-Reads rates h =
    let a = >>=-eq-ok (canonical_positive_decimal rates.usd_rate) _ h in
    let b = >>=-eq-ok (canonical_positive_decimal rates.gbp_rate) _ a.2 in
    let c = >>=-eq-ok (canonical_positive_decimal rates.inr_rate) _ b.2 in
    let x = canonical-Reads rates.usd_rate a.1 in
    let y = canonical-Reads rates.gbp_rate b.1 in
    let z = canonical-Reads rates.inr_rate c.1 in
    (sym (ok-injective c.2) ∙ same_rates rates x.0 y.0 z.0, x.1, y.1, z.1)

canonical_some-Reads :
    (rates : FiatRates) {out : Option FiatRates}
    → (canonical_rates rates >>= λ canonical. ok (some canonical)) ≡ ok out
    → (out ≡ some rates)
      × ((value : ExactDecimal) × Reads rates.usd_rate value)
      × ((value : ExactDecimal) × Reads rates.gbp_rate value)
      × ((value : ExactDecimal) × Reads rates.inr_rate value)
canonical_some-Reads rates h =
    let a = >>=-eq-ok (canonical_rates rates) _ h in
    let read = canonical_rates-Reads rates a.1 in
    (sym (ok-injective a.2) ∙ ap some read.0, read.1, read.2, read.3)

normalize_rates-Reads :
    (currency : QuoteCurrency) (rates : Option FiatRates) (price : ExactDecimal)
    {out : Option FiatRates}
    → normalize_rates currency rates ≡ ok out
    → (out ≡ rates) × ((r : Rates) × (r.price ≡ price) × ReadsRates currency rates r)
normalize_rates-Reads usd none price h =
    (sym (ok-injective h), (record { price = price; usd_rate = price; own_rate = price }, refl, tt))
normalize_rates-Reads usd (some rates) price h = cc h
normalize_rates-Reads eur none price h = cc h
normalize_rates-Reads eur (some rates) price h =
    let read = canonical_some-Reads rates h in
    (read.0, (record { price = price; usd_rate = read.1.0; own_rate = price }, refl, read.1.1))
normalize_rates-Reads gbp none price h = cc h
normalize_rates-Reads gbp (some rates) price h =
    let read = canonical_some-Reads rates h in
    (
      read.0,
      (
        record { price = price; usd_rate = read.1.0; own_rate = read.2.0 },
        refl,
        (read.1.1, read.2.1),
      ),
    )
normalize_rates-Reads inr none price h = cc h
normalize_rates-Reads inr (some rates) price h =
    let read = canonical_some-Reads rates h in
    (
      read.0,
      (
        record { price = price; usd_rate = read.1.0; own_rate = read.3.0 },
        refl,
        (read.1.1, read.3.1),
      ),
    )

same_input :
    (input : QuoteCalculationInput) {price : Text} {rates : Option FiatRates}
    → price ≡ input.stablecoin_usd_price
    → rates ≡ input.fiat_rates
    → record {
      invoice_currency = input.invoice_currency;
      invoice_minor_units = input.invoice_minor_units;
      stablecoin_usd_price = price;
      fiat_rates = rates;
    }
      ≡ input
same_input input hp hr = cc

-- An input that is accepted is given back as it is, and its numbers can be read and are positive.
normalize_input-Reads :
    (input : QuoteCalculationInput) {out : QuoteCalculationInput}
    → normalize_input input ≡ ok out
    → (out ≡ input) × (0 < parse input.invoice_minor_units) × ((r : Rates) × ReadsInput input r)
unfolding normalize_input
normalize_input-Reads input h =
    let a =
      throw_if-eq-ok
        (not (is_integer_text 37 input.invoice_minor_units) || parse input.invoice_minor_units == 0)
        invalid_quote_input _ h in
    let b = >>=-eq-ok (canonical_positive_decimal input.stablecoin_usd_price) _ a.1 in
    let c = >>=-eq-ok (normalize_rates input.invoice_currency input.fiat_rates) _ b.2 in
    let price = canonical-Reads input.stablecoin_usd_price b.1 in
    let rates = normalize_rates-Reads input.invoice_currency input.fiat_rates price.1.0 c.1 in
    let test = a.0 in
    let positive : 0 < parse input.invoice_minor_units = ground arith in
    (
      sym (ok-injective c.2) ∙ same_input input price.0 rates.0,
      positive,
      (
        rates.1.0,
        (
          subst (λ (v : ExactDecimal). Reads input.stablecoin_usd_price v) (sym rates.1.1)
              price.1.1,
          rates.1.2,
        ),
      ),
    )

module _ (decimal_string : Fraction → Text) (digest : QuoteCalculationInput → Text) where
  -- A quote is for an input whose numbers can be read and are positive; its amount is the exact
  -- fraction of base units rounded up to a whole number, at least 1 and below 2 ^ 64.
  pub calculate_quote-covers :
      (input : QuoteCalculationInput) (quote : QuoteCalculation)
      → calculate_quote decimal_string digest input ≡ ok quote
      → (0 < parse input.invoice_minor_units)
        × ((r : Rates) × ReadsInput input r
            × ((amount : ℕ) × (quote.amount_base_units ≡ format amount)
                × (1 ≤ amount)
                × (amount ≤ maximum_base_units)
                × IsCeiling (units_over input r) (units_under input r) amount))
  unfolding calculate_quote
  calculate_quote-covers input quote h =
      let normalized = >>=-eq-ok (normalize_input input) _ h in
      let read = normalize_input-Reads input normalized.1 in
      let own : quote_normalized decimal_string digest input ≡ ok quote =
        ap (quote_normalized decimal_string digest) (sym read.0) ∙ normalized.2 in
      let exact = quote_normalized-exact decimal_string digest input read.2.0 read.2.1 in
      let inside =
        if-else-eq-ok (ltb exact.0 1 || ltb maximum_base_units exact.0) quote_amount_out_of_range
          (ok exact.1) (sym exact.4 ∙ own) in
      let test = inside.0 in
      let range : (1 ≤ exact.0) × (exact.0 ≤ maximum_base_units) = ground arith in
      (
        read.1,
        (
          read.2.0,
          read.2.1,
          (
            exact.0,
            ap (λ (q : QuoteCalculation). q.amount_base_units) (sym (ok-injective inside.1))
                ∙ exact.3,
            range.0,
            range.1,
            exact.2,
          ),
        ),
      )
