-- ===== src/Platform/Quote/Exact.antt =====
-- The quote of packages/platform/src/quotes/quote-math.ts against one fraction, made of what the
-- input says without any reduction or rounding in between.
use native.Mathlib.Nat
use solana_payment_ops.Common.{
  ℕ, ◌*◌, ◌^◌, ◌<◌, ◌≡◌, inr, refl, false, ◌||◌, Option, none, some, if◌then◌else◌, ltb, arith,
}
use solana_payment_ops.Common.Result.{ok, err, ◌>>=◌}
use solana_payment_ops.Common.Powers.{pow_pos}
use solana_payment_ops.Common.Rounding.{IsCeiling}
use solana_payment_ops.Common.Decimal.{Text, parse, format}
use solana_payment_ops.Platform.ExactDecimal.{ExactDecimal, parse_unsigned_decimal}
use solana_payment_ops.Platform.Quote.{
  quote_amount_out_of_range, QuoteCurrency, usd, eur, gbp, inr, FiatRates, QuoteCalculationInput,
  Fraction, multiply, divide, ceil_fraction, fraction_from_integer, decimal_fraction,
  fraction_from_decimal, usd_amount_of, maximum_base_units, QuoteCalculation, quote_normalized,
  quote_of,
}
use solana_payment_ops.Platform.Quote.Fractions.{
  StandsFor, reduce-StandsFor, multiply-StandsFor, divide-StandsFor, ceil_fraction-IsCeiling,
}

-- The decimals of an input: the price, the dollar rate and the rate of the invoice's own currency.
pub record Rates : Type 0 where
  pub price : ExactDecimal
  pub usd_rate : ExactDecimal
  pub own_rate : ExactDecimal

abbrev pub Reads : Text → ExactDecimal → Type 0
Reads text value = (parse_unsigned_decimal text false ≡ ok value) × (0 < value.coefficient)

abbrev pub ReadsRates : QuoteCurrency → Option FiatRates → Rates → Type 0
ReadsRates usd none r = Unit
ReadsRates usd (some rates) r = ⊥
ReadsRates eur none r = ⊥
ReadsRates eur (some rates) r = Reads rates.usd_rate r.usd_rate
ReadsRates gbp none r = ⊥
ReadsRates gbp (some rates) r = Reads rates.usd_rate r.usd_rate × Reads rates.gbp_rate r.own_rate
ReadsRates inr none r = ⊥
ReadsRates inr (some rates) r = Reads rates.usd_rate r.usd_rate × Reads rates.inr_rate r.own_rate

abbrev pub ReadsInput : QuoteCalculationInput → Rates → Type 0
ReadsInput input r =
    Reads input.stablecoin_usd_price r.price × ReadsRates input.invoice_currency input.fiat_rates r

-- Dollars for one unit of the invoice's currency, as numerator and denominator.
abbrev pub dollars_over : QuoteCurrency → Rates → ℕ
dollars_over usd r = 1
dollars_over eur r = r.usd_rate.coefficient
dollars_over gbp r = r.usd_rate.coefficient * 10 ^ r.own_rate.scale
dollars_over inr r = r.usd_rate.coefficient * 10 ^ r.own_rate.scale

abbrev pub dollars_under : QuoteCurrency → Rates → ℕ
dollars_under usd r = 1
dollars_under eur r = 10 ^ r.usd_rate.scale
dollars_under gbp r = 10 ^ r.usd_rate.scale * r.own_rate.coefficient
dollars_under inr r = 10 ^ r.usd_rate.scale * r.own_rate.coefficient

-- The base units that are worth the invoice, as numerator and denominator.
abbrev pub units_over : QuoteCalculationInput → Rates → ℕ
units_over input r =
    parse input.invoice_minor_units
    * dollars_over input.invoice_currency r
    * 10 ^ r.price.scale
    * 1_000_000

abbrev pub units_under : QuoteCalculationInput → Rates → ℕ
units_under input r = 100 * dollars_under input.invoice_currency r * r.price.coefficient * 1

fraction_from_decimal-StandsFor :
    (text : Text) (value : ExactDecimal)
    → Reads text value
    → (fraction_from_decimal text ≡ ok (decimal_fraction value))
      × StandsFor (decimal_fraction value) value.coefficient (10 ^ value.scale)
fraction_from_decimal-StandsFor text value h = (
  rw (h.0) refl,
  reduce-StandsFor (record { n = value.coefficient; d = 10 ^ value.scale }) (pow_pos value.scale),
)

-- Two rates, one multiplied by and one divided by.
crossed_rate :
    (f : Fraction) (n d : ℕ) (usd_text own_text : Text) (u o : ExactDecimal)
    → StandsFor f n d
    → Reads usd_text u
    → Reads own_text o
    → (g : Fraction) × ((fraction_from_decimal usd_text >>= λ usd_rate.
          fraction_from_decimal own_text >>= λ own_rate. divide (multiply f usd_rate) own_rate)
        ≡ ok g)
      × StandsFor g (n * (u.coefficient * 10 ^ o.scale)) (d * (10 ^ u.scale * o.coefficient))
crossed_rate f n d usd_text own_text u o k hu ho =
    let usd_part = fraction_from_decimal-StandsFor usd_text u hu in
    let own_part = fraction_from_decimal-StandsFor own_text o ho in
    let product = multiply-StandsFor f (decimal_fraction u) n d _ _ k usd_part.1 in
    let quotient =
      divide-StandsFor (multiply f (decimal_fraction u)) (decimal_fraction o) (n * u.coefficient)
        (d * 10 ^ u.scale) _ _ product own_part.1 ho.1 in
    (
      quotient.0,
      rw (usd_part.0, own_part.0) quotient.1,
      rw (← Nat.mul_assoc n, ← Nat.mul_assoc d) quotient.2,
    )

-- The amount in dollars is found, and stands for the product of the input's numbers.
usd_amount_of-StandsFor :
    (currency : QuoteCurrency) (rates : Option FiatRates) (r : Rates) (f : Fraction) (n d : ℕ)
    → ReadsRates currency rates r
    → StandsFor f n d
    → (g : Fraction) × (usd_amount_of currency rates f ≡ ok g)
      × StandsFor g (n * dollars_over currency r) (d * dollars_under currency r)
unfolding usd_amount_of
usd_amount_of-StandsFor usd none r f n d h k = (f, refl, rw (Nat.mul-one n, Nat.mul-one d) k)
usd_amount_of-StandsFor usd (some rates) r f n d h k = absurd h
usd_amount_of-StandsFor eur none r f n d h k = absurd h
usd_amount_of-StandsFor eur (some rates) r f n d h k =
    let rate = fraction_from_decimal-StandsFor rates.usd_rate r.usd_rate h in
    (
      multiply f (decimal_fraction r.usd_rate),
      rw (rate.0) refl,
      multiply-StandsFor f (decimal_fraction r.usd_rate) n d _ _ k rate.1,
    )
usd_amount_of-StandsFor gbp none r f n d h k = absurd h
usd_amount_of-StandsFor gbp (some rates) r f n d h k =
    crossed_rate f n d rates.usd_rate rates.gbp_rate r.usd_rate r.own_rate k h.0 h.1
usd_amount_of-StandsFor inr none r f n d h k = absurd h
usd_amount_of-StandsFor inr (some rates) r f n d h k =
    crossed_rate f n d rates.usd_rate rates.inr_rate r.usd_rate r.own_rate k h.0 h.1

-- The fraction whose ceiling is the amount.
token_units :
    (input : QuoteCalculationInput) (r : Rates)
    → ReadsInput input r
    → (usd_fraction : Fraction) × (token : Fraction) × (usd_amount_of input.invoice_currency
          input.fiat_rates
          (fraction_from_integer input.invoice_minor_units 100)
        ≡ ok usd_fraction)
      × (divide usd_fraction (decimal_fraction r.price) ≡ ok token)
      × StandsFor
          (multiply token (record { n = 1_000_000; d = 1 }))
          (units_over input r)
          (units_under input r)
token_units input r h =
    let cents : StandsFor (fraction_from_integer input.invoice_minor_units 100)
        (parse input.invoice_minor_units) 100 =
      reduce-StandsFor (record { n = parse input.invoice_minor_units; d = 100 }) (omega arith) in
    let dollars =
      usd_amount_of-StandsFor input.invoice_currency input.fiat_rates r
        (fraction_from_integer input.invoice_minor_units 100) _ _ h.1 cents in
    let price = fraction_from_decimal-StandsFor input.stablecoin_usd_price r.price h.0 in
    let token =
      divide-StandsFor (dollars.0) (decimal_fraction r.price) _ _ _ _ dollars.2 price.1 (h.0.1) in
    (
      dollars.0,
      token.0,
      dollars.1,
      token.1,
      multiply-StandsFor (token.0) (record { n = 1_000_000; d = 1 }) _ _ _ _ token.2
          (omega arith, omega arith, omega arith),
    )

-- A normalized input that can be read is quoted the ceiling of its fraction, or is out of range.
pub quote_normalized-exact :
    (decimal_string : Fraction → Text) (digest : QuoteCalculationInput → Text)
    (input : QuoteCalculationInput) (r : Rates)
    → ReadsInput input r
    → (amount : ℕ) × (quote : QuoteCalculation) × IsCeiling
        (units_over input r)
        (units_under input r)
        amount
      × (quote.amount_base_units ≡ format amount)
      × (quote_normalized decimal_string digest input ≡ (
          if ltb amount 1 || ltb maximum_base_units amount
          then err quote_amount_out_of_range
          else ok quote))
unfolding quote_normalized
quote_normalized-exact decimal_string digest input r h =
    let units = token_units input r h in
    let price = fraction_from_decimal-StandsFor input.stablecoin_usd_price r.price h.0 in
    let amount : ℕ = ceil_fraction (multiply units.1 (record { n = 1_000_000; d = 1 })) in
    (
      amount,
      quote_of decimal_string digest input units.0 units.1 amount,
      ceil_fraction-IsCeiling _ _ _ units.4,
      refl,
      rw (units.2, price.0, units.3) refl,
    )
