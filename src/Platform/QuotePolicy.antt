-- ===== src/Platform/QuotePolicy.antt =====
-- packages/platform/src/quotes/quote-policy.ts: which observed rates a quote may use. A time is its
-- number of milliseconds, from an epoch before all of them; reading a canonical timestamp is the
-- parameter `read_time`.
pub mod Sound
mod Tests
use solana_payment_ops.Common.{
  ℕ, suc, ◌+◌, String, Bool, true, false, ◌&&◌, ◌||◌, not, Option, none, some, List, [], ◌∷◌,
  if◌then◌else◌, ltb, leb, ◌==◌, ◌===◌, includes, length, all, get_elem?,
}
use solana_payment_ops.Common.Result.{Result, ok, err, ◌>>=◌, throw_if, or_throw}
use solana_payment_ops.Common.Int.{ℤ}
use solana_payment_ops.Common.Decimal.{Text, codes, is_digit}
use solana_payment_ops.Platform.ExactDecimal.{
  ExactDecimal, DecimalError, parse_unsigned_decimal, ratio_at_most, absolute_difference,
  exponent_fits,
}
use solana_payment_ops.Platform.Quote.{QuoteCurrency, usd, eur, gbp, inr, FiatRates}

pub data QuotePolicyError : Type 0 where
  rate_unavailable rate_stale rate_low_confidence stablecoin_depegged : QuotePolicyError
  rate_divergence fx_reference_not_production rate_invalid : QuotePolicyError

pub record StablecoinObservation : Type 0 where
  pub source : String
  pub symbol : String
  pub price : Text
  pub confidence : Text
  pub exponent : ℤ
  pub publish_time : Text
  pub feed_id : Text
  pub received_at : Text
  pub raw_response_digest : Text

pub record FiatObservation : Type 0 where
  pub source : String
  pub usage : String
  pub base : String
  pub rates : FiatRates
  pub observed_for : Text
  pub published_at : Text
  pub received_at : Text
  pub raw_response_digest : Text

pub record QuotePolicyInput : Type 0 where
  pub now : Option ℕ
  pub is_production : Bool
  pub currency : QuoteCurrency
  pub primary : StablecoinObservation
  pub secondary : Option StablecoinObservation
  pub require_secondary : Bool
  pub fiat : Option FiatObservation

pub record ValidatedQuoteInputs : Type 0 where
  pub valid_primary : StablecoinObservation
  pub valid_fiat : Option FiatObservation

abbrev pub is_hex_digit : ℕ → Bool
is_hex_digit c = is_digit c || (leb b'a' c && leb c b'f')

-- `/^[0-9a-f]{64}$/`
abbrev pub is_digest_text : Text → Bool
is_digest_text s = length s == 64 && all is_hex_digit s

abbrev pub has_digit : Text → ℕ → Bool
has_digit s i = elim (get_elem? s i) [ none ↦ false | some c ↦ is_digit c ]

abbrev pub has_hyphen : Text → ℕ → Bool
has_hyphen s i = elim (get_elem? s i) [ none ↦ false | some c ↦ c == b'-' ]

-- `/^\d{4}-\d{2}-\d{2}$/`
abbrev pub is_day_text : Text → Bool
is_day_text s =
    length s == 10
    && (all (has_digit s) (0 ∷ 1 ∷ 2 ∷ 3 ∷ 5 ∷ 6 ∷ 8 ∷ 9 ∷ [])
        && (has_hyphen s 4 && has_hyphen s 7))

abbrev pub or_rate_invalid : Result DecimalError ExactDecimal → Result QuotePolicyError ExactDecimal
or_rate_invalid (ok value) = ok value
or_rate_invalid (err e) = err rate_invalid

-- `decimal`
abbrev pub read_decimal : Text → Bool → Result QuotePolicyError ExactDecimal
read_decimal value allow_zero = or_rate_invalid (parse_unsigned_decimal value allow_zero)

-- `exactTimestamp`
abbrev pub exact_timestamp : (Text → Option ℕ) → Text → Result QuotePolicyError ℕ
exact_timestamp read_time value = or_throw (read_time value) rate_invalid

abbrev pub is_shaped : StablecoinObservation → Bool
is_shaped observation =
    includes ("pyth_hermes" ∷ "secondary_test" ∷ "secondary_commercial" ∷ []) observation.source
    && (includes ("USDC" ∷ "USDT" ∷ []) observation.symbol
        && (exponent_fits observation.exponent
            && (is_digest_text observation.feed_id
                && is_digest_text observation.raw_response_digest)))

-- The times of an observation that could not be.
abbrev pub is_untimely : ℕ → ℕ → ℕ → Bool
is_untimely published received now =
    ltb received published || (ltb (now + 5_000) received || ltb (now + 5_000) published)

-- The tests of a price and its confidence.
unfoldable pub validate_price :
    ExactDecimal → ExactDecimal → ExactDecimal → Result QuotePolicyError (Unit {0})
validate_price price confidence one =
    throw_if (not (ratio_at_most confidence price 5 1_000)) rate_low_confidence >>= λ _.
    throw_if (not (ratio_at_most (absolute_difference price one) one 1 100)) stablecoin_depegged

unfoldable pub validate_stablecoin :
    (Text → Option ℕ) → StablecoinObservation → ℕ → Result QuotePolicyError (Unit {0})
validate_stablecoin read_time observation now =
    throw_if (not (is_shaped observation)) rate_invalid >>= λ _.
    exact_timestamp read_time observation.publish_time >>= λ published.
    exact_timestamp read_time observation.received_at >>= λ received.
    throw_if (is_untimely published received now) rate_invalid >>= λ _.
    throw_if (ltb (published + 30_000) now) rate_stale >>= λ _.
    read_decimal observation.price false >>= λ price.
    read_decimal observation.confidence true >>= λ confidence.
    read_decimal (codes "1") false >>= λ one. validate_price price confidence one

abbrev pub is_fiat_shaped : FiatObservation → Bool
is_fiat_shaped observation =
    includes ("ecb_reference" ∷ "secondary_commercial" ∷ []) observation.source
    && (observation.base === "EUR"
        && (includes ("reference_only" ∷ "production_live" ∷ []) observation.usage
            && (is_digest_text observation.raw_response_digest
                && is_day_text observation.observed_for)))

abbrev pub maximum_age : FiatObservation → ℕ
maximum_age observation = if observation.usage === "production_live" then 300_000 else 129_600_000

-- The keys of the rates are the fields of the record.
unfoldable pub validate_fiat :
    (Text → Option ℕ) → FiatObservation → ℕ → Result QuotePolicyError (Unit {0})
validate_fiat read_time observation now =
    throw_if (not (is_fiat_shaped observation)) rate_invalid >>= λ _.
    read_decimal observation.rates.usd_rate false >>= λ usd_value.
    read_decimal observation.rates.gbp_rate false >>= λ gbp_value.
    read_decimal observation.rates.inr_rate false >>= λ inr_value.
    exact_timestamp read_time observation.published_at >>= λ published.
    exact_timestamp read_time observation.received_at >>= λ received.
    throw_if (is_untimely published received now) rate_invalid >>= λ _.
    throw_if (ltb (published + maximum_age observation) now) rate_stale

-- The secondary observation, if there is one, against the primary one.
abbrev pub validate_secondary :
    (Text → Option ℕ)
    → StablecoinObservation
    → Bool
    → ℕ
    → Option StablecoinObservation
    → Result QuotePolicyError (Unit {0})
validate_secondary read_time primary required now none = throw_if required rate_unavailable
validate_secondary read_time primary required now (some secondary) =
    validate_stablecoin read_time secondary now >>= λ _.
    throw_if (not (secondary.symbol === primary.symbol)) rate_invalid >>= λ _.
    read_decimal primary.price false >>= λ price. read_decimal secondary.price false >>= λ other.
    throw_if (not (ratio_at_most (absolute_difference price other) price 5 1_000)) rate_divergence

abbrev pub validate_rates :
    (Text → Option ℕ)
    → QuotePolicyInput
    → ℕ
    → Option FiatObservation
    → Result QuotePolicyError ValidatedQuoteInputs
validate_rates read_time input now none = err rate_unavailable
validate_rates read_time input now (some fiat) = validate_fiat read_time fiat now >>= λ _.
    throw_if
      (input.is_production
        && (not (fiat.source === "secondary_commercial") || not (fiat.usage === "production_live")))
      fx_reference_not_production
    >>= λ _. ok (record { valid_primary = input.primary; valid_fiat = some fiat })

abbrev pub is_usd : QuoteCurrency → Bool
is_usd usd = true
is_usd _ = false

unfoldable pub evaluate_quote_inputs :
    (Text → Option ℕ) → QuotePolicyInput → Result QuotePolicyError ValidatedQuoteInputs
evaluate_quote_inputs read_time input = or_throw input.now rate_invalid >>= λ now.
    validate_stablecoin read_time input.primary now >>= λ _.
    validate_secondary read_time input.primary input.require_secondary now input.secondary >>= λ _.
    if is_usd input.currency
    then ok (record { valid_primary = input.primary; valid_fiat = none })
    else validate_rates read_time input now input.fiat
