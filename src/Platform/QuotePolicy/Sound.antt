-- ===== src/Platform/QuotePolicy/Sound.antt =====
-- What packages/platform/src/quotes/quote-policy.ts has made sure of when it lets a quote use the
-- observed rates.
use native.Mathlib.Nat
use solana_payment_ops.Common.{
  ℕ, ◌+◌, ◌*◌, ◌^◌, ◌<◌, ◌≤◌, ◌≡◌, refl, sym, ap, ◌∙◌, subst, String, Bool, true, false, ◌&&◌, ◌||◌,
  not, Option, none, some, if◌then◌else◌, ltb, ◌===◌, ===_iff, arith,
}
use solana_payment_ops.Common.Result.{
  Result, ok, err, or_throw, >>=-eq-ok, throw_if-eq-ok, ok-injective, throw_if-eq-false,
}
use solana_payment_ops.Common.Powers.{mul-le_iff, pow_pos}
use solana_payment_ops.Common.Decimal.{Text, codes}
use solana_payment_ops.Platform.ExactDecimal.{
  ExactDecimal, DecimalError, parse_unsigned_decimal, ratio_at_most, absolute_difference, normalize,
}
use solana_payment_ops.Platform.ExactDecimal.Value.{
  crossed, distance, ratio_at_most-value, absolute_difference-value,
}
use solana_payment_ops.Platform.QuotePolicy.{
  rate_unavailable, rate_stale, rate_low_confidence, stablecoin_depegged, rate_divergence,
  fx_reference_not_production, rate_invalid, StablecoinObservation, FiatObservation,
  QuotePolicyInput, ValidatedQuoteInputs, or_rate_invalid, read_decimal, exact_timestamp, is_shaped,
  is_untimely, validate_price, validate_stablecoin, is_fiat_shaped, maximum_age, validate_fiat,
  validate_secondary, validate_rates, is_usd, evaluate_quote_inputs,
}

-- The difference of two decimals is a small share of a third.
difference-within :
    (a b e : ExactDecimal) (p q : ℕ)
    → ratio_at_most (absolute_difference a b) e p q ≡ true
    → distance (crossed a b) (crossed b a) * 10 ^ e.scale * q
      ≤ e.coefficient * (10 ^ a.scale * 10 ^ b.scale) * p
difference-within a b e p q h =
    let d : ExactDecimal = absolute_difference a b in
    let small = ((ratio_at_most-value d e p q).0 h).1 in
    let value = (absolute_difference-value a b).0 in
    let wide = Nat.mul-le-mul_right (10 ^ a.scale * 10 ^ b.scale) small in
    (mul-le_iff (10 ^ d.scale) (distance (crossed a b) (crossed b a) * 10 ^ e.scale * q)
        (e.coefficient * (10 ^ a.scale * 10 ^ b.scale) * p) (pow_pos d.scale)).0
      (omega (arith, wide, ap (λ (t : ℕ). t * (10 ^ e.scale * q)) value))

read_decimal-ok :
    (text : Text) (zero_too : Bool) (value : ExactDecimal)
    → read_decimal text zero_too ≡ ok value
    → parse_unsigned_decimal text zero_too ≡ ok value
read_decimal-ok text zero_too value h = of_read (parse_unsigned_decimal text zero_too) h
  where
    of_read : (r : Result DecimalError ExactDecimal) → or_rate_invalid r ≡ ok value → r ≡ ok value
    of_read (ok v) k = ap ok (ok-injective k)
    of_read (err e) k = cc k

exact_timestamp-ok : (time : Option ℕ) (t : ℕ) → or_throw time rate_invalid ≡ ok t → time ≡ some t
exact_timestamp-ok none t h = cc h
exact_timestamp-ok (some s) t h = ap some (ok-injective h)

one_is_read : parse_unsigned_decimal (codes "1") false ≡ ok (record { coefficient = 1; scale = 0 })
unfolding parse_unsigned_decimal normalize
one_is_read = refl

-- Published and received in order, neither from the future, and not too old.
abbrev pub IsTimely : ℕ → ℕ → ℕ → ℕ → Type 0
IsTimely published received now age =
    (published ≤ received) × (received ≤ now + 5_000) × (now ≤ published + age)

-- A price near one dollar that is known well: the confidence interval is at most 0.5 % of it, and it
-- is within 1 % of one.
abbrev pub IsSteady : ExactDecimal → ExactDecimal → Type 0
IsSteady price confidence =
    (0 < price.coefficient)
    × (crossed confidence price * 1_000 ≤ crossed price confidence * 5)
    × (distance price.coefficient (10 ^ price.scale) * 100 ≤ 10 ^ price.scale)

pub record IsSound (read_time : Text → Option ℕ) (o : StablecoinObservation) (now : ℕ)
    : Type 0 where
  pub shaped : is_shaped o ≡ true
  pub times :
      (published : ℕ) × (received : ℕ) × (read_time o.publish_time ≡ some published)
      × (read_time o.received_at ≡ some received)
      × IsTimely published received now 30_000
  pub prices :
      (price : ExactDecimal) × (confidence : ExactDecimal) × (parse_unsigned_decimal o.price false
        ≡ ok price)
      × (parse_unsigned_decimal o.confidence true ≡ ok confidence)
      × IsSteady price confidence

timely :
    (published received now age : ℕ)
    → is_untimely published received now ≡ false
    → ltb (published + age) now ≡ false
    → IsTimely published received now age
timely published received now age h k = ground arith

not-false : (c : Bool) → not c ≡ false → c ≡ true
not-false true h = refl
not-false false h = cc h

validate_price-IsSteady :
    (price confidence one : ExactDecimal)
    → one ≡ record { coefficient = 1; scale = 0 }
    → validate_price price confidence one ≡ ok tt
    → IsSteady price confidence
unfolding validate_price
validate_price-IsSteady price confidence one e h =
    let a = throw_if-eq-ok (not (ratio_at_most confidence price 5 1_000)) rate_low_confidence _ h in
    let b =
      throw_if-eq-false (not (ratio_at_most (absolute_difference price one) one 1 100))
        stablecoin_depegged a.1 in
    let known : ratio_at_most confidence price 5 1_000 ≡ true =
      not-false (ratio_at_most confidence price 5 1_000) a.0 in
    let pegged : ratio_at_most (absolute_difference price one) one 1 100 ≡ true =
      not-false (ratio_at_most (absolute_difference price one) one 1 100) b in
    let share = (ratio_at_most-value confidence price 5 1_000).0 known in
    let unit : ExactDecimal = record { coefficient = 1; scale = 0 } in
    let peg = difference-within price unit unit 1 100 (
      subst (λ (o : ExactDecimal). ratio_at_most (absolute_difference price o) o 1 100 ≡ true) e
        pegged) in
    (share.0, share.1, omega (arith, peg))

-- An observation that passes is sound.
pub validate_stablecoin-IsSound :
    (read_time : Text → Option ℕ) (o : StablecoinObservation) (now : ℕ)
    → validate_stablecoin read_time o now ≡ ok tt
    → IsSound read_time o now
unfolding validate_stablecoin
validate_stablecoin-IsSound read_time o now h =
    let a = throw_if-eq-ok (not (is_shaped o)) rate_invalid _ h in
    let b = >>=-eq-ok (exact_timestamp read_time o.publish_time) _ a.1 in
    let c = >>=-eq-ok (exact_timestamp read_time o.received_at) _ b.2 in
    let d = throw_if-eq-ok (is_untimely b.0 c.0 now) rate_invalid _ c.2 in
    let e = throw_if-eq-ok (ltb (b.0 + 30_000) now) rate_stale _ d.1 in
    let f = >>=-eq-ok (read_decimal o.price false) _ e.1 in
    let g = >>=-eq-ok (read_decimal o.confidence true) _ f.2 in
    let i = >>=-eq-ok (read_decimal (codes "1") false) _ g.2 in
    let one = ok-injective (sym (read_decimal-ok (codes "1") false i.0 i.1) ∙ one_is_read) in
    record {
      shaped = not-false (is_shaped o) a.0;
      times = (
        b.0,
        c.0,
        exact_timestamp-ok (read_time o.publish_time) b.0 b.1,
        exact_timestamp-ok (read_time o.received_at) c.0 c.1,
        timely b.0 c.0 now 30_000 d.0 e.0,
      );
      prices = (
        f.0,
        g.0,
        read_decimal-ok o.price false f.0 f.1,
        read_decimal-ok o.confidence true g.0 g.1,
        validate_price-IsSteady f.0 g.0 i.0 one i.2,
      );
    }

-- A second observation, of the same coin, whose price differs by at most 0.5 % of the first.
abbrev pub Confirms :
    (Text → Option ℕ) → StablecoinObservation → ℕ → Option StablecoinObservation → Type 0
Confirms read_time primary now none = Unit
Confirms read_time primary now (some secondary) =
    IsSound read_time secondary now
    × (secondary.symbol ≡ primary.symbol)
    × ((price : ExactDecimal) × (other : ExactDecimal) × (parse_unsigned_decimal primary.price false
          ≡ ok price)
        × (parse_unsigned_decimal secondary.price false ≡ ok other)
        × (distance (crossed price other) (crossed other price) * 10 ^ price.scale * 1_000
            ≤ price.coefficient * (10 ^ price.scale * 10 ^ other.scale) * 5))

validate_secondary-Confirms :
    (read_time : Text → Option ℕ) (primary : StablecoinObservation) (required : Bool) (now : ℕ)
    (secondary : Option StablecoinObservation)
    → validate_secondary read_time primary required now secondary ≡ ok tt
    → Confirms read_time primary now secondary
validate_secondary-Confirms read_time primary required now none h = tt
validate_secondary-Confirms read_time primary required now (some secondary) h =
    let a = >>=-eq-ok (validate_stablecoin read_time secondary now) _ h in
    let b = throw_if-eq-ok (not (secondary.symbol === primary.symbol)) rate_invalid _ a.2 in
    let c = >>=-eq-ok (read_decimal primary.price false) _ b.1 in
    let d = >>=-eq-ok (read_decimal secondary.price false) _ c.2 in
    let near =
      throw_if-eq-false (not (ratio_at_most (absolute_difference c.0 d.0) c.0 5 1_000))
        rate_divergence d.2 in
    (
      validate_stablecoin-IsSound read_time secondary now a.1,
      (===_iff secondary.symbol primary.symbol).0
          (not-false (secondary.symbol === primary.symbol) b.0),
      (
        c.0,
        d.0,
        read_decimal-ok primary.price false c.0 c.1,
        read_decimal-ok secondary.price false d.0 d.1,
        difference-within c.0 d.0 c.0 5 1_000
            (not-false (ratio_at_most (absolute_difference c.0 d.0) c.0 5 1_000) near),
      ),
    )

-- Rates of the day or of the last five minutes; in production, live commercial ones.
abbrev pub IsCurrent : (Text → Option ℕ) → Bool → FiatObservation → ℕ → Type 0
IsCurrent read_time is_production o now =
    ((published : ℕ) × (received : ℕ) × (read_time o.published_at ≡ some published)
      × (read_time o.received_at ≡ some received)
      × IsTimely published received now (maximum_age o))
    × (is_production ≡ true → (o.source ≡ "secondary_commercial") × (o.usage ≡ "production_live"))

validate_fiat-IsTimely :
    (read_time : Text → Option ℕ) (o : FiatObservation) (now : ℕ)
    → validate_fiat read_time o now ≡ ok tt
    → (published : ℕ) × (received : ℕ) × (read_time o.published_at ≡ some published)
      × (read_time o.received_at ≡ some received)
      × IsTimely published received now (maximum_age o)
unfolding validate_fiat
validate_fiat-IsTimely read_time o now h =
    let a = throw_if-eq-ok (not (is_fiat_shaped o)) rate_invalid _ h in
    let u = >>=-eq-ok (read_decimal o.rates.usd_rate false) _ a.1 in
    let g = >>=-eq-ok (read_decimal o.rates.gbp_rate false) _ u.2 in
    let i = >>=-eq-ok (read_decimal o.rates.inr_rate false) _ g.2 in
    let b = >>=-eq-ok (exact_timestamp read_time o.published_at) _ i.2 in
    let c = >>=-eq-ok (exact_timestamp read_time o.received_at) _ b.2 in
    let d = throw_if-eq-ok (is_untimely b.0 c.0 now) rate_invalid _ c.2 in
    let e = throw_if-eq-false (ltb (b.0 + maximum_age o) now) rate_stale d.1 in
    (
      b.0,
      c.0,
      exact_timestamp-ok (read_time o.published_at) b.0 b.1,
      exact_timestamp-ok (read_time o.received_at) c.0 c.1,
      timely b.0 c.0 now (maximum_age o) d.0 e,
    )

production-live :
    (is_production : Bool) (source usage : String)
    → (is_production
        && (not (source === "secondary_commercial") || not (usage === "production_live")))
      ≡ false
    → is_production ≡ true
    → (source ≡ "secondary_commercial") × (usage ≡ "production_live")
production-live is_production source usage h live =
    ground (arith, ===_iff source "secondary_commercial", ===_iff usage "production_live")

-- What is validated for a currency: no rates for dollars, current rates for the others.
abbrev pub HasRates : (Text → Option ℕ) → QuotePolicyInput → ℕ → Option FiatObservation → Type 0
HasRates read_time input now none = is_usd input.currency ≡ true
HasRates read_time input now (some fiat) =
    (is_usd input.currency ≡ false)
    × (input.fiat ≡ some fiat)
    × IsCurrent read_time input.is_production fiat now

validate_rates-HasRates :
    (read_time : Text → Option ℕ) (input : QuotePolicyInput) (now : ℕ)
    (fiat : Option FiatObservation) (out : ValidatedQuoteInputs)
    → fiat ≡ input.fiat
    → is_usd input.currency ≡ false
    → validate_rates read_time input now fiat ≡ ok out
    → (out.valid_primary ≡ input.primary) × HasRates read_time input now out.valid_fiat
validate_rates-HasRates read_time input now none out given foreign h = cc h
validate_rates-HasRates read_time input now (some fiat) out given foreign h =
    let a = >>=-eq-ok (validate_fiat read_time fiat now) _ h in
    let b =
      throw_if-eq-ok
        (input.is_production
          && (not (fiat.source === "secondary_commercial")
              || not (fiat.usage === "production_live")))
        fx_reference_not_production _ a.2 in
    subst
      (λ (o : ValidatedQuoteInputs).
        (o.valid_primary ≡ input.primary) × HasRates read_time input now o.valid_fiat)
      (ok-injective b.1)
      (
        refl,
        (
          foreign,
          sym given,
          (
            validate_fiat-IsTimely read_time fiat now a.1,
            production-live input.is_production fiat.source fiat.usage b.0,
          ),
        ),
      )

-- The inputs that a quote may use are the primary observation, sound and confirmed by the secondary
-- one if there is one, and, unless the currency is the dollar, the current rates that were given;
-- without a secondary observation none was required.
pub evaluate_quote_inputs-IsSound :
    (read_time : Text → Option ℕ) (input : QuotePolicyInput) (out : ValidatedQuoteInputs)
    → evaluate_quote_inputs read_time input ≡ ok out
    → (now : ℕ) × (input.now ≡ some now)
      × (out.valid_primary ≡ input.primary)
      × IsSound read_time input.primary now
      × Confirms read_time input.primary now input.secondary
      × (input.secondary ≡ none → input.require_secondary ≡ false)
      × HasRates read_time input now out.valid_fiat
unfolding evaluate_quote_inputs
evaluate_quote_inputs-IsSound read_time input out h =
    let a = >>=-eq-ok (or_throw input.now rate_invalid) _ h in
    let b = >>=-eq-ok (validate_stablecoin read_time input.primary a.0) _ a.2 in
    let c =
      >>=-eq-ok
        (validate_secondary read_time input.primary input.require_secondary a.0 input.secondary) _
        b.2 in
    let rates = of_currency a.0 (is_usd input.currency) refl c.2 in
    (
      a.0,
      exact_timestamp-ok input.now a.0 a.1,
      rates.0,
      validate_stablecoin-IsSound read_time input.primary a.0 b.1,
      validate_secondary-Confirms read_time input.primary input.require_secondary a.0
          input.secondary c.1,
      not_required a.0 input.secondary c.1,
      rates.1,
    )
  where
    of_currency :
        (now : ℕ) (dollars : Bool)
        → is_usd input.currency ≡ dollars
        → (if dollars
            then ok (record { valid_primary = input.primary; valid_fiat = none })
            else validate_rates read_time input now input.fiat)
          ≡ ok out
        → (out.valid_primary ≡ input.primary) × HasRates read_time input now out.valid_fiat
    of_currency now true e k =
        subst
          (λ (o : ValidatedQuoteInputs).
            (o.valid_primary ≡ input.primary) × HasRates read_time input now o.valid_fiat)
          (ok-injective k) (refl, e)
    of_currency now false e k = validate_rates-HasRates read_time input now input.fiat out refl e k

    not_required :
        (now : ℕ) (secondary : Option StablecoinObservation)
        → validate_secondary read_time input.primary input.require_secondary now secondary ≡ ok tt
        → secondary ≡ none
        → input.require_secondary ≡ false
    not_required now none k e = throw_if-eq-false input.require_secondary rate_unavailable k
    not_required now (some secondary) k e = cc e
