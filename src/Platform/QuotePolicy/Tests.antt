-- ===== src/Platform/QuotePolicy/Tests.antt =====
-- A dollar quote from one observation, and one from two that disagree.
use solana_payment_ops.Common.{ℕ, ◌≡◌, refl, true, false, Option, none, some}
use solana_payment_ops.Common.Result.{ok, err}
use solana_payment_ops.Common.Int.{negsuc}
use solana_payment_ops.Common.Decimal.{Text, codes, parse}
use solana_payment_ops.Platform.ExactDecimal.{
  parse_unsigned_decimal, ratio_at_most, absolute_difference, normalize,
}
use solana_payment_ops.Platform.Quote.{usd}
use solana_payment_ops.Platform.QuotePolicy.{
  StablecoinObservation, QuotePolicyInput, rate_divergence, validate_price, validate_stablecoin,
  evaluate_quote_inputs,
}
use solana_payment_ops.Platform.QuotePolicy.Sound.{
  IsSound, Confirms, HasRates, evaluate_quote_inputs-IsSound,
}

-- A time is written as its number of milliseconds here.
abbrev read_number : Text → Option ℕ
read_number text = some (parse text)

abbrev digest_text : Text
digest_text = codes "0123456789abcdef0123456789abcdef0123456789abcdef0123456789abcdef"

abbrev observation_of : Text → StablecoinObservation
observation_of price = record {
  source = "pyth_hermes";
  symbol = "USDC";
  price = price;
  confidence = codes "0.0004";
  exponent = negsuc 7;
  publish_time = codes "100000";
  feed_id = digest_text;
  received_at = codes "101000";
  raw_response_digest = digest_text;
}

abbrev input_of : Option StablecoinObservation → QuotePolicyInput
input_of secondary = record {
  now = some 120_000;
  is_production = true;
  currency = usd;
  primary = observation_of (codes "0.9998");
  secondary = secondary;
  require_secondary = false;
  fiat = none;
}

one_is_enough :
    evaluate_quote_inputs read_number (input_of none)
    ≡ ok (record { valid_primary = observation_of (codes "0.9998"); valid_fiat = none })
unfolding evaluate_quote_inputs validate_stablecoin validate_price parse_unsigned_decimal
    ratio_at_most absolute_difference normalize
one_is_enough = refl

two_disagree :
    evaluate_quote_inputs read_number (input_of (some (observation_of (codes "1.0049"))))
    ≡ err rate_divergence
unfolding evaluate_quote_inputs validate_stablecoin validate_price parse_unsigned_decimal
    ratio_at_most absolute_difference normalize
two_disagree = refl

evaluate_quote_inputs-IsSound_example :
    (now : ℕ) × (some 120_000 ≡ some now)
    × (observation_of (codes "0.9998") ≡ observation_of (codes "0.9998"))
    × IsSound read_number (observation_of (codes "0.9998")) now
    × Confirms read_number (observation_of (codes "0.9998")) now none
    × (◌≡◌ {A = Option StablecoinObservation} none none → false ≡ false)
    × HasRates read_number (input_of none) now none
evaluate_quote_inputs-IsSound_example =
    evaluate_quote_inputs-IsSound read_number (input_of none)
      (record { valid_primary = observation_of (codes "0.9998"); valid_fiat = none }) one_is_enough
