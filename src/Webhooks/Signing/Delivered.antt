-- ===== src/Webhooks/Signing/Delivered.antt =====
-- What the worker of packages/webhooks/src/delivery/worker.ts sends is verified by `verifyWebhook` of
-- packages/webhooks/src/signing/hmac.ts.
use native.Mathlib.Decide.{ℕ_discrete}
use solana_payment_ops.Common.{
  ℕ, ◌+◌, ◌/◌, ◌≤◌, ◌≡◌, refl, sym, ap, ◌∙◌, subst, true, some, List, [], ◌∷◌, all, arith,
}
use solana_payment_ops.Common.Decimal.{Text, format, is_digit}
use solana_payment_ops.Common.Decimal.RoundTrip.{parse-format, all-is_digit-format}
use solana_payment_ops.Common.Decimal.Digits.{starts_nonzero, starts_nonzero-format, format_zero}
use solana_payment_ops.Webhooks.Worker.{
  ClaimedDelivery, DeliveryTransportRequest, Surroundings, is_decimal, delivery_request,
  deliver_claim,
}
use solana_payment_ops.Webhooks.Worker.Outcome.{deliver_claim-sends_iff}
use solana_payment_ops.Webhooks.Signing.{
  WebhookRequest, verified, maximum_tolerance_ms, verify_webhook,
}
use solana_payment_ops.Webhooks.Signing.Parses.{IsDigest}
use solana_payment_ops.Webhooks.Signing.Accepts.{IsVerified, verify_webhook-verified_iff}

is_decimal-of_digits :
    (s : Text) → starts_nonzero s ≡ true → all is_digit s ≡ true → is_decimal s ≡ true
is_decimal-of_digits [] h k = cc h
is_decimal-of_digits (c ∷ []) h k = ground arith
is_decimal-of_digits (c ∷ (d ∷ s)) h k = ground arith

is_decimal-format : (n : ℕ) → is_decimal (format n) ≡ true
is_decimal-format n = elim (ℕ_discrete n 0) [
  | yes e ↦ ap is_decimal (ap format e ∙ format_zero)
  | no more ↦
      is_decimal-of_digits (format n) (starts_nonzero-format n (omega arith))
        (all-is_digit-format n)
]

-- The parts of a sent request that its receiver verifies.
abbrev pub received : DeliveryTransportRequest → WebhookRequest
received request = record {
  body = request.body;
  timestamp = request.timestamp;
  signature = request.signature;
}

-- A request that a delivery sends, signed with the secret of its endpoint, is verified by a
-- receiver who has this secret first, within a tolerance of at most an hour, at any date from the
-- start of the delivery on until the tolerance, less 999 milliseconds for what the timestamp leaves
-- out, has passed. HMAC is taken to give 64 lower-case hexadecimal digits, and the start to be a
-- safe integer.
pub deliver_claim-verifies :
    (claim : ClaimedDelivery) (world : Surroundings) (request : DeliveryTransportRequest)
    (secret : Text) (older : List Text) (now tolerance : ℕ)
    → ((key message : Text) → IsDigest (world.hmac_sha256 key message))
    → (deliver_claim claim world).0 ≡ some request
    → world.environment claim.endpoint.secret_env ≡ some secret
    → tolerance ≤ maximum_tolerance_ms
    → world.started_at ≤ 9_007_199_254_740_991
    → world.started_at ≤ now
    → now + 999 ≤ world.started_at + tolerance
    → verify_webhook world.hmac_sha256
        (received request)
        (secret ∷ older)
        (some now)
        (some tolerance)
      ≡ verified 0
deliver_claim-verifies claim world request secret older now tolerance hexadecimal sends key
      tolerable safe after before =
    let (_, _, (s, at, some_key, made)) = (deliver_claim-sends_iff claim world request).0 sends in
    let same : s ≡ secret = cc (at, key) in
    let sent : delivery_request claim world secret ≡ request =
      ap (delivery_request claim world) (sym same) ∙ sym made in
    let seconds = world.started_at / 1_000 in
    let time = parse-format seconds in
    let kept : IsVerified world.hmac_sha256 hexadecimal
        (received (delivery_request claim world secret)) (secret ∷ older) now tolerance 0 =
      record {
        tolerable = tolerable;
        numeric = is_decimal-format seconds;
        safe = omega (arith, time);
        not_before = omega (arith, time);
        not_after = omega (arith, time);
        signer = (secret, refl, refl);
        first = tt;
      } in
    subst
      (λ r.
        verify_webhook world.hmac_sha256 (received r) (secret ∷ older) (some now) (some tolerance)
        ≡ verified 0)
      sent
      ((verify_webhook-verified_iff world.hmac_sha256 hexadecimal
          (received (delivery_request claim world secret)) (secret ∷ older) (some now)
          (some tolerance) 0).1
        (now, tolerance, refl, refl, kept))
