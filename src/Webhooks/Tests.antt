-- ===== src/Webhooks/Tests.antt =====
-- Runs of the delivery worker on a claim whose endpoint answers 503 and asks for a delay.
use solana_payment_ops.Common.{
  ℕ, ◌+◌, ◌%◌, replicate, ◌≤◌, ◌≡◌, refl, ◌⊎◌, Bool, true, false, none, some, List, [], ◌∷◌, arith,
  length, map, range, Option,
}
use solana_payment_ops.Common.Decimal.{Text, codes}
use solana_payment_ops.Common.Result.{Result, ok, err}
use solana_payment_ops.Webhooks.RetryPolicy.{
  automatic_retry_window_ms, maximum_delay_ms, bounded_delay, can_automatically_send,
  classify_delivery_result, next_attempt_at, response, success, retry, dead,
}
use solana_payment_ops.Webhooks.RetryPolicy.Schedule.{IsSchedule, next_attempt_at-total}
use solana_payment_ops.Webhooks.Worker.{
  ClaimedDelivery, retry_wait, given_up, http, completion, Surroundings, result_completion,
  send_delivery, sign_webhook, delivery_request, deliver_claim,
}
use solana_payment_ops.Webhooks.Worker.Outcome.{
  Fits, MaySend, deliver_claim-Fits, deliver_claim-sends_iff,
}
use solana_payment_ops.Webhooks.Worker.Returns.{Returns, deliver_claim-Returns}
use solana_payment_ops.Webhooks.Signing.{WebhookRequest, verified, verify_webhook}
use solana_payment_ops.Webhooks.Signing.Parses.{IsDigest}
use solana_payment_ops.Webhooks.Signing.Accepts.{IsVerified, verify_webhook-verified_iff}
use solana_payment_ops.Webhooks.Signing.Delivered.{received, deliver_claim-verifies}
use solana_payment_ops.Webhooks.Concurrent.{
  launch, launch_all, record_outcome, proceed, resume, run_schedule, start_pool, pool_after,
  map_concurrent,
}
use solana_payment_ops.Webhooks.Concurrent.Ends.{Resumes, map_concurrent-ends}
use solana_payment_ops.Webhooks.Batch.{
  CommittedOutcome, sent, retry_scheduled, lease_lost, DeliveryBatchResult, deliveries,
  run_delivery_batch,
}
use solana_payment_ops.Webhooks.Batch.Counts.{tally, run_delivery_batch-counts}

abbrev claim_of : Bool → ClaimedDelivery
claim_of manual = record {
  delivery_id = "delivery";
  lease_token = "token";
  attempt_number = 2;
  first_attempt_at = 1_000;
  manual_replay = manual;
  manual_replay_recovery = false;
  endpoint = record {
    id = "endpoint";
    url = "https://example.com";
    secret_env = "SECRET";
    previous_secret_env = none;
  };
  event = record {
    id = "event";
    event_type = "invoice.paid";
    payload = codes "{}";
    digest = "digest";
    occurred_at = 900;
  };
}

-- The endpoint answers 503 and asks for half a minute.
abbrev busy : Surroundings
busy = record {
  started_at = 7_000;
  completed_at = 7_250;
  draw = 0;
  environment = λ name. some (codes "secret");
  hmac_sha256 = λ secret text. codes "00";
  transport = λ request. ok (record { status = 503; retry_after = some (codes "30") });
  parse_date = λ text. none;
}

classes :
    (classify_delivery_result (response 204) ≡ success)
    × (classify_delivery_result (response 429) ≡ retry)
    × (classify_delivery_result (response 410) ≡ dead)
unfolding classify_delivery_result
classes = (refl, refl, refl)

busy_is_retried :
    (deliver_claim (claim_of false) busy).1
    ≡ ok (completion retry_wait 7_250 (some 37_250) (some 503) (some (http 503)) 250)
unfolding deliver_claim can_automatically_send send_delivery result_completion
    classify_delivery_result next_attempt_at bounded_delay
busy_is_retried = refl

busy_replay_is_given_up :
    (deliver_claim (claim_of true) busy).1
    ≡ ok (completion given_up 7_250 none (some 503) (some (http 503)) 250)
unfolding deliver_claim can_automatically_send send_delivery result_completion
    classify_delivery_result next_attempt_at bounded_delay
busy_replay_is_given_up = refl

abbrev two_claims : List (ClaimedDelivery × Surroundings)
two_claims = (claim_of false, busy) ∷ (claim_of true, busy) ∷ []

abbrev counted : DeliveryBatchResult
counted = record {
  claimed_count = 2;
  succeeded_count = 0;
  retry_scheduled_count = 1;
  dead_count = 1;
  lease_lost_count = 0;
}

-- Both deliveries are under way, and the second one settles first.
busy_batch :
    run_delivery_batch (λ claim c. true) 10 none two_claims (0 ∷ 1 ∷ []) ≡ some (ok counted)
unfolding run_delivery_batch map_concurrent pool_after start_pool launch_all launch run_schedule
    resume record_outcome proceed deliver_claim can_automatically_send send_delivery
    result_completion classify_delivery_result next_attempt_at bounded_delay
busy_batch = refl

half_way : run_delivery_batch (λ claim c. true) 10 none two_claims (0 ∷ []) ≡ none
unfolding run_delivery_batch map_concurrent pool_after start_pool launch_all launch run_schedule
    resume record_outcome proceed deliver_claim can_automatically_send send_delivery
    result_completion classify_delivery_result next_attempt_at bounded_delay
half_way = refl

next_attempt_at-total_example :
    ((t : ℕ) × (next_attempt_at 1_000 2 7_250 0 (some 30_000) ≡ ok (some t))
      × IsSchedule 1_000 2 7_250 30_000 t)
    ⊎ ((next_attempt_at 1_000 2 7_250 0 (some 30_000) ≡ ok none)
        × (1_000 + automatic_retry_window_ms ≤ 7_250 + maximum_delay_ms))
next_attempt_at-total_example =
    next_attempt_at-total 1_000 2 7_250 0 (some 30_000) (omega arith) (omega arith) (omega arith)

deliver_claim-Fits_example :
    Fits
      (claim_of false)
      (completion retry_wait 7_250 (some 37_250) (some 503) (some (http 503)) 250)
deliver_claim-Fits_example =
    deliver_claim-Fits (claim_of false) busy
      (completion retry_wait 7_250 (some 37_250) (some 503) (some (http 503)) 250) busy_is_retried

busy_is_sent :
    (deliver_claim (claim_of false) busy).0
    ≡ some (delivery_request (claim_of false) busy (codes "secret"))
unfolding deliver_claim can_automatically_send send_delivery
busy_is_sent = refl

deliver_claim-sends_iff_example :
    MaySend (claim_of false) busy (delivery_request (claim_of false) busy (codes "secret"))
deliver_claim-sends_iff_example =
    (deliver_claim-sends_iff (claim_of false) busy
        (delivery_request (claim_of false) busy (codes "secret"))).0
      busy_is_sent

deliver_claim-Returns_example : Returns (deliver_claim (claim_of false) busy).1
deliver_claim-Returns_example =
    deliver_claim-Returns busy (λ v t e. absurd (cc e)) (claim_of false) (omega arith) (omega arith)

run_delivery_batch-counts_example :
    ((pool_after (deliveries (λ claim c. true) two_claims) 10 (0 ∷ 1 ∷ [])).calls ≡ range 2)
    × ((outs : List CommittedOutcome) × (deliveries (λ claim c. true) two_claims ≡ map ok outs)
        × (2 ≡ length two_claims)
        × (0 ≡ tally sent outs)
        × (1 ≡ tally retry_scheduled outs)
        × (1 ≡ tally CommittedOutcome.dead outs)
        × (0 ≡ tally lease_lost outs)
        × (2 ≡ length two_claims))
run_delivery_batch-counts_example =
    run_delivery_batch-counts (λ claim c. true) 10 none two_claims (0 ∷ 1 ∷ []) counted busy_batch

-- Three values, the second of which fails; two workers.
abbrev three_outcomes : List (Result ℕ ℕ)
three_outcomes = ok 7 ∷ err 8 ∷ ok 9 ∷ []

failed_early : map_concurrent three_outcomes 2 (0 ∷ 1 ∷ []) ≡ some (err 8)
unfolding map_concurrent pool_after start_pool launch_all launch run_schedule resume record_outcome
    proceed
failed_early = refl

first_resumed : Resumes three_outcomes (start_pool 2 3) (1 ∷ 0 ∷ [])
unfolding start_pool launch_all launch resume record_outcome proceed
first_resumed = ((0, refl), ((1, refl), tt))

map_concurrent-ends_example :
    (2 ≤ 3)
    × (((end : Result ℕ (List (Option ℕ))) × (map_concurrent three_outcomes 2 (1 ∷ 0 ∷ [])
            ≡ some end))
        ⊎ ((w : ℕ) × Resumes three_outcomes (pool_after three_outcomes 2 (1 ∷ 0 ∷ [])) (w ∷ [])))
map_concurrent-ends_example = map_concurrent-ends three_outcomes 2 (1 ∷ 0 ∷ []) first_resumed

-- A hash that tells keys of different lengths apart.
abbrev hmac_of : Text → Text → Text
hmac_of key message = (b'0' + length key % 10) ∷ replicate 63 b'0'

hmac_of-IsDigest : (key message : Text) → IsDigest (hmac_of key message)
hmac_of-IsDigest key message = (refl, ground arith)

-- A request of the second 1000, signed with the second of two secrets.
abbrev signed_request : WebhookRequest
signed_request = record {
  body = codes "{}";
  timestamp = codes "1000";
  signature = sign_webhook hmac_of (codes "{}") (codes "1000") (codes "secret");
}

abbrev two_secrets : List Text
two_secrets = codes "old" ∷ codes "secret" ∷ []

second_verifies :
    verify_webhook hmac_of signed_request two_secrets (some 1_000_500) (some 300_000) ≡ verified 1
unfolding verify_webhook
second_verifies = refl

verify_webhook-verified_iff_example :
    (date : ℕ) × (allowed : ℕ) × (◌≡◌ {A = Option ℕ} (some 1_000_500) (some date))
    × (◌≡◌ {A = Option ℕ} (some 300_000) (some allowed))
    × IsVerified hmac_of hmac_of-IsDigest signed_request two_secrets date allowed 1
verify_webhook-verified_iff_example =
    (verify_webhook-verified_iff hmac_of hmac_of-IsDigest signed_request two_secrets
        (some 1_000_500) (some 300_000) 1).0
      second_verifies

abbrev signing : Surroundings
signing = record busy { hmac_sha256 = hmac_of }

sends_signed :
    (deliver_claim (claim_of false) signing).0
    ≡ some (delivery_request (claim_of false) signing (codes "secret"))
unfolding deliver_claim can_automatically_send send_delivery
sends_signed = refl

deliver_claim-verifies_example :
    verify_webhook hmac_of
      (received (delivery_request (claim_of false) signing (codes "secret")))
      (codes "secret" ∷ [])
      (some 8_000)
      (some 300_000)
    ≡ verified 0
deliver_claim-verifies_example =
    deliver_claim-verifies (claim_of false) signing
      (delivery_request (claim_of false) signing (codes "secret")) (codes "secret") [] 8_000 300_000
      hmac_of-IsDigest sends_signed refl (omega arith) (omega arith) (omega arith) (omega arith)
