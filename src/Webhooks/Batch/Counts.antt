-- ===== src/Webhooks/Batch/Counts.antt =====
-- The counts of a batch of deliveries.
use mathlib.Core.Option
use solana_payment_ops.Common.{
  ℕ, ◌+◌, ◌≤◌, ◌≡◌, refl, sym, ◌∙◌, ap, Bool, true, false, ◌||◌, Option, none, some, List, [], ◌∷◌,
  map, arith, length, length-map, ltb, filter, range, if◌then◌else◌,
}
use solana_payment_ops.Common.Result.{Result, ok, err}
use solana_payment_ops.Webhooks.Worker.{ClaimedDelivery, DeliveryCompletion, Surroundings}
use solana_payment_ops.Webhooks.Concurrent.{pool_after, map_concurrent}
use solana_payment_ops.Webhooks.Concurrent.Complete.{map_concurrent-fills}
use solana_payment_ops.Webhooks.Batch.{
  CommittedOutcome, sent, retry_scheduled, dead, lease_lost, DeliveryBatchResult, BatchError,
  invalid_concurrency, no_outcomes, deliver_and_complete, deliveries, add_outcome, count_outcomes,
  batch_result, batch_concurrency, run_delivery_batch,
}

abbrev is_outcome : CommittedOutcome → CommittedOutcome → Bool
is_outcome sent sent = true
is_outcome retry_scheduled retry_scheduled = true
is_outcome dead dead = true
is_outcome lease_lost lease_lost = true
is_outcome _ _ = false

-- How many of the outcomes are the given one.
abbrev pub tally : CommittedOutcome → List CommittedOutcome → ℕ
tally o outcomes = length (filter (is_outcome o) outcomes)

-- The counts that a list of outcomes adds to.
abbrev pub tallied : DeliveryBatchResult → List CommittedOutcome → DeliveryBatchResult
tallied r os = record {
  claimed_count = r.claimed_count;
  succeeded_count = r.succeeded_count + tally sent os;
  retry_scheduled_count = r.retry_scheduled_count + tally retry_scheduled os;
  dead_count = r.dead_count + tally dead os;
  lease_lost_count = r.lease_lost_count + tally lease_lost os;
}

tallied-step :
    (r : DeliveryBatchResult) (o : CommittedOutcome) (os : List CommittedOutcome)
    → tallied (add_outcome r o) os ≡ tallied r (o ∷ os)
tallied-step r sent os = ground arith
tallied-step r retry_scheduled os = ground arith
tallied-step r dead os = ground arith
tallied-step r lease_lost os = ground arith

count_outcomes-tallied :
    (r : DeliveryBatchResult) (os : List CommittedOutcome)
    → count_outcomes r (map some os) ≡ tallied r os
count_outcomes-tallied r [] = ground arith
count_outcomes-tallied r (o ∷ os) =
    count_outcomes-tallied (add_outcome r o) os ∙ tallied-step r o os

tally-total :
    (os : List CommittedOutcome)
    → tally sent os + tally retry_scheduled os + tally dead os + tally lease_lost os ≡ length os
tally-total [] = refl
tally-total (sent ∷ os) = omega (arith, tally-total os)
tally-total (retry_scheduled ∷ os) = omega (arith, tally-total os)
tally-total (dead ∷ os) = omega (arith, tally-total os)
tally-total (lease_lost ∷ os) = omega (arith, tally-total os)

at_least_one : (c : ℕ) → (ltb c 1 || ltb 32 c) ≡ false → 1 ≤ c
at_least_one c h = ground arith

abbrev total_count : DeliveryBatchResult → ℕ
total_count r = r.succeeded_count + r.retry_scheduled_count + r.dead_count + r.lease_lost_count

-- A batch that returns is what a call of `map_concurrent` that returns makes of it.
returned_outcomes :
    (claimed : ℕ) (call : Option (Result BatchError (List (Option CommittedOutcome))))
    (r : DeliveryBatchResult)
    → Option.map (batch_result claimed) call ≡ some (ok r)
    → (outcomes : List (Option CommittedOutcome)) × (call ≡ some (ok outcomes))
      × (count_outcomes (no_outcomes claimed) outcomes ≡ r)
returned_outcomes claimed none r h = cc h
returned_outcomes claimed (some (err e)) r h = cc h
returned_outcomes claimed (some (ok outcomes)) r h = (outcomes, refl, cc h)

passed :
    (c : Bool) (call : Option (Result BatchError DeliveryBatchResult)) (r : DeliveryBatchResult)
    → (if c then some (err invalid_concurrency) else call) ≡ some (ok r)
    → (c ≡ false) × (call ≡ some (ok r))
passed true call r h = cc h
passed false call r h = (refl, h)

-- Whatever the order in which its deliveries settle, a batch that returns has made exactly one
-- delivery for each claim, in the order of the claims; each of them came to an outcome, and the
-- batch counts how many were sent, are to be sent again, were given up and lost their lease, which
-- together are all that it claimed.
pub run_delivery_batch-counts :
    (complete : ClaimedDelivery → DeliveryCompletion → Bool) (limit : ℕ) (concurrency : Option ℕ)
    (claims : List (ClaimedDelivery × Surroundings)) (schedule : List ℕ) (r : DeliveryBatchResult)
    → run_delivery_batch complete limit concurrency claims schedule ≡ some (ok r)
    → ((pool_after
          (deliveries complete claims)
          (batch_concurrency limit concurrency)
          schedule).calls
        ≡ range (length claims))
      × ((outs : List CommittedOutcome) × (deliveries complete claims ≡ map ok outs)
          × (r.claimed_count ≡ length claims)
          × (r.succeeded_count ≡ tally sent outs)
          × (r.retry_scheduled_count ≡ tally retry_scheduled outs)
          × (r.dead_count ≡ tally dead outs)
          × (r.lease_lost_count ≡ tally lease_lost outs)
          × (r.succeeded_count + r.retry_scheduled_count + r.dead_count + r.lease_lost_count
              ≡ length claims))
unfolding run_delivery_batch
run_delivery_batch-counts complete limit concurrency claims schedule r h =
    let c = batch_concurrency limit concurrency in
    let p = passed (ltb c 1 || ltb 32 c) _ r h in
    let (outcomes, returned, counted) =
      returned_outcomes (length claims) (map_concurrent (deliveries complete claims) c schedule) r
        p.1 in
    let (outs, each, filled, called) =
      map_concurrent-fills (deliveries complete claims) c schedule outcomes (at_least_one c p.0)
        returned in
    let size = length-map (deliver_and_complete complete) claims in
    let same : tallied (no_outcomes (length claims)) outs ≡ r =
      sym (count_outcomes-tallied (no_outcomes (length claims)) outs)
      ∙ ap (count_outcomes (no_outcomes (length claims))) (sym filled)
      ∙ counted in
    let sized : length outs ≡ length claims = sym (ap length each ∙ length-map ok outs) ∙ size in
    (
      called ∙ ap range size,
      (
        outs,
        each,
        ap (λ (x : DeliveryBatchResult). x.claimed_count) (sym same),
        ap (λ (x : DeliveryBatchResult). x.succeeded_count) (sym same) ∙ omega arith,
        ap (λ (x : DeliveryBatchResult). x.retry_scheduled_count) (sym same) ∙ omega arith,
        ap (λ (x : DeliveryBatchResult). x.dead_count) (sym same) ∙ omega arith,
        ap (λ (x : DeliveryBatchResult). x.lease_lost_count) (sym same) ∙ omega arith,
        ap total_count (sym same) ∙ omega (arith, tally-total outs, sized),
      ),
    )
