-- ===== src/Webhooks/Batch.antt =====
-- `runDeliveryBatch` of packages/webhooks/src/delivery/worker.ts. What the store and each delivery
-- await are arguments, and so is the order in which the deliveries settle.
pub mod Counts
use solana_payment_ops.Common.{
  ℕ, ◌+◌, min, String, Bool, true, false, not, ◌||◌, Option, none, some, List, [], ◌∷◌,
  if◌then◌else◌, ltb, length, map,
}
use solana_payment_ops.Common.Result.{Result, ok, err, ◌>>=◌}
use mathlib.Core.Option
use solana_payment_ops.Webhooks.Concurrent.{map_concurrent}
use solana_payment_ops.Webhooks.RetryPolicy.{ScheduleError}
use solana_payment_ops.Webhooks.Worker.{
  ClaimedDelivery, CompletionState, retry_wait, succeeded, given_up, DeliveryCompletion,
  Surroundings, deliver_claim,
}

pub data CommittedOutcome : Type 0 where
  sent retry_scheduled dead lease_lost : CommittedOutcome

-- The counts of `succeeded`, `retryScheduled`, `dead` and `leaseLost`, with that of the claims.
pub record DeliveryBatchResult : Type 0 where
  pub claimed_count : ℕ
  pub succeeded_count : ℕ
  pub retry_scheduled_count : ℕ
  pub dead_count : ℕ
  pub lease_lost_count : ℕ

pub data BatchError : Type 0 where
  invalid_concurrency : BatchError
  thrown : ScheduleError → BatchError

abbrev pub state_outcome : CompletionState → CommittedOutcome
state_outcome retry_wait = retry_scheduled
state_outcome succeeded = sent
state_outcome given_up = dead

-- The operation on one claim, with what it awaits; `complete` stands for `store.completeDelivery`,
-- which is false where the lease was lost.
abbrev pub deliver_and_complete :
    (ClaimedDelivery → DeliveryCompletion → Bool)
    → ClaimedDelivery × Surroundings
    → Result BatchError CommittedOutcome
deliver_and_complete complete (claim, world) = elim (deliver_claim claim world).1 [
  | err e ↦ err (thrown e)
  | ok completion ↦
      ok (if not (complete claim completion) then lease_lost else state_outcome completion.state)
]

-- What the operation comes to on each claim.
abbrev pub deliveries :
    (ClaimedDelivery → DeliveryCompletion → Bool)
    → List (ClaimedDelivery × Surroundings)
    → List (Result BatchError CommittedOutcome)
deliveries complete claims = map (deliver_and_complete complete) claims

abbrev pub add_outcome : DeliveryBatchResult → CommittedOutcome → DeliveryBatchResult
add_outcome counts sent = record counts { succeeded_count = counts.succeeded_count + 1 }
add_outcome counts retry_scheduled = record counts {
  retry_scheduled_count = counts.retry_scheduled_count + 1;
}
add_outcome counts dead = record counts { dead_count = counts.dead_count + 1 }
add_outcome counts lease_lost = record counts { lease_lost_count = counts.lease_lost_count + 1 }

-- `outcomes.reduce(…)`, which passes over a place that was never written.
abbrev pub count_outcomes :
    DeliveryBatchResult → List (Option CommittedOutcome) → DeliveryBatchResult
count_outcomes counts [] = counts
count_outcomes counts (none ∷ outcomes) = count_outcomes counts outcomes
count_outcomes counts (some outcome ∷ outcomes) =
    count_outcomes (add_outcome counts outcome) outcomes

abbrev pub no_outcomes : ℕ → DeliveryBatchResult
no_outcomes claimed = record {
  claimed_count = claimed;
  succeeded_count = 0;
  retry_scheduled_count = 0;
  dead_count = 0;
  lease_lost_count = 0;
}

abbrev pub or_default : Option ℕ → ℕ → ℕ
or_default none n = n
or_default (some m) n = m

abbrev pub batch_result :
    ℕ → Result BatchError (List (Option CommittedOutcome)) → Result BatchError DeliveryBatchResult
batch_result claimed outcomes =
    outcomes >>= λ committed. ok (count_outcomes (no_outcomes claimed) committed)

-- `options.concurrency ?? Math.min(options.limit, 32)`
abbrev pub batch_concurrency : ℕ → Option ℕ → ℕ
batch_concurrency limit option = or_default option (min limit 32)

-- None while the batch is under way.
unfoldable pub run_delivery_batch :
    (ClaimedDelivery → DeliveryCompletion → Bool)
    → ℕ
    → Option ℕ
    → List (ClaimedDelivery × Surroundings)
    → List ℕ
    → Option (Result BatchError DeliveryBatchResult)
run_delivery_batch complete limit concurrency_option claims schedule =
    let concurrency = batch_concurrency limit concurrency_option in
    if ltb concurrency 1 || ltb 32 concurrency
    then some (err invalid_concurrency)
    else Option.map (batch_result (length claims))
        (map_concurrent (deliveries complete claims) concurrency schedule)
