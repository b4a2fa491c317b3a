-- ===== src/Ingestion/Finality.antt =====
-- packages/ingestion/src/finality/finality-engine.ts. What the RPC port and the store answer are
-- arguments: `fetched` is what the `try` block around `getTransaction` ends with, an error of which
-- stands for the `IngestionError` that `asIngestionError` makes of it; a transaction that is fetched
-- stands for its snapshot and its parsing
-- digest, the latter an error where `createParsingDigest` throws. `retry_created` is what `recordRetry` answers.
pub mod Decision
pub mod Counts
use solana_payment_ops.Common.{
  ℕ, zero, suc, ◌+◌, ◌≤◌, String, Bool, true, false, not, ◌&&◌, ◌||◌, Option, none, some, List, [],
  ◌∷◌, ◌++◌, if◌then◌else◌, ltb, leb, ◌==◌, ◌===◌, some_eq, length,
}
use solana_payment_ops.Common.Result.{Result, ok, err}
use solana_payment_ops.Ingestion.Types.{
  FinalityState, IngestionErrorCode, IngestionError, ConfirmationStatus, TransactionStatus,
  CandidateState, FinalityCandidate, FinalityReport, finality_status_missing,
  finality_content_conflict, rpc_invalid_json, invalid_configuration,
}

pub record FinalizedTransaction : Type 0 where
  pub snapshot : String
  pub parsing_digest : Result IngestionError String

abbrev pub Fetched : Type 0
Fetched = Result IngestionError (Option FinalizedTransaction)

-- What the loop decides on one candidate, for `recordFinalityObservation` and the report.
pub record Observation : Type 0 where
  pub next_state : FinalityState
  pub code : Option IngestionErrorCode
  pub finalized_snapshot : Option String
  pub blocking_retry : Bool
  pub created : ℕ

abbrev pub or_slot : Option ℕ → ℕ → ℕ
or_slot none slot = slot
or_slot (some first) slot = first

unfoldable pub should_test_reversion : FinalityCandidate → ℕ → Bool
should_test_reversion candidate context_slot =
    let missing_count = candidate.missing_observation_count + 1 in
    let first_missing_slot = or_slot candidate.first_missing_finalized_slot context_slot in
    leb 3 missing_count
    && (leb (first_missing_slot + 64) context_slot && leb (candidate.slot + 64) context_slot)

abbrev pub candidate_state : CandidateState → FinalityState
candidate_state CandidateState.detected = FinalityState.detected
candidate_state CandidateState.confirmed = FinalityState.confirmed

-- `Number(retryCreated)`
abbrev pub as_number : Bool → ℕ
as_number true = 1
as_number false = 0

abbrev pub observation : FinalityState → Option IngestionErrorCode → Option String → Observation
observation next_state code finalized_snapshot = record {
  next_state = next_state;
  code = code;
  finalized_snapshot = finalized_snapshot;
  blocking_retry = false;
  created = 0;
}

-- A retry was asked for: the state stays, and the retry blocks where the store created it.
abbrev pub retry_observation : FinalityState → IngestionErrorCode → Bool → Observation
retry_observation state code retry_created = record {
  next_state = state;
  code = some code;
  finalized_snapshot = none;
  blocking_retry = retry_created;
  created = as_number retry_created;
}

-- The two `catch` blocks.
abbrev pub observe_error : FinalityState → IngestionError → Bool → Observation
observe_error state error retry_created =
    if error.retryable
    then retry_observation state error.code retry_created
    else observation FinalityState.quarantined (some error.code) none

-- The status is missing and a reversion is tested for.
abbrev pub observe_missing : FinalityState → Fetched → Bool → Observation
observe_missing state (err error) retry_created = observe_error state error retry_created
observe_missing state (ok none) retry_created =
    observation FinalityState.reverted (some finality_status_missing) none
observe_missing state (ok (some tx)) retry_created =
    observation state (some finality_status_missing) (some tx.snapshot)

-- The status is finalized and the transaction is there.
abbrev pub observe_digest :
    FinalityState → Option String → String → Result IngestionError String → Bool → Observation
observe_digest state confirmed_digest snapshot (err error) retry_created =
    record (observe_error state error retry_created) { finalized_snapshot = some snapshot }
observe_digest state confirmed_digest snapshot (ok digest) retry_created =
    if not (some_eq confirmed_digest digest)
    then observation FinalityState.quarantined (some finality_content_conflict) (some snapshot)
    else observation FinalityState.finalized none (some snapshot)

-- The status is finalized.
abbrev pub observe_finalized : FinalityState → Option String → Fetched → Bool → Observation
observe_finalized state confirmed_digest (err error) retry_created =
    observe_error state error retry_created
observe_finalized state confirmed_digest (ok none) retry_created =
    retry_observation state finality_status_missing retry_created
observe_finalized state confirmed_digest (ok (some tx)) retry_created =
    observe_digest state confirmed_digest tx.snapshot tx.parsing_digest retry_created

abbrev pub observe_confirmation :
    FinalityCandidate → Option ConfirmationStatus → Fetched → Bool → Observation
observe_confirmation candidate (some ConfirmationStatus.finalized) fetched retry_created =
    observe_finalized (candidate_state candidate.state) candidate.confirmed_digest fetched
      retry_created
observe_confirmation candidate (some ConfirmationStatus.confirmed) fetched retry_created =
    observation FinalityState.confirmed none none
observe_confirmation candidate (some ConfirmationStatus.processed) fetched retry_created =
    observation (candidate_state candidate.state) none none
observe_confirmation candidate none fetched retry_created =
    observation (candidate_state candidate.state) none none

-- The body of the loop, up to the record of the observation.
unfoldable pub observe :
    FinalityCandidate → ℕ → Option TransactionStatus → Fetched → Bool → Observation
observe candidate context_slot none fetched retry_created =
    if should_test_reversion candidate context_slot && not candidate.has_finalized_snapshot
    then observe_missing (candidate_state candidate.state) fetched retry_created
    else observation (candidate_state candidate.state) (some finality_status_missing) none
observe candidate context_slot (some status) fetched retry_created =
    if status.has_err
    then observation FinalityState.failed none none
    else observe_confirmation candidate status.confirmation_status fetched retry_created

-- What one candidate awaits: the transaction, the retry, and what the store makes of an
-- observation, whether it applied it and the state that stands.
pub record Answers : Type 0 where
  pub fetched : Fetched
  pub retry_created : Bool
  pub record_observation : Observation → Bool × FinalityState

abbrev pub count_state : FinalityReport → FinalityState → FinalityReport
count_state report FinalityState.finalized = record report {
  finalized_count = report.finalized_count + 1;
}
count_state report FinalityState.failed = record report { failed_count = report.failed_count + 1 }
count_state report FinalityState.reverted = record report {
  reverted_count = report.reverted_count + 1;
}
count_state report FinalityState.quarantined = record report {
  quarantined_count = report.quarantined_count + 1;
}
count_state report FinalityState.detected = record report {
  deferred_count = report.deferred_count + 1;
}
count_state report FinalityState.confirmed = record report {
  deferred_count = report.deferred_count + 1;
}

abbrev pub count_result : FinalityReport → Bool × FinalityState → FinalityReport
count_result report (applied, state) =
    if not applied
    then record report { deferred_count = report.deferred_count + 1 }
    else count_state report state

abbrev pub refresh_one :
    ℕ → FinalityReport → FinalityCandidate × Answers → Option TransactionStatus → FinalityReport
refresh_one context_slot report (candidate, answers) status =
    let seen = observe candidate context_slot status answers.fetched answers.retry_created in
    count_result (record report { retries_created = report.retries_created + seen.created })
      (answers.record_observation seen)

-- The loop; a status past the end of the answer is missing.
abbrev pub refresh_all :
    ℕ
    → FinalityReport
    → List (FinalityCandidate × Answers)
    → List (Option TransactionStatus)
    → FinalityReport
refresh_all context_slot report [] statuses = report
refresh_all context_slot report (c ∷ cs) [] =
    refresh_all context_slot (refresh_one context_slot report c none) cs []
refresh_all context_slot report (c ∷ cs) (status ∷ statuses) =
    refresh_all context_slot (refresh_one context_slot report c status) cs statuses

abbrev pub empty_report : ℕ → FinalityReport
empty_report checked = record {
  observations_checked = checked;
  finalized_count = 0;
  failed_count = 0;
  reverted_count = 0;
  deferred_count = 0;
  quarantined_count = 0;
  retries_created = 0;
}

-- By what `getSlot` and `getSignatureStatuses` answer.
abbrev pub refresh_answered :
    List (FinalityCandidate × Answers)
    → Result IngestionError (ℕ × List (Option TransactionStatus))
    → Result IngestionError FinalityReport
refresh_answered candidates (err error) = err error
refresh_answered candidates (ok (context_slot, statuses)) =
    if not (length statuses == length candidates)
    then err (record { code = rpc_invalid_json; retryable = true })
    else ok (refresh_all context_slot (empty_report (length candidates)) candidates statuses)

-- `refresh`, on the candidates that the store claims.
unfoldable pub refresh :
    ℕ
    → List (FinalityCandidate × Answers)
    → Result IngestionError (ℕ × List (Option TransactionStatus))
    → Result IngestionError FinalityReport
refresh limit candidates answered =
    if ltb limit 1 || ltb 256 limit
    then err (record { code = invalid_configuration; retryable = false })
    else if length candidates == 0
    then ok (empty_report 0)
    else refresh_answered candidates answered
