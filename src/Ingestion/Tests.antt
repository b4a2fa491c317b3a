-- ===== src/Ingestion/Tests.antt =====
-- Runs of the finality engine on a candidate that is missing and on one that is final, and of the
-- consensus of two providers.
use solana_payment_ops.Common.{
  ℕ, ◌≡◌, ◌↔◌, ◌⊎◌, refl, String, true, false, Option, none, some, List, [], ◌∷◌, length,
}
use solana_payment_ops.Common.Result.{ok}
use solana_payment_ops.Core.Types.{Cluster}
use solana_payment_ops.Ingestion.Types.{
  FinalityState, agreed, disagreed, rpc_signature_conflict, ConfirmationStatus, TransactionStatus,
  CandidateState, FinalityCandidate, FinalityReport,
}
use solana_payment_ops.Ingestion.Finality.{
  Fetched, Answers, should_test_reversion, observe, refresh,
}
use solana_payment_ops.Ingestion.Finality.Decision.{
  MayRevert, IsFinalEvidence, observe-reverted_iff, observe-finalized_iff,
}
use solana_payment_ops.Ingestion.Finality.Counts.{outcome_count, refresh-counts}
use solana_payment_ops.Ingestion.Consensus.{ObservedEvidence, decide_state}
use solana_payment_ops.Ingestion.Consensus.Agreement.{
  Conflicts, Attests, Differ, decide_state-classifies,
}

abbrev candidate_missing : ℕ → FinalityCandidate
candidate_missing times = record {
  provider_id = "provider";
  watch_target_id = "target";
  cluster = Cluster.mainnet_beta;
  signature = "signature";
  slot = 100;
  state = CandidateState.confirmed;
  confirmed_digest = some "digest";
  missing_observation_count = times;
  first_missing_finalized_slot = some 120;
  claim_token = "token";
  has_finalized_snapshot = false;
}

abbrev final_status : Option TransactionStatus
final_status = some (record {
  signature = "signature";
  slot = some 100;
  confirmation_status = some ConfirmationStatus.finalized;
  has_err = false;
})

abbrev fetched_final : Fetched
fetched_final = ok (some (record { snapshot = "snapshot"; parsing_digest = ok "digest" }))

missing_is_reverted :
    (observe (candidate_missing 2) 184 none (ok none) false).next_state ≡ FinalityState.reverted
unfolding observe should_test_reversion
missing_is_reverted = refl

missing_once_is_kept :
    (observe (candidate_missing 0) 184 none (ok none) false).next_state ≡ FinalityState.confirmed
unfolding observe should_test_reversion
missing_once_is_kept = refl

final_is_finalized :
    (observe (candidate_missing 0) 184 final_status fetched_final false).next_state
    ≡ FinalityState.finalized
unfolding observe
final_is_finalized = refl

abbrev two_candidates : List (FinalityCandidate × Answers)
two_candidates =
    (
      candidate_missing 0,
      record {
        fetched = fetched_final;
        retry_created = false;
        record_observation = λ o. (true, o.next_state);
      },
    )
    ∷ (
      candidate_missing 2,
      record {
        fetched = ok none;
        retry_created = false;
        record_observation = λ o. (true, o.next_state);
      },
    )
    ∷ []

abbrev two_reported : FinalityReport
two_reported = record {
  observations_checked = 2;
  finalized_count = 1;
  failed_count = 0;
  reverted_count = 1;
  deferred_count = 0;
  quarantined_count = 0;
  retries_created = 0;
}

two_are_reported : refresh 10 two_candidates (ok (184, final_status ∷ none ∷ [])) ≡ ok two_reported
unfolding refresh observe should_test_reversion
two_are_reported = refl

observe-reverted_iff_example : MayRevert (candidate_missing 2) 184 none (ok none)
observe-reverted_iff_example =
    (observe-reverted_iff (candidate_missing 2) 184 none (ok none) false).0 missing_is_reverted

observe-finalized_iff_example : IsFinalEvidence (candidate_missing 0) final_status fetched_final
observe-finalized_iff_example =
    (observe-finalized_iff (candidate_missing 0) 184 final_status fetched_final false).0
      final_is_finalized

refresh-counts_example :
    (two_reported.observations_checked ≡ length two_candidates)
    × (outcome_count two_reported ≡ length two_candidates)
refresh-counts_example =
    refresh-counts 10 two_candidates (ok (184, final_status ∷ none ∷ [])) two_reported
      two_are_reported

abbrev observed_by : String → Option ObservedEvidence
observed_by provider = some (record {
  observed = record {
    provider_id = provider;
    canonical_digest = some "canonical";
    snapshot_digest = some "snapshot";
    parsing_digest = some "parsing";
    transfer_identity_digest = some "transfers";
    status_slot = some 100;
    slot = some 100;
    execution_state = none;
    execution_digest = some "execution";
    status_execution_digest = some "status";
    transaction_execution_digest = some "transaction";
    finality = some "finalized/finalized";
    response_time_ms = 20;
    safe_error_code = none;
    safe_error_retryable = none;
    observed_at = 5;
  };
  valid_finalized = true;
})

-- One that failed for a conflict of signatures, for good.
abbrev conflicting : Option ObservedEvidence
conflicting = some (record {
  observed = record {
    provider_id = "third";
    canonical_digest = none;
    snapshot_digest = none;
    parsing_digest = none;
    transfer_identity_digest = none;
    status_slot = none;
    slot = none;
    execution_state = none;
    execution_digest = none;
    status_execution_digest = none;
    transaction_execution_digest = none;
    finality = none;
    response_time_ms = 20;
    safe_error_code = some rpc_signature_conflict;
    safe_error_retryable = some false;
    observed_at = 5;
  };
  valid_finalized = false;
})

conflict_disagrees : decide_state (observed_by "first") conflicting ≡ disagreed
unfolding decide_state
conflict_disagrees = refl

decide_state-classifies_example :
    ((decide_state (observed_by "first") conflicting ≡ agreed)
      ↔ ((digest : String) × Attests (observed_by "first") digest × Attests conflicting digest))
    × ((decide_state (observed_by "first") conflicting ≡ disagreed) ↔ (
        Conflicts (observed_by "first")
        ⊎ (Conflicts conflicting ⊎ Differ (observed_by "first") conflicting)))
decide_state-classifies_example = decide_state-classifies (observed_by "first") conflicting
