-- ===== src/Ingestion/Types.antt =====
-- packages/ingestion/src/domain/types.ts, the types of the finality and consensus engines. A slot is
-- a number; a status's error is a Boolean, whether there is one.
use solana_payment_ops.Common.{ℕ, String, Bool, Option}
use solana_payment_ops.Core.Types.{Cluster}

pub data FinalityState : Type 0 where
  detected confirmed finalized failed reverted quarantined : FinalityState

pub data FinalizedConsensusState : Type 0 where
  pending agreed disagreed : FinalizedConsensusState

pub data IngestionErrorCode : Type 0 where
  rpc_transport_error rpc_rate_limited rpc_invalid_json rpc_error : IngestionErrorCode
  rpc_transaction_missing rpc_page_no_progress rpc_page_order_invalid : IngestionErrorCode
  rpc_signature_conflict rpc_unsupported_version : IngestionErrorCode
  rpc_transaction_schema_invalid raw_digest_conflict event_identity_conflict : IngestionErrorCode
  database_unavailable database_serialization_failure cursor_compare_failed : IngestionErrorCode
  finality_status_missing finality_provider_disagreement : IngestionErrorCode
  finality_content_conflict invalid_configuration worker_busy : IngestionErrorCode

pub record IngestionError : Type 0 where
  pub code : IngestionErrorCode
  pub retryable : Bool

pub data ConfirmationStatus : Type 0 where
  processed confirmed finalized : ConfirmationStatus

pub record TransactionStatus : Type 0 where
  pub signature : String
  pub slot : Option ℕ
  pub confirmation_status : Option ConfirmationStatus
  pub has_err : Bool

-- The states of a candidate.
pub data CandidateState : Type 0 where
  detected confirmed : CandidateState

pub record FinalityCandidate : Type 0 where
  pub provider_id : String
  pub watch_target_id : String
  pub cluster : Cluster
  pub signature : String
  pub slot : ℕ
  pub state : CandidateState
  pub confirmed_digest : Option String
  pub missing_observation_count : ℕ
  pub first_missing_finalized_slot : Option ℕ
  pub claim_token : String
  pub has_finalized_snapshot : Bool

pub record FinalityReport : Type 0 where
  pub observations_checked : ℕ
  pub finalized_count : ℕ
  pub failed_count : ℕ
  pub reverted_count : ℕ
  pub deferred_count : ℕ
  pub quarantined_count : ℕ
  pub retries_created : ℕ

pub data ExecutionState : Type 0 where
  succeeded failed : ExecutionState

pub record FinalizedProviderObservation : Type 0 where
  pub provider_id : String
  pub canonical_digest : Option String
  pub snapshot_digest : Option String
  pub parsing_digest : Option String
  pub transfer_identity_digest : Option String
  pub status_slot : Option ℕ
  pub slot : Option ℕ
  pub execution_state : Option ExecutionState
  pub execution_digest : Option String
  pub status_execution_digest : Option String
  pub transaction_execution_digest : Option String
  pub finality : Option String
  pub response_time_ms : ℕ
  pub safe_error_code : Option IngestionErrorCode
  pub safe_error_retryable : Option Bool
  pub observed_at : ℕ
