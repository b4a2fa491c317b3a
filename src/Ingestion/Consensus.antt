-- ===== src/Ingestion/Consensus.antt =====
-- `decideState` of packages/ingestion/src/consensus/finalized-consensus.ts.
pub mod Agreement
use solana_payment_ops.Common.{
  ℕ, String, Bool, true, false, not, ◌&&◌, ◌||◌, Option, none, some, if◌then◌else◌, ◌===◌,
}
use solana_payment_ops.Ingestion.Types.{
  FinalizedConsensusState, pending, agreed, disagreed, IngestionErrorCode, rpc_signature_conflict,
  FinalizedProviderObservation,
}

pub record ObservedEvidence : Type 0 where
  pub observed : FinalizedProviderObservation
  pub valid_finalized : Bool

abbrev is_signature_conflict : Option IngestionErrorCode → Bool
is_signature_conflict (some rpc_signature_conflict) = true
is_signature_conflict _ = false

abbrev is_not_retryable : Option Bool → Bool
is_not_retryable (some false) = true
is_not_retryable _ = false

-- The callback of `some`.
abbrev pub is_conflict : Option ObservedEvidence → Bool
is_conflict none = false
is_conflict (some evidence) =
    is_signature_conflict evidence.observed.safe_error_code
    && is_not_retryable evidence.observed.safe_error_retryable

-- The canonical digest of an observation that is there and complete.
abbrev pub complete_digest : Option ObservedEvidence → Option (String × Bool)
complete_digest none = none
complete_digest (some evidence) = elim evidence.observed.canonical_digest [
  | none ↦ none
  | some digest ↦ some (digest, evidence.valid_finalized)
]

abbrev pub compare_complete :
    Option (String × Bool) → Option (String × Bool) → FinalizedConsensusState
compare_complete none _ = pending
compare_complete (some _) none = pending
compare_complete (some (digest, valid)) (some (other_digest, other_valid)) =
    if valid && (other_valid && digest === other_digest) then agreed else disagreed

unfoldable pub decide_state :
    Option ObservedEvidence → Option ObservedEvidence → FinalizedConsensusState
decide_state primary secondary =
    if is_conflict primary || is_conflict secondary
    then disagreed
    else compare_complete (complete_digest primary) (complete_digest secondary)
