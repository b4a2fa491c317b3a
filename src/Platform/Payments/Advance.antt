-- ===== src/Platform/Payments/Advance.antt =====
-- How the status of a payment moves in packages/platform/src/payments/status-projector.ts.
use solana_payment_ops.Common.{
  ℕ, suc, String, Bool, true, false, Option, none, some, [], ◌∷◌, ◌++◌, if◌then◌else◌, ltb,
}
use solana_payment_ops.Platform.Payments.Types.{
  ChainState, chain_detected, chain_confirmed, chain_finalized, chain_failed, chain_reverted,
  chain_quarantined, PublicStatus, awaiting_payment, detected, confirmed, finalized, paid, expired,
  confirmation_revoked, exception, AttemptState, as_status, Reason, observed, chain, LifecycleEvent,
  payment_advanced, payment_revoked, Store, ChainEvent, ProjectionResult, unchanged, changed,
}

-- `canAdvance`: the rank of a status, none for the others.
abbrev pub rank : PublicStatus → Option ℕ
rank awaiting_payment = some 0
rank detected = some 1
rank confirmed = some 2
rank finalized = some 3
rank paid = some 4
rank expired = none
rank confirmation_revoked = none
rank exception = none

-- `(rank[target] ?? -1) > (rank[current] ?? Number.MAX_SAFE_INTEGER)`
abbrev pub outranks : Option ℕ → Option ℕ → Bool
outranks none current = false
outranks (some t) none = false
outranks (some t) (some c) = ltb c t

abbrev pub is_observation : PublicStatus → Bool
is_observation detected = true
is_observation confirmed = true
is_observation finalized = true
is_observation _ = false

abbrev pub can_advance : PublicStatus → PublicStatus → Bool
can_advance confirmation_revoked target = is_observation target
can_advance current target = outranks (rank target) (rank current)

-- The status that an observed state of the chain leads to.
abbrev pub observed_status : ChainState → Option PublicStatus
observed_status chain_detected = some detected
observed_status chain_confirmed = some confirmed
observed_status chain_finalized = some finalized
observed_status _ = none

abbrev pub is_revoked_chain_state : ChainState → Bool
is_revoked_chain_state chain_failed = true
is_revoked_chain_state chain_reverted = true
is_revoked_chain_state chain_quarantined = true
is_revoked_chain_state _ = false

abbrev pub is_finalized : ChainState → Bool
is_finalized chain_finalized = true
is_finalized _ = false

abbrev pub is_settled : PublicStatus → Bool
is_settled paid = true
is_settled exception = true
is_settled _ = false

-- `CASE WHEN status = '…' THEN now ELSE … END`
abbrev pub stamp : Bool → ℕ → Option ℕ → Option ℕ
stamp true now old = some now
stamp false now old = old

abbrev pub is_detected : PublicStatus → Bool
is_detected detected = true
is_detected _ = false

abbrev pub is_confirmed : PublicStatus → Bool
is_confirmed confirmed = true
is_confirmed _ = false

abbrev pub is_final : PublicStatus → Bool
is_final finalized = true
is_final _ = false

abbrev pub is_paid : PublicStatus → Bool
is_paid paid = true
is_paid _ = false

abbrev pub is_exception : PublicStatus → Bool
is_exception exception = true
is_exception _ = false

unfoldable pub advance_projection :
    Store → String → PublicStatus → AttemptState → Reason → ℕ → Store
advance_projection store event_id status state reason now =
    let version = suc store.projection_version in
    record store {
      public_status = status;
      source_state = state;
      projection_version = version;
      detected_at = stamp (is_detected status) now store.detected_at;
      confirmed_at = stamp (is_confirmed status) now store.confirmed_at;
      finalized_at = stamp (is_final status) now store.finalized_at;
      paid_at = stamp (is_paid status) now store.paid_at;
      exception_at = stamp (is_exception status) now store.exception_at;
      attempt_state = state;
      attempt_version = suc store.attempt_version;
      history =
          store.history
          ++ (record {
            source_version = version;
            from_status = store.public_status;
            to_status = status;
            reason_code = reason;
            changed_by = event_id;
            occurred_at = now;
          }
              ∷ []);
    }

abbrev pub enqueue : LifecycleEvent → Store → Store
enqueue event store = record store { outbox = store.outbox ++ (event ∷ []) }

-- `changed(next)`
abbrev pub changed_to : Store → ProjectionResult × Store
changed_to store = (changed store.public_status store.projection_version, store)

-- `advanceObservedState`, past its guard.
unfoldable pub move_to : Store → String → PublicStatus → ℕ → Store
move_to store event_id target now =
    let next = advance_projection store event_id target (as_status target) (observed target) now in
    enqueue (payment_advanced target next.projection_version) next

abbrev pub advance_observed_state : Store → String → PublicStatus → ℕ → Bool × Store
advance_observed_state store event_id target now =
    if can_advance store.public_status target
    then (true, move_to store event_id target now)
    else (false, store)

abbrev pub is_revocable : PublicStatus → Bool
is_revocable detected = true
is_revocable confirmed = true
is_revocable _ = false

-- Its caller has tested that the chain's state is a revoked one.
unfoldable pub project_revocation : Store → ChainEvent → ℕ → ProjectionResult × Store
project_revocation store event now =
    let next =
      advance_projection store event.payment.event_id confirmation_revoked
        (as_status confirmation_revoked) (chain event.current_state) now in
    if is_revocable store.public_status
    then changed_to (
        enqueue (payment_revoked store.public_status event.current_state next.projection_version)
          next)
    else (unchanged, store)
