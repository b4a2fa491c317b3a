-- ===== src/Platform/Payments/Project.antt =====
-- `projectOne` of packages/platform/src/payments/status-projector.ts. A call that throws rolls its
-- transaction back, so it has no store.
use solana_payment_ops.Common.{
  Bool, true, false, ◌&&◌, ◌||◌, not, Option, none, some, [], ◌∷◌, if◌then◌else◌, ◌==◌, includes,
  length,
}
use solana_payment_ops.Common.Result.{Result, ok}
use solana_payment_ops.Reconciliation.Types.{
  InvoiceRecord, opened, matched, ambiguous_reference, ReconciliationDecision, allocation,
  exceptional,
}
use solana_payment_ops.Reconciliation.Event.{reconcile_event}
use solana_payment_ops.Platform.Payments.Types.{
  PublicStatus, InvoiceState, invoice_settled, Expectation, Store, ChainEvent, ActivationMode,
  shadow, live, ConsensusStatus, agreed, ProjectionContext, ProjectionResult, not_found, unchanged,
  proposed, ProjectionError,
}
use solana_payment_ops.Platform.Payments.Advance.{
  observed_status, is_revoked_chain_state, is_finalized, is_settled, changed_to,
  advance_observed_state, project_revocation,
}
use solana_payment_ops.Platform.Payments.Book.{project_allocation, project_exception}

abbrev pub is_invoice_settled : InvoiceState → Bool
is_invoice_settled invoice_settled = true
is_invoice_settled _ = false

abbrev pub reconciliation_invoice : Expectation → Store → InvoiceRecord
reconciliation_invoice expectation store = record {
  invoice_id = expectation.invoice_id;
  customer_id = expectation.customer_id;
  expected_mint = expectation.expected_mint;
  destination_token_account = expectation.recipient_token_account;
  amount_base_units = expectation.expected_amount_base_units;
  reference_address = expectation.reference_address;
  issued_at = expectation.quote_issued_at;
  due_at = expectation.latest_qualifying_at;
  status = if is_invoice_settled store.invoice_status then matched else opened;
}

-- `ambiguousReferenceDecision`
abbrev pub ambiguous_reference_decision : ChainEvent → ReconciliationDecision
ambiguous_reference_decision event = exceptional ambiguous_reference none (record {
  rule_version = "0.1";
  event_id = event.payment.event_id;
  chain_event_id = event.payment.chain_event_id;
  signature = event.payment.signature;
  outer_instruction_index = event.payment.outer_instruction_index;
  inner_instruction_index = event.payment.inner_instruction_index;
  amount_base_units = event.payment.amount_base_units;
})

-- The decision of `buildProjectionPlan`.
unfoldable pub plan_decision : Expectation → Store → ChainEvent → ReconciliationDecision
plan_decision expectation store event =
    if length event.payment.references == 1
    then reconcile_event event.payment (reconciliation_invoice expectation store ∷ [])
    else ambiguous_reference_decision event

abbrev pub project_decision :
    ProjectionContext
    → Expectation
    → Store
    → ChainEvent
    → ReconciliationDecision
    → Result ProjectionError (ProjectionResult × Store)
project_decision world expectation store event (allocation invoice_id body) =
    project_allocation world expectation store event invoice_id body
project_decision world expectation store event (exceptional code invoice_id body) =
    project_exception world expectation store event code invoice_id body

-- What follows the observed state has been advanced to.
abbrev pub project_plan :
    ProjectionContext
    → Expectation
    → ChainEvent
    → ReconciliationDecision
    → Bool × Store
    → Result ProjectionError (ProjectionResult × Store)
project_plan world expectation event decision (moved, latest) =
    if not (is_finalized event.current_state) || is_settled latest.public_status
    then ok (if moved then changed_to latest else (unchanged, latest))
    else project_decision world expectation latest event decision

abbrev pub is_agreed : ConsensusStatus → Bool
is_agreed agreed = true
is_agreed _ = false

-- By the status that the chain's state leads to: none when it is a revoked state.
abbrev pub project_target :
    ProjectionContext
    → Expectation
    → Store
    → ChainEvent
    → Option PublicStatus
    → Result ProjectionError (ProjectionResult × Store)
project_target world expectation store event none = ok (project_revocation store event world.now)
project_target world expectation store event (some target) =
    if is_finalized event.current_state
      && (world.is_dual_provider && not (is_agreed world.consensus))
    then ok (unchanged, store)
    else project_plan world expectation event (plan_decision expectation store event)
        (advance_observed_state store event.payment.event_id target world.now)

-- The part of the transaction behind the authority of the worker.
unfoldable pub project_live :
    ProjectionContext
    → Expectation
    → Store
    → ChainEvent
    → Result ProjectionError (ProjectionResult × Store)
project_live world expectation store event =
    project_target world expectation store event (observed_status event.current_state)

-- The shadow mode: it revokes, and proposes what it would do with a finalized event.
unfoldable pub project_shadow : ProjectionContext → Store → ChainEvent → ProjectionResult × Store
project_shadow world store event =
    if is_revoked_chain_state event.current_state
    then project_revocation store event world.now
    else if is_finalized event.current_state
    then (proposed world.shadow_created, store)
    else (unchanged, store)

-- `lockProjectionRoot` finds a row when the expectation is active and the event has its reference.
abbrev pub has_root : Expectation → Store → ChainEvent → Bool
has_root expectation store event =
    store.is_expected && includes event.payment.references expectation.reference_address

abbrev pub project_mode :
    ProjectionContext
    → Expectation
    → Store
    → ChainEvent
    → ActivationMode
    → Result ProjectionError (ProjectionResult × Store)
project_mode world expectation store event shadow = ok (project_shadow world store event)
project_mode world expectation store event live =
    if world.has_authority
    then project_live world expectation store event
    else ok (unchanged, store)

unfoldable pub project_one :
    ProjectionContext
    → Expectation
    → Store
    → ChainEvent
    → Result ProjectionError (ProjectionResult × Store)
project_one world expectation store event =
    if has_root expectation store event
    then project_mode world expectation store event world.activation_mode
    else ok (not_found, store)
