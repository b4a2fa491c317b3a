-- ===== src/Reconciliation/Event.antt =====
-- packages/reconciliation/src/engine/reconcile-event.ts.
pub mod Allocation
pub mod Coordinates
use solana_payment_ops.Common.{
  ℕ, String, Bool, true, false, not, Option, none, some, List, [], ◌∷◌, if◌then◌else◌, ltb, ◌===◌,
  includes, filter,
}
use solana_payment_ops.Reconciliation.Types.{
  InvoiceStatus, matched, RuleCode, missing_reference, unknown_reference, ambiguous_reference,
  duplicate_payment, wrong_asset, wrong_destination, missing_block_time, before_issue, late_payment,
  partial_payment, excess_payment, InvoiceRecord, FinalizedPaymentEvent, ReconciliationDecision,
  allocation, exceptional, reconciliation_rule_version,
}

-- `exception`
abbrev pub exception_decision :
    FinalizedPaymentEvent → RuleCode → Option String → ReconciliationDecision
exception_decision event code invoice_id = exceptional code invoice_id (record {
  rule_version = reconciliation_rule_version;
  event_id = event.event_id;
  chain_event_id = event.chain_event_id;
  signature = event.signature;
  outer_instruction_index = event.outer_instruction_index;
  inner_instruction_index = event.inner_instruction_index;
  amount_base_units = event.amount_base_units;
})

-- The decision that ends `reconcileEvent`.
abbrev pub exact_match_decision : FinalizedPaymentEvent → InvoiceRecord → ReconciliationDecision
exact_match_decision event invoice = allocation invoice.invoice_id (record {
  rule_version = reconciliation_rule_version;
  event_id = event.event_id;
  chain_event_id = event.chain_event_id;
  signature = event.signature;
  outer_instruction_index = event.outer_instruction_index;
  inner_instruction_index = event.inner_instruction_index;
  amount_base_units = event.amount_base_units;
})

abbrev pub is_matched : InvoiceStatus → Bool
is_matched matched = true
is_matched _ = false

abbrev is_empty : List String → Bool
is_empty [] = true
is_empty (_ ∷ _) = false

-- The amount tests, the last ones.
reconcile_amount : FinalizedPaymentEvent → InvoiceRecord → ReconciliationDecision
reconcile_amount event invoice =
    if ltb event.amount_base_units invoice.amount_base_units
    then exception_decision event partial_payment (some invoice.invoice_id)
    else if ltb invoice.amount_base_units event.amount_base_units
    then exception_decision event excess_payment (some invoice.invoice_id)
    else exact_match_decision event invoice

reconcile_time : FinalizedPaymentEvent → InvoiceRecord → ReconciliationDecision
unfolding reconcile_amount
reconcile_time event invoice = elim event.block_time [
  | none ↦ exception_decision event missing_block_time (some invoice.invoice_id)
  | some time ↦
      if ltb time invoice.issued_at
      then exception_decision event before_issue (some invoice.invoice_id)
      else if ltb invoice.due_at time
      then exception_decision event late_payment (some invoice.invoice_id)
      else reconcile_amount event invoice
]

-- What follows once one candidate is found.
reconcile_candidate : FinalizedPaymentEvent → InvoiceRecord → ReconciliationDecision
unfolding reconcile_time
reconcile_candidate event invoice =
    if is_matched invoice.status
    then exception_decision event duplicate_payment (some invoice.invoice_id)
    else if not (event.mint === invoice.expected_mint)
    then exception_decision event wrong_asset (some invoice.invoice_id)
    else if not (event.destination_token_account === invoice.destination_token_account)
    then exception_decision event wrong_destination (some invoice.invoice_id)
    else reconcile_time event invoice

abbrev pub candidates : FinalizedPaymentEvent → List InvoiceRecord → List InvoiceRecord
candidates event = filter (λ invoice. includes event.references invoice.reference_address)

-- By the number of candidates.
reconcile_candidates : FinalizedPaymentEvent → List InvoiceRecord → ReconciliationDecision
unfolding reconcile_candidate
reconcile_candidates event [] =
    exception_decision event
      (if is_empty event.references then missing_reference else unknown_reference) none
reconcile_candidates event (invoice ∷ []) = reconcile_candidate event invoice
reconcile_candidates event (_ ∷ (_ ∷ _)) = exception_decision event ambiguous_reference none

unfoldable pub reconcile_event : FinalizedPaymentEvent → List InvoiceRecord → ReconciliationDecision
unfolding reconcile_candidates
reconcile_event event invoices = reconcile_candidates event (candidates event invoices)
