-- ===== src/Reconciliation/Event/Coordinates.antt =====
-- Every decision on an event carries the event's own coordinates.
use solana_payment_ops.Common.{◌≡◌, refl, List, [], ◌∷◌, arith}
use solana_payment_ops.Reconciliation.Types.{
  InvoiceRecord, FinalizedPaymentEvent, DecisionBody, ReconciliationDecision, allocation,
  exceptional,
}
use solana_payment_ops.Reconciliation.Event.{
  reconcile_amount, reconcile_time, reconcile_candidate, candidates, reconcile_candidates,
  reconcile_event,
}

-- What a decision on an event says of it, whatever the decision is.
abbrev pub coordinates : FinalizedPaymentEvent → DecisionBody
coordinates event = record {
  rule_version = "0.1";
  event_id = event.event_id;
  chain_event_id = event.chain_event_id;
  signature = event.signature;
  outer_instruction_index = event.outer_instruction_index;
  inner_instruction_index = event.inner_instruction_index;
  amount_base_units = event.amount_base_units;
}

abbrev pub body_of : ReconciliationDecision → DecisionBody
body_of (allocation _ b) = b
body_of (exceptional _ _ b) = b

amount-body :
    (event : FinalizedPaymentEvent) (invoice : InvoiceRecord)
    → body_of (reconcile_amount event invoice) ≡ coordinates event
unfolding reconcile_amount
amount-body event invoice = ground arith

time-body :
    (event : FinalizedPaymentEvent) (invoice : InvoiceRecord)
    → body_of (reconcile_time event invoice) ≡ coordinates event
unfolding reconcile_time
time-body event invoice = ground (arith, amount-body event invoice)

candidate-body :
    (event : FinalizedPaymentEvent) (invoice : InvoiceRecord)
    → body_of (reconcile_candidate event invoice) ≡ coordinates event
unfolding reconcile_candidate
candidate-body event invoice = ground (arith, time-body event invoice)

pub reconcile_event-body :
    (event : FinalizedPaymentEvent) (invoices : List InvoiceRecord)
    → body_of (reconcile_event event invoices) ≡ coordinates event
unfolding reconcile_event reconcile_candidates
reconcile_event-body event invoices = go (candidates event invoices)
  where
    go :
        (found : List InvoiceRecord)
        → body_of (reconcile_candidates event found) ≡ coordinates event
    go [] = refl
    go (invoice ∷ []) = candidate-body event invoice
    go (_ ∷ (_ ∷ _)) = refl
