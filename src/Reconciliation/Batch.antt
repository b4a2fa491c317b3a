-- ===== src/Reconciliation/Batch.antt =====
-- packages/reconciliation/src/engine/reconcile-batch.ts. `at_most s t` stands for
-- `s.localeCompare(t) <= 0`, the collation of the runtime; the sort is stable.
pub mod Once
pub mod Order
use solana_payment_ops.Common.{
  String, Bool, true, false, Option, none, some, List, [], ◌∷◌, map, if◌then◌else◌,
}
use solana_payment_ops.Common.Map.{Map, lookup, insert, values}
use solana_payment_ops.Reconciliation.Types.{
  matched, InvoiceRecord, FinalizedPaymentEvent, ReconciliationDecision, allocation, exceptional,
}
use solana_payment_ops.Reconciliation.Event.{reconcile_event}

-- `new Map(invoices.map((invoice) => [invoice.invoiceId, { ...invoice }]))`, from the entries so
-- far.
abbrev pub index_invoices : Map InvoiceRecord → List InvoiceRecord → Map InvoiceRecord
index_invoices m [] = m
index_invoices m (invoice ∷ invoices) =
    index_invoices (insert invoice.invoice_id invoice m) invoices

abbrev pub mark_matched : InvoiceRecord → InvoiceRecord
mark_matched invoice = record invoice { status = matched }

-- What a decision does to the current invoices.
abbrev pub settle : ReconciliationDecision → Map InvoiceRecord → Map InvoiceRecord
settle (allocation id body) m = elim (lookup id m) [
  | none ↦ m
  | some invoice ↦ insert id (mark_matched invoice) m
]
settle (exceptional code id body) m = m

-- The body of the `map`, over the events in order.
unfoldable pub reconcile_events :
    List FinalizedPaymentEvent → Map InvoiceRecord → List ReconciliationDecision
reconcile_events [] m = []
reconcile_events (event ∷ events) m =
    let decision = reconcile_event event (values m) in
    decision ∷ reconcile_events events (settle decision m)

module _ (at_most : String → String → Bool) where
  abbrev pub insert_event :
      FinalizedPaymentEvent → List FinalizedPaymentEvent → List FinalizedPaymentEvent
  insert_event event [] = event ∷ []
  insert_event event (other ∷ others) =
      if at_most event.event_id other.event_id
      then event ∷ (other ∷ others)
      else other ∷ insert_event event others

  abbrev pub sort_events : List FinalizedPaymentEvent → List FinalizedPaymentEvent
  sort_events [] = []
  sort_events (event ∷ events) = insert_event event (sort_events events)

  unfoldable pub reconcile_batch :
      List FinalizedPaymentEvent → List InvoiceRecord → List ReconciliationDecision
  reconcile_batch events invoices =
      reconcile_events (sort_events events) (index_invoices [] invoices)
