-- ===== src/Reconciliation/Tests.antt =====
-- Runs of the reconciliation on two invoices and two payments of one of them.
use mathlib.Core.List.{Permᴰ}
use solana_payment_ops.Common.{
  ◌≡◌, refl, String, Bool, true, none, some, List, [], ◌∷◌, map, Pairwise,
}
use solana_payment_ops.Core.Types.{Cluster}
use solana_payment_ops.Reconciliation.Types.{
  opened, duplicate_payment, InvoiceRecord, FinalizedPaymentEvent, allocation,
}
use solana_payment_ops.Reconciliation.Event.{exception_decision, candidates, reconcile_event}
use solana_payment_ops.Reconciliation.Event.Allocation.{IsPaidBy, reconcile_event-allocation_iff}
use solana_payment_ops.Reconciliation.Event.Coordinates.{coordinates, body_of}
use solana_payment_ops.Reconciliation.Batch.{reconcile_batch, reconcile_events}
use solana_payment_ops.Reconciliation.Batch.Once.{DifferInInvoice, reconcile_batch-allocates_once}
use solana_payment_ops.Reconciliation.Batch.Order.{InOrder, reconcile_batch-InOrder}

abbrev invoice_of : String → String → InvoiceRecord
invoice_of id reference = record {
  invoice_id = id;
  customer_id = "customer";
  expected_mint = "mint";
  destination_token_account = "account";
  amount_base_units = 2_500_000;
  reference_address = reference;
  issued_at = 100;
  due_at = 200;
  status = opened;
}

abbrev payment : String → FinalizedPaymentEvent
payment id = record {
  chain_event_id = "chain";
  event_id = id;
  cluster = Cluster.mainnet_beta;
  signature = "signature";
  outer_instruction_index = 1;
  inner_instruction_index = none;
  mint = "mint";
  destination_token_account = "account";
  amount_base_units = 2_500_000;
  decimals = 6;
  references = "r1" ∷ [];
  block_time = some 150;
}

abbrev two_invoices : List InvoiceRecord
two_invoices = invoice_of "i1" "r1" ∷ invoice_of "i2" "r2" ∷ []

-- One order in which every two texts stand both ways.
abbrev any_order : String → String → Bool
any_order s t = true

payment_is_allocated :
    reconcile_event (payment "e1") two_invoices ≡ allocation "i1" (coordinates (payment "e1"))
unfolding reconcile_event
payment_is_allocated = refl

second_payment_is_duplicate :
    reconcile_batch any_order (payment "e1" ∷ payment "e2" ∷ []) two_invoices
    ≡ allocation "i1" (coordinates (payment "e1"))
      ∷ exception_decision (payment "e2") duplicate_payment (some "i1")
      ∷ []
unfolding reconcile_batch reconcile_events reconcile_event
second_payment_is_duplicate = refl

reconcile_event-allocation_iff_example :
    (invoice : InvoiceRecord) × (candidates (payment "e1") two_invoices ≡ invoice ∷ [])
    × IsPaidBy (payment "e1") invoice
    × ("i1" ≡ invoice.invoice_id)
    × (coordinates (payment "e1") ≡ coordinates (payment "e1"))
reconcile_event-allocation_iff_example =
    (reconcile_event-allocation_iff (payment "e1") two_invoices "i1" (coordinates (payment "e1"))).0
      payment_is_allocated

reconcile_batch-allocates_once_example :
    Pairwise DifferInInvoice
      (reconcile_batch any_order (payment "e1" ∷ payment "e2" ∷ []) two_invoices)
reconcile_batch-allocates_once_example =
    reconcile_batch-allocates_once any_order (payment "e1" ∷ payment "e2" ∷ []) two_invoices

reconcile_batch-InOrder_example :
    (sorted : List FinalizedPaymentEvent) × Permᴰ sorted (payment "e2" ∷ payment "e1" ∷ [])
    × Pairwise (InOrder any_order) sorted
    × (map body_of (reconcile_batch any_order (payment "e2" ∷ payment "e1" ∷ []) two_invoices)
        ≡ map coordinates sorted)
reconcile_batch-InOrder_example =
    reconcile_batch-InOrder any_order (λ s t h. refl) (λ s t u h k. refl)
      (payment "e2" ∷ payment "e1" ∷ []) two_invoices
