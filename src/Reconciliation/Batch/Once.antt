-- ===== src/Reconciliation/Batch/Once.antt =====
-- That a batch allocates no invoice twice: what the current invoices keep from one event to the
-- next.
use solana_payment_ops.Common.{
  String, ◌≡◌, refl, sym, ap, ◌∙◌, ◌≢◌, inl, inr, Bool, List, [], ◌∷◌, All, All-mono, All-map,
  All-filter, All-of_forall, All-zip, subst, Pairwise, Option-cases,
}
use solana_payment_ops.Common.Map.{
  Map, lookup, values, HasDistinctKeys, insert-All, insert-All_except, insert-HasDistinctKeys,
  lookup-All, lookup-none,
}
use solana_payment_ops.Reconciliation.Types.{
  matched, InvoiceRecord, FinalizedPaymentEvent, DecisionBody, ReconciliationDecision, allocation,
  exceptional,
}
use solana_payment_ops.Reconciliation.Event.{reconcile_event}
use solana_payment_ops.Reconciliation.Event.Allocation.{reconcile_event-allocation_iff}
use solana_payment_ops.Reconciliation.Batch.{
  index_invoices, mark_matched, settle, reconcile_events, reconcile_batch,
}

-- Each invoice stands under its own id, once.
record IsKeyed (m : Map InvoiceRecord) : Type 0 where
  pub distinct : HasDistinctKeys m
  pub keyed : All (λ e. e.1.invoice_id ≡ e.0) m

abbrev IsMatchedAt : String → Map InvoiceRecord → Type 0
IsMatchedAt id = All (λ e. e.0 ≡ id → e.1.status ≡ matched)

abbrev pub AllocatesElsewhere : String → ReconciliationDecision → Type 0
AllocatesElsewhere id d = (b : DecisionBody) → d ≢ allocation id b

-- Not both allocate to one invoice.
abbrev pub DifferInInvoice : ReconciliationDecision → ReconciliationDecision → Type 0
DifferInInvoice d e =
    (id : String) (b : DecisionBody) → d ≡ allocation id b → AllocatesElsewhere id e

index_invoices-IsKeyed :
    (invoices : List InvoiceRecord) (m : Map InvoiceRecord)
    → IsKeyed m
    → IsKeyed (index_invoices m invoices)
index_invoices-IsKeyed [] m k = k
index_invoices-IsKeyed (i ∷ is) m k = index_invoices-IsKeyed is _ (record {
  distinct = insert-HasDistinctKeys i.invoice_id i m k.distinct;
  keyed = insert-All (λ e. e.1.invoice_id ≡ e.0) i.invoice_id i m refl k.keyed;
})

settle-IsKeyed :
    (d : ReconciliationDecision) (m : Map InvoiceRecord) → IsKeyed m → IsKeyed (settle d m)
settle-IsKeyed (exceptional _ _ _) m k = k
settle-IsKeyed (allocation id b) m k = elim (Option-cases (lookup id m)) [
  | inl e ↦ rw (e, settle) k
  | inr (i, e) ↦
      rw (e, settle)
        (record {
          distinct = insert-HasDistinctKeys id (mark_matched i) m k.distinct;
          keyed =
              insert-All (λ e. e.1.invoice_id ≡ e.0) id (mark_matched i) m
                (lookup-All (λ e. e.1.invoice_id ≡ e.0) id m k.keyed e) k.keyed;
        })
]

settle-IsMatchedAt :
    (d : ReconciliationDecision) (id : String) (m : Map InvoiceRecord)
    → IsMatchedAt id m
    → IsMatchedAt id (settle d m)
settle-IsMatchedAt (exceptional _ _ _) id m h = h
settle-IsMatchedAt (allocation j b) id m h = elim (Option-cases (lookup j m)) [
  | inl e ↦ rw (e, settle) h
  | inr (i, e) ↦
      rw (e, settle)
        (insert-All (λ e. e.0 ≡ id → e.1.status ≡ matched) j (mark_matched i) m (λ _. refl) h)
]

-- The invoice of an allocation is matched from then on.
settle-matches :
    (id : String) (b : DecisionBody) (m : Map InvoiceRecord)
    → IsKeyed m
    → IsMatchedAt id (settle (allocation id b) m)
settle-matches id b m k = elim (Option-cases (lookup id m)) [
  | inl e ↦
      rw (e, settle) (All-mono (λ e. e.0 ≢ id) (λ e ne q. absurd (ne q)) m (lookup-none id m e))
  | inr (i, e) ↦
      rw (e, settle)
        (insert-All_except (λ e. e.0 ≡ id → e.1.status ≡ matched) id (mark_matched i) m k.distinct
          (λ _. refl) (All-of_forall _ (λ e ne q. absurd (ne q)) m))
]

-- A matched invoice is not allocated to.
reconcile_event-elsewhere :
    (event : FinalizedPaymentEvent) (id : String) (m : Map InvoiceRecord)
    → IsKeyed m
    → IsMatchedAt id m
    → AllocatesElsewhere id (reconcile_event event (values m))
reconcile_event-elsewhere event id m k h b e =
    let (invoice, one, paid, i, _) = (reconcile_event-allocation_iff event (values m) id b).0 e in
    let matched_one : All (λ v. v.invoice_id ≡ id → v.status ≡ matched) (invoice ∷ []) =
      subst (All (λ v. v.invoice_id ≡ id → v.status ≡ matched)) one (
        All-filter _ _ (values m) (
          All-map (λ v. v.invoice_id ≡ id → v.status ≡ matched) (λ e. e.1) m
            (All-mono (λ e. (e.1.invoice_id ≡ e.0) × (e.0 ≡ id → e.1.status ≡ matched))
              (λ e q r. q.1 (sym q.0 ∙ r)) m (All-zip _ _ m k.keyed h)))) in
    paid.unmatched (matched_one.0 (sym i))

reconcile_events-elsewhere :
    (events : List FinalizedPaymentEvent) (id : String) (m : Map InvoiceRecord)
    → IsKeyed m
    → IsMatchedAt id m
    → All (AllocatesElsewhere id) (reconcile_events events m)
unfolding reconcile_events
reconcile_events-elsewhere [] id m k h = tt
reconcile_events-elsewhere (event ∷ events) id m k h =
    let d = reconcile_event event (values m) in
    (
      reconcile_event-elsewhere event id m k h,
      reconcile_events-elsewhere events id (settle d m) (settle-IsKeyed d m k)
          (settle-IsMatchedAt d id m h),
    )

reconcile_events-once :
    (events : List FinalizedPaymentEvent) (m : Map InvoiceRecord)
    → IsKeyed m
    → Pairwise DifferInInvoice (reconcile_events events m)
unfolding reconcile_events
reconcile_events-once [] m k = tt
reconcile_events-once (event ∷ events) m k = (
  after (reconcile_event event (values m)),
  reconcile_events-once events _ (settle-IsKeyed _ m k),
)
  where
    after :
        (d : ReconciliationDecision)
        → All (DifferInInvoice d) (reconcile_events events (settle d m))
    after (exceptional _ _ _) = All-of_forall _ (λ e id b q. cc q) _
    after (allocation id b) =
        All-mono (AllocatesElsewhere id)
          (λ e h j c q c' r. h c' (r ∙ ap (λ i. allocation i c') (cc q))) _
          (reconcile_events-elsewhere events id _ (settle-IsKeyed (allocation id b) m k)
            (settle-matches id b m k))

-- No two decisions of a batch allocate to one invoice, whatever the order of the events and
-- however many invoices share an id or a reference.
pub reconcile_batch-allocates_once :
    (at_most : String → String → Bool) (events : List FinalizedPaymentEvent)
    (invoices : List InvoiceRecord)
    → Pairwise DifferInInvoice (reconcile_batch at_most events invoices)
unfolding reconcile_batch
reconcile_batch-allocates_once at_most events invoices =
    reconcile_events-once _ _
      (index_invoices-IsKeyed invoices [] (record { distinct = tt; keyed = tt }))
