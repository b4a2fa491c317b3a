-- ===== src/Reconciliation/Event/Allocation.antt =====
-- When an event is allocated to an invoice, and what any decision carries.
use solana_payment_ops.Common.{
  ℕ, not, ◌≤◌, ◌≡◌, ◌≢◌, refl, ap, sym, ◌∙◌, ◌↔◌, inl, inr, String, Bool, true, false, none, some,
  List, [], ◌∷◌, arith, ◌===◌, ===_iff, if◌then◌else◌, ltb, ltb, Option-cases,
}
use solana_payment_ops.Reconciliation.Types.{
  matched, InvoiceRecord, FinalizedPaymentEvent, DecisionBody, ReconciliationDecision, allocation,
  RuleCode, partial_payment, excess_payment, before_issue, late_payment, duplicate_payment,
  wrong_asset, wrong_destination,
}
use solana_payment_ops.Reconciliation.Event.{
  exception_decision, is_matched, reconcile_amount, reconcile_time, reconcile_candidate, candidates,
  reconcile_candidates, reconcile_event,
}
use solana_payment_ops.Reconciliation.Event.Coordinates.{coordinates}

-- An unmatched invoice that the event pays: the asset and the account, within the time, in full.
pub record IsPaidBy (event : FinalizedPaymentEvent) (invoice : InvoiceRecord) : Type 0 where
  pub unmatched : invoice.status ≢ matched
  pub asset : event.mint ≡ invoice.expected_mint
  pub destination : event.destination_token_account ≡ invoice.destination_token_account
  pub in_time :
      (time : ℕ) × (event.block_time ≡ some time)
      × (invoice.issued_at ≤ time)
      × (time ≤ invoice.due_at)
  pub amount : event.amount_base_units ≡ invoice.amount_base_units

-- A conditional that takes its second branch, since the first is an exception.
past_if :
    (event : FinalizedPaymentEvent) (invoice : InvoiceRecord) (c : Bool) (code : RuleCode)
    {id : String} {b : DecisionBody} {y : ReconciliationDecision}
    → (if c then exception_decision event code (some invoice.invoice_id) else y) ≡ allocation id b
    → (c ≡ false) × (y ≡ allocation id b)
past_if _ _ true _ h = cc h
past_if _ _ false _ h = (refl, h)

allocation-injective :
    {i j : String} {a b : DecisionBody} → allocation i a ≡ allocation j b → (j ≡ i) × (b ≡ a)
allocation-injective h = (cc, cc)

-- What an allocation says of each test, from the last one outwards.
module _ (event : FinalizedPaymentEvent) (invoice : InvoiceRecord) {id : String}
    {b : DecisionBody} where
  amount-inversion :
      reconcile_amount event invoice ≡ allocation id b
      → (event.amount_base_units ≡ invoice.amount_base_units)
        × (id ≡ invoice.invoice_id)
        × (b ≡ coordinates event)
  unfolding reconcile_amount
  amount-inversion h =
      let p =
        past_if event invoice (ltb event.amount_base_units invoice.amount_base_units)
          partial_payment h in
      let r =
        past_if event invoice (ltb invoice.amount_base_units event.amount_base_units) excess_payment
          p.1 in
      let a = allocation-injective r.1 in (ground arith, a.0, a.1)

  time-inversion :
      (time : ℕ)
      → event.block_time ≡ some time
      → reconcile_time event invoice ≡ allocation id b
      → (invoice.issued_at ≤ time)
        × (time ≤ invoice.due_at)
        × (reconcile_amount event invoice ≡ allocation id b)
  unfolding reconcile_time
  time-inversion time e h =
      let p =
        past_if event invoice (ltb time invoice.issued_at) before_issue
          (rw (e, reconcile_time) at h) in
      let r = past_if event invoice (ltb invoice.due_at time) late_payment p.1 in
      (ground arith, ground arith, r.1)

  untimed : event.block_time ≡ none → reconcile_time event invoice ≢ allocation id b
  unfolding reconcile_time
  untimed e h = cc (rw (e, reconcile_time) at h)

  candidate-IsPaidBy :
      reconcile_candidate event invoice ≡ allocation id b
      → IsPaidBy event invoice × (id ≡ invoice.invoice_id) × (b ≡ coordinates event)
  unfolding reconcile_candidate
  candidate-IsPaidBy h =
      let p = past_if event invoice (is_matched invoice.status) duplicate_payment h in
      let q = past_if event invoice (not (event.mint === invoice.expected_mint)) wrong_asset p.1 in
      let r =
        past_if event invoice
          (not (event.destination_token_account === invoice.destination_token_account))
          wrong_destination q.1 in
      elim (Option-cases event.block_time) [
        | inl e ↦ absurd (untimed e r.1)
        | inr (time, e) ↦
            let t = time-inversion time e r.1 in
            let a = amount-inversion t.2 in
            (
              record {
                unmatched = λ m. cc (sym (ap is_matched m) ∙ p.0);
                asset = ground (arith, ===_iff event.mint invoice.expected_mint);
                destination = ground (
                  arith,
                  ===_iff event.destination_token_account invoice.destination_token_account,
                );
                in_time = (time, e, t.0, t.1);
                amount = a.0;
              },
              a.1,
              a.2,
            )
      ]

IsPaidBy-candidate :
    (event : FinalizedPaymentEvent) (invoice : InvoiceRecord)
    → IsPaidBy event invoice
    → reconcile_candidate event invoice ≡ allocation invoice.invoice_id (coordinates event)
unfolding reconcile_candidate
IsPaidBy-candidate event invoice p = ground (
  arith,
  ===_iff event.mint invoice.expected_mint,
  ===_iff event.destination_token_account invoice.destination_token_account,
)

-- An event is allocated exactly when one invoice alone has one of its references and the event pays
-- that invoice, unmatched so far, in its asset, to its account, between its issue and its due time
-- and to the unit; the allocation is then to that invoice, with the event's own coordinates.
pub reconcile_event-allocation_iff :
    (event : FinalizedPaymentEvent) (invoices : List InvoiceRecord) (id : String) (b : DecisionBody)
    → (reconcile_event event invoices ≡ allocation id b) ↔ (
        (invoice : InvoiceRecord) × (candidates event invoices ≡ invoice ∷ [])
        × IsPaidBy event invoice
        × (id ≡ invoice.invoice_id)
        × (b ≡ coordinates event))
unfolding reconcile_event reconcile_candidates
reconcile_event-allocation_iff event invoices id b = (
  (λ h. of_candidates (candidates event invoices) refl h),
  (λ (invoice, one, paid, i, d). rw (one, i, d) (IsPaidBy-candidate event invoice paid)),
)
  where
    of_candidates :
        (found : List InvoiceRecord)
        → candidates event invoices ≡ found
        → reconcile_candidates event found ≡ allocation id b
        → (invoice : InvoiceRecord) × (candidates event invoices ≡ invoice ∷ [])
          × IsPaidBy event invoice
          × (id ≡ invoice.invoice_id)
          × (b ≡ coordinates event)
    of_candidates [] e h = cc h
    of_candidates (invoice ∷ []) e h =
        let p = candidate-IsPaidBy event invoice h in (invoice, e, p.0, p.1, p.2)
    of_candidates (_ ∷ (_ ∷ _)) e h = cc h
