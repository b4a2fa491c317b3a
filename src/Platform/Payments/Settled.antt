-- ===== src/Platform/Payments/Settled.antt =====
-- Every run of `projectOne` of packages/platform/src/payments/status-projector.ts follows the state
-- machine of a payment and books it at most once.
use solana_payment_ops.Common.{
  ℕ, ◌+◌, ◌≡◌, ◌⊎◌, inl, inr, refl, sym, ap, ◌∙◌, subst, String, Bool, true, false, not, Option,
  List, [], ◌∷◌, ◌++◌, if◌then◌else◌, length, length-append,
}
use solana_payment_ops.Common.Result.{ok, >>=-eq-ok, ok-injective, throw_if-eq-ok}
use solana_payment_ops.Reconciliation.Types.{
  RuleCode, ReconciliationDecision, allocation, exceptional, DecisionBody,
}
use solana_payment_ops.Platform.Payments.Types.{
  PublicStatus, finalized, expired, payment_received, unapplied_receipt, Journal, Expectation,
  Store, ChainEvent, ProjectionContext, ProjectionResult, allocation_conflict,
}
use solana_payment_ops.Platform.Payments.Advance.{is_settled, advance_projection}
use solana_payment_ops.Platform.Payments.Book.{
  issued_journal, ensure_invoice_issued_journal, post_receipt_journal, is_issued, insert_allocation,
  finish_allocation, project_allocation, post_unapplied, insert_exception, finish_exception,
  project_exception,
}
use solana_payment_ops.Platform.Payments.Project.{project_decision}
use solana_payment_ops.Platform.Payments.Moves.{books}
use solana_payment_ops.Platform.Payments.Invariant.{
  Steps, WithJournals, one_if, WithJournals-trans, post_journal_entry-WithJournals,
  post_receipt_journal-WithJournals, unsettled,
}

-- The statuses in which a finalized event finds a payment that is not settled.
abbrev pub AwaitsBooking : PublicStatus → Type 0
AwaitsBooking status = (status ≡ finalized) ⊎ (status ≡ expired)

awaiting-unsettled : (s : PublicStatus) → AwaitsBooking s → is_settled s ≡ false
awaiting-unsettled s (inl e) = ap is_settled e
awaiting-unsettled s (inr e) = ap is_settled e

appended-once : {A : Type 0} (xs : List A) (x : A) → length xs ≡ 0 → length (xs ++ (x ∷ [])) ≡ 1
appended-once xs x h = length-append xs (x ∷ []) ∙ ap (λ n. n + 1) h

-- The last statements of an allocation settle the payment, whatever the journals.
finish_allocation-Steps :
    (now : ℕ) (expectation : Expectation) (body : DecisionBody) (s : Store) (posted : List Journal)
    → AwaitsBooking s.public_status
    → Steps s (
        finish_allocation now expectation body
          (record (insert_allocation expectation body s) { journals = posted }))
unfolding finish_allocation advance_projection
finish_allocation-Steps now expectation body s posted awaits =
    let none_yet = unsettled s.public_status (awaiting-unsettled s.public_status awaits) in
    (
      (_, refl, (refl, refl, (books s.public_status awaits).0, (refl, refl))),
      (λ booked. record {
        expected = refl;
        allocated_once =
            appended-once s.allocations _ (booked.allocated_once ∙ ap one_if none_yet.0);
        excepted_once = booked.excepted_once ∙ ap one_if none_yet.1;
        settles = λ _. refl;
      }),
    )

finish_exception-Steps :
    (now : ℕ) (code : RuleCode) (invoice_id : Option String) (body : DecisionBody) (s : Store)
    (posted : List Journal)
    → AwaitsBooking s.public_status
    → Steps s (
        finish_exception now code body
          (record (insert_exception code invoice_id body s) { journals = posted }))
unfolding finish_exception advance_projection
finish_exception-Steps now code invoice_id body s posted awaits =
    let none_yet = unsettled s.public_status (awaiting-unsettled s.public_status awaits) in
    (
      (_, refl, (refl, refl, (books s.public_status awaits).1, (refl, refl))),
      (λ booked. record {
        expected = refl;
        allocated_once = booked.allocated_once ∙ ap one_if none_yet.0;
        excepted_once = appended-once s.exceptions _ (booked.excepted_once ∙ ap one_if none_yet.1);
        settles = λ e. cc e;
      }),
    )

project_allocation-Steps :
    (world : ProjectionContext) (expectation : Expectation) (s : Store) (event : ChainEvent)
    (invoice_id : String) (body : DecisionBody) (out : ProjectionResult × Store)
    → project_allocation world expectation s event invoice_id body ≡ ok out
    → AwaitsBooking s.public_status
    → Steps s out.1
unfolding project_allocation
project_allocation-Steps world expectation s event invoice_id body out h awaits =
    let inserted : Store = insert_allocation expectation body s in
    let a = >>=-eq-ok (ensure_invoice_issued_journal world expectation inserted) _ h in
    let b = >>=-eq-ok (post_receipt_journal world expectation a.0 event payment_received) _ a.2 in
    let c = throw_if-eq-ok (not (is_issued b.0.invoice_status)) allocation_conflict _ b.2 in
    let posted =
      WithJournals-trans inserted a.0 b.0
        (post_journal_entry-WithJournals world.journal_digest (issued_journal expectation inserted)
          inserted a.0 a.1)
        (post_receipt_journal-WithJournals world expectation a.0 b.0 event payment_received b.1) in
    subst (λ (o : ProjectionResult × Store). Steps s o.1) (ok-injective c.1)
      (subst (λ (r : Store). Steps s (finish_allocation world.now expectation body r))
        (sym posted.1) (finish_allocation-Steps world.now expectation body s posted.0 awaits))

post_unapplied-WithJournals :
    (world : ProjectionContext) (expectation : Expectation) (s t : Store) (event : ChainEvent)
    (c : Bool)
    → (if c then post_receipt_journal world expectation s event unapplied_receipt else ok s) ≡ ok t
    → WithJournals s t
post_unapplied-WithJournals world expectation s t event true h =
    post_receipt_journal-WithJournals world expectation s t event unapplied_receipt h
post_unapplied-WithJournals world expectation s t event false h = (s.journals, sym (ok-injective h))

project_exception-Steps :
    (world : ProjectionContext) (expectation : Expectation) (s : Store) (event : ChainEvent)
    (code : RuleCode) (invoice_id : Option String) (body : DecisionBody)
    (out : ProjectionResult × Store)
    → project_exception world expectation s event code invoice_id body ≡ ok out
    → AwaitsBooking s.public_status
    → Steps s out.1
unfolding project_exception
project_exception-Steps world expectation s event code invoice_id body out h awaits =
    let inserted : Store = insert_exception code invoice_id body s in
    let a = >>=-eq-ok (ensure_invoice_issued_journal world expectation inserted) _ h in
    let b = >>=-eq-ok (post_unapplied world expectation a.0 event) _ a.2 in
    let posted =
      WithJournals-trans inserted a.0 b.0
        (post_journal_entry-WithJournals world.journal_digest (issued_journal expectation inserted)
          inserted a.0 a.1)
        (post_unapplied-WithJournals world expectation a.0 b.0 event _ b.1) in
    subst (λ (o : ProjectionResult × Store). Steps s o.1) (ok-injective b.2)
      (subst (λ (r : Store). Steps s (finish_exception world.now code body r)) (sym posted.1)
        (finish_exception-Steps world.now code invoice_id body s posted.0 awaits))

pub project_decision-Steps :
    (world : ProjectionContext) (expectation : Expectation) (s : Store) (event : ChainEvent)
    (decision : ReconciliationDecision) (out : ProjectionResult × Store)
    → project_decision world expectation s event decision ≡ ok out
    → AwaitsBooking s.public_status
    → Steps s out.1
project_decision-Steps world expectation s event (allocation invoice_id body) out h awaits =
    project_allocation-Steps world expectation s event invoice_id body out h awaits
project_decision-Steps world expectation s event (exceptional code invoice_id body) out h awaits =
    project_exception-Steps world expectation s event code invoice_id body out h awaits
