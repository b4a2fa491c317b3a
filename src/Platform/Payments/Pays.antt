-- ===== src/Platform/Payments/Pays.antt =====
-- A finalized payment of what an invoice asks for is booked by `projectOne` of
-- packages/platform/src/payments/status-projector.ts.
use solana_payment_ops.Common.{
  ℕ, ◌+◌, ◌≡◌, ◌⊎◌, inl, inr, refl, ap, ◌∙◌, String, Bool, true, false, ◌&&◌, ◌||◌, not, none, some,
  List, [], ◌∷◌, ◌++◌, if◌then◌else◌, ◌==◌, includes, ===_iff, length, find, arith, Bool-cases,
  length-append,
}
use solana_payment_ops.Common.Result.{ok}
use solana_payment_ops.Platform.Numerals.{eq_text}
use solana_payment_ops.Reconciliation.Types.{allocation, DecisionBody}
use solana_payment_ops.Platform.Payments.Types.{
  ChainState, chain_finalized, finalized, paid, invoice_issued, invoice_settled, payment_received,
  Booking, Journal, Expectation, Store, ChainEvent, live, ProjectionContext, unchanged, changed,
}
use solana_payment_ops.Platform.Payments.Advance.{
  can_advance, observed_status, is_finalized, is_settled, advance_projection, changed_to, move_to,
}
use solana_payment_ops.Platform.Payments.Book.{
  has_identity, post_journal_entry, issued_journal, ensure_invoice_issued_journal, valued_minor,
  receipt_journal, is_missing, post_receipt_journal, is_issued, insert_allocation,
  finish_allocation, project_allocation,
}
use solana_payment_ops.Platform.Payments.Project.{
  reconciliation_invoice, plan_decision, project_plan, is_agreed, project_live, has_root,
  project_mode, project_one,
}
use solana_payment_ops.Reconciliation.Event.Coordinates.{coordinates}
use solana_payment_ops.Reconciliation.Event.Allocation.{IsPaidBy, reconcile_event-allocation_iff}
use solana_payment_ops.Platform.Payments.Reach.{move_to-status}

find-append_last :
    {A : Type 0} (p : A → Bool) (xs : List A) (y : A)
    → find p xs ≡ none
    → p y ≡ false
    → find p (xs ++ (y ∷ [])) ≡ none
find-append_last p [] y h k = rw k refl
find-append_last p (x ∷ xs) y h k = elim (Bool-cases (p x)) [
  | inl e ↦ cc (rw e at h)
  | inr e ↦ rw e (find-append_last p xs y (rw e at h) k)
]

-- The journal entry of the invoice's issue is not there yet, or it is there as the projector would
-- post it, which is how an issued invoice has it.
abbrev pub IssueStands : ProjectionContext → Expectation → Store → Type 0
IssueStands world expectation s =
    (find (has_identity (issued_journal expectation s)) s.journals ≡ none)
    ⊎ ((posted : Journal) × (find (has_identity (issued_journal expectation s)) s.journals
          ≡ some posted)
        × (eq_text (world.journal_digest posted)
              (world.journal_digest (issued_journal expectation s))
            ≡ true))

-- What a receipt can be posted with: a slot, a positive expected amount, a value of at least one
-- minor unit, the invoice's own entry in order, and no receipt of the same event so far.
pub record IsPostable (world : ProjectionContext) (expectation : Expectation) (s : Store)
    (event : ChainEvent) : Type 0 where
  pub seen : is_missing event.observation_slot ≡ false
  pub divides : (expectation.expected_amount_base_units == 0) ≡ false
  pub worth : (valued_minor expectation event == 0) ≡ false
  pub issue_stands : IssueStands world expectation s
  pub first_receipt :
      find (has_identity (receipt_journal expectation event payment_received world.now)) s.journals
      ≡ none

-- The store that an allocation ends with.
abbrev pub paid_store :
    ProjectionContext → Expectation → ChainEvent → DecisionBody → List Journal → Store → Store
paid_store world expectation event body journals s =
    finish_allocation world.now expectation body (record (insert_allocation expectation body s) {
      journals = journals ++ (receipt_journal expectation event payment_received world.now ∷ []);
    })

-- The entry of the issue is posted or kept, and no receipt of the event is among the entries.
issue-returns :
    (world : ProjectionContext) (expectation : Expectation) (s : Store) (event : ChainEvent)
    (body : DecisionBody)
    → IsPostable world expectation s event
    → (journals : List Journal) × (ensure_invoice_issued_journal world expectation
          (insert_allocation expectation body s)
        ≡ ok (record (insert_allocation expectation body s) { journals = journals }))
      × (find (has_identity (receipt_journal expectation event payment_received world.now)) journals
          ≡ none)
unfolding post_journal_entry
issue-returns world expectation s event body fits = elim fits.issue_stands [
  | inl absent ↦ (
    s.journals ++ (issued_journal expectation s ∷ []),
    rw absent refl,
    find-append_last (has_identity (receipt_journal expectation event payment_received world.now))
        s.journals (issued_journal expectation s) fits.first_receipt refl,
  )
  | inr (posted, there, same) ↦ (s.journals, rw (there, same) refl, fits.first_receipt)
]

project_allocation-returns :
    (world : ProjectionContext) (expectation : Expectation) (s : Store) (event : ChainEvent)
    (invoice_id : String) (body : DecisionBody)
    → IsPostable world expectation s event
    → is_issued s.invoice_status ≡ true
    → (journals : List Journal) × (project_allocation world expectation s event invoice_id body
        ≡ ok (changed_to (paid_store world expectation event body journals s)))
unfolding project_allocation post_receipt_journal post_journal_entry
project_allocation-returns world expectation s event invoice_id body fits issued =
    let (journals, kept, fresh) = issue-returns world expectation s event body fits in
    (journals, rw (kept, fits.seen, fits.divides, fits.worth, fresh, issued) refl)

-- The circumstances in which a worker may book, and a payment that is there to be booked.
pub record IsBookable (world : ProjectionContext) (expectation : Expectation) (s : Store)
    (event : ChainEvent) : Type 0 where
  pub is_live : world.activation_mode ≡ live
  pub authorized : world.has_authority ≡ true
  pub agreed_upon : (world.is_dual_provider && not (is_agreed world.consensus)) ≡ false
  pub final : event.current_state ≡ chain_finalized
  pub awaited : s.is_expected ≡ true
  pub unsettled : is_settled s.public_status ≡ false
  pub issued : s.invoice_status ≡ invoice_issued
  pub reference : event.payment.references ≡ expectation.reference_address ∷ []
  pub pays_invoice : IsPaidBy event.payment (reconciliation_invoice expectation s)
  pub postable : IsPostable world expectation s event

module _ (world : ProjectionContext) (expectation : Expectation) (s : Store) (event : ChainEvent)
    (bookable : IsBookable world expectation s event) where
  included : includes event.payment.references expectation.reference_address ≡ true
  included =
      ap (λ (refs : List String). includes refs expectation.reference_address) bookable.reference
      ∙ ground (arith, ===_iff expectation.reference_address expectation.reference_address)

  decided :
      plan_decision expectation s event
      ≡ allocation expectation.invoice_id (coordinates event.payment)
  unfolding plan_decision
  decided =
      let single : (length event.payment.references == 1) ≡ true =
        ap (λ (refs : List String). length refs == 1) bookable.reference in
      rw single (
        (reconcile_event-allocation_iff event.payment (reconciliation_invoice expectation s ∷ [])
            expectation.invoice_id (coordinates event.payment)).1
          (
            reconciliation_invoice expectation s,
            rw included refl,
            bookable.pays_invoice,
            refl,
            refl,
          ))

  moved-IsPostable :
      (event_id : String) (now : ℕ)
      → IsPostable world expectation (move_to s event_id finalized now) event
  unfolding move_to advance_projection
  moved-IsPostable event_id now = record {
    seen = bookable.postable.seen;
    divides = bookable.postable.divides;
    worth = bookable.postable.worth;
    issue_stands = bookable.postable.issue_stands;
    first_receipt = bookable.postable.first_receipt;
  }

  moved-invoice :
      (event_id : String) (now : ℕ)
      → (is_issued (move_to s event_id finalized now).invoice_status ≡ true)
        × ((move_to s event_id finalized now).allocations ≡ s.allocations)
  unfolding move_to advance_projection
  moved-invoice event_id now = (ap is_issued bookable.issued, refl)

  -- From a store that awaits the booking, the plan is carried out.
  plan-books :
      (latest : Store) (moved : Bool)
      → is_settled latest.public_status ≡ false
      → IsPostable world expectation latest event
      → is_issued latest.invoice_status ≡ true
      → (journals : List Journal) × (project_plan world expectation event
            (plan_decision expectation s event)
            (moved, latest)
          ≡ ok (
              changed_to
                (paid_store world expectation event (coordinates event.payment) journals latest)))
  plan-books latest moved unsettled postable issued =
      let goes_on : (not (is_finalized event.current_state) || is_settled latest.public_status)
          ≡ false =
        ap (λ (c : ChainState). not (is_finalized c) || is_settled latest.public_status)
          bookable.final
        ∙ unsettled in
      let (journals, returns) =
        project_allocation-returns world expectation latest event expectation.invoice_id
          (coordinates event.payment) postable issued in
      (journals, rw (goes_on, decided) returns)

  live-books :
      (latest : Store) × (journals : List Journal) × (project_live world expectation s event
        ≡ ok (
            changed_to
              (paid_store world expectation event (coordinates event.payment) journals latest)))
      × (latest.allocations ≡ s.allocations)
  unfolding project_live
  live-books =
      let target : observed_status event.current_state ≡ some finalized =
        ap observed_status bookable.final in
      let free : (is_finalized event.current_state
            && (world.is_dual_provider && not (is_agreed world.consensus)))
          ≡ false =
        ap
          (λ (c : ChainState).
            is_finalized c && (world.is_dual_provider && not (is_agreed world.consensus)))
          bookable.final
        ∙ bookable.agreed_upon in
      elim (Bool-cases (can_advance s.public_status finalized)) [
        | inl can ↦
            let latest : Store = move_to s event.payment.event_id finalized world.now in
            let (journals, booked) =
              plan-books latest true
                (ap is_settled (move_to-status s event.payment.event_id finalized world.now))
                (moved-IsPostable event.payment.event_id world.now)
                (moved-invoice event.payment.event_id world.now).0 in
            (
              latest,
              journals,
              rw (target, free, can) booked,
              (moved-invoice event.payment.event_id world.now).1,
            )
        | inr cannot ↦
            let (journals, booked) =
              plan-books s false bookable.unsettled bookable.postable
                (ap is_issued bookable.issued) in
            (s, journals, rw (target, free, cannot) booked, refl)
      ]

-- A finalized event, with the payment's reference alone, that pays the invoice of an awaited
-- payment is booked by an authorized live worker with the consensus that it needs, provided that
-- the payment is not settled and its invoice is issued, that the slot of the event is known and the
-- expected amount positive, that what is received is worth at least one minor unit, that the
-- journal entry of the invoice's issue is missing or is the one that the projector would post, and
-- that no receipt of the event is in the journal. The run then commits a store in which the payment
-- is paid, the invoice settled, one allocation added, the receipt's entry posted last, and the
-- payment expected no more.
pub project_one-pays :
    (world : ProjectionContext) (expectation : Expectation) (s : Store) (event : ChainEvent)
    → IsBookable world expectation s event
    → (t : Store) × (project_one world expectation s event
        ≡ ok (changed paid t.projection_version, t))
      × (t.public_status ≡ paid)
      × (t.invoice_status ≡ invoice_settled)
      × (length t.allocations ≡ length s.allocations + 1)
      × ((earlier : List Journal) × (t.journals
            ≡ earlier ++ (receipt_journal expectation event payment_received world.now ∷ [])))
      × (t.is_expected ≡ false)
unfolding project_one finish_allocation advance_projection
project_one-pays world expectation s event bookable =
    let (latest, journals, books, same) = live-books world expectation s event bookable in
    let t : Store =
      paid_store world expectation event (coordinates event.payment) journals latest in
    let found : has_root expectation s event ≡ true =
      ap (λ (b : Bool). b && includes event.payment.references expectation.reference_address)
        bookable.awaited
      ∙ included world expectation s event bookable in
    let run : project_mode world expectation s event world.activation_mode
        ≡ ok (changed paid t.projection_version, t) =
      ap (project_mode world expectation s event) bookable.is_live
      ∙ ap (λ (b : Bool). if b then project_live world expectation s event else ok (unchanged, s))
          bookable.authorized
      ∙ books in
    (
      t,
      rw found run,
      refl,
      refl,
      length-append latest.allocations _ ∙ ap (λ (l : List Booking). length l + 1) same,
      (journals, refl),
      refl,
    )
