-- ===== src/Platform/Payments/Invariant.antt =====
-- What holds of every store that `projectOne` of packages/platform/src/payments/status-projector.ts
-- makes: a settled attempt has one booking and is expected no more.
use solana_payment_ops.Common.{
  ℕ, ◌≡◌, ◌≢◌, refl, sym, ap, ◌∙◌, String, Bool, true, false, not, Option, none, some, List, [],
  ◌∷◌, ◌++◌, ◌==◌, length, find, if-both,
}
use solana_payment_ops.Common.Result.{ok, if-eq-ok, ok-injective, throw_if-eq-ok}
use solana_payment_ops.Common.Decimal.{Text}
use solana_payment_ops.Platform.Payments.Types.{
  PublicStatus, awaiting_payment, detected, confirmed, finalized, paid, expired,
  confirmation_revoked, exception, as_status, invoice_settled, observed, chain, JournalSource,
  Journal, Expectation, Store, ChainEvent, ProjectionContext, ProjectionResult, missing_slot,
  valuation_too_small, division_by_zero,
}
use solana_payment_ops.Platform.Payments.Advance.{
  is_observation, can_advance, is_settled, is_paid, is_exception, advance_projection, move_to,
  is_revocable, project_revocation,
}
use solana_payment_ops.Platform.Payments.Book.{
  has_identity, post_beside, post_journal_entry, valued_minor, receipt_journal, is_missing,
  post_receipt_journal,
}
use solana_payment_ops.Platform.Payments.Moves.{
  observes, revokes, GoesOn, GoesOn-refl, GoesOn-trans, advance_projection-GoesOn,
}

abbrev pub one_if : Bool → ℕ
one_if true = 1
one_if false = 0

pub record IsBooked (s : Store) : Type 0 where
  pub expected : s.is_expected ≡ not (is_settled s.public_status)
  pub allocated_once : length s.allocations ≡ one_if (is_paid s.public_status)
  pub excepted_once : length s.exceptions ≡ one_if (is_exception s.public_status)
  pub settles : s.public_status ≡ paid → s.invoice_status ≡ invoice_settled

-- A step that a store may take.
abbrev pub Steps : Store → Store → Type 0
Steps s t = GoesOn s t × (IsBooked s → IsBooked t)

pub Steps-refl : (s : Store) → Steps s s
Steps-refl s = (GoesOn-refl s, λ booked. booked)

pub Steps-trans : (s t u : Store) → Steps s t → Steps t u → Steps s u
Steps-trans s t u h k = (GoesOn-trans s t u h.0 k.0, λ booked. k.1 (h.1 booked))

pub unsettled :
    (status : PublicStatus)
    → is_settled status ≡ false
    → (is_paid status ≡ false) × (is_exception status ≡ false) × (status ≢ paid)
unsettled awaiting_payment h = (refl, refl, λ e. cc e)
unsettled detected h = (refl, refl, λ e. cc e)
unsettled confirmed h = (refl, refl, λ e. cc e)
unsettled finalized h = (refl, refl, λ e. cc e)
unsettled paid h = cc h
unsettled expired h = (refl, refl, λ e. cc e)
unsettled confirmation_revoked h = (refl, refl, λ e. cc e)
unsettled exception h = cc h

observation-unsettled : (to : PublicStatus) → is_observation to ≡ true → is_settled to ≡ false
observation-unsettled awaiting_payment h = refl
observation-unsettled detected h = refl
observation-unsettled confirmed h = refl
observation-unsettled finalized h = refl
observation-unsettled paid h = cc h
observation-unsettled expired h = refl
observation-unsettled confirmation_revoked h = refl
observation-unsettled exception h = cc h

pub below-paid : (to : PublicStatus) → is_observation to ≡ true → can_advance paid to ≡ false
below-paid awaiting_payment h = refl
below-paid detected h = refl
below-paid confirmed h = refl
below-paid finalized h = refl
below-paid paid h = cc h
below-paid expired h = refl
below-paid confirmation_revoked h = refl
below-paid exception h = cc h

pub below-exception : (to : PublicStatus) → can_advance exception to ≡ false
below-exception awaiting_payment = refl
below-exception detected = refl
below-exception confirmed = refl
below-exception finalized = refl
below-exception paid = refl
below-exception expired = refl
below-exception confirmation_revoked = refl
below-exception exception = refl

-- No observation moves a settled status.
advancing-unsettled :
    (from to : PublicStatus)
    → is_observation to ≡ true
    → can_advance from to ≡ true
    → is_settled from ≡ false
advancing-unsettled awaiting_payment to k h = refl
advancing-unsettled detected to k h = refl
advancing-unsettled confirmed to k h = refl
advancing-unsettled finalized to k h = refl
advancing-unsettled paid to k h = cc (below-paid to k, h)
advancing-unsettled expired to k h = refl
advancing-unsettled confirmation_revoked to k h = refl
advancing-unsettled exception to k h = cc (below-exception to)

revocable-unsettled : (from : PublicStatus) → is_revocable from ≡ true → is_settled from ≡ false
revocable-unsettled awaiting_payment h = refl
revocable-unsettled detected h = refl
revocable-unsettled confirmed h = refl
revocable-unsettled finalized h = refl
revocable-unsettled paid h = cc h
revocable-unsettled expired h = refl
revocable-unsettled confirmation_revoked h = refl
revocable-unsettled exception h = cc h

-- A change of status between two that settle nothing.
unsettled-IsBooked :
    (s t : Store)
    → is_settled s.public_status ≡ false
    → is_settled t.public_status ≡ false
    → t.is_expected ≡ s.is_expected
    → t.allocations ≡ s.allocations
    → t.exceptions ≡ s.exceptions
    → IsBooked s
    → IsBooked t
unsettled-IsBooked s t hs ht e a x booked =
    let before = unsettled s.public_status hs in
    let after = unsettled t.public_status ht in
    record {
      expected = e ∙ booked.expected ∙ ap not (hs ∙ sym ht);
      allocated_once = ap length a ∙ booked.allocated_once ∙ ap one_if (before.0 ∙ sym after.0);
      excepted_once = ap length x ∙ booked.excepted_once ∙ ap one_if (before.1 ∙ sym after.1);
      settles = λ paid. absurd (after.2 paid);
    }

-- An observation moves the status, and books nothing.
pub move_to-Steps :
    (s : Store) (event_id : String) (to : PublicStatus) (now : ℕ)
    → can_advance s.public_status to ≡ true
    → is_observation to ≡ true
    → Steps s (move_to s event_id to now)
unfolding move_to advance_projection
move_to-Steps s event_id to now h k = (
  advance_projection-GoesOn s event_id to (as_status to) (observed to) now
      (observes s.public_status to h k),
  unsettled-IsBooked s (move_to s event_id to now) (advancing-unsettled s.public_status to k h)
      (observation-unsettled to k) refl refl refl,
)

pub project_revocation-Steps :
    (s : Store) (event : ChainEvent) (now : ℕ) → Steps s (project_revocation s event now).1
unfolding project_revocation advance_projection
project_revocation-Steps s event now =
    if-both (λ (out : ProjectionResult × Store). Steps s out.1) (is_revocable s.public_status) _ _
      (λ revocable. (
        advance_projection-GoesOn s event.payment.event_id confirmation_revoked
            (as_status confirmation_revoked) (chain event.current_state) now
            (revokes s.public_status revocable),
        unsettled-IsBooked s _ (revocable-unsettled s.public_status revocable) refl refl refl refl,
      ))
      (λ _. Steps-refl s)

-- Posting a journal entry changes the journals alone.
abbrev pub WithJournals : Store → Store → Type 0
WithJournals s t = (posted : List Journal) × (t ≡ record s { journals = posted })

post_beside-WithJournals :
    (digest : Journal → Text) (journal : Journal) (s t : Store) (found : Option Journal)
    → post_beside digest journal s found ≡ ok t
    → WithJournals s t
post_beside-WithJournals digest journal s t none h =
    (s.journals ++ (journal ∷ []), sym (ok-injective h))
post_beside-WithJournals digest journal s t (some posted) h =
    (s.journals, sym (ok-injective (if-eq-ok _ (ok s) _ h).1))

pub post_journal_entry-WithJournals :
    (digest : Journal → Text) (journal : Journal) (s t : Store)
    → post_journal_entry digest journal s ≡ ok t
    → WithJournals s t
unfolding post_journal_entry
post_journal_entry-WithJournals digest journal s t h =
    post_beside-WithJournals digest journal s t (find (has_identity journal) s.journals) h

pub post_receipt_journal-WithJournals :
    (world : ProjectionContext) (expectation : Expectation) (s t : Store) (event : ChainEvent)
    (source : JournalSource)
    → post_receipt_journal world expectation s event source ≡ ok t
    → WithJournals s t
unfolding post_receipt_journal
post_receipt_journal-WithJournals world expectation s t event source h =
    let a = throw_if-eq-ok (is_missing event.observation_slot) missing_slot _ h in
    let b = throw_if-eq-ok (expectation.expected_amount_base_units == 0) division_by_zero _ a.1 in
    let c = throw_if-eq-ok (valued_minor expectation event == 0) valuation_too_small _ b.1 in
    post_journal_entry-WithJournals world.journal_digest
      (receipt_journal expectation event source world.now) s t c.1

pub WithJournals-trans : (s t u : Store) → WithJournals s t → WithJournals t u → WithJournals s u
WithJournals-trans s t u h k = (k.0, k.1 ∙ ap (λ (r : Store). record r { journals = k.0 }) h.1)
