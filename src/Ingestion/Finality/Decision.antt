-- ===== src/Ingestion/Finality/Decision.antt =====
-- When the finality engine decides on a final or a reverted transaction.
use solana_payment_ops.Common.{
  ℕ, ◌+◌, ◌≤◌, ◌≡◌, refl, ◌≢◌, ◌↔◌, sym, ◌∙◌, ap, ap₂, String, Bool, true, false, not, ◌&&◌, Option,
  none, some, arith, some_eq, some_eq_iff, if-both, and_iff,
}
use solana_payment_ops.Common.Result.{Result, ok, err}
use solana_payment_ops.Ingestion.Types.{
  FinalityState, IngestionError, ConfirmationStatus, TransactionStatus, CandidateState,
  FinalityCandidate,
}
use solana_payment_ops.Ingestion.Finality.{
  FinalizedTransaction, Fetched, Observation, or_slot, should_test_reversion, candidate_state,
  observe_error, observe_missing, observe_digest, observe_confirmation, observe,
}

-- Long enough without a status: the third time at least, 64 slots after the first time and after
-- the transaction's own slot.
pub record IsLongMissing (candidate : FinalityCandidate) (context_slot : ℕ) : Type 0 where
  pub thrice : 3 ≤ candidate.missing_observation_count + 1
  pub after_first : or_slot candidate.first_missing_finalized_slot context_slot + 64 ≤ context_slot
  pub after_slot : candidate.slot + 64 ≤ context_slot

should_test_reversion_iff :
    (candidate : FinalityCandidate) (context_slot : ℕ)
    → (should_test_reversion candidate context_slot ≡ true) ↔ IsLongMissing candidate context_slot
unfolding should_test_reversion
should_test_reversion_iff candidate context_slot = (
  λ h. record { thrice = ground arith; after_first = ground arith; after_slot = ground arith },
  λ l. ground arith,
)

-- Neither final nor reverted.
abbrev IsUndecided : FinalityState → Type 0
IsUndecided s = (s ≢ FinalityState.finalized) × (s ≢ FinalityState.reverted)

candidate_state-IsUndecided : (c : CandidateState) → IsUndecided (candidate_state c)
candidate_state-IsUndecided CandidateState.detected = (λ e. cc e, λ e. cc e)
candidate_state-IsUndecided CandidateState.confirmed = (λ e. cc e, λ e. cc e)

observe_error-IsUndecided :
    (c : CandidateState) (error : IngestionError) (retry_created : Bool)
    → IsUndecided (observe_error (candidate_state c) error retry_created).next_state
observe_error-IsUndecided c error retry_created =
    if-both (λ (o : Observation). IsUndecided o.next_state) error.retryable _ _
      (λ _. candidate_state-IsUndecided c) (λ _. (λ e. cc e, λ e. cc e))

observe_digest-finalized :
    (c : CandidateState) (confirmed_digest : Option String) (snapshot : String)
    (digest : Result IngestionError String) (retry_created : Bool)
    → (observe_digest (candidate_state c) confirmed_digest snapshot digest retry_created).next_state
      ≡ FinalityState.finalized
    → (d : String) × (digest ≡ ok d) × (confirmed_digest ≡ some d)
observe_digest-finalized c confirmed_digest snapshot (err error) retry_created h =
    absurd ((observe_error-IsUndecided c error retry_created).0 h)
observe_digest-finalized c confirmed_digest snapshot (ok d) retry_created h = (
  d,
  refl,
  if-both
      (λ (o : Observation). o.next_state ≡ FinalityState.finalized → (confirmed_digest ≡ some d))
      (not (some_eq confirmed_digest d)) _ _ (λ _ e. cc e)
      (λ same _. (some_eq_iff confirmed_digest d).0 (ground arith)) h,
)

observe_confirmation-reverted :
    (candidate : FinalityCandidate) (status : Option ConfirmationStatus) (fetched : Fetched)
    (retry_created : Bool)
    → (observe_confirmation candidate status fetched retry_created).next_state
      ≢ FinalityState.reverted
observe_confirmation-reverted candidate none fetched retry_created e =
    (candidate_state-IsUndecided candidate.state).1 e
observe_confirmation-reverted candidate (some ConfirmationStatus.processed) fetched retry_created
      e =
    (candidate_state-IsUndecided candidate.state).1 e
observe_confirmation-reverted candidate (some ConfirmationStatus.confirmed) fetched retry_created
      e =
    cc e
observe_confirmation-reverted candidate (some ConfirmationStatus.finalized) (err error)
      retry_created e =
    (observe_error-IsUndecided candidate.state error retry_created).1 e
observe_confirmation-reverted candidate (some ConfirmationStatus.finalized) (ok none) retry_created
      e =
    (candidate_state-IsUndecided candidate.state).1 e
observe_confirmation-reverted candidate (some ConfirmationStatus.finalized) (ok (some tx))
      retry_created e =
    digest tx.parsing_digest e
  where
    digest :
        (d : Result IngestionError String)
        → (observe_digest
            (candidate_state candidate.state)
            candidate.confirmed_digest
            tx.snapshot
            d
            retry_created).next_state
          ≢ FinalityState.reverted
    digest (err error) q = (observe_error-IsUndecided candidate.state error retry_created).1 q
    digest (ok d) q =
        if-both (λ (o : Observation). o.next_state ≢ FinalityState.reverted)
          (not (some_eq candidate.confirmed_digest d)) _ _ (λ _ r. cc r) (λ _ r. cc r) q

observe_missing-reverted :
    (c : CandidateState) (fetched : Fetched) (retry_created : Bool)
    → (observe_missing (candidate_state c) fetched retry_created).next_state
      ≡ FinalityState.reverted
    → fetched ≡ ok none
observe_missing-reverted c (err error) retry_created e =
    absurd ((observe_error-IsUndecided c error retry_created).1 e)
observe_missing-reverted c (ok none) retry_created e = refl
observe_missing-reverted c (ok (some tx)) retry_created e =
    absurd ((candidate_state-IsUndecided c).1 e)

-- The conditions of a reversion.
abbrev pub MayRevert : FinalityCandidate → ℕ → Option TransactionStatus → Fetched → Type 0
MayRevert candidate context_slot status fetched =
    (status ≡ none)
    × IsLongMissing candidate context_slot
    × (candidate.has_finalized_snapshot ≡ false)
    × (fetched ≡ ok none)

-- A candidate is reverted exactly when its status is missing, for at least the third time, 64 slots
-- or more after the first time it was and after the transaction's own slot, no finalized snapshot of
-- it was ever taken, and the finalized transaction is asked for and is not there.
pub observe-reverted_iff :
    (candidate : FinalityCandidate) (context_slot : ℕ) (status : Option TransactionStatus)
    (fetched : Fetched) (retry_created : Bool)
    → ((observe candidate context_slot status fetched retry_created).next_state
        ≡ FinalityState.reverted)
      ↔ MayRevert candidate context_slot status fetched
unfolding observe
observe-reverted_iff candidate context_slot none fetched retry_created = (
  λ h.
      if-both
        (λ (o : Observation).
          o.next_state ≡ FinalityState.reverted → MayRevert candidate context_slot none fetched)
        (should_test_reversion candidate context_slot && not candidate.has_finalized_snapshot) _ _
        (λ c e.
          let both = (and_iff (should_test_reversion candidate context_slot) _).0 c in
          (
            refl,
            (should_test_reversion_iff candidate context_slot).0 both.0,
            ground arith,
            observe_missing-reverted candidate.state fetched retry_created e,
          ))
        (λ _ e. absurd ((candidate_state-IsUndecided candidate.state).1 e)) h,
  λ (_, long, fresh, absent).
      if-both (λ (o : Observation). o.next_state ≡ FinalityState.reverted)
        (should_test_reversion candidate context_slot && not candidate.has_finalized_snapshot) _ _
        (λ _.
          ap (λ f. (observe_missing (candidate_state candidate.state) f retry_created).next_state)
            absent)
        (λ c. absurd (ground (arith, (should_test_reversion_iff candidate context_slot).1 long))),
)
observe-reverted_iff candidate context_slot (some status) fetched retry_created = (
  λ h. absurd (
      if-both (λ (o : Observation). o.next_state ≢ FinalityState.reverted) status.has_err _ _
        (λ _ e. cc e)
        (λ _.
          observe_confirmation-reverted candidate status.confirmation_status fetched retry_created)
        h),
  λ m. cc (m.0),
)

-- The evidence of finality.
abbrev pub IsFinalEvidence : FinalityCandidate → Option TransactionStatus → Fetched → Type 0
IsFinalEvidence candidate status fetched =
    (seen : TransactionStatus) × (status ≡ some seen)
    × (seen.has_err ≡ false)
    × (seen.confirmation_status ≡ some ConfirmationStatus.finalized)
    × ((tx : FinalizedTransaction) × (digest : String) × (fetched ≡ ok (some tx))
        × (tx.parsing_digest ≡ ok digest)
        × (candidate.confirmed_digest ≡ some digest))

abbrev IsConfirmedFetch : FinalityCandidate → Fetched → Type 0
IsConfirmedFetch candidate fetched =
    (tx : FinalizedTransaction) × (digest : String) × (fetched ≡ ok (some tx))
    × (tx.parsing_digest ≡ ok digest)
    × (candidate.confirmed_digest ≡ some digest)

observe_confirmation-finalized :
    (candidate : FinalityCandidate) (status : Option ConfirmationStatus) (fetched : Fetched)
    (retry_created : Bool)
    → (observe_confirmation candidate status fetched retry_created).next_state
      ≡ FinalityState.finalized
    → (status ≡ some ConfirmationStatus.finalized) × IsConfirmedFetch candidate fetched
observe_confirmation-finalized candidate none fetched retry_created e =
    absurd ((candidate_state-IsUndecided candidate.state).0 e)
observe_confirmation-finalized candidate (some ConfirmationStatus.processed) fetched retry_created
      e =
    absurd ((candidate_state-IsUndecided candidate.state).0 e)
observe_confirmation-finalized candidate (some ConfirmationStatus.confirmed) fetched retry_created
      e =
    cc e
observe_confirmation-finalized candidate (some ConfirmationStatus.finalized) (err error)
      retry_created e =
    absurd ((observe_error-IsUndecided candidate.state error retry_created).0 e)
observe_confirmation-finalized candidate (some ConfirmationStatus.finalized) (ok none) retry_created
      e =
    absurd ((candidate_state-IsUndecided candidate.state).0 e)
observe_confirmation-finalized candidate (some ConfirmationStatus.finalized) (ok (some tx))
      retry_created e =
    let d =
      observe_digest-finalized candidate.state candidate.confirmed_digest tx.snapshot
        tx.parsing_digest retry_created e in
    (refl, (tx, d.0, refl, d.1, d.2))

finalized_fetch :
    (candidate : FinalityCandidate) (status : Option ConfirmationStatus) (fetched : Fetched)
    (retry_created : Bool)
    → status ≡ some ConfirmationStatus.finalized
    → IsConfirmedFetch candidate fetched
    → (observe_confirmation candidate status fetched retry_created).next_state
      ≡ FinalityState.finalized
finalized_fetch candidate status fetched retry_created s (tx, d, f, p, c) =
    ap₂ (λ x y. (observe_confirmation candidate x y retry_created).next_state) s f
    ∙ ap
        (λ x.
          (observe_digest (candidate_state candidate.state) candidate.confirmed_digest tx.snapshot x
            retry_created).next_state)
        p
    ∙ if-both (λ (o : Observation). o.next_state ≡ FinalityState.finalized)
        (not (some_eq candidate.confirmed_digest d)) _ _
        (λ n. absurd (ground (arith, (some_eq_iff candidate.confirmed_digest d).1 c))) (λ _. refl)

-- A candidate is finalized exactly when its status has no error and is finalized, the finalized
-- transaction is fetched and parses, and its parsing digest is the one that was taken when the
-- transaction was confirmed.
pub observe-finalized_iff :
    (candidate : FinalityCandidate) (context_slot : ℕ) (status : Option TransactionStatus)
    (fetched : Fetched) (retry_created : Bool)
    → ((observe candidate context_slot status fetched retry_created).next_state
        ≡ FinalityState.finalized)
      ↔ IsFinalEvidence candidate status fetched
unfolding observe
observe-finalized_iff candidate context_slot none fetched retry_created = (
  λ h. absurd (
      if-both (λ (o : Observation). o.next_state ≢ FinalityState.finalized)
        (should_test_reversion candidate context_slot && not candidate.has_finalized_snapshot) _ _
        (λ _ e. missing fetched e) (λ _ e. (candidate_state-IsUndecided candidate.state).0 e) h),
  λ m. cc (m.1),
)
  where
    missing :
        (f : Fetched)
        → (observe_missing (candidate_state candidate.state) f retry_created).next_state
          ≢ FinalityState.finalized
    missing (err error) e = (observe_error-IsUndecided candidate.state error retry_created).0 e
    missing (ok none) e = cc e
    missing (ok (some tx)) e = (candidate_state-IsUndecided candidate.state).0 e
observe-finalized_iff candidate context_slot (some status) fetched retry_created = (
  λ h.
      if-both
        (λ (o : Observation).
          o.next_state ≡ FinalityState.finalized → IsFinalEvidence candidate (some status) fetched)
        status.has_err _ _ (λ _ e. cc e)
        (λ n e.
          let p =
            observe_confirmation-finalized candidate status.confirmation_status fetched
              retry_created e in
          (status, refl, n, p.0, p.1))
        h,
  λ (seen, same, fine, final, evidence).
      let there : status ≡ seen = cc same in
      if-both (λ (o : Observation). o.next_state ≡ FinalityState.finalized) status.has_err _ _
        (λ bad. absurd (cc (sym bad ∙ ap (λ (s : TransactionStatus). s.has_err) there ∙ fine)))
        (λ _.
          finalized_fetch candidate status.confirmation_status fetched retry_created
            (ap (λ (s : TransactionStatus). s.confirmation_status) there ∙ final) evidence),
)
