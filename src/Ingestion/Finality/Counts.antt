-- ===== src/Ingestion/Finality/Counts.antt =====
-- The report of the finality engine.
use solana_payment_ops.Common.{
  ℕ, ◌+◌, ◌≡◌, refl, sym, ◌∙◌, ap, Bool, true, false, not, ◌||◌, Option, none, List, [], ◌∷◌, arith,
  length, ltb, ◌==◌, if◌then◌else◌,
}
use solana_payment_ops.Common.Result.{Result, ok, err, if-else-eq-ok}
use solana_payment_ops.Ingestion.Types.{
  FinalityState, IngestionError, TransactionStatus, FinalityCandidate, FinalityReport,
}
use solana_payment_ops.Ingestion.Finality.{
  Answers, observe, count_state, count_result, refresh_one, refresh_all, empty_report,
  refresh_answered, refresh,
}

abbrev pub outcome_count : FinalityReport → ℕ
outcome_count r =
    r.finalized_count + r.failed_count + r.reverted_count + r.deferred_count + r.quarantined_count

-- An outcome is counted once, and nothing else of the two changes.
abbrev AddsOne : FinalityReport → FinalityReport → Type 0
AddsOne r s =
    (outcome_count s ≡ outcome_count r + 1) × (s.observations_checked ≡ r.observations_checked)

count_state-AddsOne : (r : FinalityReport) (s : FinalityState) → AddsOne r (count_state r s)
count_state-AddsOne r FinalityState.detected = (omega arith, refl)
count_state-AddsOne r FinalityState.confirmed = (omega arith, refl)
count_state-AddsOne r FinalityState.finalized = (omega arith, refl)
count_state-AddsOne r FinalityState.failed = (omega arith, refl)
count_state-AddsOne r FinalityState.reverted = (omega arith, refl)
count_state-AddsOne r FinalityState.quarantined = (omega arith, refl)

count_result-AddsOne :
    (r : FinalityReport) (result : Bool × FinalityState) → AddsOne r (count_result r result)
count_result-AddsOne r (false, state) = (omega arith, refl)
count_result-AddsOne r (true, state) = count_state-AddsOne r state

refresh_all-counts :
    (context_slot : ℕ) (r : FinalityReport) (cs : List (FinalityCandidate × Answers))
    (statuses : List (Option TransactionStatus))
    → (outcome_count (refresh_all context_slot r cs statuses) ≡ outcome_count r + length cs)
      × ((refresh_all context_slot r cs statuses).observations_checked ≡ r.observations_checked)
refresh_all-counts context_slot r [] statuses = (omega arith, refl)
refresh_all-counts context_slot r ((c, a) ∷ cs) [] =
    let one =
      count_result-AddsOne
        (record r {
          retries_created =
              r.retries_created + (observe c context_slot none a.fetched a.retry_created).created;
        })
        (a.record_observation (observe c context_slot none a.fetched a.retry_created)) in
    let rest = refresh_all-counts context_slot (refresh_one context_slot r (c, a) none) cs [] in
    (omega (arith, rest.0, one.0), rest.1 ∙ one.1)
refresh_all-counts context_slot r ((c, a) ∷ cs) (s ∷ ss) =
    let one =
      count_result-AddsOne
        (record r {
          retries_created =
              r.retries_created + (observe c context_slot s a.fetched a.retry_created).created;
        })
        (a.record_observation (observe c context_slot s a.fetched a.retry_created)) in
    let rest = refresh_all-counts context_slot (refresh_one context_slot r (c, a) s) cs ss in
    (omega (arith, rest.0, one.0), rest.1 ∙ one.1)

refresh_answered-counts :
    (cs : List (FinalityCandidate × Answers))
    (answered : Result IngestionError (ℕ × List (Option TransactionStatus))) (r : FinalityReport)
    → refresh_answered cs answered ≡ ok r
    → (r.observations_checked ≡ length cs) × (outcome_count r ≡ length cs)
refresh_answered-counts cs (err e) r h = cc h
refresh_answered-counts cs (ok (slot, statuses)) r h =
    let p = if-else-eq-ok (not (length statuses == length cs)) _ _ h in
    let same : refresh_all slot (empty_report (length cs)) cs statuses ≡ r = cc p.1 in
    let c = refresh_all-counts slot (empty_report (length cs)) cs statuses in
    (
      ap (λ (x : FinalityReport). x.observations_checked) (sym same) ∙ c.1,
      ap outcome_count (sym same) ∙ omega (arith, c.0),
    )

-- A refresh that returns reports on every candidate that it claimed exactly once: as finalized,
-- failed, reverted, quarantined or deferred, whatever the network and the store answered.
pub refresh-counts :
    (limit : ℕ) (cs : List (FinalityCandidate × Answers))
    (answered : Result IngestionError (ℕ × List (Option TransactionStatus))) (r : FinalityReport)
    → refresh limit cs answered ≡ ok r
    → (r.observations_checked ≡ length cs) × (outcome_count r ≡ length cs)
unfolding refresh
refresh-counts limit cs answered r h =
    let p = if-else-eq-ok (ltb limit 1 || ltb 256 limit) _ _ h in claimed cs p.1
  where
    claimed :
        (cs : List (FinalityCandidate × Answers))
        → (if length cs == 0 then ok (empty_report 0) else refresh_answered cs answered) ≡ ok r
        → (r.observations_checked ≡ length cs) × (outcome_count r ≡ length cs)
    claimed [] e =
        let same : empty_report 0 ≡ r = cc e in
        (
          ap (λ (x : FinalityReport). x.observations_checked) (sym same),
          ap outcome_count (sym same),
        )
    claimed (c ∷ cs) e = refresh_answered-counts (c ∷ cs) answered r (ground arith)
