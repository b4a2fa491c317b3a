-- ===== src/Core/Envelope/Validated.antt =====
-- What an envelope without issues is.
use solana_payment_ops.Common.{
  ℕ, ◌<◌, ◌≡◌, ◌≢◌, refl, Bool, true, false, Option, List, [], ◌∷◌, ◌++◌, arith, leb, ◌==◌, ==_iff,
  length, any, All, All-mono, Pairwise,
}
use solana_payment_ops.Common.Result.{ok}
use solana_payment_ops.Core.Types.{InnerInstructions, RpcTransactionEnvelope, ParsedTransfer}
use solana_payment_ops.Common.{String}
use solana_payment_ops.Core.ParseTransaction.{inner_groups, parse_transaction_transfers}
use solana_payment_ops.Core.ParseTransaction.Coordinates.{
  HasDistinctParents, parse_transaction_transfers-event_ids,
}
use solana_payment_ops.Core.Envelope.{
  EnvelopeIssue, issue_if, parent_repeated, parent_missing, instructions_issues, group_issues,
  header_issues, resolved_account_count, validate_envelope,
}

no_issue_left : (xs ys : List EnvelopeIssue) → xs ++ ys ≡ [] → xs ≡ []
no_issue_left [] ys h = refl
no_issue_left (x ∷ xs) ys h = cc h

no_issue_right : (xs : List EnvelopeIssue) {ys : List EnvelopeIssue} → xs ++ ys ≡ [] → ys ≡ []
no_issue_right [] h = h
no_issue_right (x ∷ xs) h = cc h

no_issue-false : (c : Bool) (issue : EnvelopeIssue) → issue_if c issue ≡ [] → c ≡ false
no_issue-false true issue h = cc h
no_issue-false false issue h = refl

any-false : (n : ℕ) (seen : List ℕ) → any (λ s. s == n) seen ≡ false → All (λ s. s ≢ n) seen
any-false n [] h = tt
any-false n (s ∷ seen) h = (λ e. ground (arith, ==_iff s n), any-false n seen (ground arith))

-- Each group's parent is an outer instruction and none of those seen, nor of the groups before.
group_issues-distinct :
    (count outer : ℕ) (seen : List ℕ) (gs : List InnerInstructions)
    → group_issues count outer seen gs ≡ []
    → HasDistinctParents gs × All (λ g. (g.index < outer) × All (λ s. s ≢ g.index) seen) gs
group_issues-distinct count outer seen [] h = (tt, tt)
group_issues-distinct count outer seen (g ∷ gs) h =
    let repeated = issue_if (any (λ s. s == g.index) seen) parent_repeated in
    let missing = issue_if (leb outer g.index) parent_missing in
    let inner = instructions_issues count g.instructions in
    let after = no_issue_right repeated h in
    let rest =
      group_issues-distinct count outer (g.index ∷ seen) gs
        (no_issue_right inner (no_issue_right missing after)) in
    let low = no_issue-false (leb outer g.index) _ (no_issue_left missing _ after) in
    let fresh = no_issue-false (any (λ s. s == g.index) seen) _ (no_issue_left repeated _ h) in
    (
      (All-mono _ (λ k p. p.1.0) gs rest.1, rest.0),
      ((ground arith, any-false g.index seen fresh), All-mono _ (λ k p. (p.0, p.1.1)) gs rest.1),
    )

-- Where the validation of an envelope finds no issue, its groups of inner instructions belong to
-- distinct outer instructions that exist, and no two transfers that a parse of it returns have the
-- same event identifier.
pub validate_envelope-event_ids :
    (decode : String → Option (List ℕ)) (tx : RpcTransactionEnvelope) (watched : Option String)
    {ts : List ParsedTransfer}
    → validate_envelope tx ≡ []
    → parse_transaction_transfers decode tx watched ≡ ok ts
    → HasDistinctParents (inner_groups tx)
      × All (λ g. g.index < length tx.message.instructions) (inner_groups tx)
      × Pairwise (λ s t. s.event_id ≢ t.event_id) ts
unfolding validate_envelope
validate_envelope-event_ids decode tx watched valid h =
    let count = resolved_account_count tx in
    let groups = group_issues-distinct count (length tx.message.instructions) [] (inner_groups tx) (
      no_issue_left (group_issues count (length tx.message.instructions) [] (inner_groups tx)) _ (
        no_issue_right (instructions_issues count tx.message.instructions)
          (no_issue_right (header_issues tx) valid))) in
    (
      groups.0,
      All-mono _ (λ g p. p.0) (inner_groups tx) groups.1,
      parse_transaction_transfers-event_ids decode tx watched groups.0 h,
    )
