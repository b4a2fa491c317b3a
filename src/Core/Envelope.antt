-- ===== src/Core/Envelope.antt =====
-- `validateEnvelope` of packages/core/src/fixtures/schema.ts: the issues that it adds, by message and
-- in its order, without their paths.
pub mod Validated
mod Tests
use solana_payment_ops.Common.{
  ℕ, ◌+◌, Bool, true, false, ◌&&◌, ◌||◌, not, Option, none, some, List, [], ◌∷◌, ◌++◌,
  if◌then◌else◌, ltb, leb, ◌==◌, ◌===◌, some_eq, length, any, get_elem?,
}
use solana_payment_ops.Core.Types.{
  CompiledInstruction, InnerInstructions, TokenBalance, AddressTableLookup, Version, legacy, v0,
  RpcTransactionEnvelope,
}
use solana_payment_ops.Core.AccountKeys.{loaded_writable, loaded_readonly}
use solana_payment_ops.Core.ParseTransaction.{inner_groups}

pub data EnvelopeIssue : Type 0 where
  signature_not_first signature_count signers_not_static readonly_counts : EnvelopeIssue
  loaded_counts legacy_loaded program_out_of_range account_out_of_range : EnvelopeIssue
  parent_repeated parent_missing balance_out_of_range : EnvelopeIssue

-- `if (c) issue(...)`
abbrev pub issue_if : Bool → EnvelopeIssue → List EnvelopeIssue
issue_if true issue = issue ∷ []
issue_if false issue = []

-- The two `reduce`s.
abbrev pub writable_count : List AddressTableLookup → ℕ
writable_count [] = 0
writable_count (l ∷ ls) = length l.writable_indexes + writable_count ls

abbrev pub readonly_count : List AddressTableLookup → ℕ
readonly_count [] = 0
readonly_count (l ∷ ls) = length l.readonly_indexes + readonly_count ls

abbrev pub is_legacy : Version → Bool
is_legacy legacy = true
is_legacy v0 = false

abbrev pub account_issues : ℕ → List ℕ → List EnvelopeIssue
account_issues count [] = []
account_issues count (a ∷ rest) =
    issue_if (leb count a) account_out_of_range ++ account_issues count rest

-- `validateInstruction`
abbrev pub instruction_issues : ℕ → CompiledInstruction → List EnvelopeIssue
instruction_issues count i =
    issue_if (leb count i.program_id_index) program_out_of_range ++ account_issues count i.accounts

abbrev pub instructions_issues : ℕ → List CompiledInstruction → List EnvelopeIssue
instructions_issues count [] = []
instructions_issues count (i ∷ is) = instruction_issues count i ++ instructions_issues count is

-- The loop over the groups; `seen` is the set of parents so far.
abbrev pub group_issues : ℕ → ℕ → List ℕ → List InnerInstructions → List EnvelopeIssue
group_issues count outer seen [] = []
group_issues count outer seen (g ∷ gs) =
    issue_if (any (λ s. s == g.index) seen) parent_repeated
    ++ (issue_if (leb outer g.index) parent_missing
        ++ (instructions_issues count g.instructions
            ++ group_issues count outer (g.index ∷ seen) gs))

abbrev pub balance_issues : ℕ → List TokenBalance → List EnvelopeIssue
balance_issues count [] = []
balance_issues count (b ∷ bs) =
    issue_if (leb count b.account_index) balance_out_of_range ++ balance_issues count bs

-- The tests before the instructions.
abbrev pub header_issues : RpcTransactionEnvelope → List EnvelopeIssue
header_issues tx =
    let header = tx.message.header in
    let keys = length tx.message.account_keys in
    let writable = length (loaded_writable tx.meta.loaded_addresses) in
    let readonly = length (loaded_readonly tx.meta.loaded_addresses) in
    let lookups = tx.message.address_table_lookups in
    issue_if (not (some_eq (get_elem? tx.signatures 0) tx.signature)) signature_not_first
    ++ (issue_if (not (length tx.signatures == header.num_required_signatures)) signature_count
        ++ (issue_if (ltb keys header.num_required_signatures) signers_not_static
            ++ (issue_if
                  (leb header.num_required_signatures header.num_readonly_signed_accounts
                    || ltb keys
                        (header.num_readonly_unsigned_accounts + header.num_required_signatures))
                  readonly_counts
                ++ (issue_if
                      (not (writable_count lookups == writable)
                        || not (readonly_count lookups == readonly))
                      loaded_counts
                    ++ issue_if
                        (is_legacy tx.version
                          && (ltb 0 (length lookups) || (ltb 0 writable || ltb 0 readonly)))
                        legacy_loaded))))

abbrev pub resolved_account_count : RpcTransactionEnvelope → ℕ
resolved_account_count tx =
    length tx.message.account_keys
    + length (loaded_writable tx.meta.loaded_addresses)
    + length (loaded_readonly tx.meta.loaded_addresses)

unfoldable pub validate_envelope : RpcTransactionEnvelope → List EnvelopeIssue
validate_envelope tx =
    let count = resolved_account_count tx in
    header_issues tx
    ++ (instructions_issues count tx.message.instructions
        ++ (group_issues count (length tx.message.instructions) [] (inner_groups tx)
            ++ (balance_issues count tx.meta.pre_token_balances
                ++ balance_issues count tx.meta.post_token_balances)))
