-- ===== src/Core/ParseTransaction/Evidence.antt =====
-- The token balances of the transaction bear out every transfer that a parse returns.
use solana_payment_ops.Common.{
  ℕ, ◌≡◌, ap, sym, subst, ◌⊎◌, inl, inr, String, true, Option, some, List, [], ◌∷◌, arith, All,
  All-mono, All-of_forall, All-of_filter, all→All, ===_iff, some_eq_iff, all,
}
use solana_payment_ops.Common.Result.{ok, if-eq-ok}
use solana_payment_ops.Core.Types.{
  ResolvedAccountKey, RpcTransactionEnvelope, ParsedTransfer, TokenBalance,
  legacy_token_program_address,
}
use solana_payment_ops.Core.AccountKeys.{resolve_account_keys}
use solana_payment_ops.Core.ParseTransaction.{
  AssetEvidence, all_balances, relevant_balances, concerns, agrees, evidence_of,
  resolve_asset_evidence, parsed_transfer, parse_transaction_transfers,
  collect_instruction_locations,
}
use solana_payment_ops.Core.ParseTransaction.Coordinates.{parse_locations-All}

-- A balance entry shows the asset, under the legacy token program.
pub record Shows (asset_mint : String) (asset_decimals : ℕ) (b : TokenBalance) : Type 0 where
  pub mint : b.mint ≡ asset_mint
  pub decimals : b.decimals ≡ asset_decimals
  pub program : b.program_id ≡ some legacy_token_program_address

-- Each entry for the source or the destination shows the transfer's asset.
abbrev pub BearsOut : String → ℕ → ℕ → ℕ → List TokenBalance → Type 0
BearsOut mint decimals source destination =
    All (λ b. (b.account_index ≡ source) ⊎ (b.account_index ≡ destination) → Shows mint decimals b)

agrees-Shows :
    (mint : String) (decimals : ℕ) (b : TokenBalance)
    → agrees mint decimals b ≡ true
    → Shows mint decimals b
agrees-Shows mint decimals b h =
    ground (arith, ===_iff b.mint mint, some_eq_iff b.program_id legacy_token_program_address)

evidence_of-agrees :
    (first balances : List TokenBalance) (asset : AssetEvidence)
    → evidence_of first balances ≡ ok asset
    → all (agrees asset.mint asset.decimals) balances ≡ true
unfolding evidence_of
evidence_of-agrees [] balances asset h = cc
evidence_of-agrees (b ∷ bs) balances asset h =
    let (tested, same) = if-eq-ok (all (agrees b.mint b.decimals) balances) _ _ h in
    subst (λ (a : AssetEvidence). all (agrees a.mint a.decimals) balances ≡ true) (cc same) tested

resolve_asset_evidence-agrees :
    (tx : RpcTransactionEnvelope) (source destination : ℕ) (asset : AssetEvidence)
    → resolve_asset_evidence tx source destination ≡ ok asset
    → all (agrees asset.mint asset.decimals) (relevant_balances tx source destination) ≡ true
unfolding resolve_asset_evidence
resolve_asset_evidence-agrees tx source destination asset h =
    let (_, found) = if-eq-ok _ _ _ h in
    evidence_of-agrees (relevant_balances tx source destination)
      (relevant_balances tx source destination) asset found

concerned :
    (source destination : ℕ) (b : TokenBalance)
    → (b.account_index ≡ source) ⊎ (b.account_index ≡ destination)
    → concerns source destination b ≡ true
concerned source destination b h = ground arith

-- Either way in which a transfer's asset is confirmed leaves no entry that differs.
confirmed-BearsOut :
    (tx : RpcTransactionEnvelope) (source destination : ℕ) (asset : AssetEvidence)
    → (relevant_balances tx source destination ≡ [])
      ⊎ (resolve_asset_evidence tx source destination ≡ ok asset)
    → BearsOut asset.mint asset.decimals source destination (all_balances tx)
confirmed-BearsOut tx source destination asset h =
    All-mono _
      (λ b shown at.
        agrees-Shows asset.mint asset.decimals b (shown (concerned source destination b at)))
      (all_balances tx)
      (All-of_filter (λ b. agrees asset.mint asset.decimals b ≡ true) (concerns source destination)
        (all_balances tx) (all_agree h))
  where
    all_agree :
        (relevant_balances tx source destination ≡ [])
          ⊎ (resolve_asset_evidence tx source destination ≡ ok asset)
        → All
            (λ b. agrees asset.mint asset.decimals b ≡ true)
            (relevant_balances tx source destination)
    all_agree (inl no_balance) =
        subst (All (λ b. agrees asset.mint asset.decimals b ≡ true)) (sym no_balance) tt
    all_agree (inr resolved) =
        all→All _ _ (resolve_asset_evidence-agrees tx source destination asset resolved)

-- Every transfer that a parse returns is one of the legacy token program, carries the signature and
-- slot of the transaction, and every token balance that the transaction lists before or after for
-- the source or the destination account shows the transfer's mint and decimals under that program.
pub parse_transaction_transfers-BearsOut :
    (decode : String → Option (List ℕ)) (tx : RpcTransactionEnvelope) (watched : Option String)
    {ts : List ParsedTransfer}
    → parse_transaction_transfers decode tx watched ≡ ok ts
    → All
        (λ t.
          (t.program_id ≡ legacy_token_program_address)
          × (t.signature ≡ tx.signature)
          × (t.slot ≡ tx.slot)
          × BearsOut t.mint t.decimals t.source_account_index t.destination_account_index
              (all_balances tx))
        ts
unfolding parse_transaction_transfers parsed_transfer
parse_transaction_transfers-BearsOut decode tx watched h =
    parse_locations-All decode tx watched keys _ (λ _. Unit {0})
      (λ l t _ of. (
        ap (λ u. u.program_id) of.built,
        ap (λ u. u.signature) of.built,
        ap (λ u. u.slot) of.built,
        subst
            (λ u.
              BearsOut u.mint u.decimals u.source_account_index u.destination_account_index
                (all_balances tx))
            (sym of.built)
            (confirmed-BearsOut tx of.source.0 of.destination.0 of.asset of.evidence),
      ))
      (collect_instruction_locations tx)
      (All-of_forall (λ _. Unit {0}) (λ _. tt) (collect_instruction_locations tx)) h
  where
    keys : List ResolvedAccountKey
    keys = resolve_account_keys tx.message tx.meta.loaded_addresses
