-- ===== src/Core/ParseTransaction/Inversion.antt =====
-- What has been established when the callback of parse-transaction.ts returns a transfer.
use solana_payment_ops.Common.{
  ℕ, ◌≡◌, refl, ap₂, ◌∙◌, subst, ◌⊎◌, inl, inr, String, Bool, true, false, Option, none, some, List,
  [], ◌∷◌, arith, Option-cases, get_elem?, ◌===◌, ===_iff, if◌then◌else◌,
}
use solana_payment_ops.Common.Result.{Result, ok, err, >>=-eq-ok, or_throw}
use solana_payment_ops.Core.Types.{
  ResolvedAccountKey, RpcTransactionEnvelope, ParsedTransfer, TokenBalance,
  legacy_token_program_address, token_2022_program_address,
}
use solana_payment_ops.Core.TokenInstruction.{
  TokenInstructionDecode, transfer, transfer_checked, unsupported, malformed,
  decode_token_instruction,
}
use solana_payment_ops.Core.ParseTransaction.{
  InstructionLocation, EvidenceError, token_2022_unsupported, checked_accounts_incomplete,
  legacy_accounts_incomplete, accounts_incomplete, AssetEvidence, Positions, checked_positions,
  legacy_positions, parse_location, parse_decoded, parse_checked, parse_legacy, reject, account_at,
  relevant_balances, resolve_asset_evidence, confirm_asset, checked_evidence, parsed_transfer,
  affects,
}

or_throw-eq-ok {ℓ} :
    {A : Type ℓ} (o : Option A) (e : EvidenceError) {a : A} → or_throw o e ≡ ok a → o ≡ some a
or_throw-eq-ok none e h = cc
or_throw-eq-ok (some b) e h = cc

confirm_asset-agrees :
    (balances : List TokenBalance) (r : Result EvidenceError AssetEvidence) (asset : AssetEvidence)
    (u : Unit {0})
    → confirm_asset balances r asset ≡ ok u
    → (balances ≡ []) ⊎ (r ≡ ok asset)
unfolding confirm_asset
confirm_asset-agrees [] r asset u h = inl refl
confirm_asset-agrees (b ∷ bs) (err e) asset u h = cc
confirm_asset-agrees (b ∷ bs) (ok found) asset u h =
    inr (ground (arith, ===_iff found.mint asset.mint))

checked_evidence-agrees :
    (tx : RpcTransactionEnvelope) (source destination : ℕ) (asset : AssetEvidence) (u : Unit {0})
    → checked_evidence tx source destination asset ≡ ok u
    → (relevant_balances tx source destination ≡ [])
      ⊎ (resolve_asset_evidence tx source destination ≡ ok asset)
unfolding checked_evidence
checked_evidence-agrees tx source destination asset u h =
    confirm_asset-agrees (relevant_balances tx source destination)
      (resolve_asset_evidence tx source destination) asset u h

module _ (tx : RpcTransactionEnvelope) (keys : List ResolvedAccountKey)
    (location : InstructionLocation) (program : String) where
  -- A transfer of this instruction, whose asset the balances of its two accounts bear out.
  pub record IsTransferOf (t : ParsedTransfer) : Type 0 where
    pub positions : Positions
    pub asset : AssetEvidence
    pub amount : ℕ
    pub source : ℕ × ResolvedAccountKey
    pub destination : ℕ × ResolvedAccountKey
    pub authority : ResolvedAccountKey
    pub built :
        t
        ≡ parsed_transfer tx keys location program positions asset amount source destination
            authority
    pub evidence :
        (relevant_balances tx source.0 destination.0 ≡ [])
        ⊎ (resolve_asset_evidence tx source.0 destination.0 ≡ ok asset)

  abbrev pub One : List ParsedTransfer → Type 0
  One ts = (t : ParsedTransfer) × (ts ≡ t ∷ []) × IsTransferOf t

  pub parse_checked-One :
      (amount decimals : ℕ) {ts : List ParsedTransfer}
      → parse_checked tx keys location program amount decimals ≡ ok ts
      → One ts
  unfolding parse_checked
  parse_checked-One amount decimals h =
      let (mint, e₁, r₁) =
        >>=-eq-ok (or_throw (account_at keys location.instruction 1) checked_accounts_incomplete) _
          h in
      let (source, e₂, r₂) =
        >>=-eq-ok (or_throw (account_at keys location.instruction 0) accounts_incomplete) _ r₁ in
      let (destination, e₃, r₃) =
        >>=-eq-ok (or_throw (account_at keys location.instruction 2) accounts_incomplete) _ r₂ in
      let (authority, e₄, r₄) =
        >>=-eq-ok (or_throw (account_at keys location.instruction 3) accounts_incomplete) _ r₃ in
      let asset : AssetEvidence = record { mint = mint.1.address; decimals = decimals } in
      let (u, e₅, r₅) = >>=-eq-ok (checked_evidence tx source.0 destination.0 asset) _ r₄ in
      (
        _,
        cc r₅,
        record {
          positions = checked_positions;
          asset = asset;
          amount = amount;
          source = source;
          destination = destination;
          authority = authority.1;
          built = refl;
          evidence = checked_evidence-agrees tx source.0 destination.0 asset u e₅;
        },
      )

  account_at-index :
      (position index : ℕ) (found : ℕ × ResolvedAccountKey)
      → get_elem? location.instruction.accounts position ≡ some index
      → account_at keys location.instruction position ≡ some found
      → found.0 ≡ index
  unfolding account_at
  account_at-index position index found e h = ground arith

  pub parse_legacy-One :
      (amount : ℕ) {ts : List ParsedTransfer}
      → parse_legacy tx keys location program amount ≡ ok ts
      → One ts
  unfolding parse_legacy
  parse_legacy-One amount h =
      let (i, e₁, r₁) =
        >>=-eq-ok (or_throw (get_elem? location.instruction.accounts 0) legacy_accounts_incomplete)
          _ h in
      let (j, e₂, r₂) =
        >>=-eq-ok (or_throw (get_elem? location.instruction.accounts 1) legacy_accounts_incomplete)
          _ r₁ in
      let (asset, e₃, r₃) = >>=-eq-ok (resolve_asset_evidence tx i j) _ r₂ in
      let (source, e₄, r₄) =
        >>=-eq-ok (or_throw (account_at keys location.instruction 0) accounts_incomplete) _ r₃ in
      let (destination, e₅, r₅) =
        >>=-eq-ok (or_throw (account_at keys location.instruction 1) accounts_incomplete) _ r₄ in
      let (authority, e₆, r₆) =
        >>=-eq-ok (or_throw (account_at keys location.instruction 2) accounts_incomplete) _ r₅ in
      let same_source : source.0 ≡ i =
        account_at-index 0 i source (or_throw-eq-ok _ _ e₁) (or_throw-eq-ok _ _ e₄) in
      let same_destination : destination.0 ≡ j =
        account_at-index 1 j destination (or_throw-eq-ok _ _ e₂) (or_throw-eq-ok _ _ e₅) in
      (
        _,
        cc r₆,
        record {
          positions = legacy_positions;
          asset = asset;
          amount = amount;
          source = source;
          destination = destination;
          authority = authority.1;
          built = refl;
          evidence = inr (ap₂ (resolve_asset_evidence tx) same_source same_destination ∙ e₃);
        },
      )

  pub reject-none :
      (affected : Bool) (e : EvidenceError) {ts : List ParsedTransfer}
      → reject affected e ≡ ok ts
      → (affected ≡ false) × (ts ≡ [])
  unfolding reject
  reject-none affected e h = ground arith

  parse_decoded-One :
      (affected : Bool) (d : TokenInstructionDecode) {ts : List ParsedTransfer}
      → parse_decoded tx keys location program affected d ≡ ok ts
      → (ts ≡ []) ⊎ One ts
  unfolding parse_decoded
  parse_decoded-One affected (unsupported n) h = inl (reject-none affected _ h).1
  parse_decoded-One affected (malformed n) h = inl (reject-none affected _ h).1
  parse_decoded-One affected (transfer amount) h = inr (parse_legacy-One amount h)
  parse_decoded-One affected (transfer_checked amount decimals) h =
      inr (parse_checked-One amount decimals h)

  -- The tests on the program, as truth values.
  by_program-One :
      (affected token_2022 legacy : Bool) (e : EvidenceError) (d : TokenInstructionDecode)
      {ts : List ParsedTransfer}
      → (if token_2022
          then reject affected e
          else if legacy
          then parse_decoded tx keys location program affected d
          else ok [])
        ≡ ok ts
      → (ts ≡ []) ⊎ ((legacy ≡ true) × ((t : ParsedTransfer) × (ts ≡ t ∷ []) × IsTransferOf t))
  by_program-One affected true legacy e d h = inl (reject-none affected e h).1
  by_program-One affected false true e d h = elim (parse_decoded-One affected d h) [
    | inl none_left ↦ inl none_left
    | inr one ↦ inr (refl, one)
  ]
  by_program-One affected false false e d h = inl (cc h)

module _ (decode : String → Option (List ℕ)) (tx : RpcTransactionEnvelope) (watched : Option String)
    (keys : List ResolvedAccountKey) (location : InstructionLocation) where
  -- An instruction yields nothing, or one transfer of the legacy token program.
  pub parse_location-One :
      {ts : List ParsedTransfer}
      → parse_location decode tx watched keys location ≡ ok ts
      → (ts ≡ [])
        ⊎ ((t : ParsedTransfer) × (ts ≡ t ∷ [])
            × IsTransferOf tx keys location legacy_token_program_address t)
  unfolding parse_location
  parse_location-One h =
      elim (Option-cases (get_elem? keys location.instruction.program_id_index)) [
        | inl missing ↦ inl (cc (rw (missing, parse_location) at h))
        | inr (key, found) ↦
            elim (by_program-One tx keys location key.address
              (affects keys watched location.instruction)
              (key.address === token_2022_program_address)
              (key.address === legacy_token_program_address) token_2022_unsupported
              (decode_token_instruction decode location.instruction.instruction_data)
              (rw (found, parse_location) at h)) [
                | inl none_left ↦ inl none_left
                | inr (legacy, (t, same, of)) ↦ inr (
                  t,
                  same,
                  subst (λ p. IsTransferOf tx keys location p t)
                      ((===_iff key.address legacy_token_program_address).0 legacy) of,
                )
              ]
      ]
