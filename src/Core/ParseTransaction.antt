-- ===== src/Core/ParseTransaction.antt =====
-- packages/core/src/solana/parse-transaction.ts. `decode` is `bs58.decode` of the package bs58. The
-- watched address is `none` where the caller gives none. An index past an array's end reads
-- `undefined`, and so does a key there.
mod Tests
pub mod Event
pub mod Inversion
pub mod Coordinates
pub mod Evidence
pub mod Watched
use solana_payment_ops.Common.{
  ℕ, suc, ◌+◌, String, Bool, true, false, not, ◌&&◌, ◌||◌, Option, none, some, List, [], ◌∷◌, ◌++◌,
  if◌then◌else◌, ◌==◌, ◌===◌, some_eq, length, get_elem?, drop, filter, any, all, ltb,
}
use solana_payment_ops.Common.Result.{Result, ok, err, ◌>>=◌, ◌>>◌, throw_if, or_throw}
use solana_payment_ops.Common.Decimal.{Text, format, codes}
use solana_payment_ops.Core.Types.{
  Cluster, ResolvedAccountKey, CompiledInstruction, InnerInstructions, TokenBalance, Message,
  RpcTransactionEnvelope, ParsedTransfer, legacy_token_program_address, token_2022_program_address,
}
use solana_payment_ops.Core.AccountKeys.{resolve_account_keys}
use solana_payment_ops.Core.TokenInstruction.{
  TokenInstructionDecode, transfer, transfer_checked, unsupported, malformed,
  decode_token_instruction,
}

pub record InstructionLocation : Type 0 where
  pub instruction : CompiledInstruction
  pub outer_instruction_index : ℕ
  pub inner_instruction_index : Option ℕ

pub record AssetEvidence : Type 0 where
  pub mint : String
  pub decimals : ℕ

-- `UnsupportedTransferEvidenceError`, by its message.
pub data EvidenceError : Type 0 where
  legacy_balances_incomplete legacy_balances_contradictory token_2022_unsupported : EvidenceError
  instruction_unsupported instruction_malformed checked_accounts_incomplete : EvidenceError
  legacy_accounts_incomplete accounts_incomplete checked_balances_contradictory : EvidenceError

abbrev pub all_balances : RpcTransactionEnvelope → List TokenBalance
all_balances tx = tx.meta.pre_token_balances ++ tx.meta.post_token_balances

abbrev pub concerns : ℕ → ℕ → TokenBalance → Bool
concerns source destination b = b.account_index == source || b.account_index == destination

-- The balances that bear on two accounts.
abbrev pub relevant_balances : RpcTransactionEnvelope → ℕ → ℕ → List TokenBalance
relevant_balances tx source destination = filter (concerns source destination) (all_balances tx)

abbrev pub agrees : String → ℕ → TokenBalance → Bool
agrees mint decimals b =
    b.mint === mint && (b.decimals == decimals && some_eq b.program_id legacy_token_program_address)

evidence_of : List TokenBalance → List TokenBalance → Result EvidenceError AssetEvidence
evidence_of [] balances = err legacy_balances_incomplete
evidence_of (first ∷ _) balances =
    if all (agrees first.mint first.decimals) balances
    then ok (record { mint = first.mint; decimals = first.decimals })
    else err legacy_balances_contradictory

pub resolve_asset_evidence : RpcTransactionEnvelope → ℕ → ℕ → Result EvidenceError AssetEvidence
unfolding evidence_of
resolve_asset_evidence tx source destination =
    let balances = relevant_balances tx source destination in
    if any (λ b. b.account_index == source) balances
      && any (λ b. b.account_index == destination) balances
    then evidence_of balances balances
    else err legacy_balances_incomplete

outer_locations : ℕ → List CompiledInstruction → List InstructionLocation
outer_locations index [] = []
outer_locations index (i ∷ is) =
    record { instruction = i; outer_instruction_index = index; inner_instruction_index = none }
    ∷ outer_locations (index + 1) is

inner_locations : ℕ → ℕ → List CompiledInstruction → List InstructionLocation
inner_locations parent index [] = []
inner_locations parent index (i ∷ is) =
    record {
      instruction = i;
      outer_instruction_index = parent;
      inner_instruction_index = some index;
    }
    ∷ inner_locations parent (index + 1) is

group_locations : List InnerInstructions → List InstructionLocation
unfolding inner_locations
group_locations [] = []
group_locations (g ∷ gs) = inner_locations g.index 0 g.instructions ++ group_locations gs

-- `transaction.meta.innerInstructions ?? []`
abbrev pub inner_groups : RpcTransactionEnvelope → List InnerInstructions
inner_groups tx = elim tx.meta.inner_instructions [ none ↦ [] | some groups ↦ groups ]

pub collect_instruction_locations : RpcTransactionEnvelope → List InstructionLocation
unfolding outer_locations group_locations
collect_instruction_locations tx =
    outer_locations 0 tx.message.instructions ++ group_locations (inner_groups tx)

abbrev pub cluster_text : Cluster → String
cluster_text Cluster.mainnet_beta = "mainnet-beta"
cluster_text Cluster.devnet = "devnet"
cluster_text Cluster.localnet = "localnet"

-- `innerPart`
abbrev pub inner_part : Option ℕ → Text
inner_part none = codes "outer"
inner_part (some index) = format index

pub event_id_text : Cluster → String → ℕ → Option ℕ → Text
event_id_text cluster signature outer inner =
    codes (cluster_text cluster)
    ++ (b':' ∷ (codes signature ++ (b':' ∷ (format outer ++ (b':' ∷ inner_part inner)))))

abbrev pub address_is : Option ResolvedAccountKey → String → Bool
address_is none address = false
address_is (some key) address = key.address === address

-- `affectsWatchedAddress`
pub affects : List ResolvedAccountKey → Option String → CompiledInstruction → Bool
affects keys none instruction = true
affects keys (some watched) instruction =
    any (λ index. address_is (get_elem? keys index) watched) instruction.accounts

-- `if (!affectsWatchedAddress) return []; throw …`
pub reject : Bool → EvidenceError → Result EvidenceError (List ParsedTransfer)
reject affected error = if affected then err error else ok []

-- The kind of transfer, with what each kind fixes: positions in the account list.
pub record Positions : Type 0 where
  pub source : ℕ
  pub destination : ℕ
  pub authority : ℕ
  pub extras_start : ℕ

abbrev pub checked_positions : Positions
checked_positions = record { source = 0; destination = 2; authority = 3; extras_start = 4 }

abbrev pub legacy_positions : Positions
legacy_positions = record { source = 0; destination = 1; authority = 2; extras_start = 3 }

-- `accountKeys[instruction.accounts[position]]`, with the index.
account_at : List ResolvedAccountKey → CompiledInstruction → ℕ → Option (ℕ × ResolvedAccountKey)
account_at keys instruction position = elim (get_elem? instruction.accounts position) [
  | none ↦ none
  | some index ↦ elim (get_elem? keys index) [ none ↦ none | some key ↦ some (index, key) ]
]

-- The extra accounts that are read-only and do not sign, by address.
reference_accounts : List ResolvedAccountKey → List ℕ → List String
reference_accounts keys [] = []
reference_accounts keys (index ∷ rest) =
    let others = reference_accounts keys rest in
    elim (get_elem? keys index) [
      | none ↦ others
      | some key ↦ if key.signer || key.writable then others else key.address ∷ others
    ]

unsupported_accounts : List ResolvedAccountKey → List ℕ → List String
unsupported_accounts keys [] = []
unsupported_accounts keys (index ∷ rest) =
    let others = unsupported_accounts keys rest in
    elim (get_elem? keys index) [
      | none ↦ "unresolved" ∷ others
      | some key ↦ if key.signer || key.writable then key.address ∷ others else others
    ]

-- The balances must bear out a `TransferChecked`, where there are any.
confirm_asset :
    List TokenBalance
    → Result EvidenceError AssetEvidence
    → AssetEvidence
    → Result EvidenceError (Unit {0})
confirm_asset [] resolved asset = ok tt
confirm_asset (_ ∷ _) resolved asset = do
  evidence ← resolved
  throw_if (not (evidence.mint === asset.mint && evidence.decimals == asset.decimals))
      checked_balances_contradictory

checked_evidence : RpcTransactionEnvelope → ℕ → ℕ → AssetEvidence → Result EvidenceError (Unit {0})
unfolding confirm_asset
checked_evidence tx source destination asset =
    confirm_asset (relevant_balances tx source destination)
      (resolve_asset_evidence tx source destination) asset

module _ (tx : RpcTransactionEnvelope) (keys : List ResolvedAccountKey)
    (location : InstructionLocation) (program : String) where
  open location use {instruction, outer_instruction_index, inner_instruction_index}

  -- The last part of the callback: the record that it returns.
  pub parsed_transfer :
      Positions
      → AssetEvidence
      → ℕ
      → ℕ × ResolvedAccountKey
      → ℕ × ResolvedAccountKey
      → ResolvedAccountKey
      → ParsedTransfer
  unfolding reference_accounts unsupported_accounts event_id_text
  parsed_transfer positions asset amount (source, source_key) (destination, destination_key)
        authority_key =
      let extras = drop positions.extras_start instruction.accounts in
      record {
        event_id =
            event_id_text tx.cluster tx.signature outer_instruction_index inner_instruction_index;
        signature = tx.signature;
        slot = tx.slot;
        outer_instruction_index = outer_instruction_index;
        inner_instruction_index = inner_instruction_index;
        program_id = program;
        source_token_account = source_key.address;
        source_account_index = source;
        mint = asset.mint;
        destination_token_account = destination_key.address;
        destination_account_index = destination;
        authority = authority_key.address;
        amount_base_units = amount;
        decimals = asset.decimals;
        references = reference_accounts keys extras;
        unsupported_extra_accounts = unsupported_accounts keys extras;
      }

  pub parse_checked : ℕ → ℕ → Result EvidenceError (List ParsedTransfer)
  unfolding account_at checked_evidence resolve_asset_evidence parsed_transfer
  parse_checked amount decimals = do
    (_, mint_key) ← or_throw (account_at keys instruction 1) checked_accounts_incomplete
    source ← or_throw (account_at keys instruction checked_positions.source) accounts_incomplete
    destination ←
        or_throw (account_at keys instruction checked_positions.destination) accounts_incomplete
    (_, authority_key) ←
        or_throw (account_at keys instruction checked_positions.authority) accounts_incomplete
    let asset : AssetEvidence = record { mint = mint_key.address; decimals = decimals }
    checked_evidence tx source.0 destination.0 asset
    ok (parsed_transfer checked_positions asset amount source destination authority_key ∷ [])

  pub parse_legacy : ℕ → Result EvidenceError (List ParsedTransfer)
  unfolding account_at resolve_asset_evidence parsed_transfer
  parse_legacy amount = do
    source_index ←
        or_throw (get_elem? instruction.accounts legacy_positions.source) legacy_accounts_incomplete
    destination_index ←
        or_throw (get_elem? instruction.accounts legacy_positions.destination)
          legacy_accounts_incomplete
    asset ← resolve_asset_evidence tx source_index destination_index
    source ← or_throw (account_at keys instruction legacy_positions.source) accounts_incomplete
    destination ←
        or_throw (account_at keys instruction legacy_positions.destination) accounts_incomplete
    (_, authority_key) ←
        or_throw (account_at keys instruction legacy_positions.authority) accounts_incomplete
    ok (parsed_transfer legacy_positions asset amount source destination authority_key ∷ [])

  parse_decoded : Bool → TokenInstructionDecode → Result EvidenceError (List ParsedTransfer)
  unfolding parse_checked parse_legacy reject
  parse_decoded affected (unsupported _) = reject affected instruction_unsupported
  parse_decoded affected (malformed _) = reject affected instruction_malformed
  parse_decoded affected (transfer amount) = parse_legacy amount
  parse_decoded affected (transfer_checked amount decimals) = parse_checked amount decimals

module _ (decode : String → Option (List ℕ)) (tx : RpcTransactionEnvelope)
    (watched : Option String) where
  -- The callback of `flatMap`, on one instruction.
  pub parse_location :
      List ResolvedAccountKey → InstructionLocation → Result EvidenceError (List ParsedTransfer)
  unfolding affects reject parse_decoded decode_token_instruction
  parse_location keys location =
      let instruction = location.instruction in
      let affected = affects keys watched instruction in
      elim (get_elem? keys instruction.program_id_index) [
        | none ↦ ok []
        | some program ↦
            if program.address === token_2022_program_address
            then reject affected token_2022_unsupported
            else if program.address === legacy_token_program_address
            then parse_decoded tx keys location program.address affected
                (decode_token_instruction decode instruction.instruction_data)
            else ok []
      ]

  pub parse_locations :
      List ResolvedAccountKey
      → List InstructionLocation
      → Result EvidenceError (List ParsedTransfer)
  unfolding parse_location
  parse_locations keys [] = ok []
  parse_locations keys (location ∷ rest) = do
    transfers ← parse_location keys location
    others ← parse_locations keys rest
    ok (transfers ++ others)

  unfoldable pub parse_transaction_transfers : Result EvidenceError (List ParsedTransfer)
  unfolding parse_locations resolve_account_keys collect_instruction_locations
  parse_transaction_transfers =
      parse_locations (resolve_account_keys tx.message tx.meta.loaded_addresses)
        (collect_instruction_locations tx)
