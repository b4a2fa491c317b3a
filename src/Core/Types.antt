-- ===== src/Core/Types.antt =====
-- packages/core/src/domain and the shapes of packages/core/src/fixtures/schema.ts. An amount of
-- base units is the number that its text denotes: the schema admits canonical decimals only, so
-- texts are equal exactly when numbers are. A transaction error is its JSON text.
use solana_payment_ops.Common.{ℕ, String, Bool, Option, List}
use solana_payment_ops.Common.Decimal.{Text}

pub data Cluster : Type 0 where
  mainnet_beta devnet localnet : Cluster

pub data Commitment : Type 0 where
  confirmed finalized : Commitment

pub data KeySource : Type 0 where
  static loaded_writable loaded_readonly : KeySource

pub record ResolvedAccountKey : Type 0 where
  pub address : String
  pub signer : Bool
  pub writable : Bool
  pub source : KeySource

pub record CompiledInstruction : Type 0 where
  pub program_id_index : ℕ
  pub accounts : List ℕ
  pub instruction_data : String

pub record InnerInstructions : Type 0 where
  pub index : ℕ
  pub instructions : List CompiledInstruction

pub record TokenBalance : Type 0 where
  pub account_index : ℕ
  pub mint : String
  pub owner : Option String
  pub program_id : Option String
  pub amount : ℕ
  pub decimals : ℕ

pub record AddressTableLookup : Type 0 where
  pub account_key : String
  pub writable_indexes : List ℕ
  pub readonly_indexes : List ℕ

pub record MessageHeader : Type 0 where
  pub num_required_signatures : ℕ
  pub num_readonly_signed_accounts : ℕ
  pub num_readonly_unsigned_accounts : ℕ

pub record Message : Type 0 where
  pub header : MessageHeader
  pub account_keys : List String
  pub address_table_lookups : List AddressTableLookup
  pub instructions : List CompiledInstruction

pub record LoadedAddresses : Type 0 where
  pub writable : List String
  pub readonly : List String

pub record TransactionMeta : Type 0 where
  pub err : Option Text
  pub loaded_addresses : Option LoadedAddresses
  pub inner_instructions : Option (List InnerInstructions)
  pub pre_token_balances : List TokenBalance
  pub post_token_balances : List TokenBalance

pub data Version : Type 0 where
  legacy v0 : Version

pub record RpcTransactionEnvelope : Type 0 where
  pub cluster : Cluster
  pub commitment : Commitment
  pub signature : String
  pub slot : ℕ
  pub version : Version
  pub signatures : List String
  pub message : Message
  pub meta : TransactionMeta

pub record PaymentExpectation : Type 0 where
  pub cluster : Cluster
  pub recipient_owner : String
  pub destination_token_account : String
  pub mint : String
  pub token_program : String
  pub amount_base_units : ℕ
  pub decimals : ℕ
  pub reference : String
  pub required_commitment : Commitment

pub record PaymentFixture : Type 0 where
  pub name : String
  pub expectation : PaymentExpectation
  pub rpc_transaction : RpcTransactionEnvelope

pub record ParsedTransfer : Type 0 where
  pub event_id : Text
  pub signature : String
  pub slot : ℕ
  pub outer_instruction_index : ℕ
  pub inner_instruction_index : Option ℕ
  pub program_id : String
  pub source_token_account : String
  pub source_account_index : ℕ
  pub mint : String
  pub destination_token_account : String
  pub destination_account_index : ℕ
  pub authority : String
  pub amount_base_units : ℕ
  pub decimals : ℕ
  pub references : List String
  pub unsupported_extra_accounts : List String

pub data VerificationCode : Type 0 where
  transaction_success cluster commitment token_program mint destination : VerificationCode
  destination_owner destination_token_program destination_balance_mint : VerificationCode
  amount decimals reference unambiguous_reference_accounts : VerificationCode
  non_self_transfer destination_balance_delta : VerificationCode

pub record VerificationCheck : Type 0 where
  pub code : VerificationCode
  pub passed : Bool
  pub expected : Text
  pub actual : Text

pub record VerificationReport : Type 0 where
  pub schema_version : String
  pub fixture_name : String
  pub event_id : Text
  pub signature : String
  pub slot : ℕ
  pub verified : Bool
  pub checks : List VerificationCheck
  pub transfer : ParsedTransfer

-- An entry of `SUPPORTED_MAINNET_ASSETS`.
pub record Asset : Type 0 where
  pub symbol : String
  pub mint : String
  pub token_program : String
  pub decimals : ℕ

abbrev pub legacy_token_program_address : String
legacy_token_program_address = "TokenkegQfeZyiNwAJbNbGKPFXCWuBvf9Ss623VQ5DA"

abbrev pub token_2022_program_address : String
token_2022_program_address = "TokenzQdBNbLqP5VEhdkAS6EPFLC1PHnBqCXEpPxuEb"

abbrev pub mainnet_usdc : Asset
mainnet_usdc = record {
  symbol = "USDC";
  mint = "EPjFWdd5AufqSSqeM2qN1xzybapC8G4wEGGkZwyTDt1v";
  token_program = legacy_token_program_address;
  decimals = 6;
}

abbrev pub mainnet_usdt : Asset
mainnet_usdt = record {
  symbol = "USDT";
  mint = "Es9vMFrzaCERmJfrF4H2FYD4KCoNkY11McCe8BenwNYB";
  token_program = legacy_token_program_address;
  decimals = 6;
}
