-- ===== src/Core/Samples.antt =====
-- A payment of 2.5 USDC: the transaction, the expectation and the transfer that it makes.
use solana_payment_ops.Common.{ℕ, String, Option, none, some, List, [], ◌∷◌}
use solana_payment_ops.Common.Decimal.{codes}
use solana_payment_ops.Core.Types.{
  Cluster, Commitment, Version, CompiledInstruction, TokenBalance, Message, RpcTransactionEnvelope,
  PaymentFixture, ParsedTransfer, legacy_token_program_address,
}

abbrev pub usdc : String
usdc = "EPjFWdd5AufqSSqeM2qN1xzybapC8G4wEGGkZwyTDt1v"

-- The bytes of a `TransferChecked` of 2,500,000 base units with 6 decimals.
abbrev pub paid_bytes : List ℕ
paid_bytes = 12 ∷ 160 ∷ 37 ∷ 38 ∷ 0 ∷ 0 ∷ 0 ∷ 0 ∷ 0 ∷ 6 ∷ []

-- Every text decodes to them.
abbrev pub decode_paid : String → Option (List ℕ)
decode_paid text = some paid_bytes

abbrev pub balance_of : ℕ → String → ℕ → TokenBalance
balance_of index owner amount = record {
  account_index = index;
  mint = usdc;
  owner = some owner;
  program_id = some legacy_token_program_address;
  amount = amount;
  decimals = 6;
}

abbrev pub pay : CompiledInstruction
pay = record { program_id_index = 4; accounts = 1 ∷ 3 ∷ 2 ∷ 0 ∷ 5 ∷ []; instruction_data = "data" }

abbrev pub payment_message : Message
payment_message = record {
  header = record {
    num_required_signatures = 1;
    num_readonly_signed_accounts = 0;
    num_readonly_unsigned_accounts = 3;
  };
  account_keys = "payer" ∷ "from" ∷ "to" ∷ usdc ∷ legacy_token_program_address ∷ "reference" ∷ [];
  address_table_lookups = [];
  instructions = pay ∷ [];
}

abbrev pub payment_transaction : RpcTransactionEnvelope
payment_transaction = record {
  cluster = Cluster.mainnet_beta;
  commitment = Commitment.finalized;
  signature = "signature";
  slot = 7;
  version = Version.legacy;
  signatures = "signature" ∷ [];
  message = payment_message;
  meta = record {
    err = none;
    loaded_addresses = none;
    inner_instructions = none;
    pre_token_balances = balance_of 1 "payer" 9_000_000 ∷ balance_of 2 "shop" 0 ∷ [];
    post_token_balances = balance_of 1 "payer" 6_500_000 ∷ balance_of 2 "shop" 2_500_000 ∷ [];
  };
}

abbrev pub payment_fixture : PaymentFixture
payment_fixture = record {
  name = "payment";
  expectation = record {
    cluster = Cluster.mainnet_beta;
    recipient_owner = "shop";
    destination_token_account = "to";
    mint = usdc;
    token_program = legacy_token_program_address;
    amount_base_units = 2_500_000;
    decimals = 6;
    reference = "reference";
    required_commitment = Commitment.finalized;
  };
  rpc_transaction = payment_transaction;
}

abbrev pub payment_transfer : ParsedTransfer
payment_transfer = record {
  event_id = codes "mainnet-beta:signature:0:outer";
  signature = "signature";
  slot = 7;
  outer_instruction_index = 0;
  inner_instruction_index = none;
  program_id = legacy_token_program_address;
  source_token_account = "from";
  source_account_index = 1;
  mint = usdc;
  destination_token_account = "to";
  destination_account_index = 2;
  authority = "payer";
  amount_base_units = 2_500_000;
  decimals = 6;
  references = "reference" ∷ [];
  unsupported_extra_accounts = [];
}
