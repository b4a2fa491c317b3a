-- ===== src/Core/VerifyPayment.antt =====
-- packages/core/src/verify/verify-payment.ts. Each entry of the array `checks` is a function here.
mod Tests
pub mod Delta
pub mod Checks
pub mod Verified
use solana_payment_ops.Common.{
  ℕ, suc, ◌+◌, String, Bool, true, false, not, ◌&&◌, Option, none, some, List, [], ◌∷◌, ◌++◌,
  if◌then◌else◌, ◌==◌, leb, ◌===◌, some_eq, includes, is_some, length, find, all,
}
use solana_payment_ops.Common.Int.{ℤ, pos, negsuc, ◌+ℤ◌, ◌-ℤ◌, eq_ℤ}
use solana_payment_ops.Common.Decimal.{Text, format, codes}
use solana_payment_ops.Core.Types.{
  Cluster, Commitment, TokenBalance, RpcTransactionEnvelope, PaymentExpectation, PaymentFixture,
  ParsedTransfer, VerificationCode, VerificationCheck, VerificationReport, Asset, mainnet_usdc,
  mainnet_usdt,
}
use solana_payment_ops.Core.ParseTransaction.{cluster_text}

abbrev pub make_check : VerificationCode → Bool → Text → Text → VerificationCheck
make_check code passed expected actual = record {
  code = code;
  passed = passed;
  expected = expected;
  actual = actual;
}

abbrev pub commitment_rank : Commitment → ℕ
commitment_rank Commitment.finalized = 2
commitment_rank Commitment.confirmed = 1

abbrev pub commitment_text : Commitment → String
commitment_text Commitment.confirmed = "confirmed"
commitment_text Commitment.finalized = "finalized"

abbrev pub token_balance : List TokenBalance → ℕ → Option TokenBalance
token_balance balances account_index = find (λ b. b.account_index == account_index) balances

-- `BigInt(balance?.uiTokenAmount.amount ?? "0")`
abbrev pub balance_amount : Option TokenBalance → ℕ
balance_amount none = 0
balance_amount (some b) = b.amount

-- What a transfer brings to an account, and what it takes from it.
abbrev pub credit : ℕ → ParsedTransfer → ℕ
credit account t = if t.destination_account_index == account then t.amount_base_units else 0

abbrev pub debit : ℕ → ParsedTransfer → ℕ
debit account t = if t.source_account_index == account then t.amount_base_units else 0

-- One step of the `reduce`.
aggregate_step : ℕ → String → ℤ → ParsedTransfer → ℤ
aggregate_step account mint net t =
    if t.mint === mint then net +ℤ pos (credit account t) -ℤ pos (debit account t) else net

aggregate_from : ℕ → String → ℤ → List ParsedTransfer → ℤ
unfolding aggregate_step ◌+ℤ◌ ◌-ℤ◌
aggregate_from account mint net [] = net
aggregate_from account mint net (t ∷ ts) =
    aggregate_from account mint (aggregate_step account mint net t) ts

pub aggregate_destination_delta : List ParsedTransfer → ℕ → String → ℤ
unfolding aggregate_from
aggregate_destination_delta transfers account mint = aggregate_from account mint (pos 0) transfers

-- `n.toString()` on a signed number.
format_ℤ : ℤ → Text
format_ℤ (pos n) = format n
format_ℤ (negsuc n) = b'-' ∷ format (suc n)

-- `texts.join(",")`
join : List String → Text
join [] = []
join (s ∷ []) = codes s
join (s ∷ (t ∷ ts)) = codes s ++ (b',' ∷ join (t ∷ ts))

-- `text || "none"`
or_text : Text → String → Text
or_text [] default = codes default
or_text (c ∷ s) default = c ∷ s

pub eq_cluster : Cluster → Cluster → Bool
eq_cluster c d = cluster_text c === cluster_text d

abbrev pub supported_asset : String → Option Asset
supported_asset mint = find (λ a. a.mint === mint) (mainnet_usdc ∷ mainnet_usdt ∷ [])

abbrev pub program_matches : Option Asset → String → Bool
program_matches none token_program = false
program_matches (some asset) token_program = asset.token_program === token_program

abbrev pub decimals_match : Option Asset → ℕ → Bool
decimals_match none decimals = false
decimals_match (some asset) decimals = asset.decimals == decimals

abbrev pub owner_of : Option TokenBalance → Option String
owner_of none = none
owner_of (some b) = b.owner

abbrev pub program_of : Option TokenBalance → Option String
program_of none = none
program_of (some b) = b.program_id

abbrev pub mint_of : Option TokenBalance → Option String
mint_of none = none
mint_of (some b) = some b.mint

-- `text ?? "missing"`
abbrev or_missing : Option String → Text
or_missing none = codes "missing"
or_missing (some s) = codes s

abbrev err_text : Option Text → Text
err_text none = codes "null"
err_text (some e) = e

abbrev accounts_text : Bool → Text
accounts_text same =
    codes (if same then "same source and destination" else "different source and destination")

module _ (fixture : PaymentFixture) (t : ParsedTransfer) where
  abbrev expectation : PaymentExpectation
  expectation = fixture.expectation

  abbrev tx : RpcTransactionEnvelope
  tx = fixture.rpc_transaction

  abbrev pub pre_balance : Option TokenBalance
  pre_balance = token_balance tx.meta.pre_token_balances t.destination_account_index

  abbrev pub post_balance : Option TokenBalance
  post_balance = token_balance tx.meta.post_token_balances t.destination_account_index

  check_transaction_success : VerificationCheck
  check_transaction_success =
      make_check VerificationCode.transaction_success (not (is_some tx.meta.err)) (codes "null")
        (err_text tx.meta.err)

  check_cluster : VerificationCheck
  unfolding eq_cluster
  check_cluster =
      make_check VerificationCode.cluster (eq_cluster tx.cluster expectation.cluster)
        (codes (cluster_text expectation.cluster)) (codes (cluster_text tx.cluster))

  check_commitment : VerificationCheck
  check_commitment =
      make_check VerificationCode.commitment
        (leb (commitment_rank expectation.required_commitment) (commitment_rank tx.commitment))
        (codes (commitment_text expectation.required_commitment))
        (codes (commitment_text tx.commitment))

  check_token_program : VerificationCheck
  check_token_program =
      make_check VerificationCode.token_program
        (t.program_id === expectation.token_program
          && program_matches (supported_asset expectation.mint) expectation.token_program)
        (codes expectation.token_program) (codes t.program_id)

  check_mint : VerificationCheck
  check_mint =
      make_check VerificationCode.mint
        (t.mint === expectation.mint && is_some (supported_asset expectation.mint))
        (codes expectation.mint) (codes t.mint)

  check_destination : VerificationCheck
  check_destination =
      make_check VerificationCode.destination
        (t.destination_token_account === expectation.destination_token_account)
        (codes expectation.destination_token_account) (codes t.destination_token_account)

  check_destination_owner : VerificationCheck
  check_destination_owner =
      make_check VerificationCode.destination_owner
        (some_eq (owner_of post_balance) expectation.recipient_owner)
        (codes expectation.recipient_owner) (or_missing (owner_of post_balance))

  check_destination_token_program : VerificationCheck
  check_destination_token_program =
      make_check VerificationCode.destination_token_program
        (some_eq (program_of post_balance) expectation.token_program)
        (codes expectation.token_program) (or_missing (program_of post_balance))

  check_destination_balance_mint : VerificationCheck
  check_destination_balance_mint =
      make_check VerificationCode.destination_balance_mint
        (some_eq (mint_of post_balance) expectation.mint) (codes expectation.mint)
        (or_missing (mint_of post_balance))

  check_amount : VerificationCheck
  check_amount =
      make_check VerificationCode.amount (t.amount_base_units == expectation.amount_base_units)
        (format expectation.amount_base_units) (format t.amount_base_units)

  check_decimals : VerificationCheck
  check_decimals =
      make_check VerificationCode.decimals
        (t.decimals == expectation.decimals
          && decimals_match (supported_asset expectation.mint) expectation.decimals)
        (format expectation.decimals) (format t.decimals)

  check_reference : VerificationCheck
  unfolding join
  check_reference =
      make_check VerificationCode.reference (includes t.references expectation.reference)
        (codes expectation.reference) (join t.references)

  check_unambiguous_reference_accounts : VerificationCheck
  unfolding join or_text
  check_unambiguous_reference_accounts =
      make_check VerificationCode.unambiguous_reference_accounts
        (length t.unsupported_extra_accounts == 0) (codes "none")
        (or_text (join t.unsupported_extra_accounts) "none")

  check_non_self_transfer : VerificationCheck
  check_non_self_transfer =
      let same = t.source_account_index == t.destination_account_index in
      make_check VerificationCode.non_self_transfer (not same) (accounts_text false)
        (accounts_text same)

  check_destination_balance_delta : List ParsedTransfer → VerificationCheck
  unfolding aggregate_destination_delta format_ℤ ◌-ℤ◌
  check_destination_balance_delta all_transfers =
      let actual = pos (balance_amount post_balance) -ℤ pos (balance_amount pre_balance) in
      let parsed = aggregate_destination_delta all_transfers t.destination_account_index t.mint in
      make_check VerificationCode.destination_balance_delta (eq_ℤ actual parsed) (format_ℤ parsed)
        (format_ℤ actual)

  payment_checks : List ParsedTransfer → List VerificationCheck
  payment_checks all_transfers =
      check_transaction_success
      ∷ check_cluster
      ∷ check_commitment
      ∷ check_token_program
      ∷ check_mint
      ∷ check_destination
      ∷ check_destination_owner
      ∷ check_destination_token_program
      ∷ check_destination_balance_mint
      ∷ check_amount
      ∷ check_decimals
      ∷ check_reference
      ∷ check_unambiguous_reference_accounts
      ∷ check_non_self_transfer
      ∷ check_destination_balance_delta all_transfers
      ∷ []

  pub verify_payment : List ParsedTransfer → VerificationReport
  unfolding payment_checks
  verify_payment all_transfers = record {
    schema_version = "0.1";
    fixture_name = fixture.name;
    event_id = t.event_id;
    signature = t.signature;
    slot = t.slot;
    verified = all (λ check. check.passed) (payment_checks all_transfers);
    checks = payment_checks all_transfers;
    transfer = t;
  }
