-- ===== src/Reconciliation/Types.antt =====
-- packages/reconciliation/src/domain/types.ts. A time is its number of milliseconds, from an epoch
-- before all of them.
use solana_payment_ops.Common.{ℕ, String, Option, List}
use solana_payment_ops.Core.Types.{Cluster}

pub data InvoiceStatus : Type 0 where
  opened matched exception : InvoiceStatus

pub data RuleCode : Type 0 where
  missing_reference unknown_reference ambiguous_reference duplicate_payment : RuleCode
  wrong_asset wrong_destination missing_block_time before_issue late_payment : RuleCode
  partial_payment excess_payment : RuleCode

pub record InvoiceRecord : Type 0 where
  pub invoice_id : String
  pub customer_id : String
  pub expected_mint : String
  pub destination_token_account : String
  pub amount_base_units : ℕ
  pub reference_address : String
  pub issued_at : ℕ
  pub due_at : ℕ
  pub status : InvoiceStatus

pub record FinalizedPaymentEvent : Type 0 where
  pub chain_event_id : String
  pub event_id : String
  pub cluster : Cluster
  pub signature : String
  pub outer_instruction_index : ℕ
  pub inner_instruction_index : Option ℕ
  pub mint : String
  pub destination_token_account : String
  pub amount_base_units : ℕ
  pub decimals : ℕ
  pub references : List String
  pub block_time : Option ℕ

-- The fields that the two kinds of decision share.
pub record DecisionBody : Type 0 where
  pub rule_version : String
  pub event_id : String
  pub chain_event_id : String
  pub signature : String
  pub outer_instruction_index : ℕ
  pub inner_instruction_index : Option ℕ
  pub amount_base_units : ℕ

-- An allocation to an invoice, under the code `exact_match`, or an exception, with the invoice that
-- it concerns if there is one.
pub data ReconciliationDecision : Type 0 where
  allocation : String → DecisionBody → ReconciliationDecision
  exceptional : RuleCode → Option String → DecisionBody → ReconciliationDecision

abbrev pub reconciliation_rule_version : String
reconciliation_rule_version = "0.1"
