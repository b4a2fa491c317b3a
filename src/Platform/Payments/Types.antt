-- ===== src/Platform/Payments/Types.antt =====
-- The states and the rows of packages/platform/src/payments/status-projector.ts, for one payment
-- attempt. The rows are locked for the transaction, so the copy of them that the source hands on is
-- read from the store here. A time is its number of milliseconds.
use solana_payment_ops.Common.{ℕ, String, Bool, Option, List}
use solana_payment_ops.Common.Decimal.{Text}
use solana_payment_ops.Reconciliation.Types.{RuleCode, FinalizedPaymentEvent}

pub data ChainState : Type 0 where
  chain_detected chain_confirmed chain_finalized : ChainState
  chain_failed chain_reverted chain_quarantined : ChainState

pub data PublicStatus : Type 0 where
  awaiting_payment detected confirmed finalized : PublicStatus
  paid expired confirmation_revoked exception : PublicStatus

-- `source_state` and the state of the attempt: a public status, or `allocated`.
pub data AttemptState : Type 0 where
  as_status : PublicStatus → AttemptState
  allocated : AttemptState

pub data InvoiceState : Type 0 where
  invoice_draft invoice_issued invoice_settled invoice_cancelled : InvoiceState

-- The reason codes: a state, `chain_` and a state, `exact_match`, or the code of an exception.
pub data Reason : Type 0 where
  observed : PublicStatus → Reason
  chain : ChainState → Reason
  exact_match : Reason
  rule : RuleCode → Reason

pub data JournalSource : Type 0 where
  issued_source payment_received unapplied_receipt : JournalSource

-- `CASH_` and the symbol of an asset is one account for each asset.
pub data Account : Type 0 where
  accounts_receivable invoice_clearing cash_usdc cash_usdt unapplied_cash : Account

pub data AssetSymbol : Type 0 where
  symbol_usdc symbol_usdt : AssetSymbol

pub data FunctionalCurrency : Type 0 where
  currency_usd currency_eur currency_gbp currency_inr : FunctionalCurrency

pub record JournalLine : Type 0 where
  pub account_code : Account
  pub debit_minor_units : ℕ
  pub credit_minor_units : ℕ
  pub token_mint : Option String
  pub token_base_units : Option ℕ
  pub wallet_id : Option String
  pub chain_slot : Option ℕ

-- What the digest of an entry is taken of.
pub record Journal : Type 0 where
  pub source_type : JournalSource
  pub source_id : String
  pub source_version : ℕ
  pub functional_currency : FunctionalCurrency
  pub description : String
  pub occurred_at : ℕ
  pub lines : List JournalLine

-- A row of payment_status_history.
pub record StatusChange : Type 0 where
  pub source_version : ℕ
  pub from_status : PublicStatus
  pub to_status : PublicStatus
  pub reason_code : Reason
  pub changed_by : String
  pub occurred_at : ℕ

-- A row of hosted_payment_allocations or of hosted_payment_exceptions.
pub record Booking : Type 0 where
  pub event_id : String
  pub booked_invoice : Option String
  pub amount_base_units : ℕ
  pub rule_code : Reason

pub data LifecycleEvent : Type 0 where
  payment_advanced : PublicStatus → ℕ → LifecycleEvent
  payment_revoked : PublicStatus → ChainState → ℕ → LifecycleEvent
  invoice_paid : String → ℕ → LifecycleEvent
  payment_exception_created : RuleCode → LifecycleEvent

-- What does not change: the invoice, its quote and the expectation of the attempt.
pub record Expectation : Type 0 where
  pub invoice_id : String
  pub customer_id : String
  pub expected_mint : String
  pub recipient_token_account : String
  pub expected_amount_base_units : ℕ
  pub reference_address : String
  pub quote_issued_at : ℕ
  pub latest_qualifying_at : ℕ
  pub invoice_minor_units : ℕ
  pub asset_symbol : AssetSymbol
  pub invoice_currency : FunctionalCurrency
  pub invoice_public_reference : String
  pub settlement_wallet_id : String
  pub invoice_issued_at : ℕ

-- payment_projections, payment_attempts, merchant_invoices, hosted_payment_expectations,
-- watch_targets and the tables that only grow.
pub record Store : Type 0 where
  pub public_status : PublicStatus
  pub source_state : AttemptState
  pub projection_version : ℕ
  pub detected_at : Option ℕ
  pub confirmed_at : Option ℕ
  pub finalized_at : Option ℕ
  pub paid_at : Option ℕ
  pub exception_at : Option ℕ
  pub attempt_state : AttemptState
  pub attempt_version : ℕ
  pub invoice_status : InvoiceState
  pub invoice_version : ℕ
  pub is_expected : Bool
  pub is_watched : Bool
  pub history : List StatusChange
  pub allocations : List Booking
  pub exceptions : List Booking
  pub journals : List Journal
  pub outbox : List LifecycleEvent

-- An event of the chain as it is stored, with the slot that its signature was seen in.
pub record ChainEvent : Type 0 where
  pub payment : FinalizedPaymentEvent
  pub current_state : ChainState
  pub observation_slot : Option ℕ

pub data ActivationMode : Type 0 where
  shadow live : ActivationMode

pub data ConsensusStatus : Type 0 where
  pending agreed disagreed : ConsensusStatus

-- What the rest of the system answers in the transaction, and the digest of a journal.
pub record ProjectionContext : Type 0 where
  pub now : ℕ
  pub activation_mode : ActivationMode
  pub has_authority : Bool
  pub is_dual_provider : Bool
  pub consensus : ConsensusStatus
  pub shadow_created : Bool
  pub journal_digest : Journal → Text

pub data ProjectionResult : Type 0 where
  not_found unchanged : ProjectionResult
  proposed : Bool → ProjectionResult
  changed : PublicStatus → ℕ → ProjectionResult

pub data ProjectionError : Type 0 where
  allocation_conflict missing_slot : ProjectionError
  valuation_too_small division_by_zero journal_source_conflict : ProjectionError
