-- ===== src/Platform/Payments/Book.antt =====
-- How a finalized payment is booked by packages/platform/src/payments/status-projector.ts, and its
-- journal entries posted by operations/ledger-store.ts.
use solana_payment_ops.Common.{
  ℕ, suc, ◌+◌, ◌*◌, ◌/◌, String, Bool, true, false, ◌&&◌, not, Option, none, some, [], ◌∷◌, ◌++◌,
  if◌then◌else◌, ◌==◌, ◌===◌, joined, find,
}
use solana_payment_ops.Common.Result.{Result, ok, err, ◌>>=◌, throw_if}
use solana_payment_ops.Common.Decimal.{Text}
use solana_payment_ops.Platform.Numerals.{eq_text}
use solana_payment_ops.Reconciliation.Types.{RuleCode, DecisionBody}
use solana_payment_ops.Platform.Payments.Types.{
  paid, exception, as_status, allocated, InvoiceState, invoice_issued, invoice_settled, exact_match,
  rule, JournalSource, issued_source, payment_received, unapplied_receipt, Account,
  accounts_receivable, invoice_clearing, cash_usdc, cash_usdt, unapplied_cash, AssetSymbol,
  symbol_usdc, symbol_usdt, JournalLine, Journal, invoice_paid, payment_exception_created,
  Expectation, Store, ChainEvent, ProjectionContext, ProjectionResult, ProjectionError,
  allocation_conflict, missing_slot, valuation_too_small, division_by_zero, journal_source_conflict,
}
use solana_payment_ops.Platform.Payments.Advance.{advance_projection, enqueue, changed_to}

-- `postJournalEntry` of operations/ledger-store.ts by the identity of the source: a journal posted
-- before is kept, and must be the same.
abbrev pub eq_source : JournalSource → JournalSource → Bool
eq_source issued_source issued_source = true
eq_source payment_received payment_received = true
eq_source unapplied_receipt unapplied_receipt = true
eq_source _ _ = false

abbrev pub has_identity : Journal → Journal → Bool
has_identity journal posted =
    eq_source posted.source_type journal.source_type
    && (posted.source_id === journal.source_id && posted.source_version == journal.source_version)

abbrev pub post_beside :
    (Journal → Text) → Journal → Store → Option Journal → Result ProjectionError Store
post_beside digest journal store none =
    ok (record store { journals = store.journals ++ (journal ∷ []) })
post_beside digest journal store (some posted) =
    if eq_text (digest posted) (digest journal) then ok store else err journal_source_conflict

unfoldable pub post_journal_entry :
    (Journal → Text) → Journal → Store → Result ProjectionError Store
post_journal_entry digest journal store =
    post_beside digest journal store (find (has_identity journal) store.journals)

-- A line without a token.
abbrev pub plain_line : Account → ℕ → ℕ → JournalLine
plain_line account debit credit = record {
  account_code = account;
  debit_minor_units = debit;
  credit_minor_units = credit;
  token_mint = none;
  token_base_units = none;
  wallet_id = none;
  chain_slot = none;
}

abbrev pub issued_journal : Expectation → Store → Journal
issued_journal expectation store = record {
  source_type = issued_source;
  source_id = expectation.invoice_id;
  source_version = store.invoice_version;
  functional_currency = expectation.invoice_currency;
  description = joined "Issued invoice " expectation.invoice_public_reference;
  occurred_at = expectation.invoice_issued_at;
  lines =
      plain_line accounts_receivable expectation.invoice_minor_units 0
      ∷ (plain_line invoice_clearing 0 expectation.invoice_minor_units ∷ []);
}

abbrev pub ensure_invoice_issued_journal :
    ProjectionContext → Expectation → Store → Result ProjectionError Store
ensure_invoice_issued_journal world expectation store =
    post_journal_entry world.journal_digest (issued_journal expectation store) store

abbrev pub credit_account : JournalSource → Account
credit_account payment_received = accounts_receivable
credit_account _ = unapplied_cash

-- The invoice's minor units in the share that was received, rounded to the nearest.
abbrev pub valued_minor : Expectation → ChainEvent → ℕ
valued_minor expectation event =
    (expectation.invoice_minor_units * event.payment.amount_base_units
      + expectation.expected_amount_base_units / 2)
    / expectation.expected_amount_base_units

abbrev pub cash_account : AssetSymbol → Account
cash_account symbol_usdc = cash_usdc
cash_account symbol_usdt = cash_usdt

abbrev pub symbol_text : AssetSymbol → String
symbol_text symbol_usdc = "USDC"
symbol_text symbol_usdt = "USDT"

abbrev pub receipt_description : AssetSymbol → JournalSource → String
receipt_description symbol payment_received =
    joined "Finalized " (joined (symbol_text symbol) " invoice payment")
receipt_description symbol _ =
    joined "Finalized " (joined (symbol_text symbol) " receipt awaiting allocation")

abbrev pub cash_line : Expectation → ChainEvent → JournalLine
cash_line expectation event = record {
  account_code = cash_account expectation.asset_symbol;
  debit_minor_units = valued_minor expectation event;
  credit_minor_units = 0;
  token_mint = some event.payment.mint;
  token_base_units = some event.payment.amount_base_units;
  wallet_id = some expectation.settlement_wallet_id;
  chain_slot = event.observation_slot;
}

abbrev pub receipt_journal : Expectation → ChainEvent → JournalSource → ℕ → Journal
receipt_journal expectation event source now = record {
  source_type = source;
  source_id = event.payment.event_id;
  source_version = 1;
  functional_currency = expectation.invoice_currency;
  description = receipt_description expectation.asset_symbol source;
  occurred_at = now;
  lines =
      cash_line expectation event
      ∷ (plain_line (credit_account source) 0 (valued_minor expectation event) ∷ []);
}

abbrev pub is_missing : Option ℕ → Bool
is_missing none = true
is_missing (some slot) = false

unfoldable pub post_receipt_journal :
    ProjectionContext
    → Expectation
    → Store
    → ChainEvent
    → JournalSource
    → Result ProjectionError Store
post_receipt_journal world expectation store event source =
    throw_if (is_missing event.observation_slot) missing_slot >>= λ _.
    throw_if (expectation.expected_amount_base_units == 0) division_by_zero >>= λ _.
    throw_if (valued_minor expectation event == 0) valuation_too_small >>= λ _.
    post_journal_entry world.journal_digest (receipt_journal expectation event source world.now)
      store

abbrev pub is_issued : InvoiceState → Bool
is_issued invoice_issued = true
is_issued _ = false

-- The last statements of an allocation and of an exception.
abbrev pub deactivate : Store → Store
deactivate store = record store { is_expected = false; is_watched = false }

-- The row of hosted_payment_allocations.
abbrev pub insert_allocation : Expectation → DecisionBody → Store → Store
insert_allocation expectation body store = record store {
  allocations =
      store.allocations
      ++ (record {
        event_id = body.event_id;
        booked_invoice = some expectation.invoice_id;
        amount_base_units = body.amount_base_units;
        rule_code = exact_match;
      }
          ∷ []);
}

abbrev pub settle_invoice : Store → Store
settle_invoice store = record store {
  invoice_status = invoice_settled;
  invoice_version = suc store.invoice_version;
}

-- From the update of the invoice to the end of an allocation.
unfoldable pub finish_allocation : ℕ → Expectation → DecisionBody → Store → Store
finish_allocation now expectation body store =
    let settled : Store = settle_invoice store in
    let next = advance_projection settled body.event_id paid allocated exact_match now in
    enqueue (invoice_paid expectation.invoice_id settled.invoice_version) (deactivate next)

unfoldable pub project_allocation :
    ProjectionContext
    → Expectation
    → Store
    → ChainEvent
    → String
    → DecisionBody
    → Result ProjectionError (ProjectionResult × Store)
project_allocation world expectation store event invoice_id body =
    ensure_invoice_issued_journal world expectation (insert_allocation expectation body store)
    >>= λ issued.
        post_receipt_journal world expectation issued event payment_received >>= λ received.
        throw_if (not (is_issued received.invoice_status)) allocation_conflict >>= λ _.
        ok (changed_to (finish_allocation world.now expectation body received))

-- The receipt of an exception is booked if the asset and the account are the expected ones.
abbrev pub post_unapplied :
    ProjectionContext → Expectation → Store → ChainEvent → Result ProjectionError Store
post_unapplied world expectation store event =
    if event.payment.mint === expectation.expected_mint
      && event.payment.destination_token_account === expectation.recipient_token_account
    then post_receipt_journal world expectation store event unapplied_receipt
    else ok store

-- The row of hosted_payment_exceptions.
abbrev pub insert_exception : RuleCode → Option String → DecisionBody → Store → Store
insert_exception code invoice_id body store = record store {
  exceptions =
      store.exceptions
      ++ (record {
        event_id = body.event_id;
        booked_invoice = invoice_id;
        amount_base_units = body.amount_base_units;
        rule_code = rule code;
      }
          ∷ []);
}

unfoldable pub finish_exception : ℕ → RuleCode → DecisionBody → Store → Store
finish_exception now code body store =
    let next =
      advance_projection store body.event_id exception (as_status exception) (rule code) now in
    enqueue (payment_exception_created code) (deactivate next)

unfoldable pub project_exception :
    ProjectionContext
    → Expectation
    → Store
    → ChainEvent
    → RuleCode
    → Option String
    → DecisionBody
    → Result ProjectionError (ProjectionResult × Store)
project_exception world expectation store event code invoice_id body =
    ensure_invoice_issued_journal world expectation (insert_exception code invoice_id body store)
    >>= λ issued. post_unapplied world expectation issued event >>= λ received.
        ok (changed_to (finish_exception world.now code body received))
