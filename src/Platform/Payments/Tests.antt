-- ===== src/Platform/Payments/Tests.antt =====
-- Runs of the projector on one payment: an event that is seen, finalized and booked.
use solana_payment_ops.Common.{
  ℕ, ◌≡◌, inr, refl, true, false, not, none, some, List, [], ◌∷◌, ◌++◌, length, arith,
}
use solana_payment_ops.Common.Result.{ok}
use solana_payment_ops.Platform.Payments.Types.{
  ChainState, chain_detected, chain_finalized, awaiting_payment, detected, paid, exception, Journal,
  payment_received, as_status, symbol_usdc, currency_usd, invoice_issued, invoice_settled,
  exact_match, StatusChange, Expectation, Store, ChainEvent, live, agreed, ProjectionContext,
  ProjectionResult, unchanged, changed,
}
use solana_payment_ops.Platform.Payments.Advance.{
  is_settled, is_paid, is_exception, advance_projection, move_to,
}
use solana_payment_ops.Platform.Payments.Book.{
  issued_journal, receipt_journal, post_journal_entry, post_receipt_journal, finish_exception,
  project_exception,
}
use solana_payment_ops.Platform.Payments.Project.{plan_decision, project_live, project_one}
use solana_payment_ops.Core.Types.{Cluster}
use solana_payment_ops.Common.Decimal.{codes}
use solana_payment_ops.Reconciliation.Types.{FinalizedPaymentEvent}
use solana_payment_ops.Reconciliation.Event.{reconcile_event}
use solana_payment_ops.Platform.Payments.Moves.{Trail}
use solana_payment_ops.Platform.Payments.Invariant.{IsBooked, one_if}
use solana_payment_ops.Platform.Payments.Reach.{
  project_one-GoesOn, Reaches, start, run, Reaches-IsBooked,
}
use solana_payment_ops.Platform.Payments.Final.{Reaches-final}
use solana_payment_ops.Platform.Payments.Pays.{IsBookable, project_one-pays}

abbrev awaited_expectation : Expectation
awaited_expectation = record {
  invoice_id = "invoice";
  customer_id = "customer";
  expected_mint = "mint";
  recipient_token_account = "account";
  expected_amount_base_units = 2_500_000;
  reference_address = "reference";
  quote_issued_at = 100;
  latest_qualifying_at = 200;
  invoice_minor_units = 250;
  asset_symbol = symbol_usdc;
  invoice_currency = currency_usd;
  invoice_public_reference = "INV-1";
  settlement_wallet_id = "wallet";
  invoice_issued_at = 90;
}

abbrev unposted : Store
unposted = record {
  public_status = awaiting_payment;
  source_state = as_status awaiting_payment;
  projection_version = 1;
  detected_at = none;
  confirmed_at = none;
  finalized_at = none;
  paid_at = none;
  exception_at = none;
  attempt_state = as_status awaiting_payment;
  attempt_version = 1;
  invoice_status = invoice_issued;
  invoice_version = 2;
  is_expected = true;
  is_watched = true;
  history = [];
  allocations = [];
  exceptions = [];
  journals = [];
  outbox = [];
}

-- An issued invoice has its journal entry.
abbrev fresh : Store
fresh = record unposted { journals = issued_journal awaited_expectation unposted ∷ [] }

abbrev payment_of : ℕ → FinalizedPaymentEvent
payment_of amount = record {
  chain_event_id = "chain";
  event_id = "event";
  cluster = Cluster.mainnet_beta;
  signature = "signature";
  outer_instruction_index = 1;
  inner_instruction_index = none;
  mint = "mint";
  destination_token_account = "account";
  amount_base_units = amount;
  decimals = 6;
  references = "reference" ∷ [];
  block_time = some 150;
}

abbrev event_of : ℕ → ChainState → ChainEvent
event_of amount state = record {
  payment = payment_of amount;
  current_state = state;
  observation_slot = some 77;
}

-- Every journal has the digest of its source.
abbrev surroundings : ProjectionContext
surroundings = record {
  now = 160;
  activation_mode = live;
  has_authority = true;
  is_dual_provider = true;
  consensus = agreed;
  shadow_created = true;
  journal_digest = λ journal. codes journal.source_id;
}

abbrev seen : Store
seen = move_to fresh "event" detected 160

detection_is_seen :
    project_one surroundings awaited_expectation fresh (event_of 2_500_000 chain_detected)
    ≡ ok (changed detected 2, seen)
unfolding project_one project_live move_to advance_projection
detection_is_seen = refl

-- Half of the amount is an exception, worth 125 of the 250 minor units.
half_is_an_exception :
    ((result : ProjectionResult) × (t : Store) × (project_one surroundings awaited_expectation seen
          (event_of 1_250_000 chain_finalized)
        ≡ ok (result, t))
      × (result ≡ changed exception 4)
      × (length t.exceptions ≡ 1)
      × (length t.journals ≡ 2))
unfolding project_one project_live plan_decision reconcile_event project_exception
    post_receipt_journal post_journal_entry move_to advance_projection finish_exception
half_is_an_exception = (_, _, refl, refl, refl, refl)

fresh-IsBooked : IsBooked fresh
fresh-IsBooked = record {
  expected = refl;
  allocated_once = refl;
  excepted_once = refl;
  settles = λ e. cc e;
}

fresh-IsBookable :
    IsBookable surroundings awaited_expectation fresh (event_of 2_500_000 chain_finalized)
fresh-IsBookable = record {
  is_live = refl;
  authorized = refl;
  agreed_upon = refl;
  final = refl;
  awaited = refl;
  unsettled = refl;
  issued = refl;
  reference = refl;
  pays_invoice = record {
    unmatched = λ e. cc e;
    asset = refl;
    destination = refl;
    in_time = (150, refl, omega arith, omega arith);
    amount = refl;
  };
  postable = record {
    seen = refl;
    divides = refl;
    worth = refl;
    issue_stands = inr (issued_journal awaited_expectation fresh, refl, refl);
    first_receipt = refl;
  };
}

project_one-GoesOn_example :
    (changes : List StatusChange) × (seen.history ≡ fresh.history ++ changes)
    × Trail awaiting_payment 1 changes seen.public_status seen.projection_version
project_one-GoesOn_example =
    project_one-GoesOn surroundings awaited_expectation fresh seen
      (event_of 2_500_000 chain_detected) (changed detected 2) detection_is_seen

project_one-pays_example :
    (t : Store) × (project_one surroundings awaited_expectation fresh
        (event_of 2_500_000 chain_finalized)
      ≡ ok (changed paid t.projection_version, t))
    × (t.public_status ≡ paid)
    × (t.invoice_status ≡ invoice_settled)
    × (length t.allocations ≡ 1)
    × ((earlier : List Journal) × (t.journals
          ≡ earlier
            ++ (receipt_journal awaited_expectation
                  (event_of 2_500_000 chain_finalized)
                  payment_received
                  160
                ∷ [])))
    × (t.is_expected ≡ false)
project_one-pays_example =
    project_one-pays surroundings awaited_expectation fresh (event_of 2_500_000 chain_finalized)
      fresh-IsBookable

abbrev path_to_seen : Reaches awaited_expectation fresh seen
path_to_seen =
    run surroundings (event_of 2_500_000 chain_detected) (changed detected 2) start
      detection_is_seen

Reaches-IsBooked_example :
    (seen.is_expected ≡ not (is_settled seen.public_status))
    × (length seen.allocations ≡ one_if (is_paid seen.public_status))
    × (length seen.exceptions ≡ one_if (is_exception seen.public_status))
    × (seen.public_status ≡ paid → seen.invoice_status ≡ invoice_settled)
Reaches-IsBooked_example =
    Reaches-IsBooked awaited_expectation fresh seen path_to_seen fresh-IsBooked

-- A payment that was an exception from the start, and is expected all the same.
abbrev excepted : Store
excepted = record fresh {
  public_status = exception;
  exceptions =
      record {
        event_id = "earlier";
        booked_invoice = none;
        amount_base_units = 1;
        rule_code = exact_match;
      }
      ∷ [];
}

excepted_is_left :
    project_one surroundings awaited_expectation excepted (event_of 2_500_000 chain_finalized)
    ≡ ok (unchanged, excepted)
unfolding project_one project_live
excepted_is_left = refl

Reaches-final_example : excepted ≡ excepted
Reaches-final_example =
    Reaches-final awaited_expectation excepted excepted (inr refl)
      (run surroundings (event_of 2_500_000 chain_finalized) unchanged start excepted_is_left)
