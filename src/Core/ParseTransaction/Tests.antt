-- ===== src/Core/ParseTransaction/Tests.antt =====
-- A run of the parser on one payment.
use solana_payment_ops.Common.{ℕ, ◌≡◌, ◌≢◌, refl, Option, none, some, [], ◌∷◌, All, Pairwise}
use solana_payment_ops.Common.Decimal.{format}
use solana_payment_ops.Common.Result.{ok}
use solana_payment_ops.Core.Types.{Cluster, ParsedTransfer, legacy_token_program_address}
use solana_payment_ops.Core.Samples.{
  decode_paid, payment_transaction, payment_message, payment_transfer,
}
use solana_payment_ops.Core.AccountKeys.{resolve_account_keys}
use solana_payment_ops.Core.TokenInstruction.{decode_token_instruction, read_u64_little_endian}
use solana_payment_ops.Core.ParseTransaction.{
  all_balances, collect_instruction_locations, parse_transaction_transfers,
}
use solana_payment_ops.Core.ParseTransaction.Event.{event_id_text-injective}
use solana_payment_ops.Core.ParseTransaction.Evidence.{
  BearsOut, parse_transaction_transfers-BearsOut,
}
use solana_payment_ops.Core.ParseTransaction.Coordinates.{parse_transaction_transfers-event_ids}
use solana_payment_ops.Core.ParseTransaction.Watched.{
  IsAccounted, parse_transaction_transfers-IsAccounted,
}

payment_is_parsed :
    parse_transaction_transfers decode_paid payment_transaction (some "to")
    ≡ ok (payment_transfer ∷ [])
unfolding parse_transaction_transfers decode_token_instruction read_u64_little_endian format
payment_is_parsed = refl

parse_transaction_transfers-IsAccounted_example :
    All
      (IsAccounted (resolve_account_keys payment_message none) "to" (payment_transfer ∷ []))
      (collect_instruction_locations payment_transaction)
parse_transaction_transfers-IsAccounted_example =
    parse_transaction_transfers-IsAccounted decode_paid payment_transaction "to" payment_is_parsed

parse_transaction_transfers-BearsOut_example :
    All
      (λ t.
        (t.program_id ≡ legacy_token_program_address)
        × (t.signature ≡ payment_transaction.signature)
        × (t.slot ≡ payment_transaction.slot)
        × BearsOut t.mint t.decimals t.source_account_index t.destination_account_index
            (all_balances payment_transaction))
      (payment_transfer ∷ [])
parse_transaction_transfers-BearsOut_example =
    parse_transaction_transfers-BearsOut decode_paid payment_transaction (some "to")
      payment_is_parsed

parse_transaction_transfers-event_ids_example :
    Pairwise (λ (s t : ParsedTransfer). s.event_id ≢ t.event_id) (payment_transfer ∷ [])
parse_transaction_transfers-event_ids_example =
    parse_transaction_transfers-event_ids decode_paid payment_transaction (some "to") tt
      payment_is_parsed

abbrev outer_index : ℕ
outer_index = 3

abbrev inner_index : Option ℕ
inner_index = some 1

event_id_text-injective_example : (outer_index ≡ 3) × (inner_index ≡ some 1)
event_id_text-injective_example =
    event_id_text-injective Cluster.devnet "signature" outer_index 3 inner_index (some 1) refl
