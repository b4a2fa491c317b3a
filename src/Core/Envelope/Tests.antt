-- ===== src/Core/Envelope/Tests.antt =====
-- The validation of one payment's envelope, and of one with a repeated parent.
use solana_payment_ops.Common.{◌<◌, ◌≡◌, ◌≢◌, refl, none, some, List, [], ◌∷◌, All, Pairwise}
use solana_payment_ops.Common.Decimal.{format}
use solana_payment_ops.Common.Result.{ok}
use solana_payment_ops.Core.Types.{RpcTransactionEnvelope, ParsedTransfer, InnerInstructions}
use solana_payment_ops.Core.Samples.{decode_paid, pay, payment_transaction, payment_transfer}
use solana_payment_ops.Core.TokenInstruction.{decode_token_instruction, read_u64_little_endian}
use solana_payment_ops.Core.ParseTransaction.{inner_groups, parse_transaction_transfers}
use solana_payment_ops.Core.ParseTransaction.Coordinates.{HasDistinctParents}
use solana_payment_ops.Core.Envelope.{parent_repeated, validate_envelope}
use solana_payment_ops.Core.Envelope.Validated.{validate_envelope-event_ids}

abbrev group : InnerInstructions
group = record { index = 0; instructions = pay ∷ [] }

abbrev with_groups : List InnerInstructions → RpcTransactionEnvelope
with_groups groups = record payment_transaction {
  meta = record payment_transaction.meta { inner_instructions = some groups };
}

one_group_is_valid : validate_envelope (with_groups (group ∷ [])) ≡ []
unfolding validate_envelope
one_group_is_valid = refl

two_groups_repeat : validate_envelope (with_groups (group ∷ group ∷ [])) ≡ parent_repeated ∷ []
unfolding validate_envelope
two_groups_repeat = refl

payment_is_valid : validate_envelope payment_transaction ≡ []
unfolding validate_envelope
payment_is_valid = refl

payment_is_returned :
    parse_transaction_transfers decode_paid payment_transaction none ≡ ok (payment_transfer ∷ [])
unfolding parse_transaction_transfers decode_token_instruction read_u64_little_endian format
payment_is_returned = refl

validate_envelope-event_ids_example :
    HasDistinctParents (inner_groups payment_transaction)
    × All (λ (g : InnerInstructions). g.index < 1) (inner_groups payment_transaction)
    × Pairwise (λ (s t : ParsedTransfer). s.event_id ≢ t.event_id) (payment_transfer ∷ [])
validate_envelope-event_ids_example =
    validate_envelope-event_ids decode_paid payment_transaction none payment_is_valid
      payment_is_returned
