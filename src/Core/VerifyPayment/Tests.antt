-- ===== src/Core/VerifyPayment/Tests.antt =====
-- The verification of one payment, and of the same transfer against a larger amount.
use solana_payment_ops.Common.{◌≡◌, refl, true, false, [], ◌∷◌}
use solana_payment_ops.Core.Types.{PaymentFixture}
use solana_payment_ops.Core.Samples.{payment_fixture, payment_transfer}
use solana_payment_ops.Core.VerifyPayment.{
  verify_payment, payment_checks, check_transaction_success, check_cluster, check_commitment,
  check_token_program, check_mint, check_destination, check_destination_owner,
  check_destination_token_program, check_destination_balance_mint, check_amount, check_decimals,
  check_reference, check_unambiguous_reference_accounts, check_non_self_transfer,
  check_destination_balance_delta,
}
use solana_payment_ops.Core.VerifyPayment.Verified.{IsPayment, verify_payment-verified_iff}

abbrev larger_fixture : PaymentFixture
larger_fixture = record payment_fixture {
  expectation = record payment_fixture.expectation { amount_base_units = 2_500_001 };
}

payment_is_verified :
    (verify_payment payment_fixture payment_transfer (payment_transfer ∷ [])).verified ≡ true
unfolding verify_payment payment_checks check_transaction_success check_cluster check_commitment
    check_token_program check_mint check_destination check_destination_owner
    check_destination_token_program check_destination_balance_mint check_amount check_decimals
    check_reference check_unambiguous_reference_accounts check_non_self_transfer
    check_destination_balance_delta
payment_is_verified = refl

larger_is_not_verified :
    (verify_payment larger_fixture payment_transfer (payment_transfer ∷ [])).verified ≡ false
unfolding verify_payment payment_checks check_transaction_success check_cluster check_commitment
    check_token_program check_mint check_destination check_destination_owner
    check_destination_token_program check_destination_balance_mint check_amount check_decimals
    check_reference check_unambiguous_reference_accounts check_non_self_transfer
    check_destination_balance_delta
larger_is_not_verified = refl

verify_payment-verified_iff_example :
    IsPayment payment_fixture payment_transfer (payment_transfer ∷ [])
verify_payment-verified_iff_example =
    (verify_payment-verified_iff payment_fixture payment_transfer (payment_transfer ∷ [])).0
      payment_is_verified
