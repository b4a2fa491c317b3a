-- ===== src/Core/VerifyPayment/Verified.antt =====
-- What a positive verification report asserts of the payment.
use mathlib.Core.List.{Memᴰ}
use solana_payment_ops.Common.{
  ℕ, ◌+◌, ◌≡◌, ◌≢◌, ap, ◌∙◌, ◌↔◌, true, not, Option, none, some, List, [], ◌∷◌, arith, ◌==◌, ==_iff,
  ===_iff, some_eq_iff, is_some, length, All, all→All, All→all,
}
use solana_payment_ops.Core.Types.{
  Commitment, TokenBalance, PaymentFixture, ParsedTransfer, VerificationCheck,
  legacy_token_program_address,
}
use solana_payment_ops.Core.VerifyPayment.{
  owner_of, program_of, mint_of, balance_amount, pre_balance, post_balance,
  check_transaction_success, check_cluster, check_commitment, check_token_program, check_mint,
  check_destination, check_destination_owner, check_destination_token_program,
  check_destination_balance_mint, check_amount, check_decimals, check_reference,
  check_unambiguous_reference_accounts, check_non_self_transfer, check_destination_balance_delta,
  payment_checks, verify_payment,
}
use solana_payment_ops.Core.VerifyPayment.Delta.{incoming, outgoing, eq_delta_iff}
use solana_payment_ops.Core.VerifyPayment.Checks.{
  eq_cluster_iff, commitment_iff, IsSupported, includes→Memᴰ, Memᴰ→includes, token_program_iff,
  mint_iff, decimals_iff, IsHeldBy, held_by,
}

-- The payment that an expectation asks for, made by a transfer of the transaction. The balances of
-- the destination are those that the transaction lists for its account index, 0 where it lists none.
pub record IsPayment (fixture : PaymentFixture) (t : ParsedTransfer)
    (transfers : List ParsedTransfer) : Type 0 where
  pub succeeded : fixture.rpc_transaction.meta.err ≡ none
  pub on_cluster : fixture.rpc_transaction.cluster ≡ fixture.expectation.cluster
  pub committed :
      fixture.expectation.required_commitment ≡ Commitment.finalized
      → fixture.rpc_transaction.commitment ≡ Commitment.finalized
  pub supported : IsSupported fixture.expectation.mint
  pub program : t.program_id ≡ legacy_token_program_address
  pub program_wanted : fixture.expectation.token_program ≡ legacy_token_program_address
  pub mint : t.mint ≡ fixture.expectation.mint
  pub decimals : (t.decimals ≡ 6) × (fixture.expectation.decimals ≡ 6)
  pub destination : t.destination_token_account ≡ fixture.expectation.destination_token_account
  pub held :
      (b : TokenBalance) × (post_balance fixture t ≡ some b)
      × IsHeldBy b fixture.expectation.recipient_owner fixture.expectation.token_program
          fixture.expectation.mint
  pub amount : t.amount_base_units ≡ fixture.expectation.amount_base_units
  pub referenced : Memᴰ fixture.expectation.reference t.references
  pub unambiguous : t.unsupported_extra_accounts ≡ []
  pub from_another : t.source_account_index ≢ t.destination_account_index
  pub conserved :
      balance_amount (pre_balance fixture t) + incoming t.destination_account_index t.mint transfers
      ≡ balance_amount (post_balance fixture t)
        + outgoing t.destination_account_index t.mint transfers

is_none : {A : Type 0} (o : Option A) → (not (is_some o) ≡ true) ↔ (o ≡ none)
is_none o = ground arith

is_empty_iff : {A : Type 0} (xs : List A) → ((length xs == 0) ≡ true) ↔ (xs ≡ [])
is_empty_iff [] = ground arith
is_empty_iff (x ∷ xs) = ground arith

is_different : (a b : ℕ) → (not (a == b) ≡ true) ↔ (a ≢ b)
is_different a b = (λ h. ground arith, λ h. ground arith)

module _ (fixture : PaymentFixture) (t : ParsedTransfer) (transfers : List ParsedTransfer) where
  abbrev Passes : VerificationCheck → Type 0
  Passes check = check.passed ≡ true

  IsPayment-Passes : IsPayment fixture t transfers → All Passes (payment_checks fixture t transfers)
  unfolding payment_checks check_transaction_success check_cluster check_commitment
      check_token_program check_mint check_destination check_destination_owner
      check_destination_token_program check_destination_balance_mint check_amount check_decimals
      check_reference check_unambiguous_reference_accounts check_non_self_transfer
      check_destination_balance_delta
  IsPayment-Passes p =
      let wanted = fixture.expectation in
      let (b, at, h) = p.held in
      (
        (is_none fixture.rpc_transaction.meta.err).1 p.succeeded,
        (
          (eq_cluster_iff _ _).1 p.on_cluster,
          (
            (commitment_iff wanted.required_commitment fixture.rpc_transaction.commitment).1
                p.committed,
            (
              (token_program_iff t.program_id wanted.token_program wanted.mint).1
                  (p.program, p.program_wanted, p.supported),
              (
                (mint_iff t.mint wanted.mint).1 (p.mint, p.supported),
                (
                  (===_iff _ _).1 p.destination,
                  (
                    (some_eq_iff _ _).1 (ap owner_of at ∙ h.owner_same),
                    (
                      (some_eq_iff _ _).1 (ap program_of at ∙ h.program_same),
                      (
                        (some_eq_iff _ _).1 (ap mint_of at ∙ ap some h.mint_same),
                        (
                          (==_iff _ _).1 p.amount,
                          (
                            (decimals_iff t.decimals wanted.decimals wanted.mint p.supported).1
                                p.decimals,
                            (
                              Memᴰ→includes wanted.reference t.references p.referenced,
                              (
                                (is_empty_iff t.unsupported_extra_accounts).1 p.unambiguous,
                                (
                                  (is_different t.source_account_index
                                        t.destination_account_index).1
                                      p.from_another,
                                  ((eq_delta_iff _ _ _ _ transfers).1 p.conserved, tt),
                                ),
                              ),
                            ),
                          ),
                        ),
                      ),
                    ),
                  ),
                ),
              ),
            ),
          ),
        ),
      )

  Passes-IsPayment : All Passes (payment_checks fixture t transfers) → IsPayment fixture t transfers
  unfolding payment_checks check_transaction_success check_cluster check_commitment
      check_token_program check_mint check_destination check_destination_owner
      check_destination_token_program check_destination_balance_mint check_amount check_decimals
      check_reference check_unambiguous_reference_accounts check_non_self_transfer
      check_destination_balance_delta
  Passes-IsPayment
        (
          c₁,
          (
            c₂,
            (c₃, (c₄, (c₅, (c₆, (c₇, (c₈, (c₉, (c₁₀, (c₁₁, (c₁₂, (c₁₃, (c₁₄, (c₁₅, _))))))))))))),
          ),
        ) =
      let (mint, supported) = (mint_iff t.mint fixture.expectation.mint).0 c₅ in
      let (program, wanted, _) =
        (token_program_iff t.program_id fixture.expectation.token_program
            fixture.expectation.mint).0
          c₄ in
      record {
        succeeded = (is_none fixture.rpc_transaction.meta.err).0 c₁;
        on_cluster = (eq_cluster_iff _ _).0 c₂;
        committed =
            (commitment_iff fixture.expectation.required_commitment
                fixture.rpc_transaction.commitment).0
              c₃;
        supported = supported;
        program = program;
        program_wanted = wanted;
        mint = mint;
        decimals =
            (decimals_iff t.decimals fixture.expectation.decimals fixture.expectation.mint
                supported).0
              c₁₁;
        destination = (===_iff _ _).0 c₆;
        held =
            held_by (post_balance fixture t) _ _ _ ((some_eq_iff _ _).0 c₇) ((some_eq_iff _ _).0 c₈)
              ((some_eq_iff _ _).0 c₉);
        amount = (==_iff _ _).0 c₁₀;
        referenced = includes→Memᴰ t.references fixture.expectation.reference c₁₂;
        unambiguous = (is_empty_iff t.unsupported_extra_accounts).0 c₁₃;
        from_another = (is_different t.source_account_index t.destination_account_index).0 c₁₄;
        conserved = (eq_delta_iff _ _ _ _ transfers).0 c₁₅;
      }

  -- A report says `verified` exactly when the transfer is the payment asked for: the transaction
  -- succeeded on the cluster asked for and is finalized if that is required, the transfer moves
  -- the mint, amount and decimals asked for of USDC or USDT under the legacy token program, from
  -- another account to the destination asked for, which the balances afterwards show in the hands
  -- of the recipient, the reference is among its references, no other extra account is present, and
  -- over all transfers of the mint the destination's balance before and what came in equal its
  -- balance after and what went out.
  pub verify_payment-verified_iff :
      ((verify_payment fixture t transfers).verified ≡ true) ↔ IsPayment fixture t transfers
  unfolding verify_payment
  verify_payment-verified_iff = (
    λ h. Passes-IsPayment (all→All (λ check. check.passed) (payment_checks fixture t transfers) h),
    λ p. All→all (λ check. check.passed) (payment_checks fixture t transfers) (IsPayment-Passes p),
  )
