-- ===== src/Core/AccountKeys/Tests.antt =====
-- The keys of one payment's message, with addresses loaded from a table.
use solana_payment_ops.Common.{◌≡◌, refl, String, true, false, some, List, [], ◌∷◌, ◌++◌, map}
use solana_payment_ops.Core.Types.{KeySource, LoadedAddresses, legacy_token_program_address}
use solana_payment_ops.Core.Samples.{usdc, payment_message}
use solana_payment_ops.Core.AccountKeys.{resolved_key, resolve_account_keys}
use solana_payment_ops.Core.AccountKeys.Partition.{
  IsPartitioned, static_run, resolve_account_keys-partition,
}

abbrev loaded : LoadedAddresses
loaded = record { writable = "extra" ∷ []; readonly = "clock" ∷ [] }

abbrev others : List String
others = usdc ∷ legacy_token_program_address ∷ "reference" ∷ []

message-IsPartitioned : IsPartitioned payment_message ("payer" ∷ []) [] ("from" ∷ "to" ∷ []) others
message-IsPartitioned = record {
  keys = refl;
  signers = refl;
  readonly_signers = refl;
  readonly_others = refl;
}

resolve_account_keys-partition_example :
    resolve_account_keys payment_message (some loaded)
    ≡ (static_run true true ("payer" ∷ [])
        ++ (static_run true false []
            ++ (static_run false true ("from" ∷ "to" ∷ []) ++ static_run false false others)))
      ++ (map (resolved_key false true KeySource.loaded_writable) ("extra" ∷ [])
          ++ map (resolved_key false false KeySource.loaded_readonly) ("clock" ∷ []))
resolve_account_keys-partition_example =
    resolve_account_keys-partition payment_message ("payer" ∷ []) [] ("from" ∷ "to" ∷ []) others
      message-IsPartitioned (some loaded)
