-- ===== src/Core/AccountKeys.antt =====
-- packages/core/src/solana/compiled-message.ts. Where the source's signed difference is negative,
-- no index lies below it, and none lies below the truncated difference either.
mod Tests
pub mod Partition
use solana_payment_ops.Common.{
  ℕ, suc, ◌+◌, ◌-◌, String, Bool, true, false, Option, none, some, List, [], ◌∷◌, ◌++◌, map, ltb,
  if◌then◌else◌, length,
}
use solana_payment_ops.Core.Types.{
  ResolvedAccountKey, KeySource, MessageHeader, Message, LoadedAddresses,
}

abbrev pub resolved_key : Bool → Bool → KeySource → String → ResolvedAccountKey
resolved_key signer writable source address = record {
  address = address;
  signer = signer;
  writable = writable;
  source = source;
}

-- The callback of `accountKeys.map`, at one index.
static_key : MessageHeader → ℕ → ℕ → String → ResolvedAccountKey
static_key header count index address =
    let signer = ltb index header.num_required_signatures in
    let writable =
      if signer
      then ltb index (header.num_required_signatures - header.num_readonly_signed_accounts)
      else ltb index (count - header.num_readonly_unsigned_accounts) in
    resolved_key signer writable KeySource.static address

static_keys : MessageHeader → ℕ → ℕ → List String → List ResolvedAccountKey
static_keys header count index [] = []
static_keys header count index (address ∷ rest) =
    static_key header count index address ∷ static_keys header count (index + 1) rest

-- `loadedAddresses?.writable ?? []`
abbrev pub loaded_writable : Option LoadedAddresses → List String
loaded_writable none = []
loaded_writable (some loaded) = loaded.writable

abbrev pub loaded_readonly : Option LoadedAddresses → List String
loaded_readonly none = []
loaded_readonly (some loaded) = loaded.readonly

unfoldable pub resolve_account_keys : Message → Option LoadedAddresses → List ResolvedAccountKey
unfolding static_keys static_key
resolve_account_keys message loaded =
    static_keys message.header (length message.account_keys) 0 message.account_keys
    ++ (map (resolved_key false true KeySource.loaded_writable) (loaded_writable loaded)
        ++ map (resolved_key false false KeySource.loaded_readonly) (loaded_readonly loaded))
