-- ===== src/Core/AccountKeys/Partition.antt =====
-- The privileges of the static keys, from the four runs in which a message lists them.
use solana_payment_ops.Common.{
  ℕ, suc, ◌+◌, ◌≤◌, ◌<◌, ◌≡◌, refl, ap, ap₂, ◌∙◌, String, Bool, true, false, Option, List, [], ◌∷◌,
  ◌++◌, map, arith, ltb, if◌then◌else◌, length, length-append,
}
use solana_payment_ops.Core.Types.{
  ResolvedAccountKey, KeySource, MessageHeader, Message, LoadedAddresses,
}
use solana_payment_ops.Core.AccountKeys.{
  resolved_key, static_key, static_keys, loaded_writable, loaded_readonly, resolve_account_keys,
}

module _ (header : MessageHeader) (count : ℕ) where
  static_keys-append :
      (index : ℕ) (xs ys : List String)
      → static_keys header count index (xs ++ ys)
        ≡ static_keys header count index xs ++ static_keys header count (index + length xs) ys
  unfolding static_keys
  static_keys-append index [] ys =
      let e : index ≡ index + 0 = omega arith in ap (λ i. static_keys header count i ys) e
  static_keys-append index (x ∷ xs) ys =
      let e : index + 1 + length xs ≡ index + suc (length xs) = omega arith in
      ap (◌∷◌ (static_key header count index x)) (
        static_keys-append (index + 1) xs ys
        ∙ ap (λ i. static_keys header count (index + 1) xs ++ static_keys header count i ys) e)

  -- A run of keys whose indexes all have the same privileges.
  static_keys-run :
      (signer writable : Bool) (index : ℕ) (xs : List String)
      → ((i : ℕ) (x : String)
          → index ≤ i
          → i < index + length xs
          → static_key header count i x ≡ resolved_key signer writable KeySource.static x)
      → static_keys header count index xs ≡ map (resolved_key signer writable KeySource.static) xs
  unfolding static_keys
  static_keys-run signer writable index [] same = refl
  static_keys-run signer writable index (x ∷ xs) same =
      ap₂ ◌∷◌ (same index x (omega arith) (omega arith)) (
        static_keys-run signer writable (index + 1) xs
          (λ i y low high. same i y (omega arith) (omega arith)))

-- A message whose keys are writable signers, read-only signers, writable and read-only others, with
-- a header that counts them.
pub record IsPartitioned (message : Message) (ws rs wu ru : List String) : Type 0 where
  pub keys : message.account_keys ≡ ws ++ (rs ++ (wu ++ ru))
  pub signers : message.header.num_required_signatures ≡ length ws + length rs
  pub readonly_signers : message.header.num_readonly_signed_accounts ≡ length rs
  pub readonly_others : message.header.num_readonly_unsigned_accounts ≡ length ru

abbrev pub static_run : Bool → Bool → List String → List ResolvedAccountKey
static_run signer writable = map (resolved_key signer writable KeySource.static)

module _ (message : Message) (ws rs wu ru : List String)
    (p : IsPartitioned message ws rs wu ru) where
  abbrev total : ℕ
  total = length ws + length rs + length wu + length ru

  key_at :
      (signer writable : Bool) (index : ℕ) (xs : List String)
      → ((i : ℕ)
          → index ≤ i
          → i < index + length xs
          → (ltb i (length ws + length rs) ≡ signer)
            × ((if signer then ltb i (length ws) else ltb i (length ws + length rs + length wu))
                ≡ writable))
      → static_keys message.header total index xs ≡ static_run signer writable xs
  unfolding static_key
  key_at signer writable index xs h =
      static_keys-run message.header total signer writable index xs
        (λ i x low high. ground (arith, h i low high))

  static_keys-partition :
      static_keys message.header total 0 (ws ++ (rs ++ (wu ++ ru)))
      ≡ static_run true true ws
        ++ (static_run true false rs ++ (static_run false true wu ++ static_run false false ru))
  static_keys-partition =
      static_keys-append message.header total 0 ws (rs ++ (wu ++ ru))
      ∙ ap₂ ◌++◌ (key_at true true 0 ws (λ i low high. ground arith)) (
          static_keys-append message.header total (0 + length ws) rs (wu ++ ru)
          ∙ ap₂ ◌++◌ (key_at true false (0 + length ws) rs (λ i low high. ground arith)) (
              static_keys-append message.header total (0 + length ws + length rs) wu ru
              ∙ ap₂ ◌++◌
                  (key_at false true (0 + length ws + length rs) wu (λ i low high. ground arith))
                  (key_at false false (0 + length ws + length rs + length wu) ru
                    (λ i low high. ground arith))))

  -- The keys of a message in four runs, writable signers, read-only signers, writable others and
  -- read-only others, with a header that counts them, resolve in that order to keys that are
  -- signers in the first two runs and writable in the first and third; the loaded writable and then
  -- the loaded read-only addresses follow, and never sign.
  pub resolve_account_keys-partition :
      (loaded : Option LoadedAddresses)
      → resolve_account_keys message loaded
        ≡ (static_run true true ws
            ++ (static_run true false rs
                ++ (static_run false true wu ++ static_run false false ru)))
          ++ (map (resolved_key false true KeySource.loaded_writable) (loaded_writable loaded)
              ++ map (resolved_key false false KeySource.loaded_readonly) (loaded_readonly loaded))
  unfolding resolve_account_keys
  resolve_account_keys-partition loaded =
      let size : length message.account_keys ≡ total =
        ap length p.keys
        ∙ omega (
          arith,
          length-append ws (rs ++ (wu ++ ru)),
          length-append rs (wu ++ ru),
          length-append wu ru,
        ) in
      ap
        (λ s.
          s
          ++ (map (resolved_key false true KeySource.loaded_writable) (loaded_writable loaded)
              ++ map (resolved_key false false KeySource.loaded_readonly) (loaded_readonly loaded)))
        (ap₂ (λ n ks. static_keys message.header n 0 ks) size p.keys ∙ static_keys-partition)
