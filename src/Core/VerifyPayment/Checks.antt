-- ===== src/Core/VerifyPayment/Checks.antt =====
-- What each check of verify-payment.ts passes on, without its tests.
use mathlib.Core.List.{Memᴰ}
use solana_payment_ops.Common.{
  ℕ, ◌≡◌, refl, sym, ◌∙◌, ◌↔◌, ◌⊎◌, inl, inr, String, true, false, ◌&&◌, Option, none, some, List,
  [], ◌∷◌, arith, ◌==◌, leb, ◌===◌, ===_iff, includes, is_some, Bool-cases, and_iff,
}
use solana_payment_ops.Core.Types.{
  Cluster, Commitment, TokenBalance, Asset, mainnet_usdc, mainnet_usdt,
  legacy_token_program_address,
}
use solana_payment_ops.Core.VerifyPayment.{
  commitment_rank, eq_cluster, supported_asset, program_matches, decimals_match, owner_of,
  program_of, mint_of,
}

pub eq_cluster_iff : (c d : Cluster) → (eq_cluster c d ≡ true) ↔ (c ≡ d)
unfolding eq_cluster
eq_cluster_iff Cluster.mainnet_beta Cluster.mainnet_beta = ground arith
eq_cluster_iff Cluster.devnet Cluster.devnet = ground arith
eq_cluster_iff Cluster.localnet Cluster.localnet = ground arith
eq_cluster_iff _ _ = ground arith

-- A finalized payment is wanted only of a finalized transaction.
pub commitment_iff :
    (required actual : Commitment)
    → (leb (commitment_rank required) (commitment_rank actual) ≡ true)
      ↔ (required ≡ Commitment.finalized → actual ≡ Commitment.finalized)
commitment_iff required actual = ground arith

-- The mint is that of mainnet USDC or USDT.
abbrev pub IsSupported : String → Type 0
IsSupported mint = (mint ≡ mainnet_usdc.mint) ⊎ (mint ≡ mainnet_usdt.mint)

not-IsSupported :
    (mint : String)
    → (mainnet_usdc.mint === mint) ≡ false
    → (mainnet_usdt.mint === mint) ≡ false
    → ¬ IsSupported mint
not-IsSupported mint not_usdc not_usdt (inl e) =
    cc (sym ((===_iff mainnet_usdc.mint mint).1 (sym e)) ∙ not_usdc)
not-IsSupported mint not_usdc not_usdt (inr e) =
    cc (sym ((===_iff mainnet_usdt.mint mint).1 (sym e)) ∙ not_usdt)

pub IsSupported-cases :
    (mint : String)
    → (IsSupported mint
        × ((a : Asset) × (supported_asset mint ≡ some a)
            × (a.token_program ≡ legacy_token_program_address)
            × (a.decimals ≡ 6)))
      ⊎ ((supported_asset mint ≡ none) × ¬ IsSupported mint)
IsSupported-cases mint = elim (Bool-cases (mainnet_usdc.mint === mint)) [
  | inl usdc ↦ inl (inl (sym ((===_iff _ mint).0 usdc)), (mainnet_usdc, rw usdc, refl, refl))
  | inr not_usdc ↦ elim (Bool-cases (mainnet_usdt.mint === mint)) [
    | inl usdt ↦
        inl (inr (sym ((===_iff _ mint).0 usdt)), (mainnet_usdt, rw (not_usdc, usdt), refl, refl))
    | inr not_usdt ↦ inr (rw (not_usdc, not_usdt), not-IsSupported mint not_usdc not_usdt)
  ]
]

pub includes→Memᴰ : (xs : List String) (t : String) → includes xs t ≡ true → Memᴰ t xs
includes→Memᴰ [] t h = absurd (cc)
includes→Memᴰ (x ∷ xs) t h = elim (Bool-cases (x === t)) [
  | inl same ↦ Memᴰ.head (sym ((===_iff x t).0 same))
  | inr other ↦ Memᴰ.tail (includes→Memᴰ xs t (ground arith))
]

pub Memᴰ→includes : (t : String) (xs : List String) → Memᴰ t xs → includes xs t ≡ true
Memᴰ→includes t [] m = elim m [ ]
Memᴰ→includes t (x ∷ xs) (Memᴰ.head e) = ground (arith, ===_iff x t, sym e)
Memᴰ→includes t (x ∷ xs) (Memᴰ.tail m) = ground (arith, Memᴰ→includes t xs m)

-- The token program is the legacy one, which is that of both supported assets.
pub token_program_iff :
    (program expected mint : String)
    → ((program === expected && program_matches (supported_asset mint) expected) ≡ true) ↔ (
        (program ≡ legacy_token_program_address)
        × (expected ≡ legacy_token_program_address)
        × IsSupported mint)
token_program_iff program expected mint = elim (IsSupported-cases mint) [
  | inl (listed, (a, found, legacy, _)) ↦ rw found (
    λ h.
        let (p, q) = (and_iff (program === expected) (a.token_program === expected)).0 h in
        let same : expected ≡ legacy_token_program_address =
          sym ((===_iff a.token_program expected).0 q) ∙ legacy in
        ((===_iff program expected).0 p ∙ same, same, listed),
    λ h. (and_iff (program === expected) (a.token_program === expected)).1 (
      (===_iff program expected).1 (h.0 ∙ sym h.1),
      (===_iff a.token_program expected).1 (legacy ∙ sym h.1),
    ),
  )
  | inr (missing, unlisted) ↦
      rw missing (
        λ h. absurd (cc ((and_iff (program === expected) false).0 h).1),
        λ h. absurd (unlisted h.2),
      )
]

pub mint_iff :
    (mint expected : String)
    → ((mint === expected && is_some (supported_asset expected)) ≡ true)
      ↔ ((mint ≡ expected) × IsSupported expected)
mint_iff mint expected = elim (IsSupported-cases expected) [
  | inl (listed, (a, found, _, _)) ↦ rw found (
    λ h. ((===_iff mint expected).0 ((and_iff (mint === expected) true).0 h).0, listed),
    λ h. (and_iff (mint === expected) true).1 ((===_iff mint expected).1 h.0, refl),
  )
  | inr (missing, unlisted) ↦
      rw missing
        (λ h. absurd (cc ((and_iff (mint === expected) false).0 h).1), λ h. absurd (unlisted h.1))
]

-- Both supported assets have six decimals.
pub decimals_iff :
    (decimals expected : ℕ) (mint : String)
    → IsSupported mint
    → ((decimals == expected && decimals_match (supported_asset mint) expected) ≡ true)
      ↔ ((decimals ≡ 6) × (expected ≡ 6))
decimals_iff decimals expected mint listed = elim (IsSupported-cases mint) [
  | inl (_, (a, found, _, six)) ↦ rw found (rw six (ground arith))
  | inr (_, unlisted) ↦ absurd (unlisted listed)
]

-- The balance of an account shows an owner, a program and a mint.
pub record IsHeldBy (b : TokenBalance) (owner program mint : String) : Type 0 where
  pub owner_same : b.owner ≡ some owner
  pub program_same : b.program_id ≡ some program
  pub mint_same : b.mint ≡ mint

pub held_by :
    (o : Option TokenBalance) (owner program mint : String)
    → owner_of o ≡ some owner
    → program_of o ≡ some program
    → mint_of o ≡ some mint
    → (b : TokenBalance) × (o ≡ some b) × IsHeldBy b owner program mint
held_by none owner program mint e f g = absurd (cc)
held_by (some b) owner program mint e f g =
    (b, refl, record { owner_same = e; program_same = f; mint_same = cc g })
