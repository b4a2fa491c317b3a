-- ===== src/Core/VerifyPayment/Delta.antt =====
-- The net of the parsed transfers at one account, as what comes in against what goes out.
use solana_payment_ops.Common.{
  ℕ, ◌+◌, ◌≡◌, String, List, [], ◌∷◌, arith, if◌then◌else◌, ◌===◌, ==_iff, ◌↔◌, Bool, true, false,
}
use solana_payment_ops.Common.Int.{ℤ, pos, eq_ℤ, pos_part, neg_part, ◌+ℤ◌, ◌-ℤ◌, +ℤ_parts, -ℤ_parts}
use solana_payment_ops.Core.Types.{ParsedTransfer}
use solana_payment_ops.Core.VerifyPayment.{
  credit, debit, aggregate_step, aggregate_from, aggregate_destination_delta,
}

-- The base units of a mint that transfers bring to an account, and those that they take from it.
abbrev pub incoming : ℕ → String → List ParsedTransfer → ℕ
incoming account mint [] = 0
incoming account mint (t ∷ ts) =
    (if t.mint === mint then credit account t else 0) + incoming account mint ts

abbrev pub outgoing : ℕ → String → List ParsedTransfer → ℕ
outgoing account mint [] = 0
outgoing account mint (t ∷ ts) =
    (if t.mint === mint then debit account t else 0) + outgoing account mint ts

if_parts :
    (b : Bool) (net : ℤ) (c d : ℕ)
    → let next = if b then net +ℤ pos c -ℤ pos d else net in
      pos_part next + neg_part net + (if b then d else 0)
      ≡ neg_part next + pos_part net + (if b then c else 0)
if_parts true net c d = omega (arith, +ℤ_parts net (pos c), -ℤ_parts (net +ℤ pos c) (pos d))
if_parts false net c d = omega arith

step_parts :
    (account : ℕ) (mint : String) (net : ℤ) (t : ParsedTransfer)
    → pos_part (aggregate_step account mint net t)
        + neg_part net
        + (if t.mint === mint then debit account t else 0)
      ≡ neg_part (aggregate_step account mint net t)
        + pos_part net
        + (if t.mint === mint then credit account t else 0)
unfolding aggregate_step
step_parts account mint net t = if_parts (t.mint === mint) net (credit account t) (debit account t)

aggregate_from_parts :
    (account : ℕ) (mint : String) (net : ℤ) (ts : List ParsedTransfer)
    → pos_part (aggregate_from account mint net ts) + neg_part net + outgoing account mint ts
      ≡ neg_part (aggregate_from account mint net ts) + pos_part net + incoming account mint ts
unfolding aggregate_from
aggregate_from_parts account mint net [] = omega arith
aggregate_from_parts account mint net (t ∷ ts) = omega (
  arith,
  step_parts account mint net t,
  aggregate_from_parts account mint (aggregate_step account mint net t) ts,
)

-- The balance test: what was there and came in is what is there and went out.
pub eq_delta_iff :
    (pre post account : ℕ) (mint : String) (ts : List ParsedTransfer)
    → (eq_ℤ (pos post -ℤ pos pre) (aggregate_destination_delta ts account mint) ≡ true)
      ↔ (pre + incoming account mint ts ≡ post + outgoing account mint ts)
unfolding aggregate_destination_delta
eq_delta_iff pre post account mint ts =
    let parts = aggregate_from_parts account mint (pos 0) ts in
    let actual = -ℤ_parts (pos post) (pos pre) in
    (
      λ h. omega (arith, parts, actual, (==_iff _ _).0 h),
      λ h. (==_iff _ _).1 (omega (arith, parts, actual)),
    )
