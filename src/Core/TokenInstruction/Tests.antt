-- ===== src/Core/TokenInstruction/Tests.antt =====
-- The decoder on the two supported instructions.
use solana_payment_ops.Common.{
  ℕ, ◌<◌, ◌^◌, ◌≡◌, refl, String, Option, some, List, [], ◌∷◌, all, All, All-mono, all→All, ltb,
  ltb→lt, true,
}
use solana_payment_ops.Core.TokenInstruction.Layout.{IsByte}
use solana_payment_ops.Core.Samples.{paid_bytes, decode_paid}
use solana_payment_ops.Core.TokenInstruction.{
  transfer, transfer_checked, malformed, decode_token_instruction, read_u64_little_endian,
}
use solana_payment_ops.Core.TokenInstruction.Exact.{
  transfer_layout, transfer_checked_layout, decode_token_instruction-transfer_checked_iff,
  decode_token_instruction-transfer_iff,
}

abbrev moved_bytes : List ℕ
moved_bytes = 3 ∷ 1 ∷ 1 ∷ 0 ∷ 0 ∷ 0 ∷ 0 ∷ 0 ∷ 0 ∷ []

abbrev decode_moved : String → Option (List ℕ)
decode_moved text = some moved_bytes

bytes-All : (bytes : List ℕ) → all (λ n. ltb n 256) bytes ≡ true → All IsByte bytes
bytes-All bytes h =
    All-mono (λ n. ltb n 256 ≡ true) (λ n k. ltb→lt n 256 k) bytes
      (all→All (λ n. ltb n 256) bytes h)

paid_is_decoded : decode_token_instruction decode_paid "data" ≡ transfer_checked 2_500_000 6
unfolding decode_token_instruction read_u64_little_endian
paid_is_decoded = refl

moved_is_decoded : decode_token_instruction decode_moved "data" ≡ transfer 257
unfolding decode_token_instruction read_u64_little_endian
moved_is_decoded = refl

short_is_malformed :
    decode_token_instruction (λ text. some (12 ∷ 1 ∷ [])) "data" ≡ malformed (some 12)
unfolding decode_token_instruction
short_is_malformed = refl

decode_token_instruction-transfer_checked_iff_example :
    (paid_bytes ≡ transfer_checked_layout 2_500_000 6) × (2_500_000 < 2 ^ 64)
decode_token_instruction-transfer_checked_iff_example =
    (decode_token_instruction-transfer_checked_iff decode_paid "data" paid_bytes refl
        (bytes-All paid_bytes refl) 2_500_000 6).0
      paid_is_decoded

decode_token_instruction-transfer_iff_example : (moved_bytes ≡ transfer_layout 257) × (257 < 2 ^ 64)
decode_token_instruction-transfer_iff_example =
    (decode_token_instruction-transfer_iff decode_moved "data" moved_bytes refl
        (bytes-All moved_bytes refl) 257).0
      moved_is_decoded
