-- ===== src/Webhooks/Signing/Hex.antt =====
-- Hexadecimal texts of packages/webhooks/src/signing/hmac.ts and the bytes that they stand for.
use solana_payment_ops.Common.{
  ℕ, zero, suc, ◌+◌, ◌*◌, ◌<◌, ◌≡◌, refl, ap₂, true, [], ◌∷◌, arith, all, length,
}
use solana_payment_ops.Common.Decimal.{Text}
use solana_payment_ops.Webhooks.Signing.{is_hex_char, hex_value, hex_bytes}

hex_value-lt : (c : ℕ) → is_hex_char c ≡ true → hex_value c < 16
hex_value-lt c h = ground arith

hex_value-injective :
    (c d : ℕ) → is_hex_char c ≡ true → is_hex_char d ≡ true → hex_value c ≡ hex_value d → c ≡ d
hex_value-injective c d h k e = ground arith

pair-injective : (a b c d : ℕ) → b < 16 → d < 16 → a * 16 + b ≡ c * 16 + d → (a ≡ c) × (b ≡ d)
pair-injective a b c d h k e = (omega arith, omega arith)

-- Texts of as many pairs of hexadecimal digits, with the same bytes, are the same.
pub hex_bytes-injective :
    (n : ℕ) (s t : Text)
    → length s ≡ n * 2
    → length t ≡ n * 2
    → all is_hex_char s ≡ true
    → all is_hex_char t ≡ true
    → hex_bytes s ≡ hex_bytes t
    → s ≡ t
hex_bytes-injective zero [] [] hs ht p q e = refl
hex_bytes-injective zero [] (c ∷ t) hs ht p q e = absurd (omega arith)
hex_bytes-injective zero (c ∷ s) t hs ht p q e = absurd (omega arith)
hex_bytes-injective (suc n) [] t hs ht p q e = absurd (omega arith)
hex_bytes-injective (suc n) (a ∷ []) t hs ht p q e = absurd (omega arith)
hex_bytes-injective (suc n) (a ∷ (b ∷ s)) [] hs ht p q e = absurd (omega arith)
hex_bytes-injective (suc n) (a ∷ (b ∷ s)) (c ∷ []) hs ht p q e = absurd (omega arith)
hex_bytes-injective (suc n) (a ∷ (b ∷ s)) (c ∷ (d ∷ t)) hs ht p q e =
    let ha : is_hex_char a ≡ true = ground arith in
    let hb : is_hex_char b ≡ true = ground arith in
    let hc : is_hex_char c ≡ true = ground arith in
    let hd : is_hex_char d ≡ true = ground arith in
    let same : (hex_value a * 16 + hex_value b) ∷ hex_bytes s
        ≡ (hex_value c * 16 + hex_value d) ∷ hex_bytes t =
      rw (ha, hb, hc, hd) at e in
    let heads : hex_value a * 16 + hex_value b ≡ hex_value c * 16 + hex_value d = cc same in
    let tails : hex_bytes s ≡ hex_bytes t = cc same in
    let (high, low) =
      pair-injective (hex_value a) (hex_value b) (hex_value c) (hex_value d) (hex_value-lt b hb)
        (hex_value-lt d hd) heads in
    ap₂ (λ x xs. x ∷ xs) (hex_value-injective a c ha hc high)
      (ap₂ (λ x xs. x ∷ xs) (hex_value-injective b d hb hd low)
        (hex_bytes-injective n s t (omega arith) (omega arith) (ground arith) (ground arith) tails))
