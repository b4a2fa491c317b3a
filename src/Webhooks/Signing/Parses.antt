-- ===== src/Webhooks/Signing/Parses.antt =====
-- What `parseSignature` of packages/webhooks/src/signing/hmac.ts reads.
use solana_payment_ops.Common.{
  ◌≡◌, ◌↔◌, inl, inr, refl, sym, ap, ap₂, ◌∙◌, Bool, true, false, not, [], ◌∷◌, ◌++◌, if◌then◌else◌,
  ltb, ◌==◌, all, length, arith, Bool-cases,
}
use solana_payment_ops.Common.Decimal.{Text, codes}
use solana_payment_ops.Platform.Numerals.{eq_text, eq_text→eq}
use solana_payment_ops.Webhooks.Signing.{
  is_hex_char, before_equals, after_equals, is_signature, malformed, unsupported, parsed,
  parse_signature,
}

pub eq_text_self : (s : Text) → eq_text s s ≡ true
eq_text_self [] = refl
eq_text_self (c ∷ s) = ground (arith, eq_text_self s)

-- A text is cut at its first `=`, if something stands after one.
cut-append :
    (s : Text)
    → ltb 0 (length (after_equals s)) ≡ true
    → s ≡ before_equals s ++ (b'=' ∷ after_equals s)
cut-append [] h = cc h
cut-append (c ∷ s) h = elim (Bool-cases (c == b'=')) [
  | inl e ↦ let same : c ≡ b'=' = ground arith in rw e (ap (λ x. x ∷ s) same)
  | inr e ↦
      let more : ltb 0 (length (after_equals s)) ≡ true = rw e at h in
      rw e (ap (λ xs. c ∷ xs) (cut-append s more))
]

-- A digest of 64 hexadecimal digits.
abbrev pub IsDigest : Text → Type 0
IsDigest digest = (length digest ≡ 64) × (all is_hex_char digest ≡ true)

parsed-tests :
    (matches is_v1 is_full : Bool) (found digest : Text)
    → (if not matches
        then malformed
        else if not is_v1
        then unsupported
        else if is_full
        then parsed found
        else malformed)
      ≡ parsed digest
    → (matches ≡ true) × (is_v1 ≡ true) × (is_full ≡ true) × (found ≡ digest)
parsed-tests true true true found digest h = (refl, refl, refl, cc h)
parsed-tests true true false found digest h = cc h
parsed-tests true false l found digest h = cc h
parsed-tests false v l found digest h = cc h

signed-parses : (d : Text) → IsDigest d → parse_signature (codes "v1=" ++ d) ≡ parsed d
signed-parses d digest = rw (digest.0, digest.1) refl

pub parse_signature_iff :
    (s d : Text) → (parse_signature s ≡ parsed d) ↔ ((s ≡ codes "v1=" ++ d) × IsDigest d)
parse_signature_iff s d = (
  λ h.
      let (matches, is_v1, is_full, found) =
        parsed-tests (is_signature s) (eq_text (before_equals s) (codes "v1"))
          (length (after_equals s) == 64) (after_equals s) d h in
      let some_digit : ltb 0 (length (after_equals s)) ≡ true = ground arith in
      let hex : all is_hex_char (after_equals s) ≡ true = ground arith in
      let size : length (after_equals s) ≡ 64 = ground arith in
      (
        cut-append s some_digit
            ∙ ap₂ (λ v x. v ++ (b'=' ∷ x)) (eq_text→eq (before_equals s) (codes "v1") is_v1) found,
        (ap length (sym found) ∙ size, ap (all is_hex_char) (sym found) ∙ hex),
      ),
  λ (e, digest). ap parse_signature e ∙ signed-parses d digest,
)
