-- ===== src/Webhooks/Signing.antt =====
-- `verifyWebhook` of packages/webhooks/src/signing/hmac.ts, which reads what `signWebhook` signed. HMAC
-- in hexadecimal is a parameter. A date or a tolerance that is not finite, or is negative, is none;
-- dates count from the Unix epoch.
pub mod Hex
pub mod Parses
pub mod Accepts
pub mod Delivered
use solana_payment_ops.Common.{
  ℕ, zero, suc, ◌+◌, ◌-◌, ◌*◌, Bool, true, false, not, ◌&&◌, ◌||◌, Option, none, some, List, [],
  ◌∷◌, if◌then◌else◌, ltb, leb, ◌==◌, all, length, drop,
}
use solana_payment_ops.Common.Decimal.{Text, codes, parse, is_digit}
use solana_payment_ops.Platform.Numerals.{eq_text}
use solana_payment_ops.Webhooks.Worker.{is_decimal, sign_webhook}

pub record WebhookRequest : Type 0 where
  pub body : Text
  pub timestamp : Text
  pub signature : Text

pub data VerificationFailureCode : Type 0 where
  invalid_verification_options malformed_timestamp malformed_signature : VerificationFailureCode
  unsupported_signature_version timestamp_outside_tolerance : VerificationFailureCode
  signature_mismatch : VerificationFailureCode

-- Verified by the secret of an index, or not.
pub data VerificationResult : Type 0 where
  verified : ℕ → VerificationResult
  refused : VerificationFailureCode → VerificationResult

abbrev pub maximum_tolerance_ms : ℕ
maximum_tolerance_ms = 3_600_000

-- `parseUnixTimestamp`: a decimal text of seconds whose milliseconds are a safe integer.
abbrev pub parse_unix_timestamp : Text → Option ℕ
parse_unix_timestamp value =
    if is_decimal value && leb (parse value * 1_000) 9_007_199_254_740_991
    then some (parse value * 1_000)
    else none

abbrev pub is_version_char : ℕ → Bool
is_version_char c = is_digit c || (leb b'a' c && leb c b'z')

abbrev pub is_hex_char : ℕ → Bool
is_hex_char c = is_digit c || (leb b'a' c && leb c b'f')

-- One or more of a class of characters.
abbrev pub is_run : (ℕ → Bool) → Text → Bool
is_run p text = ltb 0 (length text) && all p text

-- What stands before the first `=` and what stands after it.
abbrev pub before_equals : Text → Text
before_equals [] = []
before_equals (c ∷ s) = if c == b'=' then [] else c ∷ before_equals s

abbrev pub after_equals : Text → Text
after_equals [] = []
after_equals (c ∷ s) = if c == b'=' then s else after_equals s

-- `signaturePattern`: neither class has an `=`. A text without one has nothing after it.
abbrev pub is_signature : Text → Bool
is_signature value =
    is_run is_version_char (before_equals value) && is_run is_hex_char (after_equals value)

pub data ParsedSignature : Type 0 where
  malformed unsupported : ParsedSignature
  parsed : Text → ParsedSignature

abbrev pub parse_signature : Text → ParsedSignature
parse_signature value =
    if not (is_signature value)
    then malformed
    else if not (eq_text (before_equals value) (codes "v1"))
    then unsupported
    else if length (after_equals value) == 64
    then parsed (after_equals value)
    else malformed

abbrev pub hex_value : ℕ → ℕ
hex_value c = if is_digit c then c - b'0' else c - b'a' + 10

-- `Buffer.from(text, "hex")`, which ends at the first pair that is not hexadecimal.
abbrev pub hex_bytes : Text → List ℕ
hex_bytes [] = []
hex_bytes (a ∷ []) = []
hex_bytes (a ∷ (b ∷ s)) =
    let rest = hex_bytes s in
    if is_hex_char a && is_hex_char b then (hex_value a * 16 + hex_value b) ∷ rest else []

-- The test on one secret; `timingSafeEqual` compares the bytes.
abbrev pub is_signed : (Text → Text → Text) → WebhookRequest → Text → Text → Bool
is_signed hmac_sha256 request digest secret =
    let expected = drop 3 (sign_webhook hmac_sha256 request.body request.timestamp secret) in
    length expected == length digest && eq_text (hex_bytes expected) (hex_bytes digest)

-- The loop over the secrets, from one index on.
abbrev pub find_secret : (Text → Bool) → ℕ → List Text → VerificationResult
find_secret signed index [] = refused signature_mismatch
find_secret signed index (secret ∷ secrets) =
    let rest = find_secret signed (suc index) secrets in
    if signed secret then verified index else rest

-- `Math.abs(now.getTime() - timestamp)`
abbrev pub apart : ℕ → ℕ → ℕ
apart now timestamp = (now - timestamp) + (timestamp - now)

abbrev pub verify_signature :
    (Text → Text → Text) → WebhookRequest → List Text → Bool → ParsedSignature → VerificationResult
verify_signature hmac_sha256 request secrets late malformed = refused malformed_signature
verify_signature hmac_sha256 request secrets late unsupported =
    refused unsupported_signature_version
verify_signature hmac_sha256 request secrets late (parsed digest) =
    if late
    then refused timestamp_outside_tolerance
    else find_secret (is_signed hmac_sha256 request digest) 0 secrets

abbrev pub verify_timestamp :
    (Text → Text → Text) → WebhookRequest → List Text → ℕ → ℕ → Option ℕ → VerificationResult
verify_timestamp hmac_sha256 request secrets now tolerance none = refused malformed_timestamp
verify_timestamp hmac_sha256 request secrets now tolerance (some timestamp) =
    verify_signature hmac_sha256 request secrets (ltb tolerance (apart now timestamp))
      (parse_signature request.signature)

unfoldable pub verify_webhook :
    (Text → Text → Text) → WebhookRequest → List Text → Option ℕ → Option ℕ → VerificationResult
verify_webhook hmac_sha256 request secrets (some now) (some tolerance) =
    if ltb maximum_tolerance_ms tolerance
    then refused invalid_verification_options
    else verify_timestamp hmac_sha256 request secrets now tolerance
        (parse_unix_timestamp request.timestamp)
verify_webhook hmac_sha256 request secrets _ _ = refused invalid_verification_options
