-- ===== src/Webhooks/Signing/Accepts.antt =====
-- When `verifyWebhook` of packages/webhooks/src/signing/hmac.ts verifies a request.
use solana_payment_ops.Common.{
  ℕ, zero, suc, ◌+◌, ◌*◌, ◌≤◌, ◌≡◌, ◌≢◌, ◌↔◌, inl, inr, refl, sym, ap, ap₂, ◌∙◌, subst, Bool, true,
  false, ◌&&◌, Option, none, some, List, [], ◌∷◌, ◌++◌, ltb, leb, drop, take, get_elem?, All, arith,
  Bool-cases,
}
use solana_payment_ops.Common.Decimal.{Text, codes, parse}
use solana_payment_ops.Platform.Numerals.{eq_text, eq_text→eq}
use solana_payment_ops.Webhooks.Worker.{is_decimal, sign_webhook}
use solana_payment_ops.Webhooks.Signing.{
  WebhookRequest, verified, maximum_tolerance_ms, parse_unix_timestamp, ParsedSignature, malformed,
  unsupported, parsed, parse_signature, hex_bytes, is_signed, find_secret, apart, verify_signature,
  verify_timestamp, verify_webhook,
}
use solana_payment_ops.Webhooks.Signing.Hex.{hex_bytes-injective}
use solana_payment_ops.Webhooks.Signing.Parses.{IsDigest, eq_text_self, parse_signature_iff}

module _ (hmac_sha256 : Text → Text → Text)
    (hexadecimal : (key message : Text) → IsDigest (hmac_sha256 key message)) where
  -- The request bears the signature that the secret makes of its body and its timestamp.
  abbrev pub IsSignedBy : WebhookRequest → Text → Type 0
  IsSignedBy request secret =
      request.signature ≡ sign_webhook hmac_sha256 request.body request.timestamp secret

  module _ (request : WebhookRequest) (digest : Text)
      (signed : request.signature ≡ codes "v1=" ++ digest) (full : IsDigest digest) where
    is_signed_iff :
        (secret : Text)
        → (is_signed hmac_sha256 request digest secret ≡ true) ↔ IsSignedBy request secret
    is_signed_iff secret =
        let message : Text = request.timestamp ++ (codes "." ++ request.body) in
        let expected : Text = hmac_sha256 secret message in
        let facts = hexadecimal secret message in
        (
          λ h.
              let bytes : eq_text (hex_bytes expected) (hex_bytes digest) ≡ true = ground arith in
              let same : expected ≡ digest =
                hex_bytes-injective 32 expected digest facts.0 full.0 facts.1 full.1
                  (eq_text→eq (hex_bytes expected) (hex_bytes digest) bytes) in
              signed ∙ ap (λ x. codes "v1=" ++ x) (sym same),
          λ h.
              let same : expected ≡ digest = ap (drop 3) (sym h ∙ signed) in
              rw (same, eq_text_self (hex_bytes digest)) (ground arith),
        )

    -- The first of the secrets that signed the request, `index` places on.
    abbrev IsFirst : List Text → ℕ → ℕ → Type 0
    IsFirst secrets from index =
        (i : ℕ) × (secret : Text) × (index ≡ from + i)
        × (get_elem? secrets i ≡ some secret)
        × IsSignedBy request secret
        × All (λ other. ¬ IsSignedBy request other) (take i secrets)

    IsFirst-here :
        (secret : Text) (secrets : List Text) (from index : ℕ)
        → IsSignedBy request secret
        → IsFirst (secret ∷ secrets) from index
        → from ≡ index
    IsFirst-here secret secrets from index by (zero, s, e, at, sg, others) = omega arith
    IsFirst-here secret secrets from index by (suc i, s, e, at, sg, others) = absurd (others.0 by)

    IsFirst-later :
        (secret : Text) (secrets : List Text) (from index : ℕ)
        → (¬ IsSignedBy request secret)
        → IsFirst secrets (suc from) index ↔ IsFirst (secret ∷ secrets) from index
    IsFirst-later secret secrets from index other = (
      λ (i, s, e, at, sg, others). (suc i, s, omega arith, at, sg, (other, others)),
      λ first. later first,
    )
      where
        later : IsFirst (secret ∷ secrets) from index → IsFirst secrets (suc from) index
        later (zero, s, e, at, sg, others) =
            let same : s ≡ secret = cc at in absurd (other (subst (IsSignedBy request) same sg))
        later (suc i, s, e, at, sg, others) = (i, s, omega arith, at, sg, others.1)

    find_secret_iff :
        (secrets : List Text) (from index : ℕ)
        → (find_secret (is_signed hmac_sha256 request digest) from secrets ≡ verified index)
          ↔ IsFirst secrets from index
    find_secret_iff [] from index = (λ h. cc h, λ (i, s, e, at, sg, others). cc at)
    find_secret_iff (secret ∷ secrets) from index =
        let rest = find_secret_iff secrets (suc from) index in
        elim (Bool-cases (is_signed hmac_sha256 request digest secret)) [
          | inl accepted ↦
              let by = (is_signed_iff secret).0 accepted in
              rw accepted (
                λ h. let same : from ≡ index = cc h in (0, secret, omega arith, refl, by, tt),
                λ first. ap verified (IsFirst-here secret secrets from index by first),
              )
          | inr passed ↦
              let other : ¬ IsSignedBy request secret =
                λ by. cc ((is_signed_iff secret).1 by, passed) in
              rw passed (
                λ h. (IsFirst-later secret secrets from index other).0 (rest.0 h),
                λ first. rest.1 ((IsFirst-later secret secrets from index other).1 first),
              )
        ]

  verify_signature_iff :
      (request : WebhookRequest) (secrets : List Text) (late : Bool) (index : ℕ)
      → (verify_signature hmac_sha256 request secrets late (parse_signature request.signature)
          ≡ verified index)
        ↔ ((late ≡ false)
            × ((secret : Text) × (get_elem? secrets index ≡ some secret)
                × IsSignedBy request secret)
            × All (λ other. ¬ IsSignedBy request other) (take index secrets))
  verify_signature_iff request secrets late index = (
    λ h. forth late (parse_signature request.signature) refl h,
    λ (on_time, (secret, at, by), others).
        let message : Text = request.timestamp ++ (codes "." ++ request.body) in
        let digest : Text = hmac_sha256 secret message in
        let full = hexadecimal secret message in
        let reads : parse_signature request.signature ≡ parsed digest =
          (parse_signature_iff request.signature digest).1 (by, full) in
        ap₂ (verify_signature hmac_sha256 request secrets) on_time reads
        ∙ (find_secret_iff request digest by full secrets 0 index).1
            (index, secret, omega arith, at, by, others),
  )
    where
      forth :
          (l : Bool) (p : ParsedSignature)
          → parse_signature request.signature ≡ p
          → verify_signature hmac_sha256 request secrets l p ≡ verified index
          → (l ≡ false)
            × ((secret : Text) × (get_elem? secrets index ≡ some secret)
                × IsSignedBy request secret)
            × All (λ other. ¬ IsSignedBy request other) (take index secrets)
      forth l malformed e h = cc h
      forth l unsupported e h = cc h
      forth true (parsed digest) e h = cc h
      forth false (parsed digest) e h =
          let (signed, full) = (parse_signature_iff request.signature digest).0 e in
          let (i, secret, place, at, by, others) =
            (find_secret_iff request digest signed full secrets 0 index).0 h in
          let same : i ≡ index = omega arith in
          (
            refl,
            (secret, ap (get_elem? secrets) (sym same) ∙ at, by),
            subst (λ k. All (λ other. ¬ IsSignedBy request other) (take k secrets)) same others,
          )

  -- What a request that is verified has, by the secret of an index.
  pub record IsVerified (request : WebhookRequest) (secrets : List Text) (now tolerance : ℕ)
      (index : ℕ) : Type 0 where
    pub tolerable : tolerance ≤ maximum_tolerance_ms
    pub numeric : is_decimal request.timestamp ≡ true
    pub safe : parse request.timestamp * 1_000 ≤ 9_007_199_254_740_991
    pub not_before : parse request.timestamp * 1_000 ≤ now + tolerance
    pub not_after : now ≤ parse request.timestamp * 1_000 + tolerance
    pub signer :
        (secret : Text) × (get_elem? secrets index ≡ some secret) × IsSignedBy request secret
    pub first : All (λ other. ¬ IsSignedBy request other) (take index secrets)

  late_not :
      (request : WebhookRequest) (secrets : List Text) (now tolerance index : ℕ)
      → IsVerified request secrets now tolerance index
      → ltb tolerance (apart now (parse request.timestamp * 1_000)) ≡ false
  late_not request secrets now tolerance index v =
      let early = v.not_before in let late = v.not_after in ground arith

  unread :
      (request : WebhookRequest) (secrets : List Text) (now tolerance index : ℕ)
      → IsVerified request secrets now tolerance index
      → (is_decimal request.timestamp
          && leb (parse request.timestamp * 1_000) 9_007_199_254_740_991)
        ≢ false
  unread request secrets now tolerance index v h =
      let numeric = v.numeric in let safe = v.safe in ground arith

  of_given :
      (request : WebhookRequest) (secrets : List Text) (d date a allowed index : ℕ)
      → some date ≡ some d
      → some allowed ≡ some a
      → IsVerified request secrets d a index
      → IsVerified request secrets date allowed index
  of_given request secrets d date a allowed index e f v =
      let same_date : d ≡ date = cc e in
      let same_allowed : a ≡ allowed = cc f in
      subst (λ x. IsVerified request secrets x allowed index) same_date
        (subst (λ x. IsVerified request secrets d x index) same_allowed v)

  verify_timestamp_iff :
      (request : WebhookRequest) (secrets : List Text) (now tolerance index : ℕ)
      → tolerance ≤ maximum_tolerance_ms
      → (verify_timestamp hmac_sha256 request secrets now tolerance
            (parse_unix_timestamp request.timestamp)
          ≡ verified index)
        ↔ IsVerified request secrets now tolerance index
  verify_timestamp_iff request secrets now tolerance index tolerable =
      let time : ℕ = parse request.timestamp * 1_000 in
      let inner = verify_signature_iff request secrets (ltb tolerance (apart now time)) index in
      elim (Bool-cases (is_decimal request.timestamp && leb time 9_007_199_254_740_991)) [
        | inl reads ↦ rw reads (
          λ h.
              let (on_time, signer, first) = inner.0 h in
              record {
                tolerable = tolerable;
                numeric = ground arith;
                safe = ground arith;
                not_before = ground arith;
                not_after = ground arith;
                signer = signer;
                first = first;
              },
          λ v. inner.1 (late_not request secrets now tolerance index v, v.signer, v.first),
        )
        | inr refuses ↦
            rw refuses
              (λ h. cc h, λ v. absurd (unread request secrets now tolerance index v refuses))
      ]

  -- A request is verified by the secret of an index exactly when the date and the tolerance are
  -- given and the tolerance is at most an hour, the timestamp is a decimal number of seconds whose
  -- milliseconds are a safe integer and no further than the tolerance from the date on either side,
  -- the request bears the signature that this secret makes of its body and its timestamp, and none
  -- of the secrets before it makes that signature. HMAC is taken to give 64 lower-case hexadecimal
  -- digits.
  pub verify_webhook-verified_iff :
      (request : WebhookRequest) (secrets : List Text) (now tolerance : Option ℕ) (index : ℕ)
      → (verify_webhook hmac_sha256 request secrets now tolerance ≡ verified index) ↔ (
          (date : ℕ) × (allowed : ℕ) × (now ≡ some date)
          × (tolerance ≡ some allowed)
          × IsVerified request secrets date allowed index)
  unfolding verify_webhook
  verify_webhook-verified_iff request secrets none tolerance index =
      (λ h. cc h, λ (d, a, e, f, v). cc e)
  verify_webhook-verified_iff request secrets (some date) none index =
      (λ h. cc h, λ (d, a, e, f, v). cc f)
  verify_webhook-verified_iff request secrets (some date) (some allowed) index =
      elim (Bool-cases (ltb maximum_tolerance_ms allowed)) [
        | inl wide ↦ rw wide (
          λ h. cc h,
          λ (d, a, e, f, v).
              let same : a ≡ allowed = cc f in let bound = v.tolerable in absurd (ground arith),
        )
        | inr fine ↦
            let inner = verify_timestamp_iff request secrets date allowed index (ground arith) in
            rw fine (
              λ h. (date, allowed, refl, refl, inner.0 h),
              λ (d, a, e, f, v). inner.1 (of_given request secrets d date a allowed index e f v),
            )
      ]
