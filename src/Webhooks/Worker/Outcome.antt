-- ===== src/Webhooks/Worker/Outcome.antt =====
-- What a delivery completes with, and when it sends its request.
use solana_payment_ops.Common.{
  ℕ, ◌+◌, ◌≤◌, ◌<◌, ◌≡◌, refl, ◌≢◌, ◌↔◌, ◌⊎◌, inl, inr, sym, ap, ◌∙◌, subst, Bool, true, false,
  Option, none, some, [], ◌∷◌, arith, if-both,
}
use solana_payment_ops.Common.Decimal.{Text}
use solana_payment_ops.Common.Result.{Result, ok, err, ◌>>=◌}
use solana_payment_ops.Webhooks.RetryPolicy.{
  DeliveryResult, response, network_error, DeliveryResultClass, success, retry, dead, ScheduleError,
  automatic_retry_window_ms, random_unit, or_zero, can_automatically_send, classify_delivery_result,
  next_attempt_at,
}
use solana_payment_ops.Webhooks.RetryPolicy.Schedule.{next_attempt_at-total}
use solana_payment_ops.Webhooks.Worker.{
  ClaimedDelivery, CompletionState, retry_wait, succeeded, given_up, DeliveryCompletion,
  DeliveryTransportRequest, Surroundings, result_completion, class_completion, retry_completion,
  delivery_request, send_delivery, deliver_with_secret, is_exhausted, deliver_unless, deliver_claim,
  unsent, Delivery, result_status,
}

-- What the fields of a completion say in each state.
abbrev pub StateFits : ClaimedDelivery → DeliveryCompletion → CompletionState → Type 0
StateFits claim c retry_wait =
    (t : ℕ) × (c.next_attempt_at ≡ some t)
    × (c.completed_at < t)
    × (t < claim.first_attempt_at + automatic_retry_window_ms)
    × (claim.manual_replay ≡ false)
    × (c.error_code ≢ none)
StateFits claim c succeeded =
    (c.next_attempt_at ≡ none)
    × (c.error_code ≡ none)
    × ((status : ℕ) × (c.http_status ≡ some status) × (200 ≤ status) × (status < 300))
StateFits claim c given_up = (c.next_attempt_at ≡ none) × (c.error_code ≢ none)

abbrev pub Fits : ClaimedDelivery → DeliveryCompletion → Type 0
Fits claim c = StateFits claim c c.state

-- A time is given only on valid inputs.
next_attempt_at-inputs :
    (first_attempt_at attempt now draw : ℕ) (retry_after_ms : Option ℕ) {t : ℕ}
    → next_attempt_at first_attempt_at attempt now draw retry_after_ms ≡ ok (some t)
    → (1 ≤ attempt) × (draw < random_unit) × (or_zero retry_after_ms < random_unit)
unfolding next_attempt_at
next_attempt_at-inputs first_attempt_at attempt now draw retry_after_ms h =
    (ground arith, ground arith, ground arith)

next_attempt_at-within :
    (first_attempt_at attempt now draw : ℕ) (retry_after_ms : Option ℕ) {t : ℕ}
    → next_attempt_at first_attempt_at attempt now draw retry_after_ms ≡ ok (some t)
    → (now < t) × (t < first_attempt_at + automatic_retry_window_ms)
next_attempt_at-within first_attempt_at attempt now draw retry_after_ms h =
    let i = next_attempt_at-inputs first_attempt_at attempt now draw retry_after_ms h in
    elim (next_attempt_at-total first_attempt_at attempt now draw retry_after_ms i.0 i.1 i.2) [
      | inl (t, e, s) ↦
          let same : ok (some t) ≡ ok (some _) = sym e ∙ h in
          (
            subst (λ u. now < u) (cc same) s.later,
            subst (λ u. u < first_attempt_at + automatic_retry_window_ms) (cc same) s.within_window,
          )
      | inr (e, _) ↦ absurd (cc (sym e ∙ h))
    ]

success-status :
    (result : DeliveryResult)
    → classify_delivery_result result ≡ success
    → (status : ℕ) × (result_status result ≡ some status) × (200 ≤ status) × (status < 300)
unfolding classify_delivery_result
success-status (response status) h = (status, refl, ground arith, ground arith)
success-status (network_error code) h = cc h

abbrev FitsResult : ClaimedDelivery → Result ScheduleError DeliveryCompletion → Type 0
FitsResult claim (ok c) = Fits claim c
FitsResult claim (err e) = Unit

scheduled-FitsResult :
    (claim : ClaimedDelivery) (result : DeliveryResult) (completed_at duration_ms : ℕ)
    (scheduled : Result ScheduleError (Option ℕ))
    → claim.manual_replay ≡ false
    → ((t : ℕ)
        → scheduled ≡ ok (some t)
        → (completed_at < t) × (t < claim.first_attempt_at + automatic_retry_window_ms))
    → FitsResult claim (scheduled >>= λ o. ok (retry_completion result completed_at duration_ms o))
scheduled-FitsResult claim result completed_at duration_ms (err e) m h = tt
scheduled-FitsResult claim result completed_at duration_ms (ok none) m h = (refl, λ e. cc e)
scheduled-FitsResult claim result completed_at duration_ms (ok (some t)) m h =
    let w = h t refl in (t, refl, w.0, w.1, m, λ e. cc e)

class_completion-FitsResult :
    (class : DeliveryResultClass) (claim : ClaimedDelivery) (result : DeliveryResult)
    (completed_at duration_ms draw : ℕ) (retry_after_ms : Option ℕ)
    → classify_delivery_result result ≡ class
    → FitsResult claim
        (class_completion class claim result completed_at duration_ms draw retry_after_ms)
class_completion-FitsResult success claim result completed_at duration_ms draw retry_after_ms s =
    (refl, refl, success-status result s)
class_completion-FitsResult dead claim result completed_at duration_ms draw retry_after_ms s =
    (refl, λ e. cc e)
class_completion-FitsResult retry claim result completed_at duration_ms draw retry_after_ms s =
    if-both (FitsResult claim) claim.manual_replay _ _ (λ m. (refl, λ e. cc e))
      (λ m. scheduled-FitsResult claim result completed_at duration_ms _ m (λ t e.
        next_attempt_at-within claim.first_attempt_at claim.attempt_number completed_at draw
          retry_after_ms e))

send_delivery-FitsResult :
    (claim : ClaimedDelivery) (world : Surroundings) (secret : Text)
    → FitsResult claim (send_delivery claim world secret).1
unfolding send_delivery result_completion
send_delivery-FitsResult claim world secret =
    class_completion-FitsResult _ claim _ world.completed_at _ world.draw _ refl

unless-FitsResult :
    (exhausted : Result ScheduleError Bool) (claim : ClaimedDelivery) (world : Surroundings)
    → FitsResult claim (deliver_unless exhausted claim world).1
unless-FitsResult (err e) claim world = tt
unless-FitsResult (ok true) claim world = (refl, λ e. cc e)
unless-FitsResult (ok false) claim world = go (world.environment claim.endpoint.secret_env)
  where
    go : (secret : Option Text) → FitsResult claim (deliver_with_secret claim world secret).1
    go none = (refl, λ e. cc e)
    go (some []) = (refl, λ e. cc e)
    go (some (c ∷ s)) = send_delivery-FitsResult claim world (c ∷ s)

-- Whatever the endpoint, the network and the environment do, a delivery that completes does so in
-- one of three ways: waiting for a retry, with an error code and a time after its completion and
-- within the retry window, and only if it is no manual replay; succeeded, with a status from 200 to
-- 299, no error code and no time; or given up, with an error code and no time.
pub deliver_claim-Fits :
    (claim : ClaimedDelivery) (world : Surroundings) (c : DeliveryCompletion)
    → (deliver_claim claim world).1 ≡ ok c
    → Fits claim c
unfolding deliver_claim
deliver_claim-Fits claim world c h = subst (FitsResult claim) h (
    if-both (λ (d : Delivery). FitsResult claim d.1) claim.manual_replay_recovery _ _
      (λ m. (refl, λ e. cc e))
      (λ m. unless-FitsResult (is_exhausted claim world.started_at) claim world))

is_exhausted-false_iff :
    (claim : ClaimedDelivery) (now : ℕ)
    → (is_exhausted claim now ≡ ok false) ↔ (
        (claim.manual_replay ≡ true)
        ⊎ ((1 ≤ claim.attempt_number) × (now < claim.first_attempt_at + automatic_retry_window_ms)))
unfolding can_automatically_send
is_exhausted-false_iff claim now = ground arith

-- The conditions under which a delivery sends a request.
abbrev pub MaySend : ClaimedDelivery → Surroundings → DeliveryTransportRequest → Type 0
MaySend claim world request =
    (claim.manual_replay_recovery ≡ false)
    × ((claim.manual_replay ≡ true)
        ⊎ ((1 ≤ claim.attempt_number)
            × (world.started_at < claim.first_attempt_at + automatic_retry_window_ms)))
    × ((secret : Text) × (world.environment claim.endpoint.secret_env ≡ some secret)
        × (secret ≢ [])
        × (request ≡ delivery_request claim world secret))

-- A delivery sends a request exactly when it does not recover the expired lease of a manual replay,
-- it is a manual replay or its attempt number is positive and the retry window is still open at its
-- start, and its endpoint's secret is present and not empty; the request is then the one signed
-- with that secret.
pub deliver_claim-sends_iff :
    (claim : ClaimedDelivery) (world : Surroundings) (request : DeliveryTransportRequest)
    → ((deliver_claim claim world).0 ≡ some request) ↔ MaySend claim world request
unfolding deliver_claim send_delivery
deliver_claim-sends_iff claim world request = (forth, back)
  where
    with_secret :
        (secret : Option Text)
        → (deliver_with_secret claim world secret).0 ≡ some request
        → (s : Text) × (secret ≡ some s) × (s ≢ []) × (request ≡ delivery_request claim world s)
    with_secret none h = cc h
    with_secret (some []) h = cc h
    with_secret (some (c ∷ s)) h = (c ∷ s, refl, λ e. cc e, cc h)

    from_exhausted :
        (exhausted : Result ScheduleError Bool)
        → (deliver_unless exhausted claim world).0 ≡ some request
        → (exhausted ≡ ok false)
          × ((deliver_with_secret claim world (world.environment claim.endpoint.secret_env)).0
              ≡ some request)
    from_exhausted (err e) h = cc h
    from_exhausted (ok true) h = cc h
    from_exhausted (ok false) h = (refl, h)

    forth : (deliver_claim claim world).0 ≡ some request → MaySend claim world request
    forth h =
        if-both (λ (d : Delivery). d.0 ≡ some request → MaySend claim world request)
          claim.manual_replay_recovery (unsent world "manual_replay_lease_expired")
          (deliver_unless (is_exhausted claim world.started_at) claim world) (λ m e. cc e)
          (λ m e.
            let u = from_exhausted (is_exhausted claim world.started_at) e in
            (m, (is_exhausted-false_iff claim world.started_at).0 u.0, with_secret _ u.1))
          h

    sent :
        (s : Text)
        → s ≢ []
        → (deliver_with_secret claim world (some s)).0 ≡ some (delivery_request claim world s)
    sent [] ne = absurd (ne refl)
    sent (c ∷ s) ne = refl

    back : MaySend claim world request → (deliver_claim claim world).0 ≡ some request
    back (m, w, (s, e, ne, r)) =
        if-both (λ (d : Delivery). d.0 ≡ some request) claim.manual_replay_recovery
          (unsent world "manual_replay_lease_expired")
          (deliver_unless (is_exhausted claim world.started_at) claim world) (λ q. cc (sym m ∙ q))
          (λ _.
            subst (λ x. (deliver_unless x claim world).0 ≡ some request)
              (sym ((is_exhausted-false_iff claim world.started_at).1 w))
              (subst (λ x. (deliver_with_secret claim world x).0 ≡ some request) (sym e)
                (sent s ne ∙ ap some (sym r))))
