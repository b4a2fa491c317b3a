-- ===== src/Webhooks/Worker/Returns.antt =====
-- When a delivery returns a completion.
use solana_payment_ops.Common.{
  ℕ, ◌+◌, ◌-◌, ◌≤◌, ◌<◌, ◌≡◌, refl, ap, inl, inr, Bool, true, false, not, Option, none, some, [],
  ◌∷◌, arith, ltb, leb, leb→le, if-both,
}
use solana_payment_ops.Common.Decimal.{Text, parse}
use solana_payment_ops.Common.Result.{Result, ok, err, ◌>>=◌}
use solana_payment_ops.Webhooks.RetryPolicy.{
  DeliveryResult, DeliveryResultClass, success, retry, dead, ScheduleError,
  automatic_retry_window_ms, random_unit, or_zero, can_automatically_send,
}
use solana_payment_ops.Webhooks.RetryPolicy.Schedule.{next_attempt_at-total}
use solana_payment_ops.Webhooks.Worker.{
  ClaimedDelivery, DeliveryTransportResponse, TransportError, Surroundings, Delivery, is_decimal,
  is_http_status, parse_retry_after, transport_result, class_completion, retry_completion,
  result_completion, send_delivery, deliver_with_secret, is_exhausted, deliver_unless,
  deliver_claim,
}

abbrev pub Returns {ℓ} : {E : Type 0} {A : Type ℓ} → Result E A → Type ℓ
Returns {A = A} m = (a : A) × (m ≡ ok a)

module _ (world : Surroundings)
    (near : (v : Text) (t : ℕ)
      → world.parse_date v ≡ some t
      → t < world.completed_at + random_unit) where
  parse_retry_after-safe :
      (value : Option Text)
      → or_zero (parse_retry_after world.parse_date value world.completed_at) < random_unit
  parse_retry_after-safe none = omega arith
  parse_retry_after-safe (some v) =
      if-both (λ o. or_zero o < random_unit) (is_decimal v) _ _
        (λ _.
          if-both (λ o. or_zero o < random_unit) (leb (parse v) 9_007_199_254_740) _ _
            (λ h. let k = leb→le (parse v) 9_007_199_254_740 h in omega arith) (λ _. omega arith))
        (λ _. dated (world.parse_date v) refl)
    where
      dated :
          (d : Option ℕ)
          → world.parse_date v ≡ d
          → or_zero (elim d [ none ↦ none | some retry_at ↦ some (retry_at - world.completed_at) ])
            < random_unit
      dated none e = omega arith
      dated (some t) e = let k = near v t e in omega arith

  transport_result-safe :
      (answer : Result TransportError DeliveryTransportResponse)
      → or_zero (transport_result world answer).1 < random_unit
  transport_result-safe (err e) = omega arith
  transport_result-safe (ok answer) =
      if-both (λ (r : DeliveryResult × Option ℕ). or_zero r.1 < random_unit)
        (not (is_http_status answer.status)) _ _ (λ _. omega arith)
        (λ _. parse_retry_after-safe answer.retry_after)

  class_completion-Returns :
      (class : DeliveryResultClass) (claim : ClaimedDelivery) (result : DeliveryResult)
      (duration_ms : ℕ) (retry_after_ms : Option ℕ)
      → 1 ≤ claim.attempt_number
      → world.draw < random_unit
      → or_zero retry_after_ms < random_unit
      → Returns (
          class_completion class claim result world.completed_at duration_ms world.draw
            retry_after_ms)
  class_completion-Returns success claim result duration_ms retry_after_ms a d r = (_, refl)
  class_completion-Returns dead claim result duration_ms retry_after_ms a d r = (_, refl)
  class_completion-Returns retry claim result duration_ms retry_after_ms a d r =
      if-both Returns claim.manual_replay _ _ (λ _. (_, refl))
        (λ _.
          elim (next_attempt_at-total claim.first_attempt_at claim.attempt_number world.completed_at
            world.draw retry_after_ms a d r) [
              | inl (t, e, _) ↦ (
                _,
                ap (λ s. s >>= λ o. ok (retry_completion result world.completed_at duration_ms o))
                    e,
              )
              | inr (e, _) ↦ (
                _,
                ap (λ s. s >>= λ o. ok (retry_completion result world.completed_at duration_ms o))
                    e,
              )
            ])

  with_secret-Returns :
      (claim : ClaimedDelivery) (secret : Option Text)
      → 1 ≤ claim.attempt_number
      → world.draw < random_unit
      → Returns (deliver_with_secret claim world secret).1
  unfolding send_delivery result_completion
  with_secret-Returns claim none a d = (_, refl)
  with_secret-Returns claim (some []) a d = (_, refl)
  with_secret-Returns claim (some (c ∷ s)) a d =
      class_completion-Returns _ claim _ _ _ a d (transport_result-safe (world.transport _))

  sending :
      (first_attempt_at attempt now : ℕ)
      → 1 ≤ attempt
      → can_automatically_send first_attempt_at attempt now
        ≡ ok (ltb now (first_attempt_at + automatic_retry_window_ms))
  unfolding can_automatically_send
  sending first_attempt_at attempt now a = ground arith

  is_exhausted-Returns :
      (claim : ClaimedDelivery) (now : ℕ)
      → 1 ≤ claim.attempt_number
      → Returns (is_exhausted claim now)
  unfolding can_automatically_send
  is_exhausted-Returns claim now a =
      if-both Returns claim.manual_replay _ _ (λ _. (_, refl))
        (λ _. (
          _,
          ap (λ (s : Result ScheduleError Bool). s >>= λ allowed. ok (not allowed))
              (sending claim.first_attempt_at claim.attempt_number now a),
        ))

  -- Every delivery returns a completion, given a positive attempt number, a random number below one
  -- and a `Date.parse` that gives no date more than 2 ^ 53 milliseconds ahead: nothing that the
  -- endpoint answers makes the worker throw.
  pub deliver_claim-Returns :
      (claim : ClaimedDelivery)
      → 1 ≤ claim.attempt_number
      → world.draw < random_unit
      → Returns (deliver_claim claim world).1
  unfolding deliver_claim
  deliver_claim-Returns claim a d =
      if-both (λ (x : Delivery). Returns x.1) claim.manual_replay_recovery _ _ (λ _. (_, refl))
        (λ _.
          unless (is_exhausted claim world.started_at)
            (is_exhausted-Returns claim world.started_at a))
    where
      unless :
          (x : Result ScheduleError Bool) → Returns x → Returns (deliver_unless x claim world).1
      unless (err e) r = absurd (cc (r.1))
      unless (ok true) r = (_, refl)
      unless (ok false) r = with_secret-Returns claim _ a d
