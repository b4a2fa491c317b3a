-- ===== src/Webhooks/RetryPolicy.antt =====
-- packages/webhooks/src/delivery/retry-policy.ts. A date is its number of milliseconds since an
-- epoch before all of them, so every date is valid; the random number is `draw / 2 ^ 53`, as
-- `Math.random` gives it, and the product with it is taken exactly.
pub mod Schedule
use solana_payment_ops.Common.{
  ℕ, ◌+◌, ◌-◌, ◌*◌, ◌/◌, ◌^◌, min, max, String, Bool, true, false, not, ◌&&◌, ◌||◌, Option, none,
  some, if◌then◌else◌, ltb, leb, ◌==◌,
}
use solana_payment_ops.Common.Result.{Result, ok, err, ◌>>=◌, ◌>>◌, throw_if}

pub data DeliveryResult : Type 0 where
  response : ℕ → DeliveryResult
  network_error : String → DeliveryResult

pub data DeliveryResultClass : Type 0 where
  success retry dead : DeliveryResultClass

-- The `TypeError`s of the schedule.
pub data ScheduleError : Type 0 where
  invalid_attempt invalid_random invalid_retry_after : ScheduleError

abbrev pub initial_delay_ms : ℕ
initial_delay_ms = 5_000

abbrev pub maximum_delay_ms : ℕ
maximum_delay_ms = 3_600_000

abbrev pub automatic_retry_window_ms : ℕ
automatic_retry_window_ms = 259_200_000

-- The denominator of the random number; the largest safe integer is one less.
abbrev pub random_unit : ℕ
random_unit = 9_007_199_254_740_992

abbrev pub assert_schedule_inputs : ℕ → Result ScheduleError (Unit {0})
assert_schedule_inputs attempt = throw_if (ltb attempt 1) invalid_attempt

unfoldable pub can_automatically_send : ℕ → ℕ → ℕ → Result ScheduleError Bool
can_automatically_send first_attempt_at attempt now =
    assert_schedule_inputs attempt >> ok (ltb now (first_attempt_at + automatic_retry_window_ms))

unfoldable pub classify_delivery_result : DeliveryResult → DeliveryResultClass
classify_delivery_result (network_error code) = retry
classify_delivery_result (response status) =
    if leb 200 status && ltb status 300
    then success
    else if status == 408
        || (status == 425 || (status == 429 || (leb 500 status && leb status 599)))
    then retry
    else dead

abbrev pub or_zero : Option ℕ → ℕ
or_zero none = 0
or_zero (some n) = n

unfoldable pub exponential_delay : ℕ → ℕ
exponential_delay attempt =
    if leb 12 attempt then maximum_delay_ms else initial_delay_ms * 2 ^ (attempt - 1)

-- `Math.floor(exponentialDelay * (0.5 + randomValue))`
unfoldable pub jittered_delay : ℕ → ℕ → ℕ
jittered_delay exponential draw = exponential * (random_unit + 2 * draw) / 18_014_398_509_481_984

unfoldable pub bounded_delay : ℕ → ℕ → ℕ → ℕ
unfolding exponential_delay jittered_delay
bounded_delay attempt draw retry_after_ms =
    min maximum_delay_ms
      (max (jittered_delay (exponential_delay attempt) draw) (min retry_after_ms maximum_delay_ms))

unfoldable pub next_attempt_at : ℕ → ℕ → ℕ → ℕ → Option ℕ → Result ScheduleError (Option ℕ)
next_attempt_at first_attempt_at attempt now draw retry_after_ms =
    assert_schedule_inputs attempt
    >> let retry_cutoff = first_attempt_at + automatic_retry_window_ms in
      if leb retry_cutoff now
      then ok none
      else (throw_if (leb random_unit draw) invalid_random
          >> (throw_if (leb random_unit (or_zero retry_after_ms)) invalid_retry_after
              >> let scheduled_at = now + bounded_delay attempt draw (or_zero retry_after_ms) in
                ok (if ltb scheduled_at retry_cutoff then some scheduled_at else none)))
