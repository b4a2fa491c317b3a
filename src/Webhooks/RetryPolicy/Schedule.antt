-- ===== src/Webhooks/RetryPolicy/Schedule.antt =====
-- The bounds of the delay before a further attempt.
use solana_payment_ops.Common.{
  ℕ, ltb, ltb→lt, Bool-cases, ◌+◌, ◌-◌, ◌*◌, ◌^◌, ◌≤◌, ◌<◌, ◌≡◌, zero, suc, inl, inr, ◌⊎◌, Option,
  none, some, min, arith, leb,
}
use solana_payment_ops.Common.Result.{ok}
use solana_payment_ops.Webhooks.RetryPolicy.{
  maximum_delay_ms, automatic_retry_window_ms, random_unit, or_zero, exponential_delay,
  jittered_delay, bounded_delay, next_attempt_at,
}

power-positive : (n : ℕ) → 1 ≤ 2 ^ n
power-positive zero = omega arith
power-positive (suc n) = omega (arith, power-positive n)

exponential_delay-le : (attempt : ℕ) → 5_000 ≤ exponential_delay attempt
unfolding exponential_delay
exponential_delay-le attempt = ground (arith, power-positive (attempt - 1))

jittered_delay-bounds :
    (e draw : ℕ)
    → draw < random_unit
    → (e ≤ 2 * jittered_delay e draw + 1) × (2 * jittered_delay e draw ≤ 3 * e)
unfolding jittered_delay
jittered_delay-bounds e draw h = (grind arith, grind arith)

-- A time that a further attempt may be given: soon enough, late enough, within the window.
pub record IsSchedule (first_attempt_at attempt now retry_after t : ℕ) : Type 0 where
  pub within_window : t < first_attempt_at + automatic_retry_window_ms
  pub at_most_an_hour : t ≤ now + maximum_delay_ms
  pub not_before_asked : now + min retry_after maximum_delay_ms ≤ t
  pub backs_off : 2 * now + min (2 * maximum_delay_ms) (exponential_delay attempt) ≤ 2 * t + 1
  pub later : now < t

pub bounded_delay-IsSchedule :
    (first_attempt_at attempt now draw retry_after : ℕ)
    → draw < random_unit
    → now + bounded_delay attempt draw retry_after < first_attempt_at + automatic_retry_window_ms
    → IsSchedule first_attempt_at attempt now retry_after
        (now + bounded_delay attempt draw retry_after)
unfolding bounded_delay
bounded_delay-IsSchedule first_attempt_at attempt now draw retry_after h w =
    let j = jittered_delay-bounds (exponential_delay attempt) draw h in
    let e = exponential_delay-le attempt in
    record {
      within_window = w;
      at_most_an_hour = omega arith;
      not_before_asked = omega arith;
      backs_off = omega arith;
      later = omega arith;
    }

bounded_delay-le :
    (attempt draw retry_after : ℕ) → bounded_delay attempt draw retry_after ≤ maximum_delay_ms
unfolding bounded_delay
bounded_delay-le attempt draw retry_after = omega arith

-- On a positive attempt number, a random number below one and a retry delay that is a safe integer,
-- a schedule is never refused: either it is a time after now, within the retry window, at most an
-- hour ahead, no earlier than the endpoint asked (up to the hour) and at least half the exponential
-- delay ahead (up to the hour); or it is none, and then the window closes within an hour from now.
pub next_attempt_at-total :
    (first_attempt_at attempt now draw : ℕ) (retry_after_ms : Option ℕ)
    → 1 ≤ attempt
    → draw < random_unit
    → or_zero retry_after_ms < random_unit
    → ((t : ℕ) × (next_attempt_at first_attempt_at attempt now draw retry_after_ms ≡ ok (some t))
        × IsSchedule first_attempt_at attempt now (or_zero retry_after_ms) t)
      ⊎ ((next_attempt_at first_attempt_at attempt now draw retry_after_ms ≡ ok none)
          × (first_attempt_at + automatic_retry_window_ms ≤ now + maximum_delay_ms))
unfolding next_attempt_at
next_attempt_at-total first_attempt_at attempt now draw retry_after_ms a d r =
    let t = now + bounded_delay attempt draw (or_zero retry_after_ms) in
    let cutoff = first_attempt_at + automatic_retry_window_ms in
    elim (Bool-cases (leb cutoff now)) [
      | inl past ↦ inr (ground arith, ground arith)
      | inr open_window ↦ elim (Bool-cases (ltb t cutoff)) [
        | inl early ↦ inl (
          t,
          ground arith,
          bounded_delay-IsSchedule first_attempt_at attempt now draw (or_zero retry_after_ms) d
              (ltb→lt t cutoff early),
        )
        | inr late ↦
            inr
              (ground arith, ground (arith, bounded_delay-le attempt draw (or_zero retry_after_ms)))
      ]
    ]
