-- ===== src/Webhooks/Worker.antt =====
-- packages/webhooks/src/delivery/worker.ts and the types of storage/types.ts that it reads. What an
-- await returns is an argument, the two readings of the clock as well. A date is as in RetryPolicy;
-- the request is sent by `transport`, whose answer stands for that of the network.
pub mod Outcome
pub mod Returns
use solana_payment_ops.Common.{
  ℕ, ◌+◌, ◌-◌, ◌*◌, ◌/◌, min, max, String, Bool, true, false, not, ◌&&◌, ◌||◌, Option, none, some,
  List, [], ◌∷◌, ◌++◌, map, if◌then◌else◌, ltb, leb, ◌===◌, all, length, includes,
}
use solana_payment_ops.Common.Decimal.{Text, codes, format, parse, is_digit}
use solana_payment_ops.Common.Result.{Result, ok, err, ◌>>=◌}
use solana_payment_ops.Webhooks.RetryPolicy.{
  DeliveryResult, response, network_error, DeliveryResultClass, success, retry, dead, ScheduleError,
  random_unit, can_automatically_send, classify_delivery_result, next_attempt_at,
}

pub record DeliveryEndpoint : Type 0 where
  pub id : String
  pub url : String
  pub secret_env : String
  pub previous_secret_env : Option String

pub record DeliveryEvent : Type 0 where
  pub id : String
  pub event_type : String
  pub payload : Text
  pub digest : String
  pub occurred_at : ℕ

pub record ClaimedDelivery : Type 0 where
  pub delivery_id : String
  pub lease_token : String
  pub attempt_number : ℕ
  pub first_attempt_at : ℕ
  pub manual_replay : Bool
  pub manual_replay_recovery : Bool
  pub endpoint : DeliveryEndpoint
  pub event : DeliveryEvent

pub data CompletionState : Type 0 where
  retry_wait succeeded given_up : CompletionState

-- `http_${status}` or a name.
pub data ErrorCode : Type 0 where
  http : ℕ → ErrorCode
  named : String → ErrorCode

pub record DeliveryCompletion : Type 0 where
  pub state : CompletionState
  pub completed_at : ℕ
  pub next_attempt_at : Option ℕ
  pub http_status : Option ℕ
  pub error_code : Option ErrorCode
  pub duration_ms : ℕ

-- The request, with the header values that are not constant.
pub record DeliveryTransportRequest : Type 0 where
  pub url : String
  pub body : Text
  pub delivery_id : String
  pub event_id : String
  pub signature : Text
  pub timestamp : Text

pub record DeliveryTransportResponse : Type 0 where
  pub status : ℕ
  pub retry_after : Option Text

-- What a thrown error shows of itself: its `code` if that is a string, or nothing; or reading it
-- throws.
pub data TransportError : Type 0 where
  coded : String → TransportError
  uncoded unreadable : TransportError

abbrev pub elapsed_milliseconds : ℕ → ℕ → ℕ
elapsed_milliseconds started_at completed_at = min 2_147_483_647 (completed_at - started_at)

abbrev pub is_http_status : ℕ → Bool
is_http_status value = leb 100 value && leb value 599

-- `code.startsWith(prefix)`
abbrev pub starts_with : Text → Text → Bool
starts_with [] s = true
starts_with (c ∷ p) [] = false
starts_with (c ∷ p) (d ∷ s) = leb c d && (leb d c && starts_with p s)

abbrev pub own_codes : List String
own_codes =
    "body_timeout" ∷ "connect_timeout" ∷ "connection_failed" ∷ "dns_failed" ∷ "headers_timeout"
    ∷ "invalid_response" ∷ "network_error" ∷ "response_too_large" ∷ "tls_failed" ∷ "total_timeout"
    ∷ "unsafe_endpoint" ∷ []

abbrev pub safe_code : String → String
safe_code code =
    if includes own_codes code
    then code
    else if code === "UND_ERR_CONNECT_TIMEOUT"
    then "connect_timeout"
    else if code === "UND_ERR_HEADERS_TIMEOUT"
    then "headers_timeout"
    else if code === "UND_ERR_BODY_TIMEOUT"
    then "body_timeout"
    else if includes ("ENOTFOUND" ∷ "EAI_AGAIN" ∷ []) code
    then "dns_failed"
    else if includes ("ECONNREFUSED" ∷ "ECONNRESET" ∷ "EPIPE" ∷ "UND_ERR_SOCKET" ∷ []) code
    then "connection_failed"
    else if code === "PAYOPS_RESPONSE_TOO_LARGE"
    then "response_too_large"
    else if starts_with (codes "ERR_TLS_") (codes code) || starts_with (codes "CERT_") (codes code)
    then "tls_failed"
    else "network_error"

unfoldable pub safe_transport_error_code : TransportError → String
safe_transport_error_code (coded code) = safe_code code
safe_transport_error_code uncoded = safe_code ""
safe_transport_error_code unreadable = "network_error"

-- `/^(0|[1-9][0-9]*)$/`
abbrev pub is_decimal : Text → Bool
is_decimal [] = false
is_decimal (c ∷ []) = is_digit c
is_decimal (c ∷ (d ∷ s)) = leb b'1' c && (leb c b'9' && all is_digit (d ∷ s))

-- `parse_date` stands for `Date.parse`, whose `NaN` is none.
abbrev pub parse_retry_after : (Text → Option ℕ) → Option Text → ℕ → Option ℕ
parse_retry_after parse_date none now = none
parse_retry_after parse_date (some value) now =
    if is_decimal value
    then (if leb (parse value) 9_007_199_254_740 then some (parse value * 1_000) else none)
    else elim (parse_date value) [ none ↦ none | some retry_at ↦ some (retry_at - now) ]

abbrev pub terminal_completion : ℕ → ℕ → String → DeliveryCompletion
terminal_completion started_at completed_at error_code = record {
  state = given_up;
  completed_at = completed_at;
  next_attempt_at = none;
  http_status = none;
  error_code = some (named error_code);
  duration_ms = elapsed_milliseconds started_at completed_at;
}

abbrev pub result_status : DeliveryResult → Option ℕ
result_status (response status) = some status
result_status (network_error code) = none

abbrev pub result_error_code : DeliveryResult → ErrorCode
result_error_code (response status) = http status
result_error_code (network_error code) = named code

abbrev pub completion :
    CompletionState → ℕ → Option ℕ → Option ℕ → Option ErrorCode → ℕ → DeliveryCompletion
completion state completed_at next_attempt_at http_status error_code duration_ms = record {
  state = state;
  completed_at = completed_at;
  next_attempt_at = next_attempt_at;
  http_status = http_status;
  error_code = error_code;
  duration_ms = duration_ms;
}

-- The last lines of `resultCompletion`.
abbrev pub retry_completion : DeliveryResult → ℕ → ℕ → Option ℕ → DeliveryCompletion
retry_completion result completed_at duration_ms none =
    completion given_up completed_at none (result_status result) (some (named "retry_exhausted"))
      duration_ms
retry_completion result completed_at duration_ms (some scheduled_at) =
    completion retry_wait completed_at (some scheduled_at) (result_status result)
      (some (result_error_code result)) duration_ms

-- What `resultCompletion` does on each class of result.
abbrev pub class_completion :
    DeliveryResultClass
    → ClaimedDelivery
    → DeliveryResult
    → ℕ
    → ℕ
    → ℕ
    → Option ℕ
    → Result ScheduleError DeliveryCompletion
class_completion success claim result completed_at duration_ms draw retry_after_ms =
    ok (completion succeeded completed_at none (result_status result) none duration_ms)
class_completion dead claim result completed_at duration_ms draw retry_after_ms = ok (
    completion given_up completed_at none (result_status result) (some (result_error_code result))
      duration_ms)
class_completion retry claim result completed_at duration_ms draw retry_after_ms =
    if claim.manual_replay
    then ok (
        completion given_up completed_at none (result_status result)
          (some (result_error_code result)) duration_ms)
    else (next_attempt_at claim.first_attempt_at claim.attempt_number completed_at draw
          retry_after_ms
        >>= λ scheduled. ok (retry_completion result completed_at duration_ms scheduled))

unfoldable pub result_completion :
    ClaimedDelivery
    → DeliveryResult
    → ℕ
    → ℕ
    → ℕ
    → Option ℕ
    → Result ScheduleError DeliveryCompletion
result_completion claim result completed_at duration_ms draw retry_after_ms =
    class_completion (classify_delivery_result result) claim result completed_at duration_ms draw
      retry_after_ms

-- What the delivery of a claim awaits: the two readings of the clock, the random number, the
-- environment, the hash, the network and `Date.parse`.
pub record Surroundings : Type 0 where
  pub started_at : ℕ
  pub completed_at : ℕ
  pub draw : ℕ
  pub environment : String → Option Text
  pub hmac_sha256 : Text → Text → Text
  pub transport : DeliveryTransportRequest → Result TransportError DeliveryTransportResponse
  pub parse_date : Text → Option ℕ

-- packages/webhooks/src/signing/hmac.ts: `"v1=" + hex(hmac(secret, timestamp + "." + body))`
abbrev pub sign_webhook : (Text → Text → Text) → Text → Text → Text → Text
sign_webhook hmac_sha256 body timestamp secret =
    codes "v1=" ++ hmac_sha256 secret (timestamp ++ (codes "." ++ body))

abbrev pub delivery_request : ClaimedDelivery → Surroundings → Text → DeliveryTransportRequest
delivery_request claim world secret =
    let timestamp = format (world.started_at / 1_000) in
    record {
      url = claim.endpoint.url;
      body = claim.event.payload;
      delivery_id = claim.delivery_id;
      event_id = claim.event.id;
      signature = sign_webhook world.hmac_sha256 claim.event.payload timestamp secret;
      timestamp = timestamp;
    }

-- The delivery result, with the delay that the response asks for.
abbrev pub transport_result :
    Surroundings → Result TransportError DeliveryTransportResponse → DeliveryResult × Option ℕ
transport_result world (err error) = (network_error (safe_transport_error_code error), none)
transport_result world (ok answer) =
    if not (is_http_status answer.status) then (network_error "invalid_response", none) else (
      response answer.status,
      parse_retry_after world.parse_date answer.retry_after world.completed_at,
    )

-- The request that a delivery sends, if it sends one, with its completion.
abbrev pub Delivery : Type 0
Delivery = Option DeliveryTransportRequest × Result ScheduleError DeliveryCompletion

abbrev pub unsent : Surroundings → String → Delivery
unsent world code = (none, ok (terminal_completion world.started_at world.completed_at code))

unfoldable pub send_delivery : ClaimedDelivery → Surroundings → Text → Delivery
send_delivery claim world secret =
    let request = delivery_request claim world secret in
    let answered = transport_result world (world.transport request) in
    (
      some request,
      result_completion claim answered.0 world.completed_at
          (elapsed_milliseconds world.started_at world.completed_at) world.draw answered.1,
    )

-- By the secret.
abbrev pub deliver_with_secret : ClaimedDelivery → Surroundings → Option Text → Delivery
deliver_with_secret claim world none = unsent world "missing_secret"
deliver_with_secret claim world (some []) = unsent world "empty_secret"
deliver_with_secret claim world (some (c ∷ s)) = send_delivery claim world (c ∷ s)

-- `!claim.manualReplay && !canAutomaticallySend(...)`
abbrev pub is_exhausted : ClaimedDelivery → ℕ → Result ScheduleError Bool
is_exhausted claim started_at =
    if claim.manual_replay
    then ok false
    else (can_automatically_send claim.first_attempt_at claim.attempt_number started_at
        >>= λ allowed. ok (not allowed))

abbrev pub deliver_unless : Result ScheduleError Bool → ClaimedDelivery → Surroundings → Delivery
deliver_unless (err e) claim world = (none, err e)
deliver_unless (ok true) claim world = unsent world "retry_exhausted"
deliver_unless (ok false) claim world =
    deliver_with_secret claim world (world.environment claim.endpoint.secret_env)

unfoldable pub deliver_claim : ClaimedDelivery → Surroundings → Delivery
deliver_claim claim world =
    if claim.manual_replay_recovery
    then unsent world "manual_replay_lease_expired"
    else deliver_unless (is_exhausted claim world.started_at) claim world
