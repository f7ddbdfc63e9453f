-- ===== src/Retry.antt =====
-- packages/core/src/provider-retry-policy.ts: the gateway that retries a provider's stream. The
-- gateway inside is a parameter, by the number of its calls so far, and so is the jitter, in whole
-- milliseconds. The signal is the list of its readings to come, false past its end; a wait is
-- aborted where it reads true. The caller takes every event.
pub mod Ends
pub mod Calls
use ctrl_zebra.Prelude.{
  ℕ, zero, suc, ◌*◌, ◌^◌, ◌-◌, Bool, true, false, not, ◌&&◌, List, [], ◌∷◌, ◌++◌, Option, none,
  some, min, if◌then◌else◌,
}

pub data ModelGatewayErrorCode : Type 0 where
  authentication permission_denied model_not_found rate_limit context_overflow :
      ModelGatewayErrorCode
  invalid_request unavailable malformed_response unknown : ModelGatewayErrorCode

-- An error of the gateway, or one that is none.
pub data ProviderError : Type 0 where
  gateway_error : ModelGatewayErrorCode → Option ℕ → ProviderError
  foreign : ℕ → ProviderError

pub data Ending : Type 0 where
  finished : Ending
  failed : ProviderError → Ending

-- A call of the gateway inside: the events of its stream, and how it ends.
pub record Attempt : Type 0 where
  pub events : List ℕ
  pub ending : Ending

abbrev pub max_provider_retry_attempts : ℕ
max_provider_retry_attempts = 2

abbrev pub initial_provider_retry_delay_milliseconds : ℕ
initial_provider_retry_delay_milliseconds = 250

abbrev pub max_provider_retry_delay_milliseconds : ℕ
max_provider_retry_delay_milliseconds = 30_000

-- What was yielded, the waits, the number of calls, and the signal.
pub record Streaming : Type 0 where
  pub yielded : List ℕ
  pub waits : List ℕ
  pub calls : ℕ
  pub readings : List Bool

pub data StreamEnd : Type 0 where
  done aborted : StreamEnd
  thrown : ProviderError → StreamEnd

abbrev pub is_retryable_code : ModelGatewayErrorCode → Bool
is_retryable_code rate_limit = true
is_retryable_code unavailable = true
is_retryable_code _ = false

unfoldable pub is_retryable_provider_error : ProviderError → Bool
is_retryable_provider_error (gateway_error code after) = is_retryable_code code
is_retryable_provider_error (foreign e) = false

abbrev pub retry_after : ProviderError → Option ℕ
retry_after (gateway_error code after) = after
retry_after (foreign e) = none

abbrev pub backoff : (ℕ → ℕ) → Option ℕ → ℕ → ℕ
backoff jitter (some requested) retries = min requested max_provider_retry_delay_milliseconds
backoff jitter none retries =
    min (jitter (initial_provider_retry_delay_milliseconds * 2 ^ retries))
      max_provider_retry_delay_milliseconds

unfoldable pub compute_backoff_milliseconds : (ℕ → ℕ) → ProviderError → ℕ → ℕ
compute_backoff_milliseconds jitter e retries = backoff jitter (retry_after e) retries

abbrev pub read_signal : List Bool → Streaming → Streaming × Bool
read_signal [] s = (s, false)
read_signal (reading ∷ later) s = (record s { readings = later }, reading)

abbrev pub read_aborted : Streaming → Streaming × Bool
read_aborted s = read_signal s.readings s

abbrev pub unless : {A : Type 0} → Streaming × Bool → (Streaming → A) → (Streaming → A) → A
unless (s, true) stop next = stop s
unless (s, false) stop next = next s

-- The `for await` loop: each event is yielded after a check of the signal.
unfoldable pub pass_events : List ℕ → Streaming → Streaming × Bool
pass_events [] s = (s, false)
pass_events (event ∷ events) s =
    unless (read_aborted s) (λ s'. (s', true))
      λ s'. pass_events events (record s' { yielded = s'.yielded ++ event ∷ [] })

abbrev pub Retry : Type 0
Retry = Streaming → Streaming × StreamEnd

-- The end of the `catch`: `retry` is absent where the retries are used up.
abbrev pub retry_or_throw :
    (ℕ → ℕ) → ℕ → Option Retry → ProviderError → Streaming → Streaming × StreamEnd
retry_or_throw jitter retries none e s = (s, thrown e)
retry_or_throw jitter retries (some retry) e s =
    if is_retryable_provider_error e
    then unless
        (read_aborted
          (record s { waits = s.waits ++ compute_backoff_milliseconds jitter e retries ∷ [] }))
        (λ s'. (s', aborted)) retry
    else (s, thrown e)

abbrev pub caught :
    (ℕ → ℕ) → ℕ → Option Retry → Bool → ProviderError → Streaming → Streaming × StreamEnd
caught jitter retries retry emitted e s =
    unless (read_aborted s) (λ s'. (s', aborted))
      λ s'. if emitted then (s', thrown e) else retry_or_throw jitter retries retry e s'

-- `emittedEvent`, for an attempt whose events all passed.
abbrev pub is_emitted : List ℕ → Bool
is_emitted [] = false
is_emitted (event ∷ events) = true

-- An abort read among the events is thrown again by the `catch`.
abbrev pub end_attempt :
    (ℕ → ℕ) → ℕ → Option Retry → Attempt → Ending → Streaming × Bool → Streaming × StreamEnd
end_attempt jitter retries retry a ending (s, true) = ((read_aborted s).0, aborted)
end_attempt jitter retries retry a finished (s, false) = (s, done)
end_attempt jitter retries retry a (failed e) (s, false) =
    caught jitter retries retry (is_emitted a.events) e s

unfoldable pub attempt :
    (ℕ → Attempt) → (ℕ → ℕ) → ℕ → Option Retry → Streaming → Streaming × StreamEnd
unfolding is_retryable_provider_error compute_backoff_milliseconds pass_events
attempt gateway jitter retries retry s =
    unless (read_aborted s) (λ s'. (s', aborted))
      λ s'.
        let a = gateway s'.calls in
        end_attempt jitter retries retry a a.ending
          (pass_events a.events (record s' { calls = suc s'.calls }))

-- The `while` loop, by the number of retries that are left.
unfoldable pub stream_with : (ℕ → Attempt) → (ℕ → ℕ) → ℕ → Streaming → Streaming × StreamEnd
unfolding attempt
stream_with gateway jitter zero s = attempt gateway jitter max_provider_retry_attempts none s
stream_with gateway jitter (suc left) s =
    attempt gateway jitter (max_provider_retry_attempts - suc left)
      (some (stream_with gateway jitter left)) s

abbrev pub not_started : List Bool → Streaming
not_started readings = record { yielded = []; waits = []; calls = 0; readings = readings }

-- `RetryingModelGateway.stream`
unfoldable pub stream : (ℕ → Attempt) → (ℕ → ℕ) → List Bool → Streaming × StreamEnd
unfolding stream_with
stream gateway jitter readings =
    stream_with gateway jitter max_provider_retry_attempts (not_started readings)
