-- ===== src/Tests/RetryTests.antt =====
-- A stream that is refused twice for its rate and then succeeds.
use ctrl_zebra.Prelude.{ℕ, zero, suc, ◌-◌, ◌≡◌, refl, [], ◌∷◌, none, some}
use ctrl_zebra.Retry.{
  gateway_error, rate_limit, finished, failed, Attempt, done, stream, stream_with, attempt,
  pass_events, compute_backoff_milliseconds, is_retryable_provider_error,
}
use ctrl_zebra.Retry.Ends.{IsRetried}
use ctrl_zebra.Retry.Calls.{stream-IsRetried}

abbrev busy_gateway : ℕ → Attempt
busy_gateway zero = record { events = []; ending = failed (gateway_error rate_limit none) }
busy_gateway (suc zero) = record {
  events = [];
  ending = failed (gateway_error rate_limit (some 60_000));
}
busy_gateway (suc (suc n)) = record { events = 5 ∷ 6 ∷ []; ending = finished }

busy_stream :
    stream busy_gateway (λ n. n - 1) []
    ≡ (record { yielded = 5 ∷ 6 ∷ []; waits = 249 ∷ 30_000 ∷ []; calls = 3; readings = [] }, done)
unfolding stream stream_with attempt pass_events compute_backoff_milliseconds
    is_retryable_provider_error
busy_stream = refl

stream-IsRetried_example : IsRetried busy_gateway (stream busy_gateway (λ n. n - 1) [])
stream-IsRetried_example = stream-IsRetried busy_gateway (λ n. n - 1) []
