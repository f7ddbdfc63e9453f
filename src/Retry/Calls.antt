-- ===== src/Retry/Calls.antt =====
-- packages/core/src/provider-retry-policy.ts: how the calls of a stream with retries go together.
use ctrl_zebra.Prelude.{
  ℕ, zero, suc, ◌+◌, ◌-◌, ◌≤◌, ◌≡◌, refl, sym, subst, ◌⊎◌, inl, inr, arith, Bool, true, false, List,
  [], ◌∷◌, ◌++◌, Option, none, some, All, All-append, Bool-cases,
}
use ctrl_zebra.Retry.{
  ProviderError, Ending, finished, failed, Attempt, Streaming, StreamEnd, done, aborted, thrown,
  is_retryable_provider_error, compute_backoff_milliseconds, read_aborted, pass_events, Retry,
  retry_or_throw, caught, is_emitted, end_attempt, attempt, stream_with, stream, not_started,
}
use ctrl_zebra.Retry.Ends.{
  Begins, Ended, IsShortWait, IsRetried, IsReady, unless-holds, Passed, pass_events-Passed,
  backoff-IsShortWait, silent-Ended,
}

module _ (gateway : ℕ → Attempt) (jitter : ℕ → ℕ) (k : ℕ) (small : k ≤ 2) where
  -- What a retry after call `k` promises; none is left after the third call.
  abbrev RetryHolds : Option Retry → Type 0
  RetryHolds none = k ≡ 2
  RetryHolds (some retry) = (s : Streaming) → IsReady (suc k) s → IsRetried gateway (retry s)

  -- The state after a stream whose events all passed.
  abbrev IsPassed : Streaming → Type 0
  IsPassed s = (s.yielded ≡ (gateway k).events) × (s.calls ≡ suc k) × All IsShortWait s.waits

  last_call-IsRetried :
      (s : Streaming) (end : StreamEnd)
      → s.calls ≡ suc k
      → All IsShortWait s.waits
      → Ended gateway (suc k) s.yielded end
      → IsRetried gateway (s, end)
  last_call-IsRetried s end e h ended =
      (subst (λ n. Ended gateway n s.yielded end) (sym e) ended, omega arith, h)

  read_aborted-IsPassed : (s : Streaming) → IsPassed s → IsPassed (read_aborted s).0
  read_aborted-IsPassed s h = ground arith

  read_aborted-IsReady : (n : ℕ) (s : Streaming) → IsReady n s → IsReady n (read_aborted s).0
  read_aborted-IsReady n s h = ground arith

  Begins-refl : (ys es : List ℕ) → ys ≡ es → Begins ys es
  Begins-refl ys [] e = subst (λ y. Begins y []) (sym e) tt
  Begins-refl ys (x ∷ es) e = subst (λ y. Begins y (x ∷ es)) (sym e) (refl, Begins-refl es es refl)

  aborted-IsRetried : (s : Streaming) → IsPassed s → IsRetried gateway (s, aborted)
  aborted-IsRetried s (same, calls, h) =
      last_call-IsRetried s aborted calls h (Begins-refl s.yielded (gateway k).events same)

  ready-aborted : (s : Streaming) → IsReady (suc k) s → IsRetried gateway (s, aborted)
  ready-aborted s (none_yielded, calls, h) =
      last_call-IsRetried s aborted calls h
        (subst (λ ys. Begins ys (gateway k).events) (sym none_yielded) tt)

  unstarted-aborted : (s : Streaming) → IsReady k s → IsRetried gateway (s, aborted)
  unstarted-aborted s (silent, calls, h) = (
    subst (λ n. Ended gateway n s.yielded aborted) (sym calls)
        (silent-Ended gateway k s.yielded silent),
    omega arith,
    h,
  )

  thrown-IsRetried :
      (s : Streaming) (e : ProviderError)
      → IsPassed s
      → (gateway k).ending ≡ failed e
      → (is_emitted (gateway k).events ≡ true) ⊎ (is_retryable_provider_error e ≡ false) ⊎ (k ≡ 2)
      → IsRetried gateway (s, thrown e)
  thrown-IsRetried s e (same, calls, h) ending why =
      last_call-IsRetried s (thrown e) calls h (same, ending, ground arith)

  waiting-IsReady :
      (e : ProviderError) (retries : ℕ) (s : Streaming)
      → IsPassed s
      → is_emitted (gateway k).events ≡ false
      → IsReady
          (suc k)
          (record s { waits = s.waits ++ compute_backoff_milliseconds jitter e retries ∷ [] })
  waiting-IsReady e retries s (same, calls, h) silent = (
    ground arith,
    calls,
    All-append IsShortWait s.waits _ h (backoff-IsShortWait jitter e retries, tt),
  )

  retry_or_throw-IsRetried :
      (retries : ℕ) (retry : Option Retry) (e : ProviderError) (s : Streaming)
      → RetryHolds retry
      → IsPassed s
      → (gateway k).ending ≡ failed e
      → is_emitted (gateway k).events ≡ false
      → IsRetried gateway (retry_or_throw jitter retries retry e s)
  retry_or_throw-IsRetried retries none e s last h ending silent =
      thrown-IsRetried s e h ending (inr (inr last))
  retry_or_throw-IsRetried retries (some retry) e s next h ending silent =
      elim (Bool-cases (is_retryable_provider_error e)) [
        | inl is_so ↦
            (let waiting = record s {
              waits = s.waits ++ compute_backoff_milliseconds jitter e retries ∷ [];
            } in
              let ready =
                read_aborted-IsReady (suc k) waiting (waiting-IsReady e retries s h silent) in
              rw is_so (
                unless-holds (IsRetried gateway) (read_aborted waiting) (λ s'. (s', aborted)) retry
                  (ready-aborted (read_aborted waiting).0 ready)
                  (next (read_aborted waiting).0 ready)))
        | inr not_so ↦ rw not_so (thrown-IsRetried s e h ending (inr (inl not_so)))
      ]

  caught-IsRetried :
      (retries : ℕ) (retry : Option Retry) (e : ProviderError) (s : Streaming)
      → RetryHolds retry
      → IsPassed s
      → (gateway k).ending ≡ failed e
      → IsRetried gateway (caught jitter retries retry (is_emitted (gateway k).events) e s)
  caught-IsRetried retries retry e s holds h ending =
      let s' = (read_aborted s).0 in
      let h' = read_aborted-IsPassed s h in
      unless-holds (IsRetried gateway) (read_aborted s) _ _ (aborted-IsRetried s' h')
        (elim (Bool-cases (is_emitted (gateway k).events)) [
          | inl is_so ↦ rw is_so (thrown-IsRetried s' e h' ending (inl is_so))
          | inr not_so ↦
              rw not_so (retry_or_throw-IsRetried retries retry e s' holds h' ending not_so)
        ])

  end_attempt-IsRetried :
      (retries : ℕ) (retry : Option Retry) (s : Streaming) (v : Streaming × Bool) (ending : Ending)
      → RetryHolds retry
      → s.yielded ≡ []
      → s.calls ≡ suc k
      → All IsShortWait s.waits
      → (gateway k).ending ≡ ending
      → Passed s (s.yielded ++ (gateway k).events) v
      → IsRetried gateway (end_attempt jitter retries retry (gateway k) ending v)
  end_attempt-IsRetried retries retry s (s', true) ending holds silent calls h same p =
      last_call-IsRetried (read_aborted s').0 aborted (ground arith) (ground arith) (ground arith)
  end_attempt-IsRetried retries retry s (s', false) finished holds silent calls h same p =
      last_call-IsRetried s' done (ground arith) (ground arith) (ground arith)
  end_attempt-IsRetried retries retry s (s', false) (failed e) holds silent calls h same p =
      caught-IsRetried retries retry e s' holds (ground arith) same

  attempt-IsRetried :
      (retries : ℕ) (retry : Option Retry) (s : Streaming)
      → RetryHolds retry
      → IsReady k s
      → IsRetried gateway (attempt gateway jitter retries retry s)
  unfolding attempt
  attempt-IsRetried retries retry s holds ready =
      let s' = (read_aborted s).0 in
      let (silent, calls, h) = read_aborted-IsReady k s ready in
      let started = record s' { calls = suc s'.calls } in
      unless-holds (IsRetried gateway) (read_aborted s) _ _
        (unstarted-aborted s' (silent, calls, h))
        (subst
          (λ n. IsRetried gateway (
            end_attempt jitter retries retry (gateway n) (gateway n).ending
              (pass_events (gateway n).events started)))
          (sym calls)
          (end_attempt-IsRetried retries retry started (pass_events (gateway k).events started)
            (gateway k).ending holds silent (ground arith) h refl
            (subst
              (λ ys.
                Passed started (ys ++ (gateway k).events) (pass_events (gateway k).events started))
              refl (pass_events-Passed (gateway k).events started))))

stream_with-IsRetried :
    (gateway : ℕ → Attempt) (jitter : ℕ → ℕ) (left k : ℕ) (s : Streaming)
    → k + left ≡ 2
    → IsReady k s
    → IsRetried gateway (stream_with gateway jitter left s)
unfolding stream_with
stream_with-IsRetried gateway jitter zero k s e ready =
    attempt-IsRetried gateway jitter k (omega arith) 2 none s (omega arith) ready
stream_with-IsRetried gateway jitter (suc left) k s e ready =
    attempt-IsRetried gateway jitter k (omega arith) (2 - suc left)
      (some (stream_with gateway jitter left)) s
      (λ s'. stream_with-IsRetried gateway jitter left (suc k) s' (omega arith)) ready

-- A stream with retries ends after at most three calls of the gateway inside, whatever the calls, the
-- jitter and the signal do, and no wait is longer than the ceiling. What it yielded are events of its
-- last call alone: all of them where it is done or throws an error, and the first of them where it is
-- aborted. If it is done, so was that call; an error thrown is that of the last call, which emitted an
-- event, or failed for a reason that is not retried, or was the third.
pub stream-IsRetried :
    (gateway : ℕ → Attempt) (jitter : ℕ → ℕ) (readings : List Bool)
    → IsRetried gateway (stream gateway jitter readings)
unfolding stream
stream-IsRetried gateway jitter readings =
    stream_with-IsRetried gateway jitter 2 0 (not_started readings) refl (refl, refl, tt)
