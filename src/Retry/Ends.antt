-- ===== src/Retry/Ends.antt =====
-- packages/core/src/provider-retry-policy.ts: what an end of a stream says of its last call, and what the
-- events that pass leave.
use ctrl_zebra.Prelude.{
  ℕ, zero, suc, ◌≤◌, ◌≡◌, refl, sym, subst, ◌⊎◌, arith, Bool, true, false, List, [], ◌∷◌, ◌++◌, All,
}
use ctrl_zebra.Retry.{
  ProviderError, finished, failed, Attempt, Streaming, StreamEnd, done, aborted, thrown,
  is_retryable_provider_error, compute_backoff_milliseconds, read_aborted, unless, pass_events,
  is_emitted, max_provider_retry_delay_milliseconds,
}

abbrev pub Begins : List ℕ → List ℕ → Type 0
Begins [] events = Unit
Begins (y ∷ ys) [] = ⊥
Begins (y ∷ ys) (event ∷ events) = (y ≡ event) × Begins ys events

-- How a stream ended, against the last call of the gateway inside.
abbrev pub Ended : (ℕ → Attempt) → ℕ → List ℕ → StreamEnd → Type 0
Ended gateway zero yielded aborted = yielded ≡ []
Ended gateway zero yielded done = ⊥
Ended gateway zero yielded (thrown e) = ⊥
Ended gateway (suc k) yielded aborted = Begins yielded (gateway k).events
Ended gateway (suc k) yielded done =
    (yielded ≡ (gateway k).events) × ((gateway k).ending ≡ finished)
Ended gateway (suc k) yielded (thrown e) =
    (yielded ≡ (gateway k).events)
    × ((gateway k).ending ≡ failed e)
    × ((is_emitted yielded ≡ true) ⊎ (is_retryable_provider_error e ≡ false) ⊎ (k ≡ 2))

abbrev pub IsShortWait : ℕ → Type 0
IsShortWait w = w ≤ max_provider_retry_delay_milliseconds

abbrev pub IsRetried : (ℕ → Attempt) → Streaming × StreamEnd → Type 0
IsRetried gateway r =
    Ended gateway r.0.calls r.0.yielded r.1 × (r.0.calls ≤ 3) × All IsShortWait r.0.waits

-- Before a call: nothing was yielded.
abbrev pub IsReady : ℕ → Streaming → Type 0
IsReady k s = (s.yielded ≡ []) × (s.calls ≡ k) × All IsShortWait s.waits

pub unless-holds :
    (P : Streaming × StreamEnd → Type 0) (v : Streaming × Bool)
    (stop next : Streaming → Streaming × StreamEnd)
    → P (stop v.0)
    → P (next v.0)
    → P (unless v stop next)
unless-holds P (s, true) stop next h k = h
unless-holds P (s, false) stop next h k = k

pub append_assoc : (ys : List ℕ) (e : ℕ) (es : List ℕ) → (ys ++ e ∷ []) ++ es ≡ ys ++ e ∷ es
append_assoc [] e es = refl
append_assoc (y ∷ ys) e es = ground (arith, append_assoc ys e es)

pub Begins-append : (ys es : List ℕ) → Begins ys (ys ++ es)
Begins-append [] es = tt
Begins-append (y ∷ ys) es = (refl, Begins-append ys es)

abbrev pub Passed : Streaming → List ℕ → Streaming × Bool → Type 0
Passed s all (s', true) = Begins s'.yielded all × (s'.calls ≡ s.calls) × (s'.waits ≡ s.waits)
Passed s all (s', false) = (s'.yielded ≡ all) × (s'.calls ≡ s.calls) × (s'.waits ≡ s.waits)

pub append_nil : (ys : List ℕ) → ys ≡ ys ++ []
append_nil [] = refl
append_nil (y ∷ ys) = ground (arith, append_nil ys)

pub pass_events-Passed :
    (events : List ℕ) (s : Streaming) → Passed s (s.yielded ++ events) (pass_events events s)
unfolding pass_events
pass_events-Passed [] s = (append_nil s.yielded, refl, refl)
pass_events-Passed (e ∷ es) s =
    let s' = (read_aborted s).0 in
    ground (
      arith,
      append_assoc s.yielded e es,
      Begins-append s.yielded (e ∷ es),
      pass_events-Passed es (record s' { yielded = s'.yielded ++ e ∷ [] }),
    )

pub backoff-IsShortWait :
    (jitter : ℕ → ℕ) (e : ProviderError) (retries : ℕ)
    → IsShortWait (compute_backoff_milliseconds jitter e retries)
unfolding compute_backoff_milliseconds
backoff-IsShortWait jitter e retries = ground arith

pub silent-Ended :
    (gateway : ℕ → Attempt) (k : ℕ) (ys : List ℕ) → ys ≡ [] → Ended gateway k ys aborted
silent-Ended gateway zero ys e = e
silent-Ended gateway (suc k) ys e = subst (λ y. Begins y (gateway k).events) (sym e) tt
