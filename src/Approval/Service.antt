-- ===== src/Approval/Service.antt =====
-- packages/core/src/approval-service.ts: the requests that wait for a decision. A promise is a number,
-- in the order in which they were made, and what it was resolved or rejected with is kept, newest
-- first. The listeners of a signal are those of the requests that wait with it, oldest first.
pub mod Promises
pub mod Lives
use ctrl_zebra.Prelude.{
  ℕ, suc, ◌+◌, Bool, true, false, ◌||◌, List, [], ◌∷◌, Option, none, some, is_some, Result, ok, err,
  ◌==◌, if◌then◌else◌,
}

-- `ApprovalDecision` of packages/protocol/src/approval.ts, up to the texts of the two kinds.
pub record ApprovalDecision : Type 0 where
  pub request_id : ℕ
  pub approved : Bool

pub data Reason : Type 0 where
  aborted : ℕ → Reason
  already_pending : ℕ → Reason
  sink_failed : ℕ → Reason
  given : ℕ → Reason

pub data Outcome : Type 0 where
  resolved : ApprovalDecision → Outcome
  rejected : Reason → Outcome

pub record PendingApproval : Type 0 where
  pub request_id : ℕ
  pub signal : ℕ
  pub promise : ℕ

pub record CancellableApprovalService : Type 0 where
  pub pending_approvals : List PendingApproval
  pub outcomes : List (ℕ × Outcome)
  pub promises : ℕ
  pub aborted_signals : List ℕ

-- The identifier that is not pending.
pub record ApprovalRequestNotPendingError : Type 0 where
  pub request_id : ℕ

abbrev pub new_service : CancellableApprovalService
new_service = record { pending_approvals = []; outcomes = []; promises = 0; aborted_signals = [] }

-- `signal.aborted`
unfoldable pub is_aborted : ℕ → List ℕ → Bool
is_aborted signal [] = false
is_aborted signal (s ∷ ss) = s == signal || is_aborted signal ss

-- `get`, `set` and `delete` of a Map: a key that is set again keeps its place and loses its value.
unfoldable pub get : ℕ → List PendingApproval → Option PendingApproval
get id [] = none
get id (q ∷ qs) = if q.request_id == id then some q else get id qs

unfoldable pub set : PendingApproval → List PendingApproval → List PendingApproval
set q [] = q ∷ []
set q (p ∷ ps) = if p.request_id == q.request_id then q ∷ ps else p ∷ set q ps

unfoldable pub delete : ℕ → List PendingApproval → List PendingApproval
delete id [] = []
delete id (q ∷ qs) = if q.request_id == id then qs else q ∷ delete id qs

abbrev pub settle : ℕ → Outcome → CancellableApprovalService → CancellableApprovalService
settle promise outcome s = record s { outcomes = (promise, outcome) ∷ s.outcomes }

-- Two pending approvals are one object where their promises are one.
abbrev pub is_same : Option PendingApproval → PendingApproval → Bool
is_same none q = false
is_same (some p) q = p.promise == q.promise

-- `#removePending`
unfoldable pub remove_pending :
    PendingApproval → CancellableApprovalService → CancellableApprovalService × Bool
unfolding get delete
remove_pending q s =
    if is_same (get q.request_id s.pending_approvals) q
    then (record s { pending_approvals = delete q.request_id s.pending_approvals }, true)
    else (s, false)

-- `if (this.#removePending(pending)) reject(reason)`
unfoldable pub reject_pending :
    Reason → PendingApproval → CancellableApprovalService → CancellableApprovalService
unfolding remove_pending
reject_pending reason q s =
    let r = remove_pending q s in if r.1 then settle q.promise (rejected reason) r.0 else r.0

-- `request`, to the call of the sink.
unfoldable pub request : ℕ → ℕ → CancellableApprovalService → CancellableApprovalService
unfolding is_aborted get set
request id signal s =
    let made = record s { promises = suc s.promises } in
    if is_aborted signal s.aborted_signals
    then settle s.promises (rejected (aborted signal)) made
    else if is_some (get id s.pending_approvals)
    then settle s.promises (rejected (already_pending id)) made
    else record made {
      pending_approvals =
          set (record { request_id = id; signal = signal; promise = s.promises })
            s.pending_approvals;
    }

abbrev pub answer :
    ℕ
    → Outcome
    → CancellableApprovalService
    → Option PendingApproval
    → Result ApprovalRequestNotPendingError CancellableApprovalService
answer id outcome s none = err (record { request_id = id })
answer id outcome s (some q) = ok (settle q.promise outcome (remove_pending q s).0)

unfoldable pub respond :
    ApprovalDecision
    → CancellableApprovalService
    → Result ApprovalRequestNotPendingError CancellableApprovalService
unfolding get remove_pending
respond decision s =
    answer decision.request_id (resolved decision) s (get decision.request_id s.pending_approvals)

unfoldable pub cancel :
    ℕ
    → ℕ
    → CancellableApprovalService
    → Result ApprovalRequestNotPendingError CancellableApprovalService
unfolding get remove_pending
cancel id reason s = answer id (rejected (given reason)) s (get id s.pending_approvals)

-- The listeners of an aborted signal, called in turn.
unfoldable pub notify :
    ℕ → List PendingApproval → CancellableApprovalService → CancellableApprovalService
unfolding reject_pending
notify signal [] s = s
notify signal (q ∷ qs) s =
    if q.signal == signal
    then notify signal qs (reject_pending (aborted signal) q s)
    else notify signal qs s

unfoldable pub abort : ℕ → CancellableApprovalService → CancellableApprovalService
unfolding is_aborted notify
abort signal s =
    if is_aborted signal s.aborted_signals
    then s
    else notify signal s.pending_approvals
        (record s { aborted_signals = signal ∷ s.aborted_signals })

-- What can happen: the calls, the abort of a signal, and a throw of the sink, which comes some time
-- after the request that it was handed, as the sink may itself call the service.
pub data Call : Type 0 where
  requests : ℕ → ℕ → Call
  sink_throws : ℕ → PendingApproval → Call
  responds : ApprovalDecision → Call
  cancels : ℕ → ℕ → Call
  aborts : ℕ → Call

abbrev pub after :
    CancellableApprovalService
    → Result ApprovalRequestNotPendingError CancellableApprovalService
    → CancellableApprovalService
after s (ok s') = s'
after s (err e) = s

unfoldable pub step : CancellableApprovalService → Call → CancellableApprovalService
unfolding request reject_pending respond cancel abort
step s (requests id signal) = request id signal s
step s (sink_throws e q) = reject_pending (sink_failed e) q s
step s (responds d) = after s (respond d s)
step s (cancels id reason) = after s (cancel id reason s)
step s (aborts signal) = abort signal s

unfoldable pub run_calls : CancellableApprovalService → List Call → CancellableApprovalService
unfolding step
run_calls s [] = s
run_calls s (c ∷ cs) = run_calls (step s c) cs
