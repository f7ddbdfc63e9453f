-- ===== src/Approval/Service/Promises.antt =====
-- packages/core/src/approval-service.ts: how often a promise is settled.
use ctrl_zebra.Prelude.{
  ℕ, ◌+◌, ◌≡◌, arith, Bool, true, false, List, [], ◌∷◌, none, some, ◌==◌, ltb, Bool-cases, inl, inr,
  Option-cases,
}
use ctrl_zebra.Approval.Service.{
  Outcome, Reason, aborted, PendingApproval, CancellableApprovalService, new_service, get, set,
  delete, remove_pending, reject_pending, request, answer, respond, cancel, notify, abort,
  is_aborted, Call, requests, sink_throws, responds, cancels, aborts, after, step, run_calls,
}

abbrev pub one_if : Bool → ℕ
one_if true = 1
one_if false = 0

-- How many of the pending approvals hold a promise, and how often it was settled.
unfoldable pub waits : ℕ → List PendingApproval → ℕ
waits p [] = 0
waits p (q ∷ qs) = one_if (q.promise == p) + waits p qs

unfoldable pub settled : ℕ → List (ℕ × Outcome) → ℕ
settled p [] = 0
settled p ((r, o) ∷ os) = one_if (r == p) + settled p os

-- Of each promise that was made there is one trace, of no other any.
abbrev pub IsOnce : CancellableApprovalService → Type 0
IsOnce s = (p : ℕ) → waits p s.pending_approvals + settled p s.outcomes ≡ one_if (ltb p s.promises)

-- A key that is set anew takes no value away.
pub waits-set :
    (p : ℕ) (qs : List PendingApproval) (q : PendingApproval)
    → get q.request_id qs ≡ none
    → waits p (set q qs) ≡ waits p qs + one_if (q.promise == p)
unfolding waits get set
waits-set p [] q e = omega arith
waits-set p (r ∷ qs) q e = let rest = waits-set p qs q in ground arith

pub waits-delete :
    (p id : ℕ) (qs : List PendingApproval) (q : PendingApproval)
    → get id qs ≡ some q
    → one_if (q.promise == p) + waits p (delete id qs) ≡ waits p qs
unfolding waits get delete
waits-delete p id [] q e = ground arith
waits-delete p id (r ∷ qs) q e = let rest = waits-delete p id qs q in ground arith

pub reject_pending-IsOnce :
    (reason : Reason) (q : PendingApproval) (s : CancellableApprovalService)
    → IsOnce s
    → IsOnce (reject_pending reason q s)
unfolding reject_pending remove_pending settled
reject_pending-IsOnce reason q s once p =
    elim (Option-cases (get q.request_id s.pending_approvals)) [
      | inl absent ↦ let before = once p in ground arith
      | inr (r, found) ↦
          let before = once p in
          let left = waits-delete p q.request_id s.pending_approvals r found in ground arith
    ]

pub get-request_id :
    (id : ℕ) (qs : List PendingApproval) (q : PendingApproval)
    → get id qs ≡ some q
    → q.request_id ≡ id
unfolding get
get-request_id id [] q e = ground arith
get-request_id id (r ∷ qs) q e = let rest = get-request_id id qs q in ground arith

answer-IsOnce :
    (id : ℕ) (o : Outcome) (s : CancellableApprovalService)
    → IsOnce s
    → IsOnce (after s (answer id o s (get id s.pending_approvals)))
unfolding remove_pending settled
answer-IsOnce id o s once p = elim (Option-cases (get id s.pending_approvals)) [
  | inl absent ↦ let before = once p in ground arith
  | inr (q, found) ↦
      let before = once p in
      let left = waits-delete p id s.pending_approvals q found in
      let same = get-request_id id s.pending_approvals q found in ground arith
]

request-IsOnce :
    (id signal : ℕ) (s : CancellableApprovalService) → IsOnce s → IsOnce (request id signal s)
unfolding request settled
request-IsOnce id signal s once p =
    let before = once p in
    let more =
      waits-set p s.pending_approvals
        (record { request_id = id; signal = signal; promise = s.promises }) in
    ground arith

notify-IsOnce :
    (signal : ℕ) (qs : List PendingApproval) (s : CancellableApprovalService)
    → IsOnce s
    → IsOnce (notify signal qs s)
unfolding notify
notify-IsOnce signal [] s once = once
notify-IsOnce signal (q ∷ qs) s once = elim (Bool-cases (q.signal == signal)) [
  | inl mine ↦ simp mine (
      notify-IsOnce signal qs (reject_pending (aborted signal) q s)
        (reject_pending-IsOnce (aborted signal) q s once))
  | inr other ↦ simp other (notify-IsOnce signal qs s once)
]

abort-IsOnce : (signal : ℕ) (s : CancellableApprovalService) → IsOnce s → IsOnce (abort signal s)
unfolding abort
abort-IsOnce signal s once = elim (Bool-cases (is_aborted signal s.aborted_signals)) [
  | inl late ↦ simp late once
  | inr first ↦ simp first (
      notify-IsOnce signal s.pending_approvals
        (record s { aborted_signals = signal ∷ s.aborted_signals }) once)
]

pub step-IsOnce : (s : CancellableApprovalService) (c : Call) → IsOnce s → IsOnce (step s c)
unfolding step respond cancel
step-IsOnce s (requests id signal) once = request-IsOnce id signal s once
step-IsOnce s (sink_throws e q) once = reject_pending-IsOnce _ q s once
step-IsOnce s (responds d) once = answer-IsOnce d.request_id _ s once
step-IsOnce s (cancels id reason) once = answer-IsOnce id _ s once
step-IsOnce s (aborts signal) once = abort-IsOnce signal s once

pub run_calls-IsOnce_from :
    (s : CancellableApprovalService) (cs : List Call) → IsOnce s → IsOnce (run_calls s cs)
unfolding run_calls
run_calls-IsOnce_from s [] once = once
run_calls-IsOnce_from s (c ∷ cs) once = run_calls-IsOnce_from (step s c) cs (step-IsOnce s c once)

-- Through any calls, aborts and throws of the sink, each promise that was made either waits in one
-- pending approval or was settled once, never both and never twice, and no other promise has a trace.
pub run_calls-IsOnce : (cs : List Call) → IsOnce (run_calls new_service cs)
run_calls-IsOnce cs =
    run_calls-IsOnce_from new_service cs (λ p. unfold waits settled in ground arith)
