-- ===== src/Approval/Service/Lives.antt =====
-- packages/core/src/approval-service.ts: what becomes of a promise, against the plain description of a
-- promise that is settled at most once.
use ctrl_zebra.Prelude.{
  ℕ, zero, suc, ◌+◌, ◌≡◌, ◌≤◌, refl, sym, subst, arith, true, List, [], ◌∷◌, Option, none, some,
  is_some, ◌==◌, if◌then◌else◌, Bool-cases, inl, inr, Option-cases,
}
use ctrl_zebra.Approval.Service.{
  Outcome, rejected, Reason, aborted, already_pending, PendingApproval, CancellableApprovalService,
  new_service, get, set, delete, settle, is_same, remove_pending, reject_pending, request, answer,
  respond, cancel, notify, abort, is_aborted, Call, requests, sink_throws, responds, cancels,
  aborts, after, step, run_calls,
}
use ctrl_zebra.Approval.Service.Promises.{
  one_if, waits, settled, IsOnce, waits-set, waits-delete, get-request_id, reject_pending-IsOnce,
  step-IsOnce, run_calls-IsOnce,
}

-- The description: a promise is not made yet, waits, or is over for good.
pub data Life : Type 0 where
  unborn waiting : Life
  over : Outcome → Life

pub data Turn : Life → Life → Type 0 where
  asks : Turn unborn waiting
  refuses : (r : Reason) → Turn unborn (over (rejected r))
  decides : (o : Outcome) → Turn waiting (over o)

pub data Leads : Life → Life → Type 0 where
  stays : (l : Life) → Leads l l
  goes : (k l m : Life) → Turn k l → Leads l m → Leads k m

-- The view of a promise in the service.
unfoldable pub outcome_of : ℕ → List (ℕ × Outcome) → Option Outcome
outcome_of p [] = none
outcome_of p ((r, o) ∷ os) = if r == p then some o else outcome_of p os

abbrev pub life_of : Option Outcome → ℕ → Life
life_of (some o) n = over o
life_of none zero = unborn
life_of none (suc n) = waiting

abbrev pub life : ℕ → CancellableApprovalService → Life
life p s = life_of (outcome_of p s.outcomes) (waits p s.pending_approvals)

pub Leads-trans : (k l m : Life) → Leads k l → Leads l m → Leads k m
Leads-trans k l m (stays _) h = h
Leads-trans k l m (goes _ j _ t g) h = goes k j m t (Leads-trans j l m g h)

same_life : (k l : Life) → k ≡ l → Leads k l
same_life k l e = subst (λ x. Leads k x) e (stays k)

turns : (k l k' l' : Life) → k' ≡ k → l' ≡ l → Turn k l → Leads k' l'
turns k l k' l' e f t = subst (λ x. Leads x l') (sym e) (goes k l l' t (same_life l l' (sym f)))

unsettled-outcome_of : (p : ℕ) (os : List (ℕ × Outcome)) → settled p os ≡ 0 → outcome_of p os ≡ none
unfolding settled outcome_of
unsettled-outcome_of p [] e = refl
unsettled-outcome_of p ((r, o) ∷ os) e = let rest = unsettled-outcome_of p os in ground arith

life-waiting :
    (p : ℕ) (s : CancellableApprovalService)
    → IsOnce s
    → 1 ≤ waits p s.pending_approvals
    → life p s ≡ waiting
life-waiting p s once some_wait =
    let before = once p in
    let none_yet = unsettled-outcome_of p s.outcomes (ground arith) in ground arith

life-unborn : (s : CancellableApprovalService) → IsOnce s → life s.promises s ≡ unborn
life-unborn s once =
    let before = once s.promises in
    let none_yet = unsettled-outcome_of s.promises s.outcomes (ground arith) in ground arith

-- A waiting promise is taken from the map and settled.
settle-Leads :
    (r : ℕ) (o : Outcome) (s : CancellableApprovalService) (qs : List PendingApproval)
    → IsOnce s
    → ((p : ℕ) → one_if (r == p) + waits p qs ≡ waits p s.pending_approvals)
    → (p : ℕ) → Leads (life p s) (life p (settle r o (record s { pending_approvals = qs })))
unfolding outcome_of
settle-Leads r o s qs once taken p = elim (Bool-cases (r == p)) [
  | inl mine ↦
      let here = taken p in
      turns waiting (over o) _ _ (life-waiting p s once (ground arith)) (ground arith) (decides o)
  | inr other ↦ let here = taken p in same_life _ _ (ground arith)
]

same-taken :
    (q : PendingApproval) (s : CancellableApprovalService)
    → is_same (get q.request_id s.pending_approvals) q ≡ true
    → (p : ℕ)
    → one_if (q.promise == p) + waits p (delete q.request_id s.pending_approvals)
      ≡ waits p s.pending_approvals
same-taken q s same p = elim (Option-cases (get q.request_id s.pending_approvals)) [
  | inl absent ↦ ground arith
  | inr (r, found) ↦
      let left = waits-delete p q.request_id s.pending_approvals r found in ground arith
]

reject_pending-Leads :
    (reason : Reason) (q : PendingApproval) (s : CancellableApprovalService)
    → IsOnce s
    → (p : ℕ) → Leads (life p s) (life p (reject_pending reason q s))
unfolding reject_pending remove_pending
reject_pending-Leads reason q s once p =
    elim (Bool-cases (is_same (get q.request_id s.pending_approvals) q)) [
      | inl same ↦ simp same (
          settle-Leads q.promise (rejected reason) s (delete q.request_id s.pending_approvals) once
            (same-taken q s same) p)
      | inr other ↦ simp other (stays (life p s))
    ]

removed-Leads :
    (o : Outcome) (q : PendingApproval) (s : CancellableApprovalService)
    → IsOnce s
    → is_same (get q.request_id s.pending_approvals) q ≡ true
    → (p : ℕ) → Leads (life p s) (life p (settle q.promise o (remove_pending q s).0))
unfolding remove_pending
removed-Leads o q s once same p =
    let taken : CancellableApprovalService = record s {
      pending_approvals = delete q.request_id s.pending_approvals;
    } in
    let removed : (remove_pending q s).0 ≡ taken = ground arith in
    subst (λ t. Leads (life p s) (life p (settle q.promise o t))) (sym removed)
      (settle-Leads q.promise o s (delete q.request_id s.pending_approvals) once
        (same-taken q s same) p)

answer-Leads :
    (id : ℕ) (o : Outcome) (s : CancellableApprovalService)
    → IsOnce s
    → (p : ℕ) → Leads (life p s) (life p (after s (answer id o s (get id s.pending_approvals))))
answer-Leads id o s once p = elim (Option-cases (get id s.pending_approvals)) [
  | inl absent ↦ simp absent (stays (life p s))
  | inr (q, found) ↦
      let id_ : q.request_id ≡ id = get-request_id id s.pending_approvals q found in
      let same : is_same (get q.request_id s.pending_approvals) q ≡ true = ground arith in
      simp found (removed-Leads o q s once same p)
]

made-Leads :
    (id signal : ℕ) (s : CancellableApprovalService)
    → IsOnce s
    → get id s.pending_approvals ≡ none
    → (p : ℕ)
    → Leads (life p s) (
        life p (record s {
          promises = suc s.promises;
          pending_approvals =
              set
                (record { request_id = id; signal = signal; promise = s.promises })
                s.pending_approvals;
        }))
made-Leads id signal s once unused p =
    let more =
      waits-set p s.pending_approvals
        (record { request_id = id; signal = signal; promise = s.promises }) unused in
    elim (Bool-cases (s.promises == p)) [
      | inl new_ ↦
          let e : s.promises ≡ p = ground arith in
          let first : life p s ≡ unborn = subst (λ x. life x s ≡ unborn) e (life-unborn s once) in
          turns unborn waiting _ _ first (ground arith) asks
      | inr old ↦ same_life _ _ (ground arith)
    ]

refused-Leads :
    (r : Reason) (s : CancellableApprovalService)
    → IsOnce s
    → (p : ℕ)
    → Leads
        (life p s)
        (life p (settle s.promises (rejected r) (record s { promises = suc s.promises })))
unfolding outcome_of
refused-Leads r s once p = elim (Bool-cases (s.promises == p)) [
  | inl new_ ↦
      let e : s.promises ≡ p = ground arith in
      let first : life p s ≡ unborn = subst (λ x. life x s ≡ unborn) e (life-unborn s once) in
      turns unborn (over (rejected r)) _ _ first (ground arith) (refuses r)
  | inr old ↦ same_life _ _ (ground arith)
]

request-Leads :
    (id signal : ℕ) (s : CancellableApprovalService)
    → IsOnce s
    → (p : ℕ) → Leads (life p s) (life p (request id signal s))
unfolding request
request-Leads id signal s once p = elim (Bool-cases (is_aborted signal s.aborted_signals)) [
  | inl late ↦ simp late (refused-Leads (aborted signal) s once p)
  | inr live ↦ elim (Bool-cases (is_some (get id s.pending_approvals))) [
    | inl taken ↦ simp (live, taken) (refused-Leads (already_pending id) s once p)
    | inr free ↦ simp (live, free) (made-Leads id signal s once (ground arith) p)
  ]
]

notify-Leads :
    (signal : ℕ) (qs : List PendingApproval) (s : CancellableApprovalService)
    → IsOnce s
    → (p : ℕ) → Leads (life p s) (life p (notify signal qs s))
unfolding notify
notify-Leads signal [] s once p = stays (life p s)
notify-Leads signal (q ∷ qs) s once p = elim (Bool-cases (q.signal == signal)) [
  | inl mine ↦
      let s' = reject_pending (aborted signal) q s in
      simp mine (
        Leads-trans (life p s) (life p s') (life p (notify signal qs s'))
          (reject_pending-Leads (aborted signal) q s once p)
          (notify-Leads signal qs s' (reject_pending-IsOnce (aborted signal) q s once) p))
  | inr other ↦ simp other (notify-Leads signal qs s once p)
]

abort-Leads :
    (signal : ℕ) (s : CancellableApprovalService)
    → IsOnce s
    → (p : ℕ) → Leads (life p s) (life p (abort signal s))
unfolding abort
abort-Leads signal s once p = elim (Bool-cases (is_aborted signal s.aborted_signals)) [
  | inl late ↦ simp late (stays (life p s))
  | inr first ↦ simp first (
      notify-Leads signal s.pending_approvals
        (record s { aborted_signals = signal ∷ s.aborted_signals }) once p)
]

step-Leads :
    (s : CancellableApprovalService) (c : Call)
    → IsOnce s
    → (p : ℕ) → Leads (life p s) (life p (step s c))
unfolding step respond cancel
step-Leads s (requests id signal) once p = request-Leads id signal s once p
step-Leads s (sink_throws e q) once p = reject_pending-Leads _ q s once p
step-Leads s (responds d) once p = answer-Leads d.request_id _ s once p
step-Leads s (cancels id reason) once p = answer-Leads id _ s once p
step-Leads s (aborts signal) once p = abort-Leads signal s once p

run_calls-Leads_from :
    (s : CancellableApprovalService) (cs : List Call)
    → IsOnce s
    → (p : ℕ) → Leads (life p s) (life p (run_calls s cs))
unfolding run_calls
run_calls-Leads_from s [] once p = stays (life p s)
run_calls-Leads_from s (c ∷ cs) once p =
    Leads-trans (life p s) (life p (step s c)) (life p (run_calls (step s c) cs))
      (step-Leads s c once p) (run_calls-Leads_from (step s c) cs (step-IsOnce s c once) p)

-- Whatever calls were made, further calls lead a promise along the description alone: it is made
-- waiting or is refused, a waiting one is decided, and one that is over stays so, with its outcome.
pub run_calls-Leads :
    (cs ds : List Call) (p : ℕ)
    → let s = run_calls new_service cs in Leads (life p s) (life p (run_calls s ds))
run_calls-Leads cs ds p = run_calls-Leads_from (run_calls new_service cs) ds (run_calls-IsOnce cs) p
