-- ===== src/Retention/Counts.antt =====
-- packages/core/src/session-retention.ts: how the numbers of a report go together.
use ctrl_zebra.Prelude.{
  ℕ, suc, ◌+◌, ◌*◌, ◌≡◌, refl, arith, Bool, true, false, List, [], ◌∷◌, some, length, length-append,
  ok,
}
use ctrl_zebra.Retention.{
  SessionRetentionCandidate, SessionRetentionCleanupReport, CheckpointStore, Repository, Sweep,
  Step, no_sweep, throw_if_aborted, unless_aborted, delete_session, visit, sweep, clean,
  cleanup_expired_sessions, valid_days, milliseconds_per_day, SessionRetentionPolicy,
}
use ctrl_zebra.Retention.Attempts.{is_removable, removable, delete_checkpoints-SameSessions}

-- Between two rounds of the loop every expired Session was deleted or failed, and the deleted ones
-- are listed.
abbrev Balanced : ℕ → Sweep → Type 0
Balanced expired s =
    (s.expired ≡ expired)
    × (s.expired ≡ s.deleted_sessions + s.failed_sessions)
    × (length s.removed_session_ids ≡ s.deleted_sessions)

abbrev add_if : Bool → ℕ → ℕ
add_if true n = suc n
add_if false n = n

visit-Balanced :
    (repository : Repository) (now age n : ℕ) (c : SessionRetentionCandidate) (s : Sweep)
    → Balanced n s
    → (visit repository now age c s).1 ≡ false
    → Balanced (add_if (is_removable now age c) n) (visit repository now age c s).0
unfolding visit delete_session is_removable
visit-Balanced repository now age n c s h e =
    ground (arith, length-append s.removed_session_ids (c.session_id ∷ []))

throw_if_aborted-Balanced : (n : ℕ) (s : Sweep) → Balanced n s → Balanced n (throw_if_aborted s).0
throw_if_aborted-Balanced n s h = ground arith

after_balance :
    (v : Step) (next : Sweep → Step) {n m : ℕ}
    → (v.1 ≡ false → Balanced n v.0)
    → ((s : Sweep) → Balanced n s → (next s).1 ≡ false → Balanced m (next s).0)
    → (unless_aborted v next).1 ≡ false
    → Balanced m (unless_aborted v next).0
after_balance (s, true) next first rest e = cc
after_balance (s, false) next first rest e = rest s (first refl) e

removable-length :
    (now age n : ℕ) (c : SessionRetentionCandidate) (cs : List SessionRetentionCandidate)
    → length (removable now age (c ∷ cs)) + n
      ≡ length (removable now age cs) + add_if (is_removable now age c) n
unfolding removable
removable-length now age n c cs = ground arith

sweep-Balanced :
    (repository : Repository) (now age n : ℕ) (cs : List SessionRetentionCandidate) (s : Sweep)
    → Balanced n s
    → (sweep repository now age cs s).1 ≡ false
    → Balanced (length (removable now age cs) + n) (sweep repository now age cs s).0
unfolding sweep removable
sweep-Balanced repository now age n [] s h e = ground arith
sweep-Balanced repository now age n (c ∷ cs) s h e =
    after_balance (throw_if_aborted s) _ (λ e'. throw_if_aborted-Balanced n s h)
      (λ s' h'.
        after_balance (visit repository now age c s') _
          (visit-Balanced repository now age n c s' h')
          (λ s'' h'' e''.
            rw (removable-length now age n c cs) (
              sweep-Balanced repository now age (add_if (is_removable now age c) n) cs s'' h''
                e'')))
      e

clean-report :
    (repository : Repository) (store : CheckpointStore) (now age : ℕ)
    (cs : List SessionRetentionCandidate) (s : Sweep) (rep : SessionRetentionCleanupReport)
    → Balanced 0 s
    → (clean repository store now age cs s).1 ≡ ok rep
    → (rep.scanned ≡ length cs)
      × (rep.expired ≡ length (removable now age cs))
      × (rep.expired ≡ rep.deleted_sessions + rep.failed_sessions)
      × (length rep.removed_session_ids ≡ rep.deleted_sessions)
unfolding clean
clean-report repository store now age cs s rep h e =
    let s' = (throw_if_aborted s).0 in
    let swept = (sweep repository now age cs s').0 in
    let h' = throw_if_aborted-Balanced 0 s h in
    ground (
      arith,
      sweep-Balanced repository now age 0 cs s' h',
      delete_checkpoints-SameSessions store swept.checkpoint_owners swept,
    )

-- An enabled cleanup that returns a report has scanned all the candidates; the number expired in it
-- is that of the Sessions removable at its time, each of which counts as deleted or as failed; and
-- it lists as many removed identifiers as Sessions deleted.
pub cleanup_expired_sessions-report :
    (repository : Repository) (store : CheckpointStore) (policy : SessionRetentionPolicy)
    (now days : ℕ) (cs : List SessionRetentionCandidate) (readings : List Bool)
    (rep : SessionRetentionCleanupReport)
    → policy.enabled ≡ true
    → valid_days policy ≡ some days
    → (cleanup_expired_sessions repository store policy (some now) cs readings).1 ≡ ok rep
    → (rep.scanned ≡ length cs)
      × (rep.expired ≡ length (removable now (days * milliseconds_per_day) cs))
      × (rep.expired ≡ rep.deleted_sessions + rep.failed_sessions)
      × (length rep.removed_session_ids ≡ rep.deleted_sessions)
unfolding cleanup_expired_sessions
cleanup_expired_sessions-report repository store policy now days cs readings rep enabled valid e =
    let s = (throw_if_aborted (no_sweep readings)).0 in
    let h = throw_if_aborted-Balanced 0 (no_sweep readings) (refl, refl, refl) in
    ground (arith, clean-report repository store now (days * milliseconds_per_day) cs s rep h)
