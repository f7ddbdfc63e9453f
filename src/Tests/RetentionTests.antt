-- ===== src/Tests/RetentionTests.antt =====
-- The retention cleanup at two Sessions, one streaming and one long completed.
use ctrl_zebra.Prelude.{
  ℕ, ◌+◌, ◌*◌, ◌≡◌, refl, true, false, not, is_ok, List, [], ◌∷◌, some, length, ok,
}
use ctrl_zebra.Numbers.{JsNumber, bounded_count}
use ctrl_zebra.Session.{SessionStatus}
use ctrl_zebra.Retention.{
  SessionRetentionCandidate, SessionRetentionPolicy, SessionRetentionCleanupReport, Deletion,
  answered, reported, CheckpointStore, batch, cleanup_expired_sessions, valid_days, clean, sweep,
  visit, delete_session, delete_checkpoints, milliseconds_per_day,
}
use ctrl_zebra.Retention.Attempts.{Attempts, removable, cleanup_expired_sessions-Attempts}
use ctrl_zebra.Retention.Counts.{cleanup_expired_sessions-report}

abbrev old_candidates : List SessionRetentionCandidate
old_candidates =
    record { session_id = 1; status = SessionStatus.streaming; updated_at = some 5 }
    ∷ record { session_id = 2; status = SessionStatus.completed; updated_at = some 5 }
    ∷ []

abbrev daily_policy : SessionRetentionPolicy
daily_policy = record { enabled = true; days = JsNumber.nonneg 1 }

daily-valid_days : valid_days daily_policy ≡ some 1
unfolding valid_days bounded_count
daily-valid_days = refl

abbrev deleting : List ℕ → ℕ → Deletion
deleting before id = answered true

abbrev three_checkpoints : CheckpointStore
three_checkpoints = batch (λ ids. reported 3 0)

cleanup_expired_sessions-Attempts_example :
    let r =
      cleanup_expired_sessions
        (some deleting)
        three_checkpoints
        daily_policy
        (some 90_000_000)
        old_candidates
        (false ∷ []) in
    Attempts
      (removable 90_000_000 (1 * milliseconds_per_day) old_candidates)
      (not (is_ok r.1))
      []
      r.0.attempted
cleanup_expired_sessions-Attempts_example =
    cleanup_expired_sessions-Attempts deleting three_checkpoints daily_policy 90_000_000 1
      old_candidates (false ∷ []) refl daily-valid_days

abbrev old_report : SessionRetentionCleanupReport
old_report = record {
  scanned = 2;
  expired = 1;
  protected_count = 1;
  deleted_sessions = 1;
  deleted_checkpoints = 3;
  failed_sessions = 0;
  failed_checkpoints = 0;
  removed_session_ids = 2 ∷ [];
}

old-report :
    (cleanup_expired_sessions
      (some deleting)
      three_checkpoints
      daily_policy
      (some 90_000_000)
      old_candidates
      (false ∷ [])).1
    ≡ ok old_report
unfolding cleanup_expired_sessions valid_days bounded_count clean sweep visit delete_session
    delete_checkpoints
old-report = refl

cleanup_expired_sessions-report_example :
    (old_report.scanned ≡ length old_candidates)
    × (old_report.expired ≡ length (removable 90_000_000 (1 * milliseconds_per_day) old_candidates))
    × (old_report.expired ≡ old_report.deleted_sessions + old_report.failed_sessions)
    × (length old_report.removed_session_ids ≡ old_report.deleted_sessions)
cleanup_expired_sessions-report_example =
    cleanup_expired_sessions-report (some deleting) three_checkpoints daily_policy 90_000_000 1
      old_candidates (false ∷ []) old_report refl daily-valid_days old-report
