-- ===== src/Retention/Attempts.antt =====
-- packages/core/src/session-retention.ts: which Sessions the cleanup tries to delete.
use ctrl_zebra.Prelude.{
  ℕ, ◌*◌, ◌≡◌, refl, subst, ◌⊎◌, inl, inr, arith, Bool, true, false, not, ◌&&◌, List, [], ◌∷◌, some,
  is_ok, if◌then◌else◌,
}
use ctrl_zebra.Session.{includes}
use ctrl_zebra.Retention.{
  SessionRetentionCandidate, protected_session_statuses, Deletion, CheckpointStore, Sweep, Step,
  no_sweep, throw_if_aborted, unless_aborted, delete_session, is_recent, visit, sweep,
  delete_checkpoints, delete_each, clean, cleanup_expired_sessions, valid_days, count_checkpoints,
  milliseconds_per_day, SessionRetentionPolicy, CheckpointDeletion, batch, single, without_deletion,
}

-- The candidates that may go: not in a protected status, and not updated within the age.
unfoldable pub is_removable : ℕ → ℕ → SessionRetentionCandidate → Bool
is_removable now age c =
    not (includes protected_session_statuses c.status) && not (is_recent now age c.updated_at)

unfoldable pub removable : ℕ → ℕ → List SessionRetentionCandidate → List ℕ
unfolding is_removable
removable now age [] = []
removable now age (c ∷ cs) =
    let rest = removable now age cs in if is_removable now age c then c.session_id ∷ rest else rest

-- The calls of `delete`, newest first, before and after: one for each identifier, in order, and an
-- early end only where the cleanup was `stopped`.
abbrev pub Attempts : List ℕ → Bool → List ℕ → List ℕ → Type 0
Attempts [] stopped before after = after ≡ before
Attempts (id ∷ ids) stopped before after =
    ((stopped ≡ true) × (after ≡ before)) ⊎ Attempts ids stopped (id ∷ before) after

Attempts-stopped :
    (ids : List ℕ) (b : Bool) (before after : List ℕ)
    → Attempts ids b before after
    → Attempts ids true before after
Attempts-stopped [] b before after h = h
Attempts-stopped (id ∷ ids) b before after h =
    ground (arith, Attempts-stopped ids b (id ∷ before) after)

Attempts-none : (ids : List ℕ) (before : List ℕ) → Attempts ids true before before
Attempts-none [] before = refl
Attempts-none (id ∷ ids) before = inl (refl, refl)

visit-attempted :
    (delete : List ℕ → ℕ → Deletion) (now age : ℕ) (c : SessionRetentionCandidate) (s : Sweep)
    → (visit (some delete) now age c s).0.attempted
      ≡ (if is_removable now age c then c.session_id ∷ s.attempted else s.attempted)
unfolding visit delete_session is_removable
visit-attempted delete now age c s = ground arith

throw_if_aborted-attempted : (s : Sweep) → (throw_if_aborted s).0.attempted ≡ s.attempted
throw_if_aborted-attempted s = ground arith

after_step :
    (ids : List ℕ) (v : Step) (next : Sweep → Step) (before : List ℕ)
    → v.0.attempted ≡ before
    → ((s : Sweep) → Attempts ids (next s).1 s.attempted (next s).0.attempted)
    → Attempts ids (unless_aborted v next).1 before (unless_aborted v next).0.attempted
after_step ids (s, true) next before e rest =
    subst (λ x. Attempts ids true x s.attempted) e (Attempts-none ids s.attempted)
after_step ids (s, false) next before e rest =
    subst (λ x. Attempts ids (next s).1 x (next s).0.attempted) e (rest s)

Attempts-if :
    (b : Bool) (id : ℕ) (ids : List ℕ) (stopped : Bool) (before after : List ℕ)
    → Attempts ids stopped (if b then id ∷ before else before) after
    → Attempts (if b then id ∷ ids else ids) stopped before after
Attempts-if true id ids stopped before after h = inr h
Attempts-if false id ids stopped before after h = h

sweep-Attempts :
    (delete : List ℕ → ℕ → Deletion) (now age : ℕ) (cs : List SessionRetentionCandidate) (s : Sweep)
    → let r = sweep (some delete) now age cs s in
      Attempts (removable now age cs) r.1 s.attempted r.0.attempted
unfolding sweep removable
sweep-Attempts delete now age [] s = refl
sweep-Attempts delete now age (c ∷ cs) s =
    after_step (removable now age (c ∷ cs)) (throw_if_aborted s) _ s.attempted
      (throw_if_aborted-attempted s)
      λ s'.
        Attempts-if (is_removable now age c) c.session_id (removable now age cs) _ s'.attempted _ (
          after_step (removable now age cs) (visit (some delete) now age c s') _ _
            (visit-attempted delete now age c s') (sweep-Attempts delete now age cs))

-- What the deletion of checkpoints leaves as it was.
abbrev pub SameSessions : Sweep → Sweep → Type 0
SameSessions s t =
    (t.attempted ≡ s.attempted)
    × (t.expired ≡ s.expired)
    × (t.deleted_sessions ≡ s.deleted_sessions)
    × (t.failed_sessions ≡ s.failed_sessions)
    × (t.removed_session_ids ≡ s.removed_session_ids)

delete_each-SameSessions :
    (delete : ℕ → CheckpointDeletion) (ids : List ℕ) (s : Sweep)
    → SameSessions s (delete_each delete ids s).0
unfolding delete_each
delete_each-SameSessions delete [] s = (refl, refl, refl, refl, refl)
delete_each-SameSessions delete (id ∷ ids) s =
    let s' = (throw_if_aborted s).0 in
    ground (arith, delete_each-SameSessions delete ids (count_checkpoints 1 (delete id) s').0)

pub delete_checkpoints-SameSessions :
    (store : CheckpointStore) (ids : List ℕ) (s : Sweep)
    → SameSessions s (delete_checkpoints store ids s).0
unfolding delete_checkpoints
delete_checkpoints-SameSessions store [] s = (refl, refl, refl, refl, refl)
delete_checkpoints-SameSessions (single delete) (id ∷ ids) s =
    delete_each-SameSessions delete (id ∷ ids) s
delete_checkpoints-SameSessions without_deletion (id ∷ ids) s = (refl, refl, refl, refl, refl)
delete_checkpoints-SameSessions (batch delete) (id ∷ ids) s = ground arith

clean-Attempts :
    (delete : List ℕ → ℕ → Deletion) (store : CheckpointStore) (now age : ℕ)
    (cs : List SessionRetentionCandidate) (s : Sweep)
    → let r = clean (some delete) store now age cs s in
      Attempts (removable now age cs) (not (is_ok r.1)) s.attempted r.0.attempted
unfolding clean
clean-Attempts delete store now age cs s =
    let s' = (throw_if_aborted s).0 in
    let swept = (sweep (some delete) now age cs s').0 in
    ground (
      arith,
      throw_if_aborted-attempted s,
      sweep-Attempts delete now age cs s',
      delete_checkpoints-SameSessions store swept.checkpoint_owners swept,
      Attempts-none (removable now age cs) s.attempted,
      Attempts-stopped (removable now age cs) false s.attempted swept.attempted,
    )

-- An enabled cleanup with a valid policy, at a repository that can delete, calls `delete` for the
-- Sessions that are removable at its time, for each candidate once and in their order, and for no
-- other; it stops before the last of them only where it returns an error.
pub cleanup_expired_sessions-Attempts :
    (delete : List ℕ → ℕ → Deletion) (store : CheckpointStore) (policy : SessionRetentionPolicy)
    (now days : ℕ) (cs : List SessionRetentionCandidate) (readings : List Bool)
    → policy.enabled ≡ true
    → valid_days policy ≡ some days
    → let r = cleanup_expired_sessions (some delete) store policy (some now) cs readings in
      Attempts (removable now (days * milliseconds_per_day) cs) (not (is_ok r.1)) [] r.0.attempted
unfolding cleanup_expired_sessions
cleanup_expired_sessions-Attempts delete store policy now days cs readings enabled valid =
    let s = (throw_if_aborted (no_sweep readings)).0 in
    ground (
      arith,
      throw_if_aborted-attempted (no_sweep readings),
      clean-Attempts delete store now (days * milliseconds_per_day) cs s,
      Attempts-none (removable now (days * milliseconds_per_day) cs) [],
    )
