-- ===== src/Retention.antt =====
-- packages/core/src/session-retention.ts: the cleanup of Sessions past their retention. Times are
-- milliseconds since the epoch; a time that does not parse is none. The signal is the list of its
-- readings to come, false past its end. What a deletion answers may depend on those before it.
pub mod Attempts
pub mod Counts
use ctrl_zebra.Prelude.{
  ℕ, suc, ◌+◌, ◌*◌, Bool, true, false, not, ◌&&◌, ◌||◌, List, [], ◌∷◌, ◌++◌, Option, none, some,
  Result, ok, err, leb, ltb, length, if◌then◌else◌,
}
use ctrl_zebra.Numbers.{JsNumber, bounded_count}
use ctrl_zebra.Session.{SessionStatus, includes}

pub record SessionRetentionCandidate : Type 0 where
  pub session_id : ℕ
  pub status : SessionStatus
  pub updated_at : Option ℕ

abbrev pub max_session_records : ℕ
max_session_records = 10_000

abbrev pub max_session_retention_days : ℕ
max_session_retention_days = 3_650

abbrev pub milliseconds_per_day : ℕ
milliseconds_per_day = 86_400_000

abbrev pub protected_session_statuses : List SessionStatus
protected_session_statuses =
    SessionStatus.idle ∷ SessionStatus.preparing ∷ SessionStatus.streaming
    ∷ SessionStatus.awaiting_approval ∷ SessionStatus.executing_tool ∷ []

pub record SessionRetentionPolicy : Type 0 where
  pub enabled : Bool
  pub days : JsNumber

pub record SessionRetentionCleanupReport : Type 0 where
  pub scanned : ℕ
  pub expired : ℕ
  pub protected_count : ℕ
  pub deleted_sessions : ℕ
  pub deleted_checkpoints : ℕ
  pub failed_sessions : ℕ
  pub failed_checkpoints : ℕ
  pub removed_session_ids : List ℕ

pub data CleanupError : Type 0 where
  aborted invalid_policy too_many : CleanupError

-- What `repository.delete` does: it tells whether it deleted, or it throws.
pub data Deletion : Type 0 where
  answered : Bool → Deletion
  threw : Deletion

-- A deletion of checkpoints: the numbers deleted and failed, or a throw.
pub data CheckpointDeletion : Type 0 where
  reported : ℕ → ℕ → CheckpointDeletion
  threw : CheckpointDeletion

-- The method that the checkpoint store has, if there is a store: for all owners, or for one.
pub data CheckpointStore : Type 0 where
  batch : (List ℕ → CheckpointDeletion) → CheckpointStore
  single : (ℕ → CheckpointDeletion) → CheckpointStore
  without_deletion : CheckpointStore

-- The repository's `delete`, if it has one, at the identifiers it was called with so far.
abbrev pub Repository : Type 0
Repository = Option (List ℕ → ℕ → Deletion)

-- The variables of the cleanup, the calls of `delete`, newest first, and the signal.
pub record Sweep : Type 0 where
  pub expired : ℕ
  pub protected_count : ℕ
  pub deleted_sessions : ℕ
  pub failed_sessions : ℕ
  pub removed_session_ids : List ℕ
  pub checkpoint_owners : List ℕ
  pub deleted_checkpoints : ℕ
  pub failed_checkpoints : ℕ
  pub attempted : List ℕ
  pub readings : List Bool

-- A step leaves its variables, and whether `throwIfAborted` threw.
abbrev pub Step : Type 0
Step = Sweep × Bool

abbrev pub unless_aborted : Step → (Sweep → Step) → Step
unless_aborted (s, true) next = (s, true)
unless_aborted (s, false) next = next s

abbrev pub read_signal : List Bool → Sweep → Step
read_signal [] s = (s, false)
read_signal (reading ∷ later) s = (record s { readings = later }, reading)

abbrev pub throw_if_aborted : Sweep → Step
throw_if_aborted s = read_signal s.readings s

abbrev pub count_failed : Sweep → Step
count_failed s = (record s { failed_sessions = suc s.failed_sessions }, false)

abbrev pub count_deleted : ℕ → Sweep → Step
count_deleted id s = (
  record s {
    deleted_sessions = suc s.deleted_sessions;
    removed_session_ids = s.removed_session_ids ++ id ∷ [];
    checkpoint_owners = s.checkpoint_owners ++ id ∷ [];
  },
  false,
)

-- The `catch` of a deletion.
abbrev pub caught : Sweep → Step
caught s = unless_aborted (throw_if_aborted s) count_failed

abbrev pub settled : ℕ → Bool → Sweep → Step
settled id deleted s = if deleted then count_deleted id s else count_failed s

-- The check after a deletion stands in its `try`, so an abort read there goes through the `catch`.
abbrev pub settled_or_caught : ℕ → Bool → Step → Step
settled_or_caught id deleted (s, true) = caught s
settled_or_caught id deleted (s, false) = settled id deleted s

abbrev pub after_deletion : ℕ → Deletion → Sweep → Step
after_deletion id Deletion.threw s = caught s
after_deletion id (answered deleted) s = settled_or_caught id deleted (throw_if_aborted s)

unfoldable pub delete_session : Repository → ℕ → Sweep → Step
delete_session none id s = count_failed s
delete_session (some delete) id s =
    after_deletion id (delete s.attempted id) (record s { attempted = id ∷ s.attempted })

-- `updatedAt > now - days`, or no time; the difference is taken to the other side.
abbrev pub is_recent : ℕ → ℕ → Option ℕ → Bool
is_recent now age none = true
is_recent now age (some updated) = ltb now (updated + age)

unfoldable pub visit : Repository → ℕ → ℕ → SessionRetentionCandidate → Sweep → Step
unfolding delete_session
visit repository now age candidate s =
    if includes protected_session_statuses candidate.status
    then (record s { protected_count = suc s.protected_count }, false)
    else if is_recent now age candidate.updated_at
    then (s, false)
    else delete_session repository candidate.session_id (record s { expired = suc s.expired })

unfoldable pub sweep : Repository → ℕ → ℕ → List SessionRetentionCandidate → Sweep → Step
unfolding visit
sweep repository now age [] s = (s, false)
sweep repository now age (candidate ∷ candidates) s = unless_aborted (throw_if_aborted s) λ s'.
    unless_aborted (visit repository now age candidate s')
      λ s''. sweep repository now age candidates s''

abbrev pub count_checkpoints : ℕ → CheckpointDeletion → Sweep → Step
count_checkpoints owners (reported deleted failed) s = (
  record s {
    deleted_checkpoints = s.deleted_checkpoints + deleted;
    failed_checkpoints = s.failed_checkpoints + failed;
  },
  false,
)
count_checkpoints owners CheckpointDeletion.threw s =
    unless_aborted (throw_if_aborted s)
      λ s'. (record s' { failed_checkpoints = s'.failed_checkpoints + owners }, false)

unfoldable pub delete_each : (ℕ → CheckpointDeletion) → List ℕ → Sweep → Step
delete_each delete [] s = (s, false)
delete_each delete (id ∷ ids) s =
    unless_aborted (throw_if_aborted s)
      λ s'. unless_aborted (count_checkpoints 1 (delete id) s') λ s''. delete_each delete ids s''

unfoldable pub delete_checkpoints : CheckpointStore → List ℕ → Sweep → Step
unfolding delete_each
delete_checkpoints store [] s = (s, false)
delete_checkpoints (batch delete) (id ∷ ids) s =
    count_checkpoints (length (id ∷ ids)) (delete (id ∷ ids)) s
delete_checkpoints (single delete) (id ∷ ids) s = delete_each delete (id ∷ ids) s
delete_checkpoints without_deletion (id ∷ ids) s =
    (record s { failed_checkpoints = s.failed_checkpoints + length (id ∷ ids) }, false)

abbrev pub Outcome : Type 0
Outcome = Sweep × Result CleanupError SessionRetentionCleanupReport

abbrev pub or_abort : Step → (Sweep → Outcome) → Outcome
or_abort (s, true) next = (s, err aborted)
or_abort (s, false) next = next s

abbrev pub no_sweep : List Bool → Sweep
no_sweep readings = record {
  expired = 0;
  protected_count = 0;
  deleted_sessions = 0;
  failed_sessions = 0;
  removed_session_ids = [];
  checkpoint_owners = [];
  deleted_checkpoints = 0;
  failed_checkpoints = 0;
  attempted = [];
  readings = readings;
}

abbrev pub report : ℕ → Sweep → SessionRetentionCleanupReport
report scanned s = record {
  scanned = scanned;
  expired = s.expired;
  protected_count = s.protected_count;
  deleted_sessions = s.deleted_sessions;
  deleted_checkpoints = s.deleted_checkpoints;
  failed_sessions = s.failed_sessions;
  failed_checkpoints = s.failed_checkpoints;
  removed_session_ids = s.removed_session_ids;
}

-- The days of a policy that `validatePolicy` accepts.
unfoldable pub valid_days : SessionRetentionPolicy → Option ℕ
valid_days policy = elim (bounded_count max_session_retention_days policy.days) [
  | none ↦ none
  | some days ↦ if leb 1 days then some days else none
]

-- From the listed candidates on, with the age that a Session may reach in milliseconds.
unfoldable pub clean :
    Repository → CheckpointStore → ℕ → ℕ → List SessionRetentionCandidate → Sweep → Outcome
unfolding sweep delete_checkpoints
clean repository store now age candidates s = or_abort (throw_if_aborted s) λ s'.
    if ltb max_session_records (length candidates)
    then (s', err too_many)
    else or_abort (sweep repository now age candidates s') λ swept.
      or_abort (delete_checkpoints store swept.checkpoint_owners swept)
        λ done. (done, ok (report (length candidates) done))

abbrev pub clean_at :
    Repository → CheckpointStore → Option ℕ → ℕ → List SessionRetentionCandidate → Sweep → Outcome
clean_at repository store none age candidates s = (s, err invalid_policy)
clean_at repository store (some now) age candidates s = clean repository store now age candidates s

abbrev pub clean_within :
    Repository
    → CheckpointStore
    → SessionRetentionPolicy
    → Option ℕ
    → List SessionRetentionCandidate
    → Option ℕ
    → Sweep
    → Outcome
clean_within repository store policy now candidates none s = (s, err invalid_policy)
clean_within repository store policy now candidates (some days) s =
    if policy.enabled
    then clean_at repository store now (days * milliseconds_per_day) candidates s
    else (s, ok (report 0 (no_sweep [])))

unfoldable pub cleanup_expired_sessions :
    Repository
    → CheckpointStore
    → SessionRetentionPolicy
    → Option ℕ
    → List SessionRetentionCandidate
    → List Bool
    → Outcome
unfolding valid_days clean
cleanup_expired_sessions repository store policy now candidates readings =
    or_abort (throw_if_aborted (no_sweep readings))
      λ s. clean_within repository store policy now candidates (valid_days policy) s
