-- ===== src/MigrationJobs/Model.antt =====
-- The rows of the migration queue (LegacyMigrationJob, LegacyMigrationRun and the organization of
-- mnemex/legacy_migration/models.py and mnemex/partners/models.py), and the claim of a job. Columns
-- that no operation of the queue reads or writes are left out.
use mnemex.Base.{
  ℕ, String, Bool, true, false, ◌&&◌, ◌||◌, Option, none, some, List, str_eq, ltb, ◌==◌,
  if◌then◌else◌, Result, ok, err, guard, ◌>>=◌, ◌>>◌, or_raise, validation_error, claim_lost,
  permission_denied,
}
use mnemex.Base.Rows
use mnemex.Base.Strip.{strip, is_empty, count, has_control}

pub data Kind : Type 0 where
  dry_run apply reconcile withdraw : Kind

pub data Status : Type 0 where
  pending running retry_wait completed failed cancelled : Status

pub data RunState : Type 0 where
  discovered configured dry_run_complete approved applying completed withdrawn failed : RunState

pub record Job : Type 0 where
  pub job_id : ℕ
  pub organization_id : ℕ
  pub run_id : ℕ
  pub job_kind : Kind
  pub job_sequence : ℕ
  pub requested_manifest_digest : String
  pub request_rationale : String
  pub chunk_size : ℕ
  pub status : Status
  pub attempt_count : ℕ
  pub failure_count : ℕ
  pub max_attempts : ℕ
  pub available_at : ℕ
  pub claim_token : String
  pub claim_owner : String
  pub heartbeat_at : Option ℕ
  pub lease_expires_at : Option ℕ
  pub claim_generation : ℕ
  pub next_checkpoint_sequence : ℕ
  pub last_error_code : String
  pub last_error_message : String
  pub created_by : ℕ
  pub created_at : ℕ
  pub started_at : Option ℕ
  pub completed_at : Option ℕ

pub record Run : Type 0 where
  pub run_id : ℕ
  pub organization_id : ℕ
  pub state : RunState
  pub dry_run_manifest_digest : String

pub record Organization : Type 0 where
  pub organization_id : ℕ
  pub is_active : Bool

pub record Db : Type 0 where
  pub organizations : List Organization
  pub runs : List Run
  pub jobs : List Job

pub record ClaimedApplyJob : Type 0 where
  pub job_id : ℕ
  pub token : String
  pub generation : ℕ
  pub owner : String

pub record ApplyJobOutcome : Type 0 where
  pub job_id : ℕ
  pub status : Status
  pub attempt_count : ℕ
  pub error_code : String
  pub message : String
  pub available_at : ℕ

-- What the queue asks of the authorization and of the evidence of a run: whether an account may
-- manage the results of an organization (`_authorize`), and whether the run is approved for exactly
-- this manifest (`_verified_approval`).
pub record Authority : Type 0 where
  pub may_manage : ℕ → ℕ → Bool
  pub is_approved : Run → String → Bool

abbrev pub job_key : Job → ℕ
job_key j = j.job_id

abbrev pub run_key : Run → ℕ
run_key r = r.run_id

abbrev pub organization_key : Organization → ℕ
organization_key o = o.organization_id

abbrev pub is_apply : Kind → Bool
is_apply apply = true
is_apply _ = false

abbrev pub is_running : Status → Bool
is_running running = true
is_running _ = false

abbrev pub is_pending : Status → Bool
is_pending pending = true
is_pending _ = false

abbrev pub is_retry_wait : Status → Bool
is_retry_wait retry_wait = true
is_retry_wait _ = false

-- Completed, failed or cancelled.
abbrev pub is_terminal : Status → Bool
is_terminal Status.completed = true
is_terminal Status.failed = true
is_terminal cancelled = true
is_terminal _ = false

abbrev pub is_withdrawn : RunState → Bool
is_withdrawn withdrawn = true
is_withdrawn _ = false

-- The states that a failing job leaves alone.
abbrev pub is_final : RunState → Bool
is_final RunState.completed = true
is_final withdrawn = true
is_final _ = false

-- `_plain_string(owner, maximum=120)` and the test for control characters.
unfoldable pub checked_owner : String → Result String
checked_owner owner =
    let normalized = strip owner in
    if is_empty normalized || ltb 120 (count normalized) || has_control normalized
    then err validation_error
    else ok normalized

unfoldable pub outcome : Job → ApplyJobOutcome
outcome j = record {
  job_id = j.job_id;
  status = j.status;
  attempt_count = j.attempt_count;
  error_code = j.last_error_code;
  message = j.last_error_message;
  available_at = j.available_at;
}

unfoldable pub clear_claim : Job → Job
clear_claim j = record j {
  claim_token = "";
  claim_owner = "";
  heartbeat_at = none;
  lease_expires_at = none;
}

-- The rows of a job's coordinates, locked in the order organization, run, job.
unfoldable pub lock_job : ℕ → Db → Result (Organization × Run × Job)
lock_job k db = do
  j ← or_raise (Rows.get job_key k db.jobs) claim_lost
  o ← or_raise (Rows.get organization_key j.organization_id db.organizations) claim_lost
  r ← or_raise (Rows.get run_key j.run_id db.runs) claim_lost
  guard (r.organization_id == j.organization_id) claim_lost
  ok (o, r, j)

abbrev pub lease_after : Option ℕ → ℕ → Bool
lease_after none now = false
lease_after (some l) now = ltb now l

-- The claim is the row's own, and its lease has not ended.
unfoldable pub assert_claim : Job → ClaimedApplyJob → ℕ → Result (Unit {0})
assert_claim j c now = do
  guard (is_apply j.job_kind) claim_lost
  guard
      (is_running j.status
        && (str_eq j.claim_token c.token
            && (j.claim_generation == c.generation && str_eq j.claim_owner c.owner)))
      claim_lost
  guard (lease_after j.lease_expires_at now) claim_lost

-- `_authorize`
unfoldable pub authorize : Authority → ℕ → Run → Result (Unit {0})
authorize w actor r = guard (w.may_manage actor r.organization_id) permission_denied
