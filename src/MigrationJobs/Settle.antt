-- ===== src/MigrationJobs/Settle.antt =====
-- The operations on a claimed job: heartbeat, the read of the private workbook, the settlement of a
-- failure, and the cancellation by an operator.
use mnemex.Base.{
  ℕ, ◌+◌, max, String, Bool, true, false, not, ◌||◌, Option, none, some, leb, if◌then◌else◌, Result,
  ok, err, ◌>>=◌, ◌>>◌, Error, validation_error, permission_denied, claim_lost, operational_error,
  os_error,
}
use mnemex.Base.Moment.{Moment, Timedelta, checked_now, checked_lease, retry_delay}
use mnemex.MigrationJobs.Model.{
  Status, Job, Run, Db, ClaimedApplyJob, ApplyJobOutcome, Authority, is_terminal, clear_claim,
  outcome, lock_job, assert_claim, authorize,
}
use mnemex.MigrationJobs.Save.{save_job}
use mnemex.MigrationJobs.Claims.{terminalize_job, fail_run}

abbrev later : Option ℕ → ℕ → ℕ
later none b = b
later (some a) b = max a b

unfoldable pub beaten_job : ℕ → ℕ → Job → Job
beaten_job now lease j = record j {
  heartbeat_at = some (later j.heartbeat_at now);
  lease_expires_at = some (later j.lease_expires_at (now + lease));
}

unfoldable pub heartbeat_apply_job :
    ClaimedApplyJob → Moment → Timedelta → Db → Result (Db × ApplyJobOutcome)
unfolding lock_job assert_claim beaten_job save_job
heartbeat_apply_job c now lease_duration db = do
  at ← checked_now now
  lease ← checked_lease lease_duration
  rows ← lock_job c.job_id db
  assert_claim rows.2 c at
  db' ← save_job (beaten_job at lease rows.2) db
  ok (db', outcome (beaten_job at lease rows.2))

abbrev pub denied : {B : Type 0} → Result Db → Result (Db × Result B)
denied (ok db) = ok (db, err claim_lost)
denied (err e) = err e

-- The transaction commits the end of a job whose organization or creator lost its authority, and the
-- denial is raised after it: the outer result is the transaction's, the inner one the caller's.
unfoldable pub authorize_apply_job_source_read :
    {B : Type 0}
    → Authority
    → ClaimedApplyJob
    → (Run → Result B)
    → Moment
    → Db
    → Result (Db × Result B)
unfolding lock_job assert_claim terminalize_job
authorize_apply_job_source_read w c read_source now db = do
  at ← checked_now now
  rows ← lock_job c.job_id db
  assert_claim rows.2 c at
  if not rows.0.is_active
      then denied (
          terminalize_job rows.1 rows.2 at "organization_inactive"
            "job organization is no longer active" true db)
      else if not (w.may_manage rows.2.created_by rows.1.organization_id)
      then denied (
          terminalize_job rows.1 rows.2 at "authorization_denied"
            "job creator authorization is no longer valid" true db)
      else (do content ← read_source rows.1; ok (db, ok content))

-- `_failure_details`: code, message, and whether the failure ends the job. `ApplyClaimLost` is a
-- `PermissionDenied`.
unfoldable pub failure_details : Error → String × String × Bool
failure_details permission_denied =
    ("authorization_denied", "job authorization is no longer valid", true)
failure_details claim_lost = ("authorization_denied", "job authorization is no longer valid", true)
failure_details validation_error =
    ("provenance_validation_failed", "job provenance validation failed", true)
failure_details operational_error =
    ("database_unavailable", "temporary worker failure; retry is scheduled", false)
failure_details os_error =
    ("storage_unavailable", "temporary worker failure; retry is scheduled", false)
failure_details _ = ("worker_error", "temporary worker failure; retry is scheduled", false)

-- What a worker settles: a stop between chunks, or an exception.
pub data Failure : Type 0 where
  graceful_stop : Failure
  raised : Error → Failure

abbrev pub is_graceful : Failure → Bool
is_graceful graceful_stop = true
is_graceful (raised _) = false

-- A graceful stop is an exception of no special class, and its own code and message replace those.
unfoldable pub details : Failure → String × String × Bool
unfolding failure_details
details graceful_stop =
    ("graceful_shutdown", "worker stopped safely between chunks; retry is ready", false)
details (raised e) = failure_details e

unfoldable pub charged_for : Failure → Job → Job
charged_for graceful_stop j = j
charged_for (raised _) j = record j { failure_count = j.failure_count + 1 }

unfoldable pub ended_job : ℕ → String → String → Job → Job
unfolding clear_claim
ended_job now error_code message j = clear_claim (record j {
  status = Status.failed;
  completed_at = some now;
  last_error_code = error_code;
  last_error_message = message;
})

unfoldable pub retried_job : ℕ → ℕ → String → String → Job → Job
unfolding clear_claim
retried_job now delay error_code message j = clear_claim (record j {
  status = Status.retry_wait;
  available_at = now + delay;
  completed_at = none;
  last_error_code = error_code;
  last_error_message = message;
})

-- The failure ends the job: it is terminal, or it was the last that is allowed.
unfoldable pub ends_job : Failure → Job → Bool
unfolding details charged_for
ends_job failure j =
    (details failure).2
    || leb (charged_for failure j).max_attempts (charged_for failure j).failure_count

unfoldable pub settled_job : Failure → ℕ → Bool → Job → Job
unfolding ends_job ended_job retried_job
settled_job failure now immediate_retry j =
    let (error_code, message, terminal) = details failure in
    let failed = charged_for failure j in
    if ends_job failure j
    then ended_job now error_code message failed
    else retried_job now (retry_delay (immediate_retry || is_graceful failure) failed.failure_count)
        error_code message failed

unfoldable pub settle_apply_job_failure :
    ClaimedApplyJob → Failure → Moment → Bool → Db → Result (Db × ApplyJobOutcome)
unfolding lock_job assert_claim settled_job save_job fail_run
settle_apply_job_failure c failure now immediate_retry db = do
  at ← checked_now now
  rows ← lock_job c.job_id db
  assert_claim rows.2 c at
  let j = settled_job failure at immediate_retry rows.2
  db' ← save_job j (if ends_job failure rows.2 then fail_run rows.1 db else db)
  ok (db', outcome j)

unfoldable pub cancelled_job : ℕ → Job → Job
unfolding clear_claim
cancelled_job now j = clear_claim (record j {
  status = Status.cancelled;
  completed_at = some now;
  last_error_code = "operator_cancelled";
  last_error_message = "job was cancelled by an authorized operator";
})

unfoldable pub cancel_apply_job : Authority → ℕ → ℕ → Moment → Db → Result (Db × ApplyJobOutcome)
unfolding lock_job authorize cancelled_job save_job
cancel_apply_job w actor job_id now db = do
  at ← checked_now now
  rows ← lock_job job_id db
  authorize w actor rows.1
  if is_terminal rows.2.status then ok (db, outcome rows.2) else (do
    db' ← save_job (cancelled_job at rows.2) db
    ok (db', outcome (cancelled_job at rows.2)))
