-- ===== src/MigrationJobs/Claims.antt =====
-- The claims of the queue: the due jobs, the fair order of the organizations, and the claim of a
-- locked job (`_claimable` to `_claim_specific_apply_job`).
use mnemex.Base.{
  ℕ, ◌+◌, min, String, Bool, true, false, not, ◌&&◌, ◌||◌, Option, none, some, List, [], ◌∷◌, map,
  ltb, leb, ◌==◌, if◌then◌else◌, is_some, Result, ok, err, guard, ◌>>=◌, ◌>>◌, validation_error,
  take,
}
use mnemex.Base.Rows
use mnemex.Base.Ordered.{before3, order_by}
use mnemex.MigrationJobs.Model.{
  Status, RunState, Job, Run, Organization, Db, ClaimedApplyJob, Authority, run_key, is_apply,
  is_running, is_pending, is_retry_wait, is_withdrawn, is_final, clear_claim,
}
use mnemex.MigrationJobs.Save.{save_job, save_run}

abbrev pub lease_ended : Option ℕ → ℕ → Bool
lease_ended none now = false
lease_ended (some l) now = leb l now

abbrev pub run_withdrawn : Option Run → Bool
run_withdrawn none = false
run_withdrawn (some r) = is_withdrawn r.state

unfoldable pub claimable : ℕ → Db → Job → Bool
claimable now db j =
    (((is_pending j.status || is_retry_wait j.status) && leb j.available_at now)
      || (is_running j.status && lease_ended j.lease_expires_at now))
    && (is_apply j.job_kind
        && (ltb j.failure_count j.max_attempts
            && not (run_withdrawn (Rows.get run_key j.run_id db.runs))))

unfoldable pub expired_exhausted : ℕ → Job → Bool
expired_exhausted now j =
    is_apply j.job_kind
    && (is_running j.status
        && (lease_ended j.lease_expires_at now && leb j.max_attempts j.failure_count))

abbrev pub or_zero : Option ℕ → ℕ
or_zero none = 0
or_zero (some t) = t

-- The annotation claim_ready_at.
unfoldable pub claim_ready_at : Job → ℕ
claim_ready_at j = if is_running j.status then or_zero j.lease_expires_at else j.available_at

unfoldable pub lease_end : Job → ℕ
lease_end j = or_zero j.lease_expires_at

-- An organization with its earliest ready time and its earliest creation.
abbrev pub OrgRank : Type 0
OrgRank = ℕ × ℕ × ℕ

unfoldable pub rank_job : (Job → ℕ) → Job → List OrgRank → List OrgRank
rank_job ready j [] = (ready j, j.created_at, j.organization_id) ∷ []
rank_job ready j ((t, c, o) ∷ ranks) =
    let rest = rank_job ready j ranks in
    if o == j.organization_id
    then (min t (ready j), min c j.created_at, o) ∷ ranks
    else (t, c, o) ∷ rest

unfoldable pub rank_all : (Job → ℕ) → List Job → List OrgRank
unfolding rank_job
rank_all ready [] = []
rank_all ready (j ∷ js) = rank_job ready j (rank_all ready js)

abbrev pub ranked_org : OrgRank → ℕ
ranked_org r = r.2

-- `GROUP BY organization_id`, ordered by the two minima and the organization, 100 at most.
unfoldable pub candidate_organization_ids : (Job → ℕ) → List Job → List ℕ
unfolding rank_all order_by
candidate_organization_ids ready js =
    take 100 (map ranked_org (order_by before3 (rank_all ready js)))

unfoldable pub failed_job : ℕ → String → String → Bool → Job → Job
unfolding clear_claim
failed_job now error_code message record_failure j = clear_claim (record j {
  failure_count =
      if record_failure && ltb j.failure_count j.max_attempts
      then j.failure_count + 1
      else j.failure_count;
  status = Status.failed;
  completed_at = some now;
  last_error_code = error_code;
  last_error_message = message;
})

unfoldable pub fail_run : Run → Db → Db
unfolding save_run
fail_run r db = if is_final r.state then db else save_run (record r { state = RunState.failed }) db

unfoldable pub terminalize_job : Run → Job → ℕ → String → String → Bool → Db → Result Db
unfolding failed_job save_job fail_run
terminalize_job r j now error_code message record_failure db = do
  db' ← save_job (failed_job now error_code message record_failure j) db
  ok (fail_run r db')

unfoldable pub is_due : Bool → ℕ → Job → Bool
is_due early now j =
    (is_pending j.status && leb j.available_at now)
    || ((is_retry_wait j.status && (early || leb j.available_at now))
        || (is_running j.status && lease_ended j.lease_expires_at now))

unfoldable pub claimed_job : String → ℕ → ℕ → String → Job → Job
claimed_job owner now lease token j = record j {
  status = Status.running;
  attempt_count = j.attempt_count + 1;
  claim_generation = j.claim_generation + 1;
  claim_token = token;
  claim_owner = owner;
  heartbeat_at = some now;
  lease_expires_at = some (now + lease);
  started_at = if is_some j.started_at then j.started_at else some now;
  completed_at = none;
  last_error_code = "";
  last_error_message = "";
}

abbrev pub is_applying : RunState → Bool
is_applying RunState.applying = true
is_applying _ = false

unfoldable pub apply_run : Run → Db → Db
unfolding save_run
apply_run r db =
    if is_applying r.state then db else save_run (record r { state = RunState.applying }) db

abbrev pub without_claim : Result Db → Result (Db × Option ClaimedApplyJob)
without_claim (ok db) = ok (db, none)
without_claim (err e) = err e

-- The job is due, authorized and not out of attempts: it is taken, if the run is still approved.
unfoldable pub take_job :
    Authority → Run → Job → String → ℕ → ℕ → String → Db → Result (Db × Option ClaimedApplyJob)
unfolding claimed_job save_job apply_run
take_job w r j owner now lease token db = do
  guard (w.is_approved r j.requested_manifest_digest) validation_error
  db' ← save_job (claimed_job owner now lease token j) db
  ok (
    apply_run r db',
    some (record {
      job_id = j.job_id;
      token = token;
      generation = j.claim_generation + 1;
      owner = owner;
    }),
  )

unfoldable pub claim_locked_job :
    Authority
    → Organization
    → Run
    → Job
    → String
    → ℕ
    → ℕ
    → Bool
    → String
    → Db
    → Result (Db × Option ClaimedApplyJob)
unfolding is_due terminalize_job take_job
claim_locked_job w o r j owner now lease early token db =
    let charged = record j { failure_count = j.failure_count + 1 } in
    if not (is_due early now j) || leb j.max_attempts j.failure_count
    then ok (db, none)
    else if is_withdrawn r.state
    then ok (db, none)
    else if not o.is_active
    then without_claim (
        terminalize_job r j now "organization_inactive" "job organization is no longer active" true
          db)
    else if not (w.may_manage j.created_by r.organization_id)
    then without_claim (
        terminalize_job r j now "authorization_denied"
          "job creator authorization is no longer valid" true db)
    else if not (is_running j.status)
    then take_job w r j owner now lease token db
    else if leb charged.max_attempts charged.failure_count
    then without_claim (
        terminalize_job r charged now "attempts_exhausted"
          "expired worker leases exhausted; operator review is required" false db)
    else take_job w r charged owner now lease token db
