-- ===== src/MigrationJobs/Takeover.antt =====
-- The claim of a locked job that is due and authorized: it is taken, an expired lease is charged with
-- a failure, and the last failure that is allowed ends the job instead.
use mnemex.Base.{
  ℕ, ◌+◌, ◌≤◌, ◌<◌, String, ◌≡◌, Bool, true, false, none, some, arith, str_eq, leb, ok, sym, subst,
  Bool-cases, inl, inr, if◌then◌else◌,
}
use mnemex.Base.Rows
use mnemex.Base.Rows.{get-save_self}
use mnemex.Base.Strip.{is_empty}
use mnemex.MigrationJobs.Model.{
  Job, Run, RunState, Status, Organization, Db, ClaimedApplyJob, Authority, job_key, run_key,
  is_final, clear_claim, is_running, is_terminal, is_withdrawn,
}
use mnemex.MigrationJobs.Claims.{
  claimed_job, failed_job, is_due, apply_run, fail_run, terminalize_job, take_job, claim_locked_job,
}
use mnemex.MigrationJobs.Save.{save_run}
use mnemex.MigrationJobs.Advance.{jobs-fail_run}
use mnemex.MigrationJobs.Legal.{IsValid, charged, charged_claimed-Passes, charged_failed-Passes}
use mnemex.MigrationJobs.Outcomes.{written, save_job-Passes}

-- What a claim needs of the locked rows: the job is the stored one, valid and due, the run is not
-- withdrawn and approved for the job's manifest, the organization active, the creator authorized.
pub record MayClaim (w : Authority) (o : Organization) (r : Run) (j : Job) (early : Bool) (now : ℕ)
    (db : Db) : Type 0 where
  pub stored : Rows.get job_key j.job_id db.jobs ≡ some j
  pub valid : IsValid j
  pub due : is_due early now j ≡ true
  pub not_withdrawn : is_withdrawn r.state ≡ false
  pub active : o.is_active ≡ true
  pub authorized : w.may_manage j.created_by r.organization_id ≡ true
  pub approved : w.is_approved r j.requested_manifest_digest ≡ true

-- The owner is not empty, the token not either and not the one that the row carries.
pub record IsFresh (owner token : String) (j : Job) : Type 0 where
  pub owner_given : is_empty owner ≡ false
  pub token_given : is_empty token ≡ false
  pub token_new : str_eq token j.claim_token ≡ false

abbrev pub claim_on : Job → String → String → ClaimedApplyJob
claim_on j owner token = record {
  job_id = j.job_id;
  token = token;
  generation = j.claim_generation + 1;
  owner = owner;
}

due_live :
    (early : Bool) (now : ℕ) (j : Job) → is_due early now j ≡ true → is_terminal j.status ≡ false
unfolding is_due
due_live early now j h = ground arith

runs-fail_run :
    (r : Run) (db : Db)
    → Rows.get run_key r.run_id db.runs ≡ some r
    → Rows.get run_key r.run_id (fail_run r db).runs
      ≡ some (if is_final r.state then r else record r { state = RunState.failed })
unfolding fail_run save_run
runs-fail_run r db found = elim (Bool-cases (is_final r.state)) [
  | inl e ↦ rw e found
  | inr e ↦ rw e (get-save_self run_key (record r { state = RunState.failed }) r db.runs found)
]

module _ (w : Authority) (o : Organization) (r : Run) (j : Job) (owner token : String)
    (now lease : ℕ) (early : Bool) (db : Db) (may : MayClaim w o r j early now db) where
  attempts_open : leb j.max_attempts j.failure_count ≡ false
  attempts_open = let left = may.valid.attempts_left (due_live early now j may.due) in ground arith

  -- A running job that `MayClaim` allows, so that its lease ended, is taken over by an owner and a
  -- fresh token that are not empty, if one more failure stays below its limit: the claim succeeds,
  -- and the claimed row is charged with that failure.
  pub claim_locked_job-takeover :
      IsFresh owner token j
      → 0 < lease
      → is_running j.status ≡ true
      → j.failure_count + 1 < j.max_attempts
      → claim_locked_job w o r j owner now lease early token db
        ≡ ok (
          apply_run r (written (claimed_job owner now lease token (charged j)) db),
          some (claim_on j owner token),
        )
  unfolding claim_locked_job take_job claimed_job
  claim_locked_job-takeover fresh pos runs left =
      let saved = save_job-Passes (claimed_job owner now lease token (charged j)) j db may.stored (
        charged_claimed-Passes now j owner lease token may.valid runs fresh.owner_given
          fresh.token_given fresh.token_new pos) in
      let more : leb j.max_attempts (j.failure_count + 1) ≡ false = ground arith in
      rw (
        may.due, attempts_open, may.not_withdrawn, may.active, may.authorized, runs, more,
        may.approved, saved,
      )

  -- A running job that `MayClaim` allows, so that its lease ended, of a stored run, and whose limit one
  -- more failure reaches, is not given out. The stored job has failed with that failure charged, is
  -- completed now, has no claim and says why, and is otherwise as it was; the stored run has failed,
  -- unless it had completed.
  pub claim_locked_job-exhausted :
      Rows.get run_key r.run_id db.runs ≡ some r
      → is_running j.status ≡ true
      → j.max_attempts ≤ j.failure_count + 1
      → (db' : Db) × (claim_locked_job w o r j owner now lease early token db ≡ ok (db', none))
        × (Rows.get job_key j.job_id db'.jobs
            ≡ some (record j {
              status = Status.failed;
              failure_count = j.failure_count + 1;
              claim_token = "";
              claim_owner = "";
              heartbeat_at = none;
              lease_expires_at = none;
              completed_at = some now;
              last_error_code = "attempts_exhausted";
              last_error_message = "expired worker leases exhausted; operator review is required";
            }))
        × (Rows.get run_key r.run_id db'.runs
            ≡ some (if is_final r.state then r else record r { state = RunState.failed }))
  unfolding claim_locked_job terminalize_job failed_job clear_claim
  claim_locked_job-exhausted stored_run runs last =
      let code : String = "attempts_exhausted" in
      let message : String = "expired worker leases exhausted; operator review is required" in
      let j' = failed_job now code message false (charged j) in
      let saved =
        save_job-Passes j' j db may.stored
          (charged_failed-Passes now j code message may.valid runs) in
      let more : leb j.max_attempts (j.failure_count + 1) ≡ true = ground arith in
      (
        fail_run r (written j' db),
        rw (
          may.due, attempts_open, may.not_withdrawn, may.active, may.authorized, runs, more, saved,
        ),
        subst (λ l. Rows.get job_key j.job_id l ≡ some j') (sym (jobs-fail_run r (written j' db)))
            (get-save_self job_key j' j db.jobs may.stored),
        runs-fail_run r (written j' db) stored_run,
      )
