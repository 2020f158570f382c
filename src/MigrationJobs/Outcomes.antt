-- ===== src/MigrationJobs/Outcomes.antt =====
-- A worker with a claim in force is never refused: the results of its heartbeats and settlements, and
-- of an operator's cancellation.
use mnemex.Base.{
  ℕ, ◌+◌, ◌<◌, ◌≡◌, refl, subst, Bool, true, false, some, arith, sym, ok, if◌then◌else◌,
}
use mnemex.Base.Moment.{
  aware, Timedelta, checked_now, checked_lease, checked_lease_range, retry_delay,
}
use mnemex.Base.Rows
use mnemex.Base.Rows.{key-get}
use mnemex.MigrationJobs.Model.{
  Status, Job, Run, Organization, Db, ClaimedApplyJob, Authority, job_key, is_terminal, is_running,
  lock_job, assert_claim, authorize, outcome,
}
use mnemex.MigrationJobs.Save.{save_job}
use mnemex.MigrationJobs.Claims.{fail_run}
use mnemex.MigrationJobs.Settle.{
  Failure, graceful_stop, raised, beaten_job, heartbeat_apply_job, charged_for, details, ended_job,
  retried_job, settled_job, ends_job, settle_apply_job_failure, cancelled_job, cancel_apply_job,
}
use mnemex.MigrationJobs.Advance.{jobs-fail_run}
use mnemex.MigrationJobs.Legal.{IsValid, Passes, beaten-Passes, cancelled-Passes, settled-Passes}
use mnemex.MigrationJobs.Finality.{lock_job-eq-ok, assert_claim-eq-ok}

-- The database with a job's row replaced.
abbrev pub written : Job → Db → Db
written j db = record db { jobs = Rows.save job_key j db.jobs }

pub save_job-Passes :
    (j old : Job) (db : Db)
    → Rows.get job_key j.job_id db.jobs ≡ some old
    → Passes old j
    → save_job j db ≡ ok (written j db)
unfolding save_job
save_job-Passes j old db found p = rw (p.0, found, p.1)

locked_key :
    (k : ℕ) (db : Db) (rows : Organization × Run × Job)
    → lock_job k db ≡ ok rows
    → Rows.get job_key rows.2.job_id db.jobs ≡ some rows.2
locked_key k db rows h =
    let found = lock_job-eq-ok k db rows h in
    subst (λ i. Rows.get job_key i db.jobs ≡ some rows.2)
      (sym (key-get job_key k db.jobs rows.2 found)) found

-- A claim in force on a valid job: what a worker holds between its claim and the end of its lease.
pub record Held (c : ClaimedApplyJob) (at : ℕ) (db : Db) : Type 0 where
  pub rows : Organization × Run × Job
  pub locked : lock_job c.job_id db ≡ ok rows
  pub accepted : assert_claim rows.2 c at ≡ ok tt
  pub valid : IsValid rows.2

held_running :
    (c : ClaimedApplyJob) (at : ℕ) (db : Db) (h : Held c at db) → is_running h.rows.2.status ≡ true
held_running c at db h = (assert_claim-eq-ok h.rows.2 c at tt h.accepted).0

beaten-IsValid :
    (at lease : ℕ) (j : Job)
    → IsValid j
    → is_running j.status ≡ true
    → 0 < lease
    → IsValid (beaten_job at lease j)
unfolding beaten_job
beaten-IsValid at lease j v r pos = record {
  clean = (beaten-Passes at j lease v r pos).0;
  attempts_left = v.attempts_left;
}

beaten_accepted :
    (c : ClaimedApplyJob) (at lease t : ℕ) (j : Job)
    → assert_claim j c at ≡ ok tt
    → t < at + lease
    → assert_claim (beaten_job at lease j) c t ≡ ok tt
unfolding assert_claim beaten_job
beaten_accepted c at lease t j h lt = ground arith

-- A heartbeat of a claim in force on a valid job, with an accepted lease, always succeeds; the row it
-- writes is valid, and the claim is accepted at every time before the end of the new lease.
pub heartbeat_apply_renews :
    (c : ClaimedApplyJob) (at l t : ℕ) (d : Timedelta) (db : Db) (h : Held c at db)
    → checked_lease d ≡ ok l
    → t < at + l
    → (heartbeat_apply_job c (aware at) d db
        ≡ ok (written (beaten_job at l h.rows.2) db, outcome (beaten_job at l h.rows.2)))
      × IsValid (beaten_job at l h.rows.2)
      × (assert_claim (beaten_job at l h.rows.2) c t ≡ ok tt)
unfolding heartbeat_apply_job beaten_job checked_now
heartbeat_apply_renews c at l t d db h e lt =
    let r = held_running c at db h in
    let pos : 0 < l = (let range = checked_lease_range d e in omega arith) in
    let saved =
      save_job-Passes (beaten_job at l h.rows.2) h.rows.2 db
        (locked_key c.job_id db h.rows h.locked) (beaten-Passes at h.rows.2 l h.valid r pos) in
    (
      rw (e, h.locked, h.accepted, saved),
      beaten-IsValid at l h.rows.2 h.valid r pos,
      beaten_accepted c at l t h.rows.2 h.accepted lt,
    )

settled_left :
    (failure : Failure) (at : ℕ) (soon : Bool) (j : Job)
    → IsValid j
    → is_running j.status ≡ true
    → is_terminal (settled_job failure at soon j).status ≡ false
    → (settled_job failure at soon j).failure_count < (settled_job failure at soon j).max_attempts
unfolding settled_job ends_job charged_for ended_job retried_job
settled_left graceful_stop at soon j v r t = ground arith
settled_left (raised e) at soon j v r t = ground arith

settled_stopped :
    (failure : Failure) (at : ℕ) (soon : Bool) (j : Job)
    → is_running (settled_job failure at soon j).status ≡ false
unfolding settled_job ended_job retried_job
settled_stopped graceful_stop at soon j = ground arith
settled_stopped (raised e) at soon j = ground arith

same_found :
    (b : Bool) (r : Run) (k : ℕ) (j : Job) (db : Db)
    → Rows.get job_key k db.jobs ≡ some j
    → Rows.get job_key k (if b then fail_run r db else db).jobs ≡ some j
same_found true r k j db h = subst (λ l. Rows.get job_key k l ≡ some j) (sym (jobs-fail_run r db)) h
same_found false r k j db h = h

settled_id :
    (failure : Failure) (at : ℕ) (soon : Bool) (j : Job)
    → (settled_job failure at soon j).job_id ≡ j.job_id
unfolding settled_job charged_for ended_job retried_job
settled_id graceful_stop at soon j = ground arith
settled_id (raised e) at soon j = ground arith

-- The settlement of a failure under a claim in force on a valid job always succeeds. It writes the
-- settled job, which is valid and no longer runs, and a run that the failure ends is failed with it.
pub settle_apply_job_failure-Held :
    (c : ClaimedApplyJob) (failure : Failure) (at : ℕ) (soon : Bool) (db : Db) (h : Held c at db)
    → (settle_apply_job_failure c failure (aware at) soon db
        ≡ ok (
          written
              (settled_job failure at soon h.rows.2)
              (if ends_job failure h.rows.2 then fail_run h.rows.1 db else db),
          outcome (settled_job failure at soon h.rows.2),
        ))
      × IsValid (settled_job failure at soon h.rows.2)
      × (is_running (settled_job failure at soon h.rows.2).status ≡ false)
unfolding settle_apply_job_failure checked_now
settle_apply_job_failure-Held c failure at soon db h =
    let j = h.rows.2 in
    let r = held_running c at db h in
    let passes = settled-Passes failure at soon j h.valid r in
    let mid : Db = if ends_job failure j then fail_run h.rows.1 db else db in
    let found : Rows.get job_key (settled_job failure at soon j).job_id mid.jobs ≡ some j =
      subst (λ i. Rows.get job_key i mid.jobs ≡ some j) (sym (settled_id failure at soon j))
        (same_found (ends_job failure j) h.rows.1 j.job_id j db
          (locked_key c.job_id db h.rows h.locked)) in
    (
      rw (h.locked, h.accepted, save_job-Passes (settled_job failure at soon j) j mid found passes),
      record { clean = passes.0; attempts_left = settled_left failure at soon j h.valid r },
      settled_stopped failure at soon j,
    )

-- A graceful stop of a valid running job charges no failure and never ends the job: it waits to be
-- retried, at once.
pub graceful_stop_is_free :
    (at : ℕ) (soon : Bool) (j : Job)
    → IsValid j
    → is_running j.status ≡ true
    → ((settled_job graceful_stop at soon j).status ≡ Status.retry_wait)
      × ((settled_job graceful_stop at soon j).failure_count ≡ j.failure_count)
      × ((settled_job graceful_stop at soon j).available_at ≡ at)
unfolding settled_job ends_job charged_for details ended_job retried_job retry_delay
graceful_stop_is_free at soon j v r = ground arith

cancelled-IsValid :
    (at : ℕ) (j : Job) → IsValid j → is_terminal j.status ≡ false → IsValid (cancelled_job at j)
unfolding cancelled_job
cancelled-IsValid at j v live = record {
  clean = (cancelled-Passes at j v live).0;
  attempts_left = λ t. cc;
}

-- The cancellation by an account that may manage the run's organization always succeeds on a valid
-- job that has not ended: it writes the cancelled job, which is valid and has ended.
pub cancel_apply_job-live :
    (w : Authority) (actor job_id at : ℕ) (db : Db) (rows : Organization × Run × Job)
    → lock_job job_id db ≡ ok rows
    → w.may_manage actor rows.1.organization_id ≡ true
    → IsValid rows.2
    → is_terminal rows.2.status ≡ false
    → (cancel_apply_job w actor job_id (aware at) db
        ≡ ok (written (cancelled_job at rows.2) db, outcome (cancelled_job at rows.2)))
      × IsValid (cancelled_job at rows.2)
      × (is_terminal (cancelled_job at rows.2).status ≡ true)
unfolding cancel_apply_job authorize cancelled_job checked_now
cancel_apply_job-live w actor job_id at db rows locked may v live =
    let saved =
      save_job-Passes (cancelled_job at rows.2) rows.2 db (locked_key job_id db rows locked)
        (cancelled-Passes at rows.2 v live) in
    (rw (locked, may, live, saved), cancelled-IsValid at rows.2 v live, refl)
