-- ===== src/MigrationJobs/Reach.antt =====
-- The databases that the operations of the queue reach, one transaction after the other, and what no
-- sequence of them can undo.
use mnemex.Base.{
  ℕ, String, ◌≡◌, refl, subst, Bool, true, false, not, Option, [], ◌∷◌, Result, ok, err, guard,
  if◌then◌else◌, is_some,
}
use mnemex.Base.Moment.{Moment, Timedelta, checked_now, checked_lease}
use mnemex.Base.Rows.{Evolves, Evolves-append}
use mnemex.MigrationJobs.Model.{
  Job, Run, Db, ClaimedApplyJob, ApplyJobOutcome, Authority, job_key, is_terminal, lock_job,
  assert_claim, authorize,
}
use mnemex.MigrationJobs.Save.{is_clean, save_job}
use mnemex.MigrationJobs.Claims.{fail_run}
use mnemex.MigrationJobs.Queue.{Locks, claim_next_apply_job, claim_specific_apply_job}
use mnemex.MigrationJobs.Enqueue.{
  enqueue_apply_job, checked_request, choose_job, latest, live_match, completed_match,
  other_request, create_job, run_completed,
}
use mnemex.MigrationJobs.Settle.{
  heartbeat_apply_job, beaten_job, denied, authorize_apply_job_source_read, Failure, settled_job,
  ends_job, settle_apply_job_failure, cancelled_job, cancel_apply_job,
}
use mnemex.MigrationJobs.Advance.{
  Advances, Advances-refl, JobsAdvance, JobsAdvance-refl, JobsAdvance-trans, save_job-JobsAdvance,
  jobs-fail_run, terminalize-JobsAdvance,
}
use mnemex.MigrationJobs.Ensures.{Ensures, Ensures-if, Ensures-option, Ensures-bind, Ensures-ok}
use mnemex.MigrationJobs.Grants.{claim_next-Claimed, claim_specific-Claimed}

-- The jobs only advance.
abbrev Advanced {ℓ} : {X : Type ℓ} → Db → Db → X → Type 0
Advanced a b x = JobsAdvance a b

heartbeat-Advanced :
    (c : ClaimedApplyJob) (now : Moment) (lease : Timedelta) (db : Db)
    → Ensures (Advanced db) (heartbeat_apply_job c now lease db)
unfolding heartbeat_apply_job
heartbeat-Advanced c now lease db = Ensures-bind (Advanced db) (checked_now now) _ (λ at _.
    Ensures-bind (Advanced db) (checked_lease lease) _ (λ l _.
      Ensures-bind (Advanced db) (lock_job c.job_id db) _ (λ rows _.
        Ensures-bind (Advanced db) (assert_claim rows.2 c at) _ (λ _ _.
          Ensures-bind (Advanced db) (save_job (beaten_job at l rows.2) db) _ (λ d h.
            Ensures-ok (Advanced db) d _ (save_job-JobsAdvance (beaten_job at l rows.2) db d h))))))

denied-Advanced :
    {B : Type 0} (db : Db) (r : Result Db)
    → ((d : Db) → r ≡ ok d → JobsAdvance db d)
    → Ensures (Advanced db) (denied {B = B} r)
denied-Advanced db (ok d) h = Ensures-ok (Advanced db) d _ (h d refl)
denied-Advanced db (err e) h = λ d x f. cc

source_read-Advanced :
    {B : Type 0} (w : Authority) (c : ClaimedApplyJob) (read : Run → Result B) (now : Moment)
    (db : Db)
    → Ensures (Advanced db) (authorize_apply_job_source_read w c read now db)
unfolding authorize_apply_job_source_read
source_read-Advanced w c read now db = Ensures-bind (Advanced db) (checked_now now) _ (λ at _.
    Ensures-bind (Advanced db) (lock_job c.job_id db) _ (λ rows _.
      Ensures-bind (Advanced db) (assert_claim rows.2 c at) _ (λ _ _.
        Ensures-if (Advanced db) (not rows.0.is_active) _ _
          (denied-Advanced db _ (λ d h. terminalize-JobsAdvance rows.1 rows.2 at _ _ true db d h))
          (Ensures-if (Advanced db) (not (w.may_manage rows.2.created_by rows.1.organization_id)) _
            _
            (denied-Advanced db _ (λ d h. terminalize-JobsAdvance rows.1 rows.2 at _ _ true db d h))
            (Ensures-bind (Advanced db) (read rows.1) _
              (λ content _. Ensures-ok (Advanced db) db _ (JobsAdvance-refl db)))))))

jobs-if : (b : Bool) (r : Run) (db : Db) → (if b then fail_run r db else db).jobs ≡ db.jobs
jobs-if true r db = jobs-fail_run r db
jobs-if false r db = refl

settle-Advanced :
    (c : ClaimedApplyJob) (failure : Failure) (now : Moment) (soon : Bool) (db : Db)
    → Ensures (Advanced db) (settle_apply_job_failure c failure now soon db)
unfolding settle_apply_job_failure
settle-Advanced c failure now soon db = Ensures-bind (Advanced db) (checked_now now) _ (λ at _.
    Ensures-bind (Advanced db) (lock_job c.job_id db) _ (λ rows _.
      Ensures-bind (Advanced db) (assert_claim rows.2 c at) _ (λ _ _.
        let mid : Db = if ends_job failure rows.2 then fail_run rows.1 db else db in
        Ensures-bind (Advanced db) (save_job (settled_job failure at soon rows.2) mid) _ (λ d h.
          Ensures-ok (Advanced db) d _ (
            subst (λ l. Evolves job_key Advances l d.jobs)
              (jobs-if (ends_job failure rows.2) rows.1 db)
              (save_job-JobsAdvance (settled_job failure at soon rows.2) mid d h))))))

cancel-Advanced :
    (w : Authority) (actor job_id : ℕ) (now : Moment) (db : Db)
    → Ensures (Advanced db) (cancel_apply_job w actor job_id now db)
unfolding cancel_apply_job
cancel-Advanced w actor job_id now db = Ensures-bind (Advanced db) (checked_now now) _ (λ at _.
    Ensures-bind (Advanced db) (lock_job job_id db) _ (λ rows _.
      Ensures-bind (Advanced db) (authorize w actor rows.1) _ (λ _ _.
        Ensures-if (Advanced db) (is_terminal rows.2.status) _ _
          (Ensures-ok (Advanced db) db _ (JobsAdvance-refl db))
          (Ensures-bind (Advanced db) (save_job (cancelled_job at rows.2) db) _ (λ d h.
            Ensures-ok (Advanced db) d _
              (save_job-JobsAdvance (cancelled_job at rows.2) db d h))))))

create-Advanced : (j : Job) (db : Db) → Ensures (Advanced db) (create_job j db)
unfolding create_job
create-Advanced j db = Ensures-bind (Advanced db) (guard (is_clean j) _) _ (λ _ _.
    Ensures-ok (Advanced db) _ j (Evolves-append job_key Advances Advances-refl db.jobs (j ∷ [])))

module _ (r : Run) (actor : ℕ) (digest : String) (chunk_size : ℕ) (rationale : String) where
  choose-Advanced :
      (max_attempts queued_at id created_at : ℕ) (db : Db)
      → Ensures
          (Advanced db)
          (choose_job r actor digest chunk_size rationale max_attempts queued_at id created_at db)
  unfolding choose_job
  choose-Advanced max_attempts queued_at id created_at db =
      Ensures-option (Advanced db) (latest (live_match r.run_id digest chunk_size) db.jobs) _
        (λ existing. ok (db, existing))
        (Ensures-option (Advanced db) (latest (completed_match r.run_id digest chunk_size) db.jobs)
          _ (λ completed. ok (db, completed))
          (Ensures-if (Advanced db)
            (is_some (latest (other_request r.run_id digest chunk_size) db.jobs)) _ _ (λ d x h. cc)
            (Ensures-if (Advanced db) (run_completed r.state) _ _ (λ d x h. cc)
              (create-Advanced _ db)))
          (λ j _. Ensures-ok (Advanced db) db j (JobsAdvance-refl db)))
        (λ j _. Ensures-ok (Advanced db) db j (JobsAdvance-refl db))

enqueue-Advanced :
    (w : Authority) (actor : ℕ) (run : Run) (digest : String) (chunk_size : ℕ) (rationale : String)
    (max_attempts : ℕ) (now : Moment) (id created_at : ℕ) (db : Db)
    → Ensures (Advanced db) (
        enqueue_apply_job w actor run digest chunk_size rationale max_attempts now id created_at db)
unfolding enqueue_apply_job
enqueue-Advanced w actor run digest chunk_size rationale max_attempts now id created_at db =
    Ensures-bind (Advanced db)
      (checked_request w actor run digest chunk_size rationale max_attempts now db) _
      (λ q _. choose-Advanced q.2 actor digest chunk_size q.1 max_attempts q.0 id created_at db)

-- One transaction of the queue. `save` stands for the writes of the chunks and of the completion,
-- which go through `save`; `others` for what else happens to organizations and runs.
pub data Step (w : Authority) : Db → Db → Type 1 where
  enqueue :
      {a b : Db} (actor chunk_size max_attempts id created_at : ℕ) (run : Run)
      (digest rationale : String) (now : Moment) (j : Job)
      → enqueue_apply_job w actor run digest chunk_size rationale max_attempts now id created_at a
        ≡ ok (b, j)
      → Step w a b
  claim_next :
      {a b : Db} (locks : Locks) (owner token : String) (now : Moment) (lease : Timedelta)
      (x : Option ClaimedApplyJob)
      → claim_next_apply_job w locks owner now lease token a ≡ ok (b, x)
      → Step w a b
  claim_specific :
      {a b : Db} (job_id : ℕ) (owner token : String) (now : Moment) (lease : Timedelta)
      (early : Bool) (x : Option ClaimedApplyJob)
      → claim_specific_apply_job w job_id owner now lease early token a ≡ ok (b, x)
      → Step w a b
  heartbeat :
      {a b : Db} (c : ClaimedApplyJob) (now : Moment) (lease : Timedelta) (x : ApplyJobOutcome)
      → heartbeat_apply_job c now lease a ≡ ok (b, x)
      → Step w a b
  source_read :
      {a b : Db} (B : Type 0) (c : ClaimedApplyJob) (read : Run → Result B) (now : Moment)
      (x : Result B)
      → authorize_apply_job_source_read w c read now a ≡ ok (b, x)
      → Step w a b
  settle :
      {a b : Db} (c : ClaimedApplyJob) (failure : Failure) (now : Moment) (soon : Bool)
      (x : ApplyJobOutcome)
      → settle_apply_job_failure c failure now soon a ≡ ok (b, x)
      → Step w a b
  cancel :
      {a b : Db} (actor job_id : ℕ) (now : Moment) (x : ApplyJobOutcome)
      → cancel_apply_job w actor job_id now a ≡ ok (b, x)
      → Step w a b
  save : {a b : Db} (j : Job) → save_job j a ≡ ok b → Step w a b
  others : {a b : Db} → a.jobs ≡ b.jobs → Step w a b

pub data Reach (w : Authority) : Db → Db → Type 1 where
  done : {a : Db} → Reach w a a
  next : {a b c : Db} → Step w a b → Reach w b c → Reach w a c

Step-JobsAdvance : (w : Authority) (a b : Db) → Step w a b → JobsAdvance a b
Step-JobsAdvance w a b
      (enqueue actor chunk_size max_attempts id created_at run digest rationale now j h) =
    enqueue-Advanced w actor run digest chunk_size rationale max_attempts now id created_at a b j h
Step-JobsAdvance w a b (claim_next locks owner token now lease x h) =
    (claim_next-Claimed w owner now lease token a locks b x h).0
Step-JobsAdvance w a b (claim_specific job_id owner token now lease early x h) =
    (claim_specific-Claimed w owner now lease token a job_id early b x h).0
Step-JobsAdvance w a b (heartbeat c now lease x h) = heartbeat-Advanced c now lease a b x h
Step-JobsAdvance w a b (source_read B c read now x h) = source_read-Advanced w c read now a b x h
Step-JobsAdvance w a b (settle c failure now soon x h) = settle-Advanced c failure now soon a b x h
Step-JobsAdvance w a b (cancel actor job_id now x h) = cancel-Advanced w actor job_id now a b x h
Step-JobsAdvance w a b (save j h) = save_job-JobsAdvance j a b h
Step-JobsAdvance w a b (others h) =
    subst (λ l. Evolves job_key Advances a.jobs l) h (JobsAdvance-refl a)

pub Reach-JobsAdvance : (w : Authority) (a b : Db) → Reach w a b → JobsAdvance a b
Reach-JobsAdvance w a b done = JobsAdvance-refl a
Reach-JobsAdvance w a b (next {b = m} s r) =
    JobsAdvance-trans a m b (Step-JobsAdvance w a m s) (Reach-JobsAdvance w m b r)
