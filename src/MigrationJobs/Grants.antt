-- ===== src/MigrationJobs/Grants.antt =====
-- What the claims of the queue do to the jobs, and what a claim that they hand out stands for.
use mnemex.Base.{
  ℕ, ◌+◌, String, ◌≡◌, refl, sym, ap, subst, ◌∙◌, Bool, true, false, not, ◌||◌, Option, none, some,
  List, [], ◌∷◌, leb, Result, ok, ◌>>=◌, guard,
}
use mnemex.Base.Moment.{Moment, Timedelta, checked_now, checked_lease}
use mnemex.Base.Rows
use mnemex.Base.Rows.{Evolves, get-save_self}
use mnemex.MigrationJobs.Model.{
  Job, Run, Organization, Db, ClaimedApplyJob, Authority, job_key, is_running, is_apply,
  is_withdrawn, checked_owner, lock_job,
}
use mnemex.MigrationJobs.Save.{save_job}
use mnemex.MigrationJobs.Claims.{
  claimed_job, expired_exhausted, lease_end, is_due, apply_run, terminalize_job, without_claim,
  take_job, claim_locked_job, claimable, claim_ready_at,
}
use mnemex.MigrationJobs.Queue.{
  Locks, next_in_organization, terminalize_in, terminalize_one_expired_exhausted, resume, claim_in,
  claim_next_apply_job, claim_specific_apply_job,
}
use mnemex.MigrationJobs.Advance.{
  Advances, JobsAdvance, JobsAdvance-refl, JobsAdvance-trans, save_job-eq-ok, save_job-JobsAdvance,
  jobs-apply_run, terminalize-JobsAdvance,
}
use mnemex.MigrationJobs.Ensures.{
  Ensures, Ensures-if, Ensures-option, Ensures-bind, Ensures-ok, Ensures-without_claim,
  Ensures-resume,
}

-- The claim is the one that its job's row records.
pub record Stands (c : ClaimedApplyJob) (db : Db) : Type 0 where
  pub row : Job
  pub found : Rows.get job_key c.job_id db.jobs ≡ some row
  pub running : is_running row.status ≡ true
  pub same_generation : row.claim_generation ≡ c.generation
  pub same_token : row.claim_token ≡ c.token
  pub same_owner : row.claim_owner ≡ c.owner

abbrev pub Granted : Option ClaimedApplyJob → Db → Type 0
Granted none db = Unit
Granted (some c) db = Stands c db

-- The jobs only advance, and a claim that is returned stands.
abbrev pub Claimed : Db → Db → Option ClaimedApplyJob → Type 0
Claimed a b x = JobsAdvance a b × Granted x b

Claimed-trans :
    (a b : Db) (r : Result (Db × Option ClaimedApplyJob))
    → JobsAdvance a b
    → Ensures (Claimed b) r
    → Ensures (Claimed a) r
Claimed-trans a b r step h = λ d x e. let (f, g) = h d x e in (JobsAdvance-trans a b d step f, g)

module _ (w : Authority) (r : Run) (now lease : ℕ) (owner token : String) where
  terminalize-Claimed :
      (j : Job) (code message : String) (b : Bool) (db : Db)
      → Ensures (Claimed db) (without_claim (terminalize_job r j now code message b db))
  terminalize-Claimed j code message b db =
      Ensures-without_claim (Claimed db) (terminalize_job r j now code message b db)
        (λ d h. (terminalize-JobsAdvance r j now code message b db d h, tt))

  abbrev claim_of : Job → ClaimedApplyJob
  claim_of j = record {
    job_id = j.job_id;
    token = token;
    generation = j.claim_generation + 1;
    owner = owner;
  }

  taken-Stands :
      (j : Job) (db mid : Db)
      → save_job (claimed_job owner now lease token j) db ≡ ok mid
      → Stands (claim_of j) (apply_run r mid)
  unfolding claimed_job
  taken-Stands j db mid h =
      let (old, clean, found, legal, e) =
        save_job-eq-ok (claimed_job owner now lease token j) db mid h in
      let jobs : (apply_run r mid).jobs
          ≡ Rows.save job_key (claimed_job owner now lease token j) db.jobs =
        jobs-apply_run r mid ∙ ap (λ (d : Db). d.jobs) e in
      record {
        row = claimed_job owner now lease token j;
        found =
            subst (λ l. Rows.get job_key j.job_id l ≡ some (claimed_job owner now lease token j))
              (sym jobs)
              (get-save_self job_key (claimed_job owner now lease token j) old db.jobs found);
        running = refl;
        same_generation = refl;
        same_token = refl;
        same_owner = refl;
      }

  take_job-Claimed :
      (j : Job) (db : Db) → Ensures (Claimed db) (take_job w r j owner now lease token db)
  unfolding take_job
  take_job-Claimed j db =
      Ensures-bind (Claimed db) (guard (w.is_approved r j.requested_manifest_digest) _) _ (λ _ _.
        Ensures-bind (Claimed db) (save_job (claimed_job owner now lease token j) db) _ (λ mid h.
          Ensures-ok (Claimed db) (apply_run r mid) (some (claim_of j)) (
            subst (λ l. Evolves job_key Advances db.jobs l) (sym (jobs-apply_run r mid))
                (save_job-JobsAdvance (claimed_job owner now lease token j) db mid h),
            taken-Stands j db mid h,
          )))

  claim_locked_job-Claimed :
      (o : Organization) (j : Job) (early : Bool) (db : Db)
      → Ensures (Claimed db) (claim_locked_job w o r j owner now lease early token db)
  unfolding claim_locked_job
  claim_locked_job-Claimed o j early db =
      let charged : Job = record j { failure_count = j.failure_count + 1 } in
      let nothing : Ensures (Claimed db) (ok (db, none)) =
        Ensures-ok (Claimed db) db none (JobsAdvance-refl db, tt) in
      Ensures-if (Claimed db) (not (is_due early now j) || leb j.max_attempts j.failure_count) _ _
        nothing
        (Ensures-if (Claimed db) (is_withdrawn r.state) _ _ nothing (
          Ensures-if (Claimed db) (not o.is_active) _ _ (terminalize-Claimed j _ _ true db) (
            Ensures-if (Claimed db) (not (w.may_manage j.created_by r.organization_id)) _ _
              (terminalize-Claimed j _ _ true db)
              (Ensures-if (Claimed db) (not (is_running j.status)) _ _ (take_job-Claimed j db) (
                Ensures-if (Claimed db) _ _ _ (terminalize-Claimed charged _ _ false db)
                  (take_job-Claimed charged db))))))

abbrev exhausted : String
exhausted = "attempts_exhausted"

abbrev exhausted_message : String
exhausted_message = "worker failures exhausted; operator review is required"

module _ (locks : Locks) (now : ℕ) where
  terminalize_in-JobsAdvance :
      (os : List ℕ) (db : Db)
      → Ensures (λ d (x : Bool). JobsAdvance db d) (terminalize_in locks now os db)
  unfolding terminalize_in
  terminalize_in-JobsAdvance [] db =
      Ensures-ok (λ d (x : Bool). JobsAdvance db d) db false (JobsAdvance-refl db)
  terminalize_in-JobsAdvance (o ∷ os) db =
      Ensures-option (λ d (x : Bool). JobsAdvance db d)
        (next_in_organization locks (expired_exhausted now) lease_end o db) _
        (λ y. do d ← terminalize_job y.1 y.2 now exhausted exhausted_message false db; ok (d, true))
        (terminalize_in-JobsAdvance os db)
        (λ (y : Organization × Run × Job) _.
          Ensures-bind (λ d (x : Bool). JobsAdvance db d)
            (terminalize_job y.1 y.2 now exhausted exhausted_message false db) _
            (λ d h.
              Ensures-ok (λ d (x : Bool). JobsAdvance db d) d true
                (terminalize-JobsAdvance y.1 y.2 now exhausted exhausted_message false db d h)))

claim_in-Claimed :
    (w : Authority) (locks : Locks) (owner : String) (now lease : ℕ) (token : String) (os : List ℕ)
    (db : Db)
    → Ensures (Claimed db) (claim_in w locks owner now lease token os db)
unfolding claim_in
claim_in-Claimed w locks owner now lease token [] db =
    Ensures-ok (Claimed db) db none (JobsAdvance-refl db, tt)
claim_in-Claimed w locks owner now lease token (o ∷ os) db =
    Ensures-option (Claimed db) (next_in_organization locks (claimable now db) claim_ready_at o db)
      _
      (λ y.
        claim_locked_job w y.0 y.1 y.2 owner now lease false token db
        >>= resume (λ d. claim_in w locks owner now lease token os d))
      (claim_in-Claimed w locks owner now lease token os db)
      (λ (y : Organization × Run × Job) _.
        Ensures-resume (Claimed db) _ _
          (claim_locked_job-Claimed w y.1 now lease owner token y.0 y.2 false db)
          (λ d h. Claimed-trans db d _ h.0 (claim_in-Claimed w locks owner now lease token os d)))

module _ (w : Authority) (owner : String) (now : Moment) (lease : Timedelta) (token : String)
    (db : Db) where
  pub claim_next-Claimed :
      (locks : Locks) → Ensures (Claimed db) (claim_next_apply_job w locks owner now lease token db)
  unfolding claim_next_apply_job terminalize_one_expired_exhausted
  claim_next-Claimed locks = Ensures-bind (Claimed db) (checked_now now) _ (λ at _.
      Ensures-bind (Claimed db) (checked_owner owner) _ (λ checked _.
        Ensures-bind (Claimed db) (checked_lease lease) _ (λ l _.
          Ensures-bind (Claimed db) (terminalize_one_expired_exhausted locks at db) _ (λ ended h.
            Claimed-trans db ended.0 _ (terminalize_in-JobsAdvance locks at _ db ended.0 ended.1 h)
              (claim_in-Claimed w locks checked at l token _ ended.0)))))

  pub claim_specific-Claimed :
      (job_id : ℕ) (early : Bool)
      → Ensures (Claimed db) (claim_specific_apply_job w job_id owner now lease early token db)
  unfolding claim_specific_apply_job
  claim_specific-Claimed job_id early = Ensures-bind (Claimed db) (checked_now now) _ (λ at _.
      Ensures-bind (Claimed db) (checked_owner owner) _ (λ checked _.
        Ensures-bind (Claimed db) (checked_lease lease) _ (λ l _.
          Ensures-bind (Claimed db) (lock_job job_id db) _ (λ rows _.
            Ensures-if (Claimed db) (is_apply rows.2.job_kind) _ _
              (claim_locked_job-Claimed w rows.1 at l checked token rows.0 rows.2 early db)
              (Ensures-ok (Claimed db) db none (JobsAdvance-refl db, tt))))))
