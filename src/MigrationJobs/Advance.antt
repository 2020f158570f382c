-- ===== src/MigrationJobs/Advance.antt =====
-- What the checks of `save` guarantee of every job over time, whichever operations run.
use mnemex.Base.{
  ℕ, ◌≤◌, String, ◌≡◌, sym, ap, subst, ◌∙◌, Bool, true, some, arith, eq_iff, ok, guard, or_raise,
  >>=-eq-ok, guard-eq-ok, or_raise-eq-ok,
}
use mnemex.Base.Rows
use mnemex.Base.Rows.{Evolves, Evolves-refl, Evolves-trans, Evolves-save, key-get}
use mnemex.MigrationJobs.Model.{Job, Run, Db, job_key, is_terminal}
use mnemex.MigrationJobs.Save.{
  is_clean, is_legal, same_provenance, counters_advance, may_become, same_evidence, save_job,
}
use mnemex.MigrationJobs.Claims.{failed_job, fail_run, apply_run, terminalize_job}

-- How a job stands to a later state of it.
pub record Advances (a b : Job) : Type 0 where
  pub same_id : b.job_id ≡ a.job_id
  pub same_run : b.run_id ≡ a.run_id
  pub same_digest : b.requested_manifest_digest ≡ a.requested_manifest_digest
  pub same_limit : b.max_attempts ≡ a.max_attempts
  pub generation : a.claim_generation ≤ b.claim_generation
  pub attempts : a.attempt_count ≤ b.attempt_count
  pub failures : a.failure_count ≤ b.failure_count
  pub ended_status : is_terminal a.status ≡ true → b.status ≡ a.status
  pub ended_failures : is_terminal a.status ≡ true → b.failure_count ≡ a.failure_count
  pub ended_checkpoint :
      is_terminal a.status ≡ true → b.next_checkpoint_sequence ≡ a.next_checkpoint_sequence
  pub ended_error : is_terminal a.status ≡ true → b.last_error_code ≡ a.last_error_code

pub Advances-refl : (j : Job) → Advances j j
Advances-refl j = ground arith

pub Advances-trans : (a b c : Job) → Advances a b → Advances b c → Advances a c
Advances-trans a b c f g = ground arith

provenance_kept :
    (a b : Job)
    → same_provenance b a ≡ true
    → (b.run_id ≡ a.run_id)
      × (b.requested_manifest_digest ≡ a.requested_manifest_digest)
      × (b.max_attempts ≡ a.max_attempts)
unfolding same_provenance
provenance_kept a b h =
    ground (arith, eq_iff b.requested_manifest_digest a.requested_manifest_digest)

counters_grow :
    (a b : Job)
    → counters_advance a b ≡ true
    → (a.claim_generation ≤ b.claim_generation)
      × (a.attempt_count ≤ b.attempt_count)
      × (a.failure_count ≤ b.failure_count)
unfolding counters_advance
counters_grow a b h = ground arith

ended_stays :
    (a b : Job)
    → may_become a.status b.status ≡ true
    → is_terminal a.status ≡ true
    → b.status ≡ a.status
unfolding may_become
ended_stays a b h t = ground arith

evidence_kept :
    (a b : Job)
    → same_evidence b a ≡ true
    → (b.failure_count ≡ a.failure_count)
      × (b.next_checkpoint_sequence ≡ a.next_checkpoint_sequence)
      × (b.last_error_code ≡ a.last_error_code)
unfolding same_evidence
evidence_kept a b h = ground (arith, eq_iff b.last_error_code a.last_error_code)

Advances-legal : (a b : Job) → b.job_id ≡ a.job_id → is_legal a b ≡ true → Advances a b
unfolding is_legal
Advances-legal a b same h =
    ground (arith, provenance_kept a b, counters_grow a b, ended_stays a b, evidence_kept a b)

abbrev pub JobsAdvance : Db → Db → Type 0
JobsAdvance a b = Evolves job_key Advances a.jobs b.jobs

pub JobsAdvance-refl : (a : Db) → JobsAdvance a a
JobsAdvance-refl a = Evolves-refl job_key Advances Advances-refl a.jobs

pub JobsAdvance-trans : (a b c : Db) → JobsAdvance a b → JobsAdvance b c → JobsAdvance a c
JobsAdvance-trans a b c = Evolves-trans job_key Advances Advances-trans a.jobs b.jobs c.jobs

-- A save that passes.
pub save_job-eq-ok :
    (j : Job) (db db' : Db)
    → save_job j db ≡ ok db'
    → (old : Job) × (is_clean j ≡ true)
      × (Rows.get job_key j.job_id db.jobs ≡ some old)
      × (is_legal old j ≡ true)
      × (db' ≡ record db { jobs = Rows.save job_key j db.jobs })
unfolding save_job
save_job-eq-ok j db db' h =
    let (t, h1, h2) = >>=-eq-ok (guard (is_clean j) _) _ h in
    let (old, h3, h4) = >>=-eq-ok (or_raise (Rows.get job_key j.job_id db.jobs) _) _ h2 in
    let (t', h5, h6) = >>=-eq-ok (guard (is_legal old j) _) _ h4 in
    (
      old,
      guard-eq-ok (is_clean j) _ h1,
      or_raise-eq-ok (Rows.get job_key j.job_id db.jobs) _ h3,
      guard-eq-ok (is_legal old j) _ h5,
      cc h6,
    )

pub save_job-JobsAdvance : (j : Job) (db db' : Db) → save_job j db ≡ ok db' → JobsAdvance db db'
save_job-JobsAdvance j db db' h =
    let (old, clean, found, legal, e) = save_job-eq-ok j db db' h in
    subst (λ (x : Db). JobsAdvance db x) (sym e)
      (Evolves-save job_key Advances Advances-refl j old db.jobs found
        (Advances-legal old j (sym (key-get job_key j.job_id db.jobs old found)) legal))

pub jobs-fail_run : (r : Run) (db : Db) → (fail_run r db).jobs ≡ db.jobs
unfolding fail_run
jobs-fail_run r db = ground arith

pub jobs-apply_run : (r : Run) (db : Db) → (apply_run r db).jobs ≡ db.jobs
unfolding apply_run
jobs-apply_run r db = ground arith

pub terminalize-JobsAdvance :
    (r : Run) (j : Job) (now : ℕ) (code message : String) (b : Bool) (db db' : Db)
    → terminalize_job r j now code message b db ≡ ok db'
    → JobsAdvance db db'
unfolding terminalize_job
terminalize-JobsAdvance r j now code message b db db' h =
    let (mid, hs, e) = >>=-eq-ok (save_job (failed_job now code message b j) db) _ h in
    let same : (fail_run r mid).jobs ≡ db'.jobs =
      ap (λ (x : Db). x.jobs) (let p : fail_run r mid ≡ db' = cc e in p) in
    subst (λ l. Evolves job_key Advances db.jobs l) (sym (jobs-fail_run r mid) ∙ same)
      (save_job-JobsAdvance (failed_job now code message b j) db mid hs)
