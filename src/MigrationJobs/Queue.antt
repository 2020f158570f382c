-- ===== src/MigrationJobs/Queue.antt =====
-- The two loops over the candidate organizations, and the claim of a given job.
use mnemex.Base.{
  ℕ, String, Bool, true, false, not, ◌&&◌, ◌||◌, Option, none, some, List, [], ◌∷◌, ◌==◌,
  if◌then◌else◌, Result, ok, ◌>>=◌, select,
}
use mnemex.Base.Moment.{Moment, Timedelta, checked_now, checked_lease}
use mnemex.Base.Rows
use mnemex.Base.Ordered.{before3, order_by, head?}
use mnemex.MigrationJobs.Model.{
  Job, Run, Organization, Db, ClaimedApplyJob, Authority, run_key, organization_key, is_apply,
  checked_owner, lock_job,
}
use mnemex.MigrationJobs.Claims.{
  claimable, expired_exhausted, claim_ready_at, lease_end, candidate_organization_ids,
  terminalize_job, claim_locked_job,
}

-- The rows that other transactions hold, which `skip_locked` passes over.
pub record Locks : Type 0 where
  pub organization : ℕ → Bool
  pub job : ℕ → Bool

unfoldable pub with_run :
    Locks → ℕ → Organization → Option Job → Db → Option (Organization × Run × Job)
with_run locks o org none db = none
with_run locks o org (some j) db = elim (Rows.get run_key j.run_id db.runs) [
  | none ↦ none
  | some r ↦ if not (r.organization_id == o) || locks.job j.job_id then none else some (org, r, j)
]

-- The first job of an organization's query, with its run, all of them free; `none` is a `continue`.
unfoldable pub next_in_organization :
    Locks → (Job → Bool) → (Job → ℕ) → ℕ → Db → Option (Organization × Run × Job)
unfolding order_by head? with_run
next_in_organization locks wanted ready o db = elim (Rows.get organization_key o db.organizations) [
  | none ↦ none
  | some org ↦
      if locks.organization o
      then none
      else with_run locks o org
          (head? (
            order_by
              (λ a b. before3 (ready a, a.created_at, a.job_id) (ready b, b.created_at, b.job_id))
              (select (λ j. wanted j && j.organization_id == o) db.jobs)))
          db
]

unfoldable pub terminalize_in : Locks → ℕ → List ℕ → Db → Result (Db × Bool)
unfolding next_in_organization terminalize_job
terminalize_in locks now [] db = ok (db, false)
terminalize_in locks now (o ∷ os) db =
    elim (next_in_organization locks (expired_exhausted now) lease_end o db) [
      | none ↦ terminalize_in locks now os db
      | some (org, r, j) ↦ do
        db' ←
            terminalize_job r j now "attempts_exhausted"
              "worker failures exhausted; operator review is required" false db
        ok (db', true)
    ]

unfoldable pub terminalize_one_expired_exhausted : Locks → ℕ → Db → Result (Db × Bool)
unfolding terminalize_in candidate_organization_ids expired_exhausted
terminalize_one_expired_exhausted locks now db =
    terminalize_in locks now
      (candidate_organization_ids lease_end (select (expired_exhausted now) db.jobs)) db

-- `if claim is not None: return claim`, and else the rest of the loop.
abbrev pub resume :
    (Db → Result (Db × Option ClaimedApplyJob))
    → Db × Option ClaimedApplyJob
    → Result (Db × Option ClaimedApplyJob)
resume rest (db, some c) = ok (db, some c)
resume rest (db, none) = rest db

module _ (w : Authority) (locks : Locks) (owner : String) (now lease : ℕ) (token : String) where
  -- A claim ends the loop; without one it goes on from the database that the attempt left.
  unfoldable pub claim_in : List ℕ → Db → Result (Db × Option ClaimedApplyJob)
  unfolding next_in_organization claim_locked_job
  claim_in [] db = ok (db, none)
  claim_in (o ∷ os) db = elim (next_in_organization locks (claimable now db) claim_ready_at o db) [
    | none ↦ claim_in os db
    | some (org, r, j) ↦
        claim_locked_job w org r j owner now lease false token db
        >>= resume (λ db'. claim_in os db')
  ]

unfoldable pub claim_next_apply_job :
    Authority
    → Locks
    → String
    → Moment
    → Timedelta
    → String
    → Db
    → Result (Db × Option ClaimedApplyJob)
unfolding claim_in terminalize_one_expired_exhausted candidate_organization_ids claimable
claim_next_apply_job w locks owner now lease_duration token db = do
  at ← checked_now now
  checked ← checked_owner owner
  lease ← checked_lease lease_duration
  ended ← terminalize_one_expired_exhausted locks at db
  claim_in w locks checked at lease token
      (candidate_organization_ids claim_ready_at (select (claimable at ended.0) ended.0.jobs))
      ended.0

unfoldable pub claim_specific_apply_job :
    Authority
    → ℕ
    → String
    → Moment
    → Timedelta
    → Bool
    → String
    → Db
    → Result (Db × Option ClaimedApplyJob)
unfolding claim_locked_job lock_job
claim_specific_apply_job w job_id owner now lease_duration early token db = do
  at ← checked_now now
  checked ← checked_owner owner
  lease ← checked_lease lease_duration
  rows ← lock_job job_id db
  if is_apply rows.2.job_kind
      then claim_locked_job w rows.0 rows.1 rows.2 checked at lease early token db
      else ok (db, none)
