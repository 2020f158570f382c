-- ===== src/MigrationJobs/Finality.antt =====
-- A job that ended stays as it ended, and a claim that was overtaken is refused from then on.
use mnemex.Base.{
  ℕ, ◌<◌, ◌⊎◌, inl, String, ◌≡◌, refl, subst, Bool, true, ◌&&◌, some, arith, sym, ◌∙◌, str_eq,
  Error, claim_lost, Result, ok, err, guard, or_raise, >>=-eq-ok, guard-eq-ok, or_raise-eq-ok, ◌==◌,
}
use mnemex.Base.Moment.{Moment, Timedelta, checked_now, checked_lease}
use mnemex.Base.Rows
use mnemex.MigrationJobs.Model.{
  Job, Run, Organization, Db, ClaimedApplyJob, Authority, job_key, run_key, organization_key,
  is_terminal, is_apply, is_running, lock_job, assert_claim,
}
use mnemex.MigrationJobs.Queue.{Locks, claim_next_apply_job}
use mnemex.MigrationJobs.Settle.{
  heartbeat_apply_job, authorize_apply_job_source_read, Failure, settle_apply_job_failure,
}
use mnemex.MigrationJobs.Advance.{Advances}
use mnemex.MigrationJobs.Grants.{Stands, claim_next-Claimed}
use mnemex.MigrationJobs.Reach.{Reach, Reach-JobsAdvance}

-- The operation raises.
abbrev pub Fails {ℓ} : {X : Type ℓ} → Result X → Type ℓ
Fails r = (e : Error) × (r ≡ err e)

never_ok {ℓ} : {X : Type ℓ} (r : Result X) → ((x : X) → r ≡ ok x → ⊥) → Fails r
never_ok (ok x) h = absurd (h x refl)
never_ok (err e) h = (e, refl)

pub lock_job-eq-ok :
    (k : ℕ) (db : Db) (rows : Organization × Run × Job)
    → lock_job k db ≡ ok rows
    → Rows.get job_key k db.jobs ≡ some rows.2
unfolding lock_job
lock_job-eq-ok k db rows h =
    let (j, h1, h2) = >>=-eq-ok (or_raise (Rows.get job_key k db.jobs) claim_lost) _ h in
    let (o, h3, h4) =
      >>=-eq-ok (or_raise (Rows.get organization_key j.organization_id db.organizations) claim_lost)
        _ h2 in
    let (r, h5, h6) = >>=-eq-ok (or_raise (Rows.get run_key j.run_id db.runs) claim_lost) _ h4 in
    let (t, h7, h8) = >>=-eq-ok (guard (r.organization_id == j.organization_id) claim_lost) _ h6 in
    or_raise-eq-ok (Rows.get job_key k db.jobs) claim_lost h1
    ∙ (let e : some j ≡ some rows.2 = cc h8 in e)

-- A claim that is accepted is of a running job of its generation.
pub assert_claim-eq-ok :
    (j : Job) (c : ClaimedApplyJob) (now : ℕ) (t : Unit {0})
    → assert_claim j c now ≡ ok t
    → (is_running j.status ≡ true) × (j.claim_generation ≡ c.generation)
unfolding assert_claim
assert_claim-eq-ok j c now t h =
    let (t1, h1, h2) = >>=-eq-ok (guard (is_apply j.job_kind) claim_lost) _ h in
    let (t2, h3, h4) =
      >>=-eq-ok
        (guard
          (is_running j.status
            && (str_eq j.claim_token c.token
                && (j.claim_generation == c.generation && str_eq j.claim_owner c.owner)))
          claim_lost)
        _ h2 in
    let e = guard-eq-ok _ claim_lost h3 in ground arith

-- The row is past the claim: its generation is higher, or it has ended.
abbrev pub Past : ClaimedApplyJob → Job → Type 0
Past c j = (c.generation < j.claim_generation) ⊎ (is_terminal j.status ≡ true)

Past-refused :
    (c : ClaimedApplyJob) (j : Job) (now : ℕ) (t : Unit {0})
    → Past c j
    → assert_claim j c now ≡ ok t
    → ⊥
Past-refused c j now t p h = let (live, same) = assert_claim-eq-ok j c now t h in ground arith

Past-later : (c : ClaimedApplyJob) (a b : Job) → Advances a b → Past c a → Past c b
Past-later c a b f p = ground arith

module _ (c : ClaimedApplyJob) (db : Db) (j : Job)
    (found : Rows.get job_key c.job_id db.jobs ≡ some j) (past : Past c j) where
  locked_past :
      (rows : Organization × Run × Job) (at : ℕ) (t : Unit {0})
      → lock_job c.job_id db ≡ ok rows
      → assert_claim rows.2 c at ≡ ok t
      → ⊥
  locked_past rows at t h k =
      let e : some j ≡ some rows.2 = sym found ∙ lock_job-eq-ok c.job_id db rows h in
      Past-refused c rows.2 at t
        (subst (λ (o : Job). Past c o) (let q : j ≡ rows.2 = cc e in q) past) k

  heartbeat_past : (now : Moment) (lease : Timedelta) → Fails (heartbeat_apply_job c now lease db)
  unfolding heartbeat_apply_job
  heartbeat_past now lease = never_ok (heartbeat_apply_job c now lease db) (λ x h.
      let (at, h1, h2) = >>=-eq-ok (checked_now now) _ h in
      let (l, h3, h4) = >>=-eq-ok (checked_lease lease) _ h2 in
      let (rows, h5, h6) = >>=-eq-ok (lock_job c.job_id db) _ h4 in
      let (t, h7, h8) = >>=-eq-ok (assert_claim rows.2 c at) _ h6 in locked_past rows at t h5 h7)

  settle_past :
      (failure : Failure) (now : Moment) (soon : Bool)
      → Fails (settle_apply_job_failure c failure now soon db)
  unfolding settle_apply_job_failure
  settle_past failure now soon = never_ok (settle_apply_job_failure c failure now soon db) (λ x h.
      let (at, h1, h2) = >>=-eq-ok (checked_now now) _ h in
      let (rows, h5, h6) = >>=-eq-ok (lock_job c.job_id db) _ h2 in
      let (t, h7, h8) = >>=-eq-ok (assert_claim rows.2 c at) _ h6 in locked_past rows at t h5 h7)

  source_read_past :
      {B : Type 0} (w : Authority) (read : Run → Result B) (now : Moment)
      → Fails (authorize_apply_job_source_read w c read now db)
  unfolding authorize_apply_job_source_read
  source_read_past w read now = never_ok (authorize_apply_job_source_read w c read now db) (λ x h.
      let (at, h1, h2) = >>=-eq-ok (checked_now now) _ h in
      let (rows, h5, h6) = >>=-eq-ok (lock_job c.job_id db) _ h2 in
      let (t, h7, h8) = >>=-eq-ok (assert_claim rows.2 c at) _ h6 in locked_past rows at t h5 h7)

-- The three operations of a worker that holds the claim `c` all raise on `db`.
abbrev pub Powerless : Authority → ClaimedApplyJob → Db → Type 1
Powerless w c db =
    ((now : Moment) (lease : Timedelta) → Fails (heartbeat_apply_job c now lease db))
    × ((failure : Failure) (now : Moment) (soon : Bool)
        → Fails (settle_apply_job_failure c failure now soon db))
    × ((B : Type 0) (read : Run → Result B) (now : Moment)
        → Fails (authorize_apply_job_source_read w c read now db))

-- Once the row of a claim's job has a higher generation than the claim, or has ended, no sequence of
-- operations lets the claim's holder renew it, settle it or read the private workbook again.
pub overtaken-Powerless :
    (w : Authority) (a b : Db) (c : ClaimedApplyJob) (j : Job)
    → Rows.get job_key c.job_id a.jobs ≡ some j
    → Past c j
    → Reach w a b
    → Powerless w c b
overtaken-Powerless w a b c j found past steps =
    let (later, hl, f) = Reach-JobsAdvance w a b steps c.job_id j found in
    let p = Past-later c j later f past in
    (
      heartbeat_past c b later hl p,
      settle_past c b later hl p,
      λ B read now. source_read_past c b later hl p w read now,
    )

-- When `claim_next_apply_job` returns a claim, the job's row records exactly this claim and runs
-- under it; and from then on every older claim of the job, of a lower generation, is powerless,
-- whatever operations follow.
pub grant_fences :
    (w : Authority) (locks : Locks) (owner token : String) (now : Moment) (lease : Timedelta)
    (a b d : Db) (c old : ClaimedApplyJob)
    → claim_next_apply_job w locks owner now lease token a ≡ ok (b, some c)
    → old.job_id ≡ c.job_id
    → old.generation < c.generation
    → Reach w b d
    → Stands c b × Powerless w old d
grant_fences w locks owner token now lease a b d c old h same lower steps =
    let stands = (claim_next-Claimed w owner now lease token a locks b (some c) h).1 in
    (
      stands,
      overtaken-Powerless w b d old stands.row
          (subst (λ k. Rows.get job_key k b.jobs ≡ some stands.row) (sym same) stands.found)
          (inl (let e = stands.same_generation in omega arith)) steps,
    )

-- A job that is completed, failed or cancelled keeps its status, its failures, its checkpoint and
-- its error code, whatever operations follow, and its manifest and its limit of attempts with them.
pub ended_stays_ended :
    (w : Authority) (a b : Db) (k : ℕ) (j : Job)
    → Rows.get job_key k a.jobs ≡ some j
    → is_terminal j.status ≡ true
    → Reach w a b
    → (later : Job) × (Rows.get job_key k b.jobs ≡ some later)
      × (later.status ≡ j.status)
      × (later.failure_count ≡ j.failure_count)
      × (later.next_checkpoint_sequence ≡ j.next_checkpoint_sequence)
      × (later.last_error_code ≡ j.last_error_code)
      × (later.requested_manifest_digest ≡ j.requested_manifest_digest)
      × (later.max_attempts ≡ j.max_attempts)
ended_stays_ended w a b k j found ended steps =
    let (later, hl, f) = Reach-JobsAdvance w a b steps k j found in
    (
      later,
      hl,
      f.ended_status ended,
      f.ended_failures ended,
      f.ended_checkpoint ended,
      f.ended_error ended,
      f.same_digest,
      f.same_limit,
    )
