-- ===== src/MigrationJobs/Tests.antt =====
-- Runs of the migration queue at concrete inputs.
use mnemex.Base.{
  ◌+◌, inl, String, ◌≡◌, refl, true, false, none, some, [], ◌∷◌, arith, ok, claim_lost,
  if◌then◌else◌,
}
use mnemex.Base.Moment.{Timedelta, aware, checked_now, checked_lease}
use mnemex.Base.Rows
use mnemex.Base.Ordered.{order_by, place, head?}
use mnemex.Base.Strip.{is_empty, strip, count, has_control}
use mnemex.MigrationJobs.Model.{
  Kind, Status, RunState, Job, Run, Organization, Db, ClaimedApplyJob, Authority, job_key, run_key,
  is_running, is_terminal, checked_owner, lock_job, assert_claim, outcome, clear_claim, authorize,
}
use mnemex.MigrationJobs.Save.{
  is_clean, save_job, save_run, is_legal, may_become, same_provenance, counters_advance,
}
use mnemex.MigrationJobs.Claims.{
  claimed_job, fail_run, apply_run, is_due, take_job, claim_locked_job, claimable,
  expired_exhausted, claim_ready_at, rank_all, rank_job, candidate_organization_ids,
}
use mnemex.MigrationJobs.Queue.{
  Locks, with_run, next_in_organization, terminalize_in, terminalize_one_expired_exhausted,
  claim_in, claim_next_apply_job,
}
use mnemex.MigrationJobs.Enqueue.{
  is_digest, checked_rationale, latest, new_job, create_job, choose_job, checked_request,
  enqueue_apply_job,
}
use mnemex.MigrationJobs.Settle.{
  beaten_job, heartbeat_apply_job, graceful_stop, raised, settled_job, ends_job,
  settle_apply_job_failure, cancelled_job, cancel_apply_job,
}
use mnemex.MigrationJobs.Legal.{IsValid, charged}
use mnemex.MigrationJobs.Grants.{Stands}
use mnemex.MigrationJobs.Reach.{done, next, cancel}
use mnemex.MigrationJobs.Finality.{Powerless, overtaken-Powerless, grant_fences, ended_stays_ended}
use mnemex.MigrationJobs.Outcomes.{
  Held, written, heartbeat_apply_renews, settle_apply_job_failure-Held, graceful_stop_is_free,
  cancel_apply_job-live,
}
use mnemex.MigrationJobs.Takeover.{claim_on, claim_locked_job-takeover, claim_locked_job-exhausted}
use mnemex.MigrationJobs.Requests.{enqueue_apply_job-again}

abbrev digest : String
digest = "0123456789abcdef0123456789abcdef0123456789abcdef0123456789abcdef"

abbrev queued : Job
queued = record {
  job_id = 11;
  organization_id = 1;
  run_id = 5;
  job_kind = Kind.apply;
  job_sequence = 1;
  requested_manifest_digest = digest;
  request_rationale = "approved";
  chunk_size = 100;
  status = Status.pending;
  attempt_count = 0;
  failure_count = 0;
  max_attempts = 5;
  available_at = 50;
  claim_token = "";
  claim_owner = "";
  heartbeat_at = none;
  lease_expires_at = none;
  claim_generation = 0;
  next_checkpoint_sequence = 1;
  last_error_code = "";
  last_error_message = "";
  created_by = 3;
  created_at = 60;
  started_at = none;
  completed_at = none;
}

abbrev bulk : Run
bulk = record {
  run_id = 5;
  organization_id = 1;
  state = RunState.approved;
  dry_run_manifest_digest = digest;
}

abbrev partner : Organization
partner = record { organization_id = 1; is_active = true }

abbrev empty_db : Db
empty_db = record { organizations = partner ∷ []; runs = bulk ∷ []; jobs = [] }

abbrev queued_db : Db
queued_db = record empty_db { jobs = queued ∷ [] }

abbrev anyone : Authority
anyone = record { may_manage = λ _ _. true; is_approved = λ _ _. true }

abbrev no_locks : Locks
no_locks = record { organization = λ _. false; job = λ _. false }

abbrev five_minutes : Timedelta
five_minutes = Timedelta.pos 300_000_000

abbrev running : Job
running = record queued {
  status = Status.running;
  attempt_count = 1;
  claim_generation = 1;
  claim_token = "t1";
  claim_owner = "w1";
  heartbeat_at = some 200;
  lease_expires_at = some 300_000_200;
  started_at = some 200;
}

abbrev running_db : Db
running_db = record {
  organizations = partner ∷ [];
  runs = record bulk { state = RunState.applying } ∷ [];
  jobs = running ∷ [];
}

abbrev first_claim : ClaimedApplyJob
first_claim = record { job_id = 11; token = "t1"; generation = 1; owner = "w1" }

abbrev old_claim : ClaimedApplyJob
old_claim = record { job_id = 11; token = "t0"; generation = 0; owner = "w0" }

enqueued :
    enqueue_apply_job anyone 3 bulk digest 100 " approved " 5 (aware 50) 11 60 empty_db
    ≡ ok (queued_db, queued)
unfolding enqueue_apply_job checked_request checked_now is_digest checked_rationale strip is_empty
    count authorize choose_job latest order_by place head? new_job create_job is_clean Rows.get
enqueued = refl

enqueue_apply_job-again_example :
    enqueue_apply_job anyone 3 bulk digest 100 " approved " 5 (aware 50) 12 70 queued_db
    ≡ ok (queued_db, queued)
enqueue_apply_job-again_example =
    enqueue_apply_job-again anyone 3 bulk digest 100 " approved " 5 (aware 50) 11 60 12 70 empty_db
      queued_db queued enqueued

claimed :
    claim_next_apply_job anyone no_locks " w1 " (aware 200) five_minutes "t1" queued_db
    ≡ ok (running_db, some first_claim)
unfolding claim_next_apply_job checked_now checked_owner checked_lease strip is_empty count
    has_control terminalize_one_expired_exhausted terminalize_in expired_exhausted
    candidate_organization_ids rank_all rank_job order_by place head? claim_in claimable
    next_in_organization with_run claim_locked_job is_due take_job claimed_job save_job apply_run
    save_run Rows.get Rows.save claim_ready_at is_clean is_legal same_provenance may_become
    counters_advance
claimed = refl

grant_fences_example : Stands first_claim running_db × Powerless anyone old_claim running_db
grant_fences_example =
    grant_fences anyone no_locks " w1 " "t1" (aware 200) five_minutes queued_db running_db
      running_db first_claim old_claim claimed refl (omega arith) done

overtaken-Powerless_example : Powerless anyone old_claim running_db
unfolding Rows.get
overtaken-Powerless_example =
    overtaken-Powerless anyone running_db running_db old_claim running refl (inl (omega arith)) done

running-IsValid : IsValid running
unfolding is_clean strip is_empty
running-IsValid = record { clean = refl; attempts_left = λ _. omega arith }

held : Held first_claim 400 running_db
unfolding lock_job assert_claim Rows.get
held = record {
  rows = (partner, record bulk { state = RunState.applying }, running);
  locked = refl;
  accepted = refl;
  valid = running-IsValid;
}

heartbeat_apply_renews_example :
    (heartbeat_apply_job first_claim (aware 400) five_minutes running_db
      ≡ ok (
        written (beaten_job 400 300_000_000 running) running_db,
        outcome (beaten_job 400 300_000_000 running),
      ))
    × IsValid (beaten_job 400 300_000_000 running)
    × (assert_claim (beaten_job 400 300_000_000 running) first_claim 300_000_399 ≡ ok tt)
unfolding checked_lease held
heartbeat_apply_renews_example =
    heartbeat_apply_renews first_claim 400 300_000_000 300_000_399 five_minutes running_db held refl
      (omega arith)

settle_apply_job_failure-Held_example :
    (settle_apply_job_failure first_claim (raised claim_lost) (aware 400) false running_db
      ≡ ok (
        written (settled_job (raised claim_lost) 400 false running) (
            if ends_job (raised claim_lost) running
            then fail_run (record bulk { state = RunState.applying }) running_db
            else running_db),
        outcome (settled_job (raised claim_lost) 400 false running),
      ))
    × IsValid (settled_job (raised claim_lost) 400 false running)
    × (is_running (settled_job (raised claim_lost) 400 false running).status ≡ false)
unfolding held
settle_apply_job_failure-Held_example =
    settle_apply_job_failure-Held first_claim (raised claim_lost) 400 false running_db held

graceful_stop_is_free_example :
    ((settled_job graceful_stop 400 false running).status ≡ Status.retry_wait)
    × ((settled_job graceful_stop 400 false running).failure_count ≡ 0)
    × ((settled_job graceful_stop 400 false running).available_at ≡ 400)
graceful_stop_is_free_example = graceful_stop_is_free 400 false running running-IsValid refl

cancel_apply_job-live_example : is_terminal (cancelled_job 400 running).status ≡ true
unfolding lock_job Rows.get
cancel_apply_job-live_example =
    (cancel_apply_job-live anyone 3 11 400 running_db
      (partner, record bulk { state = RunState.applying }, running) refl refl running-IsValid
      refl).2

-- The cancelled job, after one more cancellation of it.
abbrev cancelled_db : Db
cancelled_db = written (cancelled_job 400 queued) queued_db

again :
    cancel_apply_job anyone 3 11 (aware 500) cancelled_db
    ≡ ok (cancelled_db, outcome (cancelled_job 400 queued))
unfolding cancel_apply_job checked_now lock_job authorize cancelled_job clear_claim Rows.get
    Rows.save
again = refl

ended_stays_ended_example :
    (later : Job) × (Rows.get job_key 11 cancelled_db.jobs ≡ some later)
    × (later.status ≡ Status.cancelled)
    × (later.failure_count ≡ 0)
    × (later.next_checkpoint_sequence ≡ 1)
    × (later.last_error_code ≡ "operator_cancelled")
    × (later.requested_manifest_digest ≡ digest)
    × (later.max_attempts ≡ 5)
unfolding Rows.get Rows.save cancelled_job clear_claim
ended_stays_ended_example =
    ended_stays_ended anyone cancelled_db cancelled_db 11 (cancelled_job 400 queued) refl refl
      (next (cancel 3 11 (aware 500) (outcome (cancelled_job 400 queued)) again) done)

abbrev applying : Run
applying = record bulk { state = RunState.applying }

claim_locked_job-takeover_example :
    claim_locked_job anyone partner applying running "w2" 400_000_000 300_000_000 false "t2"
      running_db
    ≡ ok (
      apply_run applying
          (written (claimed_job "w2" 400_000_000 300_000_000 "t2" (charged running)) running_db),
      some (claim_on running "w2" "t2"),
    )
unfolding Rows.get is_due is_empty
claim_locked_job-takeover_example =
    claim_locked_job-takeover anyone partner applying running "w2" "t2" 400_000_000 300_000_000
      false running_db
      (record {
        stored = refl;
        valid = running-IsValid;
        due = refl;
        not_withdrawn = refl;
        active = refl;
        authorized = refl;
        approved = refl;
      })
      (record { owner_given = refl; token_given = refl; token_new = refl }) (omega arith) refl
      (omega arith)

-- The running job after four failures.
abbrev tired : Job
tired = record running { failure_count = 4 }

abbrev tired_db : Db
tired_db = record running_db { jobs = tired ∷ [] }

tired-IsValid : IsValid tired
unfolding is_clean strip is_empty
tired-IsValid = record { clean = refl; attempts_left = λ _. omega arith }

claim_locked_job-exhausted_example :
    (db' : Db) × (claim_locked_job anyone partner applying tired "w2" 400_000_000 300_000_000 false
        "t2" tired_db
      ≡ ok (db', none))
    × (Rows.get job_key 11 db'.jobs
        ≡ some (record tired {
          status = Status.failed;
          failure_count = 4 + 1;
          claim_token = "";
          claim_owner = "";
          heartbeat_at = none;
          lease_expires_at = none;
          completed_at = some 400_000_000;
          last_error_code = "attempts_exhausted";
          last_error_message = "expired worker leases exhausted; operator review is required";
        }))
    × (Rows.get run_key 5 db'.runs ≡ some (record applying { state = RunState.failed }))
unfolding Rows.get is_due
claim_locked_job-exhausted_example =
    claim_locked_job-exhausted anyone partner applying tired "w2" "t2" 400_000_000 300_000_000 false
      tired_db
      (record {
        stored = refl;
        valid = tired-IsValid;
        due = refl;
        not_withdrawn = refl;
        active = refl;
        authorized = refl;
        approved = refl;
      })
      refl refl (omega arith)
