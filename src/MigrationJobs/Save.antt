-- ===== src/MigrationJobs/Save.antt =====
-- What `LegacyMigrationJob.save` lets through: `clean`, the immutable provenance, the table of status
-- transitions, the counters, and the evidence of an ended job.
use mnemex.Base.{
  ℕ, ◌+◌, Bool, true, false, not, ◌&&◌, ◌||◌, Option, none, some, str_eq, ltb, leb, ◌==◌,
  if◌then◌else◌, is_some, Result, ok, guard, ◌>>=◌, ◌>>◌, or_raise, validation_error,
  permission_denied,
}
use mnemex.Base.Rows
use mnemex.Base.Strip.{is_empty, strip}
use mnemex.MigrationJobs.Model.{
  Kind, dry_run, apply, reconcile, withdraw, Status, pending, running, retry_wait, cancelled, Job,
  Run, Db, job_key, run_key, is_apply, is_running, is_terminal,
}

abbrev pub same_time : Option ℕ → Option ℕ → Bool
same_time none none = true
same_time (some a) (some b) = a == b
same_time _ _ = false

abbrev pub same_kind : Kind → Kind → Bool
same_kind dry_run dry_run = true
same_kind apply apply = true
same_kind reconcile reconcile = true
same_kind withdraw withdraw = true
same_kind _ _ = false

-- The lease of a running job ends after its heartbeat.
abbrev pub lease_follows : Option ℕ → Option ℕ → Bool
lease_follows (some beat) (some ends) = ltb beat ends
lease_follows _ _ = false

-- `clean`, but for the organization of the run, which no operation changes.
unfoldable pub is_clean : Job → Bool
is_clean j =
    (not (is_apply j.job_kind) || not (is_empty j.requested_manifest_digest))
    && ((not (is_apply j.job_kind) || not (is_empty (strip j.request_rationale)))
        && ((leb 1 j.chunk_size && leb j.chunk_size 250)
            && (leb j.failure_count j.max_attempts
                && (j.attempt_count == j.claim_generation
                    && (if is_running j.status
                        then not (is_empty j.claim_token)
                          && (not (is_empty j.claim_owner)
                              && lease_follows j.heartbeat_at j.lease_expires_at)
                        else is_empty j.claim_token
                          && (is_empty j.claim_owner
                              && (not (is_some j.heartbeat_at)
                                  && not (is_some j.lease_expires_at))))))))

-- The table of transitions.
unfoldable pub may_become : Status → Status → Bool
may_become pending pending = true
may_become pending running = true
may_become pending Status.failed = true
may_become pending cancelled = true
may_become running running = true
may_become running retry_wait = true
may_become running Status.completed = true
may_become running Status.failed = true
may_become running cancelled = true
may_become retry_wait retry_wait = true
may_become retry_wait running = true
may_become retry_wait Status.failed = true
may_become retry_wait cancelled = true
may_become Status.completed Status.completed = true
may_become Status.failed Status.failed = true
may_become cancelled cancelled = true
may_become _ _ = false

unfoldable pub same_provenance : Job → Job → Bool
same_provenance a b =
    a.organization_id == b.organization_id
    && (a.run_id == b.run_id
        && (same_kind a.job_kind b.job_kind
            && (a.job_sequence == b.job_sequence
                && (str_eq a.requested_manifest_digest b.requested_manifest_digest
                    && (str_eq a.request_rationale b.request_rationale
                        && (a.chunk_size == b.chunk_size
                            && (a.max_attempts == b.max_attempts
                                && a.created_by == b.created_by)))))))

-- A claim advances attempt and generation exactly once, and nothing else does.
unfoldable pub counters_advance : Job → Job → Bool
counters_advance current j =
    (leb current.attempt_count j.attempt_count
      && (leb current.claim_generation j.claim_generation
          && leb current.failure_count j.failure_count))
    && ((if is_running j.status
            && (not (is_running current.status) || not (str_eq j.claim_token current.claim_token))
          then j.attempt_count == current.attempt_count + 1
            && j.claim_generation == current.claim_generation + 1
          else j.attempt_count == current.attempt_count
            && j.claim_generation == current.claim_generation)
        && leb j.failure_count (current.failure_count + 1))

-- The operational fields of an ended job, its status and counters apart.
unfoldable pub same_evidence : Job → Job → Bool
same_evidence a b =
    a.available_at == b.available_at
    && (str_eq a.claim_token b.claim_token
        && (str_eq a.claim_owner b.claim_owner
            && (same_time a.heartbeat_at b.heartbeat_at
                && (same_time a.lease_expires_at b.lease_expires_at
                    && (a.failure_count == b.failure_count
                        && (a.next_checkpoint_sequence == b.next_checkpoint_sequence
                            && (str_eq a.last_error_code b.last_error_code
                                && (str_eq a.last_error_message b.last_error_message
                                    && (same_time a.started_at b.started_at
                                        && same_time a.completed_at b.completed_at)))))))))

unfoldable pub is_legal : Job → Job → Bool
is_legal current j =
    same_provenance j current
    && (may_become current.status j.status
        && (counters_advance current j
            && (not (is_terminal current.status) || same_evidence j current)))

-- `LegacyMigrationJob.save`. Of `full_clean` only `clean` is modelled: the validators of single fields
-- (the form of a digest and of a token, the lengths of texts) and the uniqueness of an active request
-- are left out.
unfoldable pub save_job : Job → Db → Result Db
save_job j db = do
  guard (is_clean j) validation_error
  current ← or_raise (Rows.get job_key j.job_id db.jobs) permission_denied
  guard (is_legal current j) permission_denied
  ok (record db { jobs = Rows.save job_key j db.jobs })

-- `LegacyMigrationRun.save` of a run of which only the state changed: its checks of the immutable
-- provenance pass.
unfoldable pub save_run : Run → Db → Db
save_run r db = record db { runs = Rows.save run_key r db.runs }
