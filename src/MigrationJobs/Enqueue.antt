-- ===== src/MigrationJobs/Enqueue.antt =====
-- The request of an APPLY job (`enqueue_apply_job`), idempotent for one manifest and chunk size.
use Prim.Native.Char.{Char, code}
use mnemex.Base.{
  ℕ, ◌+◌, String, Bool, true, false, not, ◌&&◌, ◌||◌, Option, none, some, List, [], ◌∷◌, ◌++◌,
  str_eq, ltb, leb, ◌==◌, if◌then◌else◌, Result, ok, err, ◌>>=◌, ◌>>◌, guard, or_raise,
  validation_error, select, is_some,
}
use mnemex.Base.Moment.{Moment, checked_now}
use mnemex.Base.Rows
use mnemex.Base.Ordered.{order_by, head?}
use mnemex.Base.Strip.{strip, is_empty, count}
use mnemex.MigrationJobs.Model.{
  Kind, Status, RunState, approved, Job, Run, Db, Authority, run_key, organization_key, is_apply,
  is_terminal, is_withdrawn, authorize,
}
use mnemex.MigrationJobs.Save.{is_clean}

-- `[0-9a-f]`
unfoldable pub is_hex : Char → Bool
is_hex ch = let c = code ch in (leb 48 c && leb c 57) || (leb 97 c && leb c 102)

unfoldable pub all_hex : String → Bool
unfolding is_hex
all_hex String.[] = true
all_hex (String.◌∷◌ c s) = is_hex c && all_hex s

unfoldable pub is_digest : String → Bool
unfolding all_hex count
is_digest s = count s == 64 && all_hex s

-- `ord(character) < 32 and character not in "\r\n\t"`
unfoldable pub has_odd_control : String → Bool
has_odd_control String.[] = false
has_odd_control (String.◌∷◌ c s) =
    (ltb (code c) 32 && not (code c == 13 || (code c == 10 || code c == 9))) || has_odd_control s

unfoldable pub checked_rationale : String → Result String
unfolding strip is_empty count has_odd_control
checked_rationale rationale =
    let normalized = strip rationale in
    if is_empty normalized || ltb 500 (count normalized) || has_odd_control normalized
    then err validation_error
    else ok normalized

-- A request: the run, the approved manifest and the chunk size.
abbrev pub is_apply_of : ℕ → Job → Bool
is_apply_of k j = j.run_id == k && is_apply j.job_kind

abbrev pub same_request : String → ℕ → Job → Bool
same_request digest chunk_size j =
    str_eq j.requested_manifest_digest digest && j.chunk_size == chunk_size

abbrev pub is_completed : Status → Bool
is_completed Status.completed = true
is_completed _ = false

-- Pending, running or waiting to retry.
abbrev pub live_match : ℕ → String → ℕ → Job → Bool
live_match k digest chunk_size j =
    (is_apply_of k j && same_request digest chunk_size j) && not (is_terminal j.status)

abbrev pub completed_match : ℕ → String → ℕ → Job → Bool
completed_match k digest chunk_size j =
    (is_apply_of k j && same_request digest chunk_size j) && is_completed j.status

abbrev pub other_request : ℕ → String → ℕ → Job → Bool
other_request k digest chunk_size j = is_apply_of k j && not (same_request digest chunk_size j)

-- `.order_by("-job_sequence").first()`
unfoldable pub latest : (Job → Bool) → List Job → Option Job
unfolding order_by head?
latest wanted js =
    head? (order_by (λ (a b : Job). ltb b.job_sequence a.job_sequence) (select wanted js))

abbrev pub sequence_of : Option Job → ℕ
sequence_of none = 0
sequence_of (some j) = j.job_sequence

-- Approved, applying, failed or completed.
abbrev pub may_apply : RunState → Bool
may_apply approved = true
may_apply RunState.applying = true
may_apply RunState.failed = true
may_apply RunState.completed = true
may_apply _ = false

abbrev pub run_completed : RunState → Bool
run_completed RunState.completed = true
run_completed _ = false

unfoldable pub new_job : Run → ℕ → String → String → ℕ → ℕ → ℕ → ℕ → ℕ → ℕ → Job
new_job r actor digest rationale chunk_size max_attempts sequence id queued_at created_at = record {
  job_id = id;
  organization_id = r.organization_id;
  run_id = r.run_id;
  job_kind = Kind.apply;
  job_sequence = sequence;
  requested_manifest_digest = digest;
  request_rationale = rationale;
  chunk_size = chunk_size;
  status = Status.pending;
  attempt_count = 0;
  failure_count = 0;
  max_attempts = max_attempts;
  available_at = queued_at;
  claim_token = "";
  claim_owner = "";
  heartbeat_at = none;
  lease_expires_at = none;
  claim_generation = 0;
  next_checkpoint_sequence = 1;
  last_error_code = "";
  last_error_message = "";
  created_by = actor;
  created_at = created_at;
  started_at = none;
  completed_at = none;
}

-- `LegacyMigrationJob.objects.create`: of the checks of `save`, a new row meets only `clean`.
unfoldable pub create_job : Job → Db → Result (Db × Job)
create_job j db = do
  guard (is_clean j) validation_error
  ok (record db { jobs = db.jobs ++ j ∷ [] }, j)

-- The choice among the jobs of a run: the live one of the request, else its completed one, else a
-- new one. `id` and `created_at` are the new row's generated fields.
unfoldable pub choose_job : Run → ℕ → String → ℕ → String → ℕ → ℕ → ℕ → ℕ → Db → Result (Db × Job)
unfolding latest new_job create_job
choose_job r actor digest chunk_size rationale max_attempts queued_at id created_at db =
    elim (latest (live_match r.run_id digest chunk_size) db.jobs) [
      | some existing ↦ ok (db, existing)
      | none ↦ elim (latest (completed_match r.run_id digest chunk_size) db.jobs) [
        | some completed ↦ ok (db, completed)
        | none ↦
            if is_some (latest (other_request r.run_id digest chunk_size) db.jobs)
            then err validation_error
            else if run_completed r.state
            then err validation_error
            else create_job
                (new_job r actor digest rationale chunk_size max_attempts
                  (sequence_of (latest (is_apply_of r.run_id) db.jobs) + 1) id queued_at created_at)
                db
      ]
    ]

-- The checks before the choice: the time, the normalized rationale, and the run as it is now.
unfoldable pub checked_request :
    Authority → ℕ → Run → String → ℕ → String → ℕ → Moment → Db → Result (ℕ × String × Run)
unfolding is_digest checked_rationale authorize
checked_request w actor run digest chunk_size rationale max_attempts now db = do
  queued_at ← checked_now now
  guard (is_digest digest) validation_error
  guard (leb 1 chunk_size && leb chunk_size 250) validation_error
  guard (max_attempts == 5) validation_error
  checked ← checked_rationale rationale
  o ← or_raise (Rows.get organization_key run.organization_id db.organizations) validation_error
  guard o.is_active validation_error
  current ← or_raise (Rows.get run_key run.run_id db.runs) validation_error
  authorize w actor current
  guard (not (is_withdrawn current.state)) validation_error
  guard (w.is_approved current digest) validation_error
  guard (may_apply current.state) validation_error
  ok (queued_at, checked, current)

unfoldable pub enqueue_apply_job :
    Authority → ℕ → Run → String → ℕ → String → ℕ → Moment → ℕ → ℕ → Db → Result (Db × Job)
unfolding checked_request choose_job
enqueue_apply_job w actor run digest chunk_size rationale max_attempts now id created_at db = do
  request ← checked_request w actor run digest chunk_size rationale max_attempts now db
  choose_job request.2 actor digest chunk_size request.1 max_attempts request.0 id created_at db
