-- ===== src/KeyRotation/Queue.antt =====
-- The queue of rotations: request, claim, release and failure.
use mnemex.Base.{
  ℕ, zero, suc, ◌+◌, String, Bool, false, not, ◌&&◌, ◌||◌, Option, none, some, List, [], ◌∷◌, ◌++◌,
  leb, ◌==◌, if◌then◌else◌, is_some, select, Result, ok, ◌>>=◌, ◌>>◌, guard, validation_error,
}
use mnemex.Base.Moment.{Moment, Timedelta, checked_now, checked_lease, retry_delay}
use mnemex.Base.Ordered.{before3, Key3, order_by, head?}
use mnemex.KeyRotation.Model.{
  Status, Rotation, AuditAction, Db, Settings, ClaimedKeyRotation, KeyRotationOutcome, is_running,
  is_active, is_waiting, checked_version, checked_owner, is_error_code, clear_claim, outcome,
  audit_rotation, mfa_key_ring, locked_job, assert_claim, write,
}

abbrev or_zero : Option ℕ → ℕ
or_zero none = 0
or_zero (some t) = t

abbrev lease_ended : Option ℕ → ℕ → Bool
lease_ended none now = false
lease_ended (some l) now = leb l now

unfoldable pub new_rotation : ℕ → ℕ → ℕ → ℕ → ℕ → ℕ → Rotation
new_rotation requested_by source target queued_at id created_at = record {
  rotation_id = id;
  source_key_version = source;
  target_key_version = target;
  status = Status.pending;
  available_at = queued_at;
  cursor_authenticator_id = none;
  scanned_count = 0;
  processed_count = 0;
  attempt_count = 0;
  failure_count = 0;
  max_attempts = 5;
  claim_token = "";
  claim_owner = "";
  claim_generation = 0;
  heartbeat_at = none;
  lease_expires_at = none;
  started_at = none;
  completed_at = none;
  last_error_code = "";
  requested_by = requested_by;
  created_at = created_at;
}

abbrev pub same_request : ℕ → ℕ → Rotation → Bool
same_request source target j =
    j.source_key_version == source && (j.target_key_version == target && is_active j.status)

-- `id` and `created_at` are the new row's generated fields.
unfoldable pub enqueue_mfa_key_rotation :
    Settings → ℕ → ℕ → ℕ → Moment → ℕ → ℕ → Db → Result (Db × Rotation)
unfolding checked_version mfa_key_ring order_by head? new_rotation audit_rotation
enqueue_mfa_key_rotation s requested_by source_version target_version now id created_at db = do
  queued_at ← checked_now now
  source ← checked_version source_version
  target ← checked_version target_version
  guard (not (source == target)) validation_error
  ring ← mfa_key_ring s (source ∷ target ∷ [])
  guard (ring.active_version == target) validation_error
  elim (head? (
      order_by
        (λ (a b : Rotation).
          before3 (a.created_at, a.rotation_id, 0) (b.created_at, b.rotation_id, 0))
        (select (same_request source target) db.rotations))) [
          | some existing ↦ ok (db, existing)
          | none ↦
              let job = new_rotation requested_by source target queued_at id created_at in
              ok (
                record db {
                  rotations = db.rotations ++ job ∷ [];
                  audit = db.audit ++ audit_rotation AuditAction.queued job ∷ [];
                },
                job,
              )
        ]

unfoldable pub claimable : ℕ → Rotation → Bool
claimable now j =
    (is_waiting j.status && leb j.available_at now)
    || (is_running j.status && lease_ended j.lease_expires_at now)

abbrev claim_ready_at : Rotation → ℕ
claim_ready_at j = if is_running j.status then or_zero j.lease_expires_at else j.available_at

abbrev pub claim_key : Rotation → Key3
claim_key j = (claim_ready_at j, j.created_at, j.rotation_id)

-- The first claimable row that no other transaction holds.
unfoldable pub next_claimable : (ℕ → Bool) → ℕ → List Rotation → Option Rotation
unfolding claimable order_by head?
next_claimable locked now rows = head? (
    order_by (λ a b. before3 (claim_key a) (claim_key b))
      (select (λ j. claimable now j && not (locked j.rotation_id)) rows))

-- A row whose last lease ended too.
unfoldable pub exhausted_row : ℕ → Rotation → Rotation
unfolding clear_claim
exhausted_row now j = clear_claim (record j {
  failure_count = j.failure_count + 1;
  status = Status.failed_review;
  completed_at = some now;
  last_error_code = "lease_attempts_exhausted";
})

abbrev pub charged_row : Rotation → Rotation
charged_row j = if is_running j.status then record j { failure_count = j.failure_count + 1 } else j

unfoldable pub claimed_row : String → ℕ → ℕ → String → Rotation → Rotation
claimed_row owner now lease token j = record j {
  status = Status.running;
  attempt_count = j.attempt_count + 1;
  claim_generation = j.claim_generation + 1;
  claim_token = token;
  claim_owner = owner;
  heartbeat_at = some now;
  lease_expires_at = some (now + lease);
  started_at = if is_some j.started_at then j.started_at else some now;
  completed_at = none;
  last_error_code = "";
}

abbrev pub claim_of : String → String → Rotation → ClaimedKeyRotation
claim_of owner token j = record {
  job_id = j.rotation_id;
  token = token;
  generation = j.claim_generation + 1;
  owner = owner;
}

-- The row is one whose last lease ended: the loop goes on without it.
abbrev pub is_exhausted : Rotation → Bool
is_exhausted j = is_running j.status && leb j.max_attempts (j.failure_count + 1)

module _ (locked : ℕ → Bool) (owner : String) (now lease : ℕ) (token : String) where
  -- The `while True` loop on fuel: none where the fuel ran out. Each round but the last one ends a
  -- job. The token is the one that is drawn in the last round.
  unfoldable pub claim_loop : ℕ → Db → Option (Db × Option ClaimedKeyRotation)
  unfolding next_claimable exhausted_row claimed_row write audit_rotation
  claim_loop zero db = none
  claim_loop (suc fuel) db = elim (next_claimable locked now db.rotations) [
    | none ↦ some (db, none)
    | some j ↦
        let rest = claim_loop fuel (
          write (exhausted_row now j) (audit_rotation AuditAction.review (exhausted_row now j) ∷ [])
            db) in
        if is_exhausted j
        then rest
        else some (
          write (claimed_row owner now lease token (charged_row j)) [] db,
          some (claim_of owner token j),
        )
  ]

unfoldable pub claim_next_key_rotation :
    (ℕ → Bool)
    → String
    → Moment
    → Timedelta
    → String
    → ℕ
    → Db
    → Result (Option (Db × Option ClaimedKeyRotation))
unfolding claim_loop checked_owner
claim_next_key_rotation locked owner now lease_duration token fuel db = do
  at ← checked_now now
  checked ← checked_owner owner
  lease ← checked_lease lease_duration
  ok (claim_loop locked checked at lease token fuel db)

unfoldable pub released_row : ℕ → Rotation → Rotation
unfolding clear_claim
released_row now j = clear_claim (record j {
  status = Status.pending;
  available_at = now;
  last_error_code = "graceful_shutdown";
})

unfoldable pub release_key_rotation_claim :
    ClaimedKeyRotation → Moment → Db → Result (Db × KeyRotationOutcome)
unfolding locked_job assert_claim released_row write outcome
release_key_rotation_claim c now db = do
  at ← checked_now now
  job ← locked_job c.job_id db
  assert_claim job c at
  ok (write (released_row at job) [] db, outcome (released_row at job))

unfoldable pub failed_row : String → ℕ → Rotation → Rotation
unfolding clear_claim
failed_row error_code now j =
    let failures = j.failure_count + 1 in
    clear_claim (
      if leb j.max_attempts failures
      then record j {
        failure_count = failures;
        last_error_code = error_code;
        status = Status.failed_review;
        completed_at = some now;
      }
      else record j {
        failure_count = failures;
        last_error_code = error_code;
        status = Status.retry_wait;
        available_at = now + retry_delay false failures;
      })

abbrev failure_action : Status → AuditAction
failure_action Status.failed_review = AuditAction.review
failure_action _ = AuditAction.retry_scheduled

unfoldable pub settle_key_rotation_failure :
    ClaimedKeyRotation → String → Moment → Db → Result (Db × KeyRotationOutcome)
unfolding is_error_code locked_job assert_claim failed_row write outcome audit_rotation
settle_key_rotation_failure c error_code now db = do
  at ← checked_now now
  guard (is_error_code error_code) validation_error
  job ← locked_job c.job_id db
  assert_claim job c at
  let settled = failed_row error_code at job
  ok (
    write settled (audit_rotation (failure_action settled.status) settled ∷ []) db,
    outcome settled,
  )
