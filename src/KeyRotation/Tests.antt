-- ===== src/KeyRotation/Tests.antt =====
-- One authenticator under version 1, rotated to version 2; jobs that are claimed; and the versions
-- of a small database.
use mnemex.Base.{ℕ, ◌≡◌, ◌↔◌, refl, false, Option, none, some, [], ◌∷◌, ◌++◌, arith, ok}
use mnemex.Base.Moment.{aware, pos, seconds, checked_now, checked_lease}
use mnemex.Base.Rows
use mnemex.Base.Rows.{Unique, Evolves}
use mnemex.Base.Ordered.{order_by, place}
use mnemex.Keyring.Decimal.{Text, decimal, decimal_in, number, number_from}
use mnemex.Keyring.Model.{
  Bytes, KeyRing, same_bytes, key_of, has_key, contains, normalize, validate_version, all_available,
  from_keys, all_padding, body_then_padding, is_payload, digits_of, after_digits, payload_after_dot,
  version_and_payload, split_ciphertext, ciphertext_version, joined, encrypt_text, decrypt_text,
}
use mnemex.Keyring.Tests.{zeros, unary, plain, first_key}
use mnemex.KeyRotation.Model.{
  Status, Rotation, totp, Authenticator, AuditAction, Db, Settings, ClaimedKeyRotation,
  authenticator_key, mfa_key_ring, checked_limit, clear_claim, audit_rotation, locked_job,
  assert_claim, write,
}
use mnemex.KeyRotation.Queue.{new_rotation, claim_loop}
use mnemex.KeyRotation.Claiming.{Settled, claim_loop-returns}
use mnemex.KeyRotation.Batch.{
  KeyRotationBatchOutcome, is_ascii, authenticator_secret, with_secret, reencrypt_and_verify,
  rotate_each, last_id, advanced_row, batch_outcome, run_mfa_key_rotation_batch,
}
use mnemex.KeyRotation.Retirement.{
  mfa, before_dot, all_digits, sealed_version, authenticator_dependency_count,
  authenticator_versions, rotation_versions, required_key_versions, assert_key_version_retirable,
}
use mnemex.KeyRotation.Blockers.{assert_key_version_retirable_iff}
use mnemex.KeyRotation.Sweep.{SameText}
use mnemex.KeyRotation.Progress.{Swept}
use mnemex.KeyRotation.Completion.{
  run_mfa_key_rotation_batch-Swept, authenticator_dependency_count-run_mfa_key_rotation_batch,
  run_mfa_key_rotation_batch-text,
}

abbrev second_key : Bytes
second_key = 9 ∷ 9 ∷ 3 ∷ 4 ∷ 5 ∷ 6 ∷ 7 ∷ 8 ∷ zeros 24

abbrev settings : Settings
settings = record {
  mfa_keys = (1, first_key) ∷ (2, second_key) ∷ [];
  mfa_active_version = 2;
  notification_keys = [];
  notification_active_version = 1;
  hosted = false;
  mfa_aad = 9 ∷ [];
}

abbrev sealed_under : ℕ → Text
sealed_under v = joined v (unary (zeros 12 ++ (3 ∷ zeros 16)))

abbrev held : ℕ → Authenticator
held v = record { id = 7; type_of = totp; secret = some (sealed_under v); seed = none }

abbrev queued : Rotation
queued = new_rotation 5 1 2 0 4 0

abbrev job : Rotation
job = record queued {
  status = Status.running;
  claim_token = "t";
  claim_owner = "w";
  claim_generation = 1;
  attempt_count = 1;
  heartbeat_at = some 1;
  lease_expires_at = some (seconds 60);
  started_at = some 1;
}

abbrev claim : ClaimedKeyRotation
claim = record { job_id = 4; token = "t"; generation = 1; owner = "w" }

abbrev db_of : Rotation → ℕ → Db
db_of j v = record { rotations = j ∷ []; authenticators = held v ∷ []; recipients = []; audit = [] }

abbrev completed_job : Rotation
completed_job = record job {
  status = Status.completed;
  cursor_authenticator_id = some 7;
  scanned_count = 1;
  processed_count = 1;
  completed_at = some 9;
  claim_token = "";
  claim_owner = "";
  heartbeat_at = none;
  lease_expires_at = none;
}

abbrev after : Db
after = record (db_of completed_job 2) {
  audit = record { action = AuditAction.rotation_completed; target_id = 4; actor_id = 5 } ∷ [];
}

abbrev reported : KeyRotationBatchOutcome
reported = record {
  job_id = 4;
  status = Status.completed;
  scanned_count = 1;
  processed_count = 1;
  cursor_authenticator_id = some 7;
  batch_scanned_count = 1;
  batch_rotated_count = 1;
}

ran :
    run_mfa_key_rotation_batch plain settings
      (λ k. zeros 12)
      claim
      100
      (aware 9)
      (pos (seconds 60))
      (db_of job 1)
    ≡ ok (after, reported)
unfolding run_mfa_key_rotation_batch checked_now checked_limit checked_lease locked_job assert_claim
    mfa_key_ring from_keys normalize validate_version has_key same_bytes key_of all_available
    Rows.get Rows.save order_by place rotate_each authenticator_secret with_secret
    reencrypt_and_verify is_ascii ciphertext_version split_ciphertext version_and_payload digits_of
    after_digits payload_after_dot is_payload body_then_padding all_padding number number_from
    decrypt_text encrypt_text joined decimal decimal_in advanced_row last_id clear_claim write
    audit_rotation batch_outcome new_rotation
ran = refl

run_mfa_key_rotation_batch-Swept_example : Swept (some 7) 1 after.authenticators
unfolding Rows.get new_rotation
run_mfa_key_rotation_batch-Swept_example =
    run_mfa_key_rotation_batch-Swept plain settings (λ k. zeros 12) claim 100 (aware 9)
      (pos (seconds 60)) (db_of job 1) after reported job ran refl (λ e. omega (arith, e)) (tt, tt)
      (λ k a found early. cc early)

authenticator_dependency_count-run_mfa_key_rotation_batch_example :
    authenticator_dependency_count 1 after ≡ 0
unfolding Rows.get new_rotation
authenticator_dependency_count-run_mfa_key_rotation_batch_example =
    authenticator_dependency_count-run_mfa_key_rotation_batch plain settings (λ k. zeros 12) claim
      100 (aware 9) (pos (seconds 60)) (db_of job 1) after reported job ran refl
      (λ e. omega (arith, e)) (tt, tt) (λ k a found early. cc early) refl

run_mfa_key_rotation_batch-text_example :
    (ring : KeyRing) × (mfa_key_ring settings (1 ∷ 2 ∷ []) ≡ ok ring)
    × Evolves authenticator_key (SameText plain ring) (held 1 ∷ []) (held 2 ∷ [])
unfolding Rows.get new_rotation
run_mfa_key_rotation_batch-text_example =
    run_mfa_key_rotation_batch-text plain settings (λ k. zeros 12) claim 100 (aware 9)
      (pos (seconds 60)) (db_of job 1) after reported job ran refl (tt, tt)

-- Claimed by a worker, two minutes later.
claim_loop-returns_example :
    (db' : Db) × (x : Option ClaimedKeyRotation) × (claim_loop
        (λ k. false)
        "v"
        (seconds 120)
        (seconds 60)
        "u"
        2
        (db_of job 1)
      ≡ some (db', x))
    × Settled (λ k. false) "v" (seconds 120) (seconds 60) "u" x db'
unfolding new_rotation
claim_loop-returns_example =
    claim_loop-returns (λ k. false) "v" (seconds 120) (seconds 60) "u" 2 (db_of job 1) (omega arith)
      (tt, tt) (omega arith)

required : required_key_versions (λ p. []) settings mfa (db_of queued 1) ≡ ok (2 ∷ 1 ∷ 1 ∷ 2 ∷ [])
unfolding required_key_versions authenticator_versions rotation_versions sealed_version before_dot
    all_digits number number_from joined decimal decimal_in new_rotation
required = refl

assert_key_version_retirable_iff_example :
    (assert_key_version_retirable (λ p. []) settings mfa 3 (db_of queued 1) ≡ ok tt)
    ↔ (contains 3 (2 ∷ 1 ∷ 1 ∷ 2 ∷ []) ≡ false)
assert_key_version_retirable_iff_example =
    assert_key_version_retirable_iff (λ p. []) settings 3 (omega arith) mfa (db_of queued 1)
      (2 ∷ 1 ∷ 1 ∷ 2 ∷ []) required
