-- ===== src/KeyRotation/Batch.antt =====
-- One batch of a rotation (`run_mfa_key_rotation_batch`): the authenticators after the cursor, in the
-- order of their keys, each sealed again if it stands under the source version.
use mnemex.Base.{
  ℕ, suc, ◌+◌, Bool, true, ◌&&◌, Option, none, some, List, [], ◌∷◌, ltb, ◌==◌, if◌then◌else◌,
  length, Result, ok, ◌>>=◌, ◌>>◌, guard, or_raise, value_error, type_error,
}
use mnemex.Base.Moment.{Moment, Timedelta, checked_now, checked_lease}
use mnemex.Base.Rows
use mnemex.Base.Query.{page}
use mnemex.Keyring.Decimal.{Text}
use mnemex.Keyring.Model.{
  Bytes, Cipher, KeyRing, same_bytes, ciphertext_version, encrypt_text, decrypt_text,
}
use mnemex.KeyRotation.Model.{
  Status, Rotation, AuthenticatorType, totp, recovery_codes, other, Authenticator, AuditAction, Db,
  Settings, ClaimedKeyRotation, authenticator_key, is_mfa, checked_limit, clear_claim,
  audit_rotation, mfa_key_ring, locked_job, assert_claim, write,
}

-- What a batch reports, beside the outcome of the job.
pub record KeyRotationBatchOutcome : Type 0 where
  pub job_id : ℕ
  pub status : Status
  pub scanned_count : ℕ
  pub processed_count : ℕ
  pub cursor_authenticator_id : Option ℕ
  pub batch_scanned_count : ℕ
  pub batch_rotated_count : ℕ

abbrev pub sealed_field : AuthenticatorType → Authenticator → Option Text
sealed_field totp a = a.secret
sealed_field recovery_codes a = a.seed
sealed_field other a = none

-- `_authenticator_secret`: the ciphertext; the field goes by the type.
unfoldable pub authenticator_secret : Authenticator → Result Text
authenticator_secret a = or_raise (sealed_field a.type_of a) value_error

-- `data[field] = replacement`
abbrev pub replaced_field : AuthenticatorType → Text → Authenticator → Authenticator
replaced_field totp t a = record a { secret = some t }
replaced_field recovery_codes t a = record a { seed = some t }
replaced_field other t a = a

unfoldable pub with_secret : Text → Authenticator → Authenticator
with_secret t a = replaced_field a.type_of t a

-- `hmac.compare_digest` takes no other texts.
unfoldable pub is_ascii : Text → Bool
is_ascii [] = true
is_ascii (c ∷ s) = ltb c 128 && is_ascii s

-- `_reencrypt_and_verify`; a failed verification is a `ValueError`, as a `KeyRingError` is.
unfoldable pub reencrypt_and_verify : Cipher → KeyRing → Bytes → Text → ℕ → ℕ → Result (Option Text)
unfolding ciphertext_version decrypt_text encrypt_text same_bytes is_ascii
reencrypt_and_verify z ring nonce ciphertext source target = do
  current ← ciphertext_version ciphertext
  if current == source
      then (do
        decrypted ← decrypt_text z ring ciphertext
        replacement ← encrypt_text z ring nonce decrypted.plaintext
        verified ← decrypt_text z ring replacement
        guard (verified.key_version == target) value_error
        guard (is_ascii verified.plaintext && is_ascii decrypted.plaintext) type_error
        guard (same_bytes verified.plaintext decrypted.plaintext) value_error
        ok (some replacement))
      else ok none

abbrev pub after_cursor : Option ℕ → Authenticator → Bool
after_cursor none a = true
after_cursor (some c) a = ltb c a.id

abbrev pub in_scope : Option ℕ → Authenticator → Bool
in_scope cursor a = is_mfa a.type_of && after_cursor cursor a

-- The table with the replacement, if there is one.
abbrev pub stored : Option Text → Authenticator → List Authenticator → List Authenticator
stored none a table = table
stored (some t) a table = Rows.save authenticator_key (with_secret t a) table

abbrev pub counted : Option Text → ℕ → ℕ
counted none n = n
counted (some t) n = suc n

module _ (z : Cipher) (ring : KeyRing) (nonce : ℕ → Bytes) (source target : ℕ) where
  -- The loop over the batch, with the table and the count of what was rotated. `nonce` is what
  -- `os.urandom` draws for the authenticator of a key.
  unfoldable pub rotate_each :
      List Authenticator → List Authenticator → ℕ → Result (List Authenticator × ℕ)
  unfolding authenticator_secret with_secret reencrypt_and_verify
  rotate_each [] table rotated = ok (table, rotated)
  rotate_each (a ∷ batch) table rotated = do
    ciphertext ← authenticator_secret a
    replacement ← reencrypt_and_verify z ring (nonce a.id) ciphertext source target
    rotate_each batch (stored replacement a table) (counted replacement rotated)

-- `job.cursor_authenticator_id = authenticator.pk` in every round.
unfoldable pub last_id : Option ℕ → List Authenticator → Option ℕ
last_id cursor [] = cursor
last_id cursor (a ∷ batch) = last_id (some a.id) batch

unfoldable pub advanced_row : ℕ → ℕ → ℕ → List Authenticator → ℕ → Rotation → Rotation
unfolding last_id clear_claim
advanced_row now lease limit batch rotated j =
    let moved = record j {
      cursor_authenticator_id = last_id j.cursor_authenticator_id batch;
      scanned_count = j.scanned_count + length batch;
      processed_count = j.processed_count + rotated;
      heartbeat_at = some now;
      lease_expires_at = some (now + lease);
    } in
    if ltb (length batch) limit
    then clear_claim (record moved { status = Status.completed; completed_at = some now })
    else moved

abbrev pub batch_action : Status → AuditAction
batch_action Status.completed = AuditAction.rotation_completed
batch_action _ = AuditAction.batch_committed

unfoldable pub batch_outcome : Rotation → ℕ → ℕ → KeyRotationBatchOutcome
batch_outcome j scanned rotated = record {
  job_id = j.rotation_id;
  status = j.status;
  scanned_count = j.scanned_count;
  processed_count = j.processed_count;
  cursor_authenticator_id = j.cursor_authenticator_id;
  batch_scanned_count = scanned;
  batch_rotated_count = rotated;
}

-- The batch of a job: at most `limit` authenticators after its cursor.
abbrev pub batch_of : ℕ → Rotation → Db → List Authenticator
batch_of limit j db =
    page authenticator_key limit (in_scope j.cursor_authenticator_id) db.authenticators

module _ (z : Cipher) (s : Settings) (nonce : ℕ → Bytes) where
  unfoldable pub run_mfa_key_rotation_batch :
      ClaimedKeyRotation → ℕ → Moment → Timedelta → Db → Result (Db × KeyRotationBatchOutcome)
  unfolding checked_limit locked_job assert_claim mfa_key_ring rotate_each advanced_row write
      audit_rotation batch_outcome
  run_mfa_key_rotation_batch c limit now lease_duration db = do
    at ← checked_now now
    most ← checked_limit limit 500
    lease ← checked_lease lease_duration
    job ← locked_job c.job_id db
    assert_claim job c at
    ring ← mfa_key_ring s (job.source_key_version ∷ job.target_key_version ∷ [])
    guard (ring.active_version == job.target_key_version) value_error
    let batch = batch_of most job db
    done ←
        rotate_each z ring nonce job.source_key_version job.target_key_version batch
          db.authenticators 0
    let moved = advanced_row at lease most batch done.1 job
    ok (
      write moved (audit_rotation (batch_action moved.status) moved ∷ [])
          (record db { authenticators = done.0 }),
      batch_outcome moved (length batch) done.1,
    )
