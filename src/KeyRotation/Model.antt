-- ===== src/KeyRotation/Model.antt =====
-- The rows (EncryptionKeyRotationJob of mnemex/accounts/models.py, the authenticators of the MFA
-- library, the settings) and the helpers of mnemex/accounts/key_rotation.py.
use mnemex.Base.{
  ℕ, String, Bool, true, false, ◌&&◌, ◌||◌, Option, none, some, List, ◌++◌, str_eq, ltb, leb, ◌==◌,
  if◌then◌else◌, Result, ok, err, guard, or_raise, validation_error, claim_lost,
}
use mnemex.Base.Rows
use mnemex.Base.Strip.{strip, is_empty, count, has_control, is_code}
use mnemex.Keyring.Decimal.{Text}
use mnemex.Keyring.Model.{Bytes, KeyRing, from_keys}

pub data Status : Type 0 where
  pending running retry_wait completed failed_review : Status

-- An EncryptionKeyRotationJob; its purpose is always MFA.
pub record Rotation : Type 0 where
  pub rotation_id : ℕ
  pub source_key_version : ℕ
  pub target_key_version : ℕ
  pub status : Status
  pub available_at : ℕ
  pub cursor_authenticator_id : Option ℕ
  pub scanned_count : ℕ
  pub processed_count : ℕ
  pub attempt_count : ℕ
  pub failure_count : ℕ
  pub max_attempts : ℕ
  pub claim_token : String
  pub claim_owner : String
  pub claim_generation : ℕ
  pub heartbeat_at : Option ℕ
  pub lease_expires_at : Option ℕ
  pub started_at : Option ℕ
  pub completed_at : Option ℕ
  pub last_error_code : String
  pub requested_by : ℕ
  pub created_at : ℕ

pub data AuthenticatorType : Type 0 where
  totp recovery_codes other : AuthenticatorType

-- An authenticator of the MFA library; `secret` and `seed` are the texts under these keys of its
-- data, none where the key is missing or its value is no text.
pub record Authenticator : Type 0 where
  pub id : ℕ
  pub type_of : AuthenticatorType
  pub secret : Option Text
  pub seed : Option Text

-- A row of the notification queue as far as the retirement of a key reads it.
pub record SealedRecipient : Type 0 where
  pub recipient_ciphertext : String
  pub encryption_key_version : ℕ

pub data AuditAction : Type 0 where
  queued batch_committed rotation_completed review retry_scheduled : AuditAction

pub record AuditEvent : Type 0 where
  pub action : AuditAction
  pub target_id : ℕ
  pub actor_id : ℕ

pub record Db : Type 0 where
  pub rotations : List Rotation
  pub authenticators : List Authenticator
  pub recipients : List SealedRecipient
  pub audit : List AuditEvent

-- The settings of the two rings: the keys by version and the active version.
pub record Settings : Type 0 where
  pub mfa_keys : List (ℕ × Bytes)
  pub mfa_active_version : ℕ
  pub notification_keys : List (ℕ × Bytes)
  pub notification_active_version : ℕ
  pub hosted : Bool
  pub mfa_aad : Bytes

pub record ClaimedKeyRotation : Type 0 where
  pub job_id : ℕ
  pub token : String
  pub generation : ℕ
  pub owner : String

pub record KeyRotationOutcome : Type 0 where
  pub job_id : ℕ
  pub status : Status
  pub scanned_count : ℕ
  pub processed_count : ℕ
  pub cursor_authenticator_id : Option ℕ

abbrev pub rotation_key : Rotation → ℕ
rotation_key j = j.rotation_id

abbrev pub authenticator_key : Authenticator → ℕ
authenticator_key a = a.id

abbrev pub is_running : Status → Bool
is_running running = true
is_running _ = false

-- `_ACTIVE_STATUSES`
abbrev pub is_active : Status → Bool
is_active pending = true
is_active running = true
is_active retry_wait = true
is_active _ = false

abbrev pub is_waiting : Status → Bool
is_waiting pending = true
is_waiting retry_wait = true
is_waiting _ = false

abbrev pub is_mfa : AuthenticatorType → Bool
is_mfa totp = true
is_mfa recovery_codes = true
is_mfa other = false

unfoldable pub checked_version : ℕ → Result ℕ
checked_version v = if ltb v 1 then err validation_error else ok v

unfoldable pub checked_owner : String → Result String
checked_owner owner =
    let normalized = strip owner in
    if is_empty normalized || (ltb 120 (count normalized) || has_control normalized)
    then err validation_error
    else ok normalized

unfoldable pub checked_limit : ℕ → ℕ → Result ℕ
checked_limit limit maximum =
    if leb 1 limit && leb limit maximum then ok limit else err validation_error

-- `^[a-z][a-z0-9_]{0,63}$`
unfoldable pub is_error_code : String → Bool
unfolding is_code
is_error_code s = is_code 64 s

unfoldable pub clear_claim : Rotation → Rotation
clear_claim j = record j {
  claim_token = "";
  claim_owner = "";
  heartbeat_at = none;
  lease_expires_at = none;
}

unfoldable pub outcome : Rotation → KeyRotationOutcome
outcome j = record {
  job_id = j.rotation_id;
  status = j.status;
  scanned_count = j.scanned_count;
  processed_count = j.processed_count;
  cursor_authenticator_id = j.cursor_authenticator_id;
}

unfoldable pub audit_rotation : AuditAction → Rotation → AuditEvent
audit_rotation action j = record {
  action = action;
  target_id = j.rotation_id;
  actor_id = j.requested_by;
}

-- `mfa_key_ring(required_versions=...)`
unfoldable pub mfa_key_ring : Settings → List ℕ → Result KeyRing
unfolding from_keys
mfa_key_ring s required = from_keys s.mfa_keys s.mfa_active_version s.mfa_aad required s.hosted

unfoldable pub locked_job : ℕ → Db → Result Rotation
locked_job k db = or_raise (Rows.get rotation_key k db.rotations) claim_lost

abbrev pub lease_after : Option ℕ → ℕ → Bool
lease_after none now = false
lease_after (some l) now = ltb now l

unfoldable pub assert_claim : Rotation → ClaimedKeyRotation → ℕ → Result (Unit {0})
assert_claim j c now =
    guard
      (is_running j.status
        && (str_eq j.claim_token c.token
            && (str_eq j.claim_owner c.owner
                && (j.claim_generation == c.generation && lease_after j.lease_expires_at now))))
      claim_lost

-- A job's row saved, with the audit event of the same transaction.
unfoldable pub write : Rotation → List AuditEvent → Db → Db
write j events db = record db {
  rotations = Rows.save rotation_key j db.rotations;
  audit = db.audit ++ events;
}
