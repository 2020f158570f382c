-- ===== src/Notifications/Model.antt =====
-- The row of a notification (SecurityNotification of mnemex/accounts/models.py), its claim, and the
-- database as the notification queue sees it. The column updated_at, which nothing reads, is left out.
use mnemex.Base.{
  ℕ, String, Bool, true, false, ◌&&◌, ◌||◌, Option, none, some, List, [], ◌∷◌, ◌++◌, str_eq, leb,
  ltb, ◌==◌, if◌then◌else◌, Result, ok, err, guard, or_raise, ◌>>=◌, ◌>>◌, claim_lost,
  validation_error,
}
use mnemex.Base.Rows
use mnemex.Base.Strip.{strip, is_empty, count, has_control}

pub data Status : Type 0 where
  pending running retry_wait delivered failed_review delivery_uncertain expired : Status

pub data DeliveryPhase : Type 0 where
  pre_handoff handoff : DeliveryPhase

pub record Notification : Type 0 where
  pub notification_id : ℕ
  pub account_id : ℕ
  pub template_identifier : String
  pub context_code : String
  pub idempotency_key : String
  pub message_id : String
  pub recipient_ciphertext : String
  pub recipient_hmac : String
  pub encryption_key_version : ℕ
  pub status : Status
  pub delivery_phase : DeliveryPhase
  pub attempt_count : ℕ
  pub failure_count : ℕ
  pub max_attempts : ℕ
  pub available_at : ℕ
  pub claim_token : String
  pub claim_owner : String
  pub claim_generation : ℕ
  pub heartbeat_at : Option ℕ
  pub lease_expires_at : Option ℕ
  pub handoff_at : Option ℕ
  pub started_at : Option ℕ
  pub delivered_at : Option ℕ
  pub completed_at : Option ℕ
  pub review_required_at : Option ℕ
  pub recipient_retention_deadline : ℕ
  pub recipient_purged_at : Option ℕ
  pub last_error_code : String
  pub created_at : ℕ

pub record ClaimedSecurityNotification : Type 0 where
  pub notification_id : ℕ
  pub token : String
  pub generation : ℕ
  pub owner : String

pub record SecurityNotificationOutcome : Type 0 where
  pub notification_id : ℕ
  pub status : Status
  pub attempt_count : ℕ
  pub failure_count : ℕ
  pub error_code : String
  pub available_at : ℕ

-- The actions of `_audit_notification`, with the metadata that each carries.
pub data AuditAction : Type 0 where
  queued : String → String → ℕ → AuditAction
  failed_review : String → AuditAction
  delivery_uncertain : String → AuditAction
  expired : Status → AuditAction
  delivered : ℕ → AuditAction

pub record AuditEvent : Type 0 where
  pub action : AuditAction
  pub target_id : ℕ
  pub actor_id : ℕ

pub record Db : Type 0 where
  pub rows : List Notification
  pub audit : List AuditEvent

abbrev pub is_running : Status → Bool
is_running running = true
is_running _ = false

-- Pending or waiting for a retry.
abbrev pub is_waiting : Status → Bool
is_waiting pending = true
is_waiting retry_wait = true
is_waiting _ = false

abbrev pub is_live : Status → Bool
is_live s = is_waiting s || is_running s

abbrev pub is_handoff : DeliveryPhase → Bool
is_handoff handoff = true
is_handoff pre_handoff = false

abbrev pub key : Notification → ℕ
key n = n.notification_id

unfoldable pub checked_owner : String → Result String
checked_owner owner =
    let normalized = strip owner in
    if is_empty normalized || ltb 120 (count normalized) || has_control normalized
    then err validation_error
    else ok normalized

unfoldable pub checked_limit : ℕ → ℕ → Result ℕ
checked_limit limit maximum =
    if leb 1 limit && leb limit maximum then ok limit else err validation_error

unfoldable pub audit_notification : AuditAction → Notification → AuditEvent
audit_notification action n = record {
  action = action;
  target_id = n.notification_id;
  actor_id = n.account_id;
}

unfoldable pub outcome : Notification → SecurityNotificationOutcome
outcome n = record {
  notification_id = n.notification_id;
  status = n.status;
  attempt_count = n.attempt_count;
  failure_count = n.failure_count;
  error_code = n.last_error_code;
  available_at = n.available_at;
}

unfoldable pub clear_claim : Notification → Notification
clear_claim n = record n {
  claim_token = "";
  claim_owner = "";
  heartbeat_at = none;
  lease_expires_at = none;
}

-- `lease_expires_at is None or lease_expires_at < now`, negated: the lease still covers `now`.
abbrev pub covers : Option ℕ → ℕ → Bool
covers none now = false
covers (some l) now = leb now l

abbrev pub same_claim : Notification → ClaimedSecurityNotification → Bool
same_claim n c =
    str_eq n.claim_token c.token
    && (n.claim_generation == c.generation && str_eq n.claim_owner c.owner)

unfoldable pub assert_claim : Notification → ClaimedSecurityNotification → ℕ → Result (Unit {0})
assert_claim n c now =
    guard (is_running n.status && (same_claim n c && covers n.lease_expires_at now)) claim_lost

unfoldable pub locked_notification : ℕ → Db → Result Notification
locked_notification k db = or_raise (Rows.get key k db.rows) claim_lost

-- `notification.save(...)`, and the audit events written in the same transaction.
unfoldable pub commit : Notification → List AuditEvent → Db → Db
commit n events db = record { rows = Rows.save key n db.rows; audit = db.audit ++ events }

-- What an operation makes of a row: the row as it is stored, the instance in memory, which is what
-- `_outcome` reports, and the audit events. The two differ where `update_fields` leaves out a column
-- that was assigned.
abbrev pub Update : Type 0
Update = Notification × Notification × List AuditEvent

-- Every column that was assigned is saved.
abbrev pub saved : Notification → List AuditEvent → Update
saved n events = (n, n, events)

-- What every operation of a claim does at the checked time: lock the row, assert the claim, step the
-- row, save it, and report it. An exception rolls the transaction back, so it carries no database.
unfoldable pub update_claimed :
    ClaimedSecurityNotification
    → ℕ
    → (Notification → Result Update)
    → Db
    → Result (Db × SecurityNotificationOutcome)
unfolding locked_notification commit
update_claimed c now step db = do
  n ← locked_notification c.notification_id db
  assert_claim n c now
  stepped ← step n
  ok (commit stepped.0 stepped.2 db, outcome stepped.1)

-- The columns that `_terminalize_review` assigns and saves.
unfoldable pub review_columns : ℕ → String → Notification → Notification
unfolding clear_claim
review_columns now error_code n = clear_claim (record n {
  status = failed_review;
  completed_at = some now;
  review_required_at = some now;
  last_error_code = error_code;
})

-- `row` is the row of the table and `n` the instance, whose failure_count the caller has raised:
-- `update_fields` does not name that column, so that the row keeps its own.
unfoldable pub terminalize_review : Notification → Notification → ℕ → String → Update
unfolding review_columns audit_notification
terminalize_review row n now error_code =
    let n' = review_columns now error_code n in
    (review_columns now error_code row, n', audit_notification (failed_review error_code) n' ∷ [])

unfoldable pub terminalize_uncertain : Notification → ℕ → String → Notification × List AuditEvent
unfolding clear_claim audit_notification
terminalize_uncertain n now error_code =
    let n' = clear_claim (record n {
      status = delivery_uncertain;
      completed_at = some now;
      review_required_at = some now;
      last_error_code = error_code;
    }) in
    (n', audit_notification (delivery_uncertain error_code) n' ∷ [])
