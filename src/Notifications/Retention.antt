-- ===== src/Notifications/Retention.antt =====
-- The purge of recipients whose retention has run out (`_purge_recipient`,
-- `expire_notification_recipients`).
use mnemex.Base.{
  ℕ, suc, Bool, false, not, ◌&&◌, none, some, Option, List, [], ◌∷◌, leb, ltb, if◌then◌else◌,
  Result, ok, ◌>>=◌, length, take, select, is_some,
}
use mnemex.Base.Moment.{Moment, checked_now}
use mnemex.Base.Rows
use mnemex.Base.Ordered.{Key3, before3, order_by}
use mnemex.Notifications.Model.{
  Status, Notification, AuditEvent, AuditAction, Db, is_running, is_live, is_handoff, key,
  checked_limit, clear_claim, audit_notification, commit,
}

pub record RecipientExpiryOutcome : Type 0 where
  pub expired : ℕ
  pub pending_terminalized : ℕ

-- The row after the purge of a recipient that is still held.
unfoldable pub purge_step : ℕ → Notification → Notification × List AuditEvent
unfolding clear_claim audit_notification
purge_step now n =
    let purged = record n { recipient_ciphertext = ""; recipient_purged_at = some now } in
    let n' =
      if is_running n.status && is_handoff n.delivery_phase
      then clear_claim (record purged {
        status = Status.delivery_uncertain;
        completed_at = some now;
        review_required_at = some now;
        last_error_code = "recipient_retention_expired_during_handoff";
      })
      else if is_live n.status
      then clear_claim (record purged {
        status = Status.expired;
        completed_at = some now;
        last_error_code = "recipient_retention_expired";
      })
      else purged in
    (n', audit_notification (AuditAction.expired n.status) n' ∷ [])

-- The result tells whether the purge ended a live notification.
unfoldable pub purge_recipient : ℕ → Notification → Db → Db × Bool
unfolding purge_step commit
purge_recipient now n db =
    if is_some n.recipient_purged_at
    then (db, false)
    else (let (n', events) = purge_step now n in commit n' events db, is_live n.status)

abbrev has_live_lease : Notification → ℕ → Bool
has_live_lease n now =
    is_running n.status && elim n.lease_expires_at [ none ↦ false | some l ↦ ltb now l ]

unfoldable pub expirable : ℕ → Notification → Bool
expirable now n =
    not (is_some n.recipient_purged_at)
    && (leb n.recipient_retention_deadline now && not (has_live_lease n now))

abbrev pub retention_key : Notification → Key3
retention_key n = (n.recipient_retention_deadline, n.created_at, n.notification_id)

abbrev pub purge_current : ℕ → Option Notification → Db → Db × Bool
purge_current now none db = (db, false)
purge_current now (some n) db = purge_recipient now n db

-- The rows are locked from the query on, so each is purged as it stands when its turn comes.
unfoldable pub purge_each : ℕ → List Notification → Db → Db × ℕ
unfolding purge_recipient
purge_each now [] db = (db, 0)
purge_each now (n ∷ ns) db =
    let (db', ended) = purge_current now (Rows.get key n.notification_id db.rows) db in
    let (db'', more) = purge_each now ns db' in (db'', if ended then suc more else more)

-- The rows that the query of one run gives, those that other transactions hold passed over
-- (`locked`, by `skip_locked`).
unfoldable pub expiry_batch : (ℕ → Bool) → ℕ → ℕ → List Notification → List Notification
unfolding expirable order_by
expiry_batch locked now limit rows = take limit (
    order_by (λ a b. before3 (retention_key a) (retention_key b))
      (select (λ n. expirable now n && not (locked n.notification_id)) rows))

unfoldable pub expire_notification_recipients :
    (ℕ → Bool) → Moment → ℕ → Db → Result (Db × RecipientExpiryOutcome)
unfolding purge_each expiry_batch
expire_notification_recipients locked now limit db = do
  at ← checked_now now
  checked ← checked_limit limit 500
  let notifications = expiry_batch locked at checked db.rows
  let purged = purge_each at notifications db
  ok (purged.0, record { expired = length notifications; pending_terminalized = purged.1 })
