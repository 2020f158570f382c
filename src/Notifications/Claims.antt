-- ===== src/Notifications/Claims.antt =====
-- The claim of the next notification (`_claimable`, `_claim_next_notification_attempt`).
use mnemex.Base.{
  ℕ, ◌+◌, String, Bool, true, false, not, ◌&&◌, ◌||◌, Option, none, some, List, [], leb, ltb,
  if◌then◌else◌, Result, ok, ◌>>=◌, select, is_some,
}
use mnemex.Base.Moment.{Moment, Timedelta, checked_now, checked_lease}
use mnemex.Base.Ordered.{Key3, before3, order_by, head?}
use mnemex.Notifications.Model.{
  Status, DeliveryPhase, Notification, ClaimedSecurityNotification, AuditEvent, Db, is_running,
  is_waiting, is_handoff, checked_owner, commit, terminalize_review, terminalize_uncertain,
}
use mnemex.Notifications.Retention.{expire_notification_recipients}

-- `_NotificationClaimAttempt`
pub record ClaimAttempt : Type 0 where
  pub claim : Option ClaimedSecurityNotification
  pub terminalized : Bool

abbrev pub lease_ended : Option ℕ → ℕ → Bool
lease_ended none now = false
lease_ended (some l) now = leb l now

unfoldable pub claimable : ℕ → Notification → Bool
claimable now n =
    ((is_waiting n.status && leb n.available_at now)
      || (is_running n.status && lease_ended n.lease_expires_at now))
    && (not (is_some n.recipient_purged_at) && ltb now n.recipient_retention_deadline)

-- The annotation claim_ready_at; the default is never taken for a claimable row.
unfoldable pub claim_ready_at : Notification → ℕ
claim_ready_at n =
    if is_running n.status
    then elim n.lease_expires_at [ none ↦ 0 | some l ↦ l ]
    else n.available_at

abbrev pub claim_key : Notification → Key3
claim_key n = (claim_ready_at n, n.created_at, n.notification_id)

-- The claimed row, with the token that `secrets.token_hex(32)` drew.
unfoldable pub claimed_row : String → ℕ → ℕ → String → Notification → Notification
claimed_row owner now lease token n = record n {
  status = Status.running;
  delivery_phase = DeliveryPhase.pre_handoff;
  attempt_count = n.attempt_count + 1;
  claim_generation = n.claim_generation + 1;
  claim_token = token;
  claim_owner = owner;
  heartbeat_at = some now;
  lease_expires_at = some (now + lease);
  started_at = if is_some n.started_at then n.started_at else some now;
  completed_at = none;
  review_required_at = none;
  handoff_at = none;
  last_error_code = "";
}

-- What becomes of the selected row: taken after a handoff it is uncertain, out of attempts it goes
-- to review, and otherwise it is claimed.
unfoldable pub claim_step :
    String → ℕ → ℕ → String → Notification → (Notification × List AuditEvent) × ClaimAttempt
unfolding claimed_row terminalize_review terminalize_uncertain
claim_step owner now lease token n =
    let takeover = is_running n.status in
    let charged = if takeover then record n { failure_count = n.failure_count + 1 } else n in
    let ended : ClaimAttempt = record { claim = none; terminalized = true } in
    if takeover && is_handoff n.delivery_phase
    then (terminalize_uncertain n now "worker_lost_after_handoff", ended)
    else if takeover && leb charged.max_attempts charged.failure_count
    then (
      let (row, shown, events) = terminalize_review n charged now "attempts_exhausted" in
          (row, events),
      ended,
    )
    else (
      (claimed_row owner now lease token charged, []),
      record {
        claim = some (record {
          notification_id = n.notification_id;
          token = token;
          generation = n.claim_generation + 1;
          owner = owner;
        });
        terminalized = false;
      },
    )

-- The row that the query gives: the first claimable one that no other transaction holds.
unfoldable pub next_claimable : (ℕ → Bool) → ℕ → List Notification → Option Notification
unfolding claimable order_by head?
next_claimable locked now rows = head? (
    order_by (λ a b. before3 (claim_key a) (claim_key b))
      (select (λ n. claimable now n && not (locked n.notification_id)) rows))

unfoldable pub settle_claim : String → ℕ → ℕ → String → Option Notification → Db → Db × ClaimAttempt
unfolding claim_step commit
settle_claim owner now lease token none db = (db, record { claim = none; terminalized = false })
settle_claim owner now lease token (some n) db =
    let (row, attempt) = claim_step owner now lease token n in (commit row.0 row.1 db, attempt)

unfoldable pub claim_next_notification_attempt :
    (ℕ → Bool) → String → Moment → Timedelta → String → Db → Result (Db × ClaimAttempt)
unfolding settle_claim
claim_next_notification_attempt locked owner now lease_duration token db = do
  at ← checked_now now
  checked ← checked_owner owner
  lease ← checked_lease lease_duration
  expiry ← expire_notification_recipients locked (Moment.aware at) 100 db
  ok (settle_claim checked at lease token (next_claimable locked at expiry.0.rows) expiry.0)
