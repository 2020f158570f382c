-- ===== src/Notifications/Settle.antt =====
-- The operations of a claim's holder: heartbeat, SMTP handoff, and the ways to settle a claim.
-- Each is a step of the claimed row under `update_claimed`.
use mnemex.Base.{
  ℕ, ◌+◌, max, String, Bool, not, Option, none, some, [], ◌∷◌, leb, if◌then◌else◌, Result, ok,
  guard, or_raise, ◌>>=◌, ◌>>◌, claim_lost, assertion_error,
}
use mnemex.Base.Moment.{Moment, Timedelta, checked_now, checked_lease, retry_delay}
use mnemex.Notifications.Model.{
  Status, Notification, ClaimedSecurityNotification, SecurityNotificationOutcome, Db, AuditAction,
  Update, saved, handoff, is_handoff, clear_claim, audit_notification, update_claimed,
  terminalize_review, terminalize_uncertain,
}

abbrev pub Step : Type 0
Step = Notification → Result Update

-- `assert` of a column that is not None, and its value.
abbrev assert_some : Option ℕ → Result ℕ
assert_some o = or_raise o assertion_error

unfoldable pub heartbeat_step : ℕ → ℕ → Step
heartbeat_step now lease n = do
  beaten_at ← assert_some n.heartbeat_at
  expires_at ← assert_some n.lease_expires_at
  ok (
      saved
        (record n {
          heartbeat_at = some (max beaten_at now);
          lease_expires_at = some (max expires_at (now + lease));
        })
        [])

unfoldable pub heartbeat_notification :
    ClaimedSecurityNotification
    → Moment
    → Timedelta
    → Db
    → Result (Db × SecurityNotificationOutcome)
unfolding update_claimed heartbeat_step
heartbeat_notification c now lease_duration db = do
  at ← checked_now now
  lease ← checked_lease lease_duration
  update_claimed c at (heartbeat_step at lease) db

unfoldable pub handoff_step : ℕ → Step
handoff_step now n =
    if is_handoff n.delivery_phase
    then ok (saved n [])
    else ok (saved (record n { delivery_phase = handoff; handoff_at = some now }) [])

unfoldable pub mark_notification_handoff :
    ClaimedSecurityNotification → Moment → Db → Result (Db × SecurityNotificationOutcome)
unfolding update_claimed handoff_step
mark_notification_handoff c now db = do
  at ← checked_now now
  update_claimed c at (handoff_step at) db

unfoldable pub delivered_step : ℕ → Step
unfolding clear_claim audit_notification
delivered_step now n = do
  guard (is_handoff n.delivery_phase) claim_lost
  let n' = clear_claim (record n {
    status = Status.delivered;
    delivered_at = some now;
    completed_at = some now;
    last_error_code = "";
  })
  ok (saved n' (audit_notification (AuditAction.delivered n'.attempt_count) n' ∷ []))

unfoldable pub settle_notification_delivered :
    ClaimedSecurityNotification → Moment → Db → Result (Db × SecurityNotificationOutcome)
unfolding update_claimed delivered_step
settle_notification_delivered c now db = do
  at ← checked_now now
  update_claimed c at (delivered_step at) db

unfoldable pub preaccept_failure_step : String → Bool → ℕ → Step
unfolding clear_claim terminalize_review
preaccept_failure_step error_code immediate_retry now n = do
  guard (not (is_handoff n.delivery_phase)) claim_lost
  let failed = record n { failure_count = n.failure_count + 1 }
  let retry = clear_claim (record failed {
    status = Status.retry_wait;
    available_at = now + retry_delay immediate_retry failed.failure_count;
    completed_at = none;
    last_error_code = error_code;
  })
  ok (
      if leb failed.max_attempts failed.failure_count
      then terminalize_review n failed now "attempts_exhausted"
      else saved retry [])

unfoldable pub settle_notification_preaccept_failure :
    ClaimedSecurityNotification
    → String
    → Moment
    → Bool
    → Db
    → Result (Db × SecurityNotificationOutcome)
unfolding update_claimed preaccept_failure_step
settle_notification_preaccept_failure c error_code now immediate_retry db = do
  at ← checked_now now
  update_claimed c at (preaccept_failure_step error_code immediate_retry at) db

-- `_terminalize_uncertain` saves every column that it assigns.
unfoldable pub uncertain : Notification → ℕ → String → Update
unfolding terminalize_uncertain
uncertain n now error_code =
    let (n', events) = terminalize_uncertain n now error_code in saved n' events

unfoldable pub uncertain_step : String → ℕ → Step
unfolding uncertain
uncertain_step error_code now n = do
  guard (is_handoff n.delivery_phase) claim_lost
  ok (uncertain n now error_code)

unfoldable pub settle_notification_delivery_uncertain :
    ClaimedSecurityNotification → String → Moment → Db → Result (Db × SecurityNotificationOutcome)
unfolding update_claimed uncertain_step
settle_notification_delivery_uncertain c error_code now db = do
  at ← checked_now now
  update_claimed c at (uncertain_step error_code at) db

unfoldable pub terminal_failure_step : String → ℕ → Step
unfolding terminalize_review
terminal_failure_step error_code now n =
    ok (terminalize_review n (record n { failure_count = n.failure_count + 1 }) now error_code)

unfoldable pub settle_notification_terminal_failure :
    ClaimedSecurityNotification → String → Moment → Db → Result (Db × SecurityNotificationOutcome)
unfolding update_claimed terminal_failure_step
settle_notification_terminal_failure c error_code now db = do
  at ← checked_now now
  update_claimed c at (terminal_failure_step error_code at) db

unfoldable pub release_step : ℕ → Step
unfolding clear_claim uncertain
release_step now n =
    if is_handoff n.delivery_phase
    then ok (uncertain n now "shutdown_after_handoff")
    else ok (
        saved
          (clear_claim (record n {
            status = Status.retry_wait;
            available_at = now;
            last_error_code = "graceful_shutdown";
          }))
          [])

unfoldable pub release_notification_claim :
    ClaimedSecurityNotification → Moment → Db → Result (Db × SecurityNotificationOutcome)
unfolding update_claimed release_step
release_notification_claim c now db = do
  at ← checked_now now
  update_claimed c at (release_step at) db
