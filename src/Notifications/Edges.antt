-- ===== src/Notifications/Edges.antt =====
-- The ways in which one row of the queue changes: by the holder of its claim, by the purge of its
-- recipient, or by a claim.
use mnemex.Base.{ℕ, String, ◌≡◌, true, false, List, Result, ok, ◌>>=◌, is_some}
use mnemex.Base.Moment.{checked_lease}
use mnemex.Base.Strip.{is_empty}
use mnemex.Notifications.Model.{
  Notification, ClaimedSecurityNotification, AuditEvent, Update, assert_claim,
}
use mnemex.Notifications.History.{
  Request, heartbeat, hand_off, deliver, fail_before_handoff, report_uncertain, fail_terminally,
  release,
}
use mnemex.Notifications.Settle.{
  heartbeat_step, handoff_step, delivered_step, preaccept_failure_step, uncertain_step,
  terminal_failure_step, release_step,
}
use mnemex.Notifications.Retention.{purge_step}
use mnemex.Notifications.Claims.{claimable, claim_step}

-- What a request makes of the claimed row.
unfoldable pub request_row : Request → ℕ → Notification → Result Update
request_row (heartbeat d) now n = do lease ← checked_lease d; heartbeat_step now lease n
request_row hand_off now n = handoff_step now n
request_row deliver now n = delivered_step now n
request_row (fail_before_handoff code soon) now n = preaccept_failure_step code soon now n
request_row (report_uncertain code) now n = uncertain_step code now n
request_row (fail_terminally code) now n = terminal_failure_step code now n
request_row release now n = release_step now n

-- `Q` is what is known of the tokens that the claims draw.
pub data Edge (Q : String → Type 0) (a b : Notification) : Type 0 where
  held :
      (r : Request) (c : ClaimedSecurityNotification) (now : ℕ) (shown : Notification)
      (events : List AuditEvent)
      → assert_claim a c now ≡ ok tt
      → request_row r now a ≡ ok (b, shown, events)
      → Edge Q a b
  purged_at :
      (now : ℕ) → is_some a.recipient_purged_at ≡ false → b ≡ (purge_step now a).0 → Edge Q a b
  claimed_at :
      (owner : String) (now lease : ℕ) (token : String)
      → is_empty owner ≡ false
      → Q token
      → claimable now a ≡ true
      → b ≡ (claim_step owner now lease token a).0.0
      → Edge Q a b
