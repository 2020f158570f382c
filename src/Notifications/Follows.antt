-- ===== src/Notifications/Follows.antt =====
-- What every transition of the queue keeps of each row: counters only grow, an ended notification
-- stays as it ended, and a row whose handoff began is never claimed again.
use mnemex.Base.{
  ℕ, ◌≤◌, String, ◌≡◌, sym, subst, Bool, true, false, not, ◌&&◌, List, arith, is_some, ok,
  >>=-eq-ok,
}
use mnemex.Base.Moment.{checked_lease}
use mnemex.Notifications.Model.{
  Notification, ClaimedSecurityNotification, AuditEvent, is_running, is_waiting, is_live,
  is_handoff, assert_claim,
}
use mnemex.Notifications.History.{Request, heartbeat}
use mnemex.Notifications.Edges.{Edge, held, purged_at, claimed_at, request_row}
use mnemex.Notifications.Settle.{
  heartbeat_step, handoff_step, delivered_step, preaccept_failure_step, uncertain_step,
  terminal_failure_step, release_step,
}
use mnemex.Notifications.Retention.{purge_step}
use mnemex.Notifications.Claims.{claimable, claim_step}

-- Handed to SMTP, and not waiting to be claimed.
unfoldable pub is_sealed : Notification → Bool
is_sealed n = is_handoff n.delivery_phase && not (is_waiting n.status)

pub record Follows (a b : Notification) : Type 0 where
  pub same_id : b.notification_id ≡ a.notification_id
  pub generation : a.claim_generation ≤ b.claim_generation
  pub attempts : a.attempt_count ≤ b.attempt_count
  pub failures : a.failure_count ≤ b.failure_count
  pub stays_sealed : is_sealed a ≡ true → is_sealed b ≡ true
  pub frozen : is_sealed a ≡ true → b.claim_generation ≡ a.claim_generation
  pub purged : is_some a.recipient_purged_at ≡ true → is_some b.recipient_purged_at ≡ true
  pub ended : is_live a.status ≡ false → b.status ≡ a.status

pub Follows-refl : (n : Notification) → Follows n n
Follows-refl n = ground arith

pub Follows-trans : (a b c : Notification) → Follows a b → Follows b c → Follows a c
Follows-trans a b c f g = ground arith

request_row-Follows :
    (r : Request) (now : ℕ) (n n' shown : Notification) (events : List AuditEvent)
    → is_running n.status ≡ true
    → request_row r now n ≡ ok (n', shown, events)
    → Follows n n'
unfolding request_row is_sealed heartbeat_step handoff_step delivered_step preaccept_failure_step
    uncertain_step terminal_failure_step release_step
request_row-Follows (heartbeat d) now n n' shown events running h =
    let (lease, hl, hs) = >>=-eq-ok (checked_lease d) _ h in ground arith
request_row-Follows _ now n n' shown events running h = ground arith

Follows-purge_step : (now : ℕ) (n : Notification) → Follows n (purge_step now n).0
unfolding purge_step is_sealed
Follows-purge_step now n = ground arith

Follows-claim_step :
    (owner : String) (now lease : ℕ) (token : String) (n : Notification)
    → claimable now n ≡ true
    → Follows n (claim_step owner now lease token n).0.0
unfolding claim_step claimable is_sealed
Follows-claim_step owner now lease token n h = ground arith

pub assert_claim-running :
    (n : Notification) (c : ClaimedSecurityNotification) (now : ℕ)
    → assert_claim n c now ≡ ok tt
    → is_running n.status ≡ true
unfolding assert_claim
assert_claim-running n c now h = ground arith

pub Follows-Edge : {Q : String → Type 0} (a b : Notification) → Edge Q a b → Follows a b
Follows-Edge a b (held r c now shown events asserted stepped) =
    request_row-Follows r now a b shown events (assert_claim-running a c now asserted) stepped
Follows-Edge a b (purged_at now _ e) = subst (λ x. Follows a x) (sym e) (Follows-purge_step now a)
Follows-Edge a b (claimed_at owner now lease token _ _ due e) =
    subst (λ x. Follows a x) (sym e) (Follows-claim_step owner now lease token a due)
