-- ===== src/Notifications/Worker.antt =====
-- `run_security_notifications_once`: one bounded batch of claims and deliveries, each step a
-- transaction of its own, with other workers active between them.
use mnemex.Base.{
  ℕ, zero, suc, ◌+◌, String, Bool, false, Option, none, some, not, if◌then◌else◌, Result, ok, err,
  claim_lost, does_not_exist,
}
use mnemex.Base.Moment.{Moment, Timedelta, seconds}
use mnemex.Base.Rows
use mnemex.Notifications.Model.{
  Status, Notification, ClaimedSecurityNotification, SecurityNotificationOutcome, Db, key,
  checked_limit,
}
use mnemex.Notifications.Claims.{ClaimAttempt, claim_next_notification_attempt}
use mnemex.Notifications.History.{
  Request, hand_off, deliver, fail_before_handoff, report_uncertain, fail_terminally, release,
  serve,
}

-- `transport.send`: the acceptance that it reports, or an exception.
pub data Sending : Type 0 where
  accepted refused raised : Sending

-- What the world answers in one round of the loop. `meanwhile` is the work of others and `clock` the
-- reading of the clock, both before the numbered transaction of the round; a failure of
-- `transport_factory()` or `transport.open()` is `opens ≡ false`.
pub record Round : Type 0 where
  pub stop_first : Bool
  pub stop_before_open : Bool
  pub stop_before_handoff : Bool
  pub locked : ℕ → Bool
  pub token : String
  pub opens : Bool
  pub sending : Sending
  pub clock : ℕ → ℕ
  pub meanwhile : ℕ → Db → Db

-- NotificationWorkerBatchOutcome
pub record Batch : Type 0 where
  pub claimed : ℕ
  pub delivered : ℕ
  pub retry_scheduled : ℕ
  pub failed_review : ℕ
  pub delivery_uncertain : ℕ
  pub expired : ℕ
  pub claim_lost : ℕ

abbrev pub no_batch : Batch
no_batch = record {
  claimed = 0;
  delivered = 0;
  retry_scheduled = 0;
  failed_review = 0;
  delivery_uncertain = 0;
  expired = 0;
  claim_lost = 0;
}

-- The chain of tests on `outcome.status`, which has no `else`.
unfoldable pub tally : Status → Batch → Batch
tally Status.delivered k = record k { delivered = k.delivered + 1 }
tally Status.retry_wait k = record k { retry_scheduled = k.retry_scheduled + 1 }
tally Status.failed_review k = record k { failed_review = k.failed_review + 1 }
tally Status.delivery_uncertain k = record k { delivery_uncertain = k.delivery_uncertain + 1 }
tally Status.expired k = record k { expired = k.expired + 1 }
tally Status.pending k = k
tally Status.running k = k

-- A transaction as a step of the worker: what it raises is kept beside the database.
abbrev pub transact {ℓ} : {A : Type ℓ} → Result (Db × A) → Db → Db × Result A
transact (ok (after, a)) before = (after, ok a)
transact (err e) before = (before, err e)

-- A request of the worker in the numbered transaction of the round.
unfoldable pub request :
    Round → ℕ → Request → ClaimedSecurityNotification → Db → Db × Result SecurityNotificationOutcome
unfolding serve
request e i r c db =
    let before = e.meanwhile i db in transact (serve r c (Moment.clock (e.clock i)) before) before

unfoldable pub send_handed :
    Round → ClaimedSecurityNotification → Db → Db × Result SecurityNotificationOutcome
unfolding request
send_handed e c db = elim e.sending [
  | accepted ↦ request e 4 deliver c db
  | refused ↦ request e 4 (report_uncertain "smtp_acceptance_not_confirmed") c db
  | raised ↦ request e 4 (report_uncertain "smtp_outcome_ambiguous") c db
]

unfoldable pub after_handoff :
    Round
    → ClaimedSecurityNotification
    → Db × Result SecurityNotificationOutcome
    → Db × Result SecurityNotificationOutcome
unfolding send_handed
after_handoff e c (db, err x) = (db, err x)
after_handoff e c (db, ok _) = send_handed e c db

-- Decryption and rendering belong to the cryptography and the templates: `none` is a failure that
-- the worker catches.
module _ {M : Type 0} (decrypt : Notification → Option String)
    (render : Notification → String → Option M) where
  unfoldable pub open_and_send :
      Round → ClaimedSecurityNotification → Db → Db × Result SecurityNotificationOutcome
  unfolding request after_handoff
  open_and_send e c db =
      if e.stop_before_open
      then request e 2 release c db
      else if not e.opens
      then request e 2 (fail_before_handoff "transport_unavailable" false) c db
      else if e.stop_before_handoff
      then request e 2 release c db
      else after_handoff e c (request e 3 hand_off c db)

  -- The message that was rendered, if it was.
  unfoldable pub deliver_message :
      Round → ClaimedSecurityNotification → Option M → Db → Db × Result SecurityNotificationOutcome
  unfolding open_and_send
  deliver_message e c none db = request e 2 (fail_terminally "template_render_failed") c db
  deliver_message e c (some message) db = open_and_send e c db

  -- The recipient that was decrypted, if it was.
  unfoldable pub deliver_to :
      Round
      → ClaimedSecurityNotification
      → Notification
      → Option String
      → Db
      → Db × Result SecurityNotificationOutcome
  unfolding deliver_message
  deliver_to e c n none db = request e 2 (fail_terminally "recipient_decryption_failed") c db
  deliver_to e c n (some recipient) db = deliver_message e c (render n recipient) db

  unfoldable pub deliver_row :
      Round
      → ClaimedSecurityNotification
      → Option Notification
      → Db
      → Db × Result SecurityNotificationOutcome
  unfolding deliver_to
  deliver_row e c none db = (db, err does_not_exist)
  deliver_row e c (some n) db = deliver_to e c n (decrypt n) db

  unfoldable pub deliver_claim :
      Round → ClaimedSecurityNotification → Db → Db × Result SecurityNotificationOutcome
  unfolding deliver_row
  deliver_claim e c db =
      let db1 = e.meanwhile 1 db in deliver_row e c (Rows.get key c.notification_id db1.rows) db1

-- How a round ends: the loop goes on with new counts, or ends with a result or an exception.
pub data RoundEnd : Type 0 where
  go_on : Batch → RoundEnd
  finish : Result Batch → RoundEnd

-- `except NotificationClaimLost` counts the loss; any other exception leaves the loop.
unfoldable pub count_outcome : Batch → Result SecurityNotificationOutcome → RoundEnd
unfolding tally
count_outcome k (ok o) = go_on (tally o.status k)
count_outcome k (err claim_lost) = go_on (record k { claim_lost = k.claim_lost + 1 })
count_outcome k (err e) = finish (err e)

module _ {M : Type 0} (decrypt : Notification → Option String)
    (render : Notification → String → Option M) where
  unfoldable pub after_claim : Round → Batch → Db × Result ClaimAttempt → Db × RoundEnd
  unfolding deliver_claim count_outcome
  after_claim e k (db, err x) = (db, finish (err x))
  after_claim e k (db, ok a) = elim a.claim [
    | none ↦ if a.terminalized then (db, go_on k) else (db, finish (ok k))
    | some c ↦
        let (db', o) = deliver_claim decrypt render e c db in
        (db', count_outcome (record k { claimed = k.claimed + 1 }) o)
  ]

  unfoldable pub round : String → Round → Batch → Db → Db × RoundEnd
  unfolding after_claim claim_next_notification_attempt
  round owner e k db =
      if e.stop_first
      then (db, finish (ok k))
      else let before = e.meanwhile 0 db in
        after_claim e k (
          transact
            (claim_next_notification_attempt e.locked owner (Moment.clock (e.clock 0))
              (Timedelta.pos (seconds 300)) e.token before)
            before)

  -- `for _ in range(checked_limit)`, the rounds numbered from `i`.
  unfoldable pub rounds : ℕ → ℕ → (ℕ → Round) → String → Batch → Db → Db × Result Batch
  unfolding round
  rounds zero i world owner k db = (db, ok k)
  rounds (suc limit) i world owner k db =
      let (db', end) = round owner (world i) k db in
      elim end [ finish r ↦ (db', r) | go_on k' ↦ rounds limit (suc i) world owner k' db' ]

  abbrev pub rounds_within : Result ℕ → (ℕ → Round) → String → Db → Db × Result Batch
  rounds_within (err x) world owner db = (db, err x)
  rounds_within (ok checked) world owner db = rounds checked 0 world owner no_batch db

  unfoldable pub run_security_notifications_once : String → ℕ → (ℕ → Round) → Db → Db × Result Batch
  unfolding rounds checked_limit
  run_security_notifications_once owner limit world db =
      rounds_within (checked_limit limit 25) world owner db
