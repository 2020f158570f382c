-- ===== src/Notifications/History.antt =====
-- The queue over time: every operation as one transition of the database, in any order and from any
-- number of workers. An operation that raises leaves the database as it was.
use mnemex.Base.{ℕ, String, Bool, List, [], ◌∷◌, Result, ok, err, ◌>>=◌}
use mnemex.Base.Moment.{Moment, Timedelta}
use mnemex.Notifications.Model.{ClaimedSecurityNotification, SecurityNotificationOutcome, Db}
use mnemex.Notifications.Claims.{claim_next_notification_attempt}
use mnemex.Notifications.Retention.{expire_notification_recipients}
use mnemex.Notifications.Settle.{
  heartbeat_notification, mark_notification_handoff, settle_notification_delivered,
  settle_notification_preaccept_failure, settle_notification_delivery_uncertain,
  settle_notification_terminal_failure, release_notification_claim,
}

-- What the holder of a claim may ask for.
pub data Request : Type 0 where
  heartbeat : Timedelta → Request
  hand_off : Request
  deliver : Request
  fail_before_handoff : String → Bool → Request
  report_uncertain : String → Request
  fail_terminally : String → Request
  release : Request

unfoldable pub serve :
    Request → ClaimedSecurityNotification → Moment → Db → Result (Db × SecurityNotificationOutcome)
unfolding heartbeat_notification mark_notification_handoff settle_notification_delivered
    settle_notification_preaccept_failure settle_notification_delivery_uncertain
    settle_notification_terminal_failure release_notification_claim
serve (heartbeat lease) c now db = heartbeat_notification c now lease db
serve hand_off c now db = mark_notification_handoff c now db
serve deliver c now db = settle_notification_delivered c now db
serve (fail_before_handoff code soon) c now db =
    settle_notification_preaccept_failure c code now soon db
serve (report_uncertain code) c now db = settle_notification_delivery_uncertain c code now db
serve (fail_terminally code) c now db = settle_notification_terminal_failure c code now db
serve release c now db = release_notification_claim c now db

pub data Op : Type 0 where
  claim_next : (ℕ → Bool) → String → Moment → Timedelta → String → Op
  expire : (ℕ → Bool) → Moment → ℕ → Op
  ask : Request → ClaimedSecurityNotification → Moment → Op

unfoldable pub attempt : Op → Db → Result Db
unfolding claim_next_notification_attempt expire_notification_recipients serve
attempt (claim_next locked owner now lease token) db = do
  done ← claim_next_notification_attempt locked owner now lease token db
  ok done.0
attempt (expire locked now limit) db = do
  done ← expire_notification_recipients locked now limit db
  ok done.0
attempt (ask r c now) db = do done ← serve r c now db; ok done.0

-- The database after a transaction: its result, or by the rollback what it was.
abbrev pub settled : Result Db → Db → Db
settled (ok after) before = after
settled (err e) before = before

unfoldable pub run : List Op → Db → Db
unfolding attempt
run [] db = db
run (op ∷ ops) db = run ops (settled (attempt op db) db)
