-- ===== src/Notifications/Tests.antt =====
-- Runs of the notification queue at concrete inputs.
use mnemex.Base.{
  ℕ, ◌≤◌, ◌<◌, ◌+◌, ◌*◌, ◌^◌, min, String, ◌≡◌, ◌≢◌, refl, Bool, true, false, ◌⊎◌, Option, none,
  some, List, [], ◌∷◌, arith, ok, All,
}
use mnemex.Base.Moment.{Timedelta, seconds, checked_now, checked_lease, aware}
use mnemex.Base.Rows
use mnemex.Base.Rows.{Unique}
use mnemex.Base.Ordered.{before3, place}
use mnemex.Base.Strip.{is_empty, strip, count, has_control}
use mnemex.Notifications.Model.{
  Status, DeliveryPhase, Notification, Db, ClaimedSecurityNotification, SecurityNotificationOutcome,
  key, assert_claim, AuditEvent, outcome, checked_owner, checked_limit,
}
use mnemex.Notifications.Retention.{expire_notification_recipients}
use mnemex.Notifications.Claims.{
  ClaimAttempt, claim_next_notification_attempt, next_claimable, claim_key, claim_ready_at,
}
use mnemex.Notifications.History.{
  heartbeat, hand_off, deliver, fail_before_handoff, Op, claim_next, ask, serve, run,
}
use mnemex.Notifications.Worker.{Round, Batch, accepted, run_security_notifications_once}
use mnemex.Notifications.Validity.{IsValid, run-IsValid}
use mnemex.Notifications.Fencing.{
  run-ended, takeover_fences, handoff_excludes, handoff_not_reclaimed,
}
use mnemex.Notifications.Accounting.{IsBalanced, run_once-IsBalanced}
use mnemex.Notifications.Selection.{
  free_at, next_claimable_first, claim_next_idle, heartbeat_renews, preaccept_failure_backoff,
}

abbrev waiting : Notification
waiting = record {
  notification_id = 7;
  account_id = 3;
  template_identifier = "account/email/password_changed";
  context_code = "allauth-security-v1";
  idempotency_key = "k";
  message_id = "m";
  recipient_ciphertext = "v1.abc";
  recipient_hmac = "h";
  encryption_key_version = 1;
  status = Status.pending;
  delivery_phase = DeliveryPhase.pre_handoff;
  attempt_count = 0;
  failure_count = 0;
  max_attempts = 5;
  available_at = 100;
  claim_token = "";
  claim_owner = "";
  claim_generation = 0;
  heartbeat_at = none;
  lease_expires_at = none;
  handoff_at = none;
  started_at = none;
  delivered_at = none;
  completed_at = none;
  review_required_at = none;
  recipient_retention_deadline = 9_000_000_000;
  recipient_purged_at = none;
  last_error_code = "";
  created_at = 100;
}

-- The same notification under the claim of worker w1.
abbrev under_claim : Notification
under_claim = record waiting {
  status = Status.running;
  attempt_count = 1;
  claim_generation = 1;
  claim_token = "t1";
  claim_owner = "w1";
  heartbeat_at = some 200;
  lease_expires_at = some 300_000_200;
  started_at = some 200;
}

abbrev first_claim : ClaimedSecurityNotification
first_claim = record { notification_id = 7; token = "t1"; generation = 1; owner = "w1" }

abbrev before : Db
before = record { rows = waiting ∷ []; audit = [] }

abbrev held_db : Db
held_db = record { rows = under_claim ∷ []; audit = [] }

abbrev nobody : ℕ → Bool
nobody _ = false

abbrev five_minutes : Timedelta
five_minutes = Timedelta.pos 300_000_000

claimed_at_200 :
    claim_next_notification_attempt nobody " w1 " (aware 200) five_minutes "t1" before
    ≡ ok (held_db, record { claim = some first_claim; terminalized = false })
unfolding claim_next_notification_attempt checked_now checked_lease checked_owner is_empty strip
    count has_control expire_notification_recipients checked_limit next_claimable place Rows.save
claimed_at_200 = refl

-- Another worker takes over after the lease.
abbrev second_claim : ClaimedSecurityNotification
second_claim = record { notification_id = 7; token = "t2"; generation = 2; owner = "w2" }

abbrev taken_over : Db
taken_over = record {
  rows =
      (record under_claim {
        attempt_count = 2;
        failure_count = 1;
        claim_generation = 2;
        claim_token = "t2";
        claim_owner = "w2";
        heartbeat_at = some 400_000_000;
        lease_expires_at = some 700_000_000;
      })
      ∷ [];
  audit = [];
}

takeover :
    claim_next_notification_attempt nobody "w2" (aware 400_000_000) five_minutes "t2" held_db
    ≡ ok (taken_over, record { claim = some second_claim; terminalized = false })
unfolding claim_next_notification_attempt checked_now checked_lease checked_owner is_empty strip
    count has_control expire_notification_recipients checked_limit next_claimable place Rows.save
takeover = refl

one_row : (n : Notification) (audit : List AuditEvent) → Unique key (n ∷ [])
one_row n audit = (tt, tt)

takeover_fences_example :
    serve deliver first_claim
      (aware 400_000_001)
      (run (ask (heartbeat five_minutes) second_claim (aware 400_000_000) ∷ []) taken_over)
    ≢ ok (
      taken_over,
      record {
        notification_id = 7;
        status = Status.delivered;
        attempt_count = 2;
        failure_count = 1;
        error_code = "";
        available_at = 100;
      },
    )
takeover_fences_example =
    takeover_fences nobody "w2" (aware 400_000_000) five_minutes "t2" held_db taken_over
      (record { claim = some second_claim; terminalized = false }) second_claim first_claim
      (ask (heartbeat five_minutes) second_claim (aware 400_000_000) ∷ []) deliver
      (aware 400_000_001) _ (one_row under_claim []) takeover refl refl (omega arith)

abbrev handed : Notification
handed = record under_claim { delivery_phase = DeliveryPhase.handoff; handoff_at = some 300 }

abbrev handed_db : Db
handed_db = record { rows = handed ∷ []; audit = [] }

abbrev report : Status → ℕ → String → ℕ → SecurityNotificationOutcome
report status failures code available = record {
  notification_id = 7;
  status = status;
  attempt_count = 1;
  failure_count = failures;
  error_code = code;
  available_at = available;
}

handed_off :
    serve hand_off first_claim (aware 300) held_db ≡ ok (handed_db, report Status.running 0 "" 100)
unfolding serve checked_now assert_claim Rows.get Rows.save outcome
handed_off = refl

-- A heartbeat after the handoff, then the delivery.
abbrev beat : List Op
beat = ask (heartbeat five_minutes) first_claim (aware 400) ∷ []

delivered_after :
    (p : Db × SecurityNotificationOutcome) × (serve deliver first_claim
        (aware 500)
        (run beat handed_db)
      ≡ ok p)
unfolding serve run checked_now checked_lease assert_claim Rows.get Rows.save
delivered_after = (_, refl)

handoff_excludes_example : first_claim.generation ≡ first_claim.generation
handoff_excludes_example =
    handoff_excludes first_claim first_claim (aware 300) (aware 500) held_db handed_db
      (report Status.running 0 "" 100) beat deliver delivered_after.0 (one_row under_claim [])
      handed_off refl delivered_after.1

-- A new notification beside the one that was handed off.
abbrev other_waiting : Notification
other_waiting = record waiting { notification_id = 8 }

abbrev two_db : Db
two_db = record { rows = under_claim ∷ other_waiting ∷ []; audit = [] }

abbrev two_handed : Db
two_handed = record { rows = handed ∷ other_waiting ∷ []; audit = [] }

two-Unique : Unique key two_db.rows
two-Unique = ((refl, tt), (tt, tt))

two_handed_off :
    serve hand_off first_claim (aware 300) two_db ≡ ok (two_handed, report Status.running 0 "" 100)
unfolding serve checked_now assert_claim Rows.get Rows.save outcome
two_handed_off = refl

abbrev other_claim : ClaimedSecurityNotification
other_claim = record { notification_id = 8; token = "t9"; generation = 1; owner = "w2" }

other_claimed :
    (p : Db × ClaimAttempt) × (claim_next_notification_attempt nobody "w2"
        (aware 500)
        five_minutes
        "t9"
        (run beat two_handed)
      ≡ ok p)
    × (p.1.claim ≡ some other_claim)
unfolding claim_next_notification_attempt checked_now checked_lease checked_owner is_empty strip
    count has_control expire_notification_recipients checked_limit next_claimable place Rows.save
    Rows.get run assert_claim
other_claimed = (_, refl, refl)

handoff_not_reclaimed_example : other_claim.notification_id ≢ first_claim.notification_id
handoff_not_reclaimed_example =
    handoff_not_reclaimed first_claim other_claim (aware 300) (aware 500) two_db two_handed
      (report Status.running 0 "" 100) beat nobody "w2" five_minutes "t9" other_claimed.0 two-Unique
      two_handed_off other_claimed.1 other_claimed.2

waiting-IsValid : IsValid waiting
unfolding is_empty
waiting-IsValid = ground arith

abbrev claim_and_beat : List Op
claim_and_beat = claim_next nobody "w1" (aware 200) five_minutes "t1" ∷ beat

run-IsValid_example :
    Unique key (run claim_and_beat before).rows × All IsValid (run claim_and_beat before).rows
run-IsValid_example =
    run-IsValid claim_and_beat before (unfold is_empty in (refl, (tt, tt))) (one_row waiting [])
      (waiting-IsValid, tt)

abbrev done : Notification
done = record handed { status = Status.delivered; claim_token = ""; claim_owner = "" }

run-ended_example :
    (n' : Notification) × (Rows.get key 7 (run beat (record { rows = done ∷ []; audit = [] })).rows
      ≡ some n')
    × (n'.status ≡ Status.delivered)
run-ended_example =
    run-ended beat (record { rows = done ∷ []; audit = [] }) 7 done (one_row done [])
      (unfold Rows.get in refl) refl

-- One round in which everything goes well.
abbrev fair : Round
fair = record {
  stop_first = false;
  stop_before_open = false;
  stop_before_handoff = false;
  locked = nobody;
  token = "t1";
  opens = true;
  sending = accepted;
  clock = λ i. 200 + i;
  meanwhile = λ i db. db;
}

abbrev plain : Notification → Option String
plain n = some "a@example.org"

abbrev rendered : Notification → String → Option String
rendered n recipient = some recipient

delivers_one :
    (p : Db) × (k : Batch) × (run_security_notifications_once plain rendered "w1" 3
        (λ _. fair)
        before
      ≡ (p, ok k))
    × (k.delivered ≡ 1)
unfolding run_security_notifications_once claim_next_notification_attempt checked_now checked_lease
    checked_owner is_empty strip count has_control expire_notification_recipients checked_limit
    next_claimable place Rows.save Rows.get assert_claim outcome
delivers_one = (_, _, refl, refl)

run_once-IsBalanced_example : IsBalanced delivers_one.1 × (delivers_one.1.claimed ≤ 3) × (3 ≤ 25)
run_once-IsBalanced_example =
    run_once-IsBalanced plain rendered "w1" 3 (λ _. fair) before delivers_one.0 delivers_one.1
      delivers_one.2

first_of_two : next_claimable nobody 500 (other_waiting ∷ waiting ∷ []) ≡ some waiting
unfolding next_claimable place before3 claim_ready_at
first_of_two = refl

two_rows : Unique key (other_waiting ∷ waiting ∷ [])
two_rows = ((refl, tt), (tt, tt))

next_claimable_first_example :
    (Rows.get key 7 (other_waiting ∷ waiting ∷ []) ≡ some waiting)
    × (free_at nobody 500 waiting ≡ true)
    × All
        (λ x. free_at nobody 500 x ≡ true → before3 (claim_key x) (claim_key waiting) ≡ false)
        (other_waiting ∷ waiting ∷ [])
next_claimable_first_example =
    next_claimable_first nobody 500 (other_waiting ∷ waiting ∷ []) waiting two_rows first_of_two

nothing_ready :
    claim_next_notification_attempt nobody "w2" (aware 500) five_minutes "t2" held_db
    ≡ ok (held_db, record { claim = none; terminalized = false })
unfolding claim_next_notification_attempt checked_now checked_lease checked_owner is_empty strip
    count has_control expire_notification_recipients checked_limit next_claimable place Rows.save
nothing_ready = refl

claim_next_idle_example : All (λ x. free_at nobody 500 x ≡ false) held_db.rows
unfolding checked_now
claim_next_idle_example =
    claim_next_idle nobody "w2" (aware 500) five_minutes "t2" held_db held_db
      (record { claim = none; terminalized = false }) 500 nothing_ready refl refl refl

beaten :
    (p : Db × SecurityNotificationOutcome) × (serve
        (heartbeat five_minutes)
        first_claim
        (aware 400)
        held_db
      ≡ ok p)
unfolding serve checked_now checked_lease assert_claim Rows.get Rows.save outcome
beaten = (_, refl)

heartbeat_renews_example :
    (n : Notification) × (Rows.get key 7 beaten.0.0.rows ≡ some n)
    × (assert_claim n first_claim 300_000_300 ≡ ok tt)
unfolding checked_now checked_lease
heartbeat_renews_example =
    heartbeat_renews first_claim (aware 400) five_minutes held_db beaten.0.0 beaten.0.1 400
      300_000_000 300_000_300 beaten.1 refl refl (omega arith)

failed_once :
    (p : Db × SecurityNotificationOutcome) × (serve
        (fail_before_handoff "transport_unavailable" false)
        first_claim
        (aware 400)
        held_db
      ≡ ok p)
unfolding serve checked_now assert_claim Rows.get Rows.save outcome
failed_once = (_, refl)

preaccept_failure_backoff_example :
    (n' : Notification) × (Rows.get key 7 failed_once.0.0.rows ≡ some n')
    × (failed_once.0.1.failure_count ≡ 0 + 1)
    × (failed_once.0.1.status ≡ n'.status)
    × ((n'.status ≡ Status.failed_review) × (5 ≤ 0 + 1) × (n'.failure_count ≡ 0)
        ⊎ (n'.status ≡ Status.retry_wait)
          × (0 + 1 < 5)
          × (n'.failure_count ≡ 0 + 1)
          × (n'.available_at ≡ 400 + seconds (min (30 * 2 ^ 0) 900)))
unfolding checked_now
preaccept_failure_backoff_example =
    preaccept_failure_backoff first_claim (aware 400) "transport_unavailable" held_db
      failed_once.0.0 failed_once.0.1 under_claim 400 failed_once.1 refl (unfold Rows.get in refl)
