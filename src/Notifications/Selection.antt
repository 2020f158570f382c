-- ===== src/Notifications/Selection.antt =====
-- Which notification a claim selects, what a heartbeat gives its claim, and how a failure before the
-- handoff is retried.
use mnemex.Base.{
  ℕ, ◌+◌, ◌-◌, ◌*◌, ◌^◌, min, ◌≤◌, ◌<◌, String, ◌≡◌, refl, sym, ap, ◌∙◌, subst, Bool, true, false,
  not, ◌&&◌, Option, none, some, List, ◌⊎◌, arith, ok, All, All-map, >>=-eq-ok, select,
}
use mathlib.Core.Option.{some-injective}
use mnemex.Base.Moment.{Moment, Timedelta, checked_now, checked_lease, seconds, retry_delay}
use mnemex.Base.Rows
use mnemex.Base.Rows.{get-save_self, key-get, Unique}
use mnemex.Base.Ordered.{
  before3, first_leads, no_first, IsOrder-key3, before3_irrefl, All-of-select,
}
use mnemex.Notifications.Model.{
  Status, Notification, AuditEvent, Db, ClaimedSecurityNotification, SecurityNotificationOutcome,
  key, assert_claim, commit, outcome, checked_owner,
}
use mnemex.Notifications.Settle.{heartbeat_step, preaccept_failure_step}
use mnemex.Notifications.Retention.{expire_notification_recipients}
use mnemex.Notifications.Claims.{
  ClaimAttempt, claimable, claim_key, claim_step, next_claimable, settle_claim,
  claim_next_notification_attempt,
}
use mnemex.Notifications.History.{Request, heartbeat, fail_before_handoff, serve}
use mnemex.Notifications.Edges.{request_row}
use mnemex.Notifications.Evolution.{Served, serve-Served, next_claimable-due}

-- Claimable, and not held by another transaction.
abbrev pub free_at : (ℕ → Bool) → ℕ → Notification → Bool
free_at locked now x = claimable now x && not (locked x.notification_id)

-- In a table whose keys are unique, the row that a claim selects is a row of the table that is
-- claimable and free, and it is the first of those, in the order of the time from which it is ready,
-- then of its creation, then of its key.
pub next_claimable_first :
    (locked : ℕ → Bool) (now : ℕ) (rows : List Notification) (n : Notification)
    → Unique key rows
    → next_claimable locked now rows ≡ some n
    → (Rows.get key (key n) rows ≡ some n)
      × (free_at locked now n ≡ true)
      × All (λ x. free_at locked now x ≡ true → before3 (claim_key x) (claim_key n) ≡ false) rows
unfolding next_claimable
next_claimable_first locked now rows n u h =
    let (found, free) = next_claimable-due locked now rows n u h in
    (
      found,
      free,
      All-of-select (free_at locked now) (λ x. before3 (claim_key x) (claim_key n) ≡ false) rows
          (first_leads (λ a b. before3 (claim_key a) (claim_key b)) (IsOrder-key3 claim_key)
            (select (free_at locked now) rows) n (before3_irrefl (claim_key n)) h),
    )

next_claimable-none :
    (locked : ℕ → Bool) (now : ℕ) (rows : List Notification)
    → next_claimable locked now rows ≡ none
    → All (λ x. free_at locked now x ≡ false) rows
unfolding next_claimable
next_claimable-none locked now rows h =
    All-map (λ x never. not-true (free_at locked now x) never) rows
      (All-of-select (free_at locked now) (λ _. ⊥) rows
        (no_first (λ a b. before3 (claim_key a) (claim_key b)) (λ _. ⊥)
          (select (free_at locked now) rows) h))
  where
    not-true : (b : Bool) → (b ≡ true → ⊥) → b ≡ false
    not-true true never = absurd (never refl)
    not-true false _ = refl

settle_claim_idle :
    (locked : ℕ → Bool) (owner : String) (now lease : ℕ) (token : String) (o : Option Notification)
    (db : Db)
    → next_claimable locked now db.rows ≡ o
    → (settle_claim owner now lease token o db).1.claim ≡ none
    → (settle_claim owner now lease token o db).1.terminalized ≡ false
    → All (λ x. free_at locked now x ≡ false) (settle_claim owner now lease token o db).0.rows
unfolding settle_claim
settle_claim_idle locked owner now lease token none db e h t =
    next_claimable-none locked now db.rows e
settle_claim_idle locked owner now lease token (some n) db e h t =
    absurd (claim_step_moves owner now lease token n h t)
  where
    claim_step_moves :
        (owner : String) (now lease : ℕ) (token : String) (n : Notification)
        → (claim_step owner now lease token n).1.claim ≡ none
        → (claim_step owner now lease token n).1.terminalized ≡ false
        → ⊥
    claim_step_moves owner now lease token n h t = unfold claim_step in ground arith

-- The worker stops only at an empty queue: an attempt that neither gives a claim nor ends a
-- notification leaves no row that is claimable and free.
pub claim_next_idle :
    (locked : ℕ → Bool) (owner : String) (m : Moment) (d : Timedelta) (token : String) (db db' : Db)
    (a : ClaimAttempt) (at : ℕ)
    → claim_next_notification_attempt locked owner m d token db ≡ ok (db', a)
    → checked_now m ≡ ok at
    → a.claim ≡ none
    → a.terminalized ≡ false
    → All (λ x. free_at locked at x ≡ false) db'.rows
unfolding claim_next_notification_attempt
claim_next_idle locked owner m d token db db' a at h timed none_given open_end =
    let (now, hn, h1) = >>=-eq-ok (checked_now m) _ h in
    let (checked, hc, h2) = >>=-eq-ok (checked_owner owner) _ h1 in
    let (lease, hl, h3) = >>=-eq-ok (checked_lease d) _ h2 in
    let (expiry, he, h4) =
      >>=-eq-ok (expire_notification_recipients locked (Moment.aware now) 100 db) _ h3 in
    let next = next_claimable locked now expiry.0.rows in
    let after = settle_claim checked now lease token next expiry.0 in
    let same_db : after.0 ≡ db' = cc h4 in
    let same_attempt : after.1 ≡ a = cc h4 in
    let same_time : now ≡ at = cc (hn, timed) in
    subst (λ t. All (λ x. free_at locked t x ≡ false) db'.rows) same_time
      (subst (λ (x : Db). All (λ x. free_at locked now x ≡ false) x.rows) same_db
        (settle_claim_idle locked checked now lease token next expiry.0 refl
          (ap (λ (x : ClaimAttempt). x.claim) same_attempt ∙ none_given)
          (ap (λ (x : ClaimAttempt). x.terminalized) same_attempt ∙ open_end)))

Served-found :
    (r : Request) (c : ClaimedSecurityNotification) (m : Moment) (db db' : Db)
    (o : SecurityNotificationOutcome) (s : Served r c m db db' o)
    → s.new.notification_id ≡ s.old.notification_id
    → Rows.get key c.notification_id db'.rows ≡ some s.new
unfolding commit
Served-found r c m db db' o s same =
    let id = same ∙ key-get key c.notification_id db.rows s.old s.found in
    let at_key = subst (λ k. Rows.get key k db.rows ≡ some s.old) (sym id) s.found in
    subst (λ (x : Db). Rows.get key c.notification_id x.rows ≡ some s.new) (sym s.committed)
      (subst (λ k. Rows.get key k (Rows.save key s.new db.rows) ≡ some s.new) id
        (get-save_self key s.new s.old db.rows at_key))

heartbeat_row_holds :
    (d : Timedelta) (c : ClaimedSecurityNotification) (now lease t : ℕ) (n n' shown : Notification)
    (events : List AuditEvent)
    → checked_lease d ≡ ok lease
    → assert_claim n c now ≡ ok tt
    → request_row (heartbeat d) now n ≡ ok (n', shown, events)
    → t ≤ now + lease
    → (n'.notification_id ≡ n.notification_id) × (assert_claim n' c t ≡ ok tt)
unfolding request_row heartbeat_step assert_claim
heartbeat_row_holds d c now lease t n n' shown events hl held h le =
    let (l, hl', hs) = >>=-eq-ok (checked_lease d) _ h in
    let same : l ≡ lease = cc (hl', hl) in ground arith

-- A heartbeat renews the claim: after it, the row asserts the same claim at every time up to the
-- full lease from the heartbeat on.
pub heartbeat_renews :
    (c : ClaimedSecurityNotification) (m : Moment) (d : Timedelta) (db db' : Db)
    (o : SecurityNotificationOutcome) (now lease t : ℕ)
    → serve (heartbeat d) c m db ≡ ok (db', o)
    → checked_now m ≡ ok now
    → checked_lease d ≡ ok lease
    → t ≤ now + lease
    → (n : Notification) × (Rows.get key c.notification_id db'.rows ≡ some n)
      × (assert_claim n c t ≡ ok tt)
heartbeat_renews c m d db db' o now lease t h timed hl le =
    let s = serve-Served c m db db' o (heartbeat d) h in
    let same : now ≡ s.at = cc (timed, s.timed) in
    let (id, holds) =
      heartbeat_row_holds d c s.at lease t s.old s.new s.shown s.events hl s.asserted s.stepped
        (subst (λ x. t ≤ x + lease) same le) in
    (s.new, Served-found (heartbeat d) c m db db' o s id, holds)

retry_delay_suc : (f : ℕ) → retry_delay false (f + 1) ≡ seconds (min (30 * 2 ^ f) 900)
unfolding retry_delay
retry_delay_suc f =
    ap (λ (k : ℕ). seconds (min (30 * 2 ^ k) 900)) (let e : f + 1 - 1 ≡ f = omega arith in e)

preaccept_row :
    (code : String) (now : ℕ) (n n' shown : Notification) (events : List AuditEvent)
    → request_row (fail_before_handoff code false) now n ≡ ok (n', shown, events)
    → (n'.notification_id ≡ n.notification_id)
      × (shown.failure_count ≡ n.failure_count + 1)
      × (shown.status ≡ n'.status)
      × ((n'.status ≡ Status.failed_review)
            × (n.max_attempts ≤ n.failure_count + 1)
            × (n'.failure_count ≡ n.failure_count)
          ⊎ (n'.status ≡ Status.retry_wait)
            × (n.failure_count + 1 < n.max_attempts)
            × (n'.failure_count ≡ n.failure_count + 1)
            × (n'.available_at ≡ now + retry_delay false (n.failure_count + 1)))
unfolding request_row preaccept_failure_step
preaccept_row code now n n' shown events h = ground arith

-- A failure before the handoff that is served, and not asked to be retried at once, is reported as
-- charged once, with the status of the stored row. The last attempt that is allowed goes to review,
-- and the stored row keeps its count of failures; any other is retried, the stored row is charged
-- once, and it is ready after 30 seconds doubled for each earlier failure, and 15 minutes at most.
pub preaccept_failure_backoff :
    (c : ClaimedSecurityNotification) (m : Moment) (code : String) (db db' : Db)
    (o : SecurityNotificationOutcome) (n : Notification) (now : ℕ)
    → serve (fail_before_handoff code false) c m db ≡ ok (db', o)
    → checked_now m ≡ ok now
    → Rows.get key c.notification_id db.rows ≡ some n
    → (n' : Notification) × (Rows.get key c.notification_id db'.rows ≡ some n')
      × (o.failure_count ≡ n.failure_count + 1)
      × (o.status ≡ n'.status)
      × ((n'.status ≡ Status.failed_review)
            × (n.max_attempts ≤ n.failure_count + 1)
            × (n'.failure_count ≡ n.failure_count)
          ⊎ (n'.status ≡ Status.retry_wait)
            × (n.failure_count + 1 < n.max_attempts)
            × (n'.failure_count ≡ n.failure_count + 1)
            × (n'.available_at ≡ now + seconds (min (30 * 2 ^ n.failure_count) 900)))
unfolding outcome
preaccept_failure_backoff c m code db db' o n now h timed found =
    let s = serve-Served c m db db' o (fail_before_handoff code false) h in
    let row = preaccept_row code s.at s.old s.new s.shown s.events s.stepped in
    let stored = Served-found (fail_before_handoff code false) c m db db' o s row.0 in
    let same : s.old ≡ n = some-injective s.old n (sym s.found ∙ found) in
    let same_time : s.at ≡ now = cc (s.timed, timed) in
    let reported : o ≡ outcome s.shown = s.reported in
    (
      s.new,
      stored,
      ground arith,
      ground arith,
      ground (arith, row.3, retry_delay_suc n.failure_count),
    )
