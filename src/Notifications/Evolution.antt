-- ===== src/Notifications/Evolution.antt =====
-- From rows to the database: every transition of the queue is a sequence of writes, each of which
-- takes one row along an edge. What holds of every such write holds of every run.
use mnemex.Base.{
  ℕ, String, ◌≡◌, refl, sym, ap, ◌∙◌, Bool, true, false, not, ◌&&◌, some, List, ok, >>=-eq-ok,
  ◌>>=◌, or_raise-eq-ok, arith,
}
use mnemex.Base.Moment.{Moment, Timedelta, checked_now, checked_lease}
use mnemex.Base.Rows
use mnemex.Base.Rows.{key-get, All-get_self, Unique, Unique-save}
use mnemex.Base.Query.{first_row}
use mnemex.Base.Ordered.{before3}
use mnemex.Base.Strip.{is_empty}
use mnemex.Notifications.Model.{
  Notification, AuditEvent, Db, ClaimedSecurityNotification, SecurityNotificationOutcome, key,
  assert_claim, locked_notification, commit, update_claimed, outcome, checked_owner,
}
use mnemex.Notifications.Settle.{
  Step, heartbeat_step, handoff_step, delivered_step, preaccept_failure_step, uncertain_step,
  terminal_failure_step, release_step, heartbeat_notification,
}
use mnemex.Notifications.Claims.{claimable, next_claimable, claim_key}
use mnemex.Notifications.History.{
  Request, heartbeat, hand_off, deliver, fail_before_handoff, report_uncertain, fail_terminally,
  release, serve,
}
use mnemex.Notifications.Edges.{request_row}

-- What a successful request of a claim's holder did.
pub record Served (r : Request) (c : ClaimedSecurityNotification) (m : Moment) (db db' : Db)
    (o : SecurityNotificationOutcome) : Type 0 where
  pub at : ℕ
  pub old : Notification
  pub new : Notification
  pub shown : Notification
  pub events : List AuditEvent
  pub timed : checked_now m ≡ ok at
  pub found : Rows.get key c.notification_id db.rows ≡ some old
  pub asserted : assert_claim old c at ≡ ok tt
  pub stepped : request_row r at old ≡ ok (new, shown, events)
  pub committed : db' ≡ commit new events db
  pub reported : o ≡ outcome shown

module _ (r : Request) (c : ClaimedSecurityNotification) (m : Moment) (db db' : Db)
    (o : SecurityNotificationOutcome) where
  Served-at :
      (now : ℕ) (step : Step)
      → checked_now m ≡ ok now
      → ((n : Notification) → step n ≡ request_row r now n)
      → update_claimed c now step db ≡ ok (db', o)
      → Served r c m db db' o
  unfolding update_claimed
  Served-at now step timed same h =
      let (n, hn, h1) = >>=-eq-ok (locked_notification c.notification_id db) _ h in
      let (t, ht, h2) = >>=-eq-ok (assert_claim n c now) _ h1 in
      let (p, hp, h3) = >>=-eq-ok (step n) _ h2 in
      record {
        at = now;
        old = n;
        new = p.0;
        shown = p.1;
        events = p.2;
        timed = timed;
        found =
            unfold locked_notification in
            or_raise-eq-ok (Rows.get key c.notification_id db.rows) _ hn;
        asserted = ht;
        stepped = sym (same n) ∙ hp;
        committed = cc h3;
        reported = cc h3;
      }

  Served-by :
      (step : ℕ → Step)
      → ((now : ℕ) (n : Notification) → step now n ≡ request_row r now n)
      → (checked_now m >>= λ now. update_claimed c now (step now) db) ≡ ok (db', o)
      → Served r c m db db' o
  Served-by step same h =
      let (now, hn, h1) = >>=-eq-ok (checked_now m) _ h in Served-at now (step now) hn (same now) h1

heartbeat_row :
    (d : Timedelta) (now lease : ℕ) (n : Notification)
    → checked_lease d ≡ ok lease
    → heartbeat_step now lease n ≡ request_row (heartbeat d) now n
unfolding request_row
heartbeat_row d now lease n h = sym (ap (λ r. r >>= λ l. heartbeat_step now l n) h)

module _ (c : ClaimedSecurityNotification) (m : Moment) (db db' : Db)
    (o : SecurityNotificationOutcome) where
  serve_heartbeat :
      (d : Timedelta)
      → heartbeat_notification c m d db ≡ ok (db', o)
      → Served (heartbeat d) c m db db' o
  unfolding heartbeat_notification request_row
  serve_heartbeat d h =
      let (now, hn, h1) = >>=-eq-ok (checked_now m) _ h in
      let (lease, hl, h2) = >>=-eq-ok (checked_lease d) _ h1 in
      Served-at (heartbeat d) c m db db' o now (heartbeat_step now lease) hn
        (λ n. heartbeat_row d now lease n hl) h2

  -- A request that succeeds was made of the row that the claim holds.
  pub serve-Served : (r : Request) → serve r c m db ≡ ok (db', o) → Served r c m db db' o
  unfolding serve request_row
  serve-Served (heartbeat lease) h = serve_heartbeat lease h
  serve-Served hand_off h = Served-by hand_off c m db db' o handoff_step (λ t n. refl) h
  serve-Served deliver h = Served-by deliver c m db db' o delivered_step (λ t n. refl) h
  serve-Served (fail_before_handoff code soon) h =
      Served-by (fail_before_handoff code soon) c m db db' o (preaccept_failure_step code soon)
        (λ t n. refl) h
  serve-Served (report_uncertain code) h =
      Served-by (report_uncertain code) c m db db' o (uncertain_step code) (λ t n. refl) h
  serve-Served (fail_terminally code) h =
      Served-by (fail_terminally code) c m db db' o (terminal_failure_step code) (λ t n. refl) h
  serve-Served release h = Served-by release c m db db' o release_step (λ t n. refl) h

pub checked_owner-filled : (owner o : String) → checked_owner owner ≡ ok o → is_empty o ≡ false
unfolding checked_owner
checked_owner-filled owner o h = ground arith

-- The row that a claim selects is in the table, and is claimable.
pub next_claimable-due :
    (locked : ℕ → Bool) (now : ℕ) (rows : List Notification) (n : Notification)
    → Unique key rows
    → next_claimable locked now rows ≡ some n
    → (Rows.get key (key n) rows ≡ some n)
      × (claimable now n && not (locked n.notification_id) ≡ true)
unfolding next_claimable
next_claimable-due locked now rows n u h =
    let (free, found) =
      first_row key (λ a b. before3 (claim_key a) (claim_key b))
        (λ x. claimable now x && not (locked x.notification_id)) rows u n h in
    (found, free)
