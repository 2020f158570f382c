-- ===== src/Notifications/Accounting.antt =====
-- The counts of a batch: every claim of the batch is counted once by how it ended.
use mnemex.Base.{
  ℕ, zero, suc, ◌+◌, ◌≤◌, String, ◌≡◌, refl, sym, ap, subst, Bool, true, false, Option, none, some,
  List, arith, Result, ok, err, Option-cases, inl, inr, Bool-cases, claim_lost, not, if◌then◌else◌,
}
use mnemex.Base.Moment.{Moment}
use mnemex.Base.Rows
use mnemex.Notifications.Model.{
  Status, Notification, AuditEvent, ClaimedSecurityNotification, SecurityNotificationOutcome, Db,
  key, outcome, checked_limit,
}
use mnemex.Notifications.Settle.{
  delivered_step, preaccept_failure_step, uncertain_step, terminal_failure_step, release_step,
}
use mnemex.Notifications.Claims.{ClaimAttempt}
use mnemex.Notifications.History.{
  Request, heartbeat, hand_off, deliver, fail_before_handoff, report_uncertain, fail_terminally,
  release, serve,
}
use mnemex.Notifications.Edges.{request_row}
use mnemex.Notifications.Evolution.{serve-Served}
use mnemex.Notifications.Worker.{
  Round, Batch, RoundEnd, go_on, finish, accepted, refused, raised, no_batch, tally, transact,
  request, send_handed, after_handoff, open_and_send, deliver_message, deliver_to, deliver_row,
  deliver_claim, count_outcome, after_claim, round, rounds, rounds_within,
  run_security_notifications_once,
}

abbrev settles : Request → Bool
settles (heartbeat d) = false
settles hand_off = false
settles _ = true

-- The statuses that the worker counts.
abbrev counted : Status → Bool
counted Status.pending = false
counted Status.running = false
counted _ = true

request_row-counted :
    (r : Request) (now : ℕ) (n n' shown : Notification) (events : List AuditEvent)
    → settles r ≡ true
    → request_row r now n ≡ ok (n', shown, events)
    → counted shown.status ≡ true
unfolding request_row delivered_step preaccept_failure_step uncertain_step terminal_failure_step
    release_step
request_row-counted (heartbeat d) now n n' shown events s h = cc
request_row-counted _ now n n' shown events s h = ground arith

transact-eq-ok {ℓ} :
    {A : Type ℓ} (r : Result (Db × A)) (before : Db) (a : A)
    → (transact r before).1 ≡ ok a
    → (after : Db) × (r ≡ ok (after, a))
transact-eq-ok (ok (after, b)) before a h = (after, cc h)
transact-eq-ok (err e) before a h = cc

abbrev Counts : Db × Result SecurityNotificationOutcome → Type 0
Counts p = (o : SecurityNotificationOutcome) → p.1 ≡ ok o → counted o.status ≡ true

request-Counts :
    (e : Round) (i : ℕ) (r : Request) (c : ClaimedSecurityNotification) (db : Db)
    → settles r ≡ true
    → Counts (request e i r c db)
unfolding request outcome
request-Counts e i r c db s o h =
    let before = e.meanwhile i db in
    let m = Moment.clock (e.clock i) in
    let (after, served) = transact-eq-ok (serve r c m before) before o h in
    let w = serve-Served c m before after o r served in
    subst (λ (x : SecurityNotificationOutcome). counted x.status ≡ true) (sym w.reported)
      (request_row-counted r w.at w.old w.new w.shown w.events s w.stepped)

module _ (e : Round) (c : ClaimedSecurityNotification) where
  send_handed-Counts : (db : Db) → Counts (send_handed e c db)
  unfolding send_handed
  send_handed-Counts db =
      elim e.sending
        as (λ s. Counts (elim s [
          | accepted ↦ request e 4 deliver c db
          | refused ↦ request e 4 (report_uncertain "smtp_acceptance_not_confirmed") c db
          | raised ↦ request e 4 (report_uncertain "smtp_outcome_ambiguous") c db
        ])) [
          | accepted ↦ request-Counts e 4 deliver c db refl
          | refused ↦
              request-Counts e 4 (report_uncertain "smtp_acceptance_not_confirmed") c db refl
          | raised ↦ request-Counts e 4 (report_uncertain "smtp_outcome_ambiguous") c db refl
        ]

  after_handoff-Counts :
      (p : Db × Result SecurityNotificationOutcome) → Counts (after_handoff e c p)
  unfolding after_handoff
  after_handoff-Counts (db, err x) = λ o h. cc
  after_handoff-Counts (db, ok _) = send_handed-Counts db

Counts-if :
    (b : Bool) (p q : Db × Result SecurityNotificationOutcome)
    → Counts p
    → Counts q
    → Counts (if b then p else q)
Counts-if true p q hp hq = hp
Counts-if false p q hp hq = hq

module _ {M : Type 0} (decrypt : Notification → Option String)
    (render : Notification → String → Option M) (e : Round) (c : ClaimedSecurityNotification) where
  open_and_send-Counts : (db : Db) → Counts (open_and_send decrypt render e c db)
  unfolding open_and_send
  open_and_send-Counts db =
      Counts-if e.stop_before_open _ _ (request-Counts e 2 release c db refl) (
        Counts-if (not e.opens) _ _
          (request-Counts e 2 (fail_before_handoff "transport_unavailable" false) c db refl)
          (Counts-if e.stop_before_handoff _ _ (request-Counts e 2 release c db refl)
            (after_handoff-Counts e c (request e 3 hand_off c db))))

  deliver_message-Counts :
      (o : Option M) (db : Db) → Counts (deliver_message decrypt render e c o db)
  unfolding deliver_message
  deliver_message-Counts none db =
      request-Counts e 2 (fail_terminally "template_render_failed") c db refl
  deliver_message-Counts (some message) db = open_and_send-Counts db

  deliver_to-Counts :
      (n : Notification) (o : Option String) (db : Db)
      → Counts (deliver_to decrypt render e c n o db)
  unfolding deliver_to
  deliver_to-Counts n none db =
      request-Counts e 2 (fail_terminally "recipient_decryption_failed") c db refl
  deliver_to-Counts n (some recipient) db = deliver_message-Counts (render n recipient) db

  deliver_row-Counts :
      (o : Option Notification) (db : Db) → Counts (deliver_row decrypt render e c o db)
  unfolding deliver_row
  deliver_row-Counts none db = λ o h. cc
  deliver_row-Counts (some n) db = deliver_to-Counts n (decrypt n) db

  deliver_claim-Counts : (db : Db) → Counts (deliver_claim decrypt render e c db)
  unfolding deliver_claim
  deliver_claim-Counts db =
      let db1 = e.meanwhile 1 db in deliver_row-Counts (Rows.get key c.notification_id db1.rows) db1

-- Each claim has ended in one of the counted ways.
abbrev pub IsBalanced : Batch → Type 0
IsBalanced k =
    k.claimed
    ≡ k.delivered + k.retry_scheduled + k.failed_review + k.delivery_uncertain + k.expired
      + k.claim_lost

-- What a round's end keeps, if it raises nothing.
abbrev Tallied : ℕ → RoundEnd → Type 0
Tallied used (go_on k) = IsBalanced k × (k.claimed ≤ used)
Tallied used (finish (ok k)) = IsBalanced k × (k.claimed ≤ used)
Tallied used (finish (err x)) = Unit

tally-claimed : (s : Status) (k : Batch) → (tally s k).claimed ≡ k.claimed
unfolding tally
tally-claimed s k = ground arith

count_outcome-Tallied :
    (used : ℕ) (k : Batch) (r : Result SecurityNotificationOutcome)
    → IsBalanced k
    → k.claimed ≤ used
    → ((o : SecurityNotificationOutcome) → r ≡ ok o → counted o.status ≡ true)
    → Tallied (suc used) (count_outcome (record k { claimed = k.claimed + 1 }) r)
unfolding count_outcome tally
count_outcome-Tallied used k (ok o) b l counts = ground (arith, counts o refl)
count_outcome-Tallied used k (err claim_lost) b l counts = ground arith
count_outcome-Tallied used k (err _) b l counts = tt

module _ {M : Type 0} (decrypt : Notification → Option String)
    (render : Notification → String → Option M) where
  after_claim-Tallied :
      (used : ℕ) (e : Round) (k : Batch) (p : Db × Result ClaimAttempt)
      → IsBalanced k
      → k.claimed ≤ used
      → Tallied (suc used) (after_claim decrypt render e k p).1
  unfolding after_claim
  after_claim-Tallied used e k (db, err x) b l = tt
  after_claim-Tallied used e k (db, ok a) b l = elim (Option-cases a.claim) [
    | inl idle ↦ rw idle (elim (Bool-cases a.terminalized) [
      | inl ended ↦ rw ended (b, omega arith)
      | inr waits ↦ rw waits (b, omega arith)
    ])
    | inr (c, given) ↦ rw given (
        count_outcome-Tallied used k (deliver_claim decrypt render e c db).1 b l
          (deliver_claim-Counts decrypt render e c db))
  ]

  round-Tallied :
      (used : ℕ) (owner : String) (e : Round) (k : Batch) (db : Db)
      → IsBalanced k
      → k.claimed ≤ used
      → Tallied (suc used) (round decrypt render owner e k db).1
  unfolding round
  round-Tallied used owner e k db b l = elim (Bool-cases e.stop_first) [
    | inl stop ↦ rw stop (b, omega arith)
    | inr on ↦ rw on (after_claim-Tallied used e k _ b l)
  ]

  rounds-Tallied :
      (limit i used : ℕ) (world : ℕ → Round) (owner : String) (k : Batch) (db : Db)
      → IsBalanced k
      → k.claimed ≤ used
      → Tallied (used + limit) (finish (rounds decrypt render limit i world owner k db).1)
  unfolding rounds
  rounds-Tallied zero i used world owner k db b l = (b, omega arith)
  rounds-Tallied (suc limit) i used world owner k db b l =
      next (round decrypt render owner (world i) k db) (round-Tallied used owner (world i) k db b l)
        (λ k' db' b' l'. rounds-Tallied limit (suc i) (suc used) world owner k' db' b' l')
    where
      next :
          (p : Db × RoundEnd)
          → Tallied (suc used) p.1
          → ((k' : Batch) (db' : Db)
              → IsBalanced k'
              → k'.claimed ≤ suc used
              → Tallied
                  (suc used + limit)
                  (finish (rounds decrypt render limit (suc i) world owner k' db').1))
          → Tallied (used + suc limit) (
              finish
                (elim p.1 as (λ _. Db × Result Batch) [
                  | finish r ↦ (p.0, r)
                  | go_on k' ↦ rounds decrypt render limit (suc i) world owner k' p.0
                ]).1)
      next (db', finish (ok k')) t ih = (t.0, omega arith)
      next (db', finish (err x)) t ih = tt
      next (db', go_on k') t ih =
          widen (rounds decrypt render limit (suc i) world owner k' db').1 (ih k' db' t.0 t.1)
        where
          widen :
              (r : Result Batch)
              → Tallied (suc used + limit) (finish r)
              → Tallied (used + suc limit) (finish r)
          widen (ok q) t = (t.0, omega arith)
          widen (err x) t = tt

  within-Tallied :
      (r : Result ℕ) (limit : ℕ) (world : ℕ → Round) (owner : String) (db db' : Db) (k : Batch)
      → checked_limit limit 25 ≡ r
      → rounds_within decrypt render r world owner db ≡ (db', ok k)
      → IsBalanced k × (k.claimed ≤ limit) × (limit ≤ 25)
  unfolding checked_limit
  within-Tallied (err x) limit world owner db db' k c h = cc (ap (λ p. p.1) h)
  within-Tallied (ok checked) limit world owner db db' k c h =
      let (e, fits) : (checked ≡ limit) × (limit ≤ 25) = ground arith in
      let t : Tallied (0 + checked) (finish (ok k)) =
        subst (λ (p : Db × Result Batch). Tallied (0 + checked) (finish p.1)) h
          (rounds-Tallied checked 0 0 world owner no_batch db refl (omega arith)) in
      (t.0, omega (arith, t.1), fits)

  -- A batch that ends without an exception has claimed at most as many notifications as its limit,
  -- and the limit is at most 25; each claim is counted exactly once, as delivered, retried, failed,
  -- uncertain, expired or lost. This holds whatever other workers do between its transactions.
  pub run_once-IsBalanced :
      (owner : String) (limit : ℕ) (world : ℕ → Round) (db db' : Db) (k : Batch)
      → run_security_notifications_once decrypt render owner limit world db ≡ (db', ok k)
      → IsBalanced k × (k.claimed ≤ limit) × (limit ≤ 25)
  unfolding run_security_notifications_once
  run_once-IsBalanced owner limit world db db' k h =
      within-Tallied (checked_limit limit 25) limit world owner db db' k refl h
