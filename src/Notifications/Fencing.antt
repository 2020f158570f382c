-- ===== src/Notifications/Fencing.antt =====
-- Claims are fenced by their generation: a superseded claim can do nothing more, and of all the
-- claims of a notification at most one takes it across the SMTP handoff.
use mnemex.Base.{
  ℕ, ◌+◌, ◌≤◌, ◌<◌, String, ◌≡◌, ◌≢◌, refl, sym, ap, ◌∙◌, subst, Bool, true, false, Option, none,
  some, List, arith, ok, >>=-eq-ok, and_left,
}
use mathlib.Core.Option.{some-injective}
use mnemex.Base.Moment.{Moment, Timedelta, checked_now, checked_lease}
use mnemex.Base.Rows
use mnemex.Base.Rows.{
  Unique, Evolves, Evolves-refl, Evolves-trans, Unique-save, Evolves-save, get-save_self, key-get,
}
use mnemex.Notifications.Model.{
  Notification, AuditEvent, Db, ClaimedSecurityNotification, SecurityNotificationOutcome,
  is_running, is_live, key, assert_claim, commit, checked_owner,
}
use mnemex.Notifications.Settle.{handoff_step}
use mnemex.Notifications.Retention.{RecipientExpiryOutcome, expire_notification_recipients}
use mnemex.Notifications.Claims.{
  ClaimAttempt, claimable, claim_step, next_claimable, settle_claim,
  claim_next_notification_attempt,
}
use mnemex.Notifications.History.{Request, hand_off, Op, serve, run}
use mnemex.Notifications.Edges.{Edge, request_row}
use mnemex.Notifications.Follows.{
  Follows, Follows-refl, Follows-trans, Follows-Edge, is_sealed, assert_claim-running,
}
use mnemex.Notifications.Evolution.{serve-Served, next_claimable-due}
use mnemex.Notifications.Transitions.{Draws-any, run-Moves, serve-Moves, expire-Moves}

abbrev AnyToken : String → Type 0
AnyToken _ = Unit

abbrev DbFollows : Db → Db → Type 0
DbFollows a b = Evolves key Follows a.rows b.rows

DbFollows-refl : (a : Db) → DbFollows a a
DbFollows-refl a = Evolves-refl key Follows Follows-refl a.rows

DbFollows-trans : (a b c : Db) → DbFollows a b → DbFollows b c → DbFollows a c
DbFollows-trans a b c = Evolves-trans key Follows Follows-trans a.rows b.rows c.rows

DbFollows-commit :
    (old n : Notification) (events : List AuditEvent) (db : Db)
    → Rows.get key (key n) db.rows ≡ some old
    → Edge AnyToken old n
    → DbFollows db (commit n events db)
unfolding commit
DbFollows-commit old n events db h e =
    Evolves-save key Follows Follows-refl n old db.rows h (Follows-Edge old n e)

run-Follows :
    (ops : List Op) (db : Db)
    → Unique key db.rows
    → Unique key (run ops db).rows × DbFollows db (run ops db)
run-Follows ops db =
    run-Moves AnyToken DbFollows DbFollows-refl DbFollows-trans DbFollows-commit ops db
      (Draws-any ops)

serve-Follows :
    (r : Request) (c : ClaimedSecurityNotification) (m : Moment) (db db' : Db)
    (o : SecurityNotificationOutcome)
    → serve r c m db ≡ ok (db', o)
    → Unique key db.rows
    → Unique key db'.rows × DbFollows db db'
serve-Follows = serve-Moves AnyToken DbFollows DbFollows-refl DbFollows-trans DbFollows-commit

expire-Follows :
    (locked : ℕ → Bool) (m : Moment) (limit : ℕ) (db db' : Db) (o : RecipientExpiryOutcome)
    → expire_notification_recipients locked m limit db ≡ ok (db', o)
    → Unique key db.rows
    → Unique key db'.rows × DbFollows db db'
expire-Follows = expire-Moves AnyToken DbFollows DbFollows-refl DbFollows-trans DbFollows-commit

-- A notification that ended keeps its status through every later operation.
pub run-ended :
    (ops : List Op) (db : Db) (k : ℕ) (n : Notification)
    → Unique key db.rows
    → Rows.get key k db.rows ≡ some n
    → is_live n.status ≡ false
    → (n' : Notification) × (Rows.get key k (run ops db).rows ≡ some n') × (n'.status ≡ n.status)
run-ended ops db k n u found ended =
    let (n', found', f) = (run-Follows ops db u).1 k n found in (n', found', f.ended ended)

assert_claim-generation :
    (n : Notification) (c : ClaimedSecurityNotification) (now : ℕ)
    → assert_claim n c now ≡ ok tt
    → c.generation ≡ n.claim_generation
unfolding assert_claim
assert_claim-generation n c now h = ground arith

-- What a claim that was given out stands for.
record Taken (c : ClaimedSecurityNotification) (db db' : Db) : Type 0 where
  mid : Db
  old : Notification
  new : Notification
  before : DbFollows db mid
  unique : Unique key db'.rows
  found : Rows.get key c.notification_id mid.rows ≡ some old
  unsealed : is_sealed old ≡ false
  next : c.generation ≡ old.claim_generation + 1
  held : Rows.get key c.notification_id db'.rows ≡ some new
  generation : new.claim_generation ≡ c.generation

-- What `claim_step` gives a claim for.
claim_step-claim :
    (owner : String) (now lease : ℕ) (token : String) (n : Notification)
    (c : ClaimedSecurityNotification)
    → claimable now n ≡ true
    → (claim_step owner now lease token n).1.claim ≡ some c
    → let n' = (claim_step owner now lease token n).0.0 in
      (c.notification_id ≡ n.notification_id)
      × (c.generation ≡ n.claim_generation + 1)
      × (is_sealed n ≡ false)
      × (n'.notification_id ≡ n.notification_id)
      × (n'.claim_generation ≡ c.generation)
unfolding claim_step claimable is_sealed
claim_step-claim owner now lease token n c due h = ground arith

settle_claim-Taken :
    (locked : ℕ → Bool) (owner : String) (now lease : ℕ) (token : String) (o : Option Notification)
    (db mid : Db) (c : ClaimedSecurityNotification)
    → DbFollows db mid
    → Unique key mid.rows
    → next_claimable locked now mid.rows ≡ o
    → (settle_claim owner now lease token o mid).1.claim ≡ some c
    → Taken c db (settle_claim owner now lease token o mid).0
unfolding settle_claim commit
settle_claim-Taken locked owner now lease token none db mid c before u e h = cc
settle_claim-Taken locked owner now lease token (some n) db mid c before u e h =
    let (found, due) = next_claimable-due locked now mid.rows n u e in
    let (id, gen, unsealed, same, gen') =
      claim_step-claim owner now lease token n c (and_left _ _ due) h in
    let n' = (claim_step owner now lease token n).0.0 in
    let at_key : Rows.get key (key n') mid.rows ≡ some n =
      subst (λ k. Rows.get key k mid.rows ≡ some n) (sym same) found in
    record {
      mid = mid;
      old = n;
      new = n';
      before = before;
      unique = Unique-save key n' mid.rows u;
      found = subst (λ k. Rows.get key k mid.rows ≡ some n) (sym id) found;
      unsealed = unsealed;
      next = gen;
      held =
          subst (λ k. Rows.get key k (Rows.save key n' mid.rows) ≡ some n') (same ∙ sym id)
            (get-save_self key n' n mid.rows at_key);
      generation = gen';
    }

claim_next-Taken :
    (locked : ℕ → Bool) (owner : String) (m : Moment) (d : Timedelta) (token : String) (db db' : Db)
    (a : ClaimAttempt) (c : ClaimedSecurityNotification)
    → Unique key db.rows
    → claim_next_notification_attempt locked owner m d token db ≡ ok (db', a)
    → a.claim ≡ some c
    → Taken c db db'
unfolding claim_next_notification_attempt
claim_next-Taken locked owner m d token db db' a c u h given =
    let (at, hn, h1) = >>=-eq-ok (checked_now m) _ h in
    let (checked, hc, h2) = >>=-eq-ok (checked_owner owner) _ h1 in
    let (lease, hl, h3) = >>=-eq-ok (checked_lease d) _ h2 in
    let (expiry, he, h4) =
      >>=-eq-ok (expire_notification_recipients locked (Moment.aware at) 100 db) _ h3 in
    let (u', f) = expire-Follows locked (Moment.aware at) 100 db expiry.0 expiry.1 he u in
    let next = next_claimable locked at expiry.0.rows in
    let after = settle_claim checked at lease token next expiry.0 in
    let same_db : after.0 ≡ db' = cc h4 in
    let same_claim : after.1 ≡ a = cc h4 in
    subst (λ x. Taken c db x) same_db
      (settle_claim-Taken locked checked at lease token next db expiry.0 c f u' refl
        (ap (λ (x : ClaimAttempt). x.claim) same_claim ∙ given))

-- A served request was made under the row's own generation.
serve-generation :
    (r : Request) (c : ClaimedSecurityNotification) (m : Moment) (db db' : Db)
    (o : SecurityNotificationOutcome) (n : Notification)
    → serve r c m db ≡ ok (db', o)
    → Rows.get key c.notification_id db.rows ≡ some n
    → c.generation ≡ n.claim_generation
serve-generation r c m db db' o n h found =
    let s = serve-Served c m db db' o r h in
    let same : s.old ≡ n = some-injective s.old n (sym s.found ∙ found) in
    assert_claim-generation s.old c s.at s.asserted
    ∙ ap (λ (x : Notification). x.claim_generation) same

-- Once a claim of a notification has been given out, no earlier claim of it is served again: after
-- any further operations, every request under a smaller generation is refused.
pub takeover_fences :
    (locked : ℕ → Bool) (owner : String) (m : Moment) (d : Timedelta) (token : String) (db db' : Db)
    (a : ClaimAttempt) (c stale : ClaimedSecurityNotification) (ops : List Op) (r : Request)
    (later : Moment) (p : Db × SecurityNotificationOutcome)
    → Unique key db.rows
    → claim_next_notification_attempt locked owner m d token db ≡ ok (db', a)
    → a.claim ≡ some c
    → stale.notification_id ≡ c.notification_id
    → stale.generation < c.generation
    → serve r stale later (run ops db') ≢ ok p
takeover_fences locked owner m d token db db' a c stale ops r later p u h given same older served =
    let t = claim_next-Taken locked owner m d token db db' a c u h given in
    let (n, found, f) = (run-Follows ops db' t.unique).1 c.notification_id t.new t.held in
    let e =
      serve-generation r stale later (run ops db') p.0 p.1 n served
        (subst (λ k. Rows.get key k (run ops db').rows ≡ some n) (sym same) found) in
    let at_least : t.new.claim_generation ≤ n.claim_generation = f.generation in
    omega (arith, t.generation, e, at_least)

handoff_row-sealed :
    (now : ℕ) (n n' shown : Notification) (events : List AuditEvent)
    → is_running n.status ≡ true
    → request_row hand_off now n ≡ ok (n', shown, events)
    → (is_sealed n' ≡ true)
      × (n'.notification_id ≡ n.notification_id)
      × (n'.claim_generation ≡ n.claim_generation)
unfolding request_row handoff_step is_sealed
handoff_row-sealed now n n' shown events running h = ground arith

-- The row after a handoff.
handoff-sealed :
    (c : ClaimedSecurityNotification) (m : Moment) (db db' : Db) (o : SecurityNotificationOutcome)
    → serve hand_off c m db ≡ ok (db', o)
    → (n : Notification) × (Rows.get key c.notification_id db'.rows ≡ some n)
      × (is_sealed n ≡ true)
      × (n.claim_generation ≡ c.generation)
unfolding commit
handoff-sealed c m db db' o h =
    let s = serve-Served c m db db' o hand_off h in
    let (sealed, same, gen) =
      handoff_row-sealed s.at s.old s.new s.shown s.events
        (assert_claim-running s.old c s.at s.asserted) s.stepped in
    let id = same ∙ key-get key c.notification_id db.rows s.old s.found in
    let at_key = subst (λ k. Rows.get key k db.rows ≡ some s.old) (sym id) s.found in
    (
      s.new,
      subst (λ x. Rows.get key c.notification_id x.rows ≡ some s.new) (sym s.committed)
          (subst (λ k. Rows.get key k (Rows.save key s.new db.rows) ≡ some s.new) id
            (get-save_self key s.new s.old db.rows at_key)),
      sealed,
      gen ∙ sym (assert_claim-generation s.old c s.at s.asserted),
    )

-- At most one claim of a notification crosses the SMTP handoff: after a successful handoff, and
-- whatever operations follow, every request that is served for the notification is made under the
-- generation of the claim that handed it off.
pub handoff_excludes :
    (c other : ClaimedSecurityNotification) (m later : Moment) (db db' : Db)
    (o : SecurityNotificationOutcome) (ops : List Op) (r : Request)
    (p : Db × SecurityNotificationOutcome)
    → Unique key db.rows
    → serve hand_off c m db ≡ ok (db', o)
    → other.notification_id ≡ c.notification_id
    → serve r other later (run ops db') ≡ ok p
    → other.generation ≡ c.generation
handoff_excludes c other m later db db' o ops r p u h same served =
    let (n, found, sealed, gen) = handoff-sealed c m db db' o h in
    let u' = (serve-Follows hand_off c m db db' o h u).0 in
    let (n', found', f) = (run-Follows ops db' u').1 c.notification_id n found in
    serve-generation r other later (run ops db') p.0 p.1 n' served
      (subst (λ k. Rows.get key k (run ops db').rows ≡ some n') (sym same) found')
    ∙ f.frozen sealed
    ∙ gen

-- A notification that was handed to SMTP is never claimed again: after a successful handoff, and
-- whatever operations follow, a claim that is given out is one of another notification.
pub handoff_not_reclaimed :
    (c other : ClaimedSecurityNotification) (m later : Moment) (db db' : Db)
    (o : SecurityNotificationOutcome) (ops : List Op) (locked : ℕ → Bool) (owner : String)
    (d : Timedelta) (token : String) (p : Db × ClaimAttempt)
    → Unique key db.rows
    → serve hand_off c m db ≡ ok (db', o)
    → claim_next_notification_attempt locked owner later d token (run ops db') ≡ ok p
    → p.1.claim ≡ some other
    → other.notification_id ≢ c.notification_id
handoff_not_reclaimed c other m later db db' o ops locked owner d token p u h claimed given same =
    let (n, found, sealed, gen) = handoff-sealed c m db db' o h in
    let u' = (serve-Follows hand_off c m db db' o h u).0 in
    let (unique, after) = run-Follows ops db' u' in
    let (n', found', f) = after c.notification_id n found in
    let t =
      claim_next-Taken locked owner later d token (run ops db') p.0 p.1 other unique claimed
        given in
    let (k, found_k, g) = t.before c.notification_id n' found' in
    let e =
      some-injective t.old k
        (sym t.found ∙ subst (λ j. Rows.get key j t.mid.rows ≡ some k) (sym same) found_k) in
    cc (t.unsealed, g.stays_sealed (f.stays_sealed sealed), ap is_sealed e)
