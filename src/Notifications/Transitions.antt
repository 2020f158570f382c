-- ===== src/Notifications/Transitions.antt =====
-- The induction over runs of the queue: a relation between databases that every write of a row along
-- an edge has, and that is reflexive and transitive, holds from the start of a run to its end.
use mnemex.Base.{
  ℕ, String, ◌≡◌, refl, sym, subst, ◌∙◌, Bool, false, Option, none, some, List, [], ◌∷◌, inl, inr,
  Bool-cases, Result, ok, err, All, >>=-eq-ok, is_some, and_left,
}
use mnemex.Base.Moment.{Moment, Timedelta, checked_now, checked_lease}
use mnemex.Base.Rows
use mnemex.Base.Rows.{key-get, Unique, Unique-save}
use mnemex.Base.Strip.{is_empty}
use mnemex.Notifications.Model.{
  Notification, AuditEvent, Db, ClaimedSecurityNotification, SecurityNotificationOutcome, key,
  commit, checked_owner, checked_limit,
}
use mnemex.Notifications.Retention.{
  purge_step, purge_recipient, purge_each, purge_current, expiry_batch, RecipientExpiryOutcome,
  expire_notification_recipients,
}
use mnemex.Notifications.Claims.{
  ClaimAttempt, claim_step, next_claimable, settle_claim, claim_next_notification_attempt,
}
use mnemex.Notifications.History.{
  Request, Op, claim_next, expire, ask, serve, attempt, settled, run,
}
use mnemex.Notifications.Edges.{Edge, held, purged_at, claimed_at}
use mnemex.Notifications.Follows.{Follows-Edge}
use mnemex.Notifications.Evolution.{serve-Served, next_claimable-due, checked_owner-filled}

-- What is known of the token that an operation draws.
abbrev pub Draws : (String → Type 0) → Op → Type 0
Draws Q (claim_next locked owner now lease token) = Q token
Draws Q (expire locked now limit) = Unit
Draws Q (ask r c now) = Unit

pub Draws-any : (ops : List Op) → All (Draws (λ _. Unit)) ops
Draws-any [] = tt
Draws-any (claim_next locked owner now lease token ∷ ops) = (tt, Draws-any ops)
Draws-any (expire locked now limit ∷ ops) = (tt, Draws-any ops)
Draws-any (ask r c now ∷ ops) = (tt, Draws-any ops)

module _ (Q : String → Type 0) (T : Db → Db → Type 0) (T-refl : (a : Db) → T a a)
    (T-trans : (a b c : Db) → T a b → T b c → T a c)
    (T-commit : (old n : Notification) (events : List AuditEvent) (db : Db)
      → Rows.get key (key n) db.rows ≡ some old
      → Edge Q old n
      → T db (commit n events db)) where
  abbrev Moves : Db → Db → Type 0
  Moves a b = Unique key a.rows → Unique key b.rows × T a b

  Moves-refl : (a : Db) → Moves a a
  Moves-refl a = λ u. (u, T-refl a)

  Moves-trans : (a b c : Db) → Moves a b → Moves b c → Moves a c
  Moves-trans a b c f g = λ u. let (v, t) = f u in let (w, s) = g v in (w, T-trans a b c t s)

  Moves-commit :
      (old n : Notification) (events : List AuditEvent) (db : Db) (k : ℕ)
      → Rows.get key k db.rows ≡ some old
      → Edge Q old n
      → Moves db (commit n events db)
  unfolding commit
  Moves-commit old n events db k found edge = λ u.
      let same = (Follows-Edge old n edge).same_id ∙ key-get key k db.rows old found in
      (
        Unique-save key n db.rows u,
        T-commit old n events db (subst (λ j. Rows.get key j db.rows ≡ some old) (sym same) found)
            edge,
      )

  pub serve-Moves :
      (r : Request) (c : ClaimedSecurityNotification) (m : Moment) (db db' : Db)
      (o : SecurityNotificationOutcome)
      → serve r c m db ≡ ok (db', o)
      → Moves db db'
  serve-Moves r c m db db' o h =
      let s = serve-Served c m db db' o r h in
      subst (λ d. Moves db d) (sym s.committed)
        (Moves-commit s.old s.new s.events db c.notification_id s.found
          (held r c s.at s.shown s.events s.asserted s.stepped))

  purge_recipient-Moves :
      (now k : ℕ) (n : Notification) (db : Db)
      → Rows.get key k db.rows ≡ some n
      → Moves db (purge_recipient now n db).0
  unfolding purge_recipient
  purge_recipient-Moves now k n db found = elim (Bool-cases (is_some n.recipient_purged_at)) [
    | inl e ↦ rw e (Moves-refl db)
    | inr e ↦
        rw e (
          Moves-commit n (purge_step now n).0 (purge_step now n).1 db k found
            (purged_at now e refl))
  ]

  purge_current-Moves :
      (now k : ℕ) (o : Option Notification) (db : Db)
      → Rows.get key k db.rows ≡ o
      → Moves db (purge_current now o db).0
  purge_current-Moves now k none db found = Moves-refl db
  purge_current-Moves now k (some n) db found = purge_recipient-Moves now k n db found

  purge_each-Moves :
      (now : ℕ) (ns : List Notification) (db : Db) → Moves db (purge_each now ns db).0
  unfolding purge_each
  purge_each-Moves now [] db = Moves-refl db
  purge_each-Moves now (n ∷ ns) db =
      let found = Rows.get key n.notification_id db.rows in
      let db' = (purge_current now found db).0 in
      Moves-trans db db' (purge_each now ns db').0
        (purge_current-Moves now n.notification_id found db refl) (purge_each-Moves now ns db')

  pub expire-Moves :
      (locked : ℕ → Bool) (m : Moment) (limit : ℕ) (db db' : Db) (o : RecipientExpiryOutcome)
      → expire_notification_recipients locked m limit db ≡ ok (db', o)
      → Moves db db'
  unfolding expire_notification_recipients
  expire-Moves locked m limit db db' o h =
      let (at, hn, h1) = >>=-eq-ok (checked_now m) _ h in
      let (checked, hc, h2) = >>=-eq-ok (checked_limit limit 500) _ h1 in
      let e : (purge_each at (expiry_batch locked at checked db.rows) db).0 ≡ db' = cc h2 in
      subst (λ d. Moves db d) e (purge_each-Moves at (expiry_batch locked at checked db.rows) db)

  settle_claim-Moves :
      (locked : ℕ → Bool) (owner : String) (now lease : ℕ) (token : String)
      (o : Option Notification) (db : Db)
      → is_empty owner ≡ false
      → Q token
      → next_claimable locked now db.rows ≡ o
      → Moves db (settle_claim owner now lease token o db).0
  unfolding settle_claim
  settle_claim-Moves locked owner now lease token none db filled drawn e = Moves-refl db
  settle_claim-Moves locked owner now lease token (some n) db filled drawn e = λ u.
      let (found, due) = next_claimable-due locked now db.rows n u e in
      Moves-commit n (claim_step owner now lease token n).0.0
        (claim_step owner now lease token n).0.1 db n.notification_id found
        (claimed_at owner now lease token filled drawn (and_left _ _ due) refl) u

  claim_next-Moves :
      (locked : ℕ → Bool) (owner : String) (m : Moment) (d : Timedelta) (token : String)
      (db db' : Db) (a : ClaimAttempt)
      → Q token
      → claim_next_notification_attempt locked owner m d token db ≡ ok (db', a)
      → Moves db db'
  unfolding claim_next_notification_attempt
  claim_next-Moves locked owner m d token db db' a drawn h =
      let (at, hn, h1) = >>=-eq-ok (checked_now m) _ h in
      let (checked, hc, h2) = >>=-eq-ok (checked_owner owner) _ h1 in
      let (lease, hl, h3) = >>=-eq-ok (checked_lease d) _ h2 in
      let (expiry, he, h4) =
        >>=-eq-ok (expire_notification_recipients locked (Moment.aware at) 100 db) _ h3 in
      let after =
        settle_claim checked at lease token (next_claimable locked at expiry.0.rows) expiry.0 in
      let e : after.0 ≡ db' = cc h4 in
      subst (λ x. Moves db x) e
        (Moves-trans db expiry.0 after.0
          (expire-Moves locked (Moment.aware at) 100 db expiry.0 expiry.1 he)
          (settle_claim-Moves locked checked at lease token (next_claimable locked at expiry.0.rows)
            expiry.0 (checked_owner-filled owner checked hc) drawn refl))

  pub attempt-Moves : (op : Op) (db db' : Db) → Draws Q op → attempt op db ≡ ok db' → Moves db db'
  unfolding attempt
  attempt-Moves (claim_next locked owner m d token) db db' drawn h =
      let (done, hd, h1) =
        >>=-eq-ok (claim_next_notification_attempt locked owner m d token db) _ h in
      claim_next-Moves locked owner m d token db db' done.1 drawn (hd ∙ cc h1)
  attempt-Moves (expire locked m limit) db db' drawn h =
      let (done, hd, h1) = >>=-eq-ok (expire_notification_recipients locked m limit db) _ h in
      expire-Moves locked m limit db db' done.1 (hd ∙ cc h1)
  attempt-Moves (ask r c m) db db' drawn h =
      let (done, hd, h1) = >>=-eq-ok (serve r c m db) _ h in
      serve-Moves r c m db db' done.1 (hd ∙ cc h1)

  settled-Moves :
      (op : Op) (r : Result Db) (db : Db) → Draws Q op → attempt op db ≡ r → Moves db (settled r db)
  settled-Moves op (ok db') db drawn e = attempt-Moves op db db' drawn e
  settled-Moves op (err x) db drawn e = Moves-refl db

  pub run-Moves : (ops : List Op) (db : Db) → All (Draws Q) ops → Moves db (run ops db)
  unfolding run
  run-Moves [] db drawn = Moves-refl db
  run-Moves (op ∷ ops) db drawn =
      let next = settled (attempt op db) db in
      Moves-trans db next (run ops next) (settled-Moves op (attempt op db) db drawn.0 refl)
        (run-Moves ops next drawn.1)
