-- ===== src/Notifications/Validity.antt =====
-- The well-formedness of a row: the CheckConstraints of SecurityNotification, and what the
-- operations rely on beside them.
use mnemex.Base.{
  ℕ, ◌≤◌, ◌<◌, String, ◌≡◌, sym, subst, true, false, some, List, arith, is_some, ok, All, >>=-eq-ok,
}
use mnemex.Base.Moment.{checked_lease}
use mnemex.Base.Rows
use mnemex.Base.Rows.{All-get, All-save, Unique}
use mnemex.Base.Strip.{is_empty}
use mnemex.Notifications.Model.{
  Notification, AuditEvent, Db, is_running, is_waiting, is_live, is_handoff, key, commit,
}
use mnemex.Notifications.History.{Request, heartbeat, Op, run}
use mnemex.Notifications.Settle.{
  heartbeat_step, handoff_step, delivered_step, preaccept_failure_step, uncertain_step,
  terminal_failure_step, release_step,
}
use mnemex.Notifications.Retention.{purge_step}
use mnemex.Notifications.Claims.{claimable, claim_step}
use mnemex.Notifications.Edges.{Edge, held, purged_at, claimed_at, request_row}
use mnemex.Notifications.Follows.{assert_claim-running}
use mnemex.Notifications.Transitions.{Draws, run-Moves}

pub record IsValid (n : Notification) : Type 0 where
  -- The CheckConstraints, in the order of the model.
  pub attempt_limit : (1 ≤ n.max_attempts) × (n.max_attempts ≤ 10)
  pub failures_le_attempts : n.failure_count ≤ n.attempt_count
  pub purged_cipher_empty : is_some n.recipient_purged_at ≡ true → n.recipient_ciphertext ≡ ""
  pub running_has_token : is_running n.status ≡ true → is_empty n.claim_token ≡ false
  pub running_has_owner : is_running n.status ≡ true → is_empty n.claim_owner ≡ false
  pub running_has_lease : is_running n.status ≡ true → is_some n.lease_expires_at ≡ true
  -- A live notification has an attempt left, and a running one has not yet failed its attempt.
  pub attempts_left : is_live n.status ≡ true → n.failure_count < n.max_attempts
  pub running_uncharged : is_running n.status ≡ true → n.failure_count < n.attempt_count
  pub waiting_before_handoff : is_waiting n.status ≡ true → is_handoff n.delivery_phase ≡ false
  pub generation_counts : n.claim_generation ≡ n.attempt_count
  pub live_has_recipient : is_live n.status ≡ true → is_some n.recipient_purged_at ≡ false

request_row-IsValid :
    (r : Request) (now : ℕ) (n n' shown : Notification) (events : List AuditEvent)
    → is_running n.status ≡ true
    → request_row r now n ≡ ok (n', shown, events)
    → IsValid n
    → IsValid n'
unfolding request_row heartbeat_step handoff_step delivered_step preaccept_failure_step
    uncertain_step terminal_failure_step release_step
request_row-IsValid (heartbeat d) now n n' shown events running h v =
    let (lease, hl, hs) = >>=-eq-ok (checked_lease d) _ h in ground arith
request_row-IsValid _ now n n' shown events running h v = ground arith

IsValid-purge_step : (now : ℕ) (n : Notification) → IsValid n → IsValid (purge_step now n).0
unfolding purge_step
IsValid-purge_step now n v = ground arith

IsValid-claim_step :
    (owner : String) (now lease : ℕ) (token : String) (n : Notification)
    → is_empty owner ≡ false
    → is_empty token ≡ false
    → claimable now n ≡ true
    → IsValid n
    → IsValid (claim_step owner now lease token n).0.0
unfolding claim_step claimable
IsValid-claim_step owner now lease token n filled drawn due v = ground arith

-- A token that `secrets.token_hex(32)` may give.
abbrev pub IsFilled : String → Type 0
IsFilled token = is_empty token ≡ false

Edge-IsValid : (a b : Notification) → Edge IsFilled a b → IsValid a → IsValid b
Edge-IsValid a b (held r c now shown events asserted stepped) v =
    request_row-IsValid r now a b shown events (assert_claim-running a c now asserted) stepped v
Edge-IsValid a b (purged_at now _ e) v = subst (λ x. IsValid x) (sym e) (IsValid-purge_step now a v)
Edge-IsValid a b (claimed_at owner now lease token filled drawn due e) v =
    subst (λ x. IsValid x) (sym e) (IsValid-claim_step owner now lease token a filled drawn due v)

abbrev AllValid : Db → Type 0
AllValid db = All IsValid db.rows

commit-AllValid :
    (old n : Notification) (events : List AuditEvent) (db : Db)
    → Rows.get key (key n) db.rows ≡ some old
    → Edge IsFilled old n
    → AllValid db
    → AllValid (commit n events db)
unfolding commit
commit-AllValid old n events db found edge v =
    All-save key IsValid n db.rows v
      (Edge-IsValid old n edge (All-get key IsValid (key n) db.rows old v found))

-- Whatever operations run, in any order and from any number of workers, every row keeps the
-- CheckConstraints of the table, a live row has an attempt left, and the keys stay unique. It is
-- assumed that the rows do so at the start and that no token drawn is empty.
pub run-IsValid :
    (ops : List Op) (db : Db)
    → All (Draws IsFilled) ops
    → Unique key db.rows
    → All IsValid db.rows
    → Unique key (run ops db).rows × All IsValid (run ops db).rows
run-IsValid ops db drawn u v =
    let (u', keeps) =
      run-Moves IsFilled (λ a b. AllValid a → AllValid b) (λ a x. x) (λ a b c f g x. g (f x))
        commit-AllValid ops db drawn u in
    (u', keeps v)
