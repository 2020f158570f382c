-- ===== src/Consent/Services.antt =====
-- The services of consent. `now` and `later` are successive readings of the clock; identifiers of
-- new rows and `effective_at` are generated fields. A profile is a list of named values.
use mnemex.Base.{
  ℕ, ◌+◌, String, Bool, true, false, not, ◌&&◌, Option, none, some, List, [], ◌∷◌, ◌++◌, str_eq,
  ltb, ◌==◌, if◌then◌else◌, is_some, select, Result, ok, err, ◌>>=◌, ◌>>◌, guard, or_raise,
  does_not_exist, consent_denied, key_error,
}
use mnemex.Base.Rows
use mnemex.Base.Strip.{is_empty}
use mnemex.Consent.Model.{
  AgeClassification, minor, adult, unknown, Account, Person, GuardianRelationship, ConsentGrant,
  AuditAction, Db, account_key, person_key, relationship_key, client_key, grant_key,
  relationship_active, client_active, grant_active, person_active, has_text, field_group_fields,
}

abbrev is_account : Option ℕ → ℕ → Bool
is_account none k = false
is_account (some j) k = j == k

abbrev pub authorize_aged :
    AgeClassification → Person → Account → Option GuardianRelationship → ℕ → Result (Unit {0})
authorize_aged adult person account relationship now =
    guard (is_account person.account_id account.account_id && not (is_some relationship))
      consent_denied
authorize_aged minor person account none now = err consent_denied
authorize_aged minor person account (some r) now =
    guard
      (r.guardian_account_id == account.account_id
        && (r.minor_person_id == person.person_id && relationship_active now r))
      consent_denied
authorize_aged unknown person account relationship now = err consent_denied

unfoldable pub authorize_subject_action :
    Person → Account → Option GuardianRelationship → ℕ → Result (Unit {0})
unfolding relationship_active
authorize_subject_action person account relationship now = do
  guard account.is_enabled consent_denied
  authorize_aged person.age_classification person account relationship now

-- `list(dict.fromkeys(...))`, on the names that were seen.
unfoldable pub unique_from : List String → List String → List String
unfolding has_text
unique_from seen [] = []
unique_from seen (g ∷ gs) =
    let fresh = unique_from (g ∷ seen) gs in
    let rest = unique_from seen gs in if has_text g seen then rest else g ∷ fresh

abbrev pub is_nil {ℓ} : {A : Type ℓ} → List A → Bool
is_nil [] = true
is_nil (x ∷ xs) = false

unfoldable pub all_supported : List String → Bool
unfolding field_group_fields
all_supported [] = true
all_supported (g ∷ gs) = is_some (field_group_fields g) && all_supported gs

-- `set(xs).issubset(ys)`
unfoldable pub subset : List String → List String → Bool
unfolding has_text
subset [] ys = true
subset (x ∷ xs) ys = has_text x ys && subset xs ys

unfoldable pub validated_groups : List String → Result (List String)
unfolding unique_from all_supported
validated_groups groups =
    let normalized = unique_from [] groups in
    if not (is_nil normalized) && all_supported normalized
    then ok normalized
    else err consent_denied

-- The relationship that an optional key names.
abbrev pub locked_relationship : Option ℕ → Db → Result (Option GuardianRelationship)
locked_relationship none db = ok none
locked_relationship (some k) db =
    or_raise (Rows.get relationship_key k db.relationships) does_not_exist >>= λ r. ok (some r)

-- What a request asks for.
pub record GrantRequest : Type 0 where
  pub person_id : ℕ
  pub acting_account_id : ℕ
  pub guardian_relationship_id : Option ℕ
  pub recipient_client_id : ℕ
  pub purpose : String
  pub field_groups : List String
  pub context_id : String
  pub expires_at : ℕ
  pub policy_version : String
  pub verification_threshold : String

abbrev pub new_grant : ℕ → GrantRequest → List String → ConsentGrant
new_grant id q groups = record {
  grant_id = id;
  person_id = q.person_id;
  acting_account_id = q.acting_account_id;
  guardian_relationship_id = q.guardian_relationship_id;
  recipient_client_id = q.recipient_client_id;
  purpose = q.purpose;
  field_groups = groups;
  context_id = q.context_id;
  expires_at = q.expires_at;
  revoked_at = none;
  revocation_reason = "";
  policy_version = q.policy_version;
  verification_threshold = q.verification_threshold;
  revision = 1;
}

unfoldable pub issue_consent_grant : GrantRequest → ℕ → ℕ → ℕ → Db → Result (Db × ConsentGrant)
unfolding authorize_subject_action client_active validated_groups has_text subset is_empty
issue_consent_grant q now later id db = do
  person ← or_raise (Rows.get person_key q.person_id db.persons) does_not_exist
  account ← or_raise (Rows.get account_key q.acting_account_id db.accounts) does_not_exist
  client ← or_raise (Rows.get client_key q.recipient_client_id db.clients) does_not_exist
  relationship ← locked_relationship q.guardian_relationship_id db
  authorize_subject_action person account relationship now
  guard (client_active client) consent_denied
  groups ← validated_groups q.field_groups
  guard (has_text q.purpose client.allowed_purposes) consent_denied
  guard (subset groups client.allowed_field_groups) consent_denied
  guard (ltb later q.expires_at) consent_denied
  guard (not (is_empty q.context_id)) consent_denied
  ok (
    record db {
      grants = db.grants ++ new_grant id q groups ∷ [];
      audit =
          db.audit
          ++ record { actor_id = account.account_id; action = AuditAction.granted; target_id = id }
            ∷ [];
    },
    new_grant id q groups,
  )

abbrev pub revoked_grant : ℕ → String → ConsentGrant → ConsentGrant
revoked_grant now reason g = record g {
  revoked_at = some now;
  revocation_reason = reason;
  revision = g.revision + 1;
}

unfoldable pub revoke_consent_grant : ℕ → ℕ → String → ℕ → Db → Result (Db × ConsentGrant)
revoke_consent_grant grant_id acting_account_id reason now db = do
  locked ← or_raise (Rows.get grant_key grant_id db.grants) does_not_exist
  account ← or_raise (Rows.get account_key acting_account_id db.accounts) does_not_exist
  guard account.is_enabled consent_denied
  guard (locked.acting_account_id == account.account_id) consent_denied
  if is_some locked.revoked_at
      then ok (db, locked)
      else ok (
        record db {
          grants = Rows.save grant_key (revoked_grant now reason locked) db.grants;
          audit =
              db.audit
              ++ record {
                actor_id = account.account_id;
                action = AuditAction.revoked;
                target_id = grant_id;
              }
                ∷ [];
        },
        revoked_grant now reason locked,
      )

-- The union of the groups' fields; an unknown group is a `KeyError`.
unfoldable pub permitted_fields : List String → Result (List String)
unfolding field_group_fields
permitted_fields [] = ok []
permitted_fields (g ∷ gs) = do
  fields ← or_raise (field_group_fields g) key_error
  others ← permitted_fields gs
  ok (fields ++ others)

abbrev pub guardian_holds : ℕ → Option ℕ → Db → Result (Unit {0})
guardian_holds now none db = ok tt
guardian_holds now (some k) db =
    or_raise (Rows.get relationship_key k db.relationships) does_not_exist >>= λ r.
    guard (relationship_active now r) consent_denied

abbrev pub Profile : Type 0 → Type 0
Profile V = List (String × V)

module _ {V : Type 0} where
  unfoldable pub disclose_profile :
      ℕ → ℕ → String → String → Profile V → ℕ → ℕ → Db → Result (Profile V)
  unfolding grant_active relationship_active client_active permitted_fields has_text
  disclose_profile grant_id client_id purpose context_id available now later db = do
    g ← or_raise (Rows.get grant_key grant_id db.grants) does_not_exist
    person ← or_raise (Rows.get person_key g.person_id db.persons) does_not_exist
    client ← or_raise (Rows.get client_key g.recipient_client_id db.clients) does_not_exist
    guard (grant_active now g) consent_denied
    guard (person_active person.status) consent_denied
    guardian_holds later g.guardian_relationship_id db
    guard (client_active client && g.recipient_client_id == client_id) consent_denied
    guard (str_eq g.purpose purpose && str_eq g.context_id context_id) consent_denied
    permitted ← permitted_fields g.field_groups
    ok (select (λ field. has_text field.0 permitted) available)
