-- ===== src/Consent/Public.antt =====
-- The choice to show a profile in public (`opt_in_public_profile`, `public_profile_projection`).
use mnemex.Base.{
  ℕ, ◌+◌, String, Bool, true, not, ◌&&◌, Option, none, some, List, [], ◌∷◌, ◌++◌, ltb, ◌==◌,
  if◌then◌else◌, is_some, select, Result, ok, ◌>>=◌, ◌>>◌, guard, or_raise, does_not_exist,
  consent_denied,
}
use mnemex.Base.Rows
use mnemex.Base.Ordered.{order_by, head?}
use mnemex.Consent.Model.{
  PublicProfileOptIn, AuditAction, Db, account_key, person_key, relationship_key,
  relationship_active, person_active, has_text, public_profile_fields,
}
use mnemex.Consent.Services.{
  authorize_subject_action, unique_from, is_nil, subset, locked_relationship, Profile,
}

abbrev pub superseded : ℕ → PublicProfileOptIn → PublicProfileOptIn
superseded now o = record o {
  revoked_at = some now;
  revocation_reason = "superseded by a new public profile choice";
  revision = o.revision + 1;
}

abbrev pub in_force : ℕ → PublicProfileOptIn → Bool
in_force person_id o = o.person_id == person_id && not (is_some o.revoked_at)

-- `filter(person=person, revoked_at__isnull=True).update(...)`
unfoldable pub supersede_all : ℕ → ℕ → List PublicProfileOptIn → List PublicProfileOptIn
supersede_all person_id now [] = []
supersede_all person_id now (o ∷ rest) =
    let others = supersede_all person_id now rest in
    if in_force person_id o then superseded now o ∷ others else o ∷ others

pub record OptInRequest : Type 0 where
  pub person_id : ℕ
  pub acting_account_id : ℕ
  pub guardian_relationship_id : Option ℕ
  pub selected_fields : List String
  pub policy_version : String

abbrev pub new_opt_in : ℕ → OptInRequest → List String → ℕ → PublicProfileOptIn
new_opt_in id q fields effective_at = record {
  opt_in_id = id;
  person_id = q.person_id;
  acting_account_id = q.acting_account_id;
  guardian_relationship_id = q.guardian_relationship_id;
  selected_fields = fields;
  policy_version = q.policy_version;
  effective_at = effective_at;
  revoked_at = none;
  revocation_reason = "";
  revision = 1;
}

unfoldable pub opt_in_public_profile :
    OptInRequest → ℕ → ℕ → ℕ → ℕ → Db → Result (Db × PublicProfileOptIn)
unfolding authorize_subject_action unique_from subset supersede_all
opt_in_public_profile q now later id effective_at db = do
  person ← or_raise (Rows.get person_key q.person_id db.persons) does_not_exist
  account ← or_raise (Rows.get account_key q.acting_account_id db.accounts) does_not_exist
  relationship ← locked_relationship q.guardian_relationship_id db
  authorize_subject_action person account relationship now
  let fields = unique_from [] q.selected_fields
  guard (not (is_nil fields) && subset fields public_profile_fields) consent_denied
  let chosen = new_opt_in id q fields effective_at
  ok (
    record db {
      opt_ins = supersede_all q.person_id later db.opt_ins ++ chosen ∷ [];
      audit =
          db.audit
          ++ record { actor_id = account.account_id; action = AuditAction.opted_in; target_id = id }
            ∷ [];
    },
    chosen,
  )

-- `order_by("-effective_at").first()`
unfoldable pub current_opt_in : ℕ → List PublicProfileOptIn → Option PublicProfileOptIn
unfolding order_by head?
current_opt_in person_id rows =
    head? (order_by (λ a b. ltb b.effective_at a.effective_at) (select (in_force person_id) rows))

-- False where the guardian of the choice has no authority any more.
abbrev pub guardian_still : ℕ → Option ℕ → Db → Result Bool
guardian_still now none db = ok true
guardian_still now (some k) db =
    or_raise (Rows.get relationship_key k db.relationships) does_not_exist >>= λ r.
    ok (relationship_active now r)

module _ {V : Type 0} where
  -- The fields that were selected, as far as they may be public.
  unfoldable pub shown_fields : List String → Profile V → Profile V
  unfolding has_text
  shown_fields selected available =
      select (λ field. has_text field.0 selected && has_text field.0 public_profile_fields)
        available

  unfoldable pub projection_of :
      Option PublicProfileOptIn → Profile V → ℕ → Db → Result (Option (Profile V))
  unfolding relationship_active shown_fields
  projection_of none available now db = ok none
  projection_of (some o) available now db = do
    holds ← guardian_still now o.guardian_relationship_id db
    ok (if holds then some (shown_fields o.selected_fields available) else none)

  unfoldable pub public_profile_projection : ℕ → Profile V → ℕ → Db → Result (Option (Profile V))
  unfolding current_opt_in projection_of
  public_profile_projection person_id available now db = do
    person ← or_raise (Rows.get person_key person_id db.persons) does_not_exist
    if person_active person.status
        then projection_of (current_opt_in person_id db.opt_ins) available now db
        else ok none
