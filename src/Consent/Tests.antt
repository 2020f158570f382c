-- ===== src/Consent/Tests.antt =====
-- A competitor's profile: a grant that is disclosed and revoked, and a public choice.
use mnemex.Base.{
  ◌&&◌, ◌==◌, if◌then◌else◌, ℕ, ◌≡◌, ◌≢◌, refl, String, true, none, some, List, [], ◌∷◌, select, ok,
}
use mnemex.Base.Rows
use mnemex.Base.Strip.{is_empty}
use mnemex.Base.Ordered.{order_by, place, head?}
use mnemex.Consent.Model.{
  PersonStatus, adult, Account, Person, PartnerClient, ConsentGrant, PublicProfileOptIn,
  AuditAction, AuditEvent, Db, grant_key, person_key, grant_active, client_active, has_text,
  field_group_fields, public_profile_fields,
}
use mnemex.Consent.Services.{
  GrantRequest, new_grant, authorize_subject_action, unique_from, all_supported, subset,
  validated_groups, issue_consent_grant, revoked_grant, revoke_consent_grant, permitted_fields,
  Profile, disclose_profile,
}
use mnemex.Consent.Public.{
  OptInRequest, new_opt_in, in_force, supersede_all, opt_in_public_profile, current_opt_in,
  shown_fields, projection_of, public_profile_projection,
}
use mnemex.Consent.Projection.{
  opt_in_public_profile-projection, public_profile_projection-confined,
  opt_in_public_profile-Choices,
}
use mnemex.Consent.Authority.{Guarded}
use mnemex.Consent.Current.{IsCurrent}
use mnemex.Consent.Disclosure.{MayDisclose, is_granted, disclose_profile-MayDisclose}
use mnemex.Consent.Revocation.{stays, revoke_consent_grant-final}

abbrev account : Account
account = record { account_id = 1; is_enabled = true }

abbrev person : Person
person = record {
  person_id = 2;
  account_id = some 1;
  status = PersonStatus.active;
  age_classification = adult;
}

abbrev client : PartnerClient
client = record {
  client_id = 3;
  is_current = true;
  organization_active = true;
  revoked_at = none;
  allowed_purposes = "registration" ∷ [];
  allowed_field_groups = "identity.basic" ∷ [];
}

abbrev request : GrantRequest
request = record {
  person_id = 2;
  acting_account_id = 1;
  guardian_relationship_id = none;
  recipient_client_id = 3;
  purpose = "registration";
  field_groups = "identity.basic" ∷ "identity.basic" ∷ [];
  context_id = "event";
  expires_at = 100;
  policy_version = "1";
  verification_threshold = "self_asserted";
}

abbrev grant : ConsentGrant
grant = new_grant 9 request ("identity.basic" ∷ [])

abbrev db_of : List ConsentGrant → List PublicProfileOptIn → List AuditEvent → Db
db_of grants opt_ins audit = record {
  accounts = account ∷ [];
  persons = person ∷ [];
  relationships = [];
  clients = client ∷ [];
  grants = grants;
  opt_ins = opt_ins;
  audit = audit;
}

abbrev event : AuditAction → ℕ → AuditEvent
event action target = record { actor_id = 1; action = action; target_id = target }

issued :
    issue_consent_grant request 5 5 9 (db_of [] [] [])
    ≡ ok (db_of (grant ∷ []) [] (event AuditAction.granted 9 ∷ []), grant)
unfolding issue_consent_grant authorize_subject_action client_active validated_groups unique_from
    all_supported field_group_fields has_text subset is_empty Rows.get
issued = refl

abbrev profile : Profile String
profile = ("display_name", "A") ∷ ("email", "a@example") ∷ []

disclosed :
    disclose_profile 9 3 "registration" "event" profile 6 6 (db_of (grant ∷ []) [] [])
    ≡ ok (("display_name", "A") ∷ [])
unfolding disclose_profile grant_active client_active permitted_fields field_group_fields has_text
    Rows.get
disclosed = refl

disclose_profile-MayDisclose_example :
    (g : ConsentGrant) × (Rows.get grant_key 9 (grant ∷ []) ≡ some g)
    × MayDisclose g 3 "registration" "event" 6 6 (db_of (grant ∷ []) [] [])
    × (("display_name", "A") ∷ []
        ≡ select (λ (field : String × String). is_granted g.field_groups field.0) profile)
disclose_profile-MayDisclose_example =
    disclose_profile-MayDisclose 9 3 "registration" "event" profile 6 6 (db_of (grant ∷ []) [] [])
      (("display_name", "A") ∷ []) disclosed

revoked :
    revoke_consent_grant 9 1 "moved" 7 (db_of (grant ∷ []) [] [])
    ≡ ok (
      db_of (revoked_grant 7 "moved" grant ∷ []) [] (event AuditAction.revoked 9 ∷ []),
      revoked_grant 7 "moved" grant,
    )
unfolding revoke_consent_grant Rows.get Rows.save
revoked = refl

revoke_consent_grant-final_example :
    disclose_profile 9 3 "registration" "event" profile 8 8
      (db_of (revoked_grant 7 "moved" grant ∷ []) [] (event AuditAction.revoked 9 ∷ []))
    ≢ ok (("display_name", "A") ∷ [])
revoke_consent_grant-final_example =
    revoke_consent_grant-final 9 1 "moved" 7 (db_of (grant ∷ []) [] [])
      (db_of (revoked_grant 7 "moved" grant ∷ []) [] (event AuditAction.revoked 9 ∷ []))
      (db_of (revoked_grant 7 "moved" grant ∷ []) [] (event AuditAction.revoked 9 ∷ []))
      (revoked_grant 7 "moved" grant) 3 "registration" "event" profile (("display_name", "A") ∷ [])
      8 8 revoked stays

abbrev choice : OptInRequest
choice = record {
  person_id = 2;
  acting_account_id = 1;
  guardian_relationship_id = none;
  selected_fields = "display_name" ∷ [];
  policy_version = "1";
}

abbrev chosen : PublicProfileOptIn
chosen = new_opt_in 4 choice ("display_name" ∷ []) 11

opted_in :
    opt_in_public_profile choice 10 10 4 11 (db_of [] [] [])
    ≡ ok (db_of [] (chosen ∷ []) (event AuditAction.opted_in 4 ∷ []), chosen)
unfolding opt_in_public_profile authorize_subject_action unique_from has_text subset supersede_all
    Rows.get
opted_in = refl

opt_in_public_profile-projection_example :
    (select (in_force 2) (chosen ∷ []) ≡ chosen ∷ [])
    × (public_profile_projection 2 profile 12
          (db_of [] (chosen ∷ []) (event AuditAction.opted_in 4 ∷ []))
        ≡ ok (some (shown_fields ("display_name" ∷ []) profile)))
unfolding Rows.get
opt_in_public_profile-projection_example =
    opt_in_public_profile-projection choice 10 10 4 11 (db_of [] [] [])
      (db_of [] (chosen ∷ []) (event AuditAction.opted_in 4 ∷ [])) chosen person profile 12 opted_in
      refl refl refl

shown :
    public_profile_projection 2 profile 12 (db_of [] (chosen ∷ []) [])
    ≡ ok (some (("display_name", "A") ∷ []))
unfolding public_profile_projection current_opt_in order_by place head? projection_of shown_fields
    has_text Rows.get
shown = refl

public_profile_projection-confined_example :
    (p : Person) × (Rows.get person_key 2 (person ∷ []) ≡ some p)
    × (p.status ≡ PersonStatus.active)
    × (o : PublicProfileOptIn) × IsCurrent 2 (chosen ∷ []) o
    × Guarded o.guardian_relationship_id 12 (db_of [] (chosen ∷ []) [])
    × (("display_name", "A") ∷ []
        ≡ select
            (λ (field : String × String).
              has_text field.0 o.selected_fields && has_text field.0 public_profile_fields)
            profile)
public_profile_projection-confined_example =
    public_profile_projection-confined 2 profile (("display_name", "A") ∷ []) 12
      (db_of [] (chosen ∷ []) []) shown

opt_in_public_profile-Choices_example :
    current_opt_in 2 (chosen ∷ []) ≡ (if 2 == 2 then some chosen else current_opt_in 2 [])
opt_in_public_profile-Choices_example =
    opt_in_public_profile-Choices choice 10 10 4 11 (db_of [] [] [])
      (db_of [] (chosen ∷ []) (event AuditAction.opted_in 4 ∷ [])) chosen 2 opted_in
