-- ===== src/Consent/Model.antt =====
-- The rows that consent reads and writes (mnemex/consent/models.py, with Person and
-- GuardianRelationship of mnemex/people/models.py and PartnerClient of mnemex/partners/models.py).
use mnemex.Base.{
  ℕ, String, Bool, true, false, not, ◌&&◌, ◌||◌, Option, none, some, List, [], ◌∷◌, str_eq, ltb,
  leb, if◌then◌else◌, is_some,
}

pub data PersonStatus : Type 0 where
  active merged redacted : PersonStatus

pub data AgeClassification : Type 0 where
  unknown minor adult : AgeClassification

pub record Account : Type 0 where
  pub account_id : ℕ
  pub is_enabled : Bool

pub record Person : Type 0 where
  pub person_id : ℕ
  pub account_id : Option ℕ
  pub status : PersonStatus
  pub age_classification : AgeClassification

pub record GuardianRelationship : Type 0 where
  pub relationship_id : ℕ
  pub guardian_account_id : ℕ
  pub minor_person_id : ℕ
  pub is_verified : Bool
  pub verified_at : Option ℕ
  pub effective_at : ℕ
  pub expires_at : Option ℕ
  pub revoked_at : Option ℕ

-- `is_current` and `organization_active` say that the statuses of the client and of its
-- organization are active.
pub record PartnerClient : Type 0 where
  pub client_id : ℕ
  pub is_current : Bool
  pub organization_active : Bool
  pub revoked_at : Option ℕ
  pub allowed_purposes : List String
  pub allowed_field_groups : List String

pub record ConsentGrant : Type 0 where
  pub grant_id : ℕ
  pub person_id : ℕ
  pub acting_account_id : ℕ
  pub guardian_relationship_id : Option ℕ
  pub recipient_client_id : ℕ
  pub purpose : String
  pub field_groups : List String
  pub context_id : String
  pub expires_at : ℕ
  pub revoked_at : Option ℕ
  pub revocation_reason : String
  pub policy_version : String
  pub verification_threshold : String
  pub revision : ℕ

pub record PublicProfileOptIn : Type 0 where
  pub opt_in_id : ℕ
  pub person_id : ℕ
  pub acting_account_id : ℕ
  pub guardian_relationship_id : Option ℕ
  pub selected_fields : List String
  pub policy_version : String
  pub effective_at : ℕ
  pub revoked_at : Option ℕ
  pub revocation_reason : String
  pub revision : ℕ

pub data AuditAction : Type 0 where
  granted revoked opted_in : AuditAction

pub record AuditEvent : Type 0 where
  pub actor_id : ℕ
  pub action : AuditAction
  pub target_id : ℕ

pub record Db : Type 0 where
  pub accounts : List Account
  pub persons : List Person
  pub relationships : List GuardianRelationship
  pub clients : List PartnerClient
  pub grants : List ConsentGrant
  pub opt_ins : List PublicProfileOptIn
  pub audit : List AuditEvent

abbrev pub account_key : Account → ℕ
account_key a = a.account_id

abbrev pub person_key : Person → ℕ
person_key p = p.person_id

abbrev pub relationship_key : GuardianRelationship → ℕ
relationship_key r = r.relationship_id

abbrev pub client_key : PartnerClient → ℕ
client_key c = c.client_id

abbrev pub grant_key : ConsentGrant → ℕ
grant_key g = g.grant_id

abbrev pub expires_after : Option ℕ → ℕ → Bool
expires_after none now = true
expires_after (some t) now = ltb now t

-- `GuardianRelationship.is_active`
unfoldable pub relationship_active : ℕ → GuardianRelationship → Bool
relationship_active now r =
    r.is_verified
    && (is_some r.verified_at
        && (leb r.effective_at now
            && (expires_after r.expires_at now && not (is_some r.revoked_at))))

-- `PartnerClient.is_active`
unfoldable pub client_active : PartnerClient → Bool
client_active c = c.is_current && (not (is_some c.revoked_at) && c.organization_active)

-- `ConsentGrant.is_active`
unfoldable pub grant_active : ℕ → ConsentGrant → Bool
grant_active now g = not (is_some g.revoked_at) && ltb now g.expires_at

abbrev pub person_active : PersonStatus → Bool
person_active PersonStatus.active = true
person_active _ = false

unfoldable pub has_text : String → List String → Bool
has_text t [] = false
has_text t (u ∷ us) = str_eq u t || has_text t us

-- `FIELD_GROUP_FIELDS.get(group)`
unfoldable pub field_group_fields : String → Option (List String)
field_group_fields g =
    if str_eq g "identity.basic"
    then some ("display_name" ∷ "public_aliases" ∷ [])
    else if str_eq g "identity.legal"
    then some ("legal_name" ∷ "birth_date" ∷ "federation_ids" ∷ [])
    else if str_eq g "contact.registration"
    then some ("email" ∷ "phone" ∷ [])
    else if str_eq g "eligibility.evidence"
    then some ("eligibility_claims" ∷ [])
    else if str_eq g "preferences.operational"
    then some ("preferences" ∷ [])
    else if str_eq g "career.summary"
    then some ("career_summary" ∷ [])
    else none

abbrev pub public_profile_fields : List String
public_profile_fields = "display_name" ∷ "public_aliases" ∷ "career_summary" ∷ []
