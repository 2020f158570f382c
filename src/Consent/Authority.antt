-- ===== src/Consent/Authority.antt =====
-- What the tests of the rows say (`is_active` of the grant, the client and the guardian relationship of
-- mnemex/consent/models.py), column by column.
use mnemex.Base.{
  ℕ, ◌≤◌, ◌<◌, ◌⊎◌, ◌≡◌, true, false, Option, none, some, arith, is_some, inl, inr, Option-cases,
  ok, or_raise, does_not_exist, consent_denied, >>=-then, guard-eq-ok, or_raise-eq-ok,
}
use mnemex.Base.Rows
use mnemex.Consent.Model.{
  PersonStatus, PartnerClient, GuardianRelationship, ConsentGrant, Db, relationship_key,
  relationship_active, grant_active, client_active, person_active,
}
use mnemex.Consent.Services.{guardian_holds}

-- The authority of a guardian at a time: verified, in effect, not expired and not revoked.
pub record HasAuthority (r : GuardianRelationship) (now : ℕ) : Type 0 where
  pub verified : (r.is_verified ≡ true) × (is_some r.verified_at ≡ true)
  pub in_effect : r.effective_at ≤ now
  pub unexpired : (r.expires_at ≡ none) ⊎ ((t : ℕ) × (r.expires_at ≡ some t) × (now < t))
  pub unrevoked : r.revoked_at ≡ none

-- The guardian that an optional key names has the authority; without a key there is none to ask.
abbrev pub Guarded : Option ℕ → ℕ → Db → Type 0
Guarded none now db = Unit
Guarded (some k) now db =
    (r : GuardianRelationship) × (Rows.get relationship_key k db.relationships ≡ some r)
    × HasAuthority r now

pub not_some {ℓ} : {A : Type ℓ} (o : Option A) → is_some o ≡ false → o ≡ none
not_some o h = ground arith

pub person_active-eq : (s : PersonStatus) → person_active s ≡ true → s ≡ PersonStatus.active
person_active-eq s h = ground arith

pub relationship_active-HasAuthority :
    (r : GuardianRelationship) (now : ℕ) → relationship_active now r ≡ true → HasAuthority r now
unfolding relationship_active
relationship_active-HasAuthority r now h = record {
  verified = (ground arith, ground arith);
  in_effect = ground arith;
  unexpired = elim (Option-cases r.expires_at) [
    | inl never ↦ inl never
    | inr (t, e) ↦ inr (t, e, ground arith)
  ];
  unrevoked = not_some r.revoked_at (ground arith);
}

pub grant_active-parts :
    (now : ℕ) (g : ConsentGrant)
    → grant_active now g ≡ true
    → (g.revoked_at ≡ none) × (now < g.expires_at)
unfolding grant_active
grant_active-parts now g h = (not_some g.revoked_at (ground arith), ground arith)

pub client_active-parts :
    (c : PartnerClient)
    → client_active c ≡ true
    → (c.is_current ≡ true) × (c.revoked_at ≡ none) × (c.organization_active ≡ true)
unfolding client_active
client_active-parts c h = (ground arith, not_some c.revoked_at (ground arith), ground arith)

pub guardian_holds-Guarded :
    (now : ℕ) (k : Option ℕ) (db : Db) → guardian_holds now k db ≡ ok tt → Guarded k now db
guardian_holds-Guarded now none db h = tt
guardian_holds-Guarded now (some k) db h =
    >>=-then (or_raise (Rows.get relationship_key k db.relationships) does_not_exist) _ h
      (λ r h1 h2. (
        r,
        or_raise-eq-ok (Rows.get relationship_key k db.relationships) does_not_exist h1,
        relationship_active-HasAuthority r now
            (guard-eq-ok (relationship_active now r) consent_denied h2),
      ))
