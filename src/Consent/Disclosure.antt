-- ===== src/Consent/Disclosure.antt =====
-- What a disclosure rests on.
use mnemex.Base.{
  ◌<◌, ==_iff, Bool, false, ◌||◌, none, [], ◌∷◌, ◌++◌, refl, ap, ◌∙◌, Bool-cases, inl, inr,
  key_error, ℕ, ◌≡◌, sym, String, true, ◌&&◌, some, List, str_eq, ◌==◌, select, ok, guard, or_raise,
  does_not_exist, consent_denied, >>=-then, guard-eq-ok, or_raise-eq-ok, and_left, and_right,
}
use mnemex.Base.Rows
use mnemex.Base.Rows.{Evolves, Evolves-refl, Evolves-trans, Evolves-append, Evolves-save, key-get}
use mnemex.Consent.Model.{
  PersonStatus, Person, PartnerClient, ConsentGrant, Db, field_group_fields, grant_key, person_key,
  client_key, grant_active, client_active, person_active, has_text,
}
use mnemex.Consent.Authority.{
  Guarded, person_active-eq, grant_active-parts, client_active-parts, guardian_holds-Guarded,
}
use mnemex.Consent.Services.{permitted_fields, guardian_holds, Profile, disclose_profile}

-- Some group of the grant has the field.
abbrev pub is_granted : List String → String → Bool
is_granted [] field = false
is_granted (g ∷ gs) field =
    elim (field_group_fields g) [ none ↦ false | some fields ↦ has_text field fields ]
    || is_granted gs field

-- What held when a profile was disclosed under a grant: the person was active, the grant neither
-- revoked nor expired at `now`, and its guardian had the authority at `later`; the recipient was the
-- client of the request, current, not revoked and of an active organization; and purpose and context
-- were those of the grant.
pub record MayDisclose (grant : ConsentGrant) (client_id : ℕ) (purpose context_id : String)
    (now later : ℕ) (db : Db) : Type 0 where
  pub unrevoked : grant.revoked_at ≡ none
  pub unexpired : now < grant.expires_at
  pub person : Person
  pub subject : Rows.get person_key grant.person_id db.persons ≡ some person
  pub subject_active : person.status ≡ PersonStatus.active
  pub guarded : Guarded grant.guardian_relationship_id later db
  pub client : PartnerClient
  pub registered : Rows.get client_key grant.recipient_client_id db.clients ≡ some client
  pub client_current : client.is_current ≡ true
  pub client_unrevoked : client.revoked_at ≡ none
  pub organization_live : client.organization_active ≡ true
  pub recipient : grant.recipient_client_id ≡ client_id
  pub same_purpose : str_eq grant.purpose purpose ≡ true
  pub same_context : str_eq grant.context_id context_id ≡ true

has_text-append :
    (t : String) (xs ys : List String) → has_text t (xs ++ ys) ≡ (has_text t xs || has_text t ys)
unfolding has_text
has_text-append t [] ys = refl
has_text-append t (x ∷ xs) ys = elim (Bool-cases (str_eq x t)) [
  | inl e ↦ rw e refl
  | inr e ↦ rw e (has_text-append t xs ys)
]

-- The fields that the service computes are those that some group of the grant has.
permitted_fields-is_granted :
    (groups permitted : List String) (field : String)
    → permitted_fields groups ≡ ok permitted
    → has_text field permitted ≡ is_granted groups field
unfolding permitted_fields
permitted_fields-is_granted [] permitted field h =
    let e : permitted ≡ [] = cc h in rw e (unfold has_text in refl)
permitted_fields-is_granted (g ∷ gs) permitted field h =
    >>=-then (or_raise (field_group_fields g) key_error) _ h (λ fields h1 h2.
      >>=-then (permitted_fields gs) _ h2 (λ others h3 h4.
        let named = or_raise-eq-ok (field_group_fields g) key_error h1 in
        let e : permitted ≡ fields ++ others = cc h4 in
        rw (e, named)
          (has_text-append field fields others
            ∙ ap (λ b. has_text field fields || b)
                (permitted_fields-is_granted gs others field h3))))

module _ {V : Type 0} (grant_id client_id : ℕ) (purpose context_id : String) (available : Profile V)
    (now later : ℕ) (db : Db) where
  -- A disclosure that succeeds rests on a stored grant that is in force, of an active person whose
  -- guardian for the grant, if there is one, still has the authority, to this client, which is active,
  -- for this purpose and context; and it gives exactly the available values whose field belongs to
  -- some group of the grant.
  pub disclose_profile-MayDisclose :
      (fields : Profile V)
      → disclose_profile grant_id client_id purpose context_id available now later db ≡ ok fields
      → (grant : ConsentGrant) × (Rows.get grant_key grant_id db.grants ≡ some grant)
        × MayDisclose grant client_id purpose context_id now later db
        × (fields
            ≡ select (λ (field : String × V). is_granted grant.field_groups field.0) available)
  unfolding disclose_profile
  disclose_profile-MayDisclose fields h =
      >>=-then (or_raise (Rows.get grant_key grant_id db.grants) does_not_exist) _ h (λ g h1 h2.
        >>=-then (or_raise (Rows.get person_key g.person_id db.persons) does_not_exist) _ h2
          (λ person h3 h4.
            >>=-then
              (or_raise (Rows.get client_key g.recipient_client_id db.clients) does_not_exist) _ h4
              (λ client h5 h6.
                >>=-then (guard (grant_active now g) consent_denied) _ h6 (λ t1 h7 h8.
                  >>=-then (guard (person_active person.status) consent_denied) _ h8 (λ t2 h9 h10.
                    >>=-then (guardian_holds later g.guardian_relationship_id db) _ h10
                      (λ t3 h11 h12.
                        >>=-then
                          (guard (client_active client && g.recipient_client_id == client_id)
                            consent_denied)
                          _ h12
                          (λ t4 h13 h14.
                            >>=-then
                              (guard (str_eq g.purpose purpose && str_eq g.context_id context_id)
                                consent_denied)
                              _ h14
                              (λ t5 h15 h16.
                                >>=-then (permitted_fields g.field_groups) _ h16
                                  (λ permitted h17 h18. (
                                    g,
                                    or_raise-eq-ok (Rows.get grant_key grant_id db.grants)
                                        does_not_exist h1,
                                    may_disclose g person client h3 h5 h7 h9 h11 h13 h15,
                                    (let e : select
                                              (λ (field : String × V). has_text field.0 permitted)
                                              available
                                            ≡ fields =
                                          cc h18 in
                                        sym e ∙ (λ i.
                                          select
                                            (λ (field : String × V).
                                              permitted_fields-is_granted g.field_groups permitted
                                                field.0 h17 i)
                                            available)),
                                  ))))))))))
    where
      in_force :
          (g : ConsentGrant)
          → guard (grant_active now g) consent_denied ≡ ok tt
          → (g.revoked_at ≡ none) × (now < g.expires_at)
      in_force g h = grant_active-parts now g (guard-eq-ok (grant_active now g) consent_denied h)

      client_parts :
          (c : PartnerClient) (k : ℕ)
          → guard (client_active c && k == client_id) consent_denied ≡ ok tt
          → (c.is_current ≡ true) × (c.revoked_at ≡ none) × (c.organization_active ≡ true)
      client_parts c k h =
          client_active-parts c (and_left (client_active c) _ (guard-eq-ok _ consent_denied h))

      may_disclose :
          (g : ConsentGrant) (person : Person) (client : PartnerClient)
          → or_raise (Rows.get person_key g.person_id db.persons) does_not_exist ≡ ok person
          → or_raise (Rows.get client_key g.recipient_client_id db.clients) does_not_exist
            ≡ ok client
          → guard (grant_active now g) consent_denied ≡ ok tt
          → guard (person_active person.status) consent_denied ≡ ok tt
          → guardian_holds later g.guardian_relationship_id db ≡ ok tt
          → guard (client_active client && g.recipient_client_id == client_id) consent_denied
            ≡ ok tt
          → guard (str_eq g.purpose purpose && str_eq g.context_id context_id) consent_denied
            ≡ ok tt
          → MayDisclose g client_id purpose context_id now later db
      may_disclose g person client found registered active live guarded to_client same = record {
        unrevoked = (in_force g active).0;
        unexpired = (in_force g active).1;
        person = person;
        subject = or_raise-eq-ok (Rows.get person_key g.person_id db.persons) does_not_exist found;
        subject_active =
            person_active-eq person.status
              (guard-eq-ok (person_active person.status) consent_denied live);
        guarded = guardian_holds-Guarded later g.guardian_relationship_id db guarded;
        client = client;
        registered =
            or_raise-eq-ok (Rows.get client_key g.recipient_client_id db.clients) does_not_exist
              registered;
        client_current = (client_parts client g.recipient_client_id to_client).0;
        client_unrevoked = (client_parts client g.recipient_client_id to_client).1;
        organization_live = (client_parts client g.recipient_client_id to_client).2;
        recipient =
            (==_iff g.recipient_client_id client_id).0
              (and_right (client_active client) _ (guard-eq-ok _ consent_denied to_client));
        same_purpose = and_left (str_eq g.purpose purpose) _ (guard-eq-ok _ consent_denied same);
        same_context = and_right (str_eq g.purpose purpose) _ (guard-eq-ok _ consent_denied same);
      }
