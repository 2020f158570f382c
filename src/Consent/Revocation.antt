-- ===== src/Consent/Revocation.antt =====
-- A grant that was revoked discloses nothing any more, whatever follows.
use mnemex.Base.{
  none, ℕ, ◌≡◌, ◌≢◌, ◌⊎◌, refl, sym, ap, subst, ◌∙◌, String, true, false, not, ◌&&◌, some, [], ◌∷◌,
  ◌++◌, ltb, ◌==◌, is_some, Bool-cases, inl, inr, ok, guard, or_raise, does_not_exist,
  consent_denied, >>=-then, or_raise-eq-ok,
}
use mathlib.Core.Option.{some-injective}
use mnemex.Base.Rows
use mnemex.Base.Rows.{
  Evolves, Evolves-refl, Evolves-trans, Evolves-append, Evolves-save, key-get, get-save_self,
}
use mnemex.Base.Strip.{is_empty}
use mnemex.Consent.Model.{
  ConsentGrant, PublicProfileOptIn, Db, grant_key, person_key, client_key, account_key,
  grant_active, client_active, has_text, public_profile_fields,
}
use mnemex.Consent.Services.{
  GrantRequest, new_grant, issue_consent_grant, revoked_grant, revoke_consent_grant,
  locked_relationship, authorize_subject_action, validated_groups, subset, unique_from, is_nil,
  Profile, disclose_profile,
}
use mnemex.Consent.Public.{OptInRequest, opt_in_public_profile}
use mnemex.Consent.Disclosure.{disclose_profile-MayDisclose}

-- A grant that is revoked stays as it is.
abbrev Stays : ConsentGrant → ConsentGrant → Type 0
Stays a b = (b ≡ a) ⊎ (is_some a.revoked_at ≡ false)

Stays-trans : (a b c : ConsentGrant) → Stays a b → Stays b c → Stays a c
Stays-trans a b c (inr unrevoked) g = inr unrevoked
Stays-trans a b c (inl e) (inl f) = inl (f ∙ e)
Stays-trans a b c (inl e) (inr unrevoked) =
    inr (subst (λ x. is_some x.revoked_at ≡ false) e unrevoked)

abbrev AllStay : Db → Db → Type 0
AllStay db db' = Evolves grant_key Stays db.grants db'.grants

AllStay-same : (db db' : Db) → db.grants ≡ db'.grants → AllStay db db'
AllStay-same db db' e =
    subst (λ rows. Evolves grant_key Stays db.grants rows) e
      (Evolves-refl grant_key Stays (λ r. inl refl) db.grants)

issue_consent_grant-AllStay :
    (q : GrantRequest) (now later id : ℕ) (db db' : Db) (g : ConsentGrant)
    → issue_consent_grant q now later id db ≡ ok (db', g)
    → AllStay db db'
unfolding issue_consent_grant
issue_consent_grant-AllStay q now later id db db' g h =
    >>=-then (or_raise (Rows.get person_key q.person_id db.persons) does_not_exist) _ h
      (λ person h1 h2.
        >>=-then (or_raise (Rows.get account_key q.acting_account_id db.accounts) does_not_exist) _
          h2
          (λ account h3 h4.
            >>=-then
              (or_raise (Rows.get client_key q.recipient_client_id db.clients) does_not_exist) _ h4
              (λ client h5 h6.
                >>=-then (locked_relationship q.guardian_relationship_id db) _ h6
                  (λ relationship h7 h8.
                    >>=-then (authorize_subject_action person account relationship now) _ h8
                      (λ t1 h9 h10.
                        >>=-then (guard (client_active client) consent_denied) _ h10 (λ t2 h11 h12.
                          >>=-then (validated_groups q.field_groups) _ h12 (λ groups h13 h14.
                            >>=-then
                              (guard (has_text q.purpose client.allowed_purposes) consent_denied) _
                              h14
                              (λ t3 h15 h16.
                                >>=-then
                                  (guard (subset groups client.allowed_field_groups) consent_denied)
                                  _ h16
                                  (λ t4 h17 h18.
                                    >>=-then (guard (ltb later q.expires_at) consent_denied) _ h18
                                      (λ t5 h19 h20.
                                        >>=-then
                                          (guard (not (is_empty q.context_id)) consent_denied) _ h20
                                          (λ t6 h21 h22.
                                            subst (λ rows. Evolves grant_key Stays db.grants rows)
                                              (let e : db.grants ++ new_grant id q groups ∷ []
                                                    ≡ db'.grants =
                                                  cc h22 in
                                                e)
                                              (Evolves-append grant_key Stays (λ r. inl refl)
                                                db.grants (new_grant id q groups ∷ [])))))))))))))

opt_in_public_profile-AllStay :
    (q : OptInRequest) (now later id effective_at : ℕ) (db db' : Db) (o : PublicProfileOptIn)
    → opt_in_public_profile q now later id effective_at db ≡ ok (db', o)
    → AllStay db db'
unfolding opt_in_public_profile
opt_in_public_profile-AllStay q now later id effective_at db db' o h =
    >>=-then (or_raise (Rows.get person_key q.person_id db.persons) does_not_exist) _ h
      (λ person h1 h2.
        >>=-then (or_raise (Rows.get account_key q.acting_account_id db.accounts) does_not_exist) _
          h2
          (λ account h3 h4.
            >>=-then (locked_relationship q.guardian_relationship_id db) _ h4 (λ relationship h5 h6.
              >>=-then (authorize_subject_action person account relationship now) _ h6 (λ t1 h7 h8.
                >>=-then
                  (guard
                    (not (is_nil (unique_from [] q.selected_fields))
                      && subset (unique_from [] q.selected_fields) public_profile_fields)
                    consent_denied)
                  _ h8 (λ t2 h9 h10. AllStay-same db db' (cc h10))))))

-- What a revocation leaves: the grant's row is revoked.
revoke_consent_grant-parts :
    (k account_id : ℕ) (reason : String) (now : ℕ) (db db' : Db) (g : ConsentGrant)
    → revoke_consent_grant k account_id reason now db ≡ ok (db', g)
    → AllStay db db' × (Rows.get grant_key k db'.grants ≡ some g) × (is_some g.revoked_at ≡ true)
unfolding revoke_consent_grant
revoke_consent_grant-parts k account_id reason now db db' g h =
    >>=-then (or_raise (Rows.get grant_key k db.grants) does_not_exist) _ h (λ locked h1 h2.
      >>=-then (or_raise (Rows.get account_key account_id db.accounts) does_not_exist) _ h2
        (λ account h3 h4. >>=-then (guard account.is_enabled consent_denied) _ h4 (λ t1 h5 h6.
          >>=-then (guard (locked.acting_account_id == account.account_id) consent_denied) _ h6
            (λ t2 h7 h8.
              let found = or_raise-eq-ok (Rows.get grant_key k db.grants) does_not_exist h1 in
              elim (Bool-cases (is_some locked.revoked_at)) [
                | inl done ↦
                    let same_db : db ≡ db' = cc (rw done at h8) in
                    let same : locked ≡ g = cc (rw done at h8) in
                    (
                      AllStay-same db db' (ap (λ d. d.grants) same_db),
                      rw (sym same_db, sym same) found,
                      rw (sym same) done,
                    )
                | inr unrevoked ↦
                    let rows : Rows.save grant_key (revoked_grant now reason locked) db.grants
                        ≡ db'.grants =
                      cc (rw unrevoked at h8) in
                    let same : revoked_grant now reason locked ≡ g = cc (rw unrevoked at h8) in
                    let id = key-get grant_key k db.grants locked found in
                    let held : Rows.get grant_key locked.grant_id db.grants ≡ some locked =
                      subst (λ i. Rows.get grant_key i db.grants ≡ some locked) (sym id) found in
                    (
                      subst (λ r. Evolves grant_key Stays db.grants r) rows
                          (Evolves-save grant_key Stays (λ r. inl refl)
                            (revoked_grant now reason locked) locked db.grants held
                            (inr unrevoked)),
                      rw (sym rows, sym same)
                          (subst
                            (λ i.
                              Rows.get grant_key i
                                (Rows.save grant_key (revoked_grant now reason locked) db.grants)
                              ≡ some (revoked_grant now reason locked))
                            id
                            (get-save_self grant_key (revoked_grant now reason locked) locked
                              db.grants held)),
                      rw (sym same),
                    )
              ]))))

-- The databases that the services lead to; the rest of the program may change all but the grants.
pub data Reaches : Db → Db → Type 0 where
  stays : {db : Db} → Reaches db db
  issues :
      {a b c : Db} (q : GrantRequest) (now later id : ℕ) (g : ConsentGrant)
      → issue_consent_grant q now later id a ≡ ok (b, g)
      → Reaches b c
      → Reaches a c
  revokes :
      {a b c : Db} (k account_id : ℕ) (reason : String) (now : ℕ) (g : ConsentGrant)
      → revoke_consent_grant k account_id reason now a ≡ ok (b, g)
      → Reaches b c
      → Reaches a c
  opts_in :
      {a b c : Db} (q : OptInRequest) (now later id effective_at : ℕ) (o : PublicProfileOptIn)
      → opt_in_public_profile q now later id effective_at a ≡ ok (b, o)
      → Reaches b c
      → Reaches a c
  others : {a b c : Db} → a.grants ≡ b.grants → Reaches b c → Reaches a c

Reaches-AllStay : {a c : Db} → Reaches a c → AllStay a c
Reaches-AllStay {a = a} stays = AllStay-same a a refl
Reaches-AllStay {a = a} {c = c} (issues {b = b} q now later id g h rest) =
    Evolves-trans grant_key Stays Stays-trans a.grants b.grants c.grants
      (issue_consent_grant-AllStay q now later id a b g h) (Reaches-AllStay rest)
Reaches-AllStay {a = a} {c = c} (revokes {b = b} k account_id reason now g h rest) =
    Evolves-trans grant_key Stays Stays-trans a.grants b.grants c.grants
      (revoke_consent_grant-parts k account_id reason now a b g h).0 (Reaches-AllStay rest)
Reaches-AllStay {a = a} {c = c} (opts_in {b = b} q now later id effective_at o h rest) =
    Evolves-trans grant_key Stays Stays-trans a.grants b.grants c.grants
      (opt_in_public_profile-AllStay q now later id effective_at a b o h) (Reaches-AllStay rest)
Reaches-AllStay {a = a} {c = c} (others {b = b} same rest) =
    Evolves-trans grant_key Stays Stays-trans a.grants b.grants c.grants (AllStay-same a b same)
      (Reaches-AllStay rest)

-- After a grant is revoked, and whatever services run then, no disclosure under it succeeds, at any
-- time, to any client and for any purpose.
pub revoke_consent_grant-final :
    {V : Type 0} (k account_id : ℕ) (reason : String) (at : ℕ) (a b c : Db) (g : ConsentGrant)
    (client_id : ℕ) (purpose context_id : String) (available fields : Profile V) (now later : ℕ)
    → revoke_consent_grant k account_id reason at a ≡ ok (b, g)
    → Reaches b c
    → disclose_profile k client_id purpose context_id available now later c ≢ ok fields
unfolding grant_active
revoke_consent_grant-final k account_id reason at a b c g client_id purpose context_id available
      fields now later h run disclosed =
    let (all, held, gone) = revoke_consent_grant-parts k account_id reason at a b g h in
    let (row, found, change) = Reaches-AllStay run k g held in
    let (granted, stored, may, given) =
      disclose_profile-MayDisclose k client_id purpose context_id available now later c fields
        disclosed in
    let same : row ≡ granted = some-injective row granted (sym found ∙ stored) in
    elim change [
      | inr unrevoked ↦ cc (unrevoked, gone)
      | inl kept ↦
          let alive : g.revoked_at ≡ none = rw (sym kept, same) may.unrevoked in cc (gone, alive)
    ]
