-- ===== src/Consent/Projection.antt =====
-- What a projection shows is the choice of the person, and the choices of the table are a map from
-- persons to choices.
use mnemex.Base.{
  or_raise-eq-ok, ==-transfer, ==_iff, ℕ, ◌≡◌, refl, sym, ap, subst, ◌∙◌, String, Bool, true, false,
  not, ◌&&◌, none, some, List, [], ◌∷◌, ◌++◌, ltb, ◌==◌, arith, ==_refl, if◌then◌else◌, select,
  Bool-cases, Option-cases, inl, inr, ok, guard, or_raise, does_not_exist, consent_denied, >>=-then,
  and_left,
}
use mnemex.Base.Rows
use mnemex.Base.Ordered.{order_by, place, head?}
use mnemex.Consent.Model.{
  PersonStatus, Person, PublicProfileOptIn, Db, account_key, person_key, person_active, has_text,
  public_profile_fields,
}
use mnemex.Consent.Current.{IsCurrent, guardian_still-Guarded, current_opt_in-IsCurrent}
use mnemex.Consent.Authority.{Guarded, person_active-eq}
use mnemex.Consent.Services.{
  authorize_subject_action, unique_from, is_nil, subset, locked_relationship, Profile,
}
use mnemex.Consent.Public.{
  superseded, in_force, supersede_all, OptInRequest, new_opt_in, opt_in_public_profile,
  current_opt_in, guardian_still, shown_fields, projection_of, public_profile_projection,
}

supersede_all-none :
    (k now : ℕ) (rows : List PublicProfileOptIn)
    → select (in_force k) (supersede_all k now rows) ≡ []
unfolding supersede_all
supersede_all-none k now [] = refl
supersede_all-none k now (o ∷ rows) = elim (Bool-cases (in_force k o)) [
  | inl e ↦
      let gone : in_force k (superseded now o) ≡ false = ground arith in
      rw e (rw gone (supersede_all-none k now rows))
  | inr e ↦ rw e (rw e (supersede_all-none k now rows))
]

select-append {ℓ} :
    {A : Type ℓ} (p : A → Bool) (xs ys : List A) → select p (xs ++ ys) ≡ select p xs ++ select p ys
select-append p [] ys = refl
select-append p (x ∷ xs) ys = elim (Bool-cases (p x)) [
  | inl e ↦ rw e (ap (λ t. x ∷ t) (select-append p xs ys))
  | inr e ↦ rw e (select-append p xs ys)
]

-- After a choice that succeeds, it is the only one of its person that is in force.
opt_in-only :
    (q : OptInRequest) (now later id effective_at : ℕ) (db db' : Db) (o : PublicProfileOptIn)
    → opt_in_public_profile q now later id effective_at db ≡ ok (db', o)
    → (select (in_force q.person_id) db'.opt_ins ≡ o ∷ [])
      × (db'.persons ≡ db.persons)
      × (o.guardian_relationship_id ≡ q.guardian_relationship_id)
      × (supersede_all q.person_id later db.opt_ins ++ o ∷ [] ≡ db'.opt_ins)
      × (o.person_id ≡ q.person_id)
unfolding opt_in_public_profile
opt_in-only q now later id effective_at db db' o h =
    >>=-then (or_raise (Rows.get person_key q.person_id db.persons) does_not_exist) _ h
      (λ person h1 h2.
        >>=-then (or_raise (Rows.get account_key q.acting_account_id db.accounts) does_not_exist) _
          h2
          (λ account h3 h4.
            >>=-then (locked_relationship q.guardian_relationship_id db) _ h4 (λ relationship h5 h6.
              >>=-then (authorize_subject_action person account relationship now) _ h6 (λ t1 h7 h8.
                let fields = unique_from [] q.selected_fields in
                >>=-then
                  (guard (not (is_nil fields) && subset fields public_profile_fields)
                    consent_denied)
                  _ h8
                  (λ t2 h9 h10.
                    let chosen = new_opt_in id q fields effective_at in
                    let rows : supersede_all q.person_id later db.opt_ins ++ chosen ∷ []
                        ≡ db'.opt_ins =
                      cc h10 in
                    let made : chosen ≡ o = cc h10 in
                    let people : db.persons ≡ db'.persons = cc h10 in
                    let mine : in_force q.person_id chosen ≡ true = rw (==_refl q.person_id) in
                    (
                      rw (sym rows, sym made)
                          (select-append (in_force q.person_id)
                              (supersede_all q.person_id later db.opt_ins) (chosen ∷ [])
                            ∙ rw (supersede_all-none q.person_id later db.opt_ins, mine)),
                      sym people,
                      rw (sym made),
                      subst
                          (λ x. supersede_all q.person_id later db.opt_ins ++ x ∷ [] ≡ db'.opt_ins)
                          made rows,
                      rw (sym made),
                    ))))))

module _ {V : Type 0} (q : OptInRequest) (now later id effective_at : ℕ) (db db' : Db)
    (o : PublicProfileOptIn) where
  -- After a choice that succeeds it is the only one of its person that is in force, and if it was not
  -- made by a guardian and the person is active, the projection shows what it selected at any time.
  pub opt_in_public_profile-projection :
      (person : Person) (available : Profile V) (at : ℕ)
      → opt_in_public_profile q now later id effective_at db ≡ ok (db', o)
      → q.guardian_relationship_id ≡ none
      → Rows.get person_key q.person_id db.persons ≡ some person
      → person_active person.status ≡ true
      → (select (in_force q.person_id) db'.opt_ins ≡ o ∷ [])
        × (public_profile_projection q.person_id available at db'
            ≡ ok (some (shown_fields o.selected_fields available)))
  unfolding public_profile_projection projection_of current_opt_in order_by head? place
  opt_in_public_profile-projection person available at h alone found live =
      let (only, people, guardian, rows, mine) =
        opt_in-only q now later id effective_at db db' o h in
      (only, rw (people, found, live, only, guardian, alone))

module _ {V : Type 0} where
  -- A projection that is shown is of an active person of the table, by the newest choice of the table
  -- that is in force for the person, of which the guardian, if there is one, still has the authority;
  -- it gives exactly the available values whose field the choice selected and may be public.
  pub public_profile_projection-confined :
      (person_id : ℕ) (available shown : Profile V) (now : ℕ) (db : Db)
      → public_profile_projection person_id available now db ≡ ok (some shown)
      → (person : Person) × (Rows.get person_key person_id db.persons ≡ some person)
        × (person.status ≡ PersonStatus.active)
        × (o : PublicProfileOptIn) × IsCurrent person_id db.opt_ins o
        × Guarded o.guardian_relationship_id now db
        × (shown
            ≡ select
                (λ (field : String × V).
                  has_text field.0 o.selected_fields && has_text field.0 public_profile_fields)
                available)
  unfolding public_profile_projection projection_of shown_fields
  public_profile_projection-confined person_id available shown now db h =
      >>=-then (or_raise (Rows.get person_key person_id db.persons) does_not_exist) _ h
        (λ person h1 h2. elim (Bool-cases (person_active person.status)) [
          | inr gone ↦ cc (rw gone at h2)
          | inl live ↦ elim (Option-cases (current_opt_in person_id db.opt_ins)) [
            | inl e ↦ cc (rw (live, e) at h2)
            | inr (o, e) ↦
                >>=-then (guardian_still now o.guardian_relationship_id db) _ (rw (live, e) at h2)
                  (λ holds h3 h4. elim (Bool-cases holds) [
                    | inr lost ↦ cc (rw lost at h4)
                    | inl kept ↦
                        let same : shown_fields o.selected_fields available ≡ shown =
                          cc (rw kept at h4) in
                        (
                          person,
                          or_raise-eq-ok (Rows.get person_key person_id db.persons) does_not_exist
                              h1,
                          person_active-eq person.status live,
                          o,
                          current_opt_in-IsCurrent person_id db.opt_ins o e,
                          guardian_still-Guarded now o.guardian_relationship_id db
                              (h3 ∙ ap ok kept),
                          sym same,
                        )
                  ])
          ]
        ])

append_nil {ℓ} : {A : Type ℓ} (xs : List A) → xs ++ [] ≡ xs
append_nil [] = refl
append_nil (x ∷ xs) = ap (λ t. x ∷ t) (append_nil xs)

supersede_all-other :
    (j k now : ℕ) (rows : List PublicProfileOptIn)
    → (k == j) ≡ false
    → select (in_force j) (supersede_all k now rows) ≡ select (in_force j) rows
unfolding supersede_all
supersede_all-other j k now [] h = refl
supersede_all-other j k now (o ∷ rows) h = elim (Bool-cases (in_force k o)) [
  | inr e ↦ rw e (ap (λ t. if in_force j o then o ∷ t else t) (supersede_all-other j k now rows h))
  | inl e ↦
      let gone : in_force j (superseded now o) ≡ false = ground arith in
      let another : (o.person_id == j) ≡ false =
        ==-transfer o.person_id k j (and_left (o.person_id == k) _ e) h in
      let not_his : in_force j o ≡ false = rw another in
      rw e (rw (gone, not_his) (supersede_all-other j k now rows h))
]

-- A choice that succeeds is an update of the map from persons to their current choices: its person has
-- the new choice, and every other person has the choice from before.
pub opt_in_public_profile-Choices :
    (q : OptInRequest) (now later id effective_at : ℕ) (db db' : Db) (o : PublicProfileOptIn)
    (person_id : ℕ)
    → opt_in_public_profile q now later id effective_at db ≡ ok (db', o)
    → current_opt_in person_id db'.opt_ins
      ≡ (if q.person_id == person_id then some o else current_opt_in person_id db.opt_ins)
unfolding current_opt_in order_by place head?
opt_in_public_profile-Choices q now later id effective_at db db' o person_id h =
    let (only, people, guardian, rows, mine) = opt_in-only q now later id effective_at db db' o h in
    elim (Bool-cases (q.person_id == person_id)) [
      | inl e ↦ let same = (==_iff q.person_id person_id).0 e in rw e (rw (sym same) (rw only))
      | inr e ↦
          let not_his : in_force person_id o ≡ false = rw mine (rw e) in
          let before : PublicProfileOptIn → PublicProfileOptIn → Bool =
            λ a b. ltb b.effective_at a.effective_at in
          let same_rows : select (in_force person_id) db'.opt_ins
              ≡ select (in_force person_id) db.opt_ins =
            rw (
              sym rows,
              select-append (in_force person_id) (supersede_all q.person_id later db.opt_ins)
                  (o ∷ []),
              not_his,
              supersede_all-other person_id q.person_id later db.opt_ins e,
              append_nil (select (in_force person_id) db.opt_ins),
            ) in
          rw e (ap (λ xs. head? (order_by before xs)) same_rows)
    ]
