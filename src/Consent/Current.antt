-- ===== src/Consent/Current.antt =====
-- The choice that `public_profile_projection` of mnemex/consent/services.py takes, and its guardian.
use mnemex.Base.{
  Option, ◌⊎◌, ◌≤◌, or_raise-eq-ok, ==_iff, ℕ, ◌≡◌, refl, Bool, true, false, none, some, List, [],
  ◌∷◌, ltb, ◌==◌, arith, select, All, All-map, inl, inr, ok, or_raise, does_not_exist, >>=-then,
  and_left,
}
use mnemex.Base.Rows
use mnemex.Base.Ordered.{
  order_by, All-order_by, All-head?, All-select, All-of-select, IsOrder, first_leads,
}
use mnemex.Consent.Model.{PublicProfileOptIn, Db, relationship_key}
use mnemex.Consent.Authority.{Guarded, not_some, relationship_active-HasAuthority}
use mnemex.Consent.Public.{in_force, current_opt_in, guardian_still}

pub guardian_still-Guarded :
    (now : ℕ) (k : Option ℕ) (db : Db) → guardian_still now k db ≡ ok true → Guarded k now db
guardian_still-Guarded now none db h = tt
guardian_still-Guarded now (some k) db h =
    >>=-then (or_raise (Rows.get relationship_key k db.relationships) does_not_exist) _ h
      (λ r h1 h2. (
        r,
        or_raise-eq-ok (Rows.get relationship_key k db.relationships) does_not_exist h1,
        relationship_active-HasAuthority r now (cc h2),
      ))

abbrev pub IsListed : PublicProfileOptIn → List PublicProfileOptIn → Type 0
IsListed o [] = ⊥
IsListed o (x ∷ rows) = (x ≡ o) ⊎ IsListed o rows

All-IsListed : (rows : List PublicProfileOptIn) → All (λ x. IsListed x rows) rows
All-IsListed [] = tt
All-IsListed (x ∷ rows) = (inl refl, All-map (λ y l. inr l) rows (All-IsListed rows))

-- A choice that took effect later comes first.
abbrev newer : PublicProfileOptIn → PublicProfileOptIn → Bool
newer a b = ltb b.effective_at a.effective_at

newer-IsOrder : IsOrder newer
newer-IsOrder = record { asym = λ a b h. ground arith; neg_trans = λ a b c h l. ground arith }

-- A choice of the table that is in force for the person, and than which no other of these is newer.
pub record IsCurrent (person_id : ℕ) (rows : List PublicProfileOptIn) (o : PublicProfileOptIn)
    : Type 0 where
  pub listed : IsListed o rows
  pub of_person : o.person_id ≡ person_id
  pub unrevoked : o.revoked_at ≡ none
  pub latest :
      All
        (λ x. x.person_id ≡ person_id → x.revoked_at ≡ none → x.effective_at ≤ o.effective_at)
        rows

pub current_opt_in-IsCurrent :
    (k : ℕ) (rows : List PublicProfileOptIn) (o : PublicProfileOptIn)
    → current_opt_in k rows ≡ some o
    → IsCurrent k rows o
unfolding current_opt_in
current_opt_in-IsCurrent k rows o h =
    let found =
      All-head? newer (λ x. (in_force k x ≡ true) × IsListed x rows)
        (order_by newer (select (in_force k) rows)) o
        (All-order_by newer (λ x. (in_force k x ≡ true) × IsListed x rows)
          (select (in_force k) rows)
          (All-select (in_force k) (λ x. IsListed x rows) rows (All-IsListed rows)))
        h in
    let not_newer : newer o o ≡ false = ground arith in
    record {
      listed = found.1;
      of_person = (==_iff o.person_id k).0 (and_left (o.person_id == k) _ found.0);
      unrevoked = not_some o.revoked_at (let e = found.0 in ground arith);
      latest =
          All-map {Q = λ x. x.person_id ≡ k → x.revoked_at ≡ none → x.effective_at ≤ o.effective_at}
            (λ x (l : in_force k x ≡ true → x.effective_at ≤ o.effective_at) mine alive.
              let same : (x.person_id == k) ≡ true = (==_iff x.person_id k).1 mine in
              l (rw (same, alive) refl))
            rows
            (All-of-select (in_force k) (λ x. x.effective_at ≤ o.effective_at) rows
              (All-map (λ x (l : newer x o ≡ false). ground arith) (select (in_force k) rows)
                (first_leads newer newer-IsOrder (select (in_force k) rows) o not_newer h)));
    }
