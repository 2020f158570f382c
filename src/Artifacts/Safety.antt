-- ===== src/Artifacts/Safety.antt =====
-- When an object is removed from the store.
use mnemex.Base.{
  ℕ, zero, suc, ◌≤◌, ◌≡◌, ◌⊎◌, refl, ap, subst, Bool, true, false, ◌&&◌, ◌||◌, none, some, List, [],
  ◌∷◌, ◌++◌, arith, ◌==◌, length, take, select, All, All-map, inl, inr, ok, or_raise,
  does_not_exist, >>=-then, or_raise-eq-ok,
}
use mnemex.Base.Rows
use mnemex.Base.Ordered.{order_by, head?, All-of-order_by, All-of-select}
use mnemex.Base.Query.{no_row}
use mnemex.Keyring.Model.{Bytes}
use mnemex.Artifacts.Model.{ArtifactObject, ArtifactObjectWrite, Db, object_key, same_object}
use mnemex.Artifacts.Reconcile.{
  ReconciliationResult, bytes, Store, unresolved_of, is_live, any_live, write_order, attempts_of,
  in_organizations, source_of_object, source_order, sources_of, is_exact, reconcile_one,
}
use mnemex.Artifacts.Follows.{AllFollow}
use mnemex.Artifacts.Removal.{settle_attempts-Removal}

or_false_left : (a b : Bool) → (a || b) ≡ false → a ≡ false
or_false_left a b h = ground arith

or_false_right : (a b : Bool) → (a || b) ≡ false → b ≡ false
or_false_right a b h = ground arith

not_both : (a b : Bool) → (a && b) ≡ false → b ≡ true → a ≡ false
not_both a b h k = ground arith

take_all {ℓ} :
    {A : Type ℓ} (n : ℕ) (xs : List A) → length (take (suc n) xs) ≤ n → take (suc n) xs ≡ xs
take_all n [] h = refl
take_all zero (x ∷ xs) h = absurd (omega arith)
take_all (suc n) (x ∷ xs) h = ap (λ t. x ∷ t) (take_all n xs (omega arith))

none_live :
    (now : ℕ) (attempts : List ArtifactObjectWrite)
    → any_live now attempts ≡ false
    → All (λ w. is_live now w ≡ false) attempts
none_live now [] h = tt
none_live now (w ∷ attempts) h = (
  or_false_left (is_live now w) (any_live now attempts) h,
  none_live now attempts (or_false_right (is_live now w) (any_live now attempts) h),
)

none_in :
    (k : ℕ) (attempts : List ArtifactObjectWrite)
    → in_organizations k attempts ≡ false
    → All (λ w. (w.organization_id == k) ≡ false) attempts
none_in k [] h = tt
none_in k (w ∷ attempts) h = (
  or_false_left (w.organization_id == k) (in_organizations k attempts) h,
  none_in k attempts (or_false_right (w.organization_id == k) (in_organizations k attempts) h),
)

-- Few attempts are all of the object's.
All-of-attempts_of {κ} :
    (P : ArtifactObjectWrite → Type κ) (k : ℕ) (db : Db)
    → length (attempts_of k db) ≤ 1000
    → All P (attempts_of k db)
    → All (λ w. unresolved_of k w ≡ true → P w) db.writes
unfolding attempts_of
All-of-attempts_of P k db few h = All-of-select (unresolved_of k) P db.writes (
    All-of-order_by write_order P (select (unresolved_of k) db.writes) (
      subst (λ xs. All P xs)
        (take_all 1000 (order_by write_order (select (unresolved_of k) db.writes)) few) h))

no_sources :
    (o : ArtifactObject) (attempts : List ArtifactObjectWrite) (db : Db)
    → sources_of o attempts db ≡ []
    → All (λ a. source_of_object o attempts a ≡ false) db.artifacts
unfolding sources_of head?
no_sources o attempts db h = no_row source_order (source_of_object o attempts) db.artifacts (
    let e : head? (order_by source_order (select (source_of_object o attempts) db.artifacts))
        ≡ none =
      rw h in
    e)

-- What is known of an object that was removed.
pub record WasRemoved (store : Store) (now k : ℕ) (o : ArtifactObject) (db db' : Db)
    (r : ReconciliationResult) : Type 0 where
  pub registered : Rows.get object_key k db.objects ≡ some o
  pub logged : db'.removed ≡ db.removed ++ o.object_reference ∷ []
  pub result : r ≡ ReconciliationResult.cleaned
  pub content : Bytes
  pub was_read : store.read o.object_reference ≡ bytes content
  pub exact : is_exact store now o content ≡ true
  pub over : All (λ w. unresolved_of k w ≡ true → is_live now w ≡ false) db.writes
  pub unreferenced :
      All
        (λ a.
          same_object a o ≡ true
          → All
              (λ w. unresolved_of k w ≡ true → (w.organization_id == a.organization_id) ≡ false)
              db.writes)
        db.artifacts

module _ (store : Store) (now k : ℕ) (db db' : Db) (r : ReconciliationResult) where
  -- The reconciliation of an object, where it succeeds, either leaves the store alone or has removed
  -- just this object. Then its bytes were the registered ones, no unresolved attempt for it was still
  -- under its lease, and no source artifact of an organization with an unresolved attempt for it
  -- describes it. In both cases the attempts keep their organization and object, and the resolved
  -- ones everything.
  pub reconcile_one-safe :
      reconcile_one store now k db ≡ ok (db', r)
      → AllFollow db db'
        × ((db'.removed ≡ db.removed) ⊎ ((o : ArtifactObject) × WasRemoved store now k o db db' r))
  unfolding reconcile_one
  reconcile_one-safe h =
      >>=-then (or_raise (Rows.get object_key k db.objects) does_not_exist) _ h (λ o h1 h2.
        elim (settle_attempts-Removal store now o (attempts_of k db) db db' r h2) [
          | inl keeps ↦ (keeps.0, inl keeps.1)
          | inr (idle, few, removal) ↦ (
            removal.logged.0,
            inr (
              o,
              record {
                registered = or_raise-eq-ok (Rows.get object_key k db.objects) does_not_exist h1;
                logged = removal.logged.1;
                result = removal.result;
                content = removal.content;
                was_read = removal.was_read;
                exact = removal.exact;
                over =
                    All-of-attempts_of (λ w. is_live now w ≡ false) k db few
                      (none_live now (attempts_of k db) idle);
                unreferenced =
                    All-map
                      (λ a free same.
                        All-of-attempts_of (λ w. (w.organization_id == a.organization_id) ≡ false) k
                          db few
                          (none_in a.organization_id (attempts_of k db) (
                            not_both (in_organizations a.organization_id (attempts_of k db))
                              (same_object a o) free same)))
                      db.artifacts (no_sources o (attempts_of k db) db removal.unreferenced);
              },
            ),
          )
        ])
