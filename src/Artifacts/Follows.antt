-- ===== src/Artifacts/Follows.antt =====
-- What an operation does to the row of an attempt.
use mnemex.Base.{
  ◌≡◌, ◌⊎◌, refl, sym, subst, ◌∙◌, true, arith, ◌==◌, ==_iff, and_left, inl, inr, ok, guard,
  or_raise, permission_denied, validation_error, >>=-then, guard-eq-ok, or_raise-eq-ok,
}
use mnemex.Base.Rows
use mnemex.Base.Rows.{Evolves, Evolves-refl, Evolves-trans, Evolves-append, Evolves-save}
use mnemex.Artifacts.Model.{
  ArtifactObjectWrite, Db, write_key, is_unresolved, may_become, has_shape, is_clean,
  same_provenance, save_write,
}

-- The row keeps whose it is and what it is about, and an attempt that was resolved keeps all.
pub record Follows (a b : ArtifactObjectWrite) : Type 0 where
  pub organization : b.organization_id ≡ a.organization_id
  pub about : b.artifact_object_id ≡ a.artifact_object_id
  pub change : (b ≡ a) ⊎ ((is_unresolved a.status ≡ true) × (has_shape b ≡ true))

pub Follows-refl : (a : ArtifactObjectWrite) → Follows a a
Follows-refl a = record { organization = refl; about = refl; change = inl refl }

pub Follows-trans : (a b c : ArtifactObjectWrite) → Follows a b → Follows b c → Follows a c
Follows-trans a b c f g = record {
  organization = g.organization ∙ f.organization;
  about = g.about ∙ f.about;
  change = elim g.change [
    | inl same ↦
        subst (λ x. (x ≡ a) ⊎ ((is_unresolved a.status ≡ true) × (has_shape x ≡ true))) (sym same)
          f.change
    | inr changed ↦ elim f.change [
      | inl same ↦ inr (subst (λ x. is_unresolved x.status ≡ true) same changed.0, changed.1)
      | inr first ↦ inr (first.0, changed.1)
    ]
  ];
}

abbrev pub AllFollow : Db → Db → Type 0
AllFollow db db' = Evolves write_key Follows db.writes db'.writes

pub AllFollow-refl : (db : Db) → AllFollow db db
AllFollow-refl db = Evolves-refl write_key Follows Follows-refl db.writes

pub AllFollow-trans : (a b c : Db) → AllFollow a b → AllFollow b c → AllFollow a c
AllFollow-trans a b c f g =
    Evolves-trans write_key Follows Follows-trans a.writes b.writes c.writes f g

pub save_write-AllFollow :
    (w : ArtifactObjectWrite) (db db' : Db) → save_write w db ≡ ok db' → AllFollow db db'
unfolding save_write is_clean
save_write-AllFollow w db db' h = >>=-then (guard (is_clean db w) validation_error) _ h (λ t1 h1 h2.
    >>=-then (or_raise (Rows.get write_key w.write_id db.writes) permission_denied) _ h2
      (λ current h3 h4.
        >>=-then (guard (same_provenance w current) permission_denied) _ h4 (λ t2 h5 h6.
          >>=-then (guard (is_unresolved current.status) permission_denied) _ h6 (λ t3 h7 h8.
            >>=-then (guard (may_become current.status w.status) permission_denied) _ h8
              (λ t4 h9 h10.
                let found =
                  or_raise-eq-ok (Rows.get write_key w.write_id db.writes) permission_denied h3 in
                let same = guard-eq-ok (same_provenance w current) permission_denied h5 in
                let written : Rows.save write_key w db.writes ≡ db'.writes = cc h10 in
                let org : (w.organization_id == current.organization_id) ≡ true = ground arith in
                let obj : (w.artifact_object_id == current.artifact_object_id) ≡ true =
                  ground arith in
                subst (λ rows. Evolves write_key Follows db.writes rows) written
                  (Evolves-save write_key Follows Follows-refl w current db.writes found (record {
                    organization = (==_iff w.organization_id current.organization_id).0 org;
                    about = (==_iff w.artifact_object_id current.artifact_object_id).0 obj;
                    change = inr (
                      guard-eq-ok (is_unresolved current.status) permission_denied h7,
                      and_left (has_shape w) _ (guard-eq-ok (is_clean db w) validation_error h1),
                    );
                  })))))))

-- The attempts follow, and the store was not made to remove anything.
abbrev pub Keeps : Db → Db → Type 0
Keeps db db' = AllFollow db db' × (db'.removed ≡ db.removed)

pub Keeps-refl : (db : Db) → Keeps db db
Keeps-refl db = (AllFollow-refl db, refl)

pub Keeps-trans : (a b c : Db) → Keeps a b → Keeps b c → Keeps a c
Keeps-trans a b c f g = (AllFollow-trans a b c f.0 g.0, g.1 ∙ f.1)

save_write-removed :
    (w : ArtifactObjectWrite) (db db' : Db) → save_write w db ≡ ok db' → db'.removed ≡ db.removed
unfolding save_write
save_write-removed w db db' h = >>=-then (guard (is_clean db w) validation_error) _ h (λ t1 h1 h2.
    >>=-then (or_raise (Rows.get write_key w.write_id db.writes) permission_denied) _ h2
      (λ current h3 h4.
        >>=-then (guard (same_provenance w current) permission_denied) _ h4 (λ t2 h5 h6.
          >>=-then (guard (is_unresolved current.status) permission_denied) _ h6 (λ t3 h7 h8.
            >>=-then (guard (may_become current.status w.status) permission_denied) _ h8
              (λ t4 h9 h10. cc h10)))))

pub save_write-Keeps :
    (w : ArtifactObjectWrite) (db db' : Db) → save_write w db ≡ ok db' → Keeps db db'
save_write-Keeps w db db' h = (save_write-AllFollow w db db' h, save_write-removed w db db' h)
