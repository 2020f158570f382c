-- ===== src/Artifacts/Operations.antt =====
-- What each operation of the lifecycle does to the rows of the attempts.
use mnemex.Base.{
  ℕ, ◌+◌, ◌≡◌, refl, ap, subst, ◌∙◌, String, Bool, true, false, some, List, [], ◌∷◌, ◌++◌, ltb,
  ◌==◌, ◌&&◌, ◌||◌, length, Bool-cases, Result-cases, Option-cases, inl, inr, Error, Result, ok,
  err, ◌>>◌, guard, validation_error, >>=-then,
}
use mnemex.Base.Rows
use mnemex.Base.Rows.{Evolves-append}
use mnemex.Base.Moment.{Timedelta, pos, seconds}
use mnemex.Keyring.Decimal.{Text}
use mnemex.Keyring.Model.{Bytes, same_bytes}
use mnemex.Artifacts.Model.{
  SourceArtifact, ArtifactObject, ArtifactObjectWrite, Db, write_key, is_active, is_linked,
  is_clean, same_object, save_write, positive_duration, safe_error_code,
}
use mnemex.Artifacts.Lifecycle.{
  Upload, artifact_reference_for, object_at, register_object, new_write, begin_artifact_write,
  locked_attempt, linked_row, linked_to, link_active, complete_artifact_write, abandoned_row,
  abandon_active, abandon_artifact_write, install_bytes, after_install, install_registered_artifact,
}
use mnemex.Artifacts.Reconcile.{
  Store, reconcile_one, ArtifactReconciliationOutcome, counted, due_objects, reconcile_each,
  reconcile_artifact_objects,
}
use mnemex.Artifacts.Follows.{
  Follows, Follows-refl, AllFollow, AllFollow-refl, AllFollow-trans, save_write-AllFollow,
}
use mnemex.Artifacts.Safety.{reconcile_one-safe}

guarded :
    (b : Bool) (e : Error) {x y : Db × ArtifactObjectWrite} → (guard b e >> ok x) ≡ ok y → x ≡ y
guarded false e h = cc
guarded true e h = cc

register_object-writes :
    (id : ℕ) (reference digest : Text) (size : ℕ) (db : Db) (x : Db × ArtifactObject)
    → register_object id reference digest size db ≡ ok x
    → db.writes ≡ x.0.writes
unfolding register_object
register_object-writes id reference digest size db x h =
    elim (Option-cases (object_at reference db.objects)) [
      | inl fresh ↦ let t = rw (register_object, fresh) at h in cc
      | inr (o, there) ↦ elim (Bool-cases (same_bytes o.digest digest && o.byte_size == size)) [
        | inl same ↦ let t = rw (register_object, there, same) at h in cc
        | inr differs ↦ cc (rw (register_object, there, differs) at h)
      ]
    ]

pub begin_artifact_write-AllFollow :
    (up : Upload) (org : ℕ) (content : Bytes) (filename : Text) (oid wid created now : ℕ)
    (lease : Timedelta) (db db' : Db) (w : ArtifactObjectWrite)
    → begin_artifact_write up org content filename oid wid created now lease db ≡ ok (db', w)
    → AllFollow db db'
unfolding begin_artifact_write
begin_artifact_write-AllFollow up org content filename oid wid created now lease db db' w h =
    >>=-then (positive_duration false lease) _ h (λ span h1 h2.
      >>=-then
        (register_object oid (artifact_reference_for up content filename) (up.sha256 content)
          (length content) db)
        _ h2
        (λ x h3 h4.
          let write = new_write wid org x.1.object_id created (now + span) in
          let rows =
            register_object-writes oid (artifact_reference_for up content filename)
              (up.sha256 content) (length content) db x h3 in
          let made = guarded (is_clean x.0 write) validation_error h4 in
          let written : x.0.writes ++ write ∷ [] ≡ db'.writes = ap (λ p. p.0.writes) made in
          subst (λ r. Rows.Evolves write_key Follows db.writes r)
            (ap (λ r. r ++ write ∷ []) rows ∙ written)
            (Evolves-append write_key Follows Follows-refl db.writes (write ∷ []))))

pub abandon_artifact_write-AllFollow :
    (attempt : ArtifactObjectWrite) (code : String) (now : ℕ) (grace : Timedelta) (db db' : Db)
    (w : ArtifactObjectWrite)
    → abandon_artifact_write attempt code now grace db ≡ ok (db', w)
    → AllFollow db db'
unfolding abandon_artifact_write abandon_active
abandon_artifact_write-AllFollow attempt code now grace db db' w h =
    >>=-then (positive_duration true grace) _ h (λ span h1 h2.
      >>=-then (locked_attempt attempt db) _ h2 (λ locked h3 h4.
        elim (Bool-cases (is_active locked.0.status)) [
          | inr over ↦
              subst (λ d. AllFollow db d) (let e : db ≡ db' = cc (rw over at h4) in e)
                (AllFollow-refl db)
          | inl live ↦ >>=-then (safe_error_code code) _ (rw live at h4) (λ c h5 h6.
              >>=-then
                (save_write
                  (record (abandoned_row c (now + span) locked.0) { resolved_at = some now }) db)
                _ h6
                (λ mid h7 h8.
                  subst (λ d. AllFollow db d) (let e : mid ≡ db' = cc h8 in e)
                    (save_write-AllFollow
                      (record (abandoned_row c (now + span) locked.0) { resolved_at = some now }) db
                      mid h7)))
        ]))

link_active-AllFollow :
    (artifact : SourceArtifact) (now : ℕ) (db : Db) (w : ArtifactObjectWrite) (o : ArtifactObject)
    (db' : Db) (w' : ArtifactObjectWrite)
    → link_active artifact now db w o ≡ ok (db', w')
    → AllFollow db db'
unfolding link_active
link_active-AllFollow artifact now db w o db' w' h =
    >>=-then (guard (is_active w.status) validation_error) _ h (λ t1 h1 h2.
      >>=-then (guard (ltb now w.reconcile_after) validation_error) _ h2 (λ t2 h3 h4.
        >>=-then (guard (artifact.organization_id == w.organization_id) validation_error) _ h4
          (λ t3 h5 h6. >>=-then (guard (same_object artifact o) validation_error) _ h6 (λ t4 h7 h8.
            >>=-then (save_write (linked_row artifact now w) db) _ h8 (λ mid h9 h10.
              subst (λ d. AllFollow db d) (let e : mid ≡ db' = cc h10 in e)
                (save_write-AllFollow (linked_row artifact now w) db mid h9))))))

pub complete_artifact_write-AllFollow :
    (attempt : ArtifactObjectWrite) (artifact : SourceArtifact) (now : ℕ) (db db' : Db)
    (w : ArtifactObjectWrite)
    → complete_artifact_write attempt artifact now db ≡ ok (db', w)
    → AllFollow db db'
unfolding complete_artifact_write
complete_artifact_write-AllFollow attempt artifact now db db' w h =
    >>=-then (locked_attempt attempt db) _ h (λ locked h1 h2.
      elim (Bool-cases (is_linked locked.0.status)) [
        | inr other ↦ link_active-AllFollow artifact now db locked.0 locked.1 db' w (rw other at h2)
        | inl done ↦ elim (Bool-cases (linked_to artifact locked.0)) [
          | inl same ↦
              subst (λ d. AllFollow db d) (let e : db ≡ db' = cc (rw (done, same) at h2) in e)
                (AllFollow-refl db)
          | inr differs ↦ cc (rw (done, differs) at h2)
        ]
      ])

install_bytes-AllFollow :
    (up : Upload) (content : Bytes) (filename : Text) (now : ℕ) (lease : Timedelta)
    (attempt : ArtifactObjectWrite) (db db' : Db) (w : ArtifactObjectWrite)
    → install_bytes up content filename now lease attempt db ≡ ok (db', w)
    → AllFollow db db'
unfolding install_bytes
install_bytes-AllFollow up content filename now lease attempt db db' w h =
    >>=-then (locked_attempt attempt db) _ h (λ locked h1 h2.
      >>=-then (guard (is_active locked.0.status) validation_error) _ h2 (λ t1 h3 h4.
        >>=-then (guard (ltb now locked.0.reconcile_after) validation_error) _ h4 (λ t2 h5 h6.
          >>=-then (up.put content filename) _ h6 (λ reference h7 h8.
            >>=-then (guard (same_bytes reference locked.1.object_reference) validation_error) _ h8
              (λ t3 h9 h10. >>=-then (positive_duration false lease) _ h10 (λ span h11 h12.
                >>=-then (save_write (record locked.0 { reconcile_after = now + span }) db) _ h12
                  (λ mid h13 h14.
                    subst (λ d. AllFollow db d) (let e : mid ≡ db' = cc h14 in e)
                      (save_write-AllFollow (record locked.0 { reconcile_after = now + span }) db
                        mid h13))))))))

after_install-AllFollow :
    (now : ℕ) (attempt : ArtifactObjectWrite) (db : Db) (done : Result (Db × ArtifactObjectWrite))
    → ((db' : Db) (w : ArtifactObjectWrite) → done ≡ ok (db', w) → AllFollow db db')
    → AllFollow db (after_install now attempt db done).0
after_install-AllFollow now attempt db (ok (db', w)) follow = follow db' w refl
after_install-AllFollow now attempt db (err e) follow =
    elim (Result-cases
      (abandon_artifact_write attempt "object_install_failed" now (pos (seconds 300)) db)) [
        | inl (ended, h) ↦
            rw (after_install, h)
              (abandon_artifact_write-AllFollow attempt "object_install_failed" now
                (pos (seconds 300)) db ended.0 ended.1 h)
        | inr (raised, h) ↦ rw (after_install, h) (AllFollow-refl db)
      ]

module _ (up : Upload) (org : ℕ) (content : Bytes) (filename : Text) (oid wid created : ℕ) where
  pub install_registered_artifact-AllFollow :
      (began installed failed : ℕ) (lease : Timedelta) (db : Db)
      → AllFollow db
          (install_registered_artifact up org content filename oid wid created began installed
            failed lease db).0
  unfolding install_registered_artifact
  install_registered_artifact-AllFollow began installed failed lease db =
      elim (Result-cases
        (begin_artifact_write up org content filename oid wid created began lease db)) [
          | inr (e, h) ↦ rw h (AllFollow-refl db)
          | inl ((mid, w), h) ↦ rw h (
              AllFollow-trans db mid
                (after_install failed w mid
                  (install_bytes up content filename installed lease w mid)).0
                (begin_artifact_write-AllFollow up org content filename oid wid created began lease
                  db mid w h)
                (after_install-AllFollow failed w mid
                  (install_bytes up content filename installed lease w mid)
                  (λ db' w' k.
                    install_bytes-AllFollow up content filename installed lease w mid db' w' k)))
        ]

module _ (store : Store) (now : ℕ) where
  reconcile_each-AllFollow :
      (ids : List ℕ) (counts : ArtifactReconciliationOutcome) (db : Db)
      → AllFollow db (reconcile_each store now ids counts db).0
  unfolding reconcile_each
  reconcile_each-AllFollow [] counts db = AllFollow-refl db
  reconcile_each-AllFollow (k ∷ ids) counts db =
      elim (Result-cases (reconcile_one store now k db)) [
        | inr (e, h) ↦ rw (reconcile_each, h) (AllFollow-refl db)
        | inl ((mid, r), h) ↦
            rw (reconcile_each, h)
              (AllFollow-trans db mid (reconcile_each store now ids (counted r counts) mid).0
                (reconcile_one-safe store now k db mid r h).0
                (reconcile_each-AllFollow ids (counted r counts) mid))
      ]

  pub reconcile_artifact_objects-AllFollow :
      (limit : ℕ) (db : Db) → AllFollow db (reconcile_artifact_objects store now limit db).0
  unfolding reconcile_artifact_objects
  reconcile_artifact_objects-AllFollow limit db =
      elim (Bool-cases (ltb limit 1 || ltb 1000 limit)) [
        | inl out ↦ rw out (AllFollow-refl db)
        | inr fine ↦ rw fine (
            reconcile_each-AllFollow (due_objects now limit db)
              (record {
                examined = length (due_objects now limit db);
                cleaned = 0;
                preserved = 0;
                blocked = 0;
                skipped_active = 0;
              })
              db)
      ]
