-- ===== src/Artifacts/Tests.antt =====
-- An object that an organization abandoned, with and without a source artifact of another one.
use mnemex.Base.{ℕ, ◌+◌, ◌≤◌, ◌≡◌, ◌⊎◌, refl, sym, ap, subst, true, none, some, List, [], ◌∷◌, ok}
use mnemex.Base.Moment.{pos}
use mnemex.Base.Rows
use mnemex.Base.Ordered.{order_by, place, before3}
use mnemex.Base.Strip.{is_empty, is_code, all_code_chars, count}
use mnemex.Keyring.Decimal.{Text}
use mnemex.Keyring.Model.{same_bytes}
use mnemex.Artifacts.Model.{
  Status, ArtifactObject, SourceArtifact, ArtifactObjectWrite, Db, write_key, is_unresolved,
  has_shape, is_clean, save_write, positive_duration, safe_error_code,
}
use mnemex.Artifacts.Lifecycle.{locked_attempt, abandon_active, abandon_artifact_write}
use mnemex.Artifacts.Reconcile.{
  ReconciliationResult, bytes, Store, resolve_each, resolve_attempts, attempts_of, sources_of,
  link_each, settle_exact, settle_reading, settle_attempts, reconcile_one, distinct_ids,
  due_objects, reconcile_each, reconcile_artifact_objects,
}
use mnemex.Artifacts.Follows.{AllFollow}
use mnemex.Artifacts.Safety.{WasRemoved, reconcile_one-safe}
use mnemex.Artifacts.History.{Reaches, stays, abandons, reconciles, Reaches-Follows}
use mnemex.Artifacts.Counts.{reconcile_artifact_objects-total}

-- A hash that is the content.
abbrev store : Store
store = record {
  sha256 = λ content. content;
  read = λ reference. bytes (1 ∷ 2 ∷ []);
  remove_if_exact = λ reference content. ok true;
}

abbrev object : ArtifactObject
object = record { object_id = 1; digest = 1 ∷ 2 ∷ []; object_reference = 7 ∷ []; byte_size = 2 }

abbrev upload : ArtifactObjectWrite
upload = record {
  write_id = 5;
  organization_id = 20;
  artifact_object_id = 1;
  status = Status.active;
  source_artifact = none;
  reconcile_after = 900;
  error_code = "";
  created_at = 10;
  resolved_at = none;
}

abbrev abandoned_upload : ArtifactObjectWrite
abandoned_upload = record upload {
  status = Status.abandoned;
  reconcile_after = 100;
  error_code = "upload_failed";
  resolved_at = some 100;
}

abbrev cleaned_upload : ArtifactObjectWrite
cleaned_upload = record abandoned_upload {
  status = Status.cleaned;
  reconcile_after = 200;
  resolved_at = some 200;
}

abbrev source_of : ℕ → SourceArtifact
source_of organization = record {
  artifact_id = 3;
  organization_id = organization;
  digest = 1 ∷ 2 ∷ [];
  byte_size = 2;
  object_reference = 7 ∷ [];
  received_at = 11;
}

abbrev db_of : ArtifactObjectWrite → List SourceArtifact → List Text → Db
db_of w sources removed = record {
  objects = object ∷ [];
  writes = w ∷ [];
  artifacts = sources;
  removed = removed;
}

abbrev referenced : Db
referenced = db_of abandoned_upload (source_of 30 ∷ []) []

abbrev removed : Db
removed = db_of cleaned_upload (source_of 30 ∷ []) ((7 ∷ []) ∷ [])

-- The source artifact of organization 30 describes the object, and the object is removed.
removes_referenced :
    reconcile_one store 200 1 (db_of abandoned_upload (source_of 30 ∷ []) [])
    ≡ ok (db_of cleaned_upload (source_of 30 ∷ []) ((7 ∷ []) ∷ []), ReconciliationResult.cleaned)
unfolding reconcile_one settle_attempts attempts_of order_by place sources_of settle_reading
    settle_exact same_bytes resolve_attempts resolve_each save_write is_clean has_shape is_empty
    Rows.get Rows.save
removes_referenced = refl

-- Of the attempt's own organization, it is kept.
keeps_own :
    reconcile_one store 200 1 (db_of abandoned_upload (source_of 20 ∷ []) [])
    ≡ ok (
      db_of
          (record abandoned_upload {
            status = Status.linked;
            source_artifact = some (source_of 20);
            error_code = "";
            reconcile_after = 200;
            resolved_at = some 200;
          })
          (source_of 20 ∷ [])
          [],
      ReconciliationResult.preserved,
    )
unfolding reconcile_one settle_attempts attempts_of order_by place sources_of settle_reading
    settle_exact same_bytes link_each resolve_attempts resolve_each save_write is_clean has_shape
    is_empty Rows.get Rows.save before3
keeps_own = refl

reconcile_one-safe_example :
    AllFollow referenced removed
    × ((removed.removed ≡ referenced.removed)
        ⊎ ((o : ArtifactObject) × WasRemoved store 200 1 o referenced removed
              ReconciliationResult.cleaned))
reconcile_one-safe_example =
    reconcile_one-safe store 200 1 referenced removed ReconciliationResult.cleaned
      removes_referenced

abandoned_run :
    abandon_artifact_write upload "upload_failed" 100 (pos 0) (db_of upload [] [])
    ≡ ok (db_of abandoned_upload [] [], abandoned_upload)
unfolding abandon_artifact_write positive_duration locked_attempt abandon_active safe_error_code
    is_code all_code_chars count save_write is_clean has_shape is_empty Rows.get Rows.save
abandoned_run = refl

reconciled : reconcile_artifact_objects store 200 10 (db_of abandoned_upload [] []) ≡ (
  db_of cleaned_upload [] ((7 ∷ []) ∷ []),
  ok (record { examined = 1; cleaned = 1; preserved = 0; blocked = 0; skipped_active = 0 }),
)
unfolding reconcile_artifact_objects due_objects distinct_ids reconcile_each reconcile_one
    settle_attempts attempts_of order_by place sources_of settle_reading settle_exact same_bytes
    resolve_attempts resolve_each save_write is_clean has_shape is_empty Rows.get Rows.save
reconciled = refl

reconcile_artifact_objects-total_example : (1 + 0 + 0 + 0 ≡ 1) × (1 ≤ 10) × (10 ≤ 1000)
reconcile_artifact_objects-total_example =
    reconcile_artifact_objects-total store 200 10 (db_of abandoned_upload [] [])
      (record { examined = 1; cleaned = 1; preserved = 0; blocked = 0; skipped_active = 0 })
      (ap (λ p. p.1) reconciled)

run : Reaches (db_of upload [] []) (db_of cleaned_upload [] ((7 ∷ []) ∷ []))
run = abandons upload "upload_failed" 100 (pos 0) abandoned_upload abandoned_run (
    reconciles store 200 10 (
      subst (λ d. Reaches d (db_of cleaned_upload [] ((7 ∷ []) ∷ [])))
        (sym (ap (λ p. p.0) reconciled)) stays))

Reaches-Follows_example :
    (w' : ArtifactObjectWrite) × (Rows.get write_key 5 (cleaned_upload ∷ []) ≡ some w')
    × (w'.organization_id ≡ 20)
    × (w'.artifact_object_id ≡ 1)
    × ((w' ≡ upload) ⊎ ((is_unresolved Status.active ≡ true) × (has_shape w' ≡ true)))
unfolding Rows.get
Reaches-Follows_example =
    Reaches-Follows (db_of upload [] []) (db_of cleaned_upload [] ((7 ∷ []) ∷ [])) 5 upload run refl
