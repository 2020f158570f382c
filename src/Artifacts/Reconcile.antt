-- ===== src/Artifacts/Reconcile.antt =====
-- The reconciliation of the objects whose attempts are over (`_reconcile_one`,
-- `reconcile_artifact_objects`). What the store answers is a parameter.
use mnemex.Base.{
  ℕ, ◌+◌, String, Bool, true, false, not, ◌&&◌, ◌||◌, Option, none, some, List, [], ◌∷◌, ◌++◌, map,
  ltb, leb, ◌==◌, if◌then◌else◌, length, take, select, Error, Result, ok, err, ◌>>=◌, ◌>>◌, guard,
  or_raise, validation_error, does_not_exist,
}
use mnemex.Base.Rows
use mnemex.Base.Strip.{is_empty}
use mnemex.Base.Ordered.{before3, order_by}
use mnemex.Keyring.Decimal.{Text}
use mnemex.Keyring.Model.{Bytes, same_bytes}
use mnemex.Artifacts.Model.{
  Status, ArtifactObject, SourceArtifact, ArtifactObjectWrite, Db, object_key, is_active, is_linked,
  is_cleaned, is_unresolved, same_object, save_write,
}

pub data ReconciliationResult : Type 0 where
  cleaned preserved blocked skipped_active : ReconciliationResult

-- What `read` of the store does: bytes, a `FileNotFoundError`, an `ArtifactCollisionError`, another
-- `OSError`, or an exception of another kind.
pub data Reading : Type 0 where
  bytes : Bytes → Reading
  file_not_found collision os_failure : Reading
  raised : Error → Reading

pub record Store : Type 0 where
  pub sha256 : Bytes → Text
  pub read : Text → Reading
  -- Whether the object was removed; the store may raise.
  pub remove_if_exact : Text → Bytes → Result Bool

abbrev pub kept_code : Status → String → ArtifactObjectWrite → String
kept_code status error_code w =
    if not (is_cleaned status) || is_empty w.error_code then error_code else w.error_code

abbrev pub resolved_row :
    Status → String → ℕ → Option SourceArtifact → ArtifactObjectWrite → ArtifactObjectWrite
resolved_row status error_code now source w = record w {
  status = status;
  source_artifact = source;
  error_code = kept_code status error_code w;
  reconcile_after = now;
  resolved_at = some now;
}

-- The loop of `_resolve_attempts`.
unfoldable pub resolve_each :
    Status → String → ℕ → Option SourceArtifact → List ArtifactObjectWrite → Db → Result Db
unfolding save_write is_empty
resolve_each status error_code now source [] db = ok db
resolve_each status error_code now source (w ∷ attempts) db = do
  db' ← save_write (resolved_row status error_code now source w) db
  resolve_each status error_code now source attempts db'

abbrev pub sourced : Status → Option SourceArtifact → Bool
sourced status none = not (is_linked status)
sourced status (some a) = is_linked status

unfoldable pub resolve_attempts :
    Status → String → ℕ → Option SourceArtifact → List ArtifactObjectWrite → Db → Result Db
unfolding resolve_each
resolve_attempts status error_code now source attempts db = do
  guard (sourced status source) validation_error
  resolve_each status error_code now source attempts db

-- The attempts resolved alike, and the result.
abbrev pub finish :
    ReconciliationResult
    → Status
    → String
    → ℕ
    → List ArtifactObjectWrite
    → Db
    → Result (Db × ReconciliationResult)
finish result status error_code now attempts db =
    resolve_attempts status error_code now none attempts db >>= λ db'. ok (db', result)

abbrev pub unresolved_of : ℕ → ArtifactObjectWrite → Bool
unresolved_of object_id w = w.artifact_object_id == object_id && is_unresolved w.status

abbrev pub is_live : ℕ → ArtifactObjectWrite → Bool
is_live now w = is_active w.status && ltb now w.reconcile_after

abbrev pub any_live : ℕ → List ArtifactObjectWrite → Bool
any_live now [] = false
any_live now (w ∷ attempts) = is_live now w || any_live now attempts

abbrev pub write_order : ArtifactObjectWrite → ArtifactObjectWrite → Bool
write_order a b = before3 (a.created_at, a.write_id, 0) (b.created_at, b.write_id, 0)

-- `MAX_UNRESOLVED_WRITES_PER_OBJECT` and one more.
unfoldable pub attempts_of : ℕ → Db → List ArtifactObjectWrite
unfolding order_by
attempts_of object_id db =
    take 1001 (order_by write_order (select (unresolved_of object_id) db.writes))

abbrev pub expired : ArtifactObjectWrite → ArtifactObjectWrite
expired w = if is_active w.status then record w { error_code = "write_lease_expired" } else w

abbrev pub in_organizations : ℕ → List ArtifactObjectWrite → Bool
in_organizations k [] = false
in_organizations k (w ∷ attempts) = w.organization_id == k || in_organizations k attempts

abbrev pub source_of_object : ArtifactObject → List ArtifactObjectWrite → SourceArtifact → Bool
source_of_object o attempts a = in_organizations a.organization_id attempts && same_object a o

abbrev pub source_order : SourceArtifact → SourceArtifact → Bool
source_order a b =
    before3 (a.organization_id, a.received_at, a.artifact_id)
      (b.organization_id, b.received_at, b.artifact_id)

unfoldable pub sources_of : ArtifactObject → List ArtifactObjectWrite → Db → List SourceArtifact
unfolding order_by same_bytes
sources_of o attempts db = order_by source_order (select (source_of_object o attempts) db.artifacts)

-- `source_by_organization.get(...)`: the first one of the organization.
abbrev pub source_for : ℕ → List SourceArtifact → Option SourceArtifact
source_for k [] = none
source_for k (a ∷ sources) = if a.organization_id == k then some a else source_for k sources

-- Each attempt to its organization's source, or preserved for another's.
unfoldable pub link_each : ℕ → List SourceArtifact → List ArtifactObjectWrite → Db → Result Db
unfolding resolve_attempts
link_each now sources [] db = ok db
link_each now sources (w ∷ attempts) db = do
  db' ← elim (source_for w.organization_id sources) [
    | some a ↦ resolve_attempts Status.linked "" now (some a) (w ∷ []) db
    | none ↦ resolve_attempts Status.preserved "shared_object_is_referenced" now none (w ∷ []) db
  ]
  link_each now sources attempts db'

abbrev pub is_nil {ℓ} : {A : Type ℓ} → List A → Bool
is_nil [] = true
is_nil (x ∷ xs) = false

module _ (store : Store) (now : ℕ) (o : ArtifactObject) where
  -- The object's bytes are as registered.
  unfoldable pub settle_exact :
      Bytes
      → List SourceArtifact
      → List ArtifactObjectWrite
      → Db
      → Result (Db × ReconciliationResult)
  unfolding link_each resolve_attempts
  settle_exact content (a ∷ sources) attempts db =
      link_each now (a ∷ sources) attempts db >>= λ db'. ok (db', ReconciliationResult.preserved)
  settle_exact content [] attempts db = store.remove_if_exact o.object_reference content >>= λ gone.
      if gone
      then finish ReconciliationResult.cleaned Status.cleaned "orphan_object_removed" now attempts
          (record db { removed = db.removed ++ o.object_reference ∷ [] })
      else finish ReconciliationResult.blocked Status.blocked "object_changed_during_cleanup" now
          attempts db

  abbrev pub is_exact : Bytes → Bool
  is_exact content = same_bytes (store.sha256 content) o.digest && length content == o.byte_size

  unfoldable pub settle_reading :
      Reading
      → List SourceArtifact
      → List ArtifactObjectWrite
      → Db
      → Result (Db × ReconciliationResult)
  unfolding settle_exact resolve_attempts same_bytes
  settle_reading (bytes content) sources attempts db =
      if is_exact content
      then settle_exact content sources attempts db
      else finish ReconciliationResult.blocked Status.blocked "object_digest_mismatch" now attempts
          db
  settle_reading file_not_found sources attempts db =
      if is_nil sources
      then finish ReconciliationResult.cleaned Status.cleaned "object_absent" now attempts db
      else finish ReconciliationResult.blocked Status.blocked "referenced_object_missing" now
          attempts db
  settle_reading collision sources attempts db =
      finish ReconciliationResult.blocked Status.blocked "object_digest_mismatch" now attempts db
  settle_reading os_failure sources attempts db =
      finish ReconciliationResult.blocked Status.blocked "object_read_failed" now attempts db
  settle_reading (raised e) sources attempts db = err e

  unfoldable pub settle_attempts :
      List ArtifactObjectWrite → Db → Result (Db × ReconciliationResult)
  unfolding settle_reading resolve_attempts sources_of
  settle_attempts attempts db =
      if is_nil attempts
      then ok (db, ReconciliationResult.preserved)
      else if any_live now attempts
      then ok (db, ReconciliationResult.skipped_active)
      else if ltb 1000 (length attempts)
      then finish ReconciliationResult.blocked Status.blocked "unresolved_write_limit_exceeded" now
          (take 1000 attempts) db
      else settle_reading (store.read o.object_reference) (sources_of o attempts db)
          (map expired attempts) db

module _ (store : Store) (now : ℕ) where
  unfoldable pub reconcile_one : ℕ → Db → Result (Db × ReconciliationResult)
  unfolding settle_attempts attempts_of
  reconcile_one object_id db = do
    o ← or_raise (Rows.get object_key object_id db.objects) does_not_exist
    settle_attempts store now o (attempts_of object_id db) db

pub record ArtifactReconciliationOutcome : Type 0 where
  pub examined : ℕ
  pub cleaned : ℕ
  pub preserved : ℕ
  pub blocked : ℕ
  pub skipped_active : ℕ

abbrev pub counted :
    ReconciliationResult → ArtifactReconciliationOutcome → ArtifactReconciliationOutcome
counted ReconciliationResult.cleaned c = record c { cleaned = c.cleaned + 1 }
counted ReconciliationResult.preserved c = record c { preserved = c.preserved + 1 }
counted ReconciliationResult.blocked c = record c { blocked = c.blocked + 1 }
counted ReconciliationResult.skipped_active c = record c { skipped_active = c.skipped_active + 1 }

abbrev pub is_due : ℕ → ArtifactObjectWrite → Bool
is_due now w = is_unresolved w.status && leb w.reconcile_after now

abbrev pub object_order : ArtifactObjectWrite → ArtifactObjectWrite → Bool
object_order a b = ltb a.artifact_object_id b.artifact_object_id

-- `.distinct()` of a sorted list.
unfoldable pub distinct_ids : List ArtifactObjectWrite → List ℕ
distinct_ids [] = []
distinct_ids (w ∷ rest) =
    let ids = distinct_ids rest in
    elim ids [
      | [] ↦ w.artifact_object_id ∷ []
      | k ∷ ks ↦ if w.artifact_object_id == k then k ∷ ks else w.artifact_object_id ∷ (k ∷ ks)
    ]

unfoldable pub due_objects : ℕ → ℕ → Db → List ℕ
unfolding order_by distinct_ids
due_objects now limit db =
    take limit (distinct_ids (order_by object_order (select (is_due now) db.writes)))

module _ (store : Store) (now : ℕ) where
  -- Each object in a transaction of its own; an exception ends the loop and keeps what was done.
  unfoldable pub reconcile_each :
      List ℕ → ArtifactReconciliationOutcome → Db → Db × Result ArtifactReconciliationOutcome
  unfolding reconcile_one
  reconcile_each [] counts db = (db, ok counts)
  reconcile_each (k ∷ ids) counts db = elim (reconcile_one store now k db) [
    | ok done ↦ reconcile_each ids (counted done.1 counts) done.0
    | err e ↦ (db, err e)
  ]

  unfoldable pub reconcile_artifact_objects : ℕ → Db → Db × Result ArtifactReconciliationOutcome
  unfolding due_objects reconcile_each
  reconcile_artifact_objects limit db =
      if ltb limit 1 || ltb 1000 limit
      then (db, err validation_error)
      else (let ids = due_objects now limit db in
          reconcile_each ids
            (record {
              examined = length ids;
              cleaned = 0;
              preserved = 0;
              blocked = 0;
              skipped_active = 0;
            })
            db)
