-- ===== src/Artifacts/Model.antt =====
-- The rows (ArtifactObject, SourceArtifact and ArtifactObjectWrite of mnemex/results/models.py) and
-- the write of an attempt's row. Texts and digests are lists of numbers. `removed` is what the
-- reconciliations that succeeded made the store remove, newest last.
use mnemex.Base.{
  ℕ, String, Bool, true, false, not, ◌&&◌, Option, none, some, List, ◌==◌, if◌then◌else◌, is_some,
  Result, ok, err, ◌>>=◌, ◌>>◌, guard, or_raise, validation_error, permission_denied,
}
use mnemex.Base.Rows
use mnemex.Base.Strip.{is_empty, is_code}
use mnemex.Base.Moment.{Timedelta, pos, negsuc}
use mnemex.Keyring.Decimal.{Text}
use mnemex.Keyring.Model.{same_bytes}

pub data Status : Type 0 where
  active linked abandoned cleaned preserved blocked : Status

pub record ArtifactObject : Type 0 where
  pub object_id : ℕ
  pub digest : Text
  pub object_reference : Text
  pub byte_size : ℕ

pub record SourceArtifact : Type 0 where
  pub artifact_id : ℕ
  pub organization_id : ℕ
  pub digest : Text
  pub byte_size : ℕ
  pub object_reference : Text
  pub received_at : ℕ

-- A source artifact is immutable, so its row stands for its key.
pub record ArtifactObjectWrite : Type 0 where
  pub write_id : ℕ
  pub organization_id : ℕ
  pub artifact_object_id : ℕ
  pub status : Status
  pub source_artifact : Option SourceArtifact
  pub reconcile_after : ℕ
  pub error_code : String
  pub created_at : ℕ
  pub resolved_at : Option ℕ

pub record Db : Type 0 where
  pub objects : List ArtifactObject
  pub writes : List ArtifactObjectWrite
  pub artifacts : List SourceArtifact
  pub removed : List Text

abbrev pub object_key : ArtifactObject → ℕ
object_key o = o.object_id

abbrev pub write_key : ArtifactObjectWrite → ℕ
write_key w = w.write_id

abbrev pub is_active : Status → Bool
is_active active = true
is_active _ = false

abbrev pub is_linked : Status → Bool
is_linked linked = true
is_linked _ = false

abbrev pub is_cleaned : Status → Bool
is_cleaned cleaned = true
is_cleaned _ = false

-- `status__in=(ACTIVE, ABANDONED)`
abbrev pub is_unresolved : Status → Bool
is_unresolved active = true
is_unresolved abandoned = true
is_unresolved _ = false

-- `allowed_transitions`, and none from a terminal status.
abbrev pub may_become : Status → Status → Bool
may_become active _ = true
may_become abandoned linked = true
may_become abandoned cleaned = true
may_become abandoned preserved = true
may_become abandoned blocked = true
may_become _ _ = false

-- The object that a source artifact or an object row is about.
abbrev pub same_object : SourceArtifact → ArtifactObject → Bool
same_object a o =
    same_bytes a.digest o.digest
    && (same_bytes a.object_reference o.object_reference && a.byte_size == o.byte_size)

-- The constraint `artifact_write_status_shape`, with what `clean` asks of the error code.
unfoldable pub has_shape : ArtifactObjectWrite → Bool
unfolding is_empty
has_shape w = elim w.status [
  | active ↦
      not (is_some w.source_artifact) && (not (is_some w.resolved_at) && is_empty w.error_code)
  | linked ↦ is_some w.source_artifact && (is_some w.resolved_at && is_empty w.error_code)
  | _ ↦ not (is_some w.source_artifact) && (is_some w.resolved_at && not (is_empty w.error_code))
]

-- What `clean` asks of the source artifact.
abbrev pub source_fits : ArtifactObjectWrite → Option ArtifactObject → Bool
source_fits w o = elim w.source_artifact [
  | none ↦ true
  | some a ↦
      a.organization_id == w.organization_id && elim o [ none ↦ false | some p ↦ same_object a p ]
]

unfoldable pub is_clean : Db → ArtifactObjectWrite → Bool
unfolding has_shape same_bytes
is_clean db w = has_shape w && source_fits w (Rows.get object_key w.artifact_object_id db.objects)

abbrev pub same_provenance : ArtifactObjectWrite → ArtifactObjectWrite → Bool
same_provenance w v =
    w.organization_id == v.organization_id
    && (w.artifact_object_id == v.artifact_object_id && w.created_at == v.created_at)

-- `save(_lifecycle_transition=True)` of a row that exists.
unfoldable pub save_write : ArtifactObjectWrite → Db → Result Db
unfolding is_clean
save_write w db = do
  guard (is_clean db w) validation_error
  current ← or_raise (Rows.get write_key w.write_id db.writes) permission_denied
  guard (same_provenance w current) permission_denied
  guard (is_unresolved current.status) permission_denied
  guard (may_become current.status w.status) permission_denied
  ok (record db { writes = Rows.save write_key w db.writes })

-- `_positive_duration`; the span in microseconds.
unfoldable pub positive_duration : Bool → Timedelta → Result ℕ
positive_duration allow_zero (negsuc d) = err validation_error
positive_duration allow_zero (pos d) =
    if not allow_zero && d == 0 then err validation_error else ok d

unfoldable pub safe_error_code : String → Result String
unfolding is_code
safe_error_code value = if is_code 80 value then ok value else err validation_error
