-- ===== src/Artifacts/Lifecycle.antt =====
-- An upload's attempt from its registration to its end. The hash, the suffix of a file name
-- (`Path(filename).suffix.lower()`) and the outcome of the store's `put` are parameters.
use mnemex.Base.{
  ℕ, ◌+◌, String, Bool, true, false, ◌&&◌, ◌||◌, Option, none, some, List, [], ◌∷◌, ◌++◌, ltb, ◌==◌,
  if◌then◌else◌, length, take, drop, Result, ok, err, ◌>>=◌, ◌>>◌, guard, or_raise,
  validation_error, does_not_exist,
}
use mnemex.Base.Rows
use mnemex.Base.Moment.{Timedelta, pos, seconds}
use mnemex.Keyring.Decimal.{Text}
use mnemex.Keyring.Model.{Bytes, same_bytes}
use mnemex.Artifacts.Model.{
  Status, ArtifactObject, SourceArtifact, ArtifactObjectWrite, Db, object_key, write_key, is_active,
  is_linked, same_object, is_clean, save_write, positive_duration, safe_error_code,
}

-- What the store and the libraries do for an upload.
pub record Upload : Type 0 where
  pub sha256 : Bytes → Text
  pub suffix : Text → Text
  pub put : Bytes → Text → Result Text

abbrev csv : Text
csv = 46 ∷ 99 ∷ 115 ∷ 118 ∷ []

abbrev xlsx : Text
xlsx = 46 ∷ 120 ∷ 108 ∷ 115 ∷ 120 ∷ []

abbrev bin : Text
bin = 46 ∷ 98 ∷ 105 ∷ 110 ∷ []

-- `sha256/<2 digits>/<2 digits>/<digest><suffix>`
unfoldable pub artifact_reference_for : Upload → Bytes → Text → Text
unfolding same_bytes
artifact_reference_for up content filename =
    let digest = up.sha256 content in
    let suffix = up.suffix filename in
    let known = if same_bytes suffix csv || same_bytes suffix xlsx then suffix else bin in
    115
    ∷ 104
    ∷ 97
    ∷ 50
    ∷ 53
    ∷ 54
    ∷ 47
    ∷ (take 2 digest ++ 47 ∷ (take 2 (drop 2 digest) ++ 47 ∷ (digest ++ known)))

unfoldable pub object_at : Text → List ArtifactObject → Option ArtifactObject
unfolding same_bytes
object_at reference [] = none
object_at reference (o ∷ rest) =
    let found = object_at reference rest in
    if same_bytes o.object_reference reference then some o else found

-- `get_or_create`, with the check of an object that was there.
unfoldable pub register_object : ℕ → Text → Text → ℕ → Db → Result (Db × ArtifactObject)
unfolding object_at same_bytes
register_object id reference digest size db = elim (object_at reference db.objects) [
  | some o ↦
      if same_bytes o.digest digest && o.byte_size == size then ok (db, o) else err validation_error
  | none ↦
      let o : ArtifactObject = record {
        object_id = id;
        digest = digest;
        object_reference = reference;
        byte_size = size;
      } in
      ok (record db { objects = db.objects ++ o ∷ [] }, o)
]

abbrev pub new_write : ℕ → ℕ → ℕ → ℕ → ℕ → ArtifactObjectWrite
new_write id organization_id object_id created_at reconcile_after = record {
  write_id = id;
  organization_id = organization_id;
  artifact_object_id = object_id;
  status = Status.active;
  source_artifact = none;
  reconcile_after = reconcile_after;
  error_code = "";
  created_at = created_at;
  resolved_at = none;
}

module _ (up : Upload) (organization_id : ℕ) (content : Bytes) (filename : Text)
    (object_id write_id created_at : ℕ) where
  -- `object_id`, `write_id` and `created_at` are generated fields of the new rows.
  unfoldable pub begin_artifact_write : ℕ → Timedelta → Db → Result (Db × ArtifactObjectWrite)
  unfolding positive_duration artifact_reference_for register_object is_clean
  begin_artifact_write now write_lease db = do
    lease ← positive_duration false write_lease
    registered ←
        register_object object_id (artifact_reference_for up content filename) (up.sha256 content)
          (length content) db
    let write = new_write write_id organization_id registered.1.object_id created_at (now + lease)
    guard (is_clean registered.0 write) validation_error
    ok (record registered.0 { writes = registered.0.writes ++ write ∷ [] }, write)

-- `_locked_attempt`, with the object that it locks.
unfoldable pub locked_attempt :
    ArtifactObjectWrite → Db → Result (ArtifactObjectWrite × ArtifactObject)
locked_attempt attempt db = do
  held ← or_raise (Rows.get object_key attempt.artifact_object_id db.objects) does_not_exist
  current ← or_raise (Rows.get write_key attempt.write_id db.writes) does_not_exist
  o ← or_raise (Rows.get object_key current.artifact_object_id db.objects) does_not_exist
  ok (current, o)

abbrev pub linked_row : SourceArtifact → ℕ → ArtifactObjectWrite → ArtifactObjectWrite
linked_row artifact now w = record w {
  status = Status.linked;
  source_artifact = some artifact;
  error_code = "";
  reconcile_after = now;
  resolved_at = some now;
}

abbrev pub linked_to : SourceArtifact → ArtifactObjectWrite → Bool
linked_to artifact w = elim w.source_artifact [
  | none ↦ false
  | some a ↦ a.artifact_id == artifact.artifact_id
]

unfoldable pub link_active :
    SourceArtifact
    → ℕ
    → Db
    → ArtifactObjectWrite
    → ArtifactObject
    → Result (Db × ArtifactObjectWrite)
unfolding save_write same_bytes
link_active artifact now db w o = do
  guard (is_active w.status) validation_error
  guard (ltb now w.reconcile_after) validation_error
  guard (artifact.organization_id == w.organization_id) validation_error
  guard (same_object artifact o) validation_error
  db' ← save_write (linked_row artifact now w) db
  ok (db', linked_row artifact now w)

unfoldable pub complete_artifact_write :
    ArtifactObjectWrite → SourceArtifact → ℕ → Db → Result (Db × ArtifactObjectWrite)
unfolding locked_attempt link_active
complete_artifact_write attempt artifact now db = do
  locked ← locked_attempt attempt db
  if is_linked locked.0.status
      then (if linked_to artifact locked.0 then ok (db, locked.0) else err validation_error)
      else link_active artifact now db locked.0 locked.1

abbrev pub abandoned_row : String → ℕ → ArtifactObjectWrite → ArtifactObjectWrite
abandoned_row code after w = record w {
  status = Status.abandoned;
  error_code = code;
  reconcile_after = after;
}

unfoldable pub abandon_active :
    String → ℕ → ℕ → ArtifactObjectWrite → Db → Result (Db × ArtifactObjectWrite)
unfolding safe_error_code save_write
abandon_active error_code now grace w db = do
  code ← safe_error_code error_code
  let ended = record (abandoned_row code (now + grace) w) { resolved_at = some now }
  db' ← save_write ended db
  ok (db', ended)

unfoldable pub abandon_artifact_write :
    ArtifactObjectWrite → String → ℕ → Timedelta → Db → Result (Db × ArtifactObjectWrite)
unfolding positive_duration locked_attempt abandon_active
abandon_artifact_write attempt error_code now cleanup_grace db = do
  grace ← positive_duration true cleanup_grace
  locked ← locked_attempt attempt db
  if is_active locked.0.status
      then abandon_active error_code now grace locked.0 db
      else ok (db, locked.0)

-- The transaction that installs the bytes. The lease passed its check when the attempt began.
unfoldable pub install_bytes :
    Upload
    → Bytes
    → Text
    → ℕ
    → Timedelta
    → ArtifactObjectWrite
    → Db
    → Result (Db × ArtifactObjectWrite)
unfolding positive_duration locked_attempt save_write same_bytes
install_bytes up content filename now write_lease attempt db = do
  locked ← locked_attempt attempt db
  guard (is_active locked.0.status) validation_error
  guard (ltb now locked.0.reconcile_after) validation_error
  reference ← up.put content filename
  guard (same_bytes reference locked.1.object_reference) validation_error
  lease ← positive_duration false write_lease
  let renewed = record locked.0 { reconcile_after = now + lease }
  db' ← save_write renewed db
  ok (db', renewed)

-- After a failure the attempt is abandoned in a transaction of its own, and the exception goes on,
-- or the one of the abandonment does.
abbrev pub after_install :
    ℕ
    → ArtifactObjectWrite
    → Db
    → Result (Db × ArtifactObjectWrite)
    → Db × Result ArtifactObjectWrite
after_install now attempt db (ok (db', w)) = (db', ok w)
after_install now attempt db (err e) =
    elim (abandon_artifact_write attempt "object_install_failed" now (pos (seconds 300)) db) [
      | ok ended ↦ (ended.0, err e)
      | err raised ↦ (db, err raised)
    ]

abbrev pub after_begin :
    (ArtifactObjectWrite → Db → Db × Result ArtifactObjectWrite)
    → Db
    → Result (Db × ArtifactObjectWrite)
    → Db × Result ArtifactObjectWrite
after_begin install db (ok (db', w)) = install w db'
after_begin install db (err e) = (db, err e)

module _ (up : Upload) (organization_id : ℕ) (content : Bytes) (filename : Text)
    (object_id write_id created_at : ℕ) where
  -- It is no transaction: what was committed before an exception stays.
  unfoldable pub install_registered_artifact :
      ℕ → ℕ → ℕ → Timedelta → Db → Db × Result ArtifactObjectWrite
  unfolding begin_artifact_write install_bytes abandon_artifact_write
  install_registered_artifact began installed failed write_lease db =
      after_begin
        (λ w db'.
          after_install failed w db'
            (install_bytes up content filename installed write_lease w db'))
        db
        (begin_artifact_write up organization_id content filename object_id write_id created_at
          began write_lease db)
