-- ===== src/Artifacts/History.antt =====
-- The operations one after another, and what stays through all of them.
use mnemex.Base.{ℕ, ◌≡◌, ◌⊎◌, String, true, some, [], ◌∷◌, ◌++◌, ok}
use mnemex.Base.Rows
use mnemex.Base.Rows.{Evolves-append}
use mnemex.Base.Moment.{Timedelta}
use mnemex.Keyring.Decimal.{Text}
use mnemex.Keyring.Model.{Bytes}
use mnemex.Artifacts.Model.{
  SourceArtifact, ArtifactObjectWrite, Db, write_key, is_unresolved, has_shape,
}
use mnemex.Artifacts.Lifecycle.{
  Upload, begin_artifact_write, complete_artifact_write, abandon_artifact_write,
  install_registered_artifact,
}
use mnemex.Artifacts.Reconcile.{Store, reconcile_artifact_objects}
use mnemex.Artifacts.Follows.{AllFollow, AllFollow-refl, AllFollow-trans}
use mnemex.Artifacts.Operations.{
  begin_artifact_write-AllFollow, abandon_artifact_write-AllFollow,
  complete_artifact_write-AllFollow, install_registered_artifact-AllFollow,
  reconcile_artifact_objects-AllFollow,
}

-- The databases that the service's calls lead to, each with its own arguments; `sourced` is a source
-- artifact that another part of the program creates.
pub data Reaches : Db → Db → Type 0 where
  stays : {db : Db} → Reaches db db
  begins :
      {a b c : Db} (up : Upload) (org : ℕ) (content : Bytes) (filename : Text)
      (oid wid created now : ℕ) (lease : Timedelta) (w : ArtifactObjectWrite)
      → begin_artifact_write up org content filename oid wid created now lease a ≡ ok (b, w)
      → Reaches b c
      → Reaches a c
  installs :
      {a c : Db} (up : Upload) (org : ℕ) (content : Bytes) (filename : Text)
      (oid wid created began installed failed : ℕ) (lease : Timedelta)
      → Reaches
          (install_registered_artifact up org content filename oid wid created began installed
            failed lease a).0
          c
      → Reaches a c
  completes :
      {a b c : Db} (attempt : ArtifactObjectWrite) (artifact : SourceArtifact) (now : ℕ)
      (w : ArtifactObjectWrite)
      → complete_artifact_write attempt artifact now a ≡ ok (b, w)
      → Reaches b c
      → Reaches a c
  abandons :
      {a b c : Db} (attempt : ArtifactObjectWrite) (code : String) (now : ℕ) (grace : Timedelta)
      (w : ArtifactObjectWrite)
      → abandon_artifact_write attempt code now grace a ≡ ok (b, w)
      → Reaches b c
      → Reaches a c
  reconciles :
      {a c : Db} (store : Store) (now limit : ℕ)
      → Reaches (reconcile_artifact_objects store now limit a).0 c
      → Reaches a c
  sourced :
      {a c : Db} (artifact : SourceArtifact)
      → Reaches (record a { artifacts = a.artifacts ++ artifact ∷ [] }) c
      → Reaches a c

Reaches-AllFollow : {a c : Db} → Reaches a c → AllFollow a c
Reaches-AllFollow {a = a} stays = AllFollow-refl a
Reaches-AllFollow {a = a} {c = c}
      (begins {b = b} up org content filename oid wid created now lease w h rest) =
    AllFollow-trans a b c
      (begin_artifact_write-AllFollow up org content filename oid wid created now lease a b w h)
      (Reaches-AllFollow rest)
Reaches-AllFollow {a = a} {c = c}
      (installs up org content filename oid wid created began installed failed lease rest) =
    AllFollow-trans a
      (install_registered_artifact up org content filename oid wid created began installed failed
        lease a).0
      c
      (install_registered_artifact-AllFollow up org content filename oid wid created began installed
        failed lease a)
      (Reaches-AllFollow rest)
Reaches-AllFollow {a = a} {c = c} (completes {b = b} attempt artifact now w h rest) =
    AllFollow-trans a b c (complete_artifact_write-AllFollow attempt artifact now a b w h)
      (Reaches-AllFollow rest)
Reaches-AllFollow {a = a} {c = c} (abandons {b = b} attempt code now grace w h rest) =
    AllFollow-trans a b c (abandon_artifact_write-AllFollow attempt code now grace a b w h)
      (Reaches-AllFollow rest)
Reaches-AllFollow {a = a} {c = c} (reconciles store now limit rest) =
    AllFollow-trans a (reconcile_artifact_objects store now limit a).0 c
      (reconcile_artifact_objects-AllFollow store now limit a) (Reaches-AllFollow rest)
Reaches-AllFollow {a = a} {c = c} (sourced artifact rest) = Reaches-AllFollow rest

-- Whatever operations follow, an attempt keeps its organization and its object, one that is resolved
-- (linked, cleaned, preserved or blocked) keeps its whole row, and a row that did change has the
-- shape of its status.
pub Reaches-Follows :
    (a c : Db) (k : ℕ) (w : ArtifactObjectWrite)
    → Reaches a c
    → Rows.get write_key k a.writes ≡ some w
    → (w' : ArtifactObjectWrite) × (Rows.get write_key k c.writes ≡ some w')
      × (w'.organization_id ≡ w.organization_id)
      × (w'.artifact_object_id ≡ w.artifact_object_id)
      × ((w' ≡ w) ⊎ ((is_unresolved w.status ≡ true) × (has_shape w' ≡ true)))
Reaches-Follows a c k w run found =
    let (w', found', follows) = Reaches-AllFollow run k w found in
    (w', found', follows.organization, follows.about, follows.change)
