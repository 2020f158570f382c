-- ===== src/Artifacts/Removal.antt =====
-- What the reconciliation of one object does to the attempts and to the store.
use mnemex.Base.{
  ◌∙◌, ap, ℕ, ◌≤◌, ◌≡◌, ◌⊎◌, arith, refl, subst, String, true, false, Option, none, some, List, [],
  ◌∷◌, ◌++◌, ltb, length, take, map, Bool-cases, Option-cases, inl, inr, ok, guard,
  validation_error, >>=-then,
}
use mnemex.Keyring.Model.{Bytes}
use mnemex.Artifacts.Model.{
  Status, SourceArtifact, ArtifactObject, ArtifactObjectWrite, Db, save_write,
}
use mnemex.Artifacts.Reconcile.{
  ReconciliationResult, Reading, bytes, file_not_found, collision, os_failure, raised, Store,
  resolved_row, resolve_each, sourced, resolve_attempts, finish, any_live, expired, sources_of,
  source_for, link_each, is_nil, settle_exact, is_exact, settle_reading, settle_attempts,
}
use mnemex.Artifacts.Follows.{Keeps, Keeps-refl, Keeps-trans, save_write-Keeps}

resolve_each-Keeps :
    (status : Status) (code : String) (now : ℕ) (source : Option SourceArtifact)
    (attempts : List ArtifactObjectWrite) (db db' : Db)
    → resolve_each status code now source attempts db ≡ ok db'
    → Keeps db db'
unfolding resolve_each
resolve_each-Keeps status code now source [] db db' h =
    subst (λ d. Keeps db d) (let e : db ≡ db' = cc h in e) (Keeps-refl db)
resolve_each-Keeps status code now source (w ∷ attempts) db db' h =
    >>=-then (save_write (resolved_row status code now source w) db) _ h (λ mid h1 h2.
      Keeps-trans db mid db' (save_write-Keeps (resolved_row status code now source w) db mid h1)
        (resolve_each-Keeps status code now source attempts mid db' h2))

pub resolve_attempts-Keeps :
    (status : Status) (code : String) (now : ℕ) (source : Option SourceArtifact)
    (attempts : List ArtifactObjectWrite) (db db' : Db)
    → resolve_attempts status code now source attempts db ≡ ok db'
    → Keeps db db'
unfolding resolve_attempts
resolve_attempts-Keeps status code now source attempts db db' h =
    >>=-then (guard (sourced status source) validation_error) _ h
      (λ t h1 h2. resolve_each-Keeps status code now source attempts db db' h2)

finish-Keeps :
    (result : ReconciliationResult) (status : Status) (code : String) (now : ℕ)
    (attempts : List ArtifactObjectWrite) (db db' : Db) {r : ReconciliationResult}
    → finish result status code now attempts db ≡ ok (db', r)
    → Keeps db db' × (r ≡ result)
finish-Keeps result status code now attempts db db' h =
    >>=-then (resolve_attempts status code now none attempts db) _ h (λ mid h1 h2. (
      subst (λ d. Keeps db d) (let e : mid ≡ db' = cc h2 in e)
          (resolve_attempts-Keeps status code now none attempts db mid h1),
      cc h2,
    ))

link_each-Keeps :
    (now : ℕ) (sources : List SourceArtifact) (attempts : List ArtifactObjectWrite) (db db' : Db)
    → link_each now sources attempts db ≡ ok db'
    → Keeps db db'
unfolding link_each
link_each-Keeps now sources [] db db' h =
    subst (λ d. Keeps db d) (let e : db ≡ db' = cc h in e) (Keeps-refl db)
link_each-Keeps now sources (w ∷ attempts) db db' h =
    elim (Option-cases (source_for w.organization_id sources)) [
      | inl without ↦
          >>=-then
            (resolve_attempts Status.preserved "shared_object_is_referenced" now none (w ∷ []) db) _
            (rw without at h)
            (λ mid h1 h2.
              Keeps-trans db mid db'
                (resolve_attempts-Keeps Status.preserved "shared_object_is_referenced" now none
                  (w ∷ []) db mid h1)
                (link_each-Keeps now sources attempts mid db' h2))
      | inr (a, with_source) ↦
          >>=-then (resolve_attempts Status.linked "" now (some a) (w ∷ []) db) _
            (rw with_source at h)
            (λ mid h1 h2.
              Keeps-trans db mid db'
                (resolve_attempts-Keeps Status.linked "" now (some a) (w ∷ []) db mid h1)
                (link_each-Keeps now sources attempts mid db' h2))
    ]

at_most : (n m : ℕ) → ltb m n ≡ false → n ≤ m
at_most n m h = ground arith

-- The store was made to remove the object: its bytes were as registered, and no organization with an
-- attempt had a source artifact for it.
pub record Removal (store : Store) (now : ℕ) (o : ArtifactObject) (sources : List SourceArtifact)
    (reading : Reading) (db db' : Db) (r : ReconciliationResult) : Type 0 where
  pub content : Bytes
  pub was_read : reading ≡ bytes content
  pub exact : is_exact store now o content ≡ true
  pub unreferenced : sources ≡ []
  pub accepted : store.remove_if_exact o.object_reference content ≡ ok true
  pub result : r ≡ ReconciliationResult.cleaned
  pub logged : Keeps (record db { removed = db.removed ++ o.object_reference ∷ [] }) db'

module _ (store : Store) (now : ℕ) (o : ArtifactObject) where
  settle_exact-Removal :
      (content : Bytes) (sources : List SourceArtifact) (attempts : List ArtifactObjectWrite)
      (db db' : Db) (r : ReconciliationResult)
      → is_exact store now o content ≡ true
      → settle_exact store now o content sources attempts db ≡ ok (db', r)
      → Keeps db db' ⊎ Removal store now o sources (bytes content) db db' r
  unfolding settle_exact
  settle_exact-Removal content (a ∷ sources) attempts db db' r e h = inl (
      >>=-then (link_each now (a ∷ sources) attempts db) _ h (λ mid h1 h2.
        subst (λ d. Keeps db d) (let same : mid ≡ db' = cc h2 in same)
          (link_each-Keeps now (a ∷ sources) attempts db mid h1)))
  settle_exact-Removal content [] attempts db db' r e h =
      >>=-then (store.remove_if_exact o.object_reference content) _ h (λ b answer h'.
        elim (Bool-cases b) [
          | inl gone ↦
              let next : Db = record db { removed = db.removed ++ o.object_reference ∷ [] } in
              let done =
                finish-Keeps ReconciliationResult.cleaned Status.cleaned "orphan_object_removed" now
                  attempts next db' (rw gone at h') in
              inr (record {
                content = content;
                was_read = refl;
                exact = e;
                unreferenced = refl;
                accepted = answer ∙ ap ok gone;
                result = done.1;
                logged = done.0;
              })
          | inr still ↦
              inl
                (finish-Keeps ReconciliationResult.blocked Status.blocked
                  "object_changed_during_cleanup" now attempts db db' (rw still at h')).0
        ])

  settle_reading-Removal :
      (reading : Reading) (sources : List SourceArtifact) (attempts : List ArtifactObjectWrite)
      (db db' : Db) (r : ReconciliationResult)
      → settle_reading store now o reading sources attempts db ≡ ok (db', r)
      → Keeps db db' ⊎ Removal store now o sources reading db db' r
  unfolding settle_reading
  settle_reading-Removal (bytes content) sources attempts db db' r h =
      elim (Bool-cases (is_exact store now o content)) [
        | inl e ↦ settle_exact-Removal content sources attempts db db' r e (rw e at h)
        | inr e ↦
            inl
              (finish-Keeps ReconciliationResult.blocked Status.blocked "object_digest_mismatch" now
                attempts db db' (rw e at h)).0
      ]
  settle_reading-Removal file_not_found sources attempts db db' r h =
      elim (Bool-cases (is_nil sources)) [
        | inl e ↦
            inl
              (finish-Keeps ReconciliationResult.cleaned Status.cleaned "object_absent" now attempts
                db db' (rw e at h)).0
        | inr e ↦
            inl
              (finish-Keeps ReconciliationResult.blocked Status.blocked "referenced_object_missing"
                now attempts db db' (rw e at h)).0
      ]
  settle_reading-Removal collision sources attempts db db' r h =
      inl
        (finish-Keeps ReconciliationResult.blocked Status.blocked "object_digest_mismatch" now
          attempts db db' h).0
  settle_reading-Removal os_failure sources attempts db db' r h =
      inl
        (finish-Keeps ReconciliationResult.blocked Status.blocked "object_read_failed" now attempts
          db db' h).0
  settle_reading-Removal (raised e) sources attempts db db' r h = cc h

  -- What the removal of an object rests on, with the attempts that were read.
  pub settle_attempts-Removal :
      (attempts : List ArtifactObjectWrite) (db db' : Db) (r : ReconciliationResult)
      → settle_attempts store now o attempts db ≡ ok (db', r)
      → Keeps db db'
        ⊎ ((any_live now attempts ≡ false)
            × (length attempts ≤ 1000)
            × Removal store now o
                (sources_of o attempts db)
                (store.read o.object_reference)
                db
                db'
                r)
  unfolding settle_attempts
  settle_attempts-Removal attempts db db' r h = elim (Bool-cases (is_nil attempts)) [
    | inl none_left ↦
        let same : db ≡ db' = cc (rw none_left at h) in
        inl (subst (λ d. Keeps db d) same (Keeps-refl db))
    | inr e1 ↦ elim (Bool-cases (any_live now attempts)) [
      | inl live ↦
          let same : db ≡ db' = cc (rw (e1, live) at h) in
          inl (subst (λ d. Keeps db d) same (Keeps-refl db))
      | inr e2 ↦ elim (Bool-cases (ltb 1000 (length attempts))) [
        | inl many ↦
            inl
              (finish-Keeps ReconciliationResult.blocked Status.blocked
                "unresolved_write_limit_exceeded" now (take 1000 attempts) db db'
                (rw (e1, e2, many) at h)).0
        | inr e3 ↦
            elim (settle_reading-Removal (store.read o.object_reference) (sources_of o attempts db)
              (map expired attempts) db db' r (rw (e1, e2, e3) at h)) [
                | inl keeps ↦ inl keeps
                | inr removal ↦ inr (e2, at_most (length attempts) 1000 e3, removal)
              ]
      ]
    ]
  ]
