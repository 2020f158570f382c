-- ===== src/KeyRotation/Completion.antt =====
-- A rotation that completes leaves nothing under its source version, and keeps every text.
use mnemex.Base.{
  ◌⊎◌, ℕ, ◌≡◌, ◌≢◌, refl, sym, ◌∙◌, true, false, some, List, [], ◌∷◌, arith, ltb, if◌then◌else◌,
  length, select, All, All-map, inl, inr, ok,
}
use mnemex.Base.Moment.{Moment, Timedelta}
use mnemex.Base.Rows
use mnemex.Base.Rows.{Unique, Evolves, All-get_self}
use mnemex.Base.Query.{Unique-page, page-held}
use mnemex.Keyring.Model.{Bytes, Cipher, KeyRing}
use mnemex.KeyRotation.Model.{
  Authenticator, Rotation, Status, Db, Settings, ClaimedKeyRotation, authenticator_key,
  rotation_key, is_running, mfa_key_ring,
}
use mnemex.KeyRotation.Batch.{
  last_id, after_cursor, in_scope, batch_of, run_mfa_key_rotation_batch, KeyRotationBatchOutcome,
}
use mnemex.KeyRotation.Retirement.{depends_on, authenticator_dependency_count}
use mnemex.KeyRotation.Sweep.{rotate_each-text, rotate_each-Unique, SameText}
use mnemex.KeyRotation.Progress.{Swept, rotate_each-Swept, Ran, batch-Ran}

select-none :
    (v : ℕ) (rows : List Authenticator)
    → All (λ a. depends_on v a ≡ false) rows
    → length (select (depends_on v) rows) ≡ 0
select-none v [] h = refl
select-none v (a ∷ rows) h = rw h.0 (select-none v rows h.1)

-- A full batch leaves a running job running.
not_full :
    (n limit : ℕ) (status : Status)
    → is_running status ≡ true
    → (if ltb n limit then Status.completed else status) ≡ Status.completed
    → n ≢ limit
not_full n limit status live h full =
    let e : ltb n limit ≡ false = ground (arith, full) in
    let same : status ≡ Status.completed = rw e at h in cc (rw same at live)

module _ (z : Cipher) (s : Settings) (nonce : ℕ → Bytes) (c : ClaimedKeyRotation) (limit : ℕ)
    (now : Moment) (lease : Timedelta) (db db' : Db) (o : KeyRotationBatchOutcome)
    (job : Rotation) where
  outside :
      Ran z s nonce limit job db db' o
      → job.source_key_version ≢ job.target_key_version
      → Unique authenticator_key db.authenticators
      → Swept job.cursor_authenticator_id job.source_key_version db.authenticators
      → (k : ℕ) (a : Authenticator) → Rows.get authenticator_key k db'.authenticators ≡ some a
      → (depends_on job.source_key_version a ≡ false)
        ⊎ ((length (batch_of limit job db) ≡ limit)
            × (after_cursor (last_id job.cursor_authenticator_id (batch_of limit job db)) a ≡ true))
  outside r ne u swept =
      rotate_each-Swept z r.ring nonce job.source_key_version job.target_key_version limit
        job.cursor_authenticator_id db.authenticators db'.authenticators 0 r.rotated ne r.positive u
        swept r.ran

  -- If no two authenticators share a key, and up to the job's cursor no one depends on the source
  -- version, which is not the target, a batch that succeeds keeps this up to the new cursor.
  pub run_mfa_key_rotation_batch-Swept :
      run_mfa_key_rotation_batch z s nonce c limit now lease db ≡ ok (db', o)
      → Rows.get rotation_key c.job_id db.rotations ≡ some job
      → job.source_key_version ≢ job.target_key_version
      → Unique authenticator_key db.authenticators
      → Swept job.cursor_authenticator_id job.source_key_version db.authenticators
      → Swept o.cursor_authenticator_id job.source_key_version db'.authenticators
  run_mfa_key_rotation_batch-Swept h found ne u swept = λ k a held early.
      let r = batch-Ran z s nonce c limit now lease db db' o job h found in
      elim (outside r ne u swept k a held) [
        | inl free ↦ free
        | inr full ↦ let late = full.1 in cc (rw r.cursor at early, late)
      ]

  -- Under the same conditions, a batch that completes its rotation leaves no authenticator that
  -- depends on the source version.
  pub authenticator_dependency_count-run_mfa_key_rotation_batch :
      run_mfa_key_rotation_batch z s nonce c limit now lease db ≡ ok (db', o)
      → Rows.get rotation_key c.job_id db.rotations ≡ some job
      → job.source_key_version ≢ job.target_key_version
      → Unique authenticator_key db.authenticators
      → Swept job.cursor_authenticator_id job.source_key_version db.authenticators
      → o.status ≡ Status.completed
      → authenticator_dependency_count job.source_key_version db' ≡ 0
  unfolding authenticator_dependency_count
  authenticator_dependency_count-run_mfa_key_rotation_batch h found ne u swept complete =
      let r = batch-Ran z s nonce c limit now lease db db' o job h found in
      select-none job.source_key_version db'.authenticators (
        All-map
          (λ a held. elim (outside r ne u swept a.id a held) [
            | inl free ↦ free
            | inr full ↦ absurd (
                not_full (length (batch_of limit job db)) limit job.status r.live
                  (sym r.state ∙ complete) full.0)
          ])
          db'.authenticators
          (All-get_self authenticator_key db'.authenticators (
            rotate_each-Unique z r.ring nonce job.source_key_version job.target_key_version
              (batch_of limit job db) db.authenticators 0 u r.ran)))

  -- No authenticator changes the text that is read from it with the job's ring, if no two share a
  -- key: what could be read before a batch that succeeds is read after it.
  pub run_mfa_key_rotation_batch-text :
      run_mfa_key_rotation_batch z s nonce c limit now lease db ≡ ok (db', o)
      → Rows.get rotation_key c.job_id db.rotations ≡ some job
      → Unique authenticator_key db.authenticators
      → (ring : KeyRing) × (mfa_key_ring s (job.source_key_version ∷ job.target_key_version ∷ [])
          ≡ ok ring)
        × Evolves authenticator_key (SameText z ring) db.authenticators db'.authenticators
  run_mfa_key_rotation_batch-text h found u =
      let r = batch-Ran z s nonce c limit now lease db db' o job h found in
      let batch = batch_of limit job db in
      (
        r.ring,
        r.ring_made,
        rotate_each-text z r.ring nonce job.source_key_version job.target_key_version batch
            db.authenticators 0
            (Unique-page authenticator_key limit (in_scope job.cursor_authenticator_id)
              db.authenticators u)
            (All-map (λ x p. p.1) batch
              (page-held authenticator_key limit (in_scope job.cursor_authenticator_id)
                db.authenticators u))
            r.ran,
      )
