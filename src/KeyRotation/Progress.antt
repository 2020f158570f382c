-- ===== src/KeyRotation/Progress.antt =====
-- What a batch keeps and what a completed rotation means.
use mnemex.Base.{
  ℕ, ◌≤◌, ◌≡◌, ◌≢◌, ◌⊎◌, refl, sym, subst, ◌∙◌, true, false, ◌&&◌, Option, some, List, [], ◌∷◌,
  arith, ltb, leb, ◌==◌, ==_iff, ==_refl, if◌then◌else◌, length, All, All-map, Bool-cases, inl, inr,
  ok, guard, value_error, claim_lost, and_left, >>=-then, guard-eq-ok, or_raise-eq-ok,
}
use mnemex.Base.Moment.{Moment, Timedelta, checked_now, checked_lease}
use mnemex.Base.Rows
use mnemex.Base.Rows.{Unique, Evolves, key-get, All-get_self}
use mnemex.Base.Query.{has_row, page, page-Placed, Unique-page, page-held}
use mnemex.Keyring.Model.{Bytes, Cipher, KeyRing}
use mnemex.KeyRotation.Model.{
  Authenticator, Rotation, Status, Db, Settings, ClaimedKeyRotation, authenticator_key,
  rotation_key, is_mfa, is_running, checked_limit, locked_job, assert_claim, mfa_key_ring,
  clear_claim, write, audit_rotation,
}
use mnemex.KeyRotation.Batch.{
  batch_action, rotate_each, last_id, after_cursor, in_scope, batch_of, advanced_row,
  run_mfa_key_rotation_batch, KeyRotationBatchOutcome, batch_outcome,
}
use mnemex.KeyRotation.Retirement.{depends_on}
use mnemex.KeyRotation.Sweep.{rotate_each-other, rotate_each-free}

-- No row up to the cursor depends on a version.
abbrev pub Swept : Option ℕ → ℕ → List Authenticator → Type 0
Swept cursor v table =
    (k : ℕ) (a : Authenticator)
    → Rows.get authenticator_key k table ≡ some a
    → after_cursor cursor a ≡ false
    → depends_on v a ≡ false

last_id-held :
    (cursor : Option ℕ) (b : Authenticator) (batch : List Authenticator) (k : ℕ)
    → All (λ (y : Authenticator). y.id ≤ k) (b ∷ batch)
    → (l : ℕ) × (last_id cursor (b ∷ batch) ≡ some l)
      × (l ≤ k)
      × (has_row authenticator_key l (b ∷ batch) ≡ true)
unfolding last_id
last_id-held cursor b [] k h = (b.id, refl, h.0, (let e = ==_refl b.id in ground arith))
last_id-held cursor b (c ∷ batch) k h =
    let (l, e, le, held) = last_id-held (some b.id) c batch k h.1 in (l, e, le, ground arith)

-- A full batch that ends before a row does not have the row behind its cursor.
full-after :
    (cursor : Option ℕ) (batch : List Authenticator) (a : Authenticator)
    → 1 ≤ length batch
    → All (λ (y : Authenticator). y.id ≤ a.id) batch
    → has_row authenticator_key a.id batch ≡ false
    → after_cursor (last_id cursor batch) a ≡ true
full-after cursor [] a some_row all out = absurd (omega arith)
full-after cursor (b ∷ batch) a some_row all out =
    let (l, e, le, held) = last_id-held cursor b batch a.id all in
    rw e (elim (Bool-cases (l == a.id)) [
      | inl same ↦ let s = (==_iff l a.id).0 same in let t = rw s at held in cc
      | inr differs ↦ ground arith
    ])

module _ (z : Cipher) (ring : KeyRing) (nonce : ℕ → Bytes) (source target limit : ℕ)
    (cursor : Option ℕ) (table : List Authenticator) where
  abbrev batch_rows : List Authenticator
  batch_rows = page authenticator_key limit (in_scope cursor) table

  -- What a batch leaves of a row of the new table that is not in the batch.
  outside-free :
      (k : ℕ) (a : Authenticator)
      → 1 ≤ limit
      → Swept cursor source table
      → Rows.get authenticator_key k table ≡ some a
      → has_row authenticator_key k batch_rows ≡ false
      → (depends_on source a ≡ false)
        ⊎ ((length batch_rows ≡ limit) × (after_cursor (last_id cursor batch_rows) a ≡ true))
  outside-free k a pos swept found out = elim (Bool-cases (in_scope cursor a)) [
    | inr without ↦ elim (Bool-cases (after_cursor cursor a)) [
      | inr before ↦ inl (swept k a found before)
      | inl after ↦ inl (let other : is_mfa a.type_of ≡ false = ground arith in rw other refl)
    ]
    | inl within ↦
        let id = key-get authenticator_key k table a found in
        elim (page-Placed authenticator_key limit (in_scope cursor) table k a found within) [
          | inl held ↦ let t = rw id at held in cc
          | inr (all, full) ↦
              inr (full, full-after cursor batch_rows a (omega arith) all (rw id out))
        ]
  ]

  module _ (table' : List Authenticator) (n n' : ℕ) where
    pub rotate_each-Swept :
        source ≢ target
        → 1 ≤ limit
        → Unique authenticator_key table
        → Swept cursor source table
        → rotate_each z ring nonce source target batch_rows table n ≡ ok (table', n')
        → (k : ℕ) (a : Authenticator) → Rows.get authenticator_key k table' ≡ some a
        → (depends_on source a ≡ false)
          ⊎ ((length batch_rows ≡ limit) × (after_cursor (last_id cursor batch_rows) a ≡ true))
    rotate_each-Swept ne pos u swept h k a found =
        elim (Bool-cases (has_row authenticator_key k batch_rows)) [
          | inl inside ↦ inl (
              rotate_each-free z ring nonce source target k batch_rows table n ne
                (Unique-page authenticator_key limit (in_scope cursor) table u)
                (All-map (λ x p. p.1) batch_rows
                  (page-held authenticator_key limit (in_scope cursor) table u))
                h inside a found)
          | inr outside ↦
              outside-free k a pos swept
                (sym (rotate_each-other z ring nonce source target k batch_rows table n h outside)
                  ∙ found)
                outside
        ]

checked_limit-same : (limit most : ℕ) → checked_limit limit 500 ≡ ok most → most ≡ limit
unfolding checked_limit
checked_limit-same limit most h = elim (Bool-cases (leb 1 limit && leb limit 500)) [
  | inl e ↦ cc (rw e at h)
  | inr e ↦ cc (rw e at h)
]

checked_limit-positive : (limit most : ℕ) → checked_limit limit 500 ≡ ok most → 1 ≤ most
unfolding checked_limit
checked_limit-positive limit most h = elim (Bool-cases (leb 1 limit && leb limit 500)) [
  | inl e ↦
      let same : limit ≡ most = cc (rw e at h) in
      let pos : 1 ≤ limit = ground arith in subst (λ n. 1 ≤ n) same pos
  | inr e ↦ cc (rw e at h)
]

assert_claim-live :
    (j : Rotation) (c : ClaimedKeyRotation) (at : ℕ) {t : Unit {0}}
    → assert_claim j c at ≡ ok t
    → is_running j.status ≡ true
unfolding assert_claim
assert_claim-live j c at h = and_left (is_running j.status) _ (guard-eq-ok _ claim_lost h)

advanced_row-cursor :
    (at l most : ℕ) (batch : List Authenticator) (n : ℕ) (j : Rotation)
    → (advanced_row at l most batch n j).cursor_authenticator_id
      ≡ last_id j.cursor_authenticator_id batch
unfolding advanced_row clear_claim
advanced_row-cursor at l most batch n j = elim (Bool-cases (ltb (length batch) most)) [
  | inl e ↦ rw e
  | inr e ↦ rw e
]

advanced_row-status :
    (at l most : ℕ) (batch : List Authenticator) (n : ℕ) (j : Rotation)
    → (advanced_row at l most batch n j).status
      ≡ (if ltb (length batch) most then Status.completed else j.status)
unfolding advanced_row clear_claim
advanced_row-status at l most batch n j = elim (Bool-cases (ltb (length batch) most)) [
  | inl e ↦ rw e
  | inr e ↦ rw e
]

-- The parts of a batch that went well.
pub record Ran (z : Cipher) (s : Settings) (nonce : ℕ → Bytes) (limit : ℕ) (job : Rotation)
    (db db' : Db) (o : KeyRotationBatchOutcome) : Type 0 where
  pub ring : KeyRing
  pub rotated : ℕ
  pub ring_made : mfa_key_ring s (job.source_key_version ∷ job.target_key_version ∷ []) ≡ ok ring
  pub positive : 1 ≤ limit
  pub live : is_running job.status ≡ true
  pub ran :
      rotate_each z ring nonce job.source_key_version job.target_key_version
        (batch_of limit job db)
        db.authenticators
        0
      ≡ ok (db'.authenticators, rotated)
  pub cursor :
      o.cursor_authenticator_id ≡ last_id job.cursor_authenticator_id (batch_of limit job db)
  pub state :
      o.status
      ≡ (if ltb (length (batch_of limit job db)) limit then Status.completed else job.status)

module _ (z : Cipher) (s : Settings) (nonce : ℕ → Bytes) (c : ClaimedKeyRotation) (limit : ℕ)
    (now : Moment) (lease : Timedelta) (db db' : Db) (o : KeyRotationBatchOutcome)
    (job : Rotation) where
  pub batch-Ran :
      run_mfa_key_rotation_batch z s nonce c limit now lease db ≡ ok (db', o)
      → Rows.get rotation_key c.job_id db.rotations ≡ some job
      → Ran z s nonce limit job db db' o
  unfolding run_mfa_key_rotation_batch locked_job write batch_outcome
  batch-Ran h found = >>=-then (checked_now now) _ h (λ at h1 h2.
      >>=-then (checked_limit limit 500) _ h2 (λ most h3 h4.
        >>=-then (checked_lease lease) _ h4 (λ l h5 h6.
          >>=-then (locked_job c.job_id db) _ h6 (λ j h7 h8.
            >>=-then (assert_claim j c at) _ h8 (λ t h9 h10.
              >>=-then (mfa_key_ring s (j.source_key_version ∷ j.target_key_version ∷ [])) _ h10
                (λ ring h11 h12.
                  >>=-then (guard (ring.active_version == j.target_key_version) value_error) _ h12
                    (λ u h13 h14.
                      >>=-then
                        (rotate_each z ring nonce j.source_key_version j.target_key_version
                          (batch_of most j db) db.authenticators 0)
                        _ h14
                        (λ done h15 h16.
                          let most_same : most ≡ limit = checked_limit-same limit most h3 in
                          let job_same : j ≡ job = cc (
                            or_raise-eq-ok (Rows.get rotation_key c.job_id db.rotations) claim_lost
                                h7,
                            found,
                          ) in
                          let moved = advanced_row at l most (batch_of most j db) done.1 j in
                          let db_same : write moved
                                (audit_rotation (batch_action moved.status) moved ∷ [])
                                (record db { authenticators = done.0 })
                              ≡ db' =
                            cc h16 in
                          let o_same : batch_outcome moved (length (batch_of most j db)) done.1
                              ≡ o =
                            cc h16 in
                          rw (sym most_same, sym job_same, sym db_same, sym o_same)
                            (record {
                              ring = ring;
                              rotated = done.1;
                              ring_made = h11;
                              positive = checked_limit-positive limit most h3;
                              live = assert_claim-live j c at h9;
                              ran = h15;
                              cursor = advanced_row-cursor at l most (batch_of most j db) done.1 j;
                              state = advanced_row-status at l most (batch_of most j db) done.1 j;
                            })))))))))
