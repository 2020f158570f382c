-- ===== src/KeyRotation/Claiming.antt =====
-- The claim's loop ends, and what it leaves behind.
use mnemex.Base.{
  ℕ, zero, suc, ◌+◌, ◌<◌, ◌≡◌, refl, subst, String, Bool, true, false, not, ◌&&◌, Option, none,
  some, List, [], ◌∷◌, arith, ltb, ◌==◌, ==_refl, All, ok, length, select, Bool-cases, Option-cases,
  inl, inr,
}
use mnemex.Base.Rows
use mnemex.Base.Rows.{Unique, Unique-save, get-save_self}
use text.Mathlib.TextPositions.{eq_refl}
use mnemex.Base.Query.{first_row, no_row}
use mnemex.Base.Ordered.{before3}
use mnemex.KeyRotation.Model.{
  Status, Rotation, AuditAction, Db, ClaimedKeyRotation, rotation_key, is_running, write,
  audit_rotation, assert_claim,
}
use mnemex.KeyRotation.Queue.{
  claimable, claim_key, next_claimable, exhausted_row, charged_row, claimed_row, claim_of,
  is_exhausted, claim_loop,
}

abbrev pub running_rows : List Rotation → ℕ
running_rows rows = length (select (λ (j : Rotation). is_running j.status) rows)

-- Ending a running row leaves one running row less.
running_rows-save :
    (j old : Rotation) (rows : List Rotation)
    → Rows.get rotation_key (rotation_key j) rows ≡ some old
    → is_running old.status ≡ true
    → is_running j.status ≡ false
    → running_rows (Rows.save rotation_key j rows) + 1 ≡ running_rows rows
unfolding Rows.get Rows.save
running_rows-save j old [] h r s = cc
running_rows-save j old (x ∷ xs) h r s = elim (Bool-cases (x.rotation_id == j.rotation_id)) [
  | inl e ↦
      let same : some x ≡ some old = rw e at h in
      let live : is_running x.status ≡ true =
        subst (λ (y : Rotation). is_running y.status ≡ true) (let q : old ≡ x = cc same in q) r in
      rw (e, s, live) (omega arith)
  | inr e ↦
      let less = running_rows-save j old xs (rw e at h) r s in
      elim (Bool-cases (is_running x.status)) [
        | inl live ↦ rw (e, live) (omega (arith, less))
        | inr gone ↦ rw (e, gone) less
      ]
]

exhausted_status : (now : ℕ) (j : Rotation) → (exhausted_row now j).status ≡ Status.failed_review
unfolding exhausted_row
exhausted_status now j = refl

exhausted_key : (now : ℕ) (j : Rotation) → (exhausted_row now j).rotation_id ≡ j.rotation_id
unfolding exhausted_row
exhausted_key now j = refl

is_running-exhausted : (j : Rotation) → is_exhausted j ≡ true → is_running j.status ≡ true
is_running-exhausted j h = ground arith

next_claimable-found :
    (locked : ℕ → Bool) (now : ℕ) (rows : List Rotation) (j : Rotation)
    → Unique rotation_key rows
    → next_claimable locked now rows ≡ some j
    → (claimable now j && not (locked j.rotation_id) ≡ true)
      × (Rows.get rotation_key j.rotation_id rows ≡ some j)
unfolding next_claimable
next_claimable-found locked now rows j u h =
    first_row rotation_key (λ a b. before3 (claim_key a) (claim_key b))
      (λ x. claimable now x && not (locked x.rotation_id)) rows u j h

module _ (locked : ℕ → Bool) (owner : String) (now lease : ℕ) (token : String) where
  ended_db : Rotation → Db → Db
  ended_db j db =
      write (exhausted_row now j) (audit_rotation AuditAction.review (exhausted_row now j) ∷ []) db

  ended-Unique :
      (j : Rotation) (db : Db)
      → Unique rotation_key db.rotations
      → Unique rotation_key (ended_db j db).rotations
  unfolding ended_db write
  ended-Unique j db u = Unique-save rotation_key (exhausted_row now j) db.rotations u

  ended-fewer :
      (j : Rotation) (db : Db)
      → Rows.get rotation_key j.rotation_id db.rotations ≡ some j
      → is_running j.status ≡ true
      → running_rows (ended_db j db).rotations + 1 ≡ running_rows db.rotations
  unfolding ended_db write
  ended-fewer j db found live =
      running_rows-save (exhausted_row now j) j db.rotations (rw (exhausted_key now j) found) live
        (rw (exhausted_status now j))

  taken_db : Rotation → Db → Db
  taken_db j db = write (claimed_row owner now lease token (charged_row j)) [] db

  taken-accepted :
      (j : Rotation) (db : Db)
      → Rows.get rotation_key j.rotation_id db.rotations ≡ some j
      → 0 < lease
      → (row : Rotation) × (Rows.get rotation_key j.rotation_id (taken_db j db).rotations
          ≡ some row)
        × (assert_claim row (claim_of owner token j) now ≡ ok tt)
  unfolding taken_db write claimed_row assert_claim
  taken-accepted j db found pos = elim (Bool-cases (is_running j.status)) [
    | inl live ↦
        let row =
          claimed_row owner now lease token (record j { failure_count = j.failure_count + 1 }) in
        (
          row,
          rw live (get-save_self rotation_key row j db.rotations found),
          rw (eq_refl token, eq_refl owner, ==_refl (j.claim_generation + 1))
              (let e : ltb now (now + lease) ≡ true = ground arith in rw e),
        )
    | inr still ↦
        let row = claimed_row owner now lease token j in
        (
          row,
          rw still (get-save_self rotation_key row j db.rotations found),
          rw (eq_refl token, eq_refl owner, ==_refl (j.claim_generation + 1))
              (let e : ltb now (now + lease) ≡ true = ground arith in rw e),
        )
  ]

  -- What the claim leaves behind: no claimable row that is free, or a row that accepts the claim.
  abbrev pub Settled : Option ClaimedKeyRotation → Db → Type 0
  Settled none db =
      All (λ (j : Rotation). claimable now j && not (locked j.rotation_id) ≡ false) db.rotations
  Settled (some c) db =
      (row : Rotation) × (Rows.get rotation_key c.job_id db.rotations ≡ some row)
      × (assert_claim row c now ≡ ok tt)

  -- With more fuel than there are running jobs, and unique keys, the loop returns. Without a claim
  -- it leaves no row that is claimable and free, and a claim that it returns is accepted.
  pub claim_loop-returns :
      (fuel : ℕ) (db : Db)
      → 0 < lease
      → Unique rotation_key db.rotations
      → running_rows db.rotations < fuel
      → (db' : Db) × (x : Option ClaimedKeyRotation) × (claim_loop locked owner now lease token fuel
            db
          ≡ some (db', x))
        × Settled x db'
  unfolding claim_loop ended_db taken_db next_claimable
  claim_loop-returns zero db pos u h = absurd (omega arith)
  claim_loop-returns (suc fuel) db pos u h =
      elim (Option-cases (next_claimable locked now db.rotations)) [
        | inl e ↦ (
          db,
          none,
          rw (claim_loop, e),
          no_row (λ a b. before3 (claim_key a) (claim_key b))
              (λ j. claimable now j && not (locked j.rotation_id)) db.rotations e,
        )
        | inr (j, e) ↦
            let found = (next_claimable-found locked now db.rotations j u e).1 in
            elim (Bool-cases (is_exhausted j)) [
              | inl gone ↦
                  let fewer = ended-fewer j db found (is_running-exhausted j gone) in
                  let (db', x, k, settled) =
                    claim_loop-returns fuel (ended_db j db) pos (ended-Unique j db u)
                      (omega arith) in
                  (db', x, rw (claim_loop, e, gone) k, settled)
              | inr taken ↦ (
                taken_db j db,
                some (claim_of owner token j),
                rw (claim_loop, e, taken),
                taken-accepted j db found pos,
              )
            ]
      ]
