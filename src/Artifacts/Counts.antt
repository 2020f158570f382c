-- ===== src/Artifacts/Counts.antt =====
-- The counts of a reconciliation add up.
use mnemex.Base.{
  ℕ, ◌+◌, ◌≤◌, ◌≡◌, refl, sym, ◌∙◌, false, ◌||◌, List, [], ◌∷◌, arith, ltb, length, take,
  length-take, select, Bool-cases, Result-cases, inl, inr, ok,
}
use mnemex.Base.Ordered.{order_by}
use mnemex.Artifacts.Model.{Db}
use mnemex.Artifacts.Reconcile.{
  ReconciliationResult, cleaned, preserved, blocked, skipped_active, Store, reconcile_one,
  ArtifactReconciliationOutcome, counted, object_order, is_due, distinct_ids, due_objects,
  reconcile_each, reconcile_artifact_objects,
}

limit_le : (limit : ℕ) → ltb limit 1 || ltb 1000 limit ≡ false → limit ≤ 1000
limit_le limit h = ground arith

take_le {ℓ} : {A : Type ℓ} (n : ℕ) (xs : List A) → length (take n xs) ≤ n
take_le n xs = omega (arith, length-take n xs)

due_le : (now limit : ℕ) (db : Db) → length (due_objects now limit db) ≤ limit
unfolding due_objects
due_le now limit db =
    take_le limit (distinct_ids (order_by object_order (select (is_due now) db.writes)))

abbrev total : ArtifactReconciliationOutcome → ℕ
total c = c.cleaned + c.preserved + c.blocked + c.skipped_active

total-counted :
    (r : ReconciliationResult) (c : ArtifactReconciliationOutcome)
    → (total (counted r c) ≡ total c + 1) × ((counted r c).examined ≡ c.examined)
total-counted cleaned c = (omega arith, refl)
total-counted preserved c = (omega arith, refl)
total-counted blocked c = (omega arith, refl)
total-counted skipped_active c = (omega arith, refl)

module _ (store : Store) (now : ℕ) where
  total-reconcile_each :
      (ids : List ℕ) (counts : ArtifactReconciliationOutcome) (db : Db)
      (o : ArtifactReconciliationOutcome)
      → (reconcile_each store now ids counts db).1 ≡ ok o
      → (total o ≡ total counts + length ids) × (o.examined ≡ counts.examined)
  unfolding reconcile_each
  total-reconcile_each [] counts db o h =
      let same : counts ≡ o = cc h in rw (sym same) (omega arith, refl)
  total-reconcile_each (k ∷ ids) counts db o h =
      elim (Result-cases (reconcile_one store now k db)) [
        | inr (e, q) ↦ cc (rw (reconcile_each, q) at h)
        | inl (done, q) ↦
            let (sum, seen) =
              total-reconcile_each ids (counted done.1 counts) done.0 o
                (rw (reconcile_each, q) at h) in
            let (one, same) = total-counted done.1 counts in (omega (arith, sum, one), seen ∙ same)
      ]

  -- When a reconciliation returns, the objects that it examined are at most as many as the limit, and
  -- each was counted once: as cleaned, preserved, blocked or skipped.
  pub reconcile_artifact_objects-total :
      (limit : ℕ) (db : Db) (o : ArtifactReconciliationOutcome)
      → (reconcile_artifact_objects store now limit db).1 ≡ ok o
      → (o.cleaned + o.preserved + o.blocked + o.skipped_active ≡ o.examined)
        × (o.examined ≤ limit)
        × (limit ≤ 1000)
  unfolding reconcile_artifact_objects
  reconcile_artifact_objects-total limit db o h =
      elim (Bool-cases (ltb limit 1 || ltb 1000 limit)) [
        | inl out ↦ cc (rw out at h)
        | inr fine ↦
            let ids = due_objects now limit db in
            let (sum, seen) =
              total-reconcile_each ids
                (record {
                  examined = length ids;
                  cleaned = 0;
                  preserved = 0;
                  blocked = 0;
                  skipped_active = 0;
                })
                db o (rw fine at h) in
            let size : length ids ≤ limit = due_le now limit db in
            let most : limit ≤ 1000 = limit_le limit fine in
            (omega (arith, sum, seen), omega (arith, seen, size), most)
      ]
