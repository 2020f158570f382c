-- ===== src/MigrationJobs/Requests.antt =====
-- A request for an APPLY job can be repeated: it finds the job that it made.
use mnemex.Base.{
  ℕ, ◌+◌, String, ◌≡◌, refl, ap, subst, Bool, true, none, some, List, [], ◌∷◌, ◌++◌, ltb, ==_refl,
  is_some, Result, ok, guard, select, All, >>=-eq-ok, Bool-cases, Option-cases, ◌⊎◌, inl, inr,
}
use text.Mathlib.TextPositions.{eq_refl}
use mnemex.Base.Moment.{Moment}
use mnemex.Base.Ordered.{order_by, place, head?, no_first}
use mnemex.MigrationJobs.Model.{Job, Run, Db, Authority}
use mnemex.MigrationJobs.Save.{is_clean}
use mnemex.MigrationJobs.Enqueue.{
  latest, live_match, completed_match, other_request, is_apply_of, sequence_of, run_completed,
  new_job, create_job, choose_job, checked_request, enqueue_apply_job,
}

select-append :
    {A : Type 0} (p : A → Bool) (xs ys : List A) → select p (xs ++ ys) ≡ select p xs ++ select p ys
select-append p [] ys = refl
select-append p (x ∷ xs) ys = elim (Bool-cases (p x)) [
  | inl e ↦ rw e (ap (λ t. x ∷ t) (select-append p xs ys))
  | inr e ↦ rw e (select-append p xs ys)
]

nothing_in : {A : Type 0} (xs : List A) → All (λ _. ⊥) xs → xs ≡ []
nothing_in [] h = refl
nothing_in (x ∷ xs) h = absurd h.0

-- A row that comes after no other row of a query is its latest.
latest-append :
    (p : Job → Bool) (js : List Job) (j : Job)
    → latest p js ≡ none
    → p j ≡ true
    → latest p (js ++ j ∷ []) ≡ some j
unfolding latest order_by place head?
latest-append p js j h e =
    let empty =
      nothing_in (select p js)
        (no_first (λ (a b : Job). ltb b.job_sequence a.job_sequence) (λ _. ⊥) (select p js) h) in
    rw (select-append p js (j ∷ []), empty, e)

-- What the choice finds among the jobs of a run.
abbrev Choice : Run → String → ℕ → List Job → Job → Type 0
Choice r digest chunk_size js j =
    (latest (live_match r.run_id digest chunk_size) js ≡ some j)
    ⊎ ((latest (live_match r.run_id digest chunk_size) js ≡ none)
        × (latest (completed_match r.run_id digest chunk_size) js ≡ some j))

-- The choice left the database with these jobs, and finds its job among them.
abbrev Chosen : Run → String → ℕ → Db → Db → Job → Type 0
Chosen r digest chunk_size db db' j =
    (js : List Job) × (db' ≡ record db { jobs = js }) × Choice r digest chunk_size js j

module _ (r : Run) (actor : ℕ) (digest : String) (chunk_size : ℕ) (rationale : String) where
  choose_job-again :
      (max_attempts queued_at id created_at : ℕ) (db : Db) (j : Job)
      → Choice r digest chunk_size db.jobs j
      → choose_job r actor digest chunk_size rationale max_attempts queued_at id created_at db
        ≡ ok (db, j)
  unfolding choose_job
  choose_job-again max_attempts queued_at id created_at db j (inl e) = rw (choose_job, e)
  choose_job-again max_attempts queued_at id created_at db j (inr (e, f)) = rw (choose_job, e, f)

  new_job-live :
      (max_attempts sequence id queued_at created_at : ℕ)
      → live_match r.run_id digest chunk_size (
          new_job r actor digest rationale chunk_size max_attempts sequence id queued_at created_at)
        ≡ true
  unfolding new_job
  new_job-live max_attempts sequence id queued_at created_at =
      rw (==_refl r.run_id, eq_refl digest, ==_refl chunk_size)

  create_job-Chosen :
      (j : Job) (db : Db)
      → latest (live_match r.run_id digest chunk_size) db.jobs ≡ none
      → live_match r.run_id digest chunk_size j ≡ true
      → (db' : Db) (x : Job) → create_job j db ≡ ok (db', x)
      → Chosen r digest chunk_size db db' x
  unfolding create_job
  create_job-Chosen j db none_live live db' x h =
      let (t, h1, h2) = >>=-eq-ok (guard (is_clean j) _) _ h in
      let e : (record db { jobs = db.jobs ++ j ∷ [] }, j) ≡ (db', x) = cc h2 in
      subst (λ (y : Db × Job). Chosen r digest chunk_size db y.0 y.1) e
        (
          db.jobs ++ j ∷ [],
          refl,
          inl (latest-append (live_match r.run_id digest chunk_size) db.jobs j none_live live),
        )

  found_Chosen :
      (db db' : Db) (j x : Job)
      → Choice r digest chunk_size db.jobs j
      → (let r : Result (Db × Job) = ok (db, j) in r) ≡ ok (db', x)
      → Chosen r digest chunk_size db db' x
  found_Chosen db db' j x c h =
      let e : (db, j) ≡ (db', x) = cc h in
      subst (λ (y : Db × Job). Chosen r digest chunk_size db y.0 y.1) e (db.jobs, refl, c)

  choose_job-Chosen :
      (max_attempts queued_at id created_at : ℕ) (db db' : Db) (x : Job)
      → choose_job r actor digest chunk_size rationale max_attempts queued_at id created_at db
        ≡ ok (db', x)
      → Chosen r digest chunk_size db db' x
  unfolding choose_job
  choose_job-Chosen max_attempts queued_at id created_at db db' x h =
      elim (Option-cases (latest (live_match r.run_id digest chunk_size) db.jobs)) [
        | inr (j, e) ↦ found_Chosen db db' j x (inl e) (rw (choose_job, e) at h)
        | inl e ↦
            elim (Option-cases (latest (completed_match r.run_id digest chunk_size) db.jobs)) [
              | inr (j, f) ↦ found_Chosen db db' j x (inr (e, f)) (rw (choose_job, e, f) at h)
              | inl f ↦
                  elim (Bool-cases
                    (is_some (latest (other_request r.run_id digest chunk_size) db.jobs))) [
                      | inl g ↦ cc (rw (choose_job, e, f, g) at h)
                      | inr g ↦ elim (Bool-cases (run_completed r.state)) [
                        | inl k ↦ cc (rw (choose_job, e, f, g, k) at h)
                        | inr k ↦
                            create_job-Chosen _ db e
                              (new_job-live max_attempts
                                (sequence_of (latest (is_apply_of r.run_id) db.jobs) + 1) id
                                queued_at created_at)
                              db' x (rw (choose_job, e, f, g, k) at h)
                      ]
                    ]
            ]
      ]

checked_request-jobs :
    (w : Authority) (actor : ℕ) (run : Run) (digest : String) (chunk_size : ℕ) (rationale : String)
    (max_attempts : ℕ) (now : Moment) (db : Db) (js : List Job)
    → checked_request w actor run digest chunk_size rationale max_attempts now
        (record db { jobs = js })
      ≡ checked_request w actor run digest chunk_size rationale max_attempts now db
unfolding checked_request
checked_request-jobs w actor run digest chunk_size rationale max_attempts now db js = refl

-- When a request for an APPLY job succeeds, the same request made again right after it succeeds too:
-- it returns the same job and leaves the database alone, whatever the identifier and the time of
-- creation that a new row would have had.
pub enqueue_apply_job-again :
    (w : Authority) (actor : ℕ) (run : Run) (digest : String) (chunk_size : ℕ) (rationale : String)
    (max_attempts : ℕ) (now : Moment) (id created_at id' created_at' : ℕ) (db db' : Db) (j : Job)
    → enqueue_apply_job w actor run digest chunk_size rationale max_attempts now id created_at db
      ≡ ok (db', j)
    → enqueue_apply_job w actor run digest chunk_size rationale max_attempts now id' created_at' db'
      ≡ ok (db', j)
unfolding enqueue_apply_job
enqueue_apply_job-again w actor run digest chunk_size rationale max_attempts now id created_at id'
      created_at' db db' j h =
    let (q, h1, h2) =
      >>=-eq-ok (checked_request w actor run digest chunk_size rationale max_attempts now db) _ h in
    let (js, e, c) =
      choose_job-Chosen q.2 actor digest chunk_size q.1 max_attempts q.0 id created_at db db' j
        h2 in
    rw e (
      rw (
        checked_request-jobs w actor run digest chunk_size rationale max_attempts now db js,
        h1,
        choose_job-again q.2 actor digest chunk_size q.1 max_attempts q.0 id' created_at'
            (record db { jobs = js }) j c,
      ))
