-- ===== src/MigrationJobs/Ensures.antt =====
-- What an operation ensures when it succeeds, over the ways in which the operations are composed.
use mnemex.Base.{
  ◌≡◌, refl, subst, Bool, true, false, Option, none, some, Result, ok, err, ◌>>=◌, if◌then◌else◌,
  >>=-eq-ok,
}
use mnemex.MigrationJobs.Model.{Db, ClaimedApplyJob}
use mnemex.MigrationJobs.Claims.{without_claim}
use mnemex.MigrationJobs.Queue.{resume}

abbrev pub Ensures {ℓ} : {X : Type ℓ} → (Db → X → Type 0) → Result (Db × X) → Type ℓ
Ensures {X} p r = (db : Db) (x : X) → r ≡ ok (db, x) → p db x

pub Ensures-if {ℓ} :
    {X : Type ℓ} (p : Db → X → Type 0) (b : Bool) (r s : Result (Db × X))
    → Ensures p r
    → Ensures p s
    → Ensures p (if b then r else s)
Ensures-if p true r s hr hs = hr
Ensures-if p false r s hr hs = hs

pub Ensures-option {ℓ ℓ'} :
    {X : Type ℓ} {Y : Type ℓ'} (p : Db → X → Type 0) (o : Option Y) (r : Result (Db × X))
    (s : Y → Result (Db × X))
    → Ensures p r
    → ((y : Y) → o ≡ some y → Ensures p (s y))
    → Ensures p (elim o [ none ↦ r | some y ↦ s y ])
Ensures-option p none r s hr hs = hr
Ensures-option p (some y) r s hr hs = hs y refl

pub Ensures-bind {ℓ ℓ'} :
    {X : Type ℓ} {Y : Type ℓ'} (p : Db → X → Type 0) (m : Result Y) (f : Y → Result (Db × X))
    → ((y : Y) → m ≡ ok y → Ensures p (f y))
    → Ensures p (m >>= f)
Ensures-bind p m f h = λ db x e. let (y, e1, e2) = >>=-eq-ok m f e in h y e1 db x e2

pub Ensures-ok {ℓ} :
    {X : Type ℓ} (p : Db → X → Type 0) (db : Db) (x : X) → p db x → Ensures p (ok (db, x))
Ensures-ok p db x h =
    λ db' x' e. subst (λ (r : Db × _). p r.0 r.1) (let q : (db, x) ≡ (db', x') = cc e in q) h

pub Ensures-without_claim :
    (p : Db → Option ClaimedApplyJob → Type 0) (r : Result Db)
    → ((db : Db) → r ≡ ok db → p db none)
    → Ensures p (without_claim r)
Ensures-without_claim p (ok d) h = Ensures-ok p d none (h d refl)
Ensures-without_claim p (err e) h = λ db x f. cc

-- The rest of a loop starts where the attempt without a claim ended.
pub Ensures-resume :
    (p : Db → Option ClaimedApplyJob → Type 0) (r : Result (Db × Option ClaimedApplyJob))
    (rest : Db → Result (Db × Option ClaimedApplyJob))
    → Ensures p r
    → ((db : Db) → p db none → Ensures p (rest db))
    → Ensures p (r >>= resume rest)
Ensures-resume p (err e) rest h k = λ db x f. cc
Ensures-resume p (ok (d, none)) rest h k = k d (h d none refl)
Ensures-resume p (ok (d, some c)) rest h k = h
