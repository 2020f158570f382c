-- ===== src/MigrationJobs/Legal.antt =====
-- Each operation writes only what the checks of `save` let through.
use mnemex.Base.{
  ℕ, ◌+◌, ◌≤◌, ◌<◌, String, ◌≡◌, refl, Bool, true, false, arith, str_eq, if◌then◌else◌,
}
use text.Mathlib.TextPositions.{eq_refl}
use mnemex.Base.Strip.{is_empty}
use mnemex.MigrationJobs.Model.{Kind, Job, is_running, is_terminal}
use mnemex.MigrationJobs.Save.{
  is_clean, may_become, same_provenance, counters_advance, is_legal, same_kind,
}
use mnemex.MigrationJobs.Claims.{failed_job, claimed_job}
use mnemex.MigrationJobs.Settle.{
  beaten_job, settled_job, charged_for, ended_job, retried_job, ends_job, cancelled_job, Failure,
  graceful_stop, raised,
}

-- A row of the queue as its operations leave it: it passes `clean`, and an unended job has an
-- attempt left.
pub record IsValid (j : Job) : Type 0 where
  pub clean : is_clean j ≡ true
  pub attempts_left : is_terminal j.status ≡ false → j.failure_count < j.max_attempts

-- What a write needs to pass.
abbrev pub Passes : Job → Job → Type 0
Passes current j = (is_clean j ≡ true) × (is_legal current j ≡ true)

Passes-if :
    (j : Job) (b : Bool) (x y : Job) → Passes j x → Passes j y → Passes j (if b then x else y)
Passes-if j true x y px py = px
Passes-if j false x y px py = py

same_kind_self : (k : Kind) → same_kind k k ≡ true
same_kind_self k = ground arith

pub same_provenance_self : (j : Job) → same_provenance j j ≡ true
unfolding same_provenance
same_provenance_self j = ground (
  arith,
  same_kind_self j.job_kind,
  eq_refl j.requested_manifest_digest,
  eq_refl j.request_rationale,
)

no_text : is_empty "" ≡ true
unfolding is_empty
no_text = refl

-- The writes of the queue, one section for each, keep the provenance.
module _ (now : ℕ) (j : Job) where
  beaten-provenance : (lease : ℕ) → same_provenance (beaten_job now lease j) j ≡ true
  unfolding beaten_job same_provenance
  beaten-provenance lease = same_provenance_self j

  cancelled-provenance : same_provenance (cancelled_job now j) j ≡ true
  unfolding cancelled_job same_provenance
  cancelled-provenance = same_provenance_self j

  failed-provenance :
      (code message : String) (record_failure : Bool)
      → same_provenance (failed_job now code message record_failure j) j ≡ true
  unfolding failed_job same_provenance
  failed-provenance code message record_failure = same_provenance_self j

  claimed-provenance :
      (owner : String) (lease : ℕ) (token : String)
      → same_provenance (claimed_job owner now lease token j) j ≡ true
  unfolding claimed_job same_provenance
  claimed-provenance owner lease token = same_provenance_self j

  pub beaten-Passes :
      (lease : ℕ)
      → IsValid j
      → is_running j.status ≡ true
      → 0 < lease
      → Passes j (beaten_job now lease j)
  unfolding is_clean is_legal may_become counters_advance beaten_job
  beaten-Passes lease v r pos = ground (arith, eq_refl j.claim_token, beaten-provenance lease)

  pub cancelled-Passes : IsValid j → is_terminal j.status ≡ false → Passes j (cancelled_job now j)
  unfolding is_clean is_legal may_become counters_advance cancelled_job
  cancelled-Passes v live = ground (arith, no_text, cancelled-provenance)

  pub failed-Passes :
      (code message : String) (record_failure : Bool)
      → IsValid j
      → is_terminal j.status ≡ false
      → Passes j (failed_job now code message record_failure j)
  unfolding is_clean is_legal may_become counters_advance failed_job
  failed-Passes code message record_failure v live =
      ground (arith, no_text, failed-provenance code message record_failure)

  pub claimed-Passes :
      (owner : String) (lease : ℕ) (token : String)
      → IsValid j
      → is_terminal j.status ≡ false
      → is_empty owner ≡ false
      → is_empty token ≡ false
      → str_eq token j.claim_token ≡ false
      → 0 < lease
      → Passes j (claimed_job owner now lease token j)
  unfolding is_clean is_legal may_become counters_advance claimed_job
  claimed-Passes owner lease token v live ho ht fresh pos =
      ground (arith, claimed-provenance owner lease token)

-- An expired lease is charged with a failure before the job is taken over or ended.
abbrev pub charged : Job → Job
charged j = record j { failure_count = j.failure_count + 1 }

module _ (now : ℕ) (j : Job) where
  charged_claimed-provenance :
      (owner : String) (lease : ℕ) (token : String)
      → same_provenance (claimed_job owner now lease token (charged j)) j ≡ true
  unfolding claimed_job same_provenance
  charged_claimed-provenance owner lease token = same_provenance_self j

  charged_failed-provenance :
      (code message : String)
      → same_provenance (failed_job now code message false (charged j)) j ≡ true
  unfolding failed_job same_provenance
  charged_failed-provenance code message = same_provenance_self j

  pub charged_claimed-Passes :
      (owner : String) (lease : ℕ) (token : String)
      → IsValid j
      → is_running j.status ≡ true
      → is_empty owner ≡ false
      → is_empty token ≡ false
      → str_eq token j.claim_token ≡ false
      → 0 < lease
      → Passes j (claimed_job owner now lease token (charged j))
  unfolding is_clean is_legal may_become counters_advance claimed_job
  charged_claimed-Passes owner lease token v live ho ht fresh pos =
      ground (arith, charged_claimed-provenance owner lease token)

  pub charged_failed-Passes :
      (code message : String)
      → IsValid j
      → is_running j.status ≡ true
      → Passes j (failed_job now code message false (charged j))
  unfolding is_clean is_legal may_become counters_advance failed_job
  charged_failed-Passes code message v live =
      ground (arith, no_text, charged_failed-provenance code message)

-- A settled job, charged up to `f` failures.
abbrev failed_to : ℕ → Job → Job
failed_to f j = record j { failure_count = f }

module _ (now f : ℕ) (code message : String) (j : Job) where
  ended-provenance : same_provenance (ended_job now code message (failed_to f j)) j ≡ true
  unfolding ended_job same_provenance
  ended-provenance = same_provenance_self j

  retried-provenance :
      (delay : ℕ) → same_provenance (retried_job now delay code message (failed_to f j)) j ≡ true
  unfolding retried_job same_provenance
  retried-provenance delay = same_provenance_self j

  ended-Passes :
      IsValid j
      → is_running j.status ≡ true
      → j.failure_count ≤ f
      → f ≤ j.failure_count + 1
      → Passes j (ended_job now code message (failed_to f j))
  unfolding is_clean is_legal may_become counters_advance ended_job
  ended-Passes v r lo hi = ground (arith, no_text, ended-provenance)

  retried-Passes :
      (delay : ℕ)
      → IsValid j
      → is_running j.status ≡ true
      → j.failure_count ≤ f
      → f ≤ j.failure_count + 1
      → Passes j (retried_job now delay code message (failed_to f j))
  unfolding is_clean is_legal may_become counters_advance retried_job
  retried-Passes delay v r lo hi = ground (arith, no_text, retried-provenance delay)

pub settled-Passes :
    (failure : Failure) (now : ℕ) (soon : Bool) (j : Job)
    → IsValid j
    → is_running j.status ≡ true
    → Passes j (settled_job failure now soon j)
unfolding settled_job charged_for
settled-Passes graceful_stop now soon j v r =
    Passes-if j (ends_job graceful_stop j) _ _
      (ended-Passes now j.failure_count _ _ j v r (omega arith) (omega arith))
      (retried-Passes now j.failure_count _ _ j _ v r (omega arith) (omega arith))
settled-Passes (raised e) now soon j v r =
    Passes-if j (ends_job (raised e) j) _ _
      (ended-Passes now (j.failure_count + 1) _ _ j v r (omega arith) (omega arith))
      (retried-Passes now (j.failure_count + 1) _ _ j _ v r (omega arith) (omega arith))
