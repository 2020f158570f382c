-- ===== src/Supervisor/Run.antt =====
-- The counts of a run of the supervisor (`run_supervisor` of mnemex/supervisor.py).
use mnemex.Base.{
  ℕ, zero, suc, ◌+◌, ◌*◌, ◌%◌, ◌≤◌, ◌≡◌, refl, sym, ap, subst, ◌∙◌, Bool, true, false, not, ◌&&◌,
  List, [], ◌∷◌, arith, leb, ◌==◌, if◌then◌else◌, ok, guard, value_error, length, take, drop,
  length-append, length-take, length-drop, >>=-eq-ok, ◌⊎◌, inl, inr,
}
use mnemex.Supervisor.Model.{
  QueueTask, SupervisorOutcome, World, Counters, Pass, ended, passed, counted, run_pass, rotated,
  bounded_delay, run_cycles, is_nil, check_each, checked_tasks, run_supervisor, stop_with,
  unhealthy_with, finish_with,
}

-- What a pass over `n` tasks adds to the counters.
abbrev Goes : {S : Type 0} → ℕ → Counters → Pass S → Type 0
Goes n k (passed s k') =
    (k'.task_runs ≡ k.task_runs + n)
    × (k'.cycles ≡ k.cycles)
    × (k'.failure_count + k.task_runs ≤ k'.task_runs + k.failure_count)
Goes n k (ended s o) =
    (o.task_runs ≤ k.task_runs + n)
    × (o.cycles ≤ k.cycles + 1)
    × (o.failure_count + k.task_runs ≤ o.task_runs + k.failure_count)
    × (o.stopped ≡ not o.unhealthy)

Goes-if :
    {S : Type 0} (n : ℕ) (k : Counters) (b : Bool) (p q : Pass S)
    → Goes n k p
    → Goes n k q
    → Goes n k (if b then p else q)
Goes-if n k true p q hp hq = hp
Goes-if n k false p q hp hq = hq

counted_one :
    (t : QueueTask) (b : Bool) (k : Counters)
    → ((counted t b k).task_runs ≡ k.task_runs + 1)
      × ((counted t b k).cycles ≡ k.cycles)
      × (k.failure_count ≤ (counted t b k).failure_count)
      × ((counted t b k).failure_count ≤ k.failure_count + 1)
unfolding counted
counted_one t true k = (refl, refl, omega arith, omega arith)
counted_one t false k = (refl, refl, omega arith, omega arith)

Goes-after :
    {S : Type 0} (t : QueueTask) (b : Bool) (n : ℕ) (k : Counters) (p : Pass S)
    → Goes n (counted t b k) p
    → Goes (suc n) k p
Goes-after t b n k (passed s k') h =
    let (runs, cycles, lo, hi) = counted_one t b k in
    (omega (arith, h.0), h.1 ∙ cycles, omega (arith, h.0, h.2))
Goes-after t b n k (ended s o) h =
    let (runs, cycles, lo, hi) = counted_one t b k in
    (omega (arith, h.0), omega (arith, h.1), omega (arith, h.2), h.3)

module _ {S : Type 0} (w : World S) where
  stop_Goes : (n : ℕ) (k : Counters) (s : S) → Goes n k (ended s (stop_with k))
  stop_Goes n k s = (omega arith, omega arith, omega arith, refl)

  unhealthy_Goes :
      (t : QueueTask) (b : Bool) (n : ℕ) (k : Counters) (s : S)
      → Goes (suc n) k (ended s (unhealthy_with (counted t b k)))
  unhealthy_Goes t b n k s =
      let (runs, cycles, lo, hi) = counted_one t b k in
      (omega arith, omega arith, omega arith, refl)

  run_pass-Goes :
      (ts : List QueueTask) (k : Counters) (s : S) → Goes (length ts) k (run_pass w ts k s)
  unfolding run_pass
  run_pass-Goes [] k s = (omega arith, refl, omega arith)
  run_pass-Goes (t ∷ ts) k s =
      let asked = w.wants_stop s in
      let ran = w.run t asked.0 in
      let after = counted t ran.1 k in
      Goes-if (suc (length ts)) k asked.1 _ _ (stop_Goes (suc (length ts)) k asked.0) (
        Goes-if (suc (length ts)) k (ran.1 && leb t.unhealthy_after (after.consecutive t.name)) _ _
          (unhealthy_Goes t ran.1 (length ts) k ran.0)
          (Goes-after t ran.1 (length ts) k (run_pass w ts after ran.0)
            (run_pass-Goes ts after ran.0)))

pub length-rotated : (c : ℕ) (ts : List QueueTask) → length (rotated c ts) ≡ length ts
unfolding rotated
length-rotated c ts =
    let m = c % length ts in
    omega (arith, length-append (drop m ts) (take m ts), length-drop m ts, length-take m ts)

-- What the outcome of a run says of its counts, from `k` on, with `limit` cycles of `n` tasks to go.
abbrev Bounded : ℕ → ℕ → Counters → SupervisorOutcome → Type 0
Bounded n limit k o =
    (o.task_runs ≤ k.task_runs + limit * n)
    × (o.cycles ≤ k.cycles + limit)
    × (o.failure_count + k.task_runs ≤ o.task_runs + k.failure_count)
    × (o.stopped && o.unhealthy ≡ false)

-- A run that was neither stopped nor unhealthy counts all its cycles, and the runs of each.
abbrev Whole : ℕ → ℕ → Counters → SupervisorOutcome → Type 0
Whole n limit k o =
    ((o.stopped ≡ true) ⊎ (o.unhealthy ≡ true))
    ⊎ ((o.cycles ≡ k.cycles + limit) × (o.task_runs ≡ k.task_runs + limit * n))

abbrev Sums : ℕ → ℕ → Counters → SupervisorOutcome → Type 0
Sums n limit k o = Bounded n limit k o × Whole n limit k o

one_more : (limit n : ℕ) → suc limit * n ≡ n + limit * n
one_more limit n = omega arith

not_both : (a b : Bool) → a ≡ not b → (a && b ≡ false) × ((a ≡ true) ⊎ (b ≡ true))
not_both a b h = ground arith

module _ {S : Type 0} (w : World S) (tasks : List QueueTask) (idle jitter : ℕ) where
  Sums-ended :
      (n limit : ℕ) (k : Counters) (s : S) (o : SupervisorOutcome)
      → Goes n k (ended s o)
      → Sums n (suc limit) k o
  Sums-ended n limit k s o h =
      let (never, some_end) = not_both o.stopped o.unhealthy h.3 in
      ((omega (arith, h.0, one_more limit n), omega (arith, h.1), h.2, never), inl some_end)

  Sums-next :
      (n limit : ℕ) (k k' : Counters) (s : S) (o : SupervisorOutcome)
      → Goes n k (passed s k')
      → Sums n limit (record k' { cycles = k'.cycles + 1 }) o
      → Sums n (suc limit) k o
  Sums-next n limit k k' s o h ((runs, cycles, fails, never), whole) =
      let m = one_more limit n in
      (
        (omega (arith, h.0, m), omega (arith, h.1), omega (arith, h.0, h.2), never),
        elim whole [ inl e ↦ inl e | inr (c, t) ↦ inr (omega (arith, h.1), omega (arith, h.0, m)) ],
      )

  Sums-done : (n : ℕ) (k : Counters) → Sums n 0 k (finish_with k)
  Sums-done n k = ((omega arith, omega arith, omega arith, refl), inr (omega arith, omega arith))

  abbrev Summed : ℕ → Counters → S × SupervisorOutcome → Type 0
  Summed limit k r = Sums (length tasks) limit k r.1

  Summed-if :
      (limit : ℕ) (k : Counters) (b : Bool) (p q : S × SupervisorOutcome)
      → Summed limit k p
      → (b ≡ false → Summed limit k q)
      → Summed limit k (if b then p else q)
  Summed-if limit k true p q hp hq = hp
  Summed-if limit k false p q hp hq = hq refl

  pass_Summed :
      (limit : ℕ) (k : Counters) (p : Pass S) (f : S → Counters → S × SupervisorOutcome)
      → Goes (length tasks) k p
      → ((s' : S) (k' : Counters) → Summed limit (record k' { cycles = k'.cycles + 1 }) (f s' k'))
      → Summed (suc limit) k (elim p [ ended s' o ↦ (s', o) | passed s' k' ↦ f s' k' ])
  pass_Summed limit k (ended s o) f h g = Sums-ended (length tasks) limit k s o h
  pass_Summed limit k (passed s k') f h g =
      Sums-next (length tasks) limit k k' s (f s k').1 h (g s k')

  last_or_more :
      (n : ℕ) (k : Counters) (s : S) (rest : S × SupervisorOutcome)
      → Summed n k rest
      → Summed n k (if n == 0 then (s, finish_with k) else rest)
  last_or_more zero k s rest h = Sums-done (length tasks) k
  last_or_more (suc n) k s rest h = rw (let e : (suc n == 0) ≡ false = ground arith in e) h

  run_cycles-Summed :
      (limit : ℕ) (k : Counters) (s : S) → Summed limit k (run_cycles w tasks idle jitter limit k s)
  unfolding run_cycles
  run_cycles-Summed zero k s = Sums-done (length tasks) k
  run_cycles-Summed (suc limit) k s =
      let asked = w.wants_stop s in
      let order = rotated k.cycles tasks in
      Summed-if (suc limit) k asked.1 _ _
        (Sums-ended (length tasks) limit k asked.0 (stop_with k)
          (stop_Goes w (length tasks) k asked.0))
        (λ _.
          pass_Summed limit k (run_pass w order k asked.0)
            (λ s' k'.
              if limit == 0
              then (s', finish_with (record k' { cycles = k'.cycles + 1 }))
              else (let drawn = w.jittered idle jitter s' in
                  run_cycles w tasks idle jitter limit (record k' { cycles = k'.cycles + 1 })
                    (w.sleep (bounded_delay drawn.1) drawn.0)))
            (subst (λ n. Goes n k (run_pass w order k asked.0)) (length-rotated k.cycles tasks)
              (run_pass-Goes w order k asked.0))
            (λ s' k'.
              last_or_more limit (record k' { cycles = k'.cycles + 1 }) s' _
                (run_cycles-Summed limit (record k' { cycles = k'.cycles + 1 })
                  (let drawn = w.jittered idle jitter s' in
                    w.sleep (bounded_delay drawn.1) drawn.0))))

pub checked_tasks-same :
    (tasks checked : List QueueTask) → checked_tasks tasks ≡ ok checked → checked ≡ tasks
unfolding checked_tasks
checked_tasks-same tasks checked h =
    let (t1, h1, h2) = >>=-eq-ok (guard (not (is_nil tasks)) value_error) _ h in
    let (t2, h3, h4) = >>=-eq-ok (guard (check_each [] tasks) value_error) _ h2 in
    (let e : tasks ≡ checked = cc h4 in sym e)

abbrev pub start : Counters
start = record { cycles = 0; task_runs = 0; failure_count = 0; consecutive = λ _. 0 }

abbrev Accounts : ℕ → SupervisorOutcome → ℕ → Type 0
Accounts max_cycles o n =
    (o.cycles ≤ max_cycles)
    × (o.task_runs ≤ max_cycles * n)
    × (o.failure_count ≤ o.task_runs)
    × (o.stopped && o.unhealthy ≡ false)
    × (((o.stopped ≡ true) ⊎ (o.unhealthy ≡ true))
        ⊎ ((o.cycles ≡ max_cycles) × (o.task_runs ≡ max_cycles * n)))

from_start :
    (n max_cycles : ℕ) (o : SupervisorOutcome) → Sums n max_cycles start o → Accounts max_cycles o n
from_start n max_cycles o ((runs, cycles, fails, never), inl e) =
    (omega arith, omega (arith, runs), omega arith, never, inl e)
from_start n max_cycles o ((runs, cycles, fails, never), inr (c, t)) =
    (omega arith, omega (arith, runs), omega arith, never, inr (omega arith, omega (arith, t)))

-- When `run_supervisor` accepts its arguments, its outcome has at most the given number of cycles, at
-- most one run of each task for each of them, and no more failures than runs; it is never both
-- stopped and unhealthy, and when it is neither, it counts all the cycles and as many runs as there are
-- tasks for each of them.
pub run_supervisor-accounts :
    {S : Type 0} (w : World S) (tasks : List QueueTask) (idle jitter max_cycles : ℕ) (s s' : S)
    (o : SupervisorOutcome)
    → run_supervisor w tasks idle jitter max_cycles s ≡ ok (s', o)
    → (o.cycles ≤ max_cycles)
      × (o.task_runs ≤ max_cycles * length tasks)
      × (o.failure_count ≤ o.task_runs)
      × (o.stopped && o.unhealthy ≡ false)
      × (((o.stopped ≡ true) ⊎ (o.unhealthy ≡ true))
          ⊎ ((o.cycles ≡ max_cycles) × (o.task_runs ≡ max_cycles * length tasks)))
unfolding run_supervisor checked_tasks
run_supervisor-accounts {S = S} w tasks idle jitter max_cycles s s' o h =
    let (checked, h1, h2) = >>=-eq-ok (checked_tasks tasks) _ h in
    let (t1, h3, h4) = >>=-eq-ok (guard (leb 100 idle && leb idle 60_000) value_error) _ h2 in
    let (t2, h5, h6) = >>=-eq-ok (guard (leb jitter idle) value_error) _ h4 in
    let (t3, h7, h8) =
      >>=-eq-ok (guard (leb 1 max_cycles && leb max_cycles 1_000_000) value_error) _ h6 in
    let same = checked_tasks-same tasks checked h1 in
    subst (Accounts max_cycles o) (ap (λ (l : List QueueTask). length l) same) (
      from_start (length checked) max_cycles o (
        subst (λ (r : S × SupervisorOutcome). Sums (length checked) max_cycles start r.1)
          (let e : run_cycles w checked idle jitter max_cycles start s ≡ (s', o) = cc h8 in e)
          (run_cycles-Summed w checked idle jitter max_cycles start s)))
