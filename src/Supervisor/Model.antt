-- ===== src/Supervisor/Model.antt =====
-- The checked tasks, the two loops and their outcome (`_checked_tasks`, `run_supervisor`). The world
-- that the callbacks act on is a parameter: a state, what a task does to it and whether it raised,
-- whether a stop is wanted, and the sleep. The observer and the texts of errors are left out.
use mnemex.Base.{
  ℕ, zero, suc, ◌+◌, ◌%◌, min, max, String, Bool, true, false, not, ◌&&◌, ◌||◌, List, [], ◌∷◌, ◌++◌,
  str_eq, ltb, leb, ◌==◌, if◌then◌else◌, Result, ok, ◌>>=◌, ◌>>◌, guard, value_error, length, take,
  drop,
}
use mnemex.Base.Strip.{strip, is_empty, count}

pub record QueueTask : Type 0 where
  pub name : String
  pub unhealthy_after : ℕ

pub record SupervisorOutcome : Type 0 where
  pub cycles : ℕ
  pub task_runs : ℕ
  pub failure_count : ℕ
  pub stopped : Bool
  pub unhealthy : Bool

-- What a run of the supervisor acts on. `run` returns the state after the task and whether the task
-- raised; `wants_stop` may change the state too, as a callback may. Delays are in milliseconds;
-- `jittered idle jitter` is the idle delay with a random jitter added, 0 where that is negative.
pub record World (S : Type 0) : Type 0 where
  pub run : QueueTask → S → S × Bool
  pub wants_stop : S → S × Bool
  pub jittered : ℕ → ℕ → S → S × ℕ
  pub sleep : ℕ → S → S

unfoldable pub name_taken : String → List QueueTask → Bool
name_taken n [] = false
name_taken n (t ∷ ts) = str_eq t.name n || name_taken n ts

-- The checks of one task, after the tasks that `seen` names.
unfoldable pub task_passes : List QueueTask → QueueTask → Bool
unfolding strip is_empty count name_taken
task_passes seen t =
    not (
      is_empty (strip t.name)
      || (not (str_eq (strip t.name) t.name)
          || (ltb 80 (count (strip t.name)) || name_taken (strip t.name) seen)))
    && (leb 1 t.unhealthy_after && leb t.unhealthy_after 100)

unfoldable pub check_each : List QueueTask → List QueueTask → Bool
unfolding task_passes
check_each seen [] = true
check_each seen (t ∷ ts) = task_passes seen t && check_each (t ∷ seen) ts

abbrev pub is_nil : List QueueTask → Bool
is_nil [] = true
is_nil (t ∷ ts) = false

unfoldable pub checked_tasks : List QueueTask → Result (List QueueTask)
unfolding check_each
checked_tasks tasks = do
  guard (not (is_nil tasks)) value_error
  guard (check_each [] tasks) value_error
  ok tasks

-- `consecutive_failures`, by the name of the task.
abbrev pub Failures : Type 0
Failures = String → ℕ

unfoldable pub set : String → ℕ → Failures → Failures
set n v f = λ m. if str_eq m n then v else f m

-- The counters of the loop.
pub record Counters : Type 0 where
  pub cycles : ℕ
  pub task_runs : ℕ
  pub failure_count : ℕ
  pub consecutive : Failures

abbrev pub stop_with : Counters → SupervisorOutcome
stop_with k = record {
  cycles = k.cycles;
  task_runs = k.task_runs;
  failure_count = k.failure_count;
  stopped = true;
  unhealthy = false;
}

abbrev pub unhealthy_with : Counters → SupervisorOutcome
unhealthy_with k = record {
  cycles = k.cycles + 1;
  task_runs = k.task_runs;
  failure_count = k.failure_count;
  stopped = false;
  unhealthy = true;
}

abbrev pub finish_with : Counters → SupervisorOutcome
finish_with k = record {
  cycles = k.cycles;
  task_runs = k.task_runs;
  failure_count = k.failure_count;
  stopped = false;
  unhealthy = false;
}

-- The counters after a task that raised, or did not.
unfoldable pub counted : QueueTask → Bool → Counters → Counters
unfolding set
counted t true k = record k {
  task_runs = k.task_runs + 1;
  failure_count = k.failure_count + 1;
  consecutive = set t.name (k.consecutive t.name + 1) k.consecutive;
}
counted t false k = record k {
  task_runs = k.task_runs + 1;
  consecutive = set t.name 0 k.consecutive;
}

-- A pass over the tasks ends with an outcome, or with the counters of the next cycle.
pub data Pass (S : Type 0) : Type 0 where
  ended : S → SupervisorOutcome → Pass S
  passed : S → Counters → Pass S

module _ {S : Type 0} (w : World S) where
  unfoldable pub run_pass : List QueueTask → Counters → S → Pass S
  unfolding counted
  run_pass [] k s = passed s k
  run_pass (t ∷ ts) k s =
      let asked = w.wants_stop s in
      let ran = w.run t asked.0 in
      let after = counted t ran.1 k in
      let rest = run_pass ts after ran.0 in
      if asked.1
      then ended asked.0 (stop_with k)
      else if ran.1 && leb t.unhealthy_after (after.consecutive t.name)
      then ended ran.0 (unhealthy_with after)
      else rest

-- `checked[offset:] + checked[:offset]`
unfoldable pub rotated : ℕ → List QueueTask → List QueueTask
rotated cycles tasks = drop (cycles % length tasks) tasks ++ take (cycles % length tasks) tasks

-- The delays: at least 100 milliseconds and at most a minute.
unfoldable pub bounded_delay : ℕ → ℕ
bounded_delay d = max 100 (min 60_000 d)

module _ {S : Type 0} (w : World S) (tasks : List QueueTask) (idle jitter : ℕ) where
  -- The loop with `limit` cycles left; a run without a limit is not modelled.
  unfoldable pub run_cycles : ℕ → Counters → S → S × SupervisorOutcome
  unfolding run_pass rotated bounded_delay
  run_cycles zero k s = (s, finish_with k)
  run_cycles (suc limit) k s =
      let asked = w.wants_stop s in
      let pass = run_pass w (rotated k.cycles tasks) k asked.0 in
      let go = λ (s' : S) (k' : Counters). run_cycles limit k' s' in
      if asked.1 then (asked.0, stop_with k) else elim pass [
        | ended s' outcome ↦ (s', outcome)
        | passed s' k' ↦
            let next = record k' { cycles = k'.cycles + 1 } in
            if limit == 0
            then (s', finish_with next)
            else (let drawn = w.jittered idle jitter s' in
                go (w.sleep (bounded_delay drawn.1) drawn.0) next)
      ]

unfoldable pub run_supervisor :
    {S : Type 0} → World S → List QueueTask → ℕ → ℕ → ℕ → S → Result (S × SupervisorOutcome)
unfolding checked_tasks run_cycles
run_supervisor w tasks idle jitter max_cycles s = do
  checked ← checked_tasks tasks
  guard (leb 100 idle && leb idle 60_000) value_error
  guard (leb jitter idle) value_error
  guard (leb 1 max_cycles && leb max_cycles 1_000_000) value_error
  ok (
      run_cycles w checked idle jitter max_cycles
        (record { cycles = 0; task_runs = 0; failure_count = 0; consecutive = λ _. 0 }) s)
