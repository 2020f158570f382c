-- ===== src/Supervisor/Tests.antt =====
-- A run of the supervisor at concrete inputs: one task that always raises, one that never does.
use mnemex.Base.{
  ℕ, ◌+◌, ◌≤◌, ◌≡◌, refl, ◌⊎◌, ◌&&◌, Bool, true, false, [], ◌∷◌, str_eq, ok, List, length, not,
}
use mnemex.Base.Strip.{strip, is_empty, count}
use mnemex.Supervisor.Model.{
  QueueTask, SupervisorOutcome, World, checked_tasks, check_each, task_passes, name_taken, counted,
  set, run_pass, rotated, run_cycles, run_supervisor,
}
use mnemex.Supervisor.Log.{Log, logging, raises, healthy, ran_before, schedule}
use mnemex.Supervisor.Schedule.{run_supervisor-schedule}

abbrev mail : QueueTask
mail = record { name = "mail"; unhealthy_after = 3 }

abbrev jobs : QueueTask
jobs = record { name = "jobs"; unhealthy_after = 3 }

-- The state counts the runs; only `mail` raises.
abbrev world : World ℕ
world = record {
  run = λ t s. (s + 1, str_eq t.name "mail");
  wants_stop = λ s. (s, false);
  jittered = λ idle jitter s. (s, idle);
  sleep = λ d s. s;
}

abbrev report : ℕ → ℕ → ℕ → Bool → SupervisorOutcome
report cycles runs failures unhealthy = record {
  cycles = cycles;
  task_runs = runs;
  failure_count = failures;
  stopped = false;
  unhealthy = unhealthy;
}

two_cycles : run_supervisor world (mail ∷ jobs ∷ []) 5_000 1_000 2 0 ≡ ok (4, report 2 4 2 false)
unfolding run_supervisor checked_tasks check_each task_passes name_taken strip is_empty count
    run_cycles run_pass rotated counted set
two_cycles = refl

-- The third failure in a row ends the run, in the third cycle, where `mail` comes first again.
third_failure : run_supervisor world (mail ∷ jobs ∷ []) 5_000 1_000 9 0 ≡ ok (5, report 3 5 3 true)
unfolding run_supervisor checked_tasks check_each task_passes name_taken strip is_empty count
    run_cycles run_pass rotated counted set
third_failure = refl

abbrev two : SupervisorOutcome
two = report 2 4 2 false

abbrev two_log : Log
two_log = (mail, true) ∷ (jobs, false) ∷ (jobs, false) ∷ (mail, true) ∷ []

two_logged :
    run_supervisor (logging world) (mail ∷ jobs ∷ []) 5_000 1_000 2 (0, []) ≡ ok ((4, two_log), two)
unfolding run_supervisor checked_tasks check_each task_passes name_taken strip is_empty count
    run_cycles run_pass rotated counted set
two_logged = refl

run_supervisor-schedule_example :
    (two.task_runs ≡ length two_log)
    × (two.failure_count ≡ raises two_log)
    × (two.unhealthy ≡ not (healthy two_log))
    × (two.stopped && two.unhealthy ≡ false)
    × (two.cycles ≤ 2)
    × (rest : List QueueTask) × (ran_before two_log rest ≡ schedule 2 0 (mail ∷ jobs ∷ []))
    × (((two.stopped ≡ true) ⊎ (two.unhealthy ≡ true)) ⊎ ((two.cycles ≡ 2) × (rest ≡ [])))
run_supervisor-schedule_example =
    run_supervisor-schedule world (mail ∷ jobs ∷ []) 5_000 1_000 2 0 4 two_log two two_logged
