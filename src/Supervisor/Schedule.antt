-- ===== src/Supervisor/Schedule.antt =====
-- Which tasks a run of the supervisor runs, and when it gives up (`run_supervisor` of
-- mnemex/supervisor.py).
use mnemex.Base.{
  ℕ, ◌≤◌, ◌≡◌, refl, sym, ap, subst, ◌∙◌, true, false, not, ◌&&◌, List, [], arith, leb, ok, guard,
  value_error, length, >>=-then, ◌⊎◌, inl, inr,
}
use mnemex.Supervisor.Model.{
  QueueTask, SupervisorOutcome, World, run_cycles, checked_tasks, run_supervisor,
}
use mnemex.Supervisor.Run.{start, checked_tasks-same, run_supervisor-accounts}
use mnemex.Supervisor.Log.{
  Log, logging, raises, healthy, ran_before, schedule, length-schedule, length-ran_before,
  none_left,
}
use mnemex.Supervisor.Track.{Tells, Told, run_cycles-Told}

-- A log as long as the plan leaves nothing of it.
nothing_left :
    (plan rest : List QueueTask) (l : Log)
    → ran_before l rest ≡ plan
    → length l ≡ length plan
    → rest ≡ []
nothing_left plan rest l e same =
    let total : length (ran_before l rest) ≡ length plan = ap (λ ts. length ts) e in
    none_left rest (omega (arith, length-ran_before l rest))

run_supervisor-Told :
    {S : Type 0} (w : World S) (tasks : List QueueTask) (idle jitter max_cycles : ℕ) (s : S)
    (r : (S × Log) × SupervisorOutcome)
    → run_supervisor (logging w) tasks idle jitter max_cycles (s, []) ≡ ok r
    → Tells (schedule max_cycles 0 tasks) r.0.1 r.1
unfolding run_supervisor
run_supervisor-Told w tasks idle jitter max_cycles s r h =
    >>=-then (checked_tasks tasks) _ h (λ checked h1 h2.
      >>=-then (guard (leb 100 idle && leb idle 60_000) value_error) _ h2 (λ t1 h3 h4.
        >>=-then (guard (leb jitter idle) value_error) _ h4 (λ t2 h5 h6.
          >>=-then (guard (leb 1 max_cycles && leb max_cycles 1_000_000) value_error) _ h6
            (λ t3 h7 h8.
              let same = checked_tasks-same tasks checked h1 in
              let e : run_cycles (logging w) checked idle jitter max_cycles start (s, []) ≡ r =
                cc h8 in
              subst (λ ts. Tells (schedule max_cycles 0 ts) r.0.1 r.1) same
                (subst (Told w checked idle jitter (schedule max_cycles 0 checked)) e (
                  run_cycles-Told w checked idle jitter (schedule max_cycles 0 checked) max_cycles
                    start s []
                    (
                      record { runs = refl; failures = refl; in_a_row = λ n. refl },
                      refl,
                      refl,
                    )))))))

-- When `run_supervisor` accepts its arguments, and whatever the tasks do: the tasks that it ran are, in
-- their order, the first of the schedule, which has every task once in each cycle and starts each
-- cycle one task further; the outcome counts these runs and those of them that raised; it is unhealthy
-- exactly if some task raised as often in a row, since it last ran without raising, as makes it
-- unhealthy; it is never both stopped and unhealthy; and when it is neither, the whole schedule of the
-- given number of cycles was run.
pub run_supervisor-schedule :
    {S : Type 0} (w : World S) (tasks : List QueueTask) (idle jitter max_cycles : ℕ) (s s' : S)
    (l : Log) (o : SupervisorOutcome)
    → run_supervisor (logging w) tasks idle jitter max_cycles (s, []) ≡ ok ((s', l), o)
    → (o.task_runs ≡ length l)
      × (o.failure_count ≡ raises l)
      × (o.unhealthy ≡ not (healthy l))
      × (o.stopped && o.unhealthy ≡ false)
      × (o.cycles ≤ max_cycles)
      × (rest : List QueueTask) × (ran_before l rest ≡ schedule max_cycles 0 tasks)
      × (((o.stopped ≡ true) ⊎ (o.unhealthy ≡ true)) ⊎ ((o.cycles ≡ max_cycles) × (rest ≡ [])))
run_supervisor-schedule w tasks idle jitter max_cycles s s' l o h =
    let (cycles, runs, fails, never, end) =
      run_supervisor-accounts (logging w) tasks idle jitter max_cycles (s, []) (s', l) o h in
    let (counts, failures, health, rest, order) =
      run_supervisor-Told w tasks idle jitter max_cycles s ((s', l), o) h in
    (
      counts,
      failures,
      health,
      never,
      cycles,
      rest,
      order,
      elim end [
        | inl early ↦ inl early
        | inr (all, each) ↦ inr (
          all,
          nothing_left (schedule max_cycles 0 tasks) rest l order
              (sym counts ∙ each ∙ sym (length-schedule max_cycles 0 tasks)),
        )
      ],
    )
