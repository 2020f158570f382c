-- ===== src/Supervisor/Track.antt =====
-- What the loops of the supervisor (`run_supervisor` of mnemex/supervisor.py) keep of the log: the
-- counters are its counts, and the tasks follow the schedule.
use mnemex.Base.{
  ℕ, zero, suc, ◌+◌, String, ◌≡◌, refl, sym, ap, subst, ◌∙◌, Bool, true, false, not, ◌&&◌, List, [],
  ◌∷◌, ◌++◌, arith, leb, ◌==◌, if◌then◌else◌, length,
}
use mnemex.Supervisor.Model.{
  QueueTask, SupervisorOutcome, World, Counters, Pass, ended, passed, counted, set, run_pass,
  rotated, bounded_delay, run_cycles, stop_with, finish_with,
}
use mnemex.Supervisor.Log.{
  Log, logging, raises, streak, healthy, ran_before, schedule, rotated-eq-turned,
}

-- The counters are those of the log.
pub record Tracks (k : Counters) (l : Log) : Type 0 where
  pub runs : k.task_runs ≡ length l
  pub failures : k.failure_count ≡ raises l
  pub in_a_row : (n : String) → k.consecutive n ≡ streak l n

counted-Tracks :
    (t : QueueTask) (b : Bool) (k : Counters) (l : Log)
    → Tracks k l
    → Tracks (counted t b k) ((t, b) ∷ l)
unfolding counted set
counted-Tracks t true k l h = record {
  runs = omega (arith, h.runs);
  failures = omega (arith, h.failures);
  in_a_row = λ n. rw (h.in_a_row t.name, h.in_a_row n) refl;
}
counted-Tracks t false k l h = record {
  runs = omega (arith, h.runs);
  failures = h.failures;
  in_a_row = λ n. rw (h.in_a_row n) refl;
}

-- What an outcome says of the log, of a run whose tasks were to be `plan`.
abbrev pub Tells : List QueueTask → Log → SupervisorOutcome → Type 0
Tells plan l o =
    (o.task_runs ≡ length l)
    × (o.failure_count ≡ raises l)
    × (o.unhealthy ≡ not (healthy l))
    × (rest : List QueueTask) × (ran_before l rest ≡ plan)

-- What holds between two tasks, with `rest` still to run.
abbrev pub Runs : List QueueTask → List QueueTask → Counters → Log → Type 0
Runs plan rest k l = Tracks k l × (healthy l ≡ true) × (ran_before l rest ≡ plan)

abbrev Goes : {S : Type 0} → List QueueTask → List QueueTask → ℕ → Pass (S × Log) → Type 0
Goes plan rest c (passed p k) = Runs plan rest k p.1 × (k.cycles ≡ c)
Goes plan rest c (ended p o) = Tells plan p.1 o

by_if {ℓ κ} :
    {A : Type ℓ} (P : A → Type κ) (b : Bool) (p q : A)
    → (b ≡ true → P p)
    → (b ≡ false → P q)
    → P (if b then p else q)
by_if P true p q hp hq = hp refl
by_if P false p q hp hq = hq refl

stop-Tells :
    (plan rest : List QueueTask) (k : Counters) (l : Log)
    → Runs plan rest k l
    → Tells plan l (stop_with k)
stop-Tells plan rest k l (t, h, e) = (t.runs, t.failures, rw h refl, rest, e)

finish-Tells :
    (plan rest : List QueueTask) (k : Counters) (l : Log)
    → Runs plan rest k l
    → Tells plan l (finish_with k)
finish-Tells plan rest k l (t, h, e) = (t.runs, t.failures, rw h refl, rest, e)

counted-cycles : (t : QueueTask) (b : Bool) (k : Counters) → (counted t b k).cycles ≡ k.cycles
unfolding counted
counted-cycles t true k = refl
counted-cycles t false k = refl

-- The test of the loop is that of the log.
unhealthy-streak :
    (t : QueueTask) (b : Bool) (k : Counters) (l : Log)
    → Tracks k ((t, b) ∷ l)
    → (b && leb t.unhealthy_after (k.consecutive t.name))
      ≡ (b && leb t.unhealthy_after (streak ((t, b) ∷ l) t.name))
unhealthy-streak t b k l h = ap (λ n. b && leb t.unhealthy_after n) (h.in_a_row t.name)

module _ {S : Type 0} (w : World S) (plan future : List QueueTask) where
  run_pass-Goes :
      (ts : List QueueTask) (k : Counters) (s : S) (l : Log)
      → Runs plan (ts ++ future) k l
      → Goes plan future k.cycles (run_pass (logging w) ts k (s, l))
  unfolding run_pass
  run_pass-Goes [] k s l h = (h, refl)
  run_pass-Goes (t ∷ ts) k s l (tracks, well, so_far) =
      let asked = w.wants_stop s in
      let ran = w.run t asked.0 in
      let after = counted t ran.1 k in
      let l' : Log = (t, ran.1) ∷ l in
      let tracks' = counted-Tracks t ran.1 k l tracks in
      let same = unhealthy-streak t ran.1 after l tracks' in
      by_if (Goes plan future k.cycles) asked.1 _ _
        (λ _. stop-Tells plan (t ∷ ts ++ future) k l (tracks, well, so_far))
        (λ _.
          by_if (Goes plan future k.cycles)
            (ran.1 && leb t.unhealthy_after (after.consecutive t.name)) _ _
            (λ e.
              (tracks'.runs, tracks'.failures, rw (well, sym same ∙ e) refl, ts ++ future, so_far))
            (λ e.
              subst (λ c. Goes plan future c (run_pass (logging w) ts after (ran.0, l')))
                (counted-cycles t ran.1 k)
                (run_pass-Goes ts after ran.0 l' (tracks', rw (well, sym same ∙ e) refl, so_far))))

module _ {S : Type 0} (w : World S) (tasks : List QueueTask) (idle jitter : ℕ) where
  abbrev pub Told : List QueueTask → (S × Log) × SupervisorOutcome → Type 0
  Told plan r = Tells plan r.0.1 r.1

  pass-Told :
      (plan future : List QueueTask) (c : ℕ) (p : Pass (S × Log))
      (f : S × Log → Counters → (S × Log) × SupervisorOutcome)
      → Goes plan future c p
      → ((q : S × Log) (k : Counters) → Runs plan future k q.1 → k.cycles ≡ c → Told plan (f q k))
      → Told plan (elim p [ ended q o ↦ (q, o) | passed q k ↦ f q k ])
  pass-Told plan future c (ended q o) f h g = h
  pass-Told plan future c (passed q k) f h g = g q k h.0 h.1

  pub run_cycles-Told :
      (plan : List QueueTask) (limit : ℕ) (k : Counters) (s : S) (l : Log)
      → Runs plan (schedule limit k.cycles tasks) k l
      → Told plan (run_cycles (logging w) tasks idle jitter limit k (s, l))
  unfolding run_cycles
  run_cycles-Told plan zero k s l h = finish-Tells plan [] k l h
  run_cycles-Told plan (suc limit) k s l (tracks, well, so_far) =
      let asked = w.wants_stop s in
      let future = schedule limit (k.cycles + 1) tasks in
      let order = rotated k.cycles tasks in
      let planned : ran_before l (order ++ future) ≡ plan =
        ap (λ ts. ran_before l (ts ++ future)) (rotated-eq-turned k.cycles tasks) ∙ so_far in
      by_if (Told plan) asked.1 _ _
        (λ _. stop-Tells plan (order ++ future) k l (tracks, well, planned))
        (λ _.
          pass-Told plan future k.cycles (run_pass (logging w) order k (asked.0, l)) _
            (run_pass-Goes w plan future order k asked.0 l (tracks, well, planned))
            (λ q k' (tracks', well', after) same.
              let next : Counters = record k' { cycles = k'.cycles + 1 } in
              let trace : Tracks next q.1 = record {
                runs = tracks'.runs;
                failures = tracks'.failures;
                in_a_row = tracks'.in_a_row;
              } in
              by_if (Told plan) (limit == 0) _ _
                (λ _. finish-Tells plan future next q.1 (trace, well', after))
                (λ _.
                  run_cycles-Told plan limit next
                    (w.sleep (bounded_delay (w.jittered idle jitter q.0).1)
                      (w.jittered idle jitter q.0).0)
                    q.1
                    (
                      trace,
                      well',
                      ap (λ c. ran_before q.1 (schedule limit (c + 1) tasks)) same ∙ after,
                    ))))
