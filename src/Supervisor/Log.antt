-- ===== src/Supervisor/Log.antt =====
-- The log of a run of the supervisor, and the schedule of the tasks, which each cycle starts one task
-- further (the `offset` of `run_supervisor` of mnemex/supervisor.py).
use mnemex.Base.{
  ℕ, zero, suc, ◌+◌, ◌%◌, ◌≤◌, String, ◌≡◌, refl, sym, ap, ◌∙◌, Bool, true, false, not, ◌&&◌, List,
  [], ◌∷◌, ◌++◌, arith, leb, str_eq, if◌then◌else◌, length, take, drop, ◌*◌, length-append,
}
use native.Mathlib.Omega.{mod_fact}
use mnemex.Supervisor.Model.{QueueTask, World, rotated}

-- The runs of tasks, the latest first, and whether each raised.
abbrev pub Log : Type 0
Log = List (QueueTask × Bool)

-- The world with a log of what it ran.
abbrev pub logging : {S : Type 0} → World S → World (S × Log)
logging w = record {
  run = λ t p. let ran = w.run t p.0 in ((ran.0, (t, ran.1) ∷ p.1), ran.1);
  wants_stop = λ p. let asked = w.wants_stop p.0 in ((asked.0, p.1), asked.1);
  jittered = λ idle jitter p. let drawn = w.jittered idle jitter p.0 in ((drawn.0, p.1), drawn.1);
  sleep = λ d p. (w.sleep d p.0, p.1);
}

abbrev pub raises : Log → ℕ
raises [] = 0
raises ((t, true) ∷ l) = raises l + 1
raises ((t, false) ∷ l) = raises l

-- How often the task of this name has raised since it last ran without raising.
abbrev pub streak : Log → String → ℕ
streak [] n = 0
streak ((t, true) ∷ l) n = if str_eq n t.name then streak l t.name + 1 else streak l n
streak ((t, false) ∷ l) n = if str_eq n t.name then 0 else streak l n

-- After no run of the log had its task raised as often in a row as makes it unhealthy.
abbrev pub healthy : Log → Bool
healthy [] = true
healthy ((t, b) ∷ l) = healthy l && not (b && leb t.unhealthy_after (streak ((t, b) ∷ l) t.name))

-- The tasks of the log in the order in which they ran, and then `rest`.
abbrev pub ran_before : Log → List QueueTask → List QueueTask
ran_before [] rest = rest
ran_before ((t, b) ∷ l) rest = ran_before l (t ∷ rest)

-- The first task moves to the end, this often.
abbrev pub turned : ℕ → List QueueTask → List QueueTask
turned zero ts = ts
turned (suc m) [] = []
turned (suc m) (t ∷ ts) = turned m (ts ++ t ∷ [])

-- The tasks of `limit` cycles from the cycle `c` on: each cycle starts one task further.
abbrev pub schedule : ℕ → ℕ → List QueueTask → List QueueTask
schedule zero c ts = []
schedule (suc limit) c ts = turned (c % length ts) ts ++ schedule limit (c + 1) ts

append_assoc : (xs ys zs : List QueueTask) → (xs ++ ys) ++ zs ≡ xs ++ (ys ++ zs)
append_assoc [] ys zs = refl
append_assoc (x ∷ xs) ys zs = ap (λ t. x ∷ t) (append_assoc xs ys zs)

append_nil : (xs : List QueueTask) → xs ++ [] ≡ xs
append_nil [] = refl
append_nil (x ∷ xs) = ap (λ t. x ∷ t) (append_nil xs)

turned-append :
    (m : ℕ) (ts done : List QueueTask)
    → m ≤ length ts
    → turned m (ts ++ done) ≡ drop m ts ++ (done ++ take m ts)
turned-append zero ts done h = ap (λ x. ts ++ x) (sym (append_nil done))
turned-append (suc m) [] done h = absurd (let e : ⊥ = omega arith in e)
turned-append (suc m) (t ∷ ts) done h =
    ap (turned m) (append_assoc ts done (t ∷ []))
    ∙ turned-append m ts (done ++ t ∷ []) (omega arith)
    ∙ ap (λ x. drop m ts ++ x) (append_assoc done (t ∷ []) (take m ts))

mod_le : (c n : ℕ) → c % suc n ≤ suc n
mod_le c n = omega (arith, mod_fact c n)

pub rotated-eq-turned : (c : ℕ) (ts : List QueueTask) → rotated c ts ≡ turned (c % length ts) ts
unfolding rotated
rotated-eq-turned c [] = no_tasks (c % 0)
  where
    no_tasks : (m : ℕ) → drop m [] ++ take m [] ≡ turned m []
    no_tasks zero = refl
    no_tasks (suc m) = refl
rotated-eq-turned c (t ∷ ts) =
    sym (turned-append (c % length (t ∷ ts)) (t ∷ ts) [] (mod_le c (length ts)))
    ∙ ap (turned (c % length (t ∷ ts))) (append_nil (t ∷ ts))

length-turned : (m : ℕ) (ts : List QueueTask) → length (turned m ts) ≡ length ts
length-turned zero ts = refl
length-turned (suc m) [] = refl
length-turned (suc m) (t ∷ ts) =
    omega (arith, length-turned m (ts ++ t ∷ []), length-append ts (t ∷ []))

pub length-schedule :
    (limit c : ℕ) (ts : List QueueTask) → length (schedule limit c ts) ≡ limit * length ts
length-schedule zero c ts = omega arith
length-schedule (suc limit) c ts = omega (
  arith,
  length-append (turned (c % length ts) ts) (schedule limit (c + 1) ts),
  length-turned (c % length ts) ts,
  length-schedule limit (c + 1) ts,
)

pub length-ran_before :
    (l : Log) (rest : List QueueTask) → length (ran_before l rest) ≡ length l + length rest
length-ran_before [] rest = omega arith
length-ran_before ((t, b) ∷ l) rest = omega (arith, length-ran_before l (t ∷ rest))

pub none_left : (rest : List QueueTask) → length rest ≡ 0 → rest ≡ []
none_left [] h = refl
none_left (t ∷ rest) h = absurd (let e : ⊥ = omega arith in e)
