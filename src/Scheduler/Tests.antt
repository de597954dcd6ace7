-- ===== src/Scheduler/Tests.antt =====
-- A scheduler with two tasks, and instances of what is proved of its rounds.
use emblib.Base.{ℕ, ◌+◌, ◌≡◌, refl, none, some, List, [], ◌∷◌, ◌++◌, arith, ◌==◌, if◌then◌else◌}
use emblib.Base.OptionMonad.{◌>>=◌}
use emblib.Scheduler.{Scheduler, Call, add_delayed_task, call, tasks_from, run}
use emblib.Scheduler.Rounds.{tasks_run_when_due, only_delayed, delayed_request_dropped}

-- Each callback writes its id down.
abbrev remember : ℕ → List ℕ → List Call × List ℕ
remember func log = ([], log ++ func ∷ [])

abbrev two_tasks : Scheduler
two_tasks = record {
  tasks =
      record { func = 1; period = 10; exec_timepoint = 0 }
      ∷ record { func = 2; period = 50; exec_timepoint = 0 }
      ∷ [];
  adaptive_tasks = [];
  delayed_task_start = 0;
  delayed_task_delay = 5;
  delayed_task = 7;
}

tasks_run_when_due_example :
    tasks_from remember (λ _. 20) 17 20 0 two_tasks []
    ≡ some (
      record two_tasks {
        tasks =
            record { func = 1; period = 10; exec_timepoint = 20 }
            ∷ record { func = 2; period = 50; exec_timepoint = 0 }
            ∷ [];
      },
      1 ∷ [],
    )
tasks_run_when_due_example =
    tasks_run_when_due remember (λ _. 20) (λ _ _. refl) 20 two_tasks [] (omega arith)

-- Time is the state: callback 7 takes 1 ms and asks for callback 8 in 30 ms, which takes 5.
abbrev again : ℕ → ℕ → List Call × ℕ
again func s = if func == 7 then (add_delayed_task 8 30 ∷ [], s + 1) else ([], s + 5)

abbrev time : ℕ → ℕ
time s = s

delayed_request_dropped_example :
    (run again time (only_delayed again time 7 0 5) 20 ≡ some (only_delayed again time 8 21 0, 21))
    × ((u : ℕ)
        → run again time (only_delayed again time 8 21 0) u
          ≡ some (only_delayed again time 8 21 0, u))
    × ((call none 21 (add_delayed_task 8 30) (only_delayed again time 8 21 0) >>= λ r.
          run again time r 60)
        ≡ some (only_delayed again time 8 21 0, 65))
delayed_request_dropped_example =
    delayed_request_dropped again time 7 0 5 8 30 20 60 (omega arith) (omega arith) refl
      (omega arith) (omega arith) refl
