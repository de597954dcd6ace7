-- ===== src/Scheduler.antt =====
-- emb/scheduler/basic_scheduler.hpp: periodic, adaptive and one delayed task over a clock. A delegate
-- is an id, which `exec` runs: it changes the state of the application, and may call the scheduler
-- back. `clock` reads the time, in milliseconds, off that state. A result `none` is a fault: a task
-- more than the lists hold.
pub mod Rounds
mod Tests
use emblib.Base.{
  ℕ, zero, suc, ◌+◌, Bool, true, false, Option, none, some, List, [], ◌∷◌, ◌++◌, map, leb, ltb,
  ◌==◌, length, get_elem?, set, if◌then◌else◌,
}
use emblib.Base.OptionMonad.{◌>>=◌}

abbrev pub max_simple_tasks : ℕ
max_simple_tasks = 16

abbrev pub max_adaptive_tasks : ℕ
max_adaptive_tasks = 4

-- `periodic_task` and `adaptive_periodic_task`
pub record Task : Type 0 where
  pub func : ℕ
  pub period : ℕ
  pub exec_timepoint : ℕ

pub record Scheduler : Type 0 where
  pub tasks : List Task
  pub adaptive_tasks : List Task
  pub delayed_task_start : ℕ
  pub delayed_task_delay : ℕ
  pub delayed_task : ℕ

-- What a callback may call: the public functions, and `set_period` of its own context if it is that
-- of an adaptive task.
pub data Call : Type 0 where
  add_task add_adaptive_task add_delayed_task : (func : ℕ) (ms : ℕ) → Call
  set_period : ℕ → Call
  reset : Call

abbrev pub push_task : ℕ → List Task → Task → Option (List Task)
push_task cap ts t = if ltb (length ts) cap then some (ts ++ t ∷ []) else none

abbrev pub restarted : ℕ → Task → Task
restarted now t = record t { exec_timepoint = now }

-- `self_.period = p`, for the adaptive task at an index; a callback of another kind has no context.
abbrev pub with_period : ℕ → Option Task → ℕ → List Task → List Task
with_period i none p ts = ts
with_period i (some t) p ts = set ts i (record t { period = p })

-- One call at a time, by the callback of the adaptive task `self`, or of another one (`none`).
unfoldable pub call : Option ℕ → ℕ → Call → Scheduler → Option Scheduler
call self now (add_task func ms) sched = do
  ts ←
      push_task max_simple_tasks sched.tasks
        (record { func = func; period = ms; exec_timepoint = now })
  some (record sched { tasks = ts })
call self now (add_adaptive_task func ms) sched = do
  ts ←
      push_task max_adaptive_tasks sched.adaptive_tasks
        (record { func = func; period = ms; exec_timepoint = now })
  some (record sched { adaptive_tasks = ts })
call self now (add_delayed_task func ms) sched =
    some (record sched { delayed_task = func; delayed_task_delay = ms; delayed_task_start = now })
call none now (set_period p) sched = some sched
call (some i) now (set_period p) sched = some (record sched {
  adaptive_tasks = with_period i (get_elem? sched.adaptive_tasks i) p sched.adaptive_tasks;
})
call self now reset sched = some (record sched {
  tasks = map (restarted now) sched.tasks;
  adaptive_tasks = map (restarted now) sched.adaptive_tasks;
})

unfoldable pub calls : Option ℕ → ℕ → List Call → Scheduler → Option Scheduler
calls self now [] sched = some sched
calls self now (c ∷ cs) sched = call self now c sched >>= λ sched'. calls self now cs sched'

abbrev pub is_due : ℕ → Task → Bool
is_due now t = leb (t.exec_timepoint + t.period) now

-- A loop's end where there is no task, and its body where there is one.
abbrev pub with_task : {X : Type 0} → Option Task → X → (Task → X) → X
with_task none end body = end
with_task (some t) end body = body t

module _ {S : Type 0} (exec : ℕ → S → List Call × S) (clock : S → ℕ) where
  -- A callback, with the calls that it makes.
  unfoldable pub invoke : Option ℕ → ℕ → Scheduler → S → Option (Scheduler × S)
  invoke self func sched s =
      let (cs, s') = exec func s in calls self (clock s') cs sched >>= λ sched'. some (sched', s')

  -- The body of the first loop of `run`, for the task at an index, and of the second one.
  abbrev pub run_task : ℕ → ℕ → Task → Scheduler → S → Option (Scheduler × S)
  run_task now i t sched s =
      if is_due now t
      then invoke none t.func (record sched { tasks = set sched.tasks i (restarted now t) }) s
      else some (sched, s)

  abbrev pub run_adaptive : ℕ → ℕ → Task → Scheduler → S → Option (Scheduler × S)
  run_adaptive now i t sched s =
      if is_due now t
      then invoke (some i) t.func
          (record sched { adaptive_tasks = set sched.adaptive_tasks i (restarted now t) }) s
      else some (sched, s)

  -- The loops, whose bound is the size of the list at each round, with a count of the rounds.
  unfoldable pub tasks_from : ℕ → ℕ → ℕ → Scheduler → S → Option (Scheduler × S)
  tasks_from zero now i sched s = none
  tasks_from (suc n) now i sched s =
      with_task (get_elem? sched.tasks i) (some (sched, s))
        (λ t. run_task now i t sched s >>= λ r. tasks_from n now (suc i) r.0 r.1)

  unfoldable pub adaptive_from : ℕ → ℕ → ℕ → Scheduler → S → Option (Scheduler × S)
  adaptive_from zero now i sched s = none
  adaptive_from (suc n) now i sched s =
      with_task (get_elem? sched.adaptive_tasks i) (some (sched, s))
        (λ t. run_adaptive now i t sched s >>= λ r. adaptive_from n now (suc i) r.0 r.1)

  -- The end of `run`: the delayed task, whose delay is cleared after its callback.
  unfoldable pub run_delayed : ℕ → Scheduler → S → Option (Scheduler × S)
  run_delayed now sched s =
      if sched.delayed_task_delay == 0
      then some (sched, s)
      else if leb (sched.delayed_task_start + sched.delayed_task_delay) now
      then (invoke none sched.delayed_task sched s >>= λ r.
          some (record r.0 { delayed_task_delay = 0 }, r.1))
      else some (sched, s)

  unfoldable pub run : Scheduler → S → Option (Scheduler × S)
  run sched s =
      let now = clock s in
      tasks_from (suc max_simple_tasks) now 0 sched s >>= λ r.
      adaptive_from (suc max_adaptive_tasks) now 0 r.0 r.1 >>= λ r'. run_delayed now r'.0 r'.1
