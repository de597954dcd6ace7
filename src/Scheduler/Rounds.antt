-- ===== src/Scheduler/Rounds.antt =====
-- What one `run` does, and what becomes of a delayed task that asks for another.
use emblib.Base.{
  ℕ, zero, suc, ◌+◌, ◌≤◌, ◌<◌, ◌≡◌, refl, ap, sym, ◌∙◌, inl, inr, true, false, Bool-cases, Option,
  none, some, List, [], ◌∷◌, ◌++◌, arith, append-nil, append_assoc, length, length-append,
  get_elem?, set, leb, ◌==◌, if◌then◌else◌,
}
use emblib.Base.OptionMonad.{◌>>=◌}
use emblib.Scheduler.{
  Task, Scheduler, Call, add_delayed_task, restarted, is_due, call, calls, invoke, tasks_from,
  adaptive_from, run_delayed, run, max_simple_tasks,
}

get_elem?_here :
    (done : List Task) (t : Task) (rest : List Task)
    → get_elem? (done ++ t ∷ rest) (length done) ≡ some t
get_elem?_here [] t rest = refl
get_elem?_here (d ∷ done) t rest = get_elem?_here done t rest

set_here :
    (done : List Task) (t u : Task) (rest : List Task)
    → set (done ++ t ∷ rest) (length done) u ≡ done ++ u ∷ rest
set_here [] t u rest = refl
set_here (d ∷ done) t u rest = ap (◌∷◌ d) (set_here done t u rest)

get_elem?_end : (done : List Task) → get_elem? done (length done) ≡ none
get_elem?_end [] = refl
get_elem?_end (d ∷ done) = get_elem?_end done

module _ {S : Type 0} (exec : ℕ → S → List Call × S) (clock : S → ℕ) where
  -- A callback that makes no calls of the scheduler, on the state.
  abbrev pub effect : ℕ → S → S
  effect func s = (exec func s).1

  -- The due tasks run once each, in order, and start again from now; the others wait on.
  abbrev pub round : ℕ → List Task → S → List Task × S
  round now [] s = ([], s)
  round now (t ∷ ts) s =
      let due = is_due now t in
      let (ts', s') = round now ts (if due then effect t.func s else s) in
      ((if due then restarted now t else t) ∷ ts', s')

  -- A scheduler with a delayed task and no other.
  abbrev pub only_delayed : ℕ → ℕ → ℕ → Scheduler
  only_delayed func start delay = record {
    tasks = [];
    adaptive_tasks = [];
    delayed_task_start = start;
    delayed_task_delay = delay;
    delayed_task = func;
  }

  run-only_delayed :
      (func start delay : ℕ) (s : S)
      → run exec clock (only_delayed func start delay) s
        ≡ run_delayed exec clock (clock s) (only_delayed func start delay) s
  unfolding run tasks_from adaptive_from
  run-only_delayed func start delay s = refl

  run_waits :
      (func start : ℕ) (u : S)
      → run exec clock (only_delayed func start 0) u ≡ some (only_delayed func start 0, u)
  unfolding run_delayed
  run_waits func start u = run-only_delayed func start 0 u

  -- What a due delayed task leaves, for the calls that it makes.
  run_due :
      (func start delay : ℕ) (s : S) (cs : List Call) (left : Scheduler)
      → 0 < delay
      → start + delay ≤ clock s
      → (exec func s).0 ≡ cs
      → calls none (clock (effect func s)) cs (only_delayed func start delay) ≡ some left
      → run exec clock (only_delayed func start delay) s
        ≡ some (record left { delayed_task_delay = 0 }, effect func s)
  unfolding run_delayed invoke
  run_due func start delay s cs left pos due asks ends =
      let on : (delay == 0) ≡ false = ground arith in
      let reached : leb (start + delay) (clock s) ≡ true = ground arith in
      run-only_delayed func start delay s ∙ rw (on, reached, asks, ends) refl

  -- If the only task is a delayed one that is due, and its callback adds a delayed task: `run` calls
  -- the callback and then drops the request, so that no later run, whenever it comes, does anything.
  -- The same request, made after that run instead, has its callback called by any run that comes when
  -- its delay is over.
  pub delayed_request_dropped :
      (func start delay func' ms : ℕ) (s t : S)
      → 0 < delay
      → start + delay ≤ clock s
      → (exec func s).0 ≡ add_delayed_task func' ms ∷ []
      → 0 < ms
      → clock (effect func s) + ms ≤ clock t
      → (exec func' t).0 ≡ []
      → let now = clock (effect func s) in
        let left = only_delayed func' now 0 in
        (run exec clock (only_delayed func start delay) s ≡ some (left, effect func s))
        × ((u : S) → run exec clock left u ≡ some (left, u))
        × ((call none now (add_delayed_task func' ms) left >>= λ r. run exec clock r t)
            ≡ some (left, effect func' t))
  unfolding calls call
  delayed_request_dropped func start delay func' ms s t pos due asks pos' due' quiet =
      let now = clock (effect func s) in
      (
        run_due func start delay s (add_delayed_task func' ms ∷ []) (only_delayed func' now ms) pos
            due asks refl,
        run_waits func' now,
        run_due func' now ms t [] (only_delayed func' now ms) pos' due' quiet refl,
      )

  module _ (quiet : (func : ℕ) (s : S) → (exec func s).0 ≡ []) where
    invoke_quiet :
        (self : Option ℕ) (func : ℕ) (sched : Scheduler) (s : S)
        → invoke exec clock self func sched s ≡ some (sched, effect func s)
    unfolding invoke calls
    invoke_quiet self func sched s =
        ap
          (λ cs.
            calls self (clock (effect func s)) cs sched >>= λ sched'. some (sched', effect func s))
          (quiet func s)

    tasks_from-round :
        (n now : ℕ) (done rest : List Task) (sched : Scheduler) (s : S)
        → length rest < n
        → tasks_from exec clock n now (length done) (record sched { tasks = done ++ rest }) s
          ≡ some (record sched { tasks = done ++ (round now rest s).0 }, (round now rest s).1)
    unfolding tasks_from
    tasks_from-round zero now done rest sched s enough = absurd (omega arith)
    tasks_from-round (suc n) now done [] sched s enough =
        rw (append-nil done, get_elem?_end done) refl
    tasks_from-round (suc n) now done (t ∷ rest) sched s enough = elim (Bool-cases (is_due now t)) [
      | inl due ↦
          rw (get_elem?_here done t rest, due, set_here done t (restarted now t) rest, invoke_quiet)
            (next (restarted now t) (effect t.func s) (
              tasks_from-round n now (done ++ restarted now t ∷ []) rest sched (effect t.func s)
                (omega arith)))
      | inr waits ↦
          rw (get_elem?_here done t rest, waits)
            (next t s (tasks_from-round n now (done ++ t ∷ []) rest sched s (omega arith)))
    ]
      where
        next :
            (u : Task) (s1 : S)
            → tasks_from exec clock n now
                (length (done ++ u ∷ []))
                (record sched { tasks = (done ++ u ∷ []) ++ rest })
                s1
              ≡ some (
                record sched { tasks = (done ++ u ∷ []) ++ (round now rest s1).0 },
                (round now rest s1).1,
              )
            → tasks_from exec clock n now
                (suc (length done))
                (record sched { tasks = done ++ u ∷ rest })
                s1
              ≡ some (
                record sched { tasks = done ++ u ∷ (round now rest s1).0 },
                (round now rest s1).1,
              )
        next u s1 rec =
            let past : length (done ++ u ∷ []) ≡ suc (length done) =
              omega (arith, length-append done (u ∷ [])) in
            let before : (done ++ u ∷ []) ++ rest ≡ done ++ u ∷ rest =
              append_assoc done (u ∷ []) rest in
            let after : (done ++ u ∷ []) ++ (round now rest s1).0
                ≡ done ++ u ∷ (round now rest s1).0 =
              append_assoc done (u ∷ []) (round now rest s1).0 in
            ap (λ i. tasks_from exec clock n now i (record sched { tasks = done ++ u ∷ rest }) s1)
              (sym past)
            ∙ ap
                (λ l.
                  tasks_from exec clock n now (length (done ++ u ∷ [])) (record sched { tasks = l })
                    s1)
                (sym before)
            ∙ rec
            ∙ ap (λ l. some (record sched { tasks = l }, (round now rest s1).1)) after

    -- With callbacks that do not call the scheduler back and at most sixteen tasks, the first loop
    -- of `run` ends without a fault: the tasks that are due run once each, in their order, and wait
    -- a period from now on; the others wait on.
    pub tasks_run_when_due :
        (now : ℕ) (sched : Scheduler) (s : S)
        → length sched.tasks ≤ max_simple_tasks
        → tasks_from exec clock (suc max_simple_tasks) now 0 sched s
          ≡ some (record sched { tasks = (round now sched.tasks s).0 }, (round now sched.tasks s).1)
    tasks_run_when_due now sched s few =
        tasks_from-round (suc max_simple_tasks) now [] sched.tasks sched s (omega arith)
