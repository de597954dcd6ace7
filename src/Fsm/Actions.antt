-- ===== src/Fsm/Actions.antt =====
-- What the entry and the exit actions of emb/fsm/fsm_v3.hpp establish over a run.
use emblib.Base.{Option, none, some, List, [], ◌∷◌, ℕ}
use emblib.Fsm.{
  StateType, Machine, mixed_policy, States, Call, event, force, transition, visit_event, dispatch,
  call, run, enter_state, exit_state, force_transition, start_fsm, stop_fsm,
}

module _ {V C E : Type 0} (states : States V C E) (Held : ℕ → C → Type 0) (Free : C → Type 0) where
  -- What a client shows of its actions: those of entry take what is free, those of exit give back
  -- what is held, and no handler loses it.
  pub record IsPaired : Type 0 where
    pub takes :
        (m : Machine V C)
        → Free m.context
        → Held m.state.alternative (states.on_entry m.state.alternative m)
    pub gives :
        (m : Machine V C)
        → Held m.state.alternative m.context
        → Free (states.on_exit m.state.alternative m)
    pub keeps :
        (m : Machine V C) (e : E)
        → Held m.state.alternative m.context
        → Held m.state.alternative (visit_event mixed_policy states e m).1.context

  abbrev pub IsHeld : Machine V C → Type 0
  IsHeld m = Held m.state.alternative m.context

  force-IsHeld :
      IsPaired
      → (next : StateType V) (m : Machine V C) → IsHeld m
      → IsHeld (force_transition mixed_policy states next m)
  unfolding force_transition enter_state exit_state
  force-IsHeld p next m h = p.takes _ (p.gives m h)

  transition-IsHeld :
      IsPaired
      → (next : Option (StateType V)) (m : Machine V C) → IsHeld m
      → IsHeld (transition mixed_policy states next m)
  unfolding transition
  transition-IsHeld p none m h = h
  transition-IsHeld p (some next) m h = force-IsHeld p next m h

  call-IsHeld :
      IsPaired → (c : Call V E) (m : Machine V C) → IsHeld m → IsHeld (call mixed_policy states c m)
  unfolding dispatch visit_event
  call-IsHeld p (event e) m h = transition-IsHeld p _ _ (unfold visit_event in p.keeps m e h)
  call-IsHeld p (force next) m h = force-IsHeld p next m h

  run-IsHeld :
      IsPaired
      → (cs : List (Call V E)) (m : Machine V C) → IsHeld m
      → IsHeld (run mixed_policy states cs m)
  unfolding run
  run-IsHeld p [] m h = h
  run-IsHeld p (c ∷ cs) m h = run-IsHeld p cs _ (call-IsHeld p c m h)

  -- Where a mixed machine's entry actions take what its exit actions give back, and no handler loses
  -- it, a machine that starts free holds what belongs to its current state after any sequence of
  -- events and forced transitions, and is free again once it is stopped.
  pub run-Held :
      IsPaired
      → (cs : List (Call V E)) (m : Machine V C) → Free m.context
      → let m' = run mixed_policy states cs (start_fsm mixed_policy states m) in
        Held m'.state.alternative m'.context × Free (stop_fsm mixed_policy states m').context
  unfolding start_fsm stop_fsm enter_state exit_state
  run-Held p cs m h =
      let held = run-IsHeld p cs (start_fsm mixed_policy states m) (p.takes m h) in
      (held, p.gives _ held)
