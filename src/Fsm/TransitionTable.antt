-- ===== src/Fsm/TransitionTable.antt =====
-- emb/fsm/fsm_v2.hpp: the machine of fsm_v3.hpp with its functions in a transition table, which also
-- takes the state.
use emblib.Base.{◌≡◌, refl, ap, ◌∙◌, Option, none, some, List, [], ◌∷◌, if◌then◌else◌}
use emblib.Fsm as V3
use emblib.Fsm.{StateType, Machine, Policy, Handler, States, Call, event, force, handle}

pub record Transitions {ℓ κ ν} (V : Type ℓ) (C : Type κ) (E : Type ν) : Type (ℓ ⊔ κ ⊔ ν) where
  pub on_entry : Machine V C → StateType V → C
  pub on_exit : Machine V C → StateType V → C
  pub on_event : Machine V C → StateType V → E → Option (StateType V) × C

module _ {ℓ κ ν} {V : Type ℓ} {C : Type κ} {E : Type ν} where
  unfoldable pub enter_state : Policy → Transitions V C E → Machine V C → Machine V C
  enter_state policy table m =
      if policy.entry_action then record m { context = table.on_entry m m.state } else m

  unfoldable pub exit_state : Policy → Transitions V C E → Machine V C → Machine V C
  exit_state policy table m =
      if policy.exit_action then record m { context = table.on_exit m m.state } else m

  unfoldable pub force_transition :
      Policy → Transitions V C E → StateType V → Machine V C → Machine V C
  force_transition policy table next m =
      enter_state policy table (record (exit_state policy table m) { state = next })

  unfoldable pub transition :
      Policy → Transitions V C E → Option (StateType V) → Machine V C → Machine V C
  transition policy table none m = m
  transition policy table (some next) m = force_transition policy table next m

  unfoldable pub dispatch : Policy → Transitions V C E → E → Machine V C → Machine V C
  dispatch policy table e m =
      let (next, context) = table.on_event m m.state e in
      transition policy table next
        (record m { context = if policy.const_context then m.context else context })

  abbrev pub call : Policy → Transitions V C E → Call V E → Machine V C → Machine V C
  call policy table (event e) m = dispatch policy table e m
  call policy table (force next) m = force_transition policy table next m

  unfoldable pub run : Policy → Transitions V C E → List (Call V E) → Machine V C → Machine V C
  run policy table [] m = m
  run policy table (c ∷ cs) m = run policy table cs (call policy table c m)

  -- The table that takes the functions of the state's alternative.
  unfoldable pub of_states : States V C E → Transitions V C E
  of_states states = record {
    on_entry = λ m s. states.on_entry s.alternative m;
    on_exit = λ m s. states.on_exit s.alternative m;
    on_event = λ m s e. handle (states.on_event s.alternative) states.common_on_event m e;
  }

module _ {V C E : Type 0} (policy : Policy) (states : States V C E) where
  force-of_states :
      (next : StateType V) (m : Machine V C)
      → force_transition policy (of_states states) next m ≡ V3.force_transition policy states next m
  unfolding force_transition enter_state exit_state of_states V3.force_transition V3.enter_state
      V3.exit_state
  force-of_states next m = refl

  transition-of_states :
      (next : Option (StateType V)) (m : Machine V C)
      → transition policy (of_states states) next m ≡ V3.transition policy states next m
  unfolding transition V3.transition
  transition-of_states none m = refl
  transition-of_states (some next) m = force-of_states next m

  dispatch-of_states :
      (e : E) (m : Machine V C)
      → dispatch policy (of_states states) e m ≡ V3.dispatch policy states e m
  unfolding dispatch V3.dispatch V3.visit_event of_states
  dispatch-of_states e m =
      let (next, context) =
        handle (states.on_event m.state.alternative) states.common_on_event m e in
      let after = record m { context = if policy.const_context then m.context else context } in
      transition-of_states next after

  call-of_states :
      (c : Call V E) (m : Machine V C)
      → call policy (of_states states) c m ≡ V3.call policy states c m
  call-of_states (event e) m = dispatch-of_states e m
  call-of_states (force next) m = force-of_states next m

  -- A machine of fsm_v2 whose table takes the functions of the state's alternative goes through the
  -- same objects as the machine of fsm_v3 with those states, under every policy and every sequence of
  -- events and forced transitions.
  pub run-of_states :
      (cs : List (Call V E)) (m : Machine V C)
      → run policy (of_states states) cs m ≡ V3.run policy states cs m
  unfolding run V3.run
  run-of_states [] m = refl
  run-of_states (c ∷ cs) m =
      ap (run policy (of_states states) cs) (call-of_states c m)
      ∙ run-of_states cs (V3.call policy states c m)
