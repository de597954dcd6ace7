-- ===== src/Fsm.antt =====
-- emb/fsm/fsm_v3.hpp: a finite state machine over a variant of states. The object is the state and
-- the members of the class derived from it. An action or a handler reads the object and may write
-- those members; one that calls the machine back is not modelled.
pub mod Tags
pub mod Actions
pub mod TransitionTable
mod Tests
use emblib.Base.{ℕ, Bool, true, false, Option, none, some, List, [], ◌∷◌, ◌==◌, if◌then◌else◌}

-- `std::variant<States...>`, by the index of the alternative and its value.
pub record StateType {ℓ} (V : Type ℓ) : Type ℓ where
  pub alternative : ℕ
  pub value : V

pub record Machine {ℓ κ} (V : Type ℓ) (C : Type κ) : Type (ℓ ⊔ κ) where
  pub state : StateType V
  pub context : C

-- The third field: whether `event_context_type` is a reference to const.
pub record Policy : Type 0 where
  pub entry_action : Bool
  pub exit_action : Bool
  pub const_context : Bool

abbrev pub moore_policy : Policy
moore_policy = record { entry_action = true; exit_action = false; const_context = true }

abbrev pub mealy_policy : Policy
mealy_policy = record { entry_action = false; exit_action = false; const_context = false }

abbrev pub mixed_policy : Policy
mixed_policy = record { entry_action = true; exit_action = true; const_context = false }

abbrev pub Handler {ℓ κ ν} : Type ℓ → Type κ → Type ν → Type (ℓ ⊔ κ ⊔ ν)
Handler V C E = Machine V C → E → Option (StateType V) × C

-- The static functions `S::on_entry`, `S::on_exit` and `S::on_event` of each alternative, the last
-- where it has one, and the `on_event` that is common to all.
pub record States {ℓ κ ν} (V : Type ℓ) (C : Type κ) (E : Type ν) : Type (ℓ ⊔ κ ⊔ ν) where
  pub on_entry : ℕ → Machine V C → C
  pub on_exit : ℕ → Machine V C → C
  pub on_event : ℕ → Option (Handler V C E)
  pub common_on_event : Option (Handler V C E)

pub data Call {ℓ ν} (V : Type ℓ) (E : Type ν) : Type (ℓ ⊔ ν) where
  event : E → Call V E
  force : StateType V → Call V E

module _ {ℓ κ ν} {V : Type ℓ} {C : Type κ} {E : Type ν} where
  -- The visitor of `dispatch`: the alternative's own handler, else the common one.
  abbrev pub handle : Option (Handler V C E) → Option (Handler V C E) → Handler V C E
  handle (some own) common m e = own m e
  handle none (some common) m e = common m e
  handle none none m e = (none, m.context)

  unfoldable pub enter_state : Policy → States V C E → Machine V C → Machine V C
  enter_state policy states m =
      if policy.entry_action
      then record m { context = states.on_entry m.state.alternative m }
      else m

  unfoldable pub exit_state : Policy → States V C E → Machine V C → Machine V C
  exit_state policy states m =
      if policy.exit_action then record m { context = states.on_exit m.state.alternative m } else m

  unfoldable pub force_transition : Policy → States V C E → StateType V → Machine V C → Machine V C
  force_transition policy states next m =
      enter_state policy states (record (exit_state policy states m) { state = next })

  unfoldable pub transition :
      Policy → States V C E → Option (StateType V) → Machine V C → Machine V C
  transition policy states none m = m
  transition policy states (some next) m = force_transition policy states next m

  -- What the visitor returns, and the context after it: a const one cannot be written.
  unfoldable pub visit_event :
      Policy → States V C E → E → Machine V C → Option (StateType V) × Machine V C
  visit_event policy states e m =
      let (next, context) =
        handle (states.on_event m.state.alternative) states.common_on_event m e in
      (next, record m { context = if policy.const_context then m.context else context })

  unfoldable pub dispatch : Policy → States V C E → E → Machine V C → Machine V C
  dispatch policy states e m =
      let (next, m') = visit_event policy states e m in transition policy states next m'

  unfoldable pub start_fsm : Policy → States V C E → Machine V C → Machine V C
  start_fsm policy states m = enter_state policy states m

  unfoldable pub stop_fsm : Policy → States V C E → Machine V C → Machine V C
  stop_fsm policy states m = exit_state policy states m

  abbrev pub call : Policy → States V C E → Call V E → Machine V C → Machine V C
  call policy states (event e) m = dispatch policy states e m
  call policy states (force next) m = force_transition policy states next m

  unfoldable pub run : Policy → States V C E → List (Call V E) → Machine V C → Machine V C
  run policy states [] m = m
  run policy states (c ∷ cs) m = run policy states cs (call policy states c m)

-- `is_in_state<State>`, for the index of an alternative.
abbrev pub is_in_state {ℓ κ} : {V : Type ℓ} {C : Type κ} → ℕ → Machine V C → Bool
is_in_state k m = m.state.alternative == k
