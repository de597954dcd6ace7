-- ===== src/Fsm/Tests.antt =====
-- A motor that is stopped or runs, and keeps a list of the resources that its states have taken.
use emblib.Base.{
  ℕ, ◌≡◌, refl, ap, ◌∙◌, ◌↔◌, Bool, true, false, Option, none, some, List, [], ◌∷◌, arith, ◌==◌,
  if◌then◌else◌,
}
use emblib.Fsm as V3
use emblib.Fsm.{
  StateType, Machine, mixed_policy, moore_policy, Handler, States, Call, event, force, handle,
  visit_event, start_fsm, stop_fsm, is_in_state,
}
use emblib.Fsm.Actions.{IsPaired, run-Held}
use emblib.Fsm.Tags.{are_tags_unique, differs_from, state_tag, state_tag-is_in_state}
use emblib.Fsm.TransitionTable.{run, of_states, run-of_states}

-- A running motor stops at event 0; a stopped one leaves events to the common handler, which runs it
-- at event 1 and above.
abbrev on_running : Handler ℕ (List ℕ) ℕ
on_running m e = (if e == 0 then some (record { alternative = 0; value = 0 }) else none, m.context)

abbrev on_any : Handler ℕ (List ℕ) ℕ
on_any m e = (if e == 0 then none else some (record { alternative = 1; value = e }), m.context)

abbrev motor_handlers : ℕ → Option (Handler ℕ (List ℕ) ℕ)
motor_handlers k = if k == 1 then some on_running else none

abbrev tail : List ℕ → List ℕ
tail [] = []
tail (x ∷ xs) = xs

abbrev motor : States ℕ (List ℕ) ℕ
motor = record {
  on_entry = λ k m. k ∷ m.context;
  on_exit = λ k m. tail m.context;
  on_event = motor_handlers;
  common_on_event = some on_any;
}

abbrev stopped : Machine ℕ (List ℕ)
stopped = record { state = record { alternative = 0; value = 0 }; context = [] }

abbrev ride : List (Call ℕ ℕ)
ride = event 0 ∷ event 5 ∷ event 7 ∷ event 0 ∷ force (record { alternative = 1; value = 9 }) ∷ []

ride_runs :
    V3.run mixed_policy motor ride (start_fsm mixed_policy motor stopped)
    ≡ record { state = record { alternative = 1; value = 9 }; context = 1 ∷ [] }
unfolding V3.run V3.dispatch V3.force_transition V3.transition V3.visit_event start_fsm
    V3.enter_state V3.exit_state
ride_runs = refl

-- Under the Moore policy there is no exit action: each entry adds to the list.
ride_moore :
    (V3.run moore_policy motor ride (start_fsm moore_policy motor stopped)).context
    ≡ 1 ∷ 0 ∷ 1 ∷ 0 ∷ []
unfolding V3.run V3.dispatch V3.force_transition V3.transition V3.visit_event start_fsm
    V3.enter_state V3.exit_state
ride_moore = refl

abbrev TakenBy : ℕ → List ℕ → Type 0
TakenBy k c = c ≡ k ∷ []

abbrev IsUntaken : List ℕ → Type 0
IsUntaken c = c ≡ []

handle_context :
    (own : Bool) (m : Machine ℕ (List ℕ)) (e : ℕ)
    → (handle (if own then some on_running else none) (some on_any) m e).1 ≡ m.context
handle_context true m e = refl
handle_context false m e = refl

motor-IsPaired : IsPaired motor TakenBy IsUntaken
unfolding visit_event
motor-IsPaired = record {
  takes = λ m h. ap (◌∷◌ m.state.alternative) h;
  gives = λ m h. ap tail h;
  keeps = λ m e h. handle_context (m.state.alternative == 1) m e ∙ h;
}

run-Held_example :
    TakenBy 1 (V3.run mixed_policy motor ride (start_fsm mixed_policy motor stopped)).context
    × IsUntaken
        (stop_fsm mixed_policy motor
          (V3.run mixed_policy motor ride (start_fsm mixed_policy motor stopped))).context
unfolding V3.run V3.dispatch V3.force_transition V3.transition V3.visit_event start_fsm
    V3.enter_state V3.exit_state
run-Held_example = run-Held motor TakenBy IsUntaken motor-IsPaired ride stopped refl

abbrev tags : List ℕ
tags = 10 ∷ 20 ∷ []

state_tag-is_in_state_example : (is_in_state 0 stopped ≡ true) ↔ (state_tag tags stopped ≡ some 10)
unfolding are_tags_unique differs_from
state_tag-is_in_state_example =
    state_tag-is_in_state tags stopped 0 refl (omega arith) (omega arith)

run-of_states_example :
    run moore_policy (of_states motor) ride stopped ≡ V3.run moore_policy motor ride stopped
run-of_states_example = run-of_states moore_policy motor ride stopped
