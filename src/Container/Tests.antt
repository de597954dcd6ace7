-- ===== src/Container/Tests.antt =====
-- Runs of the containers at concrete inputs, and instances of what is proved of them.
use emblib.Base.{
  ℕ, zero, suc, ◌<◌, ◌≡◌, refl, false, none, some, List, [], ◌∷◌, arith, get_elem?, map,
}
use emblib.Container.Slots.{slot, construct_at, destroy_at}
use emblib.Container.View.{ring_index}
use emblib.Container.Loops.{clear_from}
use emblib.Container.Deque
use emblib.Container.Deque.{deque_run}
use emblib.Container.Fifo
use emblib.Container.Fifo.{fifo_run}
use emblib.Container.Bounded
use emblib.Container.Bounded.{bounded_run}
use emblib.Container.CircularBuffer
use emblib.Container.CircularBuffer.{CircularBuffer}
use emblib.Container.InplaceQueue
use emblib.Container.InplaceVector
use emblib.Container.InplaceStack

abbrev deque_script : List (Deque.Op ℕ)
deque_script =
    Deque.push_back 1
    ∷ Deque.push_back 2
    ∷ Deque.push_back 3
    ∷ Deque.push_back 4
    ∷ Deque.push_front 0
    ∷ Deque.try_push_back 9
    ∷ Deque.try_pop_front
    ∷ Deque.try_pop_back
    ∷ Deque.clear
    ∷ Deque.fill 7
    ∷ Deque.try_pop_back
    ∷ []

deque_script_replies :
    CircularBuffer.run 3 (CircularBuffer.empty_buffer 3) deque_script
    ≡ some (
        Deque.done
        ∷ Deque.done
        ∷ Deque.done
        ∷ Deque.done
        ∷ Deque.done
        ∷ Deque.accepted false
        ∷ Deque.popped (some 0)
        ∷ Deque.popped (some 3)
        ∷ Deque.done
        ∷ Deque.done
        ∷ Deque.popped (some 7)
        ∷ [])
unfolding CircularBuffer.run CircularBuffer.step CircularBuffer.empty_buffer
    CircularBuffer.emplace_back CircularBuffer.emplace_front CircularBuffer.write_back_with
    CircularBuffer.write_front_with CircularBuffer.try_emplace_back CircularBuffer.take_front
    CircularBuffer.take_back CircularBuffer.pop_front CircularBuffer.pop_back
    CircularBuffer.clear_buffer CircularBuffer.fill_buffer CircularBuffer.fill_from clear_from
    construct_at destroy_at
deque_script_replies = refl

run_refines_deque_example :
    CircularBuffer.run 3 (CircularBuffer.empty_buffer 3) deque_script
    ≡ some (deque_run 3 [] deque_script)
run_refines_deque_example =
    CircularBuffer.Refine.run_refines_deque 3 deque_script (omega arith) (omega arith)

-- A ring of three that has gone round: a value in slot 2, then one in slot 0.
abbrev wrapped : {A : Type 0} → A → A → CircularBuffer A
wrapped x y = record { slots = some y ∷ none ∷ some x ∷ []; front = 2; size = 2 }

wrapped-Holds : {A : Type 0} (x y : A) → CircularBuffer.Holds.Holds 3 (wrapped x y) (x ∷ y ∷ [])
wrapped-Holds x y = record {
  window = record {
    small = omega arith;
    front_in = omega arith;
    whole = refl;
    at = λ j h. at_each j h;
  };
  counted = refl;
  fits = omega arith;
}
  where
    at_each :
        (j : ℕ) → j < 3 → slot (wrapped x y).slots (ring_index 3 2 j) ≡ get_elem? (x ∷ y ∷ []) j
    at_each zero h = refl
    at_each (suc zero) h = refl
    at_each (suc (suc zero)) h = refl
    at_each (suc (suc (suc j))) h = absurd (omega arith)

-- A string, whose type is not trivially copyable.
abbrev text : ℕ → List ℕ
text c = c ∷ c ∷ []

assigned_contents_example :
    (c b other : CircularBuffer (List ℕ)) × (CircularBuffer.copy_operator 3 false
        (wrapped (text 1) (text 2))
        (wrapped (text 8) (text 9))
      ≡ some c)
    × CircularBuffer.Holds.Holds 3 c (text 8 ∷ text 9 ∷ [])
    × (CircularBuffer.move_operator 3 false (wrapped (text 1) (text 2)) (wrapped (text 8) (text 9))
        ≡ some (b, other))
    × CircularBuffer.Holds.Holds 3 b (text 8 ∷ text 9 ∷ [])
    × CircularBuffer.Holds.Holds 3 other []
    × CircularBuffer.Moves.Reads 3 b (text 8 ∷ text 9 ∷ []) 1
    × CircularBuffer.Moves.Reads 3 other [] 1
assigned_contents_example =
    CircularBuffer.Moves.assigned_contents 3 false (text 1 ∷ text 2 ∷ []) (text 8 ∷ text 9 ∷ []) 1
      (wrapped-Holds (text 1) (text 2)) (wrapped-Holds (text 8) (text 9))

abbrev fifo_script : List (Fifo.Op ℕ)
fifo_script =
    Fifo.push 1
    ∷ Fifo.push 2
    ∷ Fifo.try_push 3
    ∷ Fifo.front
    ∷ Fifo.pop
    ∷ Fifo.try_pop
    ∷ Fifo.try_pop
    ∷ []

run_refines_fifo_example :
    InplaceQueue.run 2 (InplaceQueue.empty_queue 2) fifo_script ≡ fifo_run 2 [] fifo_script
run_refines_fifo_example =
    InplaceQueue.Refine.run_refines_fifo 2 fifo_script (omega arith) (omega arith)

abbrev bounded_script : List (Bounded.Op ℕ)
bounded_script =
    Bounded.push_back 1
    ∷ Bounded.push_back 2
    ∷ Bounded.try_push_back 3
    ∷ Bounded.at 1
    ∷ Bounded.pop_back
    ∷ Bounded.at 1
    ∷ []

run_refines_bounded_example :
    InplaceVector.run 2 (InplaceVector.empty_vector 2) bounded_script
    ≡ bounded_run 2 [] bounded_script
run_refines_bounded_example =
    InplaceVector.Refine.run_refines_bounded 2 bounded_script (omega arith)

abbrev stack_script : List (InplaceStack.Op ℕ)
stack_script =
    InplaceStack.push 1 ∷ InplaceStack.push 2 ∷ InplaceStack.try_pop ∷ InplaceStack.top ∷ []

run_refines_stack_example :
    InplaceStack.run 2 (InplaceStack.empty_stack 2) stack_script
    ≡ bounded_run 2 [] (map InplaceStack.Refine.vector_op stack_script)
run_refines_stack_example = InplaceStack.Refine.run_refines_stack 2 stack_script (omega arith)
