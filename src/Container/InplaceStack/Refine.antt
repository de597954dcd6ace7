-- ===== src/Container/InplaceStack/Refine.antt =====
-- The stack against the bounded vector whose back is its top.
use emblib.Base.{
  ℕ, zero, suc, ◌≤◌, ◌≡◌, refl, ◌∙◌, List, [], ◌∷◌, map, arith, Option-cases, inl, inr,
}
use mathlib.Core.Option
use emblib.Container.Slots.{Slots, max_capacity, destroy_at}
use emblib.Container.Bounded.{Reply, done, accepted, popped, value, bounded_run}
use emblib.Container.Bounded
use emblib.Container.InplaceVector
use emblib.Container.InplaceVector.{InplaceVector}
use emblib.Container.InplaceVector.Refine
use emblib.Container.InplaceStack.{
  InplaceStack, Op, push, try_push, pop, try_pop, clear, top, empty_stack, clear_down, emplace,
  try_emplace, drop_top, take_top, clear_stack, top_value, step, run,
}

abbrev as_vector {ℓ} : {A : Type ℓ} → InplaceStack A → InplaceVector A
as_vector s = record { slots = s.slots; size = s.size }

abbrev pub vector_op {ℓ} : {A : Type ℓ} → Op A → Bounded.Op A
vector_op (push x) = Bounded.push_back x
vector_op (try_push x) = Bounded.try_push_back x
vector_op pop = Bounded.pop_back
vector_op try_pop = Bounded.try_pop_back
vector_op clear = Bounded.clear
vector_op top = Bounded.back

module _ {ℓ} {A : Type ℓ} where
  clear_down_as : (n : ℕ) (d : Slots A) → clear_down n d ≡ InplaceVector.clear_down n d
  unfolding clear_down InplaceVector.clear_down
  clear_down_as zero d = refl
  clear_down_as (suc n) d = elim (Option-cases (destroy_at d n)) [
    | inl e ↦ rw e
    | inr (d', e) ↦ rw e (clear_down_as n d')
  ]

module _ {ℓ} {A : Type ℓ} (cap : ℕ) where
  step_as :
      (s : InplaceStack A) (op : Op A)
      → Option.map (λ r. (r.0, as_vector r.1)) (step cap s op)
        ≡ InplaceVector.step cap (as_vector s) (vector_op op)
  unfolding step InplaceVector.step emplace InplaceVector.emplace_back try_emplace
      InplaceVector.try_emplace_back drop_top InplaceVector.drop_back take_top
      InplaceVector.take_back clear_stack InplaceVector.clear_vector top_value
      InplaceVector.back_value
  step_as s (push x) = ground arith
  step_as s (try_push x) = ground arith
  step_as s pop = ground arith
  step_as s try_pop = ground arith
  step_as s clear = ground (arith, clear_down_as s.size s.slots)
  step_as s top = ground arith

  run_as :
      (ops : List (Op A)) (s : InplaceStack A)
      → run cap s ops ≡ InplaceVector.run cap (as_vector s) (map vector_op ops)
  unfolding run InplaceVector.run
  run_as [] s = refl
  run_as (op ∷ ops) s = elim (Option-cases (step cap s op)) [
    | inl e ↦ rw (e, ← step_as s op, e)
    | inr ((reply, s'), e) ↦ rw (e, ← step_as s op, e, run_as ops s')
  ]

  -- Any sequence of calls on a new stack returns what it returns on a bounded list with its top at
  -- the back, and faults exactly where a call breaks its precondition there.
  pub run_refines_stack :
      (ops : List (Op A))
      → cap ≤ max_capacity
      → run cap (empty_stack cap) ops ≡ bounded_run cap [] (map vector_op ops)
  unfolding empty_stack
  run_refines_stack ops small =
      run_as ops (empty_stack cap)
      ∙ unfold InplaceVector.empty_vector in
        InplaceVector.Refine.run_refines_bounded cap (map vector_op ops) small
