-- ===== src/Container/InplaceVector.antt =====
-- emb/container/inplace_vector.hpp: a vector of fixed capacity over slots, live from index 0 on.
-- The first argument is the template parameter `Capacity`. A result `none` is a fault.
pub mod Holds
pub mod Copies
pub mod Refine
use emblib.Base.{
  ℕ, zero, suc, ◌+◌, Bool, true, false, Option, none, some, List, [], ◌∷◌, not, ltb, ◌==◌,
  if◌then◌else◌,
}
use emblib.Base.OptionMonad.{◌>>=◌, ◌>>◌, assume}
use emblib.Container.Slots.{
  Slots, read_slot, construct_at, destroy_at, no_values, add_size, sub_size,
}
use emblib.Container.Bounded.{
  Op, push_back, try_push_back, pop_back, try_pop_back, clear, front, back, at, Reply, done,
  accepted, popped, value,
}

pub record InplaceVector {ℓ} (A : Type ℓ) : Type ℓ where
  pub slots : Slots A
  pub size : ℕ

module _ {ℓ} {A : Type ℓ} where
  -- for (i = n; i > 0; --i) destroy_slot(i - 1);
  unfoldable pub clear_down : ℕ → Slots A → Option (Slots A)
  clear_down zero d = some d
  clear_down (suc n) d = do d' ← destroy_at d n; clear_down n d'

  -- for (i; n more rounds; ++i) { construct_at(slot_ptr(i), *other.slot_ptr(i)); ++size_; }
  unfoldable pub copy_up : Slots A → ℕ → ℕ → Slots A → ℕ → Option (Slots A × ℕ)
  copy_up other zero i d size = some (d, size)
  copy_up other (suc n) i d size = do
    x ← read_slot other i
    d' ← construct_at d i x
    copy_up other n (i + 1) d' (add_size size 1)

module _ {ℓ} {A : Type ℓ} (cap : ℕ) where
  -- The default constructor.
  unfoldable pub empty_vector : InplaceVector A
  empty_vector = record { slots = no_values cap; size = 0 }

  abbrev pub is_empty : InplaceVector A → Bool
  is_empty v = v.size == 0

  abbrev pub is_full : InplaceVector A → Bool
  is_full v = v.size == cap

  unfoldable pub clear_vector : InplaceVector A → Option (InplaceVector A)
  clear_vector v = do d ← clear_down v.size v.slots; some (record { slots = d; size = 0 })

  unfoldable pub value_at : InplaceVector A → ℕ → Option A
  value_at v i = do assume (ltb i v.size); read_slot v.slots i

  unfoldable pub front_value : InplaceVector A → Option A
  front_value v = do assume (not (v.size == 0)); read_slot v.slots 0

  unfoldable pub back_value : InplaceVector A → Option A
  back_value v = do assume (not (v.size == 0)); read_slot v.slots (sub_size v.size 1)

  -- `push_back` and `emplace_back`
  unfoldable pub emplace_back : InplaceVector A → A → Option (InplaceVector A)
  emplace_back v x = do
    assume (not (v.size == cap))
    d ← construct_at v.slots v.size x
    some (record { slots = d; size = add_size v.size 1 })

  unfoldable pub try_emplace_back : InplaceVector A → A → Option (Bool × InplaceVector A)
  try_emplace_back v x =
      if is_full v then some (false, v) else (do v' ← emplace_back v x; some (true, v'))

  unfoldable pub drop_back : InplaceVector A → Option (InplaceVector A)
  drop_back v = do
    assume (not (v.size == 0))
    d ← destroy_at v.slots (sub_size v.size 1)
    some (record { slots = d; size = sub_size v.size 1 })

  unfoldable pub take_back : InplaceVector A → Option (Option A × InplaceVector A)
  take_back v =
      if is_empty v
      then some (none, v)
      else (do x ← read_slot v.slots (sub_size v.size 1); v' ← drop_back v; some (some x, v'))

  unfoldable pub copy_construct_from : InplaceVector A → InplaceVector A → Option (InplaceVector A)
  copy_construct_from v other = do
    r ← copy_up other.slots other.size 0 v.slots v.size
    some (record { slots = r.0; size = r.1 })

  unfoldable pub move_construct_from :
      InplaceVector A → InplaceVector A → Option (InplaceVector A × InplaceVector A)
  move_construct_from v other = do
    r ← copy_up other.slots other.size 0 v.slots v.size
    other' ← clear_vector other
    some (record { slots = r.0; size = r.1 }, other')

  -- `operator=`, for `this != &other`
  unfoldable pub copy_assign : InplaceVector A → InplaceVector A → Option (InplaceVector A)
  copy_assign v other = do v' ← clear_vector v; copy_construct_from v' other

  unfoldable pub move_assign :
      InplaceVector A → InplaceVector A → Option (InplaceVector A × InplaceVector A)
  move_assign v other = do v' ← clear_vector v; move_construct_from v' other

  -- One call of a client, with what it returns.
  unfoldable pub step : InplaceVector A → Op A → Option (Reply A × InplaceVector A)
  step v (push_back x) = do v' ← emplace_back v x; some (done, v')
  step v (try_push_back x) = do r ← try_emplace_back v x; some (accepted r.0, r.1)
  step v pop_back = do v' ← drop_back v; some (done, v')
  step v try_pop_back = do r ← take_back v; some (popped r.0, r.1)
  step v clear = do v' ← clear_vector v; some (done, v')
  step v front = do x ← front_value v; some (value x, v)
  step v back = do x ← back_value v; some (value x, v)
  step v (at i) = do x ← value_at v i; some (value x, v)

  unfoldable pub run : InplaceVector A → List (Op A) → Option (List (Reply A))
  run v [] = some []
  run v (op ∷ ops) = do r ← step v op; rest ← run r.1 ops; some (r.0 ∷ rest)
