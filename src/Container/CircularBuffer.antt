-- ===== src/Container/CircularBuffer.antt =====
-- emb/container/circular_buffer.hpp: a ring of slots that holds the latest elements pushed. The
-- first argument is the template parameter `Capacity`. A result `none` is a fault: an `ASSUME` that
-- fails, a construction over a live object, a destruction or a read of a dead one.
pub mod Holds
pub mod Pushes
pub mod Copies
pub mod Refine
pub mod Moves
use emblib.Base.{
  ℕ, zero, suc, ◌+◌, ◌-◌, ◌%◌, Bool, true, false, Option, none, some, List, [], ◌∷◌, not, ltb, ◌==◌,
  if◌then◌else◌,
}
use emblib.Base.OptionMonad.{◌>>=◌, ◌>>◌, assume}
use emblib.Container.Slots.{
  Slots, read_slot, construct_at, destroy_at, no_values, add_size, sub_size,
}
use emblib.Container.View.{ring_index}
use emblib.Container.Loops.{clear_from, copy_from}
use emblib.Container.Deque.{
  Op, push_back, push_front, try_push_back, try_push_front, fill, try_pop_front, try_pop_back,
  clear, Reply, done, accepted, popped,
}

pub record CircularBuffer {ℓ} (A : Type ℓ) : Type ℓ where
  pub slots : Slots A
  pub front : ℕ
  pub size : ℕ

module _ {ℓ} {A : Type ℓ} (cap : ℕ) where
  -- The default constructor.
  unfoldable pub empty_buffer : CircularBuffer A
  empty_buffer = record { slots = no_values cap; front = 0; size = 0 }

  abbrev pub index_of : CircularBuffer A → ℕ → ℕ
  index_of b offset = ring_index cap b.front offset

  abbrev pub is_empty : CircularBuffer A → Bool
  is_empty b = b.size == 0

  abbrev pub is_full : CircularBuffer A → Bool
  is_full b = b.size == cap

  unfoldable pub clear_buffer : CircularBuffer A → Option (CircularBuffer A)
  clear_buffer b = do
    d ← clear_from cap b.front b.size 0 b.slots
    some (record { slots = d; front = 0; size = 0 })

  unfoldable pub front_value : CircularBuffer A → Option A
  front_value b = do assume (not (b.size == 0)); read_slot b.slots b.front

  unfoldable pub back_value : CircularBuffer A → Option A
  back_value b = do assume (not (b.size == 0)); read_slot b.slots (index_of b (sub_size b.size 1))

  unfoldable pub at : CircularBuffer A → ℕ → Option A
  at b i = do assume (ltb i b.size); read_slot b.slots (index_of b i)

  -- `write_back_with`: on a full buffer the oldest element makes room.
  unfoldable pub write_back_with : CircularBuffer A → A → Option (CircularBuffer A)
  write_back_with b x =
      let slot_idx = index_of b b.size in
      if is_full b
      then (do
        d ← destroy_at b.slots slot_idx
        d' ← construct_at d slot_idx x
        some (record b { slots = d'; front = add_size b.front 1 % cap }))
      else (do
        d' ← construct_at b.slots slot_idx x
        some (record b { slots = d'; size = add_size b.size 1 }))

  -- `write_front_with`: on a full buffer the latest element makes room.
  unfoldable pub write_front_with : CircularBuffer A → A → Option (CircularBuffer A)
  write_front_with b x =
      let new_front = sub_size (add_size b.front cap) 1 % cap in
      if is_full b
      then (do
        d ← destroy_at b.slots new_front
        d' ← construct_at d new_front x
        some (record b { slots = d'; front = new_front }))
      else (do
        d' ← construct_at b.slots new_front x
        some (record { slots = d'; front = new_front; size = add_size b.size 1 }))

  -- `push_back` and `emplace_back`
  unfoldable pub emplace_back : CircularBuffer A → A → Option (CircularBuffer A)
  emplace_back b x = write_back_with b x

  -- `push_front` and `emplace_front`
  unfoldable pub emplace_front : CircularBuffer A → A → Option (CircularBuffer A)
  emplace_front b x = write_front_with b x

  unfoldable pub try_emplace_back : CircularBuffer A → A → Option (Bool × CircularBuffer A)
  try_emplace_back b x =
      if is_full b then some (false, b) else (do b' ← emplace_back b x; some (true, b'))

  unfoldable pub try_emplace_front : CircularBuffer A → A → Option (Bool × CircularBuffer A)
  try_emplace_front b x =
      if is_full b then some (false, b) else (do b' ← emplace_front b x; some (true, b'))

  unfoldable pub pop_front : CircularBuffer A → Option (CircularBuffer A)
  pop_front b = do
    assume (not (b.size == 0))
    d ← destroy_at b.slots b.front
    some (record { slots = d; front = add_size b.front 1 % cap; size = sub_size b.size 1 })

  unfoldable pub pop_back : CircularBuffer A → Option (CircularBuffer A)
  pop_back b = do
    assume (not (b.size == 0))
    d ← destroy_at b.slots (index_of b (sub_size b.size 1))
    some (record b { slots = d; size = sub_size b.size 1 })

  unfoldable pub take_front : CircularBuffer A → Option (Option A × CircularBuffer A)
  take_front b =
      if is_empty b
      then some (none, b)
      else (do x ← read_slot b.slots b.front; b' ← pop_front b; some (some x, b'))

  unfoldable pub take_back : CircularBuffer A → Option (Option A × CircularBuffer A)
  take_back b = if is_empty b then some (none, b) else (do
    x ← read_slot b.slots (index_of b (sub_size b.size 1))
    b' ← pop_back b
    some (some x, b'))

  -- The loop of `fill`: for (i; n more rounds; ++i) construct_at(slot_ptr(i), value);
  unfoldable pub fill_from : A → ℕ → ℕ → Slots A → Option (Slots A)
  fill_from x zero i d = some d
  fill_from x (suc n) i d = do d' ← construct_at d i x; fill_from x n (i + 1) d'

  unfoldable pub fill_buffer : CircularBuffer A → A → Option (CircularBuffer A)
  fill_buffer b x = do
    b' ← clear_buffer b
    d ← fill_from x cap 0 b'.slots
    some (record b' { slots = d; size = cap })

  unfoldable pub copy_construct_from :
      CircularBuffer A → CircularBuffer A → Option (CircularBuffer A)
  copy_construct_from b other = do
    r ← copy_from cap other.slots other.front other.size 0 b.slots b.size
    some (record b { slots = r.0; size = r.1 })

  -- An object that has been moved from stays alive until `other.clear()`.
  unfoldable pub move_construct_from :
      CircularBuffer A → CircularBuffer A → Option (CircularBuffer A × CircularBuffer A)
  move_construct_from b other = do
    r ← copy_from cap other.slots other.front other.size 0 b.slots b.size
    other' ← clear_buffer other
    some (record b { slots = r.0; size = r.1 }, other')

  -- `operator=` of an element type that is not trivially copyable, for `this != &other`
  unfoldable pub copy_assign : CircularBuffer A → CircularBuffer A → Option (CircularBuffer A)
  copy_assign b other = do b' ← clear_buffer b; copy_construct_from b' other

  unfoldable pub move_assign :
      CircularBuffer A → CircularBuffer A → Option (CircularBuffer A × CircularBuffer A)
  move_assign b other = do b' ← clear_buffer b; move_construct_from b' other

  -- Both `operator=`, by `std::is_trivially_copyable_v<T>`: the defaulted ones copy all members, and
  -- leave the source as it is.
  unfoldable pub copy_operator :
      Bool → CircularBuffer A → CircularBuffer A → Option (CircularBuffer A)
  copy_operator trivial b other = if trivial then some other else copy_assign b other

  unfoldable pub move_operator :
      Bool → CircularBuffer A → CircularBuffer A → Option (CircularBuffer A × CircularBuffer A)
  move_operator trivial b other = if trivial then some (other, other) else move_assign b other

  -- One call of a client, with what it returns.
  unfoldable pub step : CircularBuffer A → Op A → Option (Reply A × CircularBuffer A)
  step b (push_back x) = do b' ← emplace_back b x; some (done, b')
  step b (push_front x) = do b' ← emplace_front b x; some (done, b')
  step b (try_push_back x) = do r ← try_emplace_back b x; some (accepted r.0, r.1)
  step b (try_push_front x) = do r ← try_emplace_front b x; some (accepted r.0, r.1)
  step b (fill x) = do b' ← fill_buffer b x; some (done, b')
  step b try_pop_front = do r ← take_front b; some (popped r.0, r.1)
  step b try_pop_back = do r ← take_back b; some (popped r.0, r.1)
  step b clear = do b' ← clear_buffer b; some (done, b')

  unfoldable pub run : CircularBuffer A → List (Op A) → Option (List (Reply A))
  run b [] = some []
  run b (op ∷ ops) = do r ← step b op; rest ← run r.1 ops; some (r.0 ∷ rest)
