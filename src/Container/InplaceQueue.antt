-- ===== src/Container/InplaceQueue.antt =====
-- emb/container/inplace_queue.hpp: a queue of fixed capacity over a ring of slots. The first
-- argument is the template parameter `Capacity`. A result `none` is a fault.
pub mod Refine
use emblib.Base.{
  ℕ, zero, suc, ◌+◌, ◌%◌, Bool, true, false, Option, none, some, List, [], ◌∷◌, not, ◌==◌,
  if◌then◌else◌,
}
use emblib.Base.OptionMonad.{◌>>=◌, ◌>>◌, assume}
use emblib.Container.Slots.{
  Slots, read_slot, construct_at, destroy_at, no_values, add_size, sub_size,
}
use emblib.Container.View.{ring_index}
use emblib.Container.Loops.{clear_from, copy_from}
use emblib.Container.Fifo.{
  Op, push, try_push, pop, try_pop, clear, front, back, Reply, done, accepted, popped, value,
}

pub record InplaceQueue {ℓ} (A : Type ℓ) : Type ℓ where
  pub slots : Slots A
  pub front : ℕ
  pub size : ℕ

module _ {ℓ} {A : Type ℓ} (cap : ℕ) where
  -- The default constructor.
  unfoldable pub empty_queue : InplaceQueue A
  empty_queue = record { slots = no_values cap; front = 0; size = 0 }

  abbrev pub index_of : InplaceQueue A → ℕ → ℕ
  index_of q offset = ring_index cap q.front offset

  abbrev pub is_empty : InplaceQueue A → Bool
  is_empty q = q.size == 0

  abbrev pub is_full : InplaceQueue A → Bool
  is_full q = q.size == cap

  unfoldable pub clear_queue : InplaceQueue A → Option (InplaceQueue A)
  clear_queue q = do
    d ← clear_from cap q.front q.size 0 q.slots
    some (record { slots = d; front = 0; size = 0 })

  unfoldable pub front_value : InplaceQueue A → Option A
  front_value q = do assume (not (q.size == 0)); read_slot q.slots q.front

  unfoldable pub back_value : InplaceQueue A → Option A
  back_value q = do assume (not (q.size == 0)); read_slot q.slots (index_of q (sub_size q.size 1))

  -- `push` and `emplace`
  unfoldable pub emplace : InplaceQueue A → A → Option (InplaceQueue A)
  emplace q x = do
    assume (not (q.size == cap))
    d ← construct_at q.slots (index_of q q.size) x
    some (record q { slots = d; size = add_size q.size 1 })

  unfoldable pub try_emplace : InplaceQueue A → A → Option (Bool × InplaceQueue A)
  try_emplace q x = if is_full q then some (false, q) else (do q' ← emplace q x; some (true, q'))

  unfoldable pub pop_front : InplaceQueue A → Option (InplaceQueue A)
  pop_front q = do
    assume (not (q.size == 0))
    d ← destroy_at q.slots q.front
    some (record { slots = d; front = add_size q.front 1 % cap; size = sub_size q.size 1 })

  unfoldable pub take_front : InplaceQueue A → Option (Option A × InplaceQueue A)
  take_front q =
      if is_empty q
      then some (none, q)
      else (do x ← read_slot q.slots q.front; q' ← pop_front q; some (some x, q'))

  unfoldable pub copy_construct_from : InplaceQueue A → InplaceQueue A → Option (InplaceQueue A)
  copy_construct_from q other = do
    r ← copy_from cap other.slots other.front other.size 0 q.slots q.size
    some (record q { slots = r.0; size = r.1 })

  unfoldable pub move_construct_from :
      InplaceQueue A → InplaceQueue A → Option (InplaceQueue A × InplaceQueue A)
  move_construct_from q other = do
    r ← copy_from cap other.slots other.front other.size 0 q.slots q.size
    other' ← clear_queue other
    some (record q { slots = r.0; size = r.1 }, other')

  -- `operator=`, for `this != &other`
  unfoldable pub copy_assign : InplaceQueue A → InplaceQueue A → Option (InplaceQueue A)
  copy_assign q other = do q' ← clear_queue q; copy_construct_from q' other

  unfoldable pub move_assign :
      InplaceQueue A → InplaceQueue A → Option (InplaceQueue A × InplaceQueue A)
  move_assign q other = do q' ← clear_queue q; move_construct_from q' other

  -- One call of a client, with what it returns.
  unfoldable pub step : InplaceQueue A → Op A → Option (Reply A × InplaceQueue A)
  step q (push x) = do q' ← emplace q x; some (done, q')
  step q (try_push x) = do r ← try_emplace q x; some (accepted r.0, r.1)
  step q pop = do q' ← pop_front q; some (done, q')
  step q try_pop = do r ← take_front q; some (popped r.0, r.1)
  step q clear = do q' ← clear_queue q; some (done, q')
  step q front = do x ← front_value q; some (value x, q)
  step q back = do x ← back_value q; some (value x, q)

  unfoldable pub run : InplaceQueue A → List (Op A) → Option (List (Reply A))
  run q [] = some []
  run q (op ∷ ops) = do r ← step q op; rest ← run r.1 ops; some (r.0 ∷ rest)
