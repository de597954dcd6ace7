-- ===== src/Container/InplaceStack.antt =====
-- emb/container/inplace_stack.hpp: a stack of fixed capacity over slots, the top last. The first
-- argument is the template parameter `Capacity`. A result `none` is a fault.
pub mod Refine
use emblib.Base.{
  ℕ, zero, suc, ◌+◌, Bool, true, false, Option, none, some, List, [], ◌∷◌, not, ◌==◌, if◌then◌else◌,
}
use emblib.Base.OptionMonad.{◌>>=◌, ◌>>◌, assume}
use emblib.Container.Slots.{
  Slots, read_slot, construct_at, destroy_at, no_values, add_size, sub_size,
}
use emblib.Container.Bounded.{Reply, done, accepted, popped, value}

pub record InplaceStack {ℓ} (A : Type ℓ) : Type ℓ where
  pub slots : Slots A
  pub size : ℕ

pub data Op {ℓ} (A : Type ℓ) : Type ℓ where
  push try_push : A → Op A
  pop try_pop clear top : Op A

module _ {ℓ} {A : Type ℓ} where
  -- for (i = n; i > 0; --i) destroy_slot(i - 1);
  unfoldable pub clear_down : ℕ → Slots A → Option (Slots A)
  clear_down zero d = some d
  clear_down (suc n) d = do d' ← destroy_at d n; clear_down n d'

  -- for (i; n more rounds; ++i) { construct_at(slot_ptr(i), *other.slot_ptr(i)); ++size_; }
  unfoldable pub copy_up : Slots A → ℕ → ℕ → Slots A → ℕ → Option (Slots A × ℕ)
  copy_up other zero i d size = some (d, size)
  copy_up other (suc n) i d size = do
    x ← read_slot other i
    d' ← construct_at d i x
    copy_up other n (i + 1) d' (add_size size 1)

module _ {ℓ} {A : Type ℓ} (cap : ℕ) where
  -- The default constructor.
  unfoldable pub empty_stack : InplaceStack A
  empty_stack = record { slots = no_values cap; size = 0 }

  abbrev pub is_empty : InplaceStack A → Bool
  is_empty s = s.size == 0

  abbrev pub is_full : InplaceStack A → Bool
  is_full s = s.size == cap

  unfoldable pub clear_stack : InplaceStack A → Option (InplaceStack A)
  clear_stack s = do d ← clear_down s.size s.slots; some (record { slots = d; size = 0 })

  unfoldable pub top_value : InplaceStack A → Option A
  top_value s = do assume (not (s.size == 0)); read_slot s.slots (sub_size s.size 1)

  -- `push` and `emplace`
  unfoldable pub emplace : InplaceStack A → A → Option (InplaceStack A)
  emplace s x = do
    assume (not (s.size == cap))
    d ← construct_at s.slots s.size x
    some (record { slots = d; size = add_size s.size 1 })

  unfoldable pub try_emplace : InplaceStack A → A → Option (Bool × InplaceStack A)
  try_emplace s x = if is_full s then some (false, s) else (do s' ← emplace s x; some (true, s'))

  unfoldable pub drop_top : InplaceStack A → Option (InplaceStack A)
  drop_top s = do
    assume (not (s.size == 0))
    d ← destroy_at s.slots (sub_size s.size 1)
    some (record { slots = d; size = sub_size s.size 1 })

  unfoldable pub take_top : InplaceStack A → Option (Option A × InplaceStack A)
  take_top s =
      if is_empty s
      then some (none, s)
      else (do x ← read_slot s.slots (sub_size s.size 1); s' ← drop_top s; some (some x, s'))

  unfoldable pub copy_construct_from : InplaceStack A → InplaceStack A → Option (InplaceStack A)
  copy_construct_from s other = do
    r ← copy_up other.slots other.size 0 s.slots s.size
    some (record { slots = r.0; size = r.1 })

  unfoldable pub move_construct_from :
      InplaceStack A → InplaceStack A → Option (InplaceStack A × InplaceStack A)
  move_construct_from s other = do
    r ← copy_up other.slots other.size 0 s.slots s.size
    other' ← clear_stack other
    some (record { slots = r.0; size = r.1 }, other')

  -- `operator=`, for `this != &other`
  unfoldable pub copy_assign : InplaceStack A → InplaceStack A → Option (InplaceStack A)
  copy_assign s other = do s' ← clear_stack s; copy_construct_from s' other

  unfoldable pub move_assign :
      InplaceStack A → InplaceStack A → Option (InplaceStack A × InplaceStack A)
  move_assign s other = do s' ← clear_stack s; move_construct_from s' other

  -- One call of a client, with what it returns.
  unfoldable pub step : InplaceStack A → Op A → Option (Reply A × InplaceStack A)
  step s (push x) = do s' ← emplace s x; some (done, s')
  step s (try_push x) = do r ← try_emplace s x; some (accepted r.0, r.1)
  step s pop = do s' ← drop_top s; some (done, s')
  step s try_pop = do r ← take_top s; some (popped r.0, r.1)
  step s clear = do s' ← clear_stack s; some (done, s')
  step s top = do x ← top_value s; some (value x, s)

  unfoldable pub run : InplaceStack A → List (Op A) → Option (List (Reply A))
  run s [] = some []
  run s (op ∷ ops) = do r ← step s op; rest ← run r.1 ops; some (r.0 ∷ rest)
