-- ===== src/Concurrent/SpscQueue.antt =====
-- emb/concurrent/isr_spsc_inplace_queue.hpp: a queue between one producer and one consumer that
-- may interrupt each other anywhere. A step of a thread is one access of the shared state; the
-- accesses are taken in an order that both sides agree on, which the fences give on one core. The
-- indices are absolute and wrap at 2^32; `Capacity` is `2 ^ k`, a power of two by the class's
-- `requires`.
pub mod Spec
pub mod Inv
pub mod Moves
pub mod Front
pub mod Takes
pub mod Refine
use Prim.Native.Nat.{bit_and}
use emblib.Base.{
  ℕ, ◌+◌, ◌-◌, ◌%◌, ◌^◌, Bool, Option, none, some, List, [], ◌∷◌, ◌==◌, if◌then◌else◌,
}
use emblib.Base.OptionMonad.{◌>>=◌}
use emblib.Container.Slots.{Slots, no_values, read_slot, construct_at, destroy_at}

-- `atomic_unsigned_lock_free::value_type`
abbrev pub index_mod : ℕ
index_mod = 2 ^ 32

-- Where the producer stands, with the locals of `try_emplace`.
pub data Producer {ℓ} (A : Type ℓ) : Type ℓ where
  idle : Producer A
  loaded : (x : A) (b : ℕ) → Producer A
  room : (x : A) (b : ℕ) → Producer A
  built : (x : A) (b : ℕ) → Producer A

-- Where the consumer stands, with the locals of `try_pop`, `front` and `clear`.
pub data Consumer {ℓ} (A : Type ℓ) : Type ℓ where
  idle : Consumer A
  pop_loaded : (f : ℕ) → Consumer A
  pop_found : (f : ℕ) → Consumer A
  pop_moved : (f : ℕ) (x : A) → Consumer A
  pop_destroyed : (f : ℕ) (x : A) → Consumer A
  peek_loaded : (f : ℕ) → Consumer A
  peek_found : (f : ℕ) → Consumer A
  clear_loaded : (b : ℕ) → Consumer A
  clear_at : (f b : ℕ) → Consumer A

pub record System {ℓ} (A : Type ℓ) : Type ℓ where
  pub slots : Slots A
  pub front : ℕ
  pub back : ℕ
  pub producer : Producer A
  pub consumer : Consumer A

-- What a step lets the callers see.
pub data Event {ℓ} (A : Type ℓ) : Type ℓ where
  silent : Event A
  pushed : A → Event A
  refused : Event A
  popped : A → Event A
  pop_empty : Event A
  peeked : A → Event A
  peek_empty : Event A
  clear_called : Event A
  cleared : Event A

-- A call where a thread is idle, or the next access of a thread.
pub data Action {ℓ} (A : Type ℓ) : Type ℓ where
  try_push : A → Action A
  try_pop peek clear : Action A
  produce consume : Action A

abbrev pub capacity : ℕ → ℕ
capacity k = 2 ^ k

-- `size_type(abs_idx) & mask_`
unfoldable pub index_of : ℕ → ℕ → ℕ
index_of k abs_idx = bit_and abs_idx (capacity k - 1)

-- `size()`, as an observer reads it: unsigned subtraction.
abbrev pub distance : ℕ → ℕ → ℕ
distance b f = (b + index_mod - f) % index_mod

module _ {ℓ} {A : Type ℓ} where
  -- A call begins with its first access; it is ignored where its thread is in another call.
  abbrev pub begin_push : A → Producer A → System A → System A
  begin_push x Producer.idle s = record s { producer = loaded x s.back }
  begin_push x _ s = s

  abbrev pub begin : Consumer A → Consumer A → System A → System A
  begin c Consumer.idle s = record s { consumer = c }
  begin c _ s = s

  abbrev pub begin_clear : Consumer A → System A → System A × Event A
  begin_clear Consumer.idle s = (record s { consumer = clear_loaded s.back }, clear_called)
  begin_clear _ s = (s, silent)

module _ {ℓ} {A : Type ℓ} (k : ℕ) where
  unfoldable pub init : System A
  init = record {
    slots = no_values (capacity k);
    front = 0;
    back = 0;
    producer = Producer.idle;
    consumer = Consumer.idle;
  }

  -- `try_emplace`, from its second access on.
  unfoldable pub produce_at : Producer A → System A → Option (System A × Event A)
  produce_at Producer.idle s = some (s, silent)
  produce_at (loaded x b) s =
      if distance b s.front == capacity k
      then some (record s { producer = Producer.idle }, refused)
      else some (record s { producer = room x b }, silent)
  produce_at (room x b) s = do
    d ← construct_at s.slots (index_of k b) x
    some (record s { slots = d; producer = built x b }, silent)
  produce_at (built x b) s =
      some (record s { back = (b + 1) % index_mod; producer = Producer.idle }, pushed x)

  -- `try_pop`, `front` and `clear`, from their second access on.
  unfoldable pub consume_at : Consumer A → System A → Option (System A × Event A)
  consume_at Consumer.idle s = some (s, silent)
  consume_at (pop_loaded f) s =
      if f == s.back
      then some (record s { consumer = Consumer.idle }, pop_empty)
      else some (record s { consumer = pop_found f }, silent)
  consume_at (pop_found f) s = do
    x ← read_slot s.slots (index_of k f)
    some (record s { consumer = pop_moved f x }, silent)
  consume_at (pop_moved f x) s = do
    d ← destroy_at s.slots (index_of k f)
    some (record s { slots = d; consumer = pop_destroyed f x }, silent)
  consume_at (pop_destroyed f x) s =
      some (record s { front = (f + 1) % index_mod; consumer = Consumer.idle }, popped x)
  consume_at (peek_loaded f) s =
      if f == s.back
      then some (record s { consumer = Consumer.idle }, peek_empty)
      else some (record s { consumer = peek_found f }, silent)
  consume_at (peek_found f) s = do
    x ← read_slot s.slots (index_of k f)
    some (record s { consumer = Consumer.idle }, peeked x)
  consume_at (clear_loaded b) s = some (record s { consumer = clear_at s.front b }, silent)
  consume_at (clear_at f b) s =
      if f == b then some (record s { front = b; consumer = Consumer.idle }, cleared) else (do
        d ← destroy_at s.slots (index_of k f)
        some (record s { slots = d; consumer = clear_at ((f + 1) % index_mod) b }, silent))

  unfoldable pub step : Action A → System A → Option (System A × Event A)
  step (try_push x) s = some (begin_push x s.producer s, silent)
  step try_pop s = some (begin (pop_loaded s.front) s.consumer s, silent)
  step peek s = some (begin (peek_loaded s.front) s.consumer s, silent)
  step clear s = some (begin_clear s.consumer s)
  step produce s = produce_at s.producer s
  step consume s = consume_at s.consumer s

  -- A schedule of the two threads, and what the callers see of it.
  unfoldable pub run : List (Action A) → System A → Option (System A × List (Event A))
  run [] s = some (s, [])
  run (a ∷ acts) s = do r ← step a s; rest ← run acts r.0; some (rest.0, r.1 ∷ rest.1)
