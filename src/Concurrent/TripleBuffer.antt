-- ===== src/Concurrent/TripleBuffer.antt =====
-- emb/concurrent/triple_buffer.hpp: a value passed from one writer to one reader. A value is the
-- list of its words; a step is the copy of one word, or the exchange of an index. The two sides
-- interrupt each other between any two steps.
pub mod Inv
pub mod Whole
pub mod Repeated
use emblib.Base.{ℕ, suc, Option, none, some, List, [], ◌∷◌, ◌++◌, get_elem?, get_or, set, length}

-- Where `store` and `load` stand, with the index of the next word.
pub data Writer {ℓ} (W : Type ℓ) : Type ℓ where
  idle : Writer W
  writing : (value : List W) (i : ℕ) → Writer W

pub data Reader {ℓ} (W : Type ℓ) : Type ℓ where
  idle : Reader W
  reading : (i : ℕ) (copied : List W) → Reader W

-- `buf_`, `shared_`, `write_` and `read_`, and both sides.
pub record System {ℓ} (W : Type ℓ) : Type ℓ where
  pub buf : List (List W)
  pub shared : ℕ
  pub write : ℕ
  pub read : ℕ
  pub writer : Writer W
  pub reader : Reader W

pub data Event {ℓ} (W : Type ℓ) : Type ℓ where
  silent : Event W
  stored : List W → Event W
  loaded : List W → Event W

-- A call where a side is idle, or the next step of a side.
pub data Action {ℓ} (W : Type ℓ) : Type ℓ where
  store : List W → Action W
  load : Action W
  write_on read_on : Action W

module _ {ℓ} {W : Type ℓ} where
  -- A buffer of values that are all the initial one.
  unfoldable pub init : List W → System W
  init v = record {
    buf = v ∷ v ∷ v ∷ [];
    shared = 0;
    write = 1;
    read = 2;
    writer = Writer.idle;
    reader = Reader.idle;
  }

  -- A call is ignored where its side is in another call.
  abbrev pub begin_store : List W → Writer W → System W → System W
  begin_store v Writer.idle s = record s { writer = writing v 0 }
  begin_store v _ s = s

  -- `load` up to the fence: the exchange.
  abbrev pub begin_load : Reader W → System W → System W
  begin_load Reader.idle s = record s { read = s.shared; shared = s.read; reader = reading 0 [] }
  begin_load _ s = s

  -- `store`: the next word, or the exchange after the last one.
  abbrev pub write_word : List W → ℕ → Option W → System W → System W × Event W
  write_word v i (some x) s = (
    record s {
      buf = set s.buf s.write (set (get_or s.buf s.write []) i x);
      writer = writing v (suc i);
    },
    silent,
  )
  write_word v i none s =
      (record s { write = s.shared; shared = s.write; writer = Writer.idle }, stored v)

  abbrev pub continue_store : Writer W → System W → System W × Event W
  continue_store Writer.idle s = (s, silent)
  continue_store (writing v i) s = write_word v i (get_elem? v i) s

  -- `load`: the next word, or the return after the last one.
  abbrev pub read_word : ℕ → List W → Option W → System W → System W × Event W
  read_word i copied (some x) s = (record s { reader = reading (suc i) (copied ++ x ∷ []) }, silent)
  read_word i copied none s = (record s { reader = Reader.idle }, loaded copied)

  abbrev pub continue_load : Reader W → System W → System W × Event W
  continue_load Reader.idle s = (s, silent)
  continue_load (reading i copied) s = read_word i copied (get_elem? (get_or s.buf s.read []) i) s

  unfoldable pub step : Action W → System W → System W × Event W
  step (store v) s = (begin_store v s.writer s, silent)
  step load s = (begin_load s.reader s, silent)
  step write_on s = continue_store s.writer s
  step read_on s = continue_load s.reader s

  -- A schedule of both sides, and what their callers see of it.
  unfoldable pub run : List (Action W) → System W → System W × List (Event W)
  run [] s = (s, [])
  run (a ∷ acts) s = let (s', e) = step a s in let (s'', es) = run acts s' in (s'', e ∷ es)
