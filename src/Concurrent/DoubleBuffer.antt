-- ===== src/Concurrent/DoubleBuffer.antt =====
-- emb/concurrent/double_buffer.hpp: two copies of a value, of which `front_` names the one to read. A
-- value is the list of its words; a step is one access of `front_`, or the copy of one word.
pub mod Phase
pub mod Inv
pub mod Stores
pub mod Whole
use emblib.Base.{ℕ, suc, ◌-◌, Option, none, some, List, [], ◌∷◌, ◌++◌, get_elem?, get_or, set}

-- Where `store` and `load` stand, with the index that they have read and that of the next word.
pub data Writer {ℓ} (W : Type ℓ) : Type ℓ where
  idle : Writer W
  called : (value : List W) → Writer W
  writing : (value : List W) (back i : ℕ) → Writer W

pub data Reader {ℓ} (W : Type ℓ) : Type ℓ where
  idle called : Reader W
  reading : (front i : ℕ) (copied : List W) → Reader W

pub record System {ℓ} (W : Type ℓ) : Type ℓ where
  pub buf : List (List W)
  pub front : ℕ
  pub writer : Writer W
  pub reader : Reader W

pub data Event {ℓ} (W : Type ℓ) : Type ℓ where
  silent began opened : Event W
  stored : List W → Event W
  loaded : List W → Event W

pub data Action {ℓ} (W : Type ℓ) : Type ℓ where
  store : List W → Action W
  load : Action W
  write_on read_on : Action W

module _ {ℓ} {W : Type ℓ} where
  unfoldable pub init : List W → System W
  init v = record { buf = v ∷ v ∷ []; front = 0; writer = Writer.idle; reader = Reader.idle }

  -- A call is ignored where its side is in another call.
  abbrev pub begin_store : List W → Writer W → System W → System W
  begin_store v Writer.idle s = record s { writer = Writer.called v }
  begin_store v _ s = s

  abbrev pub begin_load : Reader W → System W → System W
  begin_load Reader.idle s = record s { reader = Reader.called }
  begin_load _ s = s

  -- The next word, or the change of `front_` after the last one.
  abbrev pub write_word : List W → ℕ → ℕ → Option W → System W → System W × Event W
  write_word v back i (some x) s = (
    record s {
      buf = set s.buf back (set (get_or s.buf back []) i x);
      writer = writing v back (suc i);
    },
    silent,
  )
  write_word v back i none s = (record s { front = back; writer = Writer.idle }, stored v)

  abbrev pub continue_store : Writer W → System W → System W × Event W
  continue_store Writer.idle s = (s, silent)
  continue_store (Writer.called v) s = (record s { writer = writing v (1 - s.front) 0 }, opened)
  continue_store (writing v back i) s = write_word v back i (get_elem? v i) s

  -- The next word, or the return after the last one.
  abbrev pub read_word : ℕ → ℕ → List W → Option W → System W → System W × Event W
  read_word front i copied (some x) s =
      (record s { reader = reading front (suc i) (copied ++ x ∷ []) }, silent)
  read_word front i copied none s = (record s { reader = Reader.idle }, loaded copied)

  abbrev pub continue_load : Reader W → System W → System W × Event W
  continue_load Reader.idle s = (s, silent)
  continue_load Reader.called s = (record s { reader = reading s.front 0 [] }, began)
  continue_load (reading front i copied) s =
      read_word front i copied (get_elem? (get_or s.buf front []) i) s

  unfoldable pub step : Action W → System W → System W × Event W
  step (store v) s = (begin_store v s.writer s, silent)
  step load s = (begin_load s.reader s, silent)
  step write_on s = continue_store s.writer s
  step read_on s = continue_load s.reader s

  -- A schedule of both sides, and what their callers see of it.
  unfoldable pub run : List (Action W) → System W → System W × List (Event W)
  run [] s = (s, [])
  run (a ∷ acts) s = let (s', e) = step a s in let (s'', es) = run acts s' in (s'', e ∷ es)
