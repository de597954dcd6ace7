-- ===== src/Concurrent/Seqlock.antt =====
-- emb/concurrent/seqlock.hpp and isr_seqlock.hpp: a value that one writer changes and a reader copies,
-- and copies again where the sequence number has moved. A value is the list of its words; a step is
-- one access of the sequence number, or the copy of one word of the value. The writer's own snapshot
-- is one step: no one else writes.
pub mod Register
pub mod Inv
pub mod Writes
pub mod Reads
pub mod Refine
pub mod Progress
use emblib.Base.{
  ℕ, suc, ◌+◌, ◌%◌, Bool, true, false, ◌&&◌, not, Option, none, some, List, [], ◌∷◌, ◌++◌, ◌==◌,
  get_elem?, set, if◌then◌else◌,
}

-- The two classes: `isr_seqlock`, and `seqlock`, which waits while the number is odd.
pub data Kind : Type 0 where
  isr threads : Kind

-- The calls that write: `store`, and `update` by a function.
pub data Job {ℓ} (W : Type ℓ) : Type ℓ where
  store : List W → Job W
  update : (List W → List W) → Job W

-- Where the two sides stand, with what they have read so far: `s` and `s1` are the numbers read.
pub data Writer {ℓ} (W : Type ℓ) : Type ℓ where
  idle : Writer W
  opened marked : (job : Job W) (s : ℕ) → Writer W
  writing : (job : Job W) (value : List W) (s i : ℕ) → Writer W

pub data Reader {ℓ} (W : Type ℓ) : Type ℓ where
  idle polling : Reader W
  copying : (s1 i : ℕ) (copied : List W) → Reader W

pub record System {ℓ} (W : Type ℓ) : Type ℓ where
  pub seq : ℕ
  pub value : List W
  pub writer : Writer W
  pub reader : Reader W

pub data Event {ℓ} (W : Type ℓ) : Type ℓ where
  silent : Event W
  committed : Job W → Event W
  loaded : List W → Event W

-- A call where a side is idle, or the next step of a side.
pub data Action {ℓ} (W : Type ℓ) : Type ℓ where
  write : Job W → Action W
  load : Action W
  write_on read_on : Action W

-- `seq_type` wraps at 2^32.
abbrev pub u32 : ℕ → ℕ
u32 n = n % 4294967296

-- `s1 & 1`
abbrev pub is_odd : ℕ → Bool
is_odd n = n % 2 == 1

module _ {ℓ} {W : Type ℓ} where
  abbrev pub desired : Job W → List W → List W
  desired (store v) value = v
  desired (update f) value = f value

  -- A call is ignored where its side is in another call.
  abbrev pub begin_write : Job W → Writer W → System W → System W
  begin_write job Writer.idle s = record s { writer = opened job s.seq }
  begin_write job _ s = s

  abbrev pub begin_load : Reader W → System W → System W
  begin_load Reader.idle s = record s { reader = polling }
  begin_load _ s = s

  -- The next word, or the end of the call after the last one.
  abbrev pub write_word : Job W → List W → ℕ → ℕ → Option W → System W → System W × Event W
  write_word job v n i (some x) s =
      (record s { value = set s.value i x; writer = writing job v n (suc i) }, silent)
  write_word job v n i none s =
      (record s { seq = u32 (n + 2); writer = Writer.idle }, committed job)

  abbrev pub continue_write : Writer W → System W → System W × Event W
  continue_write Writer.idle s = (s, silent)
  continue_write (opened job n) s = (record s { seq = u32 (n + 1); writer = marked job n }, silent)
  continue_write (marked job n) s =
      (record s { writer = writing job (desired job s.value) n 0 }, silent)
  continue_write (writing job v n i) s = write_word job v n i (get_elem? v i) s

  -- The first read of the number: `seqlock` reads it again where it is odd.
  abbrev pub poll : Kind → ℕ → Reader W
  poll isr s1 = copying s1 0 []
  poll threads s1 = if is_odd s1 then polling else copying s1 0 []

  -- The next word, or the second read of the number after the last one.
  abbrev pub read_word : ℕ → ℕ → List W → Option W → System W → System W × Event W
  read_word s1 i copied (some x) s =
      (record s { reader = copying s1 (suc i) (copied ++ x ∷ []) }, silent)
  read_word s1 i copied none s =
      if s1 == s.seq && not (is_odd s1)
      then (record s { reader = Reader.idle }, loaded copied)
      else (record s { reader = polling }, silent)

  abbrev pub continue_load : Kind → Reader W → System W → System W × Event W
  continue_load kind Reader.idle s = (s, silent)
  continue_load kind polling s = (record s { reader = poll kind s.seq }, silent)
  continue_load kind (copying s1 i copied) s = read_word s1 i copied (get_elem? s.value i) s

  unfoldable pub step : Kind → Action W → System W → System W × Event W
  step kind (write job) s = (begin_write job s.writer s, silent)
  step kind load s = (begin_load s.reader s, silent)
  step kind write_on s = continue_write s.writer s
  step kind read_on s = continue_load kind s.reader s

  -- A schedule of both sides, and what their callers see of it.
  unfoldable pub run : Kind → List (Action W) → System W → System W × List (Event W)
  run kind [] s = (s, [])
  run kind (a ∷ acts) s =
      let (s', e) = step kind a s in let (s'', es) = run kind acts s' in (s'', e ∷ es)
