-- ===== src/Concurrent/TripleBuffer/Inv.antt =====
-- What holds of the three buffers and the two tasks between any two steps.
use emblib.Base.{
  ℕ, suc, ◌≤◌, ◌<◌, ◌≡◌, ◌≢◌, ap, sym, ◌∙◌, some, List, [], ◌∷◌, get_elem?, get_or, set, length,
  take,
}
use native.Mathlib.Decide.{ℕ_discrete}
use emblib.Base.Words.{set_other, set_same}
use emblib.Concurrent.TripleBuffer.{Writer, Reader, writing, reading, System}

module _ {W : Type 0} where
  -- One of the values that were stored, or the initial one.
  abbrev pub IsOneOf : List (List W) → List W → Type 0
  IsOneOf history v = (i : ℕ) × (get_elem? history i ≡ some v)

  pub later : (history : List (List W)) (v b : List W) → IsOneOf history b → IsOneOf (v ∷ history) b
  later history v b (i, e) = (suc i, e)

  pub sized_set :
      {n : ℕ} (buf : List (List W)) (i j : ℕ) (b : List W)
      → i < length buf
      → length b ≡ n
      → length (get_or buf j []) ≡ n
      → length (get_or (set buf i b) j []) ≡ n
  sized_set buf i j b h size old = elim (ℕ_discrete i j) [
    | yes e ↦
        ap (λ k. length (get_or (set buf i b) k [])) (sym e) ∙ ap length (set_same buf i b h) ∙ size
    | no ne ↦ ap length (set_other buf i j b h ne) ∙ old
  ]

  module _ (n : ℕ) where
    abbrev pub WriterKnows : List W → Writer W → Type 0
    WriterKnows b Writer.idle = Unit
    WriterKnows b (writing v i) = (length v ≡ n) × (i ≤ n) × (take i b ≡ take i v)

    abbrev pub ReaderKnows : List W → Reader W → Type 0
    ReaderKnows b Reader.idle = Unit
    ReaderKnows b (reading i copied) = copied ≡ take i b

    -- The three indices are the three buffers, and all but the writer's hold whole values.
    pub record Inv (history : List (List W)) (s : System W) : Type 0 where
      pub three : length s.buf ≡ 3
      pub shared_in : s.shared < 3
      pub write_in : s.write < 3
      pub read_in : s.read < 3
      pub write_shared : s.write ≢ s.shared
      pub write_read : s.write ≢ s.read
      pub shared_read : s.shared ≢ s.read
      pub sized : (j : ℕ) → j < 3 → length (get_or s.buf j []) ≡ n
      pub shared_whole : IsOneOf history (get_or s.buf s.shared [])
      pub read_whole : IsOneOf history (get_or s.buf s.read [])
      pub writer_knows : WriterKnows (get_or s.buf s.write []) s.writer
      pub reader_knows : ReaderKnows (get_or s.buf s.read []) s.reader

  module _ {n : ℕ} {history : List (List W)} {s : System W} where
    pub with_writer :
        {w : Writer W}
        → WriterKnows n (get_or s.buf s.write []) w
        → Inv n history s
        → Inv n history (record s { writer = w })
    with_writer k h = record {
      three = h.three;
      shared_in = h.shared_in;
      write_in = h.write_in;
      read_in = h.read_in;
      write_shared = h.write_shared;
      write_read = h.write_read;
      shared_read = h.shared_read;
      sized = h.sized;
      shared_whole = h.shared_whole;
      read_whole = h.read_whole;
      writer_knows = k;
      reader_knows = h.reader_knows;
    }

    pub with_reader :
        {r : Reader W}
        → ReaderKnows n (get_or s.buf s.read []) r
        → Inv n history s
        → Inv n history (record s { reader = r })
    with_reader k h = record {
      three = h.three;
      shared_in = h.shared_in;
      write_in = h.write_in;
      read_in = h.read_in;
      write_shared = h.write_shared;
      write_read = h.write_read;
      shared_read = h.shared_read;
      sized = h.sized;
      shared_whole = h.shared_whole;
      read_whole = h.read_whole;
      writer_knows = h.writer_knows;
      reader_knows = k;
    }
