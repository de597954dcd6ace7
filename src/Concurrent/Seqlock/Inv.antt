-- ===== src/Concurrent/Seqlock/Inv.antt =====
-- What holds between two accesses of emb/concurrent/seqlock.hpp and isr_seqlock.hpp.
use emblib.Base.{ℕ, ◌+◌, ◌*◌, ◌%◌, ◌≤◌, ◌<◌, ◌≡◌, List, arith, length, take}
use emblib.Concurrent.Seqlock.Register.{Fits, pending, after, IsRight}
use emblib.Concurrent.Seqlock.{
  Writer, Reader, System, Event, opened, marked, writing, polling, copying, u32, desired,
}

module _ {W : Type 0} (n base : ℕ) where
  -- `t` is the number as if it did not wrap, and `cur` the value that the jobs have led to.
  abbrev pub WriterKnows : ℕ → List W → List W → Writer W → Type 0
  WriterKnows t cur value Writer.idle = (t % 2 ≡ 0) × (value ≡ cur)
  WriterKnows t cur value (opened job s) = (t % 2 ≡ 0) × (value ≡ cur) × (s ≡ u32 t) × Fits n job
  WriterKnows t cur value (marked job s) =
      (t % 2 ≡ 1) × (value ≡ cur) × (u32 (s + 2) ≡ u32 (t + 1)) × Fits n job
  WriterKnows t cur value (writing job v s i) =
      (t % 2 ≡ 1)
      × (v ≡ desired job cur)
      × (u32 (s + 2) ≡ u32 (t + 1))
      × (length v ≡ n)
      × (i ≤ n)
      × (take i value ≡ take i v)

  -- `t1` is the number that was read first, as if it did not wrap.
  abbrev pub ReaderKnows : ℕ → List W → Reader W → Type 0
  ReaderKnows t value (copying s1 i copied) =
      (t1 : ℕ) × (base ≤ t1)
      × (t1 ≤ t)
      × (s1 ≡ u32 t1)
      × (t1 ≡ t → t % 2 ≡ 0 → copied ≡ take i value)
  ReaderKnows t value _ = Unit

  -- The jobs to come, `budget` of them, do not take the number once around.
  pub record Inv (t budget : ℕ) (cur : List W) (s : System W) : Type 0 where
    pub seq_is : s.seq ≡ u32 t
    pub since : base ≤ t
    pub bounded : t + pending s.writer + 2 * budget < base + 4294967296
    pub sized : length s.value ≡ n
    pub writer_knows : WriterKnows t cur s.value s.writer
    pub reader_knows : ReaderKnows t s.value s.reader

  abbrev pub Kept : ℕ → List W → System W × Event W → Type 0
  Kept budget cur r = (t : ℕ) × IsRight cur r.1 × Inv t budget (after r.1 cur) r.0

  -- A move of the number, or of the value while it is odd, is nothing that a reader counts on.
  pub reader_moves :
      (t t' : ℕ) (value value' : List W) (r : Reader W)
      → t < t'
      → ReaderKnows t value r
      → ReaderKnows t' value' r
  reader_moves t t' value value' Reader.idle h k = tt
  reader_moves t t' value value' polling h k = tt
  reader_moves t t' value value' (copying s1 i copied) h (t1, low, high, e, same) =
      (t1, low, omega arith, e, λ now. absurd (omega arith))

  pub reader_odd :
      (t : ℕ) (value value' : List W) (r : Reader W)
      → t % 2 ≡ 1
      → ReaderKnows t value r
      → ReaderKnows t value' r
  reader_odd t value value' Reader.idle h k = tt
  reader_odd t value value' polling h k = tt
  reader_odd t value value' (copying s1 i copied) h (t1, low, high, e, same) =
      (t1, low, high, e, λ now even. absurd (omega arith))
