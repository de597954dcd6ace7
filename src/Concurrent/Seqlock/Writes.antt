-- ===== src/Concurrent/Seqlock/Writes.antt =====
-- The writer's steps keep the invariant of the sequence locks.
use emblib.Base.{
  ℕ, suc, ◌+◌, ◌*◌, ◌≤◌, ◌<◌, ◌≡◌, refl, ap, sym, subst, ◌∙◌, Option, none, some, List, arith,
  get_elem?, length-set,
}
use emblib.Base.Parts.{take-all}
use emblib.Base.Words.{in_range, out_of_range, take-set}
use emblib.Concurrent.Seqlock.{
  Job, Writer, System, opened, marked, writing, silent, u32, desired, begin_write, write_word,
  continue_write,
}
use emblib.Concurrent.Seqlock.Inv.{WriterKnows, Inv, Kept, reader_moves, reader_odd}
use emblib.Concurrent.Seqlock.Register.{Fits, pending}

add_one : (t : ℕ) → t + 1 ≡ suc t
add_one t = omega arith

module _ {W : Type 0} {n base : ℕ} where
  pub fewer :
      {t budget : ℕ} {cur : List W} {s : System W}
      → Inv n base t (suc budget) cur s
      → Inv n base t budget cur s
  fewer inv = record {
    seq_is = inv.seq_is;
    since = inv.since;
    bounded = omega (arith, inv.bounded);
    sized = inv.sized;
    writer_knows = inv.writer_knows;
    reader_knows = inv.reader_knows;
  }

  pub begin_write-Kept :
      (job : Job W) (t budget : ℕ) (cur : List W) (s : System W) (w : Writer W)
      → s.writer ≡ w
      → Fits n job
      → Inv n base t (suc budget) cur s
      → Kept n base budget cur (begin_write job w s, silent)
  begin_write-Kept job t budget cur s Writer.idle e fits inv =
      let (even, same) = subst (WriterKnows n base t cur s.value) e inv.writer_knows in
      let room : t + 0 + 2 * suc budget < base + 4294967296 =
        subst (λ w. t + pending w + 2 * suc budget < base + 4294967296) e inv.bounded in
      (
        t,
        tt,
        record {
          seq_is = inv.seq_is;
          since = inv.since;
          bounded = omega arith;
          sized = inv.sized;
          writer_knows = (even, same, inv.seq_is, fits);
          reader_knows = inv.reader_knows;
        },
      )
  begin_write-Kept job t budget cur s (opened _ _) e fits inv = (t, tt, fewer inv)
  begin_write-Kept job t budget cur s (marked _ _) e fits inv = (t, tt, fewer inv)
  begin_write-Kept job t budget cur s (writing _ _ _ _) e fits inv = (t, tt, fewer inv)

  write_word-Kept :
      (job : Job W) (v : List W) (m i : ℕ) (o : Option W) (t budget : ℕ) (cur : List W)
      (s : System W)
      → get_elem? v i ≡ o
      → s.writer ≡ writing job v m i
      → Inv n base t budget cur s
      → Kept n base budget cur (write_word job v m i o s)
  write_word-Kept job v m i (some x) t budget cur s e es inv =
      let (odd, is, s_is, size, low, same) =
        subst (WriterKnows n base t cur s.value) es inv.writer_knows in
      let room = subst (λ w. t + pending w + 2 * budget < base + 4294967296) es inv.bounded in
      let inside = in_range v i x e in
      let sized = inv.sized in
      (
        t,
        tt,
        record {
          seq_is = inv.seq_is;
          since = inv.since;
          bounded = room;
          sized = length-set s.value i x ∙ inv.sized;
          writer_knows =
              (odd, is, s_is, size, omega arith, take-set s.value v i x e (omega arith) same);
          reader_knows = reader_odd n base t s.value _ s.reader odd inv.reader_knows;
        },
      )
  write_word-Kept job v m i none t budget cur s e es inv =
      let (odd, is, s_is, size, low, same) =
        subst (WriterKnows n base t cur s.value) es inv.writer_knows in
      let room = subst (λ w. t + pending w + 2 * budget < base + 4294967296) es inv.bounded in
      let since = inv.since in
      let sized = inv.sized in
      let end : n ≤ i = let out = out_of_range v i e in omega arith in
      (
        suc t,
        tt,
        record {
          seq_is = s_is ∙ ap u32 (add_one t);
          since = omega arith;
          bounded = omega arith;
          sized = inv.sized;
          writer_knows = (
            omega arith,
            sym (take-all i s.value (omega arith)) ∙ same ∙ take-all i v (omega arith) ∙ is,
          );
          reader_knows =
              reader_moves n base t (suc t) s.value s.value s.reader (omega arith) inv.reader_knows;
        },
      )

  pub continue_write-Kept :
      (w : Writer W) (t budget : ℕ) (cur : List W) (s : System W)
      → s.writer ≡ w
      → Inv n base t budget cur s
      → Kept n base budget cur (continue_write w s)
  continue_write-Kept Writer.idle t budget cur s e inv = (t, tt, inv)
  continue_write-Kept (opened job m) t budget cur s e inv =
      let (even, same, s_is, fits) = subst (WriterKnows n base t cur s.value) e inv.writer_knows in
      let room = subst (λ w. t + pending w + 2 * budget < base + 4294967296) e inv.bounded in
      let since = inv.since in
      (
        suc t,
        tt,
        record {
          seq_is = omega arith;
          since = omega arith;
          bounded = omega arith;
          sized = inv.sized;
          writer_knows = (omega arith, same, omega arith, fits);
          reader_knows =
              reader_moves n base t (suc t) s.value s.value s.reader (omega arith) inv.reader_knows;
        },
      )
  continue_write-Kept (marked job m) t budget cur s e inv =
      let (odd, same, s_is, fits) = subst (WriterKnows n base t cur s.value) e inv.writer_knows in
      let room = subst (λ w. t + pending w + 2 * budget < base + 4294967296) e inv.bounded in
      (
        t,
        tt,
        record {
          seq_is = inv.seq_is;
          since = inv.since;
          bounded = room;
          sized = inv.sized;
          writer_knows =
              (odd, ap (desired job) same, s_is, fits s.value inv.sized, omega arith, refl);
          reader_knows = inv.reader_knows;
        },
      )
  continue_write-Kept (writing job v m i) t budget cur s e inv =
      write_word-Kept job v m i (get_elem? v i) t budget cur s refl e inv
