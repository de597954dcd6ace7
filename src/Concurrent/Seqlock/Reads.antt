-- ===== src/Concurrent/Seqlock/Reads.antt =====
-- The reader's steps keep the invariant of the sequence locks, and a load returns the current value.
use emblib.Base.{
  ℕ, suc, ◌%◌, ◌≤◌, ◌≡◌, refl, ap, subst, ◌∙◌, true, Option, none, some, List, [], ◌∷◌, ◌++◌, arith,
  get_elem?, ◌==◌, ◌&&◌, not, Bool-cases, inl, inr,
}
use emblib.Base.Parts.{take-all}
use emblib.Base.Words.{out_of_range, take-snoc}
use emblib.Concurrent.Seqlock.{
  Kind, Writer, Reader, System, isr, threads, opened, marked, writing, polling, copying, silent,
  u32, begin_load, is_odd, poll, read_word, continue_load,
}
use emblib.Concurrent.Seqlock.Inv.{WriterKnows, ReaderKnows, Inv, Kept}

accepted : (s1 s2 : ℕ) → (s1 == s2 && not (is_odd s1)) ≡ true → (s1 ≡ s2) × (s1 % 2 ≡ 0)
accepted s1 s2 h = ground arith

module _ {W : Type 0} (n base : ℕ) where
  -- While the number is even, no job is under way.
  quiet :
      (t : ℕ) (cur value : List W) (w : Writer W)
      → t % 2 ≡ 0
      → WriterKnows n base t cur value w
      → value ≡ cur
  quiet t cur value Writer.idle even k = k.1
  quiet t cur value (opened job s) even k = k.1
  quiet t cur value (marked job s) even k = absurd (omega (arith, k.0))
  quiet t cur value (writing job v s i) even k = absurd (omega (arith, k.0))

  pub begin_load-Kept :
      (t budget : ℕ) (cur : List W) (s : System W) (r : Reader W)
      → Inv n base t budget cur s
      → Kept n base budget cur (begin_load r s, silent)
  begin_load-Kept t budget cur s Reader.idle inv = (
    t,
    tt,
    record {
      seq_is = inv.seq_is;
      since = inv.since;
      bounded = inv.bounded;
      sized = inv.sized;
      writer_knows = inv.writer_knows;
      reader_knows = tt;
    },
  )
  begin_load-Kept t budget cur s polling inv = (t, tt, inv)
  begin_load-Kept t budget cur s (copying _ _ _) inv = (t, tt, inv)

  poll-ReaderKnows :
      (kind : Kind) (t s1 : ℕ) (value : List W)
      → base ≤ t
      → s1 ≡ u32 t
      → ReaderKnows n base t value (poll kind s1)
  poll-ReaderKnows isr t s1 value low e = (t, low, omega arith, e, λ now even. refl)
  poll-ReaderKnows threads t s1 value low e = elim (Bool-cases (is_odd s1)) [
    | inl odd ↦ rw odd tt
    | inr even ↦ rw even (t, low, omega arith, e, λ now even. refl)
  ]

  set_reader :
      {t budget : ℕ} {cur : List W} {s : System W} (r : Reader W)
      → Inv n base t budget cur s
      → ReaderKnows n base t s.value r
      → Inv n base t budget cur (record s { reader = r })
  set_reader r inv k = record {
    seq_is = inv.seq_is;
    since = inv.since;
    bounded = inv.bounded;
    sized = inv.sized;
    writer_knows = inv.writer_knows;
    reader_knows = k;
  }

  read_word-Kept :
      (s1 i : ℕ) (copied : List W) (o : Option W) (t budget : ℕ) (cur : List W) (s : System W)
      → get_elem? s.value i ≡ o
      → ReaderKnows n base t s.value (copying s1 i copied)
      → Inv n base t budget cur s
      → Kept n base budget cur (read_word s1 i copied o s)
  read_word-Kept s1 i copied (some x) t budget cur s e (t1, low, high, is, same) inv = (
    t,
    tt,
    set_reader (copying s1 (suc i) (copied ++ x ∷ [])) inv (
      t1,
      low,
      high,
      is,
      λ now even. ap (λ c. c ++ x ∷ []) (same now even) ∙ take-snoc s.value i x e,
    ),
  )
  read_word-Kept s1 i copied none t budget cur s e (t1, low, high, is, same) inv =
      elim (Bool-cases (s1 == s.seq && not (is_odd s1))) [
        | inl ok ↦ rw ok (
            let (eq, even) = accepted s1 s.seq ok in
            let seq_is = inv.seq_is in
            let bounded = inv.bounded in
            let now : t1 ≡ t = omega arith in
            let even_now : t % 2 ≡ 0 = omega arith in
            (
              t,
              same now even_now
                  ∙ take-all i s.value (out_of_range s.value i e)
                  ∙ quiet t cur s.value s.writer even_now inv.writer_knows,
              set_reader Reader.idle inv tt,
            ))
        | inr again ↦ rw again (t, tt, set_reader polling inv tt)
      ]

  pub continue_load-Kept :
      (kind : Kind) (r : Reader W) (t budget : ℕ) (cur : List W) (s : System W)
      → s.reader ≡ r
      → Inv n base t budget cur s
      → Kept n base budget cur (continue_load kind r s)
  continue_load-Kept kind Reader.idle t budget cur s e inv = (t, tt, inv)
  continue_load-Kept kind polling t budget cur s e inv = (
    t,
    tt,
    set_reader (poll kind s.seq) inv (poll-ReaderKnows kind t s.seq s.value inv.since inv.seq_is),
  )
  continue_load-Kept kind (copying s1 i copied) t budget cur s e inv =
      read_word-Kept s1 i copied (get_elem? s.value i) t budget cur s refl
        (subst (ReaderKnows n base t s.value) e inv.reader_knows) inv
