-- ===== src/Concurrent/TripleBuffer/Whole.antt =====
-- Whatever the schedule, a load returns a value that was stored as a whole.
use emblib.Base.{
  ℕ, zero, suc, ◌≤◌, ◌<◌, ◌≡◌, refl, ap, sym, subst, ◌∙◌, inl, inr, none, some, Option-cases, List,
  [], ◌∷◌, ◌++◌, arith, get_elem?, get_or, set, length, length-set, take,
}
use emblib.Base.Parts.{take-all}
use emblib.Base.Words.{set_other, set_same, in_range, out_of_range, take-snoc, take-set}
use emblib.Concurrent.TripleBuffer.{
  Writer, Reader, writing, reading, System, Event, silent, stored, loaded, Action, store, load,
  write_on, read_on, init, begin_store, begin_load, continue_store, continue_load, write_word, step,
  run,
}
use emblib.Concurrent.TripleBuffer.Inv.{
  IsOneOf, later, WriterKnows, ReaderKnows, Inv, sized_set, with_writer, with_reader,
}

module _ {W : Type 0} where
  -- Each value that is loaded was stored before, as a whole, or is the initial one.
  abbrev pub LoadsAreWhole : List (List W) → List (Event W) → Type 0
  LoadsAreWhole history [] = Unit
  LoadsAreWhole history (silent ∷ es) = LoadsAreWhole history es
  LoadsAreWhole history (stored v ∷ es) = LoadsAreWhole (v ∷ history) es
  LoadsAreWhole history (loaded v ∷ es) = IsOneOf history v × LoadsAreWhole history es

  module _ (n : ℕ) where
    -- A step keeps the invariant, with the value that it stores, and loads a whole value.
    abbrev After : List (List W) → System W × Event W → Type 0
    After history (s, silent) = Inv n history s
    After history (s, stored v) = Inv n (v ∷ history) s
    After history (s, loaded v) = IsOneOf history v × Inv n history s

    module _ {history : List (List W)} {s : System W} where
      begin_store-Inv :
          (v : List W) (w : Writer W)
          → s.writer ≡ w
          → length v ≡ n
          → Inv n history s
          → Inv n history (begin_store v w s)
      begin_store-Inv v Writer.idle e size h = with_writer (size, omega arith, refl) h
      begin_store-Inv v (writing u i) e size h = h

      begin_load-Inv :
          (r : Reader W) → s.reader ≡ r → Inv n history s → Inv n history (begin_load r s)
      begin_load-Inv Reader.idle e h = record {
        three = h.three;
        shared_in = h.read_in;
        write_in = h.write_in;
        read_in = h.shared_in;
        write_shared = h.write_read;
        write_read = h.write_shared;
        shared_read = λ q. h.shared_read (sym q);
        sized = h.sized;
        shared_whole = h.read_whole;
        read_whole = h.shared_whole;
        writer_knows = h.writer_knows;
        reader_knows = refl;
      }
      begin_load-Inv (reading i copied) e h = h

      -- A word goes into the writer's buffer, and no other changes.
      write_word-Inv :
          (v : List W) (i : ℕ) (x : W)
          → get_elem? v i ≡ some x
          → WriterKnows n (get_or s.buf s.write []) (writing v i)
          → Inv n history s
          → Inv n history (write_word v i (some x) s).0
      write_word-Inv v i x word (size, low, same) h =
          let b = get_or s.buf s.write [] in
          let b' = set b i x in
          let inside : s.write < length s.buf = omega (arith, h.three, h.write_in) in
          let short : i < length v = in_range v i x word in
          let b_size : length b ≡ n = h.sized s.write h.write_in in
          let b'_size : length b' ≡ n = length-set b i x ∙ b_size in
          let shared_kept = set_other s.buf s.write s.shared b' inside h.write_shared in
          let read_kept = set_other s.buf s.write s.read b' inside h.write_read in
          let mine = set_same s.buf s.write b' inside in
          record {
            three = length-set s.buf s.write b' ∙ h.three;
            shared_in = h.shared_in;
            write_in = h.write_in;
            read_in = h.read_in;
            write_shared = h.write_shared;
            write_read = h.write_read;
            shared_read = h.shared_read;
            sized = λ j k. sized_set s.buf s.write j b' inside b'_size (h.sized j k);
            shared_whole = subst (IsOneOf history) (sym shared_kept) h.shared_whole;
            read_whole = subst (IsOneOf history) (sym read_kept) h.read_whole;
            writer_knows =
                subst (λ c. WriterKnows n c (writing v (suc i))) (sym mine)
                  (size, omega arith, take-set b v i x word (omega arith) same);
            reader_knows = subst (λ c. ReaderKnows n c s.reader) (sym read_kept) h.reader_knows;
          }

      -- After the last word the writer's buffer is the value, and becomes the shared one.
      publish-Inv :
          (v : List W) (i : ℕ)
          → get_elem? v i ≡ none
          → WriterKnows n (get_or s.buf s.write []) (writing v i)
          → Inv n history s
          → Inv n (v ∷ history) (write_word v i none s).0
      publish-Inv v i past (size, low, same) h =
          let b = get_or s.buf s.write [] in
          let long : length v ≤ i = out_of_range v i past in
          let b_size : length b ≡ n = h.sized s.write h.write_in in
          let whole : v ≡ b = sym (take-all i v long) ∙ sym same ∙ take-all i b (omega arith) in
          record {
            three = h.three;
            shared_in = h.write_in;
            write_in = h.shared_in;
            read_in = h.read_in;
            write_shared = λ q. h.write_shared (sym q);
            write_read = h.shared_read;
            shared_read = h.write_read;
            sized = h.sized;
            shared_whole = (0, ap some whole);
            read_whole = later history v _ h.read_whole;
            writer_knows = tt;
            reader_knows = h.reader_knows;
          }

      continue_store-After :
          (w : Writer W) → s.writer ≡ w → Inv n history s → After history (continue_store w s)
      continue_store-After Writer.idle e h = h
      continue_store-After (writing v i) e h =
          let known = subst (WriterKnows n (get_or s.buf s.write [])) e h.writer_knows in
          elim (Option-cases (get_elem? v i)) [
            | inl past ↦ rw past (publish-Inv v i past known h)
            | inr (x, word) ↦ rw word (write_word-Inv v i x word known h)
          ]

      continue_load-After :
          (r : Reader W) → s.reader ≡ r → Inv n history s → After history (continue_load r s)
      continue_load-After Reader.idle e h = h
      continue_load-After (reading i copied) e h =
          let b = get_or s.buf s.read [] in
          let known : copied ≡ take i b = subst (ReaderKnows n b) e h.reader_knows in
          elim (Option-cases (get_elem? b i)) [
            | inl past ↦
                let whole : copied ≡ b = known ∙ take-all i b (out_of_range b i past) in
                rw past (subst (IsOneOf history) (sym whole) h.read_whole, with_reader tt h)
            | inr (x, word) ↦
                rw word (with_reader (ap (λ l. l ++ x ∷ []) known ∙ take-snoc b i x word) h)
          ]

    -- The values that a script stores have the size of the type.
    abbrev pub AllSized : List (Action W) → Type 0
    AllSized [] = Unit
    AllSized (store v ∷ acts) = (length v ≡ n) × AllSized acts
    AllSized (_ ∷ acts) = AllSized acts

    -- What is to follow a step, from what the step does.
    then_whole :
        (history : List (List W)) (s : System W) (e : Event W) (es : List (Event W))
        → After history (s, e)
        → ((history' : List (List W)) → Inv n history' s → LoadsAreWhole history' es)
        → LoadsAreWhole history (e ∷ es)
    then_whole history s silent es h k = k history h
    then_whole history s (stored v) es h k = k (v ∷ history) h
    then_whole history s (loaded v) es (whole, h) k = (whole, k history h)

    run-LoadsAreWhole :
        (acts : List (Action W)) (history : List (List W)) (s : System W)
        → AllSized acts
        → Inv n history s
        → LoadsAreWhole history (run acts s).1
    unfolding run step
    run-LoadsAreWhole [] history s sizes h = tt
    run-LoadsAreWhole (store v ∷ acts) history s sizes h =
        run-LoadsAreWhole acts history _ sizes.1 (begin_store-Inv v s.writer refl sizes.0 h)
    run-LoadsAreWhole (load ∷ acts) history s sizes h =
        run-LoadsAreWhole acts history _ sizes (begin_load-Inv s.reader refl h)
    run-LoadsAreWhole (write_on ∷ acts) history s sizes h =
        let (s', e) = continue_store s.writer s in
        then_whole history s' e (run acts s').1 (continue_store-After s.writer refl h)
          (λ history' h'. run-LoadsAreWhole acts history' s' sizes h')
    run-LoadsAreWhole (read_on ∷ acts) history s sizes h =
        let (s', e) = continue_load s.reader s in
        then_whole history s' e (run acts s').1 (continue_load-After s.reader refl h)
          (λ history' h'. run-LoadsAreWhole acts history' s' sizes h')

    init-Inv : (v : List W) → length v ≡ n → Inv n (v ∷ []) (init v)
    unfolding init
    init-Inv v size = record {
      three = refl;
      shared_in = omega arith;
      write_in = omega arith;
      read_in = omega arith;
      write_shared = omega arith;
      write_read = omega arith;
      shared_read = omega arith;
      sized = initial_size;
      shared_whole = (0, refl);
      read_whole = (0, refl);
      writer_knows = tt;
      reader_knows = tt;
    }
      where
        initial_size : (j : ℕ) → j < 3 → length (get_or (v ∷ v ∷ v ∷ []) j []) ≡ n
        initial_size zero h = size
        initial_size (suc zero) h = size
        initial_size (suc (suc zero)) h = size
        initial_size (suc (suc (suc j))) h = absurd (omega arith)

    -- For values of a fixed size, under any schedule of the steps of one writer and one reader,
    -- each load returns the initial value or one whose store has ended, and never a mixture.
    pub loads_are_whole :
        (acts : List (Action W)) (v : List W)
        → length v ≡ n
        → AllSized acts
        → LoadsAreWhole (v ∷ []) (run acts (init v)).1
    loads_are_whole acts v size sizes =
        run-LoadsAreWhole acts (v ∷ []) (init v) sizes (init-Inv v size)
