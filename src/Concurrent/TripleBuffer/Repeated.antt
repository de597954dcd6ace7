-- ===== src/Concurrent/TripleBuffer/Repeated.antt =====
-- Two loads in a row, with no store between them.
use emblib.Base.{
  ℕ, zero, suc, ◌+◌, ◌≡◌, refl, ap, sym, subst, ◌∙◌, inl, inr, Option-cases, List, [], ◌∷◌, ◌++◌,
  arith, get_elem?, get_elem?_above, get_or, length, take, replicate,
}
use emblib.Concurrent.TripleBuffer.{
  Reader, reading, System, Event, silent, loaded, Action, load, read_on, begin_load, read_word,
  step, run,
}
use emblib.Base.Parts.{take-all}
use emblib.Base.Words.{out_of_range, take-snoc}

module _ {W : Type 0} where
  -- A call of `load` that is not interrupted, for values of `n` words.
  abbrev pub load_call : ℕ → List (Action W)
  load_call n = load ∷ replicate (suc n) read_on

  abbrev pub values_loaded : List (Event W) → List (List W)
  values_loaded [] = []
  values_loaded (loaded v ∷ es) = v ∷ values_loaded es
  values_loaded (_ ∷ es) = values_loaded es

  run-append :
      (acts more : List (Action W)) (s : System W)
      → values_loaded (run (acts ++ more) s).1
        ≡ values_loaded (run acts s).1 ++ values_loaded (run more (run acts s).0).1
  unfolding run
  run-append [] more s = refl
  run-append (a ∷ acts) more s =
      let (s', e) = step a s in
      event e (run (acts ++ more) s').1 (run acts s').1 _ (run-append acts more s')
    where
      event :
          (e : Event W) (whole part : List (Event W)) (rest : List (List W))
          → values_loaded whole ≡ values_loaded part ++ rest
          → values_loaded (e ∷ whole) ≡ values_loaded (e ∷ part) ++ rest
      event silent whole part rest h = h
      event (Event.stored v) whole part rest h = h
      event (loaded v) whole part rest h = ap (◌∷◌ v) h

  -- A call of `load` under way, with the words copied so far.
  abbrev pub copying : ℕ → List W → System W → System W
  copying i copied s = record s { reader = reading i copied }

  abbrev pub Returns : List (List W) → System W → System W × List (Event W) → Type 0
  Returns values s r = (values_loaded r.1 ≡ values) × (r.0 ≡ s)

  -- The words that are still to come are read one by one.
  reads_on :
      (k i : ℕ) (s : System W)
      → i + k ≡ length (get_or s.buf s.read [])
      → Returns
          (get_or s.buf s.read [] ∷ [])
          (record s { reader = Reader.idle })
          (run (replicate (suc k) read_on) (copying i (take i (get_or s.buf s.read [])) s))
  unfolding run step
  reads_on zero i s left =
      let b = get_or s.buf s.read [] in
      rw (get_elem?_above b i (omega arith)) (ap (λ v. v ∷ []) (take-all i b (omega arith)), refl)
  reads_on (suc k) i s left =
      let b = get_or s.buf s.read [] in
      elim (Option-cases (get_elem? b i)) [
        | inl past ↦ absurd (omega (arith, out_of_range b i past))
        | inr (x, word) ↦
            let c = take i b in
            let next : step read_on (copying i c s) ≡ (copying (suc i) (take (suc i) b) s, silent) =
              ap (λ o. read_word i c o (copying i c s)) word
              ∙ ap (λ d. (copying (suc i) d s, silent)) (take-snoc b i x word) in
            let acts : List (Action W) = replicate (suc k) read_on in
            subst
              (λ r.
                Returns (b ∷ []) (record s { reader = Reader.idle })
                  ((run acts r.0).0, r.1 ∷ (run acts r.0).1))
              (sym next) (reads_on k (suc i) s (omega arith))
      ]

  -- The exchange that a load begins with.
  abbrev pub exchanged : System W → System W
  exchanged s = record s { read = s.shared; shared = s.read; reader = Reader.idle }

  -- A load that is not interrupted returns the shared buffer, and the reader keeps it.
  one_load :
      (n : ℕ) (s : System W)
      → s.reader ≡ Reader.idle
      → length (get_or s.buf s.shared []) ≡ n
      → Returns (get_or s.buf s.shared [] ∷ []) (exchanged s) (run (load_call n) s)
  unfolding run step
  one_load n s at size =
      let acts : List (Action W) = replicate (suc n) read_on in
      subst (λ t. Returns (get_or s.buf s.shared [] ∷ []) (exchanged s) (run acts t))
        (sym (ap (λ r. begin_load r s) at)) (reads_on n 0 (exchanged s) (omega arith))

  -- With no store between them, a load returns the shared value, and the next load returns the
  -- value that the reader had before: the older one, where a store came between that and the shared
  -- one.
  pub second_load_goes_back :
      (n : ℕ) (s : System W)
      → s.reader ≡ Reader.idle
      → length (get_or s.buf s.shared []) ≡ n
      → length (get_or s.buf s.read []) ≡ n
      → values_loaded (run (load_call n ++ load_call n) s).1
        ≡ get_or s.buf s.shared [] ∷ get_or s.buf s.read [] ∷ []
  second_load_goes_back n s at shared_size read_size =
      let (values, state) = one_load n s at shared_size in
      run-append (load_call n) (load_call n) s
      ∙ ap (λ l. l ++ values_loaded (run (load_call n) (run (load_call n) s).0).1) values
      ∙ ap (λ t. get_or s.buf s.shared [] ∷ values_loaded (run (load_call n) t).1) state
      ∙ ap (◌∷◌ (get_or s.buf s.shared [])) (one_load n (exchanged s) refl read_size).0
