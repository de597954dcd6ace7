-- ===== src/Concurrent/SpscQueue/Refine.antt =====
-- Every schedule of the two threads, against the FIFO.
use emblib.Base.{
  ℕ, ◌%◌, ◌≤◌, ◌≡◌, refl, ap, sym, ◌∙◌, length, some, List, [], ◌∷◌, arith, length-replicate, subst,
  length-append, get_or-replicate, none,
}
use emblib.Container.View.{ring_index}
use emblib.Concurrent.SpscQueue.{
  System, Producer, Consumer, loaded, pop_loaded, peek_loaded, clear_loaded, Event, silent, Action,
  try_push, try_pop, peek, clear, produce, consume, capacity, begin, begin_push, begin_clear,
  clear_called, init, step, run,
}
use emblib.Concurrent.SpscQueue.Spec.{FifoStep, waits, clear_begins, Explains, nothing, then}
use emblib.Concurrent.SpscQueue.Inv.{
  Inv, mark, unpublished, capacity-le, capacity-pos, gone, ConsumerKnows,
}
use emblib.Concurrent.SpscQueue.Moves.{Stepped, at_producer, produce-Stepped}
use emblib.Concurrent.SpscQueue.Front.{at_consumer}
use emblib.Concurrent.SpscQueue.Takes.{consume-Stepped}

module _ {ℓ} {A : Type ℓ} (k : ℕ) where
  init-Inv : k ≤ 31 → Inv {A = A} k (init k) []
  unfolding init
  init-Inv h = record {
    width = h;
    front_fits = omega arith;
    back_at = refl;
    fits = omega arith;
    view = record {
      small = capacity-le k h;
      front_in = omega (arith, capacity-pos k h);
      whole = length-replicate (capacity k) none;
      at = λ j hj.
          get_or-replicate (capacity k) (ring_index (capacity k) (0 % capacity k) j) none
          ∙ ground arith;
    };
    producer_knows = tt;
    consumer_knows = tt;
  }

  begin_push-Stepped :
      (x : A) (p : Producer A) (s : System A) (xs : List A)
      → s.producer ≡ p
      → Inv k s xs
      → Stepped k (some (begin_push x p s, silent)) xs (mark s.front s.consumer)
  begin_push-Stepped x Producer.idle s xs e h =
      (_, silent, xs, refl, waits, at_producer h (ap unpublished e) refl)
  begin_push-Stepped x (loaded y b) s xs e h = (s, silent, xs, refl, waits, h)
  begin_push-Stepped x other s xs e h = (s, silent, xs, refl, waits, h)

  -- A call of the consumer that begins, or is ignored.
  begin-Stepped :
      (c' c : Consumer A) (s : System A) (xs : List A)
      → s.consumer ≡ c
      → gone {A = A} s.front c' ≡ 0
      → mark {A = A} s.front c' ≡ 0
      → ConsumerKnows s.front xs c'
      → Inv k s xs
      → Stepped k (some (begin c' c s, silent)) xs (mark s.front c)
  begin-Stepped c' Consumer.idle s xs e g unmarked q h = (
    _,
    silent,
    xs,
    refl,
    subst (λ m. FifoStep (capacity k) xs 0 silent xs m) (sym unmarked) waits,
    at_consumer h (ap (gone s.front) e ∙ sym g) q,
  )
  begin-Stepped c' other s xs e g unmarked q h = (
    s,
    silent,
    xs,
    refl,
    subst (λ c. FifoStep (capacity k) xs (mark s.front other) silent xs (mark s.front c)) (sym e)
        waits,
    h,
  )

  begin_clear-Stepped :
      (c : Consumer A) (s : System A) (xs : List A)
      → s.consumer ≡ c
      → Inv k s xs
      → Stepped k (some (begin_clear c s)) xs (mark s.front c)
  begin_clear-Stepped Consumer.idle s xs e h =
      let marked : length xs ≡ mark {A = A} s.front (clear_loaded s.back) = omega (
        arith,
        h.back_at,
        h.front_fits,
        h.fits,
        length-append xs (unpublished s.producer),
        capacity-le k h.width,
      ) in
      (
        _,
        clear_called,
        xs,
        refl,
        subst (λ m. FifoStep (capacity k) xs 0 clear_called xs m) marked clear_begins,
        at_consumer h (ap (gone s.front) e) (length xs, h.back_at, omega arith, tt),
      )
  begin_clear-Stepped other s xs e h = (
    s,
    silent,
    xs,
    refl,
    subst (λ c. FifoStep (capacity k) xs (mark s.front other) silent xs (mark s.front c)) (sym e)
        waits,
    h,
  )

  -- Whatever thread moves, the step goes through and the FIFO explains it.
  pub step-Stepped :
      (a : Action A) (s : System A) (xs : List A)
      → Inv k s xs
      → Stepped k (step k a s) xs (mark s.front s.consumer)
  unfolding step
  step-Stepped (try_push x) s xs h = begin_push-Stepped x s.producer s xs refl h
  step-Stepped try_pop s xs h =
      begin-Stepped (pop_loaded s.front) s.consumer s xs refl refl refl (refl, tt) h
  step-Stepped peek s xs h =
      begin-Stepped (peek_loaded s.front) s.consumer s xs refl refl refl (refl, tt) h
  step-Stepped clear s xs h = begin_clear-Stepped s.consumer s xs refl h
  step-Stepped produce s xs h = produce-Stepped k s.slots s.front s.back s.consumer xs s.producer h
  step-Stepped consume s xs h = consume-Stepped k s.slots s.front s.back s.producer xs s.consumer h

  run_from :
      (acts : List (Action A)) (s : System A) (xs : List A)
      → Inv k s xs
      → (t : System A) × (es : List (Event A)) × (ys : List A) × (run k acts s ≡ some (t, es))
        × Explains (capacity k) xs (mark s.front s.consumer) es ys (mark t.front t.consumer)
        × Inv k t ys
  unfolding run
  run_from [] s xs h = (s, [], xs, refl, nothing, h)
  run_from (a ∷ acts) s xs h =
      let (t, e, ys, eq, st, h') = step-Stepped a s xs h in
      let (u, es, zs, eq', ex, h'') = run_from acts t ys h' in
      (u, e ∷ es, zs, rw (eq, eq'), then st ex, h'')

  -- Whatever the schedule of the two threads, no step faults, and the bounded FIFO explains the
  -- results of all calls in the order in which they take effect. A clear removes the elements that the
  -- FIFO held when it was called, and leaves those pushed meanwhile.
  pub run_explained :
      (acts : List (Action A))
      → k ≤ 31
      → (t : System A) × (es : List (Event A)) × (ys : List A) × (run k acts (init k)
          ≡ some (t, es))
        × Explains (capacity k) [] 0 es ys (mark t.front t.consumer)
        × Inv k t ys
  unfolding init
  run_explained acts h = run_from acts (init k) [] (init-Inv h)
