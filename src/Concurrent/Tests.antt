-- ===== src/Concurrent/Tests.antt =====
-- Schedules of the concurrent structures, and instances of what is proved of them.
use emblib.Base.{
  ℕ, suc, ◌≡◌, refl, ap, ◌∙◌, true, some, List, [], ◌∷◌, ◌++◌, map, arith, length, get_elem?,
  replicate,
}
use emblib.Concurrent.SpscQueue
use emblib.Concurrent.SpscQueue.{Action, Event, System}
use emblib.Concurrent.SpscQueue.Spec.{Explains}
use emblib.Concurrent.DoubleBuffer
use emblib.Concurrent.DoubleBuffer.Phase.{out, AreRight}
use emblib.Concurrent.DoubleBuffer.Whole.{calm_loads_are_whole}
use emblib.Concurrent.Seqlock
use emblib.Concurrent.Seqlock.Progress.{has_loaded, load_returns}
use emblib.Concurrent.Seqlock.Refine.{at_rest, loads_are_current}
use emblib.Concurrent.Seqlock.Register.{Explained, AllFit}
use emblib.Concurrent.TripleBuffer
use emblib.Concurrent.TripleBuffer.Whole.{LoadsAreWhole, loads_are_whole}
use emblib.Concurrent.TripleBuffer.Repeated.{load_call, values_loaded, second_load_goes_back}

-- A pop that runs into the middle of a push, and finds the queue empty; and a push of 7 in the middle
-- of a clear, which removes 6.
abbrev interleaved : List (Action ℕ)
interleaved =
    Action.try_push 5
    ∷ Action.produce
    ∷ Action.try_pop
    ∷ Action.produce
    ∷ Action.consume
    ∷ Action.produce
    ∷ Action.try_pop
    ∷ Action.consume
    ∷ Action.consume
    ∷ Action.consume
    ∷ Action.consume
    ∷ Action.try_push 6
    ∷ Action.produce
    ∷ Action.produce
    ∷ Action.produce
    ∷ Action.clear
    ∷ Action.try_push 7
    ∷ Action.produce
    ∷ Action.produce
    ∷ Action.produce
    ∷ Action.consume
    ∷ Action.consume
    ∷ Action.consume
    ∷ []

run_explained_example :
    (t : System ℕ) × (es : List (Event ℕ)) × (ys : List ℕ) × (SpscQueue.run 1 interleaved
        (SpscQueue.init 1)
      ≡ some (t, es))
    × Explains 2 [] 0 es ys (SpscQueue.Inv.mark t.front t.consumer)
    × SpscQueue.Inv.Inv 1 t ys
run_explained_example = SpscQueue.Refine.run_explained 1 interleaved (omega arith)

-- A load of two words that a store interrupts after the first word.
abbrev interrupted_load : List (TripleBuffer.Action ℕ)
interrupted_load =
    TripleBuffer.load
    ∷ TripleBuffer.read_on
    ∷ TripleBuffer.store (7 ∷ 8 ∷ [])
    ∷ TripleBuffer.write_on
    ∷ TripleBuffer.write_on
    ∷ TripleBuffer.write_on
    ∷ TripleBuffer.read_on
    ∷ TripleBuffer.read_on
    ∷ []

loads_are_whole_example :
    LoadsAreWhole
      ((0 ∷ 0 ∷ []) ∷ [])
      (TripleBuffer.run interrupted_load (TripleBuffer.init (0 ∷ 0 ∷ []))).1
loads_are_whole_example = loads_are_whole 2 interrupted_load (0 ∷ 0 ∷ []) refl (refl, tt)

-- The buffers after a store of 7, with the initial 0 at the reader.
abbrev stored_once : TripleBuffer.System ℕ
stored_once = record {
  buf = (0 ∷ []) ∷ (7 ∷ []) ∷ (0 ∷ []) ∷ [];
  shared = 1;
  write = 0;
  read = 2;
  writer = TripleBuffer.Writer.idle;
  reader = TripleBuffer.Reader.idle;
}

second_load_goes_back_example :
    values_loaded (TripleBuffer.run (load_call 1 ++ load_call 1) stored_once).1
    ≡ (7 ∷ []) ∷ (0 ∷ []) ∷ []
second_load_goes_back_example = second_load_goes_back 1 stored_once refl refl refl

-- A load whose copy an update interrupts, from a number that wraps at the end of the update.
abbrev interrupted_rest : List (Seqlock.Action ℕ)
interrupted_rest =
    replicate 3 Seqlock.write_on
    ++ Seqlock.read_on ∷ replicate 2 Seqlock.write_on
    ++ replicate 5 Seqlock.read_on

abbrev interrupted_copy : List (Seqlock.Action ℕ)
interrupted_copy =
    Seqlock.load
    ∷ Seqlock.read_on
    ∷ Seqlock.read_on
    ∷ Seqlock.write (Seqlock.update (map suc))
    ∷ interrupted_rest

-- The load takes the words 7 and 9 first, and then returns 8 and 9.
interrupted_copy_result :
    get_elem? (Seqlock.run Seqlock.threads interrupted_copy (at_rest 4294967294 (7 ∷ 8 ∷ []))).1 14
    ≡ some (Seqlock.loaded (8 ∷ 9 ∷ []))
unfolding Seqlock.run Seqlock.step at_rest
interrupted_copy_result = refl

length-map-suc : (v : List ℕ) → length (map suc v) ≡ length v
length-map-suc [] = refl
length-map-suc (x ∷ xs) = ap suc (length-map-suc xs)

abbrev rest_fits : AllFit 2 (interrupted_rest)
rest_fits = (tt, (tt, (tt, (tt, (tt, (tt, (tt, (tt, (tt, (tt, (tt, tt)))))))))))

loads_are_current_example :
    Explained
      (7 ∷ 8 ∷ [])
      (Seqlock.run Seqlock.threads interrupted_copy (at_rest 4294967294 (7 ∷ 8 ∷ []))).1
loads_are_current_example =
    loads_are_current Seqlock.threads interrupted_copy 4294967294 (7 ∷ 8 ∷ []) (omega arith)
      (omega arith) (omega arith) (tt, (tt, (tt, ((λ v h. length-map-suc v ∙ h), rest_fits))))

-- A load that has copied words of an old number.
abbrev stale_load : Seqlock.System ℕ
stale_load = record {
  seq = 4;
  value = 7 ∷ 8 ∷ [];
  writer = Seqlock.Writer.idle;
  reader = Seqlock.copying 2 1 (3 ∷ []);
}

load_returns_example :
    has_loaded (Seqlock.run Seqlock.isr (replicate 8 Seqlock.read_on) stale_load).1 ≡ true
load_returns_example = load_returns Seqlock.isr stale_load refl (λ e. absurd (cc))

-- A load of a double buffer during which a store is committed.
abbrev committed_within : List (DoubleBuffer.Action ℕ)
committed_within =
    DoubleBuffer.load
      ∷ DoubleBuffer.read_on
      ∷ DoubleBuffer.read_on
      ∷ DoubleBuffer.store (7 ∷ 8 ∷ [])
      ∷ replicate 4 DoubleBuffer.write_on
    ++ DoubleBuffer.store (5 ∷ 6 ∷ []) ∷ replicate 2 DoubleBuffer.read_on

calm_loads_are_whole_example :
    AreRight (1 ∷ 2 ∷ []) out (DoubleBuffer.run committed_within (DoubleBuffer.init (1 ∷ 2 ∷ []))).1
unfolding DoubleBuffer.run DoubleBuffer.step DoubleBuffer.init
calm_loads_are_whole_example =
    calm_loads_are_whole committed_within (1 ∷ 2 ∷ []) (refl, (refl, tt))
      (tt, (tt, (tt, (tt, (tt, (tt, (tt, (tt, (tt, (tt, (tt, tt)))))))))))

-- A second store that begins to write during the load: one commit, and a mixture of two values.
abbrev torn : List (DoubleBuffer.Action ℕ)
torn =
    DoubleBuffer.load ∷ replicate 2 DoubleBuffer.read_on
    ++ DoubleBuffer.store (7 ∷ 8 ∷ []) ∷ replicate 4 DoubleBuffer.write_on
    ++ DoubleBuffer.store (5 ∷ 6 ∷ []) ∷ replicate 3 DoubleBuffer.write_on
    ++ replicate 2 DoubleBuffer.read_on

torn_result :
    get_elem? (DoubleBuffer.run torn (DoubleBuffer.init (1 ∷ 2 ∷ []))).1 13
    ≡ some (DoubleBuffer.loaded (1 ∷ 6 ∷ []))
unfolding DoubleBuffer.run DoubleBuffer.step DoubleBuffer.init
torn_result = refl
