-- ===== src/Concurrent/DoubleBuffer/Whole.antt =====
-- When a load of emb/concurrent/double_buffer.hpp returns a value as a whole.
use emblib.Base.{
  ℕ, zero, suc, ◌<◌, ◌≡◌, refl, none, some, Option, List, [], ◌∷◌, arith, get_elem?, get_or, length,
}
use emblib.Concurrent.DoubleBuffer.{
  Writer, Reader, reading, System, silent, Action, store, load, write_on, read_on, init, begin_load,
  continue_load, read_word, step, run,
}
use emblib.Concurrent.DoubleBuffer.Phase.{Phase, out, fresh, moved, AreCalm, AreRight}
use emblib.Concurrent.DoubleBuffer.Inv.{Inv, reading_on, read_all}
use emblib.Concurrent.DoubleBuffer.Stores.{Kept, at, begin_store-Kept, continue_store-Kept}

module _ {W : Type 0} where
  both : (v : List W) (j : ℕ) → j < 2 → length (get_or (v ∷ v ∷ []) j []) ≡ length v
  both v zero h = refl
  both v (suc zero) h = refl
  both v (suc (suc j)) h = absurd (omega arith)

  module _ (n : ℕ) where
    begin_load-Kept :
        (cur : List W) (p : Phase W) (buf : List (List W)) (front : ℕ) (w : Writer W) (r : Reader W)
        → Inv n cur p (at buf front w r)
        → Kept n cur p (begin_load r (at buf front w r), silent)
    begin_load-Kept cur out buf front w Reader.idle inv calm = (
      tt,
      record {
        two = inv.two;
        front_in = inv.front_in;
        sized = inv.sized;
        front_is = inv.front_is;
        writer_knows = inv.writer_knows;
        reader_knows = tt;
      },
    )
    begin_load-Kept cur (fresh _) buf front w Reader.idle inv calm = absurd inv.reader_knows
    begin_load-Kept cur (moved _) buf front w Reader.idle inv calm = absurd inv.reader_knows
    begin_load-Kept cur p buf front w Reader.called inv calm = (tt, inv)
    begin_load-Kept cur p buf front w (reading _ _ _) inv calm = (tt, inv)

    read_word-Kept :
        (f i : ℕ) (copied : List W) (o : Option W) (cur : List W) (p : Phase W)
        (buf : List (List W)) (front : ℕ) (w : Writer W)
        → get_elem? (get_or buf f []) i ≡ o
        → Inv n cur p (at buf front w (reading f i copied))
        → Kept n cur p (read_word f i copied o (at buf front w (reading f i copied)))
    read_word-Kept f i copied (some x) cur p buf front w e inv calm = (
      tt,
      record {
        two = inv.two;
        front_in = inv.front_in;
        sized = inv.sized;
        front_is = inv.front_is;
        writer_knows = inv.writer_knows;
        reader_knows = reading_on n buf front f i copied cur w p x e inv.front_is inv.reader_knows;
      },
    )
    read_word-Kept f i copied none cur p buf front w e inv calm = (
      read_all n buf front f i copied cur w p e inv.front_is inv.reader_knows,
      record {
        two = inv.two;
        front_in = inv.front_in;
        sized = inv.sized;
        front_is = inv.front_is;
        writer_knows = inv.writer_knows;
        reader_knows = tt;
      },
    )

    continue_load-Kept :
        (cur : List W) (p : Phase W) (buf : List (List W)) (front : ℕ) (w : Writer W) (r : Reader W)
        → Inv n cur p (at buf front w r)
        → Kept n cur p (continue_load r (at buf front w r))
    continue_load-Kept cur p buf front w Reader.idle inv calm = (tt, inv)
    continue_load-Kept cur p buf front w Reader.called inv calm = (
      tt,
      record {
        two = inv.two;
        front_in = inv.front_in;
        sized = inv.sized;
        front_is = inv.front_is;
        writer_knows = inv.writer_knows;
        reader_knows = (refl, refl, refl);
      },
    )
    continue_load-Kept cur p buf front w (reading f i copied) inv calm =
        read_word-Kept f i copied (get_elem? (get_or buf f []) i) cur p buf front w refl inv calm

    abbrev pub AllSized : List (Action W) → Type 0
    AllSized [] = Unit
    AllSized (store v ∷ acts) = (length v ≡ n) × AllSized acts
    AllSized (_ ∷ acts) = AllSized acts

    run-AreRight :
        (acts : List (Action W)) (cur : List W) (p : Phase W) (s : System W)
        → AllSized acts
        → Inv n cur p s
        → AreCalm cur p (run acts s).1
        → AreRight cur p (run acts s).1
    unfolding run step
    run-AreRight [] cur p s sized inv calm = tt
    run-AreRight (store v ∷ acts) cur p s (size, sized) inv (calm, rest) =
        let (right, inv') =
          begin_store-Kept v cur p s.buf s.front s.writer s.reader size inv calm in
        (right, run-AreRight acts _ _ _ sized inv' rest)
    run-AreRight (load ∷ acts) cur p s sized inv (calm, rest) =
        let (right, inv') = begin_load-Kept cur p s.buf s.front s.writer s.reader inv calm in
        (right, run-AreRight acts _ _ _ sized inv' rest)
    run-AreRight (write_on ∷ acts) cur p s sized inv (calm, rest) =
        let (right, inv') = continue_store-Kept cur p s.buf s.front s.writer s.reader inv calm in
        (right, run-AreRight acts _ _ _ sized inv' rest)
    run-AreRight (read_on ∷ acts) cur p s sized inv (calm, rest) =
        let (right, inv') = continue_load-Kept cur p s.buf s.front s.writer s.reader inv calm in
        (right, run-AreRight acts _ _ _ sized inv' rest)

  -- For values of a fixed size, under any schedule of a writer and a reader in which no store begins to
  -- write between the first commit during a load and the end of that load: each load returns, as a
  -- whole, the value that was current when it read `front_`.
  pub calm_loads_are_whole :
      (acts : List (Action W)) (v : List W)
      → AllSized (length v) acts
      → AreCalm v out (run acts (init v)).1
      → AreRight v out (run acts (init v)).1
  unfolding init
  calm_loads_are_whole acts v sized calm =
      run-AreRight (length v) acts v out (init v) sized
        (record {
          two = refl;
          front_in = omega arith;
          sized = both v;
          front_is = refl;
          writer_knows = tt;
          reader_knows = tt;
        })
        calm
