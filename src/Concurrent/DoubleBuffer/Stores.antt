-- ===== src/Concurrent/DoubleBuffer/Stores.antt =====
-- The writer's steps of emb/concurrent/double_buffer.hpp, while a load is calm.
use emblib.Base.{
  ℕ, suc, ◌-◌, ◌≤◌, ◌<◌, ◌≡◌, inl, inr, refl, ap, sym, ◌∙◌, none, some, Option, List, [], arith,
  get_elem?, get_or, set, length, length-set, take, get_or-set,
}
use emblib.Base.Parts.{take-all}
use emblib.Base.Words.{set_other, set_same, in_range, out_of_range, take-set}
use emblib.Concurrent.DoubleBuffer.{
  Writer, Reader, writing, System, Event, silent, begin_store, continue_store, write_word,
}
use emblib.Concurrent.DoubleBuffer.Phase.{Phase, next, after, IsCalm, IsRight}
use emblib.Concurrent.DoubleBuffer.Inv.{Inv, reader_keeps, not_moved, reader_commits}

module _ {W : Type 0} where
  abbrev pub Kept : ℕ → List W → Phase W → System W × Event W → Type 0
  Kept n cur p r = IsCalm r.1 p → IsRight r.1 p × Inv n (after cur r.1) (next cur p r.1) r.0

  abbrev pub at : List (List W) → ℕ → Writer W → Reader W → System W
  at buf front w r = record { buf = buf; front = front; writer = w; reader = r }

  module _ {n : ℕ} where
    pub begin_store-Kept :
        (v cur : List W) (p : Phase W) (buf : List (List W)) (front : ℕ) (w : Writer W)
        (r : Reader W)
        → length v ≡ n
        → Inv n cur p (at buf front w r)
        → Kept n cur p (begin_store v w (at buf front w r), silent)
    begin_store-Kept v cur p buf front Writer.idle r size inv calm = (
      tt,
      record {
        two = inv.two;
        front_in = inv.front_in;
        sized = inv.sized;
        front_is = inv.front_is;
        writer_knows = size;
        reader_knows =
            reader_keeps n buf buf front cur Writer.idle (Writer.called v) p r (inr (refl, tt))
              inv.reader_knows;
      },
    )
    begin_store-Kept v cur p buf front (Writer.called _) r size inv calm = (tt, inv)
    begin_store-Kept v cur p buf front (writing _ _ _) r size inv calm = (tt, inv)

    write_word-Kept :
        (v : List W) (back i : ℕ) (o : Option W) (cur : List W) (p : Phase W) (buf : List (List W))
        (front : ℕ) (r : Reader W)
        → get_elem? v i ≡ o
        → Inv n cur p (at buf front (writing v back i) r)
        → Kept n cur p (write_word v back i o (at buf front (writing v back i) r))
    write_word-Kept v back i (some x) cur p buf front r e inv calm =
        let (is, size, low, same) = inv.writer_knows in
        let front_in = inv.front_in in
        let two = inv.two in
        let room : back < length buf = omega arith in
        let b = set (get_or buf back []) i x in
        let small = inv.sized back (omega arith) in
        let inside = in_range v i x e in
        (
          tt,
          record {
            two = length-set buf back b ∙ two;
            front_in = front_in;
            sized = λ j h. ground (
              arith,
              get_or-set buf back j b [] room,
              inv.sized j h,
              length-set (get_or buf back []) i x,
            );
            front_is = set_other buf back front b room (λ q. absurd (omega arith)) ∙ inv.front_is;
            writer_knows = (
              is,
              size,
              omega arith,
              ap (take (suc i)) (set_same buf back b room)
                  ∙ take-set (get_or buf back []) v i x e (omega arith) same,
            );
            reader_knows =
                reader_keeps n buf (set buf back b) front cur (writing v back i)
                  (writing v back (suc i)) p r
                  (inl (not_moved n buf front cur v back i p r inv.reader_knows)) inv.reader_knows;
          },
        )
    write_word-Kept v back i none cur p buf front r e inv calm =
        let (is, size, low, same) = inv.writer_knows in
        let front_in = inv.front_in in
        let small = inv.sized back (omega arith) in
        let end : n ≤ i = let o = out_of_range v i e in omega arith in
        (
          tt,
          record {
            two = inv.two;
            front_in = omega arith;
            sized = inv.sized;
            front_is =
                sym (take-all i (get_or buf back []) (omega arith))
                ∙ same
                ∙ take-all i v (omega arith);
            writer_knows = tt;
            reader_knows =
                reader_commits n buf front back cur v (writing v back i) p r front_in is
                  inv.front_is (not_moved n buf front cur v back i p r inv.reader_knows)
                  inv.reader_knows;
          },
        )

    pub continue_store-Kept :
        (cur : List W) (p : Phase W) (buf : List (List W)) (front : ℕ) (w : Writer W) (r : Reader W)
        → Inv n cur p (at buf front w r)
        → Kept n cur p (continue_store w (at buf front w r))
    continue_store-Kept cur p buf front Writer.idle r inv calm = (tt, inv)
    continue_store-Kept cur p buf front (Writer.called v) r inv calm = (
      tt,
      record {
        two = inv.two;
        front_in = inv.front_in;
        sized = inv.sized;
        front_is = inv.front_is;
        writer_knows = (refl, inv.writer_knows, omega arith, refl);
        reader_knows =
            reader_keeps n buf buf front cur (Writer.called v) (writing v (1 - front) 0) p r
              (inl calm) inv.reader_knows;
      },
    )
    continue_store-Kept cur p buf front (writing v back i) r inv calm =
        write_word-Kept v back i (get_elem? v i) cur p buf front r refl inv calm
