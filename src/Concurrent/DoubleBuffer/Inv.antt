-- ===== src/Concurrent/DoubleBuffer/Inv.antt =====
-- What holds between two steps of emb/concurrent/double_buffer.hpp.
use emblib.Base.{
  ℕ, suc, ◌-◌, ◌≤◌, ◌<◌, ◌≡◌, ◌⊎◌, inl, inr, ap, sym, ◌∙◌, none, some, List, [], ◌∷◌, ◌++◌, arith,
  get_elem?, get_or, length, take,
}
use emblib.Base.Parts.{take-all}
use emblib.Base.Words.{out_of_range, take-snoc}
use emblib.Concurrent.DoubleBuffer.{Writer, Reader, writing, reading, System}
use emblib.Concurrent.DoubleBuffer.Phase.{Phase, out, fresh, moved, committed, HasNotMoved, HasSnap}

module _ {W : Type 0} (n : ℕ) where
  abbrev pub WriterKnows : List (List W) → ℕ → Writer W → Type 0
  WriterKnows buf front Writer.idle = Unit
  WriterKnows buf front (Writer.called v) = length v ≡ n
  WriterKnows buf front (writing v back i) =
      (back ≡ 1 - front) × (length v ≡ n) × (i ≤ n) × (take i (get_or buf back []) ≡ take i v)

  abbrev pub IsWaiting : Writer W → Type 0
  IsWaiting (writing v back i) = ⊥
  IsWaiting _ = Unit

  abbrev pub ReaderKnows : List (List W) → ℕ → List W → Writer W → Phase W → Reader W → Type 0
  ReaderKnows buf front cur w out (reading f i copied) = ⊥
  ReaderKnows buf front cur w out _ = Unit
  ReaderKnows buf front cur w (fresh snap) (reading f i copied) =
      (f ≡ front) × (snap ≡ cur) × (copied ≡ take i snap)
  ReaderKnows buf front cur w (fresh snap) _ = ⊥
  ReaderKnows buf front cur w (moved snap) (reading f i copied) =
      (f ≡ 1 - front) × (get_or buf f [] ≡ snap) × (copied ≡ take i snap) × IsWaiting w
  ReaderKnows buf front cur w (moved snap) _ = ⊥

  pub record Inv (cur : List W) (p : Phase W) (s : System W) : Type 0 where
    pub two : length s.buf ≡ 2
    pub front_in : s.front < 2
    pub sized : (j : ℕ) → j < 2 → length (get_or s.buf j []) ≡ n
    pub front_is : get_or s.buf s.front [] ≡ cur
    pub writer_knows : WriterKnows s.buf s.front s.writer
    pub reader_knows : ReaderKnows s.buf s.front cur s.writer p s.reader

  -- What the reader counts on does not change with the writer's steps before a change of `front_`.
  pub reader_keeps :
      (buf buf' : List (List W)) (front : ℕ) (cur : List W) (w w' : Writer W) (p : Phase W)
      (r : Reader W)
      → HasNotMoved p ⊎ ((buf' ≡ buf) × IsWaiting w')
      → ReaderKnows buf front cur w p r
      → ReaderKnows buf' front cur w' p r
  reader_keeps buf buf' front cur w w' out Reader.idle h k = k
  reader_keeps buf buf' front cur w w' out Reader.called h k = k
  reader_keeps buf buf' front cur w w' out (reading f i copied) h k = k
  reader_keeps buf buf' front cur w w' (fresh snap) Reader.idle h k = k
  reader_keeps buf buf' front cur w w' (fresh snap) Reader.called h k = k
  reader_keeps buf buf' front cur w w' (fresh snap) (reading f i copied) h k = k
  reader_keeps buf buf' front cur w w' (moved snap) Reader.idle h k = k
  reader_keeps buf buf' front cur w w' (moved snap) Reader.called h k = k
  reader_keeps buf buf' front cur w w' (moved snap) (reading f i copied) (inl n) k = absurd n
  reader_keeps buf buf' front cur w w' (moved snap) (reading f i copied) (inr (e, h))
        (is, old, same, _) =
      (is, ap (λ b. get_or b f []) e ∙ old, same, h)

  pub not_moved :
      (buf : List (List W)) (front : ℕ) (cur v : List W) (back i : ℕ) (p : Phase W) (r : Reader W)
      → ReaderKnows buf front cur (writing v back i) p r
      → HasNotMoved p
  not_moved buf front cur v back i out r k = tt
  not_moved buf front cur v back i (fresh snap) r k = tt
  not_moved buf front cur v back i (moved snap) Reader.idle k = k
  not_moved buf front cur v back i (moved snap) Reader.called k = k
  not_moved buf front cur v back i (moved snap) (reading f j copied) k = k.3

  -- The change of `front_`.
  pub reader_commits :
      (buf : List (List W)) (front back : ℕ) (cur v : List W) (w : Writer W) (p : Phase W)
      (r : Reader W)
      → front < 2
      → back ≡ 1 - front
      → get_or buf front [] ≡ cur
      → HasNotMoved p
      → ReaderKnows buf front cur w p r
      → ReaderKnows buf back v Writer.idle (committed p) r
  reader_commits buf front back cur v w out Reader.idle h e is n k = tt
  reader_commits buf front back cur v w out Reader.called h e is n k = tt
  reader_commits buf front back cur v w out (reading f i copied) h e is n k = k
  reader_commits buf front back cur v w (fresh snap) Reader.idle h e is n k = k
  reader_commits buf front back cur v w (fresh snap) Reader.called h e is n k = k
  reader_commits buf front back cur v w (fresh snap) (reading f i copied) h e is n
        (at_front, same, c) =
      (omega arith, ap (λ j. get_or buf j []) at_front ∙ is ∙ sym same, c, tt)
  reader_commits buf front back cur v w (moved snap) r h e is n k = absurd n

  pub reading_on :
      (buf : List (List W)) (front f i : ℕ) (copied cur : List W) (w : Writer W) (p : Phase W)
      (x : W)
      → get_elem? (get_or buf f []) i ≡ some x
      → get_or buf front [] ≡ cur
      → ReaderKnows buf front cur w p (reading f i copied)
      → ReaderKnows buf front cur w p (reading f (suc i) (copied ++ x ∷ []))
  reading_on buf front f i copied cur w out x e is k = k
  reading_on buf front f i copied cur w (fresh snap) x e is (at_front, same, c) =
      let here : get_or buf f [] ≡ snap = ap (λ j. get_or buf j []) at_front ∙ is ∙ sym same in
      (
        at_front,
        same,
        ap (λ c. c ++ x ∷ []) c ∙ take-snoc snap i x (ap (λ b. get_elem? b i) (sym here) ∙ e),
      )
  reading_on buf front f i copied cur w (moved snap) x e is (at_back, old, c, h) = (
    at_back,
    old,
    ap (λ c. c ++ x ∷ []) c ∙ take-snoc snap i x (ap (λ b. get_elem? b i) (sym old) ∙ e),
    h,
  )

  pub read_all :
      (buf : List (List W)) (front f i : ℕ) (copied cur : List W) (w : Writer W) (p : Phase W)
      → get_elem? (get_or buf f []) i ≡ none
      → get_or buf front [] ≡ cur
      → ReaderKnows buf front cur w p (reading f i copied)
      → HasSnap p copied
  read_all buf front f i copied cur w out e is k = k
  read_all buf front f i copied cur w (fresh snap) e is (at_front, same, c) =
      let here : get_or buf f [] ≡ snap = ap (λ j. get_or buf j []) at_front ∙ is ∙ sym same in
      c ∙ take-all i snap (out_of_range snap i (ap (λ b. get_elem? b i) (sym here) ∙ e))
  read_all buf front f i copied cur w (moved snap) e is (at_back, old, c, h) =
      c ∙ take-all i snap (out_of_range snap i (ap (λ b. get_elem? b i) (sym old) ∙ e))
