-- ===== src/Concurrent/Seqlock/Progress.antt =====
-- A load of a sequence lock returns once the writer is between two calls.
use emblib.Base.{
  ℕ, zero, suc, ◌+◌, ◌-◌, ◌*◌, ◌%◌, ◌≤◌, ◌<◌, ◌≡◌, ◌≢◌, refl, Bool, true, false, ◌&&◌, not, inl,
  inr, Bool-cases, Option-cases, List, [], ◌∷◌, ◌++◌, arith, ◌==◌, get_elem?, length, replicate,
}
use emblib.Base.Words.{in_range}
use emblib.Concurrent.Seqlock.{
  Kind, isr, threads, Writer, Reader, polling, copying, System, Event, loaded, read_on, is_odd,
  poll, step, run,
}

module _ {W : Type 0} where
  abbrev pub has_loaded : List (Event W) → Bool
  has_loaded [] = false
  has_loaded (loaded v ∷ es) = true
  has_loaded (_ ∷ es) = has_loaded es

  poll_even : (kind : Kind) (seq : ℕ) → seq % 2 ≡ 0 → poll {W = W} kind seq ≡ copying seq 0 []
  poll_even isr seq h = refl
  poll_even threads seq h = let e : is_odd seq ≡ false = ground arith in rw e refl

  module _ (kind : Kind) (seq : ℕ) (value : List W) (w : Writer W) where
    abbrev at : Reader W → System W
    at r = record { seq = seq; value = value; writer = w; reader = r }

    -- Whether a load returns within some steps of the reader.
    abbrev returns : ℕ → Reader W → Bool
    returns fuel r = has_loaded (run kind (replicate fuel read_on) (at r)).1

    even_accepted : seq % 2 ≡ 0 → (seq == seq && not (is_odd seq)) ≡ true
    even_accepted h = ground arith

    copy_returns :
        (fuel k i : ℕ) (copied : List W)
        → seq % 2 ≡ 0
        → length value ≤ i + k
        → k < fuel
        → returns fuel (copying seq i copied) ≡ true
    unfolding run step
    copy_returns zero k i copied even h enough = absurd (omega arith)
    copy_returns (suc fuel) k i copied even h enough = elim (Option-cases (get_elem? value i)) [
      | inl e ↦ rw (e, even_accepted even) refl
      | inr (x, e) ↦
          let inside = in_range value i x e in
          rw e
            (copy_returns fuel (k - 1) (suc i) (copied ++ x ∷ []) even (omega arith) (omega arith))
    ]

    poll_returns : (fuel : ℕ) → seq % 2 ≡ 0 → length value + 1 < fuel → returns fuel polling ≡ true
    unfolding run step
    poll_returns zero even h = absurd (omega arith)
    poll_returns (suc fuel) even h =
        rw (poll_even kind seq even)
          (copy_returns fuel (length value) 0 [] even (omega arith) (omega arith))

    stale_returns :
        (fuel k s1 i : ℕ) (copied : List W)
        → seq % 2 ≡ 0
        → length value ≤ i + k
        → k + length value + 2 < fuel
        → returns fuel (copying s1 i copied) ≡ true
    unfolding run step
    stale_returns zero k s1 i copied even h enough = absurd (omega arith)
    stale_returns (suc fuel) k s1 i copied even h enough = elim (Option-cases (get_elem? value i)) [
      | inl e ↦ elim (Bool-cases (s1 == seq && not (is_odd s1))) [
        | inl ok ↦ rw (e, ok) refl
        | inr again ↦ rw (e, again) (poll_returns fuel even (omega arith))
      ]
      | inr (x, e) ↦
          let inside = in_range value i x e in
          rw e (
            stale_returns fuel (k - 1) s1 (suc i) (copied ++ x ∷ []) even (omega arith)
              (omega arith))
    ]

  by_stage :
      (kind : Kind) (seq : ℕ) (value : List W) (w : Writer W) (r : Reader W)
      → seq % 2 ≡ 0
      → r ≢ Reader.idle
      → returns kind seq value w (2 * length value + 4) r ≡ true
  by_stage kind seq value w Reader.idle even loading = absurd (loading refl)
  by_stage kind seq value w polling even loading =
      poll_returns kind seq value w _ even (omega arith)
  by_stage kind seq value w (copying s1 i copied) even loading =
      stale_returns kind seq value w _ (length value) s1 i copied even (omega arith) (omega arith)

  -- In any state whose sequence number is even, a load that has begun, from whatever number and words
  -- it has read before, returns within 2 n + 4 steps of its own for a value of n words, if the writer
  -- takes none meanwhile.
  pub load_returns :
      (kind : Kind) (s : System W)
      → s.seq % 2 ≡ 0
      → s.reader ≢ Reader.idle
      → has_loaded (run kind (replicate (2 * length s.value + 4) read_on) s).1 ≡ true
  load_returns kind s even loading = by_stage kind s.seq s.value s.writer s.reader even loading
