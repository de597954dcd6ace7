-- ===== src/Concurrent/SpscQueue/Takes.antt =====
-- One step of the consumer.
use emblib.Base.{
  ℕ, ◌+◌, ◌%◌, ◌≤◌, ◌≡◌, refl, ◌∙◌, ap, subst, List, arith, length, length-append, take, drop,
  false, ◌==◌,
}
use native.Mathlib.Decide.{ℕ_discrete}
use emblib.Container.Slots.{Slots, destroy_at-some}
use emblib.Base.Parts.{length-take, take-append-drop, no_elements, starts_with}
use emblib.Container.Loops.{get_elem?_below}
use emblib.Concurrent.SpscQueue.{
  Producer, Consumer, pop_loaded, pop_found, pop_moved, pop_destroyed, peek_loaded, peek_found,
  clear_loaded, clear_at, silent, popped, pop_empty, peeked, peek_empty, cleared, index_mod,
  capacity, consume_at,
}
use emblib.Concurrent.SpscQueue.Spec.{FifoStep, waits, pops, finds_none, peeks, peeks_none, clears}
use emblib.Concurrent.SpscQueue.Inv.{mark, Inv, unpublished, gone, capacity-le}
use emblib.Concurrent.SpscQueue.Moves.{Stepped, sys}
use emblib.Concurrent.SpscQueue.Front.{at_consumer, front_moves, holds_at, destroys, is_empty_iff}

module _ {ℓ} {A : Type ℓ} (k : ℕ) (d : Slots A) (front back : ℕ) (p : Producer A)
    (xs : List A) where
  take_loaded :
      (f : ℕ)
      → Inv k (sys d front back p (pop_loaded f)) xs
      → Stepped k
          (consume_at k (pop_loaded f) (sys d front back p (pop_loaded f)))
          xs
          (mark {A = A} front (pop_loaded f))
  unfolding consume_at
  take_loaded f h = elim (ℕ_discrete (length xs) 0) [
    | yes e ↦ (
      sys d front back p Consumer.idle,
      pop_empty,
      xs,
      ground (arith, is_empty_iff _ h f h.consumer_knows.0),
      rw (no_elements xs e) finds_none,
      at_consumer h refl tt,
    )
    | no ne ↦ (
      sys d front back p (pop_found f),
      silent,
      xs,
      ground (arith, is_empty_iff _ h f h.consumer_knows.0),
      waits,
      at_consumer h refl (h.consumer_knows.0, omega arith, tt),
    )
  ]

  take_found :
      (f : ℕ)
      → Inv k (sys d front back p (pop_found f)) xs
      → Stepped k
          (consume_at k (pop_found f) (sys d front back p (pop_found f)))
          xs
          (mark {A = A} front (pop_found f))
  unfolding consume_at
  take_found f h =
      let (x, live) = get_elem?_below xs 0 h.consumer_knows.1 in
      let (index, here, _) =
        holds_at 0 f _ x h (omega (arith, h.consumer_knows.0, h.front_fits)) (omega arith) live
          h.consumer_knows.1 in
      (
        sys d front back p (pop_moved f x),
        silent,
        xs,
        rw (index, here),
        waits,
        at_consumer h refl (h.consumer_knows.0, live),
      )

  take_moved :
      (f : ℕ) (x : A)
      → Inv k (sys d front back p (pop_moved f x)) xs
      → Stepped k
          (consume_at k (pop_moved f x) (sys d front back p (pop_moved f x)))
          xs
          (mark {A = A} front (pop_moved f x))
  unfolding consume_at
  take_moved f x h =
      let (ef, live) = h.consumer_knows in
      let (ys, e) = starts_with xs x live in
      let (index, here, inside) =
        holds_at 0 f _ x h (omega (arith, ef, h.front_fits)) (omega arith) live
          (omega (arith, ap length e)) in
      (
        _,
        silent,
        xs,
        rw (index, destroy_at-some d _ x here),
        waits,
        destroys 0 _ (pop_destroyed f x) h inside refl (omega arith) (ef, live),
      )

  take_destroyed :
      (f : ℕ) (x : A)
      → Inv k (sys d front back p (pop_destroyed f x)) xs
      → Stepped k
          (consume_at k (pop_destroyed f x) (sys d front back p (pop_destroyed f x)))
          xs
          (mark {A = A} front (pop_destroyed f x))
  unfolding consume_at
  take_destroyed f x h =
      let (ef, live) = h.consumer_knows in
      let (ys, e) = starts_with xs x live in
      let rest : drop 1 xs ≡ ys = ap (drop 1) e in
      (
        sys d ((f + 1) % index_mod) back p Consumer.idle,
        popped x,
        ys,
        refl,
        rw e pops,
        rw (ef, ← rest) (front_moves 1 _ h (omega (arith, ap length e)) refl),
      )

  see_loaded :
      (f : ℕ)
      → Inv k (sys d front back p (peek_loaded f)) xs
      → Stepped k
          (consume_at k (peek_loaded f) (sys d front back p (peek_loaded f)))
          xs
          (mark {A = A} front (peek_loaded f))
  unfolding consume_at
  see_loaded f h = elim (ℕ_discrete (length xs) 0) [
    | yes e ↦ (
      sys d front back p Consumer.idle,
      peek_empty,
      xs,
      ground (arith, is_empty_iff _ h f h.consumer_knows.0),
      rw (no_elements xs e) peeks_none,
      at_consumer h refl tt,
    )
    | no ne ↦ (
      sys d front back p (peek_found f),
      silent,
      xs,
      ground (arith, is_empty_iff _ h f h.consumer_knows.0),
      waits,
      at_consumer h refl (h.consumer_knows.0, omega arith, tt),
    )
  ]

  see_found :
      (f : ℕ)
      → Inv k (sys d front back p (peek_found f)) xs
      → Stepped k
          (consume_at k (peek_found f) (sys d front back p (peek_found f)))
          xs
          (mark {A = A} front (peek_found f))
  unfolding consume_at
  see_found f h =
      let (x, live) = get_elem?_below xs 0 h.consumer_knows.1 in
      let (ys, e) = starts_with xs x live in
      let (index, here, _) =
        holds_at 0 f _ x h (omega (arith, h.consumer_knows.0, h.front_fits)) (omega arith) live
          h.consumer_knows.1 in
      (
        sys d front back p Consumer.idle,
        peeked x,
        xs,
        rw (index, here),
        rw e peeks,
        at_consumer h refl tt,
      )

  clear_begun :
      (b : ℕ)
      → Inv k (sys d front back p (clear_loaded b)) xs
      → Stepped k
          (consume_at k (clear_loaded b) (sys d front back p (clear_loaded b)))
          xs
          (mark {A = A} front (clear_loaded b))
  unfolding consume_at
  clear_begun b h =
      let (n, eb, le, _) = h.consumer_knows in
      (
        sys d front back p (clear_at front b),
        silent,
        xs,
        refl,
        waits,
        at_consumer h (omega (arith, h.front_fits))
            (n, 0, eb, omega (arith, h.front_fits), omega arith, le, tt),
      )

  clear_runs :
      (f b : ℕ)
      → Inv k (sys d front back p (clear_at f b)) xs
      → Stepped k
          (consume_at k (clear_at f b) (sys d front back p (clear_at f b)))
          xs
          (mark {A = A} front (clear_at f b))
  unfolding consume_at
  clear_runs f b h =
      let (n, m, eb, ef, le, le', _) = h.consumer_knows in
      let small : length xs ≤ 2147483648 =
        omega (arith, h.fits, length-append xs (unpublished p), capacity-le k h.width) in
      let passed : gone {A = A} front (clear_at f b) ≡ m = omega (arith, h.front_fits) in
      let marked : length (take n xs) ≡ mark {A = A} front (clear_at f b) =
        omega (arith, length-take n xs le', eb, h.front_fits) in
      let explains : FifoStep (capacity k) xs (mark {A = A} front (clear_at f b)) cleared
          (drop n xs) 0 =
        subst (λ m. FifoStep (capacity k) xs m cleared (drop n xs) 0) marked
          (subst (λ l. FifoStep (capacity k) l (length (take n xs)) cleared (drop n xs) 0)
            (take-append-drop n xs) (clears (take n xs) (drop n xs))) in
      elim (ℕ_discrete m n) [
        | yes e ↦ (
          sys d b back p Consumer.idle,
          cleared,
          drop n xs,
          ground (arith, h.front_fits),
          explains,
          rw eb (front_moves n _ h le' (passed ∙ e)),
        )
        | no ne ↦
            let (x, live) = get_elem?_below xs m (omega arith) in
            let (index, here, inside) = holds_at m f _ x h ef (omega arith) live (omega arith) in
            let more : (f == b) ≡ false = ground (arith, h.front_fits) in
            (
              _,
              silent,
              xs,
              rw (more, index, destroy_at-some d _ x here),
              waits,
              destroys m _ (clear_at ((f + 1) % index_mod) b) h inside passed
                  (omega (arith, h.front_fits)) (n, m + 1, eb, omega arith, omega arith, le', tt),
            )
      ]

  pub consume-Stepped :
      (c : Consumer A)
      → Inv k (sys d front back p c) xs
      → Stepped k (consume_at k c (sys d front back p c)) xs (mark front c)
  unfolding consume_at
  consume-Stepped Consumer.idle h = (_, _, xs, refl, waits, h)
  consume-Stepped (pop_loaded f) h = take_loaded f h
  consume-Stepped (pop_found f) h = take_found f h
  consume-Stepped (pop_moved f x) h = take_moved f x h
  consume-Stepped (pop_destroyed f x) h = take_destroyed f x h
  consume-Stepped (peek_loaded f) h = see_loaded f h
  consume-Stepped (peek_found f) h = see_found f h
  consume-Stepped (clear_loaded b) h = clear_begun b h
  consume-Stepped (clear_at f b) h = clear_runs f b h
