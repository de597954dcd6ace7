-- ===== src/Concurrent/SpscQueue/Front.antt =====
-- The consumer's end of the queue: what its slots hold, and what its moves keep.
use emblib.Base.{
  ℕ, ◌+◌, ◌%◌, ◌≤◌, ◌<◌, ◌≡◌, ◌∙◌, ap, sym, subst, none, some, List, ◌++◌, arith, length, get_elem?,
  length-append, set, drop, ◌==◌, if◌then◌else◌,
}
use native.Mathlib.Decide.{dec_lt, ℕ_discrete}
use emblib.Base.Parts.{get_elem?_left, drop-append_left, length-drop}
use emblib.Container.Slots.{Slots, slot}
use emblib.Container.View.{View, ring_index, View-ext, View-set}
use emblib.Concurrent.SpscQueue.{Producer, Consumer, index_mod, capacity, index_of}
use emblib.Concurrent.SpscQueue.Inv.{
  Inv, ProducerKnows, unpublished, gone, remaining, ConsumerKnows, capacity-le, index_of_lem,
  View-skip,
}
use emblib.Concurrent.SpscQueue.Moves.{sys}

-- The consumer goes on without a change of the shared state.
pub at_consumer {ℓ} :
    {A : Type ℓ} {k : ℕ} {d : Slots A} {front back : ℕ} {p : Producer A} {c c' : Consumer A}
    {xs : List A}
    → Inv k (sys d front back p c) xs
    → gone front c ≡ gone front c'
    → ConsumerKnows front xs c'
    → Inv k (sys d front back p c') xs
at_consumer {k} {d} {front} {p} {xs} h e knows = record {
  width = h.width;
  front_fits = h.front_fits;
  back_at = h.back_at;
  fits = h.fits;
  view =
      subst (λ n. View (capacity k) (front % capacity k) d (remaining n (xs ++ unpublished p))) e
        h.view;
  producer_knows = h.producer_knows;
  consumer_knows = knows;
}

module _ {ℓ} {A : Type ℓ} where
  one_more :
      (n : ℕ) (zs : List A) (j : ℕ)
      → (if n == j then none else remaining n zs j) ≡ remaining (n + 1) zs j
  one_more n zs j = elim (ℕ_discrete n j) [
    | yes p ↦ ground arith
    | no p ↦ elim (dec_lt j n) [ yes q ↦ ground arith | no q ↦ ground arith ]
  ]

module _ {ℓ} {A : Type ℓ} {k : ℕ} {d : Slots A} {front back : ℕ} {p : Producer A}
    {xs : List A} where
  -- The front moves past `n` elements that are gone.
  pub front_moves :
      (n : ℕ) (c : Consumer A)
      → Inv k (sys d front back p c) xs
      → n ≤ length xs
      → gone front c ≡ n
      → Inv k (sys d ((front + n) % index_mod) back p Consumer.idle) (drop n xs)
  front_moves n c h le e = record {
    width = h.width;
    front_fits = omega arith;
    back_at = omega (arith, h.back_at, length-drop n xs le);
    fits = omega (
      arith,
      h.fits,
      length-append xs (unpublished p),
      length-append (drop n xs) (unpublished p),
      length-drop n xs le,
    );
    view =
        subst (λ zs. View (capacity k) ((front + n) % index_mod % capacity k) d (remaining 0 zs))
          (drop-append_left n xs (unpublished p) le)
          (View-skip k h.width n front (xs ++ unpublished p)
            (omega (arith, length-append xs (unpublished p))) h.fits
            (subst
              (λ m. View (capacity k) (front % capacity k) d (remaining m (xs ++ unpublished p))) e
              h.view));
    producer_knows = fewer p h.producer_knows;
    consumer_knows = tt;
  }
    where
      fewer :
          (p : Producer A)
          → ProducerKnows (capacity k) back (length xs) p
          → ProducerKnows (capacity k) back (length (drop n xs)) p
      fewer Producer.idle q = tt
      fewer (Producer.loaded x b) q = q
      fewer (Producer.room x b) q = (q.0, omega (arith, length-drop n xs le, q.1))
      fewer (Producer.built x b) q = (q.0, omega (arith, length-drop n xs le, q.1))

  -- The element in the slot of the index `(front + n) % 2^32`.
  pub holds_at :
      (n f : ℕ) (c : Consumer A) (x : A)
      → Inv k (sys d front back p c) xs
      → f ≡ (front + n) % index_mod
      → gone front c ≤ n
      → get_elem? xs n ≡ some x
      → n < length xs
      → (index_of k f ≡ ring_index (capacity k) (front % capacity k) n)
        × (slot d (ring_index (capacity k) (front % capacity k) n) ≡ some x)
        × (n < capacity k)
  holds_at n f c x h ef le live in_ =
      let inside : n < capacity k = omega (arith, h.fits, length-append xs (unpublished p)) in
      (
        ap (index_of k) ef ∙ index_of_lem k h.width front n,
        h.view.at n inside ∙ ground (arith, get_elem?_left xs (unpublished p) n live),
        inside,
      )

  -- One more element is destroyed.
  pub destroys :
      (n : ℕ) (c c' : Consumer A)
      → Inv k (sys d front back p c) xs
      → n < capacity k
      → gone front c ≡ n
      → gone front c' ≡ n + 1
      → ConsumerKnows front xs c'
      → Inv k (sys (set d (ring_index (capacity k) (front % capacity k) n) none) front back p c') xs
  destroys n c c' h inside e e' knows = record {
    width = h.width;
    front_fits = h.front_fits;
    back_at = h.back_at;
    fits = h.fits;
    view =
        View-ext
          (View-set n none
            (subst
              (λ m. View (capacity k) (front % capacity k) d (remaining m (xs ++ unpublished p))) e
              h.view)
            inside)
          (λ j _.
            one_more n (xs ++ unpublished p) j
            ∙ ap (λ m. remaining m (xs ++ unpublished p) j) (sym e'));
    producer_knows = h.producer_knows;
    consumer_knows = knows;
  }

  pub is_empty_iff :
      (c : Consumer A)
      → Inv k (sys d front back p c) xs
      → (f : ℕ) → f ≡ front
      → (f == back) ≡ (length xs == 0)
  is_empty_iff c h f e = ground (
    arith,
    h.back_at,
    h.front_fits,
    h.fits,
    length-append xs (unpublished p),
    capacity-le k h.width,
  )
