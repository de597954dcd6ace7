-- ===== src/Concurrent/SpscQueue/Moves.antt =====
-- One step of the producer.
use emblib.Base.{
  ℕ, ◌+◌, ◌%◌, ◌≤◌, ◌<◌, ◌≡◌, refl, ◌∙◌, ap, subst, Option, none, some, List, [], ◌∷◌, ◌++◌, arith,
  length, get_elem?, get_elem?_above, length-append, append-nil, set, ◌==◌, if◌then◌else◌,
}
use native.Mathlib.Decide.{ℕ_discrete}
use emblib.Container.Slots.{Slots, slot, construct_at-some}
use emblib.Container.View.{View, ring_index, ring_index-lt, View-ext, View-set}
use emblib.Container.Window.{get_elem?-snoc}
use emblib.Concurrent.SpscQueue.{
  System, Producer, Consumer, loaded, room, built, pop_loaded, pop_found, pop_moved, pop_destroyed,
  peek_loaded, peek_found, clear_loaded, clear_at, Event, silent, pushed, refused, index_mod,
  capacity, index_of, distance, produce_at,
}
use emblib.Concurrent.SpscQueue.Spec.{FifoStep, waits, pushes, refuses}
use emblib.Concurrent.SpscQueue.Inv.{
  Inv, mark, ProducerKnows, unpublished, gone, remaining, ConsumerKnows, capacity-le, index_of_lem,
}

-- The step goes through, the FIFO explains what it shows, and the queue holds what the FIFO does.
abbrev pub Stepped {ℓ} : {A : Type ℓ} → ℕ → Option (System A × Event A) → List A → ℕ → Type ℓ
Stepped {A} k r xs m =
    (s : System A) × (e : Event A) × (ys : List A) × (r ≡ some (s, e))
    × FifoStep (capacity k) xs m e ys (mark s.front s.consumer)
    × Inv k s ys

abbrev pub sys {ℓ} : {A : Type ℓ} → Slots A → ℕ → ℕ → Producer A → Consumer A → System A
sys d front back p c = record { slots = d; front = front; back = back; producer = p; consumer = c }

module _ {ℓ} {A : Type ℓ} where
  length_of_head : (xs : List A) {x : A} → get_elem? xs 0 ≡ some x → 0 < length xs
  length_of_head [] e = absurd (cc)
  length_of_head (x ∷ xs) e = omega arith

  -- The consumer destroys only what was published before.
  pub gone-le :
      (front : ℕ) (xs : List A) (c : Consumer A)
      → front < index_mod
      → length xs < index_mod
      → ConsumerKnows front xs c
      → gone front c ≤ length xs
  gone-le front xs Consumer.idle h l q = omega arith
  gone-le front xs (pop_destroyed f x) h l q = length_of_head xs q.1
  gone-le front xs (clear_at f b) h l (n, m, eb, ef, le, le', _) = omega arith
  gone-le front xs other h l q = omega arith

  ConsumerKnows-snoc :
      (front : ℕ) (xs : List A) (x : A) (c : Consumer A)
      → ConsumerKnows front xs c
      → ConsumerKnows front (xs ++ x ∷ []) c
  ConsumerKnows-snoc front xs x Consumer.idle q = q
  ConsumerKnows-snoc front xs x (pop_loaded f) q = q
  ConsumerKnows-snoc front xs x (pop_found f) q =
      (q.0, omega (arith, length-append xs (x ∷ []), q.1), q.2)
  ConsumerKnows-snoc front (y ∷ xs) x (pop_moved f z) q = q
  ConsumerKnows-snoc front [] x (pop_moved f z) q = absurd (cc (q.1))
  ConsumerKnows-snoc front (y ∷ xs) x (pop_destroyed f z) q = q
  ConsumerKnows-snoc front [] x (pop_destroyed f z) q = absurd (cc (q.1))
  ConsumerKnows-snoc front xs x (peek_loaded f) q = q
  ConsumerKnows-snoc front xs x (peek_found f) q =
      (q.0, omega (arith, length-append xs (x ∷ []), q.1), q.2)
  ConsumerKnows-snoc front xs x (clear_loaded b) (n, eb, le, u) =
      (n, eb, omega (arith, length-append xs (x ∷ [])), u)
  ConsumerKnows-snoc front xs x (clear_at f b) (n, m, eb, ef, le, le', u) =
      (n, m, eb, ef, le, omega (arith, length-append xs (x ∷ [])), u)

  remaining-snoc :
      (n : ℕ) (xs : List A) (x : A) (j : ℕ)
      → n ≤ length xs
      → (if length xs == j then some x else remaining n (xs ++ []) j) ≡ remaining n (xs ++ x ∷ []) j
  remaining-snoc n xs x j h = rw (append-nil xs) (elim (ℕ_discrete (length xs) j) [
    | yes e ↦ ground (arith, get_elem?-snoc xs x j)
    | no ne ↦ ground (arith, get_elem?-snoc xs x j)
  ])

-- The producer goes on without a change of the shared state.
pub at_producer {ℓ} :
    {A : Type ℓ} {k : ℕ} {d : Slots A} {front back : ℕ} {p p' : Producer A} {c : Consumer A}
    {xs : List A}
    → Inv k (sys d front back p c) xs
    → unpublished p ≡ unpublished p'
    → ProducerKnows (capacity k) back (length xs) p'
    → Inv k (sys d front back p' c) xs
at_producer {k} {d} {front} {c} {xs} h e knows = record {
  width = h.width;
  front_fits = h.front_fits;
  back_at = h.back_at;
  fits = subst (λ l. length (xs ++ l) ≤ capacity k) e h.fits;
  view =
      subst (λ l. View (capacity k) (front % capacity k) d (remaining (gone front c) (xs ++ l))) e
        h.view;
  producer_knows = knows;
  consumer_knows = h.consumer_knows;
}

module _ {ℓ} {A : Type ℓ} (k : ℕ) (d : Slots A) (front back : ℕ) (c : Consumer A)
    (xs : List A) where
  produce_loaded :
      (x : A) (b : ℕ)
      → Inv k (sys d front back (loaded x b) c) xs
      → Stepped k (produce_at k (loaded x b) (sys d front back (loaded x b) c)) xs (mark front c)
  unfolding produce_at
  produce_loaded x b h =
      let small : length xs ≤ capacity k = omega (arith, h.fits, length-append xs []) in
      let count : distance b front ≡ length xs =
        omega (arith, h.producer_knows, h.back_at, h.front_fits, capacity-le k h.width) in
      elim (ℕ_discrete (length xs) (capacity k)) [
        | yes full ↦ (
          sys d front back Producer.idle c,
          refused,
          xs,
          ground (arith, count, full),
          refuses full,
          at_producer h refl tt,
        )
        | no open_ ↦ (
          sys d front back (room x b) c,
          silent,
          xs,
          ground (arith, count),
          waits,
          at_producer h refl (h.producer_knows, omega arith),
        )
      ]

  produce_room :
      (x : A) (b : ℕ)
      → Inv k (sys d front back (room x b) c) xs
      → Stepped k (produce_at k (room x b) (sys d front back (room x b) c)) xs (mark front c)
  unfolding produce_at
  produce_room x b h =
      let cap = capacity k in
      let i = ring_index cap (front % cap) (length xs) in
      let free : length xs < cap = h.producer_knows.1 in
      let index : index_of k b ≡ i =
        ap (index_of k) (h.producer_knows.0 ∙ h.back_at)
        ∙ index_of_lem k h.width front (length xs) in
      let dead : slot d i ≡ none =
        h.view.at (length xs) free
        ∙ ground (arith, append-nil xs, get_elem?_above xs (length xs) (omega arith)) in
      let inside : i < length d = omega (
        arith,
        h.view.whole,
        ring_index-lt cap (front % cap) h.view.small h.view.front_in (length xs) free,
      ) in
      let behind : gone front c ≤ length xs =
        gone-le front xs c h.front_fits (omega (arith, capacity-le k h.width)) h.consumer_knows in
      (
        sys (set d i (some x)) front back (built x b) c,
        silent,
        xs,
        rw (index, construct_at-some d i x inside dead),
        waits,
        record {
          width = h.width;
          front_fits = h.front_fits;
          back_at = h.back_at;
          fits = omega (arith, length-append xs (x ∷ []));
          view =
              View-ext (View-set (length xs) (some x) h.view free)
                (λ j _. remaining-snoc (gone front c) xs x j behind);
          producer_knows = h.producer_knows;
          consumer_knows = h.consumer_knows;
        },
      )

  produce_built :
      (x : A) (b : ℕ)
      → Inv k (sys d front back (built x b) c) xs
      → Stepped k (produce_at k (built x b) (sys d front back (built x b) c)) xs (mark front c)
  unfolding produce_at
  produce_built x b h =
      let ys = xs ++ x ∷ [] in
      (
        sys d front ((b + 1) % index_mod) Producer.idle c,
        pushed x,
        ys,
        refl,
        pushes x h.producer_knows.1,
        record {
          width = h.width;
          front_fits = h.front_fits;
          back_at = omega (arith, h.producer_knows.0, h.back_at, length-append xs (x ∷ []));
          fits = omega (arith, h.fits, length-append ys []);
          view = rw (append-nil ys) h.view;
          producer_knows = tt;
          consumer_knows = ConsumerKnows-snoc front xs x c h.consumer_knows;
        },
      )

  pub produce-Stepped :
      (p : Producer A)
      → Inv k (sys d front back p c) xs
      → Stepped k (produce_at k p (sys d front back p c)) xs (mark front c)
  unfolding produce_at
  produce-Stepped Producer.idle h = (_, _, xs, refl, waits, h)
  produce-Stepped (loaded x b) h = produce_loaded x b h
  produce-Stepped (room x b) h = produce_room x b h
  produce-Stepped (built x b) h = produce_built x b h
