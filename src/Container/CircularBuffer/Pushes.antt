-- ===== src/Container/CircularBuffer/Pushes.antt =====
-- Pushes on a circular buffer, with room and when it is full.
use emblib.Base.{
  ℕ, suc, ◌-◌, ◌%◌, ◌≤◌, ◌<◌, ◌≡◌, ◌∙◌, ap, sym, subst, none, some, List, [], ◌∷◌, ◌++◌, arith,
  length, get_elem?_above, length-append, snoc_of_pos, get_or-set, length-set, set, take,
}
use native.Mathlib.Decide.{dec_lt}
use emblib.Base.Parts.{drop-zero, drop-one, take-all, take-append}
use emblib.Container.Slots.{
  slot, construct_at-some, destroy_at-some, max_capacity, add_size, sub_size,
}
use emblib.Container.View.{ring_index, ring_index_lem, ring_index-lt}
use emblib.Container.Window.{
  Window, Window-push_back, Window-pop_back, Window-pop_front, Window-push_front,
}
use emblib.Container.Deque.{latest}
use emblib.Container.CircularBuffer.{CircularBuffer, write_back_with, write_front_with}
use emblib.Container.CircularBuffer.Holds.{Holds, Makes, front_live, back_live, ring_index-zero}

-- `index_of(size_)` of a full buffer is `front_`.
ring_index_self :
    (cap front : ℕ) → cap ≤ max_capacity → front < cap → ring_index cap front cap ≡ front
ring_index_self cap front small h = ground (arith, ring_index_lem cap front cap small h)

-- From the next place on, the last place of the ring is `front_`.
ring_index_last :
    (cap front n : ℕ)
    → cap ≤ max_capacity
    → front < cap
    → suc n ≡ cap
    → ring_index cap (ring_index cap front 1) n ≡ front
ring_index_last cap front n small h e = ground (
  arith,
  ring_index_lem cap front 1 small h,
  ring_index_lem cap (ring_index cap front 1) n small
      (ground (arith, ring_index_lem cap front 1 small h)),
)

-- `(front_ + capacity_ - 1) % capacity_` does not wrap.
back_index :
    (cap front : ℕ)
    → cap ≤ max_capacity
    → front < cap
    → sub_size (add_size front cap) 1 % cap ≡ ring_index cap front (cap - 1)
back_index cap front small h = ap (λ n. n % cap) (omega arith)

module _ {ℓ} {A : Type ℓ} {cap : ℕ} {b : CircularBuffer A} (x : A) where
  pub write_back_with_room :
      (xs : List A)
      → Holds cap b xs
      → length xs < cap
      → Makes cap (write_back_with cap b x) (xs ++ x ∷ [])
  unfolding write_back_with
  write_back_with_room xs h room =
      let i = ring_index cap b.front (length xs) in
      let dead : slot b.slots i ≡ none =
        h.window.at (length xs) room ∙ get_elem?_above xs (length xs) (omega arith) in
      let inside : i < length b.slots = omega (
        arith,
        h.window.whole,
        ring_index-lt cap b.front h.window.small h.window.front_in (length xs) room,
      ) in
      (
        record b { slots = set b.slots i (some x); size = add_size b.size 1 },
        ground (arith, h.counted, construct_at-some b.slots i x inside dead),
        record {
          window = Window-push_back xs x h.window room;
          counted = omega (arith, h.counted, h.window.small, length-append xs (x ∷ []));
          fits = omega (arith, length-append xs (x ∷ []));
        },
      )

  write_back_with_full :
      (y : A) (ys : List A)
      → Holds cap b (y ∷ ys)
      → suc (length ys) ≡ cap
      → Makes cap (write_back_with cap b x) (ys ++ x ∷ [])
  unfolding write_back_with
  write_back_with_full y ys h full =
      let small = h.window.small in
      let front_in = h.window.front_in in
      let i = b.front in
      let d = set b.slots i none in
      let w : Window cap (ring_index cap b.front 1) d ys =
        subst (λ i. Window cap (ring_index cap b.front 1) (set b.slots i none) ys)
          (ring_index-zero cap b.front small front_in)
          (Window-pop_front y ys h.window (omega arith)) in
      let at_end = ring_index_last cap b.front (length ys) small front_in full in
      let dead : slot d i ≡ none =
        ground
          (arith, get_or-set b.slots i i none none (omega (arith, h.window.whole, front_in))) in
      (
        record b { slots = set d i (some x); front = ring_index cap b.front 1 },
        ground (
          arith,
          h.counted,
          ring_index_self cap b.front small front_in,
          destroy_at-some b.slots i y (front_live y ys h),
          construct_at-some d i x (omega (arith, w.whole, front_in)) dead,
        ),
        record {
          window =
              subst (λ i. Window cap (ring_index cap b.front 1) (set d i (some x)) (ys ++ x ∷ []))
                at_end (Window-push_back ys x w (omega arith));
          counted = omega (arith, h.counted, length-append ys (x ∷ []));
          fits = omega (arith, length-append ys (x ∷ []));
        },
      )

  pub write_front_with_room :
      (xs : List A)
      → Holds cap b xs
      → length xs < cap
      → Makes cap (write_front_with cap b x) (x ∷ xs)
  unfolding write_front_with
  write_front_with_room xs h room =
      let small = h.window.small in
      let i = ring_index cap b.front (cap - 1) in
      let last : cap - 1 < cap = omega arith in
      let dead : slot b.slots i ≡ none =
        h.window.at (cap - 1) last ∙ get_elem?_above xs (cap - 1) (omega arith) in
      let inside : i < length b.slots =
        omega (
          arith,
          h.window.whole,
          ring_index-lt cap b.front small h.window.front_in (cap - 1) last,
        ) in
      (
        record { slots = set b.slots i (some x); front = i; size = add_size b.size 1 },
        ground (
          arith,
          h.counted,
          back_index cap b.front small h.window.front_in,
          construct_at-some b.slots i x inside dead,
        ),
        record {
          window = Window-push_front x xs h.window room;
          counted = omega (arith, h.counted, small);
          fits = omega arith;
        },
      )

  write_front_with_full :
      (y : A) (ys : List A)
      → Holds cap b (ys ++ y ∷ [])
      → suc (length ys) ≡ cap
      → Makes cap (write_front_with cap b x) (x ∷ ys)
  unfolding write_front_with
  write_front_with_full y ys h full =
      let small = h.window.small in
      let front_in = h.window.front_in in
      let n : length ys ≡ cap - 1 = omega arith in
      let i = ring_index cap b.front (cap - 1) in
      let d = set b.slots i none in
      let w : Window cap b.front d ys =
        subst (λ k. Window cap b.front (set b.slots (ring_index cap b.front k) none) ys) n
          (Window-pop_back ys y h.window (omega arith)) in
      let live : slot b.slots i ≡ some y =
        ap (λ k. slot b.slots (ring_index cap b.front k)) (sym n) ∙ (back_live y ys h).1 in
      let inside : i < length b.slots =
        omega (
          arith,
          h.window.whole,
          ring_index-lt cap b.front small front_in (cap - 1) (omega arith),
        ) in
      let dead : slot d i ≡ none = ground (arith, get_or-set b.slots i i none none inside) in
      (
        record b { slots = set d i (some x); front = i },
        ground (
          arith,
          h.counted,
          length-append ys (y ∷ []),
          back_index cap b.front small front_in,
          destroy_at-some b.slots i y live,
          construct_at-some d i x (omega (arith, inside, length-set b.slots i none)) dead,
        ),
        record {
          window = Window-push_front x ys w (omega arith);
          counted = omega (arith, h.counted, length-append ys (y ∷ []));
          fits = omega arith;
        },
      )

module _ {ℓ} {A : Type ℓ} {cap : ℕ} {b : CircularBuffer A} (x : A) where
  -- `push_back` keeps the latest `cap` elements.
  pub write_back_with-Makes :
      (xs : List A)
      → Holds cap b xs
      → Makes cap (write_back_with cap b x) (latest cap (xs ++ x ∷ []))
  write_back_with-Makes xs h = elim (dec_lt (length xs) cap) [
    | yes room ↦
        subst (Makes cap (write_back_with cap b x))
          (sym (drop-zero _ (xs ++ x ∷ []) (omega (arith, length-append xs (x ∷ [])))))
          (write_back_with_room x xs h room)
    | no full ↦ overflow xs h (omega (arith, h.fits))
  ]
    where
      overflow :
          (xs : List A)
          → Holds cap b xs
          → length xs ≡ cap
          → Makes cap (write_back_with cap b x) (latest cap (xs ++ x ∷ []))
      overflow [] h full = absurd (omega (arith, h.window.front_in))
      overflow (y ∷ ys) h full =
          subst (Makes cap (write_back_with cap b x))
            (sym (drop-one _ y (ys ++ x ∷ []) (omega (arith, length-append ys (x ∷ [])))))
            (write_back_with_full x y ys h full)

  -- `push_front` keeps the first `cap` elements.
  pub write_front_with-Makes :
      (xs : List A) → Holds cap b xs → Makes cap (write_front_with cap b x) (take cap (x ∷ xs))
  write_front_with-Makes xs h = elim (dec_lt (length xs) cap) [
    | yes room ↦
        subst (Makes cap (write_front_with cap b x)) (sym (take-all cap (x ∷ xs) room))
          (write_front_with_room x xs h room)
    | no full ↦
        let (ys, y, e) = snoc_of_pos xs (omega (arith, h.window.front_in)) in
        let n : suc (length ys) ≡ cap =
          omega (arith, ap length e, length-append ys (y ∷ []), h.fits) in
        let kept : take cap (x ∷ xs) ≡ x ∷ ys =
          ap (λ l. take cap (x ∷ l)) e ∙ take-append cap (x ∷ ys) (y ∷ []) n in
        subst (Makes cap (write_front_with cap b x)) (sym kept)
          (write_front_with_full x y ys (subst (Holds cap b) e h) n)
  ]
