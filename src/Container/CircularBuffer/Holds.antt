-- ===== src/Container/CircularBuffer/Holds.antt =====
-- A circular buffer that holds a list: which slots are live, and what each operation makes of it.
use emblib.Base.{
  ℕ, suc, ◌≤◌, ◌<◌, ◌≡◌, refl, ◌∙◌, ap, sym, subst, set, Option, none, some, List, [], ◌∷◌, ◌++◌,
  arith, length, length-append, get_or-replicate, length-replicate,
}
use emblib.Container.Slots.{Slots, slot, destroy_at-some, max_capacity, sub_size}
use emblib.Container.View.{ring_index, ring_index_lem}
use emblib.Container.Window.{Window, Window-pop_back, Window-pop_front, get_elem?-snoc}
use emblib.Container.Loops.{clear_from-Window}
use emblib.Container.CircularBuffer.{
  CircularBuffer, empty_buffer, clear_buffer, pop_front, pop_back,
}

pub record Holds {ℓ} {A : Type ℓ} (cap : ℕ) (b : CircularBuffer A) (xs : List A) : Type ℓ where
  pub window : Window cap b.front b.slots xs
  pub counted : b.size ≡ length xs
  pub fits : length xs ≤ cap

-- An operation succeeds, and its result holds the list.
abbrev pub Makes {ℓ} : {A : Type ℓ} → ℕ → Option (CircularBuffer A) → List A → Type ℓ
Makes {A} cap r xs = (b : CircularBuffer A) × (r ≡ some b) × Holds cap b xs

pub sub_size-suc : (n m : ℕ) → n ≡ suc m → m ≤ max_capacity → sub_size n 1 ≡ m
sub_size-suc n m e h = omega arith

pub ring_index-zero :
    (cap front : ℕ) → cap ≤ max_capacity → front < cap → ring_index cap front 0 ≡ front
ring_index-zero cap front small h = ground (arith, ring_index_lem cap front 0 small h)

module _ {ℓ} {A : Type ℓ} {cap : ℕ} {b : CircularBuffer A} where
  -- The oldest element is at `front_`.
  pub front_live : (x : A) (xs : List A) → Holds cap b (x ∷ xs) → slot b.slots b.front ≡ some x
  front_live x xs h =
      ap (slot b.slots) (sym (ring_index-zero cap b.front h.window.small h.window.front_in))
      ∙ h.window.at 0 (omega (arith, h.fits))

  -- The latest element is at `index_of(size_ - 1)`.
  pub back_live :
      (x : A) (xs : List A)
      → Holds cap b (xs ++ x ∷ [])
      → (sub_size b.size 1 ≡ length xs)
        × (slot b.slots (ring_index cap b.front (length xs)) ≡ some x)
  back_live x xs h = (
    omega (arith, h.counted, h.fits, h.window.small, length-append xs (x ∷ [])),
    h.window.at (length xs) (omega (arith, h.fits, length-append xs (x ∷ [])))
        ∙ ground (arith, get_elem?-snoc xs x (length xs)),
  )

module _ {ℓ} {A : Type ℓ} (cap : ℕ) where
  pub empty_buffer-Holds : 0 < cap → cap ≤ max_capacity → Holds {A = A} cap (empty_buffer cap) []
  unfolding empty_buffer
  empty_buffer-Holds pos small = record {
    window = record {
      small = small;
      front_in = pos;
      whole = length-replicate cap none;
      at = λ j _. get_or-replicate cap (ring_index cap 0 j) none;
    };
    counted = refl;
    fits = omega arith;
  }

  -- `clear` leaves no live object, and starts again at index 0.
  pub clear_buffer-fresh :
      {b : CircularBuffer A} (xs : List A)
      → Holds cap b xs
      → (d : Slots A) × (clear_buffer cap b ≡ some (record { slots = d; front = 0; size = 0 }))
        × Window cap 0 d []
  unfolding clear_buffer
  clear_buffer-fresh {b} xs h =
      let (d, e, w) = clear_from-Window xs b.slots h.window h.fits in (d, rw (h.counted, e), w)

  pub clear_buffer-Makes :
      {b : CircularBuffer A} (xs : List A) → Holds cap b xs → Makes cap (clear_buffer cap b) []
  clear_buffer-Makes xs h =
      let (d, e, w) = clear_buffer-fresh xs h in
      (_, e, record { window = w; counted = refl; fits = omega arith })

  pub pop_front-Makes :
      {b : CircularBuffer A} (x : A) (xs : List A)
      → Holds cap b (x ∷ xs)
      → Makes cap (pop_front cap b) xs
  unfolding pop_front
  pop_front-Makes {b} x xs h =
      let here = front_live x xs h in
      (
        record {
          slots = set b.slots b.front none;
          front = ring_index cap b.front 1;
          size = sub_size b.size 1;
        },
        ground (arith, destroy_at-some b.slots b.front x here),
        record {
          window =
              subst (λ i. Window cap (ring_index cap b.front 1) (set b.slots i none) xs)
                (ring_index-zero cap b.front h.window.small h.window.front_in)
                (Window-pop_front x xs h.window (omega (arith, h.fits)));
          counted =
              sub_size-suc b.size (length xs) h.counted (omega (arith, h.window.small, h.fits));
          fits = omega (arith, h.fits);
        },
      )

  pub pop_back-Makes :
      {b : CircularBuffer A} (x : A) (xs : List A)
      → Holds cap b (xs ++ x ∷ [])
      → Makes cap (pop_back cap b) xs
  unfolding pop_back
  pop_back-Makes {b} x xs h =
      let (size, there) = back_live x xs h in
      let small : length xs < cap = omega (arith, h.fits, length-append xs (x ∷ [])) in
      (
        record b {
          slots = set b.slots (ring_index cap b.front (length xs)) none;
          size = sub_size b.size 1;
        },
        ground (
          arith,
          size,
          h.counted,
          length-append xs (x ∷ []),
          destroy_at-some b.slots (ring_index cap b.front (length xs)) x there,
        ),
        record { window = Window-pop_back xs x h.window small; counted = size; fits = omega arith },
      )
