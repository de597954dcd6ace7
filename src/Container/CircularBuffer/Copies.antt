-- ===== src/Container/CircularBuffer/Copies.antt =====
-- `fill`, the copy and the move of a circular buffer.
use emblib.Base.{
  ℕ, zero, suc, ◌+◌, ◌<◌, ◌≡◌, refl, ◌∙◌, ap, sym, subst, Option, none, some, List, [], arith,
  length, get_elem?, length-replicate, set, replicate, ltb, ◌==◌, if◌then◌else◌,
}
use native.Mathlib.Decide.{dec_lt, ℕ_discrete}
use emblib.Container.Slots.{Slots, slot, construct_at-some, no_values}
use emblib.Container.View.{View, ring_index, ring_index_lem, View-ext, View-set}
use emblib.Container.Window.{Window}
use emblib.Container.Loops.{copy_from, clear_from-Window, copy_from-Window}
use emblib.Container.CircularBuffer.{
  CircularBuffer, empty_buffer, fill_from, fill_buffer, clear_buffer, copy_construct_from,
  move_construct_from, copy_assign, move_assign,
}
use emblib.Container.CircularBuffer.Holds.{
  Holds, Makes, empty_buffer-Holds, clear_buffer-fresh, clear_buffer-Makes,
}

module _ {ℓ} {A : Type ℓ} (x : A) where
  -- The first `i` slots hold the value.
  abbrev filled : ℕ → ℕ → Option A
  filled i j = if ltb j i then some x else none

  get_elem?-replicate : (n j : ℕ) → j < n → get_elem? (replicate n x) j ≡ some x
  get_elem?-replicate zero j h = absurd (omega arith)
  get_elem?-replicate (suc n) zero h = refl
  get_elem?-replicate (suc n) (suc j) h = get_elem?-replicate n j (omega arith)

module _ {ℓ} {A : Type ℓ} {cap : ℕ} (x : A) where
  fill_from-View :
      (n i : ℕ) (d : Slots A)
      → View cap 0 d (filled x i)
      → i + n ≡ cap
      → (d' : Slots A) × (fill_from cap x n i d ≡ some d') × View cap 0 d' (filled x cap)
  unfolding fill_from
  fill_from-View zero i d v e = (d, refl, subst (λ k. View cap 0 d (filled x k)) (omega arith) v)
  fill_from-View (suc n) i d v e =
      let index : ring_index cap 0 i ≡ i =
        ground (arith, ring_index_lem cap 0 i v.small v.front_in) in
      let there : slot d (ring_index cap 0 i) ≡ filled x i i = v.at i (omega arith) in
      let here : slot d i ≡ none = ap (slot d) (sym index) ∙ there ∙ ground arith in
      let v' : View cap 0 (set d i (some x)) (filled x (i + 1)) =
        View-ext (rw index at (View-set i (some x) v (omega arith))) one_more in
      rw (construct_at-some d i x (omega (arith, v.whole)) here)
        (fill_from-View n (i + 1) (set d i (some x)) v' (omega arith))
    where
      one_more : (j : ℕ) → j < cap → (if i == j then some x else filled x i j) ≡ filled x (i + 1) j
      one_more j h = elim (ℕ_discrete i j) [
        | yes p ↦ ground arith
        | no p ↦ elim (dec_lt j i) [ yes q ↦ ground arith | no q ↦ ground arith ]
      ]

  -- A filled buffer holds `Capacity` copies of the value.
  pub fill_buffer-Makes :
      {b : CircularBuffer A} (xs : List A)
      → Holds cap b xs
      → Makes cap (fill_buffer cap b x) (replicate cap x)
  unfolding fill_buffer clear_buffer
  fill_buffer-Makes {b} xs h =
      let (d, e, w) = clear_from-Window xs b.slots h.window h.fits in
      let (d', e', v) = fill_from-View cap 0 d (View-ext w (λ j _. ground arith)) (omega arith) in
      (
        record { slots = d'; front = 0; size = cap },
        rw (h.counted, e, e'),
        record {
          window = View-ext v (λ j hj. ground (arith, get_elem?-replicate x cap j hj));
          counted = sym (length-replicate cap x);
          fits = omega (arith, length-replicate cap x);
        },
      )

module _ {ℓ} {A : Type ℓ} {cap : ℕ} where
  -- The copy into a buffer that has just been cleared.
  copy_into_fresh :
      {other : CircularBuffer A} (d : Slots A) (xs : List A)
      → Holds cap other xs
      → Window cap 0 d []
      → (d' : Slots A) × (copy_from cap other.slots other.front other.size 0 d 0
          ≡ some (d', length xs))
        × Holds cap (record { slots = d'; front = 0; size = length xs }) xs
  copy_into_fresh {other} d xs h w =
      let (d', e, w') = copy_from-Window xs other.slots d h.window h.fits w in
      (d', rw h.counted e, record { window = w'; counted = refl; fits = h.fits })

  -- The copy constructor: the new buffer holds the same list.
  pub copy_construct_from-Makes :
      {other : CircularBuffer A} (xs : List A)
      → Holds cap other xs
      → Makes cap (copy_construct_from cap (empty_buffer cap) other) xs
  unfolding copy_construct_from empty_buffer
  copy_construct_from-Makes xs h =
      let fresh =
        empty_buffer-Holds {A = A} cap (omega (arith, h.window.front_in)) h.window.small in
      let (d, e, h') = copy_into_fresh (no_values cap) xs h fresh.window in (_, rw e, h')

  pub copy_assign-Makes :
      {b other : CircularBuffer A} (xs ys : List A)
      → Holds cap b xs
      → Holds cap other ys
      → Makes cap (copy_assign cap b other) ys
  unfolding copy_assign copy_construct_from
  copy_assign-Makes xs ys h k =
      let (d, e, w) = clear_buffer-fresh cap xs h in
      let (d', e', h') = copy_into_fresh d ys k w in (_, rw (e, e'), h')

  -- A move leaves the list in the target, and the source empty.
  pub move_assign_buffer :
      {b other : CircularBuffer A} (xs ys : List A)
      → Holds cap b xs
      → Holds cap other ys
      → (b' other' : CircularBuffer A) × (move_assign cap b other ≡ some (b', other'))
        × Holds cap b' ys
        × Holds cap other' []
  unfolding move_assign move_construct_from
  move_assign_buffer xs ys h k =
      let (d, e, w) = clear_buffer-fresh cap xs h in
      let (d', e', h') = copy_into_fresh d ys k w in
      let (other', e'', k') = clear_buffer-Makes cap ys k in (_, other', rw (e, e', e''), h', k')
