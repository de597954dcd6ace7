-- ===== src/Container/InplaceVector/Copies.antt =====
-- `clear`, the copy and the move of a vector.
use emblib.Base.{
  ℕ, zero, suc, ◌+◌, ◌≤◌, ◌≡◌, refl, ◌∙◌, ap, sym, subst, Option, none, some, List, [], arith,
  length, get_elem?, get_elem?_above, set, ltb, ◌==◌, if◌then◌else◌,
}
use native.Mathlib.Decide.{dec_lt, ℕ_discrete}
use emblib.Container.Slots.{Slots, slot, construct_at-some, destroy_at-some, max_capacity, add_size}
use emblib.Container.Loops.{get_elem?_below}
use emblib.Container.InplaceVector.{
  InplaceVector, clear_down, copy_up, clear_vector, copy_construct_from, copy_assign,
  move_construct_from, move_assign,
}
use emblib.Container.InplaceVector.Holds.{Filled, Filled-set, Holds, Makes}

module _ {ℓ} {A : Type ℓ} (xs : List A) where
  -- Only the elements below `i` are live.
  abbrev below : ℕ → ℕ → Option A
  below i j = if ltb j i then get_elem? xs j else none

  all_below : (j : ℕ) → below (length xs) j ≡ get_elem? xs j
  all_below j = elim (dec_lt j (length xs)) [
    | yes p ↦ ground arith
    | no p ↦ ground (arith, get_elem?_above xs j (omega arith))
  ]

  one_less : (i j : ℕ) → (if i == j then none else below (suc i) j) ≡ below i j
  one_less i j = elim (ℕ_discrete i j) [
    | yes p ↦ ground arith
    | no p ↦ elim (dec_lt j i) [ yes q ↦ ground arith | no q ↦ ground arith ]
  ]

  one_more :
      (i : ℕ) (x : A) (j : ℕ)
      → get_elem? xs i ≡ some x
      → (if i == j then some x else below i j) ≡ below (i + 1) j
  one_more i x j live = elim (ℕ_discrete i j) [
    | yes p ↦ ground (arith, ap (get_elem? xs) p)
    | no p ↦ elim (dec_lt j i) [ yes q ↦ ground arith | no q ↦ ground arith ]
  ]

module _ {ℓ} {A : Type ℓ} {cap : ℕ} (xs : List A) where
  clear_down-Filled :
      (n : ℕ) (d : Slots A)
      → Filled cap d (below xs n)
      → n ≤ length xs
      → length xs ≤ cap
      → (d' : Slots A) × (clear_down n d ≡ some d') × Filled cap d' (λ _. none)
  unfolding clear_down
  clear_down-Filled zero d v h le =
      (d, refl, record { whole = v.whole; at = λ j hj. v.at j hj ∙ ground arith })
  clear_down-Filled (suc n) d v h le =
      let (x, live) = get_elem?_below xs n h in
      let here : slot d n ≡ some x = v.at n (omega arith) ∙ ground arith in
      rw (destroy_at-some d n x here) (
        clear_down-Filled n (set d n none)
          (Filled-set n none v (omega arith) (λ j _. one_less xs n j)) (omega arith) le)

  copy_up-Filled :
      (other : Slots A) (n i size : ℕ) (d : Slots A)
      → Filled cap other (get_elem? xs)
      → Filled cap d (below xs i)
      → i + n ≡ length xs
      → length xs ≤ cap
      → cap ≤ max_capacity
      → size ≡ i
      → (d' : Slots A) × (copy_up other n i d size ≡ some (d', length xs))
        × Filled cap d' (below xs (length xs))
  unfolding copy_up
  copy_up-Filled other zero i size d o v e le small es = (
    d,
    ap (λ k. some (d, k)) (omega arith),
    subst (λ k. Filled cap d (below xs k)) (omega arith) v,
  )
  copy_up-Filled other (suc n) i size d o v e le small es =
      let (x, live) = get_elem?_below xs i (omega arith) in
      let there : slot other i ≡ some x = o.at i (omega arith) ∙ live in
      let here : slot d i ≡ none = v.at i (omega arith) ∙ ground arith in
      rw (there, construct_at-some d i x (omega (arith, v.whole)) here)
        (copy_up-Filled other n (i + 1) (add_size size 1) (set d i (some x)) o
          (Filled-set i (some x) v (omega arith) (λ j _. one_more xs i x j live)) (omega arith) le
          small (omega arith))

module _ {ℓ} {A : Type ℓ} {cap : ℕ} where
  -- `clear` leaves no live object.
  pub clear_vector-Makes :
      {v : InplaceVector A} (xs : List A) → Holds cap v xs → Makes cap (clear_vector cap v) []
  unfolding clear_vector
  clear_vector-Makes {v} xs h =
      let all : Filled cap v.slots (below xs (length xs)) = record {
        whole = h.filled.whole;
        at = λ j hj. h.filled.at j hj ∙ sym (all_below xs j);
      } in
      let (d, e, w) = clear_down-Filled xs (length xs) v.slots all (omega arith) h.fits in
      (
        record { slots = d; size = 0 },
        rw (h.counted, e),
        record { small = h.small; filled = w; counted = refl; fits = omega arith },
      )

  copy_into :
      {v other : InplaceVector A} (xs : List A)
      → Holds cap v []
      → Holds cap other xs
      → (d : Slots A) × (copy_up other.slots other.size 0 v.slots v.size ≡ some (d, length xs))
        × Holds cap (record { slots = d; size = length xs }) xs
  copy_into {v} {other} xs h k =
      let none_yet : Filled cap v.slots (below xs 0) = record {
        whole = h.filled.whole;
        at = λ j hj. h.filled.at j hj ∙ ground arith;
      } in
      let (d, e, w) =
        copy_up-Filled xs other.slots (length xs) 0 v.size v.slots k.filled none_yet (omega arith)
          k.fits k.small h.counted in
      (
        d,
        rw k.counted e,
        record {
          small = k.small;
          filled = record { whole = w.whole; at = λ j hj. w.at j hj ∙ all_below xs j };
          counted = refl;
          fits = k.fits;
        },
      )

  -- The copy constructor: the new vector holds the same list.
  pub copy_construct_from-Makes :
      {v other : InplaceVector A} (xs : List A)
      → Holds cap v []
      → Holds cap other xs
      → Makes cap (copy_construct_from cap v other) xs
  unfolding copy_construct_from
  copy_construct_from-Makes xs h k = let (d, e, h') = copy_into xs h k in (_, rw e, h')

  -- Whatever the target held, a copy leaves it with the list of the source.
  pub copy_assign-Makes :
      {v other : InplaceVector A} (xs ys : List A)
      → Holds cap v xs
      → Holds cap other ys
      → Makes cap (copy_assign cap v other) ys
  unfolding copy_assign
  copy_assign-Makes xs ys h k =
      let (v', e, h') = clear_vector-Makes xs h in
      let (w, e', k') = copy_construct_from-Makes ys h' k in (w, rw e e', k')

  -- A move leaves the list in the target, and the source empty.
  pub move_assign_vector :
      {v other : InplaceVector A} (xs ys : List A)
      → Holds cap v xs
      → Holds cap other ys
      → (v' other' : InplaceVector A) × (move_assign cap v other ≡ some (v', other'))
        × Holds cap v' ys
        × Holds cap other' []
  unfolding move_assign move_construct_from
  move_assign_vector xs ys h k =
      let (v', e, h') = clear_vector-Makes xs h in
      let (d, e', k') = copy_into ys h' k in
      let (other', e'', k'') = clear_vector-Makes ys k in (_, other', rw (e, e', e''), k', k'')
