-- ===== src/Container/Loops.antt =====
-- The loops over the elements of a ring: `clear`, and the copies behind the constructors and the
-- assignments of circular_buffer.hpp and inplace_queue.hpp.
use emblib.Base.{
  ℕ, zero, suc, ◌+◌, ◌≤◌, ◌<◌, ◌≡◌, refl, ◌∙◌, ap, sym, Option, none, some, List, [], ◌∷◌, arith,
  length, get_elem?, get_elem?_above, set, ltb, ◌==◌, if◌then◌else◌,
}
use emblib.Base.OptionMonad.{◌>>=◌}
use native.Mathlib.Decide.{ℕ_discrete, dec_lt}
use emblib.Container.Slots.{
  Slots, slot, read_slot, construct_at, destroy_at, construct_at-some, destroy_at-some, add_size,
}
use emblib.Container.View.{View, ring_index, ring_index_lem, View-ext, View-set, View-restart}
use emblib.Container.Window.{Window}

module _ {ℓ} {A : Type ℓ} (cap : ℕ) where
  -- for (i; n more rounds; ++i) destroy_slot(index_of(i));
  unfoldable pub clear_from : ℕ → ℕ → ℕ → Slots A → Option (Slots A)
  clear_from front zero i d = some d
  clear_from front (suc n) i d = do
    d' ← destroy_at d (ring_index cap front i)
    clear_from front n (i + 1) d'

  -- for (i; n more rounds; ++i) { construct_at(slot_ptr(i), *other.slot_ptr(other.index_of(i))); ++size_; }
  unfoldable pub copy_from : Slots A → ℕ → ℕ → ℕ → Slots A → ℕ → Option (Slots A × ℕ)
  copy_from other front zero i d size = some (d, size)
  copy_from other front (suc n) i d size = do
    v ← read_slot other (ring_index cap front i)
    d' ← construct_at d i v
    copy_from other front n (i + 1) d' (add_size size 1)

module _ {ℓ} {A : Type ℓ} (xs : List A) where
  -- The elements below `i` are gone, or are the only ones.
  abbrev cleared : ℕ → ℕ → Option A
  cleared i j = if ltb j i then none else get_elem? xs j

  abbrev copied : ℕ → ℕ → Option A
  copied i j = if ltb j i then get_elem? xs j else none

pub get_elem?_below {ℓ} :
    {A : Type ℓ} (xs : List A) (i : ℕ) → i < length xs → (x : A) × (get_elem? xs i ≡ some x)
get_elem?_below [] i h = absurd (omega arith)
get_elem?_below (x ∷ xs) zero h = (x, refl)
get_elem?_below (x ∷ xs) (suc i) h = get_elem?_below xs i (omega arith)

module _ {ℓ} {A : Type ℓ} {cap front : ℕ} (xs : List A) where
  clear_from-View :
      (n i : ℕ) (d : Slots A)
      → View cap front d (cleared xs i)
      → i + n ≡ length xs
      → length xs ≤ cap
      → (d' : Slots A) × (clear_from cap front n i d ≡ some d') × View cap front d' (λ _. none)
  unfolding clear_from
  clear_from-View zero i d v e le = (d, refl, View-ext v past)
    where
      past : (j : ℕ) → j < cap → cleared xs i j ≡ none
      past j h = elim (dec_lt j i) [
        | yes p ↦ ground arith
        | no p ↦ ground (arith, get_elem?_above xs j (omega arith))
      ]
  clear_from-View (suc n) i d v e le =
      let (x, live) = get_elem?_below xs i (omega arith) in
      let here : slot d (ring_index cap front i) ≡ some x = v.at i (omega arith) ∙ ground arith in
      rw (destroy_at-some d _ x here) (
        clear_from-View n (i + 1) (set d (ring_index cap front i) none)
          (View-ext (View-set i none v (omega arith)) one_more) (omega arith) le)
    where
      one_more :
          (j : ℕ) → j < cap → (if i == j then none else cleared xs i j) ≡ cleared xs (i + 1) j
      one_more j h = elim (ℕ_discrete i j) [
        | yes p ↦ ground arith
        | no p ↦ elim (dec_lt j i) [ yes q ↦ ground arith | no q ↦ ground arith ]
      ]

  -- `clear` ends every life once, and starts again at index 0.
  pub clear_from-Window :
      (d : Slots A)
      → Window cap front d xs
      → length xs ≤ cap
      → (d' : Slots A) × (clear_from cap front (length xs) 0 d ≡ some d') × Window cap 0 d' []
  clear_from-Window d w le =
      let (d', e, v) =
        clear_from-View (length xs) 0 d (View-ext w (λ j h. ground arith)) (omega arith) le in
      (d', e, View-restart v)

  copy_from-View :
      (other : Slots A) (n i size : ℕ) (d : Slots A)
      → Window cap front other xs
      → View cap 0 d (copied xs i)
      → i + n ≡ length xs
      → length xs ≤ cap
      → size ≡ i
      → (d' : Slots A) × (copy_from cap other front n i d size ≡ some (d', length xs))
        × View cap 0 d' (get_elem? xs)
  unfolding copy_from
  copy_from-View other zero i size d w v e le es =
      (d, ap (λ k. some (d, k)) (omega arith), View-ext v all)
    where
      all : (j : ℕ) → j < cap → copied xs i j ≡ get_elem? xs j
      all j h = elim (dec_lt j i) [
        | yes p ↦ ground arith
        | no p ↦ ground (arith, get_elem?_above xs j (omega arith))
      ]
  copy_from-View other (suc n) i size d w v e le es =
      let (x, live) = get_elem?_below xs i (omega arith) in
      let there : slot other (ring_index cap front i) ≡ some x = w.at i (omega arith) ∙ live in
      let index : ring_index cap 0 i ≡ i =
        ground (arith, ring_index_lem cap 0 i v.small v.front_in) in
      let there0 : slot d (ring_index cap 0 i) ≡ copied xs i i = v.at i (omega arith) in
      let here : slot d i ≡ none = ap (slot d) (sym index) ∙ there0 ∙ ground arith in
      let v' : View cap 0 (set d i (some x)) (copied xs (i + 1)) =
        View-ext (rw index at (View-set i (some x) v (omega arith))) (one_more x live) in
      rw (there, construct_at-some d i x (omega (arith, v.whole)) here)
        (copy_from-View other n (i + 1) (add_size size 1) (set d i (some x)) w v' (omega arith) le
          (omega (arith, v.small)))
    where
      one_more :
          (x : A)
          → get_elem? xs i ≡ some x
          → (j : ℕ) → j < cap
          → (if i == j then some x else copied xs i j) ≡ copied xs (i + 1) j
      one_more x live j h = elim (ℕ_discrete i j) [
        | yes p ↦ ground (arith, ap (get_elem? xs) p)
        | no p ↦ elim (dec_lt j i) [ yes q ↦ ground arith | no q ↦ ground arith ]
      ]

  -- A copy into an empty ring holds the same list, from index 0 on.
  pub copy_from-Window :
      (other d : Slots A)
      → Window cap front other xs
      → length xs ≤ cap
      → Window cap 0 d []
      → (d' : Slots A) × (copy_from cap other front (length xs) 0 d 0 ≡ some (d', length xs))
        × Window cap 0 d' xs
  copy_from-Window other d w le v =
      copy_from-View other (length xs) 0 0 d w (View-ext v (λ j h. ground arith)) (omega arith) le
        refl
