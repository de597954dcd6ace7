-- ===== src/Container/InplaceVector/Holds.antt =====
-- A vector that holds a list: element `j` in slot `j`, and no live object beyond.
use emblib.Base.{
  ℕ, ◌≤◌, ◌<◌, ◌≡◌, refl, ◌∙◌, ap, sym, Option, none, some, List, [], ◌∷◌, ◌++◌, arith, length,
  get_elem?, get_elem?_above, length-append, length-set, get_or-set, get_or-replicate,
  length-replicate, set, ◌==◌, if◌then◌else◌,
}
use native.Mathlib.Decide.{ℕ_discrete}
use emblib.Container.Slots.{
  Slots, slot, construct_at-some, destroy_at-some, max_capacity, add_size, sub_size,
}
use emblib.Container.Window.{get_elem?-snoc}
use emblib.Container.InplaceVector.{InplaceVector, empty_vector, emplace_back, drop_back}

-- The slots up to `cap`, by their content.
pub record Filled {ℓ} {A : Type ℓ} (cap : ℕ) (d : Slots A) (f : ℕ → Option A) : Type ℓ where
  pub whole : length d ≡ cap
  pub at : (j : ℕ) → j < cap → slot d j ≡ f j

pub record Holds {ℓ} {A : Type ℓ} (cap : ℕ) (v : InplaceVector A) (xs : List A) : Type ℓ where
  pub small : cap ≤ max_capacity
  pub filled : Filled cap v.slots (get_elem? xs)
  pub counted : v.size ≡ length xs
  pub fits : length xs ≤ cap

abbrev pub Makes {ℓ} : {A : Type ℓ} → ℕ → Option (InplaceVector A) → List A → Type ℓ
Makes {A} cap r xs = (v : InplaceVector A) × (r ≡ some v) × Holds cap v xs

module _ {ℓ} {A : Type ℓ} {cap : ℕ} {d : Slots A} {f : ℕ → Option A} where
  pub Filled-set :
      {g : ℕ → Option A} (i : ℕ) (o : Option A)
      → Filled cap d f
      → i < cap
      → ((j : ℕ) → j < cap → (if i == j then o else f j) ≡ g j)
      → Filled cap (set d i o) g
  Filled-set i o v h e = record {
    whole = length-set d i o ∙ v.whole;
    at = λ j hj.
        get_or-set d i j o none (omega (arith, v.whole))
        ∙ ap (λ x. if i == j then o else x) (v.at j hj)
        ∙ e j hj;
  }

module _ {ℓ} {A : Type ℓ} (cap : ℕ) where
  pub empty_vector-Holds : cap ≤ max_capacity → Holds {A = A} cap (empty_vector cap) []
  unfolding empty_vector
  empty_vector-Holds small = record {
    small = small;
    filled = record { whole = length-replicate cap none; at = λ j _. get_or-replicate cap j none };
    counted = refl;
    fits = omega arith;
  }

  snoc_at :
      (xs : List A) (x : A) (j : ℕ)
      → (if length xs == j then some x else get_elem? xs j) ≡ get_elem? (xs ++ x ∷ []) j
  snoc_at xs x j = sym (get_elem?-snoc xs x j)

  dropped_at :
      (xs : List A) (x : A) (j : ℕ)
      → (if length xs == j then none else get_elem? (xs ++ x ∷ []) j) ≡ get_elem? xs j
  dropped_at xs x j = elim (ℕ_discrete (length xs) j) [
    | yes e ↦ ground (arith, get_elem?_above xs j (omega arith))
    | no ne ↦ ground (arith, get_elem?-snoc xs x j)
  ]

  pub emplace_back-Makes :
      {v : InplaceVector A} (xs : List A) (x : A)
      → Holds cap v xs
      → length xs < cap
      → Makes cap (emplace_back cap v x) (xs ++ x ∷ [])
  unfolding emplace_back
  emplace_back-Makes {v} xs x h room =
      let i = length xs in
      let dead : slot v.slots i ≡ none = h.filled.at i room ∙ get_elem?_above xs i (omega arith) in
      (
        record { slots = set v.slots i (some x); size = add_size v.size 1 },
        ground
            (arith, h.counted, construct_at-some v.slots i x (omega (arith, h.filled.whole)) dead),
        record {
          small = h.small;
          filled = Filled-set i (some x) h.filled room (λ j _. snoc_at xs x j);
          counted = omega (arith, h.counted, h.small, length-append xs (x ∷ []));
          fits = omega (arith, length-append xs (x ∷ []));
        },
      )

  pub back_live :
      {v : InplaceVector A} (xs : List A) (x : A)
      → Holds cap v (xs ++ x ∷ [])
      → (sub_size v.size 1 ≡ length xs) × (slot v.slots (length xs) ≡ some x) × (0 < v.size)
  back_live xs x h = (
    omega (arith, h.counted, h.fits, h.small, length-append xs (x ∷ [])),
    h.filled.at (length xs) (omega (arith, h.fits, length-append xs (x ∷ [])))
        ∙ ground (arith, get_elem?-snoc xs x (length xs)),
    omega (arith, h.counted, length-append xs (x ∷ [])),
  )

  pub drop_back-Makes :
      {v : InplaceVector A} (xs : List A) (x : A)
      → Holds cap v (xs ++ x ∷ [])
      → Makes cap (drop_back cap v) xs
  unfolding drop_back
  drop_back-Makes {v} xs x h =
      let (size, live, pos) = back_live xs x h in
      (
        record { slots = set v.slots (length xs) none; size = sub_size v.size 1 },
        ground (arith, size, pos, destroy_at-some v.slots (length xs) x live),
        record {
          small = h.small;
          filled =
              Filled-set (length xs) none h.filled
                (omega (arith, h.fits, length-append xs (x ∷ []))) (λ j _. dropped_at xs x j);
          counted = size;
          fits = omega (arith, h.fits, length-append xs (x ∷ []));
        },
      )
