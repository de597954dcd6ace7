-- ===== src/Container/Window.antt =====
-- A ring of slots that holds a list: element `j` at offset `j`, and no live object beyond.
use emblib.Base.{
  ℕ, zero, suc, ◌+◌, ◌-◌, ◌<◌, ◌≡◌, refl, ap, sym, none, some, List, [], ◌∷◌, ◌++◌, arith, length,
  get_elem?, get_elem?_above, set, ◌==◌, if◌then◌else◌,
}
use native.Mathlib.Decide.{ℕ_discrete, dec_lt}
use emblib.Container.Slots.{Slots}
use emblib.Container.View.{View, ring_index, View-ext, View-set, View-next, View-back}

module _ {ℓ} {A : Type ℓ} where
  pub get_elem?-snoc :
      (xs : List A) (x : A) (j : ℕ)
      → get_elem? (xs ++ x ∷ []) j ≡ (if length xs == j then some x else get_elem? xs j)
  get_elem?-snoc [] x zero = refl
  get_elem?-snoc [] x (suc j) = ground arith
  get_elem?-snoc (y ∷ xs) x zero = ground arith
  get_elem?-snoc (y ∷ xs) x (suc j) = ground (arith, get_elem?-snoc xs x j)

  pub get_elem?-suc : (x : A) (xs : List A) (j : ℕ) → get_elem? (x ∷ xs) (j + 1) ≡ get_elem? xs j
  get_elem?-suc x xs j = ap (get_elem? (x ∷ xs)) (add_suc j)
    where
      add_suc : (j : ℕ) → j + 1 ≡ suc j
      add_suc j = omega arith

  pub get_elem?-pred :
      (x : A) (xs : List A) (j : ℕ)
      → (if j == 0 then some x else get_elem? xs (j - 1)) ≡ get_elem? (x ∷ xs) j
  get_elem?-pred x xs zero = refl
  get_elem?-pred x xs (suc j) = ground (arith, ap (get_elem? xs) (pred-suc j))
    where
      pred-suc : (j : ℕ) → suc j - 1 ≡ j
      pred-suc j = omega arith

  abbrev pub Window : ℕ → ℕ → Slots A → List A → Type ℓ
  Window cap front d xs = View cap front d (get_elem? xs)

  module _ {cap front : ℕ} {d : Slots A} where
    pub Window-push_back :
        (xs : List A) (x : A)
        → Window cap front d xs
        → length xs < cap
        → Window cap front (set d (ring_index cap front (length xs)) (some x)) (xs ++ x ∷ [])
    Window-push_back xs x w h =
        View-ext (View-set (length xs) (some x) w h) (λ j _. sym (get_elem?-snoc xs x j))

    pub Window-pop_back :
        (xs : List A) (x : A)
        → Window cap front d (xs ++ x ∷ [])
        → length xs < cap
        → Window cap front (set d (ring_index cap front (length xs)) none) xs
    Window-pop_back xs x w h = View-ext (View-set (length xs) none w h) λ j hj.
        elim (ℕ_discrete (length xs) j) [
          | yes e ↦ ground (arith, get_elem?_above xs j (omega arith))
          | no ne ↦ ground (arith, get_elem?-snoc xs x j)
        ]

    pub Window-pop_front :
        (x : A) (xs : List A)
        → Window cap front d (x ∷ xs)
        → length xs < cap
        → Window cap (ring_index cap front 1) (set d (ring_index cap front 0) none) xs
    Window-pop_front x xs w h = View-ext (View-next (View-set 0 none w (omega arith))) λ j hj.
        elim (dec_lt (j + 1) cap) [
          | yes p ↦ ground (arith, get_elem?-suc x xs j)
          | no p ↦ ground (arith, get_elem?_above xs j (omega arith))
        ]

    pub Window-push_front :
        (x : A) (xs : List A)
        → Window cap front d xs
        → length xs < cap
        → Window cap
            (ring_index cap front (cap - 1))
            (set d (ring_index cap front (cap - 1)) (some x))
            (x ∷ xs)
    Window-push_front x xs w h =
        View-ext (View-back (View-set (cap - 1) (some x) w (omega arith))) λ j hj.
          elim (ℕ_discrete j 0) [
            | yes e ↦ ground (arith, get_elem?-pred x xs j)
            | no ne ↦ ground (arith, get_elem?-pred x xs j)
          ]
