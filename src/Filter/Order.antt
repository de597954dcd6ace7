-- ===== src/Filter/Order.antt =====
-- `std::sort`, as an insertion sort by `operator<`, and what stands at an index of a sorted list.
use emblib.Base.{
  ℕ, zero, suc, ◌+◌, ◌≤◌, ◌<◌, ◌≡◌, refl, ap, sym, subst, ◌∙◌, Bool, false, inl, inr, Bool-cases,
  some, List, [], ◌∷◌, arith, length, get_elem?, if◌then◌else◌,
}
use emblib.Base.Order.{IsOrder}

module _ {T : Type 0} (lt : T → T → Bool) where
  unfoldable pub insert : T → List T → List T
  insert x [] = x ∷ []
  insert x (y ∷ ys) = let rest = insert x ys in if lt x y then x ∷ y ∷ ys else y ∷ rest

  unfoldable pub sort : List T → List T
  sort [] = []
  sort (x ∷ xs) = insert x (sort xs)

  abbrev bit : Bool → ℕ
  bit b = if b then 1 else 0

  -- How many elements are below a value, and how many above.
  abbrev pub count_below : T → List T → ℕ
  count_below m [] = 0
  count_below m (x ∷ xs) = bit (lt x m) + count_below m xs

  abbrev pub count_above : T → List T → ℕ
  count_above m [] = 0
  count_above m (x ∷ xs) = bit (lt m x) + count_above m xs

  count_below-insert :
      (m x : T) (xs : List T) → count_below m (insert x xs) ≡ count_below m (x ∷ xs)
  unfolding insert
  count_below-insert m x [] = refl
  count_below-insert m x (y ∷ ys) = elim (Bool-cases (lt x y)) [
    | inl e ↦ rw e refl
    | inr e ↦ rw e (omega (arith, count_below-insert m x ys))
  ]

  count_above-insert :
      (m x : T) (xs : List T) → count_above m (insert x xs) ≡ count_above m (x ∷ xs)
  unfolding insert
  count_above-insert m x [] = refl
  count_above-insert m x (y ∷ ys) = elim (Bool-cases (lt x y)) [
    | inl e ↦ rw e refl
    | inr e ↦ rw e (omega (arith, count_above-insert m x ys))
  ]

  length-insert : (x : T) (xs : List T) → length (insert x xs) ≡ suc (length xs)
  unfolding insert
  length-insert x [] = refl
  length-insert x (y ∷ ys) = elim (Bool-cases (lt x y)) [
    | inl e ↦ rw e refl
    | inr e ↦ rw e (omega (arith, length-insert x ys))
  ]

  pub count_below-sort : (m : T) (xs : List T) → count_below m (sort xs) ≡ count_below m xs
  unfolding sort
  count_below-sort m [] = refl
  count_below-sort m (x ∷ xs) =
      count_below-insert m x (sort xs) ∙ ap (λ n. bit (lt x m) + n) (count_below-sort m xs)

  pub count_above-sort : (m : T) (xs : List T) → count_above m (sort xs) ≡ count_above m xs
  unfolding sort
  count_above-sort m [] = refl
  count_above-sort m (x ∷ xs) =
      count_above-insert m x (sort xs) ∙ ap (λ n. bit (lt m x) + n) (count_above-sort m xs)

  pub length-sort : (xs : List T) → length (sort xs) ≡ length xs
  unfolding sort
  length-sort [] = refl
  length-sort (x ∷ xs) = length-insert x (sort xs) ∙ ap suc (length-sort xs)

  -- None of a list is below a value.
  abbrev pub AtLeast : T → List T → Type 0
  AtLeast m [] = Unit
  AtLeast m (x ∷ xs) = (lt x m ≡ false) × AtLeast m xs

  abbrev pub IsSorted : List T → Type 0
  IsSorted [] = Unit
  IsSorted (x ∷ xs) = AtLeast x xs × IsSorted xs

  module _ (order : IsOrder lt) where
    AtLeast-trans : (a b : T) (xs : List T) → lt b a ≡ false → AtLeast b xs → AtLeast a xs
    AtLeast-trans a b [] h k = tt
    AtLeast-trans a b (x ∷ xs) h k = (order.trans x b a k.0 h, AtLeast-trans a b xs h k.1)

    AtLeast-insert :
        (m x : T) (xs : List T) → lt x m ≡ false → AtLeast m xs → AtLeast m (insert x xs)
    unfolding insert
    AtLeast-insert m x [] h k = (h, tt)
    AtLeast-insert m x (y ∷ ys) h k = elim (Bool-cases (lt x y)) [
      | inl e ↦ rw e (h, k)
      | inr e ↦ rw e (k.0, AtLeast-insert m x ys h k.1)
    ]

    insert-IsSorted : (x : T) (xs : List T) → IsSorted xs → IsSorted (insert x xs)
    unfolding insert
    insert-IsSorted x [] s = (tt, tt)
    insert-IsSorted x (y ∷ ys) s = elim (Bool-cases (lt x y)) [
      | inl e ↦ let above = order.asym x y e in rw e ((above, AtLeast-trans x y ys above s.0), s)
      | inr e ↦ rw e (AtLeast-insert y x ys e s.0, insert-IsSorted x ys s.1)
    ]

    pub sort-IsSorted : (xs : List T) → IsSorted (sort xs)
    unfolding sort
    sort-IsSorted [] = tt
    sort-IsSorted (x ∷ xs) = insert-IsSorted x (sort xs) (sort-IsSorted xs)

    none_below : (m : T) (xs : List T) → AtLeast m xs → count_below m xs ≡ 0
    none_below m [] k = refl
    none_below m (x ∷ xs) k = rw k.0 (omega (arith, none_below m xs k.1))

    above_bound : (m : T) (xs : List T) → count_above m xs ≤ length xs
    above_bound m [] = omega arith
    above_bound m (x ∷ xs) = ground (arith, above_bound m xs)

    found_AtLeast :
        (m x : T) (xs : List T) (k : ℕ) → AtLeast x xs → get_elem? xs k ≡ some m → lt m x ≡ false
    found_AtLeast m x [] k h e = absurd (cc)
    found_AtLeast m x (y ∷ ys) zero h e = let same : y ≡ m = cc in rw (sym same) h.0
    found_AtLeast m x (y ∷ ys) (suc k) h e = found_AtLeast m x ys k h.1 e

    first_ranks :
        (x : T) (xs : List T)
        → AtLeast x xs
        → (count_below x (x ∷ xs) ≤ 0) × (count_above x (x ∷ xs) + 0 < length (x ∷ xs))
    first_ranks x xs k =
        let below = none_below x xs k in
        let above = above_bound x xs in rw (order.irrefl x) (omega arith, omega arith)

    -- At an index of a sorted list, at most as many elements are below as before it, and above as after.
    pub sorted_ranks :
        (xs : List T) (k : ℕ) (m : T)
        → IsSorted xs
        → get_elem? xs k ≡ some m
        → (count_below m xs ≤ k) × (count_above m xs + k < length xs)
    sorted_ranks [] k m s e = absurd (cc)
    sorted_ranks (x ∷ xs) zero m s e =
        let same : x ≡ m = cc in
        subst (λ m. (count_below m (x ∷ xs) ≤ 0) × (count_above m (x ∷ xs) + 0 < length (x ∷ xs)))
          same (first_ranks x xs s.0)
    sorted_ranks (x ∷ xs) (suc k) m s e =
        let (below, above) = sorted_ranks xs k m s.1 e in
        let at_least = found_AtLeast m x xs k s.0 e in rw at_least (ground arith, omega arith)
