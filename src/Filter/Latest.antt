-- ===== src/Filter/Latest.antt =====
-- The latest elements of a list that grows at its end.
use emblib.Base.{
  ℕ, zero, suc, ◌+◌, ◌-◌, ◌≤◌, ◌≡◌, refl, ap, sym, ◌∙◌, List, [], ◌∷◌, ◌++◌, arith, length, drop,
  length-append,
}
use emblib.Container.Deque.{latest}

module _ {ℓ} {A : Type ℓ} where
  length-drop : (n : ℕ) (xs : List A) → length (drop n xs) ≡ length xs - n
  length-drop zero xs = omega arith
  length-drop (suc n) [] = omega arith
  length-drop (suc n) (x ∷ xs) = omega (arith, length-drop n xs)

  drop-append : (n : ℕ) (xs ys : List A) → n ≤ length xs → drop n (xs ++ ys) ≡ drop n xs ++ ys
  drop-append zero xs ys h = refl
  drop-append (suc n) [] ys h = absurd (omega arith)
  drop-append (suc n) (x ∷ xs) ys h = drop-append n xs ys (omega arith)

  drop-nil : (m : ℕ) → drop {A = A} m [] ≡ []
  drop-nil zero = refl
  drop-nil (suc m) = refl

  drop-drop : (m n k : ℕ) (xs : List A) → k ≡ n + m → drop m (drop n xs) ≡ drop k xs
  drop-drop m zero k xs h = ap (λ j. drop j xs) (omega arith)
  drop-drop m (suc n) k [] h = drop-nil m ∙ sym (drop-nil k)
  drop-drop m (suc n) zero (x ∷ xs) h = absurd (omega arith)
  drop-drop m (suc n) (suc k) (x ∷ xs) h = drop-drop m n k xs (omega arith)

  pub length-latest : (n : ℕ) (xs : List A) → n ≤ length xs → length (latest n xs) ≡ n
  length-latest n xs h = omega (arith, length-drop (length xs - n) xs)

  -- What a list loses before its end makes no difference to its latest elements.
  pub latest-latest :
      (n : ℕ) (xs : List A) (x : A) → latest n (latest n xs ++ x ∷ []) ≡ latest n (xs ++ x ∷ [])
  latest-latest n xs x =
      let d = length xs - n in
      let kept = drop d xs ++ x ∷ [] in
      let size = length-append (drop d xs) (x ∷ []) in
      let left = length-drop d xs in
      ap (drop (length kept - n)) (sym (drop-append d xs (x ∷ []) (omega arith)))
      ∙ drop-drop (length kept - n) d (length (xs ++ x ∷ []) - n) (xs ++ x ∷ [])
          (omega (arith, length-append xs (x ∷ [])))

  pub latest_all : (n : ℕ) (xs : List A) → length xs ≤ n → latest n xs ≡ xs
  latest_all n xs h = let e : length xs - n ≡ 0 = omega arith in ap (λ k. drop k xs) e

  -- A list that is one element too long loses the first one.
  pub latest_but_first : (n : ℕ) (x : A) (xs : List A) → length xs ≡ n → latest n (x ∷ xs) ≡ xs
  latest_but_first n x xs h = ap (λ k. drop k (x ∷ xs)) one_more
    where
      one_more : suc (length xs) - n ≡ 1
      one_more = omega arith
