-- ===== src/Base/Parts.antt =====
-- Lemmas on the beginning and the rest of a list.
use emblib.Base.{
  ℕ, zero, suc, ◌+◌, ◌≤◌, ◌≡◌, refl, ap, some, List, [], ◌∷◌, ◌++◌, arith, length, get_elem?, take,
  drop,
}

pub drop-zero {ℓ} : {A : Type ℓ} (n : ℕ) (xs : List A) → n ≡ 0 → drop n xs ≡ xs
drop-zero zero xs e = refl
drop-zero (suc n) xs e = absurd (omega arith)

pub drop-one {ℓ} : {A : Type ℓ} (n : ℕ) (x : A) (xs : List A) → n ≡ 1 → drop n (x ∷ xs) ≡ xs
drop-one zero x xs e = absurd (omega arith)
drop-one (suc n) x xs e = drop-zero n xs (omega arith)

pub take-all {ℓ} : {A : Type ℓ} (n : ℕ) (xs : List A) → length xs ≤ n → take n xs ≡ xs
take-all zero [] h = refl
take-all zero (x ∷ xs) h = absurd (omega arith)
take-all (suc n) [] h = refl
take-all (suc n) (x ∷ xs) h = ap (◌∷◌ x) (take-all n xs (omega arith))

pub take-append {ℓ} : {A : Type ℓ} (n : ℕ) (xs ys : List A) → length xs ≡ n → take n (xs ++ ys) ≡ xs
take-append zero [] ys e = refl
take-append zero (x ∷ xs) ys e = absurd (omega arith)
take-append (suc n) [] ys e = absurd (omega arith)
take-append (suc n) (x ∷ xs) ys e = ap (◌∷◌ x) (take-append n xs ys (omega arith))

module _ {ℓ} {A : Type ℓ} where
  -- What a list has, it has with more behind it.
  pub get_elem?_left :
      (xs ys : List A) (i : ℕ) {x : A} → get_elem? xs i ≡ some x → get_elem? (xs ++ ys) i ≡ some x
  get_elem?_left [] ys i e = absurd (cc)
  get_elem?_left (y ∷ xs) ys zero e = e
  get_elem?_left (y ∷ xs) ys (suc i) e = get_elem?_left xs ys i e

  pub drop-append_left :
      (n : ℕ) (xs ys : List A) → n ≤ length xs → drop n (xs ++ ys) ≡ drop n xs ++ ys
  drop-append_left zero xs ys h = refl
  drop-append_left (suc n) [] ys h = absurd (omega arith)
  drop-append_left (suc n) (x ∷ xs) ys h = drop-append_left n xs ys (omega arith)

  pub take-append-drop : (n : ℕ) (xs : List A) → take n xs ++ drop n xs ≡ xs
  take-append-drop zero xs = refl
  take-append-drop (suc n) [] = refl
  take-append-drop (suc n) (x ∷ xs) = ap (◌∷◌ x) (take-append-drop n xs)

  pub length-drop : (n : ℕ) (xs : List A) → n ≤ length xs → length (drop n xs) + n ≡ length xs
  length-drop zero xs h = omega arith
  length-drop (suc n) [] h = absurd (omega arith)
  length-drop (suc n) (x ∷ xs) h = omega (arith, length-drop n xs)

  pub no_elements : (xs : List A) → length xs ≡ 0 → xs ≡ []
  no_elements [] h = refl
  no_elements (x ∷ xs) h = absurd (omega arith)

  pub starts_with : (xs : List A) (x : A) → get_elem? xs 0 ≡ some x → (ys : List A) × (xs ≡ x ∷ ys)
  starts_with [] x e = absurd (cc)
  starts_with (y ∷ ys) x e = (ys, cc)

  pub length-take : (n : ℕ) (xs : List A) → n ≤ length xs → length (take n xs) ≡ n
  length-take zero xs h = refl
  length-take (suc n) [] h = absurd (omega arith)
  length-take (suc n) (x ∷ xs) h = omega (arith, length-take n xs (omega arith))
