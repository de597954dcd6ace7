-- ===== src/Base/Words.antt =====
-- Lists of words: a value while it is copied, and a buffer of values.
use emblib.Base.{
  ℕ, zero, suc, ◌≤◌, ◌<◌, ◌≡◌, ◌≢◌, ap, sym, ◌∙◌, none, some, List, [], ◌∷◌, ◌++◌, arith, get_elem?,
  get_or, get_or-set, set, length, take,
}

module _ {W : Type 0} where
  pub in_range : (xs : List W) (i : ℕ) (x : W) → get_elem? xs i ≡ some x → i < length xs
  in_range [] i x h = absurd (cc)
  in_range (y ∷ ys) zero x h = omega arith
  in_range (y ∷ ys) (suc i) x h = omega (arith, in_range ys i x h)

  pub out_of_range : (xs : List W) (i : ℕ) → get_elem? xs i ≡ none → length xs ≤ i
  out_of_range [] i h = omega arith
  out_of_range (y ∷ ys) zero h = absurd (cc)
  out_of_range (y ∷ ys) (suc i) h = omega (arith, out_of_range ys i h)

  pub take-snoc :
      (xs : List W) (i : ℕ) (x : W)
      → get_elem? xs i ≡ some x
      → take i xs ++ x ∷ [] ≡ take (suc i) xs
  take-snoc [] i x h = absurd (cc)
  take-snoc (y ∷ ys) zero x h = let e : y ≡ x = cc in ap (λ z. z ∷ []) (sym e)
  take-snoc (y ∷ ys) (suc i) x h = ap (◌∷◌ y) (take-snoc ys i x h)

  -- The next word of `v` over what is already its beginning.
  pub take-set :
      (b v : List W) (i : ℕ) (x : W)
      → get_elem? v i ≡ some x
      → i < length b
      → take i b ≡ take i v
      → take (suc i) (set b i x) ≡ take (suc i) v
  take-set [] v i x h room same = absurd (omega arith)
  take-set (c ∷ cs) [] i x h room same = absurd (cc)
  take-set (c ∷ cs) (y ∷ ys) zero x h room same = let e : y ≡ x = cc in ap (λ z. z ∷ []) (sym e)
  take-set (c ∷ cs) (y ∷ ys) (suc i) x h room same =
      let first : c ≡ y = cc in
      let rest : take i cs ≡ take i ys = cc in
      ap (λ z. z ∷ take (suc i) (set cs i x)) first
      ∙ ap (◌∷◌ y) (take-set cs ys i x h (omega arith) rest)

  pub set_other :
      (buf : List (List W)) (i j : ℕ) (b : List W)
      → i < length buf
      → i ≢ j
      → get_or (set buf i b) j [] ≡ get_or buf j []
  set_other buf i j b h ne = ground (arith, get_or-set buf i j b [] h)

  pub set_same :
      (buf : List (List W)) (i : ℕ) (b : List W) → i < length buf → get_or (set buf i b) i [] ≡ b
  set_same buf i b h = ground (arith, get_or-set buf i i b [] h)
