-- ===== src/Nvm/Layout.antt =====
-- The entries of a layout lie one behind the other, and each is found by its name.
use emblib.Base.{
  ℕ, zero, suc, ◌+◌, ◌≤◌, ◌<◌, ◌≡◌, refl, ap, sym, ◌∙◌, Bool, true, false, ◌&&◌, some, List, [],
  ◌∷◌, arith, get_elem?, if◌then◌else◌,
}
use emblib.Nvm.{
  Bytes, bytes_eq, found, hash_absent, names_unique, index_of, Parameter, Functions, entry_size,
  offset_of, total_size,
}

pub bytes_eq_refl : (b : Bytes) → bytes_eq b b ≡ true
bytes_eq_refl [] = refl
bytes_eq_refl (a ∷ rest) = ground (arith, bytes_eq_refl rest)

both_true : (a b : Bool) → (a && b) ≡ true → (a ≡ true) × (b ≡ true)
both_true true b h = (refl, h)
both_true false b h = absurd (cc)

not_true : (b : Bool) → (if b then false else true) ≡ true → b ≡ false
not_true true h = absurd (cc)
not_true false h = refl

module _ (f : Functions) where
  offset_from : (base : ℕ) (ps : List Parameter) (i : ℕ) → base ≤ offset_of f base ps i
  unfolding offset_of
  offset_from base ps zero = omega arith
  offset_from base [] (suc i) = omega arith
  offset_from base (p ∷ ps) (suc i) = omega (arith, offset_from (base + entry_size f p) ps i)

  -- The entry of a parameter ends before the entry of any later one begins, and before the end of
  -- the layout.
  entries_apart :
      (base : ℕ) (ps : List Parameter) (i j : ℕ) (p : Parameter)
      → get_elem? ps i ≡ some p
      → (i < j → offset_of f base ps i + entry_size f p ≤ offset_of f base ps j)
        × (offset_of f base ps i + entry_size f p ≤ base + total_size f ps)
  unfolding offset_of total_size
  entries_apart base [] i j p at = absurd (cc)
  entries_apart base (q ∷ ps) zero zero p at =
      let same : q ≡ p = cc in
      let size : entry_size f q ≡ entry_size f p = ap (entry_size f) same in
      (λ h. absurd (omega arith), omega (arith, size))
  entries_apart base (q ∷ ps) zero (suc j) p at =
      let same : q ≡ p = cc in
      let size : entry_size f q ≡ entry_size f p = ap (entry_size f) same in
      let from : base + entry_size f q ≤ offset_of f (base + entry_size f q) ps j =
        offset_from (base + entry_size f q) ps j in
      (λ h. omega (arith, size, from), omega (arith, size))
  entries_apart base (q ∷ ps) (suc i) zero p at =
      let (later, inside) = entries_apart (base + entry_size f q) ps i zero p at in
      (λ h. absurd (omega arith), omega (arith, inside))
  entries_apart base (q ∷ ps) (suc i) (suc j) p at =
      let (later, inside) = entries_apart (base + entry_size f q) ps i j p at in
      (λ h. later (omega (arith, h)), omega (arith, inside))

  hash_absent_lem :
      (h : Bytes) (ps : List Parameter) (i : ℕ) (p : Parameter)
      → hash_absent f h ps ≡ true
      → get_elem? ps i ≡ some p
      → bytes_eq h (f.hash p.name) ≡ false
  hash_absent_lem h [] i p absent at = absurd (cc)
  hash_absent_lem h (q ∷ ps) zero p absent at =
      let same : q ≡ p = cc in
      ap (λ p. bytes_eq h (f.hash p.name)) (sym same) ∙ not_true _ (both_true _ _ absent).0
  hash_absent_lem h (q ∷ ps) (suc i) p absent at =
      hash_absent_lem h ps i p (both_true _ _ absent).1 at

  -- If the hashes of the names are distinct, as the registry asserts, each parameter is found at
  -- its own index by its name.
  index_of_own :
      (ps : List Parameter) (i : ℕ) (p : Parameter)
      → names_unique f ps ≡ true
      → get_elem? ps i ≡ some p
      → index_of f ps p.name ≡ some i
  unfolding index_of names_unique
  index_of_own [] i p unique at = absurd (cc)
  index_of_own (q ∷ ps) zero p unique at =
      let same : q ≡ p = cc in
      ap (λ p. found (bytes_eq (f.hash q.name) (f.hash p.name)) (index_of f ps p.name)) (sym same)
      ∙ ap (λ b. found b (index_of f ps q.name)) (bytes_eq_refl (f.hash q.name))
  index_of_own (q ∷ ps) (suc i) p unique at =
      let (absent, rest) = both_true _ _ unique in
      ap (λ b. found b (index_of f ps p.name)) (hash_absent_lem (f.hash q.name) ps i p absent at)
      ∙ ap (found false) (index_of_own ps i p rest at)

  -- If the hashes of the names are distinct, as the registry asserts: each parameter is found by its
  -- name at its own index, and the entry there ends before the entry of any later one begins, and
  -- before the end of the layout.
  pub parameters_laid_out :
      (base : ℕ) (ps : List Parameter) (i j : ℕ) (p : Parameter)
      → names_unique f ps ≡ true
      → get_elem? ps i ≡ some p
      → i < j
      → (index_of f ps p.name ≡ some i)
        × (offset_of f base ps i + entry_size f p ≤ offset_of f base ps j)
        × (offset_of f base ps i + entry_size f p ≤ base + total_size f ps)
  parameters_laid_out base ps i j p unique at before =
      let (later, inside) = entries_apart base ps i j p at in
      (index_of_own ps i p unique at, later before, inside)
