-- ===== src/Trouble/Reads.antt =====
-- What a loop over the rows of emb/trouble.hpp reads.
use emblib.Base.{
  ℕ, zero, suc, ◌+◌, ◌≤◌, ◌<◌, ◌≡◌, ◌≢◌, ◌↔◌, refl, sym, ◌∙◌, true, false, some, leb, ◌%◌, inl, inr,
  Bool-cases, List, [], ◌∷◌, arith, length, get_or, set,
}
use native.Mathlib.Nat.{mod-eq_of_lt}
use emblib.Trouble.{Flags, test_bit, any_bit, test_levels}
use emblib.Trouble.Mirror.{test_rows}
use emblib.Trouble.Rows.{Activity}

-- A status is active at one of some levels.
abbrev pub ActiveIn : Activity → ℕ → ℕ → ℕ → Type 0
ActiveIn active id low high = (m : ℕ) × (low ≤ m) × (m < high) × (active id m ≡ true)

abbrev pub bit_of : List Flags → Activity
bit_of rows id m = test_bit (get_or rows m []) id

pub test_rows-ActiveIn :
    (n id lvl : ℕ) (rows : List Flags)
    → test_rows n id lvl rows ≡ true
    → ActiveIn (bit_of rows) id lvl (lvl + n)
unfolding test_rows
test_rows-ActiveIn zero id lvl rows h = absurd (cc)
test_rows-ActiveIn (suc n) id lvl rows h = elim (Bool-cases (test_bit (get_or rows lvl []) id)) [
  | inl here ↦ (lvl, omega arith, omega arith, here)
  | inr not_here ↦
      let (m, low, high, active) = test_rows-ActiveIn n id (suc lvl) rows (ground arith) in
      (m, omega arith, omega arith, active)
]

pub ActiveIn-test_rows :
    (n id lvl : ℕ) (rows : List Flags)
    → ActiveIn (bit_of rows) id lvl (lvl + n)
    → test_rows n id lvl rows ≡ true
unfolding test_rows
ActiveIn-test_rows zero id lvl rows (m, low, high, active) = absurd (omega arith)
ActiveIn-test_rows (suc n) id lvl rows (m, low, high, active) =
    elim (Bool-cases (test_bit (get_or rows lvl []) id)) [
      | inl here ↦ rw here refl
      | inr not_here ↦
          let apart : lvl ≢ m = λ e.
            let off : test_bit (get_or rows m []) id ≡ false = rw (sym e) not_here in absurd (cc) in
          rw not_here (ActiveIn-test_rows n id (suc lvl) rows (m, omega arith, omega arith, active))
    ]

pub any_bit_iff :
    (bits : Flags)
    → (any_bit bits ≡ true) ↔ ((j : ℕ) × (j < length bits) × (test_bit bits j ≡ true))
any_bit_iff bits = (some_bit bits, is_any bits)
  where
    some_bit :
        (bits : Flags)
        → any_bit bits ≡ true
        → (j : ℕ) × (j < length bits) × (test_bit bits j ≡ true)
    some_bit [] h = absurd (cc)
    some_bit (true ∷ bits) h = (0, omega arith, refl)
    some_bit (false ∷ bits) h = let (j, room, set) = some_bit bits h in (suc j, omega arith, set)

    is_any :
        (bits : Flags)
        → ((j : ℕ) × (j < length bits) × (test_bit bits j ≡ true))
        → any_bit bits ≡ true
    is_any [] (j, room, set) = absurd (omega arith)
    is_any (true ∷ bits) (j, room, set) = refl
    is_any (false ∷ bits) (zero, room, set) = absurd (cc)
    is_any (false ∷ bits) (suc j, room, set) = is_any bits (j, omega arith, set)

-- Where the last level is not the greatest of its type, the loop ends and has read all its rows.
pub test_levels-test_rows :
    (n fuel level_mod id lvl hi : ℕ) (rows : List Flags)
    → lvl + n ≡ hi + 1
    → hi + 1 < level_mod
    → n < fuel
    → test_levels fuel level_mod id lvl hi rows ≡ some (test_rows n id lvl rows)
unfolding test_levels test_rows
test_levels-test_rows n zero level_mod id lvl hi rows e small enough = absurd (omega arith)
test_levels-test_rows zero (suc fuel) level_mod id lvl hi rows e small enough =
    let past : leb lvl hi ≡ false = ground arith in rw past refl
test_levels-test_rows (suc n) (suc fuel) level_mod id lvl hi rows e small enough =
    let inside : leb lvl hi ≡ true = ground arith in
    let next : (lvl + 1) % level_mod ≡ suc lvl = mod-eq_of_lt (omega arith) ∙ omega arith in
    let rest =
      test_levels-test_rows n fuel level_mod id (suc lvl) hi rows (omega arith) small
        (omega arith) in
    elim (Bool-cases (test_bit (get_or rows lvl []) id)) [
      | inl on ↦ rw (inside, on) refl
      | inr off ↦ rw (inside, off, next, rest) refl
    ]
