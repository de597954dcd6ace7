-- ===== src/Trouble/Worst.antt =====
-- The rows of a mirror of emb/trouble.hpp, and the highest level of what they show.
use emblib.Base.{
  ℕ, zero, suc, ◌≤◌, ◌<◌, ◌≡◌, refl, sym, subst, ◌∙◌, true, false, inl, inr, Bool-cases, Option,
  none, some, List, [], arith, length, get_or, set, length-set, get_or-set,
}
use native.Mathlib.Decide.{ℕ_discrete}
use emblib.Trouble.{Flags, Registry, test_bit, any_bit, flags_of}
use emblib.Trouble.Mirror.{RegistryMirror, store, worst_below, send_levels}
use emblib.Trouble.Rows.{Activity}
use emblib.Trouble.Reads.{any_bit_iff}

module _ (status_count : ℕ) (active : Activity) where
  -- Nothing is active below a level, or a level is the highest one there with an active status.
  abbrev IsQuiet : ℕ → Type 0
  IsQuiet m = (j : ℕ) → j < status_count → active j m ≡ false

  abbrev pub IsHighest : ℕ → Option ℕ → Type 0
  IsHighest level_count none = (m : ℕ) → m < level_count → IsQuiet m
  IsHighest level_count (some l) =
      (l < level_count)
      × ((j : ℕ) × (j < status_count) × (active j l ≡ true))
      × ((m : ℕ) → l < m → m < level_count → IsQuiet m)

  row-IsQuiet :
      (bits : Flags) (m : ℕ)
      → length bits ≡ status_count
      → ((j : ℕ) → j < status_count → test_bit bits j ≡ active j m)
      → any_bit bits ≡ false
      → IsQuiet m
  row-IsQuiet bits m size shown h j hj = elim (Bool-cases (active j m)) [
    | inl on ↦ let wrong = (any_bit_iff bits).1 (j, omega arith, shown j hj ∙ on) in absurd (cc)
    | inr off ↦ off
  ]

  IsQuiet-up_to :
      (l m : ℕ) (low : ℕ)
      → ((m : ℕ) → low ≤ m → m < l → IsQuiet m)
      → IsQuiet l
      → low ≤ m
      → m < suc l
      → IsQuiet m
  IsQuiet-up_to l m low below here h hm = elim (ℕ_discrete m l) [
    | yes e ↦ subst IsQuiet (sym e) here
    | no ne ↦ below m h (omega arith)
  ]

  widen : (o : Option ℕ) (l : ℕ) → IsHighest l o → IsQuiet l → IsHighest (suc l) o
  widen none l quiet here = λ m hm. IsQuiet-up_to l m 0 (λ m h hm. quiet m hm) here (omega arith) hm
  widen (some k) l (bound, on, quiet) here = (
    omega arith,
    on,
    λ m above hm.
        IsQuiet-up_to l m (suc k) (λ m h hm. quiet m (omega arith) hm) here (omega arith) hm,
  )

  pub worst_below-IsHighest :
      (k : ℕ) (rows : List Flags)
      → ((m : ℕ) → m < k → length (get_or rows m []) ≡ status_count)
      → ((j m : ℕ) → j < status_count → m < k → test_bit (get_or rows m []) j ≡ active j m)
      → IsHighest k (worst_below k rows)
  unfolding worst_below
  worst_below-IsHighest zero rows sizes shown = λ m h. absurd (omega arith)
  worst_below-IsHighest (suc l) rows sizes shown = elim (Bool-cases (any_bit (get_or rows l []))) [
    | inl on ↦
        let (j, room, set) = (any_bit_iff (get_or rows l [])).0 on in
        let size = sizes l (omega arith) in
        rw on (
          omega arith,
          (j, omega arith, sym (shown j l (omega arith) (omega arith)) ∙ set),
          λ m above below. absurd (omega arith),
        )
    | inr off ↦ rw off (
        widen (worst_below l rows) l
          (worst_below-IsHighest l rows (λ m h. sizes m (omega arith))
            (λ j m hj hm. shown j m hj (omega arith)))
          (row-IsQuiet (get_or rows l []) l (sizes l (omega arith))
            (λ j hj. shown j l hj (omega arith)) off))
  ]

length-send_levels :
    (k : ℕ) (r : Registry) (m : RegistryMirror) → length (send_levels k r m).rows ≡ length m.rows
unfolding send_levels store
length-send_levels zero r m = refl
length-send_levels (suc l) r m =
    length-set (send_levels l r m).rows l (flags_of l r) ∙ length-send_levels l r m

pub sent_row :
    (k j : ℕ) (r : Registry) (m : RegistryMirror)
    → k ≤ length m.rows
    → j < k
    → get_or (send_levels k r m).rows j [] ≡ flags_of j r
unfolding send_levels store
sent_row zero j r m room h = absurd (omega arith)
sent_row (suc l) j r m room h =
    let rows = (send_levels l r m).rows in
    let size = length-send_levels l r m in
    let write = get_or-set rows l j (flags_of l r) [] (omega arith) in
    elim (ℕ_discrete l j) [
      | yes e ↦ ground (arith, write)
      | no ne ↦ ground (arith, write, sent_row l j r m (omega arith) (omega arith))
    ]
