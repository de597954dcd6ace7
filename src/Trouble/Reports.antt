-- ===== src/Trouble/Reports.antt =====
-- What the registry and the mirror of emb/trouble.hpp report.
use emblib.Base.{
  ℕ, suc, refl, Bool, Option, some, ◌+◌, ◌≤◌, ◌<◌, ◌≡◌, ◌↔◌, ap, sym, subst, ◌∙◌, true, false, inl,
  inr, Bool-cases, List, [], arith, length, get_or, replicate, length-replicate, ◌==◌, ==_iff,
}
use emblib.Trouble.{Status, Registry, Call, test_bit, empty_registry, status_of, test_at, test, run}
use emblib.Trouble.Mirror.{empty_mirror, test_rows, worst, send_levels}
use emblib.Trouble.Rows.{Activity, nothing, Shows, empty-Shows}
use emblib.Trouble.Active.{HasLevels, AreValid, effects, rounds, run-Leaves}
use emblib.Trouble.Reads.{
  ActiveIn, bit_of, test_rows-ActiveIn, ActiveIn-test_rows, test_levels-test_rows,
}
use emblib.Trouble.Worst.{IsHighest, worst_below-IsHighest, sent_row}

module _ (statuses : List Status) (level_count : ℕ) (active : Activity) (r : Registry)
    (shows : Shows level_count (length statuses) active r) where
  published_bit :
      (id m : ℕ) → id < length statuses → m < level_count → bit_of r.flags id m ≡ active id m
  published_bit id m hi hm =
      ap (λ rows. test_bit (get_or rows m []) id) shows.published ∙ shows.bits id m hi hm

  published_in :
      (id low high : ℕ)
      → id < length statuses
      → high ≤ level_count
      → ActiveIn (bit_of r.flags) id low high ↔ ActiveIn active id low high
  published_in id low high hi room = (
    λ k. (k.0, k.1, k.2, sym (published_bit id k.0 hi (omega (arith, k.2))) ∙ k.3),
    λ k. (k.0, k.1, k.2, published_bit id k.0 hi (omega (arith, k.2)) ∙ k.3),
  )

  test_at_shown :
      (id lvl : ℕ) → id < length statuses → lvl < level_count → test_at id lvl r ≡ active id lvl
  unfolding test_at
  test_at_shown id lvl hi hl = published_bit id lvl hi hl

  -- A test ends, and tells whether a status is active at one of its levels.
  abbrev Tells : Option Bool → ℕ → Type 0
  Tells o id =
      let s = status_of statuses id in
      (b : Bool) × (o ≡ some b) × ((b ≡ true) ↔ ActiveIn active id s.level_min (s.level_max + 1))

  test_shown :
      (level_mod id : ℕ)
      → HasLevels statuses level_count level_mod
      → id < length statuses
      → Tells (test statuses level_count level_mod id r) id
  unfolding test
  test_shown level_mod id levels hi =
      let s = status_of statuses id in
      let (low, high, ends) = levels id hi in
      elim (Bool-cases (s.level_min == s.level_max)) [
        | inl same ↦ (
          test_at id s.level_min r,
          rw same refl,
          (
            λ on. (
              s.level_min,
              omega arith,
              omega arith,
              sym (test_at_shown id s.level_min hi (omega arith)) ∙ on,
            ),
            λ k.
                test_at_shown id s.level_min hi (omega arith)
                ∙ ap (active id) (omega (arith, k.1, k.2, (==_iff s.level_min s.level_max).0 same))
                ∙ k.3,
          ),
        )
        | inr apart ↦
            let end : s.level_min + rounds s ≡ s.level_max + 1 = omega arith in
            let small : s.level_max + 1 < level_mod = elim ends [
              | inl e ↦ absurd (ground (arith, apart, e))
              | inr lt ↦ lt
            ] in
            (
              test_rows (rounds s) id s.level_min r.flags,
              rw apart (
                  test_levels-test_rows (rounds s) (suc level_mod) level_mod id s.level_min
                    s.level_max r.flags end small (omega arith)),
              (
                λ on. (published_in id s.level_min (s.level_max + 1) hi (omega arith)).0 (
                    subst (ActiveIn (bit_of r.flags) id s.level_min) end
                      (test_rows-ActiveIn (rounds s) id s.level_min r.flags on)),
                λ k. ActiveIn-test_rows (rounds s) id s.level_min r.flags (
                    subst (ActiveIn (bit_of r.flags) id s.level_min) (sym end)
                      ((published_in id s.level_min (s.level_max + 1) hi (omega arith)).1 k)),
              ),
            )
      ]

  mirror_row :
      (m : ℕ)
      → m < level_count
      → get_or (send_levels level_count r (empty_mirror level_count (length statuses))).rows m []
        ≡ get_or r.shadow m []
  unfolding empty_mirror
  mirror_row m hm =
      let size = length-replicate level_count (replicate (length statuses) false) in
      sent_row level_count m r (empty_mirror level_count (length statuses)) (omega arith) hm
      ∙ ap (λ rows. get_or rows m []) shows.published

  worst_shown :
      IsHighest
        (length statuses)
        active
        level_count
        (worst level_count (send_levels level_count r (empty_mirror level_count (length statuses))))
  unfolding worst
  worst_shown =
      worst_below-IsHighest (length statuses) active level_count
        (send_levels level_count r (empty_mirror level_count (length statuses))).rows
        (λ m hm. ap length (mirror_row m hm) ∙ shows.status_bits m hm)
        (λ j m hj hm. ap (λ row. test_bit row j) (mirror_row m hm) ∙ shows.bits j m hj hm)

-- For statuses whose levels are in order and within the level count, and of which those of several
-- levels do not reach the greatest value of the levels' underlying type, any valid calls on an empty
-- registry end. After them the test of a status at a level tells whether the calls have left it active
-- there, the test of a status ends and tells whether they have left it active at one of its levels, and
-- a mirror that is sent all levels names as its worst the highest level at which any status is active,
-- if there is one.
pub calls_are_reported :
    (statuses : List Status) (level_count level_mod : ℕ) (cs : List Call) (id lvl : ℕ)
    → HasLevels statuses level_count level_mod
    → AreValid statuses level_count level_mod cs
    → id < length statuses
    → lvl < level_count
    → let s = status_of statuses id in
      let active = effects statuses level_count level_mod cs nothing in
      (r : Registry) × (b : Bool) × (run statuses level_count level_mod cs
          (empty_registry level_count (length statuses))
        ≡ some r)
      × (test_at id lvl r ≡ active id lvl)
      × (test statuses level_count level_mod id r ≡ some b)
      × ((b ≡ true) ↔ ActiveIn active id s.level_min (s.level_max + 1))
      × IsHighest (length statuses) active level_count (
          worst level_count
            (send_levels level_count r (empty_mirror level_count (length statuses))))
calls_are_reported statuses level_count level_mod cs id lvl levels valid hi hl =
    let (r, ran, shows) =
      run-Leaves statuses level_count level_mod cs nothing
        (empty_registry level_count (length statuses)) levels valid
        (unfold empty_registry in empty-Shows level_count (length statuses)) in
    let (b, tested, tells) = test_shown statuses level_count _ _ shows level_mod id levels hi in
    (
      r,
      b,
      ran,
      test_at_shown statuses level_count _ _ shows id lvl hi hl,
      tested,
      tells,
      worst_shown statuses level_count _ _ shows,
    )
