-- ===== src/Trouble/Active.antt =====
-- What the calls of a registry of emb/trouble.hpp make active.
use emblib.Base.{
  ℕ, ◌≤◌, ◌<◌, ◌+◌, ◌-◌, suc, ◌⊎◌, refl, Option, some, ◌≡◌, true, false, inl, inr, Bool-cases, List,
  [], ◌∷◌, arith, length, ◌==◌,
}
use emblib.Trouble.{
  Status, Registry, Call, set_level, reset_level, set_status, reset_status, clear_all, set_at,
  reset_at, set_only, reset, clear, status_of, call, run, write_bit,
}
use emblib.Trouble.Rows.{
  Activity, switched, switched_off, switched_off_between, off_between, Shows-agree, nothing, Shows,
  write_bit-Shows, reset_rounds, reset_rounds-Shows, reset_levels-reset_rounds, empty-Shows,
}

-- The number of levels of a status.
abbrev pub rounds : Status → ℕ
rounds s = s.level_max + 1 - s.level_min

module _ (statuses : List Status) (level_count level_mod : ℕ) where
  -- The static assertions of the class, and what keeps its loops from running for ever: a status of
  -- several levels does not reach the greatest one of their type.
  abbrev pub HasLevels : Type 0
  HasLevels =
      (id : ℕ)
      → id < length statuses
      → ((status_of statuses id).level_min ≤ (status_of statuses id).level_max)
        × ((status_of statuses id).level_max < level_count)
        × (((status_of statuses id).level_min ≡ (status_of statuses id).level_max)
            ⊎ ((status_of statuses id).level_max + 1 < level_mod))

  abbrev pub IsValid : Call → Type 0
  IsValid (set_level id lvl) = (id < length statuses) × (lvl < level_count)
  IsValid (reset_level id lvl) = (id < length statuses) × (lvl < level_count)
  IsValid (set_status id) = id < length statuses
  IsValid (reset_status id) = id < length statuses
  IsValid clear_all = Unit

  abbrev pub AreValid : List Call → Type 0
  AreValid [] = Unit
  AreValid (c ∷ cs) = IsValid c × AreValid cs

  -- What a call changes: a bit, the bits of a status at all its levels, or everything.
  abbrev pub effect : Call → Activity → Activity
  effect (set_level id lvl) active = switched id lvl true active
  effect (reset_level id lvl) active = switched id lvl false active
  effect (set_status id) active = switched id (status_of statuses id).level_min true active
  effect (reset_status id) active =
      let s = status_of statuses id in off_between id s.level_min s.level_max active
  effect clear_all active = nothing

  abbrev pub effects : List Call → Activity → Activity
  effects [] active = active
  effects (c ∷ cs) active = effects cs (effect c active)

  -- A call ends, and the registry then shows what it has made active.
  abbrev pub Leaves : Option Registry → Activity → Type 0
  Leaves o active = (r : Registry) × (o ≡ some r) × Shows level_count (length statuses) active r

  reset-Leaves :
      (id : ℕ) (active : Activity) (r : Registry)
      → HasLevels
      → id < length statuses
      → Shows level_count (length statuses) active r
      → Leaves (reset statuses level_count level_mod id r) (effect (reset_status id) active)
  unfolding reset reset_at
  reset-Leaves id active r levels hi h =
      let s = status_of statuses id in
      let (low, high, ends) = levels id hi in
      let agree = λ (o : Registry).
        Shows-agree level_count (length statuses) (switched_off (rounds s) id s.level_min active)
          (effect (reset_status id) active) o
          (λ j m. switched_off_between id s.level_min s.level_max j m active low) in
      elim (Bool-cases (s.level_min == s.level_max)) [
        | inl same ↦
            let single : rounds s ≡ 1 = ground arith in
            let cleared =
              write_bit-Shows level_count (length statuses) id s.level_min false active r hi
                (omega arith) h in
            (write_bit id false s.level_min r, rw same refl, agree _ (rw single cleared))
        | inr apart ↦
            let small : s.level_max + 1 < level_mod = elim ends [
              | inl e ↦ absurd (ground (arith, apart, e))
              | inr lt ↦ lt
            ] in
            (
              reset_rounds (rounds s) id s.level_min r,
              rw apart (
                  reset_levels-reset_rounds (rounds s) (suc level_mod) level_mod id s.level_min
                    s.level_max r (omega arith) small (omega arith)),
              agree _ (
                  reset_rounds-Shows level_count (length statuses) (rounds s) id s.level_min active
                    r hi (omega arith) h),
            )
      ]

  call-Leaves :
      (c : Call) (active : Activity) (r : Registry)
      → HasLevels
      → IsValid c
      → Shows level_count (length statuses) active r
      → Leaves (call statuses level_count level_mod c r) (effect c active)
  unfolding set_at reset_at set_only clear
  call-Leaves (set_level id lvl) active r levels v h =
      (_, refl, write_bit-Shows level_count (length statuses) id lvl true active r v.0 v.1 h)
  call-Leaves (reset_level id lvl) active r levels v h =
      (_, refl, write_bit-Shows level_count (length statuses) id lvl false active r v.0 v.1 h)
  call-Leaves (set_status id) active r levels v h =
      let (low, high, _) = levels id v in
      (_, refl, write_bit-Shows level_count (length statuses) id _ true active r v (omega arith) h)
  call-Leaves (reset_status id) active r levels v h = reset-Leaves id active r levels v h
  call-Leaves clear_all active r levels v h = (_, refl, empty-Shows level_count (length statuses))

  pub run-Leaves :
      (cs : List Call) (active : Activity) (r : Registry)
      → HasLevels
      → AreValid cs
      → Shows level_count (length statuses) active r
      → Leaves (run statuses level_count level_mod cs r) (effects cs active)
  unfolding run
  run-Leaves [] active r levels v h = (r, refl, h)
  run-Leaves (c ∷ cs) active r levels v h =
      let (r', e, h') = call-Leaves c active r levels v.0 h in
      let (r'', e', h'') = run-Leaves cs (effect c active) r' levels v.1 h' in (r'', rw e e', h'')
