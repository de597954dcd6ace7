-- ===== src/Trouble/Tests.antt =====
-- A registry of three statuses at three levels.
use emblib.Base.{zero, suc, Bool, some, inl, inr, ◌≡◌, ◌↔◌, refl, true, false, List, [], ◌∷◌, arith}
use emblib.Base.OptionMonad.{◌>>=◌}
use emblib.Trouble.{
  Registry, Status, Call, set_level, set_status, reset_status, clear_all, empty_registry,
  reset_levels, set_at, reset_at, set_only, reset, clear, test_at, test, run,
}
use emblib.Trouble.Mirror.{empty_mirror, worst, send_levels}
use emblib.Trouble.Rows.{nothing}
use emblib.Trouble.Active.{HasLevels, effects}
use emblib.Trouble.Reads.{ActiveIn}
use emblib.Trouble.Worst.{IsHighest}
use emblib.Trouble.Reports.{calls_are_reported}

-- One that is a warning or a fault, one that is only a fault, one that is at any level.
abbrev statuses : List Status
statuses =
    record { level_min = 0; level_max = 1 }
    ∷ record { level_min = 1; level_max = 1 }
    ∷ record { level_min = 0; level_max = 2 }
    ∷ []

abbrev history : List Call
history =
    set_level 2 2
    ∷ set_status 1
    ∷ clear_all
    ∷ set_level 0 0
    ∷ set_level 2 1
    ∷ set_level 2 2
    ∷ set_status 1
    ∷ reset_status 2
    ∷ []

history_shown :
    (run statuses 3 256 history (empty_registry 3 3) >>= λ r. some r.flags)
    ≡ some (
        (true ∷ false ∷ false ∷ [])
        ∷ (false ∷ true ∷ false ∷ [])
        ∷ (false ∷ false ∷ false ∷ [])
        ∷ [])
unfolding run set_at set_only clear reset reset_at reset_levels empty_registry
history_shown = refl

statuses-HasLevels : HasLevels statuses 3 256
statuses-HasLevels zero h = (omega arith, omega arith, inr (omega arith))
statuses-HasLevels (suc zero) h = (omega arith, omega arith, inl refl)
statuses-HasLevels (suc (suc zero)) h = (omega arith, omega arith, inr (omega arith))
statuses-HasLevels (suc (suc (suc id))) h = absurd (omega arith)

calls_are_reported_example :
    let active = effects statuses 3 256 history nothing in
    (r : Registry) × (b : Bool) × (run statuses 3 256 history (empty_registry 3 3) ≡ some r)
    × (test_at 1 1 r ≡ true)
    × (test statuses 3 256 1 r ≡ some b)
    × ((b ≡ true) ↔ ActiveIn active 1 1 2)
    × IsHighest 3 active 3 (worst 3 (send_levels 3 r (empty_mirror 3 3)))
calls_are_reported_example =
    calls_are_reported statuses 3 256 history 1 1 statuses-HasLevels
      (
        ((omega arith), (omega arith)),
        (
          (omega arith),
          (
            tt,
            (
              ((omega arith), (omega arith)),
              (
                ((omega arith), (omega arith)),
                (((omega arith), (omega arith)), ((omega arith), ((omega arith), tt))),
              ),
            ),
          ),
        ),
      )
      (omega arith) (omega arith)
