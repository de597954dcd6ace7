-- ===== src/Concurrent/Seqlock/Register.antt =====
-- An atomic register, which the sequence locks behave as.
use emblib.Base.{ℕ, suc, ◌≡◌, List, [], ◌∷◌, length}
use emblib.Concurrent.Seqlock.{
  Job, Writer, Event, Action, opened, marked, writing, committed, loaded, write, desired,
}

module _ {W : Type 0} where
  -- A job that keeps the size of the value.
  abbrev pub Fits : ℕ → Job W → Type 0
  Fits n job = (v : List W) → length v ≡ n → length (desired job v) ≡ n

  abbrev pub ActionFits : ℕ → Action W → Type 0
  ActionFits n (write job) = Fits n job
  ActionFits n _ = Unit

  -- How far the number goes on before the writer is idle.
  abbrev pub pending : Writer W → ℕ
  pending Writer.idle = 0
  pending (opened job s) = 2
  pending (marked job s) = 1
  pending (writing job v s i) = 1

  -- The current value after an event.
  abbrev pub after : Event W → List W → List W
  after (committed job) cur = desired job cur
  after _ cur = cur

  -- A load returns the current value.
  abbrev pub IsRight : List W → Event W → Type 0
  IsRight cur (loaded v) = v ≡ cur
  IsRight cur _ = Unit

  -- Over the events of a run: each load returns the current value, which the committed jobs change.
  abbrev pub Explained : List W → List (Event W) → Type 0
  Explained cur [] = Unit
  Explained cur (e ∷ es) = IsRight cur e × Explained (after e cur) es

  abbrev pub AllFit : ℕ → List (Action W) → Type 0
  AllFit n [] = Unit
  AllFit n (a ∷ acts) = ActionFits n a × AllFit n acts

  -- The calls of the writer in a schedule.
  abbrev pub writes : List (Action W) → ℕ
  writes [] = 0
  writes (write job ∷ acts) = suc (writes acts)
  writes (_ ∷ acts) = writes acts
