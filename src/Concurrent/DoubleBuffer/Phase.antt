-- ===== src/Concurrent/DoubleBuffer/Phase.antt =====
-- The phases of a load of emb/concurrent/double_buffer.hpp, over the events of a run.
use emblib.Base.{◌≡◌, List, [], ◌∷◌}
use emblib.Concurrent.DoubleBuffer.{Event, silent, began, opened, stored, loaded}

-- No load; one with no store committed since it read `front_`; one with a store committed since.
-- The value is what was current then.
pub data Phase (W : Type 0) : Type 0 where
  out : Phase W
  fresh moved : List W → Phase W

module _ {W : Type 0} where
  abbrev pub committed : Phase W → Phase W
  committed out = out
  committed (fresh snap) = moved snap
  committed (moved snap) = moved snap

  abbrev pub next : List W → Phase W → Event W → Phase W
  next cur p silent = p
  next cur p opened = p
  next cur p began = fresh cur
  next cur p (stored v) = committed p
  next cur p (loaded v) = out

  abbrev pub after : List W → Event W → List W
  after cur (stored v) = v
  after cur _ = cur

  abbrev pub HasNotMoved : Phase W → Type 0
  HasNotMoved (moved snap) = ⊥
  HasNotMoved _ = Unit

  abbrev pub IsCalm : Event W → Phase W → Type 0
  IsCalm opened p = HasNotMoved p
  IsCalm _ p = Unit

  -- In no load a store begins to write after another one was committed.
  abbrev pub AreCalm : List W → Phase W → List (Event W) → Type 0
  AreCalm cur p [] = Unit
  AreCalm cur p (e ∷ es) = IsCalm e p × AreCalm (after cur e) (next cur p e) es

  abbrev pub HasSnap : Phase W → List W → Type 0
  HasSnap out v = ⊥
  HasSnap (fresh snap) v = v ≡ snap
  HasSnap (moved snap) v = v ≡ snap

  abbrev pub IsRight : Event W → Phase W → Type 0
  IsRight (loaded v) p = HasSnap p v
  IsRight _ p = Unit

  -- Each load returns what was current when it read `front_`.
  abbrev pub AreRight : List W → Phase W → List (Event W) → Type 0
  AreRight cur p [] = Unit
  AreRight cur p (e ∷ es) = IsRight e p × AreRight (after cur e) (next cur p e) es
