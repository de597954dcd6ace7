-- ===== src/Can/Consumers/Losses.antt =====
-- Nodes that stay silent are reported, each once.
use emblib.Base.{
  ℕ, ◌+◌, ◌≡◌, refl, sym, ◌∙◌, ap, inl, inr, Bool, true, false, Bool-cases, List, [], ◌∷◌, map,
  arith, ltb, leb, not, ◌&&◌, ◌||◌, if◌then◌else◌,
}
use emblib.Can.Consumers.{WatchSlot, call_with, is_silent, tick_watches}

-- The ticks that have been, the latest first.
abbrev pub seen : List ℕ → List ℕ → List ℕ
seen before [] = before
seen before (t ∷ ts) = seen (t ∷ before) ts

module _ {S : Type 0} where
  -- `tick` at each of a list of times.
  abbrev pub ticks : List ℕ → List (WatchSlot S) → S → List (WatchSlot S) × S
  ticks [] ws s = (ws, s)
  ticks (t ∷ ts) ws s = let (ws', s') = tick_watches t ws s in ticks ts ws' s'

  -- A watch is overdue when its timeout, if it has one, has gone by since the last heartbeat.
  abbrev pub overdue : ℕ → WatchSlot S → Bool
  overdue t w = ltb 0 w.timeout && leb (w.last_rx + w.timeout) t

  -- A watch is lost after some ticks, the latest first, if it was or is overdue at one of them.
  abbrev pub lost_after : List ℕ → WatchSlot S → Bool
  lost_after [] w = w.lost
  lost_after (t ∷ before) w = overdue t w || lost_after before w

  abbrev pub marked : List ℕ → WatchSlot S → WatchSlot S
  marked before w = record w { lost = lost_after before w }

  -- A watch is reported at the first tick at which it is overdue.
  abbrev pub reported_at : List ℕ → ℕ → WatchSlot S → Bool
  reported_at before t w = overdue t w && not (lost_after before w)

  -- The handlers of the watches that are reported at a tick, in the order of the watches, and those
  -- of all ticks, in their order.
  abbrev pub reports_at : List ℕ → ℕ → List (WatchSlot S) → S → S
  reports_at before t [] s = s
  reports_at before t (w ∷ ws) s =
      reports_at before t ws (if reported_at before t w then call_with w.on_lost w.remote s else s)

  abbrev pub reports : List ℕ → List ℕ → List (WatchSlot S) → S → S
  reports before [] ws s = s
  reports before (t ∷ ts) ws s = reports (t ∷ before) ts ws (reports_at before t ws s)

  -- At how many ticks a watch is reported.
  abbrev pub times_reported : List ℕ → List ℕ → WatchSlot S → ℕ
  times_reported before [] w = 0
  times_reported before (t ∷ ts) w =
      (if reported_at before t w then 1 else 0) + times_reported (t ∷ before) ts w

  is_silent-marked :
      (before : List ℕ) (t : ℕ) (w : WatchSlot S)
      → is_silent t (marked before w) ≡ reported_at before t w
  is_silent-marked before t w = ground arith

  marked_now :
      (before : List ℕ) (t : ℕ) (w : WatchSlot S)
      → (if reported_at before t w
          then record (marked before w) { lost = true }
          else marked before w)
        ≡ marked (t ∷ before) w
  marked_now before t w = ground arith

  tick_watches-marked :
      (before : List ℕ) (t : ℕ) (ws : List (WatchSlot S)) (s : S)
      → tick_watches t (map (marked before) ws) s
        ≡ (map (marked (t ∷ before)) ws, reports_at before t ws s)
  unfolding tick_watches
  tick_watches-marked before t [] s = refl
  tick_watches-marked before t (w ∷ ws) s =
      let s' = if reported_at before t w then call_with w.on_lost w.remote s else s in
      rw (is_silent-marked before t w, marked_now before t w, tick_watches-marked before t ws s')
        refl

  ticks-marked :
      (ts before : List ℕ) (ws : List (WatchSlot S)) (s : S)
      → ticks ts (map (marked before) ws) s
        ≡ (map (marked (seen before ts)) ws, reports before ts ws s)
  ticks-marked [] before ws s = refl
  ticks-marked (t ∷ ts) before ws s =
      ap (λ r. ticks ts r.0 r.1) (tick_watches-marked before t ws s)
      ∙ ticks-marked ts (t ∷ before) ws (reports_at before t ws s)

  unmarked : (ws : List (WatchSlot S)) → map (marked []) ws ≡ ws
  unmarked [] = refl
  unmarked (w ∷ ws) = ap (◌∷◌ w) (unmarked ws)

  reported_never :
      (ts before : List ℕ) (w : WatchSlot S)
      → lost_after before w ≡ true
      → times_reported before ts w ≡ 0
  reported_never [] before w h = refl
  reported_never (t ∷ ts) before w h =
      ground (arith, h, reported_never ts (t ∷ before) w (ground (arith, h)))

  lost_stays :
      (ts before : List ℕ) (w : WatchSlot S)
      → lost_after before w ≡ true
      → lost_after (seen before ts) w ≡ true
  lost_stays [] before w h = h
  lost_stays (t ∷ ts) before w h = lost_stays ts (t ∷ before) w (ground (arith, h))

  reported_once :
      (ts before : List ℕ) (w : WatchSlot S)
      → lost_after before w ≡ false
      → times_reported before ts w ≡ (if lost_after (seen before ts) w then 1 else 0)
  reported_once [] before w h = rw h refl
  reported_once (t ∷ ts) before w h = elim (Bool-cases (overdue t w)) [
    | inl late ↦
        let lost : lost_after (t ∷ before) w ≡ true = ground (arith, late) in
        ground
          (arith, h, late, reported_never ts (t ∷ before) w lost, lost_stays ts (t ∷ before) w lost)
    | inr early ↦
        let kept : lost_after (t ∷ before) w ≡ false = ground (arith, h, early) in
        ground (arith, early, reported_once ts (t ∷ before) w kept)
  ]

  -- Over any ticks without a frame between them, for any watches: a watch ends as lost if it was, or
  -- if it has a timeout that has gone by since its last heartbeat at one of the ticks, and is otherwise
  -- as it was. The handlers are called in the order of the ticks and, at each, of the watches, at the
  -- first tick at which the watch is overdue: so once for a watch that becomes lost, and never for
  -- another.
  pub loss_reported_once :
      (ts : List ℕ) (ws : List (WatchSlot S)) (s : S) (w : WatchSlot S)
      → (ticks ts ws s ≡ (map (marked (seen [] ts)) ws, reports [] ts ws s))
        × (times_reported [] ts w ≡ (if lost_after (seen [] ts) w && not w.lost then 1 else 0))
  loss_reported_once ts ws s w = (
    ap (λ l. ticks ts l s) (sym (unmarked ws)) ∙ ticks-marked ts [] ws s,
    elim (Bool-cases w.lost) [
      | inl was ↦ ground (arith, was, reported_never ts [] w was)
      | inr was_not ↦ ground (arith, was_not, reported_once ts [] w was_not)
    ],
  )
