-- ===== src/Can/Producers/Spacing.antt =====
-- When the frames of a periodic producer are sent, and how far apart they are.
use emblib.Base.{
  ℕ, ◌+◌, ◌-◌, ◌≤◌, ◌≡◌, refl, subst, ◌⊎◌, inl, inr, Bool, Bool-cases, List, [], ◌∷◌, ◌++◌, arith,
  ltb, ◌==◌, if◌then◌else◌, false, ◌&&◌, ap, leb, true,
}
use emblib.Can.{Frame, Transport}
use emblib.Can.Producers.{Periodic, tick}

-- Each time is at least a period after the one before it.
abbrev pub Spaced : ℕ → ℕ → List ℕ → Type 0
Spaced period last [] = Unit
Spaced period last (t ∷ ts) = (last + period ≤ t) × Spaced period t ts

-- A bus that keeps the times at which it takes a frame, next to the time that it is.
pub record Watched (B : Type 0) : Type 0 where
  pub now : ℕ
  pub taken : List ℕ
  pub inner : B

module _ {B : Type 0} (bus : Transport B) where
  abbrev pub note : Watched B → Bool × B → Bool × Watched B
  note w (ok, b) =
      (ok, record w { taken = (if ok then w.taken ++ w.now ∷ [] else w.taken); inner = b })

  abbrev pub watched : Transport (Watched B)
  watched = record {
    send = λ frame w. note w (bus.send frame w.inner);
    add_filter = λ format id mask w. record w { inner = bus.add_filter format id mask w.inner };
  }

module _ {B : Type 0} (bus : Transport B) (frame : Frame) where
  -- A tick on the watched bus, and the times that the bus has kept after ticks at a list of times.
  abbrev pub tick_at : ℕ → Periodic → B → Periodic × Watched B
  tick_at t p b = tick (watched bus) frame t p (record { now = t; taken = []; inner = b })

  abbrev pub sent_at : List ℕ → Periodic → B → List ℕ
  sent_at [] p b = []
  sent_at (t ∷ ts) p b = let (p', w) = tick_at t p b in w.taken ++ sent_at ts p' w.inner

  tick_at_cases :
      (t : ℕ) (p : Periodic) (b : B)
      → (((tick_at t p b).1.taken ≡ t ∷ [])
          × (p.last_tx + p.period ≤ t)
          × ((tick_at t p b).0 ≡ record p { last_tx = t }))
        ⊎ (((tick_at t p b).1.taken ≡ []) × ((tick_at t p b).0 ≡ p))
  unfolding tick
  tick_at_cases t p b = elim (Bool-cases (p.period == 0)) [
    | inl off ↦ inr (rw off refl, rw off refl)
    | inr on ↦ elim (Bool-cases (ltb (t - p.last_tx) p.period)) [
      | inl early ↦ inr (rw (on, early) refl, rw (on, early) refl)
      | inr due ↦ elim (Bool-cases (bus.send frame b).0) [
        | inl taken ↦
            let late : p.last_tx + p.period ≤ t = ground arith in
            inl (rw (on, due, taken) refl, late, rw (on, due, taken) refl)
        | inr refused ↦ inr (rw (on, due, refused) refl, rw (on, due, refused) refl)
      ]
    ]
  ]

  sent_at-Spaced : (ts : List ℕ) (p : Periodic) (b : B) → Spaced p.period p.last_tx (sent_at ts p b)
  sent_at-Spaced [] p b = tt
  sent_at-Spaced (t ∷ ts) p b =
      let (p', w) = tick_at t p b in
      elim (tick_at_cases t p b) [
        | inl (taken, late, same) ↦
            let rest =
              subst (λ q. Spaced q.period q.last_tx (sent_at ts p' w.inner)) same
                (sent_at-Spaced ts p' w.inner) in
            rw taken (late, rest)
        | inr (nothing, same) ↦
            let rest =
              subst (λ q. Spaced q.period q.last_tx (sent_at ts p' w.inner)) same
                (sent_at-Spaced ts p' w.inner) in
            rw nothing rest
      ]

  -- A frame is due where there is a period, and it has gone by since the last one.
  abbrev pub is_due : ℕ → ℕ → ℕ → Bool
  is_due period last t = ltb 0 period && leb (last + period) t

  -- The times at which a bus takes the frames of a producer that offers one whenever it is due.
  abbrev pub due_times : ℕ → List ℕ → ℕ → B → List ℕ
  due_times period [] last b = []
  due_times period (t ∷ ts) last b =
      let (ok, b') = bus.send frame b in
      if is_due period last t
      then (if ok then t ∷ due_times period ts t b' else due_times period ts last b')
      else due_times period ts last b

  sent_at-due_times :
      (ts : List ℕ) (p : Periodic) (b : B) → sent_at ts p b ≡ due_times p.period ts p.last_tx b
  unfolding tick
  sent_at-due_times [] p b = refl
  sent_at-due_times (t ∷ ts) p b = elim (Bool-cases (p.period == 0)) [
    | inl off ↦
        let not_due : is_due p.period p.last_tx t ≡ false = ground (arith, off) in
        rw (off, not_due) (sent_at-due_times ts p b)
    | inr on ↦ elim (Bool-cases (ltb (t - p.last_tx) p.period)) [
      | inl early ↦
          let not_due : is_due p.period p.last_tx t ≡ false = ground (arith, on, early) in
          rw (on, early, not_due) (sent_at-due_times ts p b)
      | inr late ↦
          let due : is_due p.period p.last_tx t ≡ true = ground (arith, on, late) in
          let b' = (bus.send frame b).1 in
          elim (Bool-cases (bus.send frame b).0) [
            | inl taken ↦
                rw (on, late, due, taken)
                  (ap (◌∷◌ t) (sent_at-due_times ts (record p { last_tx = t }) b'))
            | inr refused ↦ rw (on, late, due, refused) (sent_at-due_times ts p b')
          ]
    ]
  ]

  -- Whatever the times of the ticks and whatever the bus refuses: the bus is offered a frame at each
  -- tick at which one is due, and takes it or refuses it; and the times at which it takes one are at
  -- least a period apart, the first at least a period after the last one before.
  pub frames_sent_when_due :
      (ts : List ℕ) (p : Periodic) (b : B)
      → (sent_at ts p b ≡ due_times p.period ts p.last_tx b)
        × Spaced p.period p.last_tx (sent_at ts p b)
  frames_sent_when_due ts p b = (sent_at-due_times ts p b, sent_at-Spaced ts p b)
