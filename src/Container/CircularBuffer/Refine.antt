-- ===== src/Container/CircularBuffer/Refine.antt =====
-- The circular buffer against the bounded deque of what it holds.
use emblib.Base.{
  ℕ, ◌≤◌, ◌<◌, ◌≡◌, refl, ◌∙◌, ap, ap₂, sym, subst, Bool, true, false, Option, some, List, [], ◌∷◌,
  ◌++◌, arith, length, get_elem?, get_elem?_above, init-snoc, last?, last?-snoc, snoc_of_pos,
  length-append, ◌==◌, if◌then◌else◌,
}
use native.Mathlib.Decide.{dec_lt}
use emblib.Base.OptionMonad.{◌>>=◌}
use emblib.Container.Slots.{max_capacity}
use emblib.Container.Deque.{
  Op, push_back, push_front, try_push_back, try_push_front, fill, try_pop_front, try_pop_back,
  clear, Reply, accepted, popped, deque_step, deque_run, try_push,
}
use emblib.Container.CircularBuffer.{
  CircularBuffer, emplace_back, emplace_front, try_emplace_back, try_emplace_front, take_front,
  take_back, step, run, empty_buffer, front_value, back_value, at,
}
use emblib.Container.CircularBuffer.Holds.{
  Holds, Makes, front_live, back_live, pop_front-Makes, pop_back-Makes, clear_buffer-Makes,
  empty_buffer-Holds,
}
use emblib.Container.CircularBuffer.Pushes.{
  write_back_with_room, write_front_with_room, write_back_with-Makes, write_front_with-Makes,
}
use emblib.Container.CircularBuffer.Copies.{fill_buffer-Makes}

-- A call succeeds, returns what the deque returns, and leaves what the deque leaves.
abbrev pub Replies {ℓ} :
    {A : Type ℓ} → ℕ → Option (Reply A × CircularBuffer A) → Reply A × List A → Type ℓ
Replies {A} cap r spec = (b : CircularBuffer A) × (r ≡ some (spec.0, b)) × Holds cap b spec.1

module _ {ℓ} {A : Type ℓ} (cap : ℕ) where
  take_front-Replies :
      {b : CircularBuffer A} (xs : List A)
      → Holds cap b xs
      → Replies cap (step cap b try_pop_front) (deque_step cap xs try_pop_front)
  unfolding step take_front
  take_front-Replies {b} [] h = (b, ground (arith, h.counted), h)
  take_front-Replies {b} (x ∷ xs) h =
      let (b', e, h') = pop_front-Makes cap x xs h in
      (b', ground (arith, h.counted, e, front_live x xs h), h')

  front_read :
      {b : CircularBuffer A} (xs : List A) → Holds cap b xs → front_value cap b ≡ get_elem? xs 0
  unfolding front_value
  front_read [] h = ground (arith, h.counted)
  front_read (x ∷ xs) h = ground (arith, h.counted, front_live x xs h)

  back_read : {b : CircularBuffer A} (xs : List A) → Holds cap b xs → back_value cap b ≡ last? xs
  unfolding back_value
  back_read [] h = ground (arith, h.counted)
  back_read {b} (y ∷ ys) h =
      let (xs, x, e) = snoc_of_pos (y ∷ ys) (omega arith) in
      let h' : Holds cap b (xs ++ x ∷ []) = subst (Holds cap b) e h in
      let (size, live) = back_live x xs h' in
      ground (arith, h.counted, size, live) ∙ sym (last?-snoc xs x) ∙ sym (ap last? e)

  at_read :
      {b : CircularBuffer A} (xs : List A) (i : ℕ) → Holds cap b xs → at cap b i ≡ get_elem? xs i
  unfolding at
  at_read xs i h = elim (dec_lt i (length xs)) [
    | yes p ↦ ground (arith, h.counted, h.window.at i (omega (arith, h.fits)))
    | no p ↦ ground (arith, h.counted, get_elem?_above xs i (omega arith))
  ]

  -- The accessors read the first, the last and the `i`-th element, and fault without one.
  pub accessors_read :
      {b : CircularBuffer A} (xs : List A) (i : ℕ)
      → Holds cap b xs
      → (front_value cap b ≡ get_elem? xs 0)
        × (back_value cap b ≡ last? xs)
        × (at cap b i ≡ get_elem? xs i)
  accessors_read {b} xs i h = (front_read xs h, back_read xs h, at_read xs i h)

  take_back_snoc :
      {b : CircularBuffer A} (xs : List A) (x : A)
      → Holds cap b (xs ++ x ∷ [])
      → Replies cap (step cap b try_pop_back) (popped (some x), xs)
  unfolding step take_back
  take_back_snoc {b} xs x h =
      let (b', e, h') = pop_back-Makes cap x xs h in
      let (size, live) = back_live x xs h in
      (b', ground (arith, h.counted, length-append xs (x ∷ []), e, size, live), h')

  take_back-Replies :
      {b : CircularBuffer A} (xs : List A)
      → Holds cap b xs
      → Replies cap (step cap b try_pop_back) (deque_step cap xs try_pop_back)
  unfolding step take_back
  take_back-Replies {b} [] h = (b, ground (arith, h.counted), h)
  take_back-Replies {b} (y ∷ ys) h =
      let (xs, x, e) = snoc_of_pos (y ∷ ys) (omega arith) in
      let same : deque_step cap (y ∷ ys) try_pop_back ≡ (popped (some x), xs) =
        ap (λ l. deque_step cap l try_pop_back) e
        ∙ ap₂ (λ o l. (popped o, l)) (last?-snoc xs x) (init-snoc xs x) in
      subst (Replies cap (step cap b try_pop_back)) (sym same)
        (take_back_snoc xs x (subst (Holds cap b) e h))

  abbrev attempt : CircularBuffer A → Option (CircularBuffer A) → Option (Bool × CircularBuffer A)
  attempt b r = if b.size == cap then some (false, b) else (do b' ← r; some (true, b'))

  -- A try to push is refused exactly when the buffer is full.
  try_push-Replies :
      {b : CircularBuffer A} (xs pushed : List A) (r : Option (CircularBuffer A))
      → Holds cap b xs
      → (length xs < cap → Makes cap r pushed)
      → Replies cap (do t ← attempt b r; some (accepted t.0, t.1)) (try_push cap xs pushed xs)
  try_push-Replies {b} xs pushed r h push = elim (dec_lt (length xs) cap) [
    | yes room ↦
        let (b', e, h') = push room in
        let spec : try_push cap xs pushed xs ≡ (accepted true, pushed) = ground arith in
        rw spec (b', ground (arith, h.counted, e), h')
    | no full ↦
        let spec : try_push cap xs pushed xs ≡ (accepted false, xs) = ground arith in
        rw spec (b, ground (arith, h.counted, h.fits), h)
  ]

  -- Each call on a buffer that holds a list does what the deque does with that list.
  pub step_refines :
      {b : CircularBuffer A} (xs : List A) (op : Op A)
      → Holds cap b xs
      → Replies cap (step cap b op) (deque_step cap xs op)
  unfolding step emplace_back emplace_front try_emplace_back try_emplace_front
  step_refines xs (push_back x) h = let (b', e, h') = write_back_with-Makes x xs h in (b', rw e, h')
  step_refines xs (push_front x) h =
      let (b', e, h') = write_front_with-Makes x xs h in (b', rw e, h')
  step_refines xs (try_push_back x) h = try_push-Replies xs _ _ h (write_back_with_room x xs h)
  step_refines xs (try_push_front x) h = try_push-Replies xs _ _ h (write_front_with_room x xs h)
  step_refines xs (fill x) h = let (b', e, h') = fill_buffer-Makes x xs h in (b', rw e, h')
  step_refines xs try_pop_front h = take_front-Replies xs h
  step_refines xs try_pop_back h = take_back-Replies xs h
  step_refines xs clear h = let (b', e, h') = clear_buffer-Makes cap xs h in (b', rw e, h')

  run_refines-Holds :
      (ops : List (Op A)) {b : CircularBuffer A} (xs : List A)
      → Holds cap b xs
      → run cap b ops ≡ some (deque_run cap xs ops)
  unfolding run deque_run
  run_refines-Holds [] xs h = refl
  run_refines-Holds (op ∷ ops) xs h =
      let (b', e, h') = step_refines xs op h in
      rw (e, run_refines-Holds ops (deque_step cap xs op).1 h')

  -- Any sequence of calls on a new buffer returns what it returns on the bounded deque, and none
  -- faults: no life is begun over a live object, none ends twice, and no dead object is read.
  pub run_refines_deque :
      (ops : List (Op A))
      → 0 < cap
      → cap ≤ max_capacity
      → run cap (empty_buffer cap) ops ≡ some (deque_run cap [] ops)
  run_refines_deque ops pos small = run_refines-Holds ops [] (empty_buffer-Holds cap pos small)
