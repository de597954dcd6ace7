-- ===== src/Container/InplaceQueue/Refine.antt =====
-- The queue against the bounded FIFO of what it holds. Its slots are those of a circular buffer,
-- and its operations are the buffer's where their preconditions hold.
use emblib.Base.{
  ℕ, ◌≤◌, ◌<◌, ◌≡◌, ◌≢◌, refl, subst, true, false, Option, none, some, List, [], ◌∷◌, ◌++◌, arith,
  length, get_elem?, last?, Option-cases, inl, inr,
}
use mathlib.Core.Option
use native.Mathlib.Decide.{dec_lt}
use emblib.Container.Slots.{max_capacity}
use emblib.Container.Fifo.{
  Op, push, try_push, pop, try_pop, clear, front, back, Reply, done, accepted, fifo_step, fifo_run,
  reply_value,
}
use emblib.Container.CircularBuffer
use emblib.Container.CircularBuffer.{CircularBuffer}
use emblib.Container.CircularBuffer.Holds.{
  Holds, Makes, front_live, pop_front-Makes, clear_buffer-Makes, empty_buffer-Holds,
}
use emblib.Container.CircularBuffer.Pushes.{write_back_with_room}
use emblib.Container.CircularBuffer.Refine.{accessors_read}
use emblib.Container.InplaceQueue.{
  InplaceQueue, empty_queue, emplace, try_emplace, pop_front, take_front, clear_queue, front_value,
  back_value, step, run,
}

abbrev pub as_buffer {ℓ} : {A : Type ℓ} → InplaceQueue A → CircularBuffer A
as_buffer q = record { slots = q.slots; front = q.front; size = q.size }

-- The queue holds the list, oldest first.
abbrev pub QueueHolds {ℓ} : {A : Type ℓ} → ℕ → InplaceQueue A → List A → Type ℓ
QueueHolds cap q xs = Holds cap (as_buffer q) xs

module _ {ℓ} {A : Type ℓ} (cap : ℕ) where
  pop_front_as :
      (q : InplaceQueue A)
      → Option.map as_buffer (pop_front cap q) ≡ CircularBuffer.pop_front cap (as_buffer q)
  unfolding pop_front CircularBuffer.pop_front
  pop_front_as q = ground arith

  clear_queue_as :
      (q : InplaceQueue A)
      → Option.map as_buffer (clear_queue cap q) ≡ CircularBuffer.clear_buffer cap (as_buffer q)
  unfolding clear_queue CircularBuffer.clear_buffer
  clear_queue_as q = ground arith

  emplace_as :
      (q : InplaceQueue A) (x : A)
      → q.size ≢ cap
      → Option.map as_buffer (emplace cap q x) ≡ CircularBuffer.write_back_with cap (as_buffer q) x
  unfolding emplace CircularBuffer.write_back_with
  emplace_as q x ne = ground arith

-- An operation succeeds, and the queue that it leaves holds the list.
abbrev pub QueueMakes {ℓ} : {A : Type ℓ} → ℕ → Option (InplaceQueue A) → List A → Type ℓ
QueueMakes {A} cap r xs = (q : InplaceQueue A) × (r ≡ some q) × QueueHolds cap q xs

QueueMakes-of_map {ℓ} :
    {A : Type ℓ} {cap : ℕ} (r : Option (InplaceQueue A)) {r' : Option (CircularBuffer A)}
    (xs : List A)
    → Option.map as_buffer r ≡ r'
    → Makes cap r' xs
    → QueueMakes cap r xs
QueueMakes-of_map none xs e (b, e', h) = absurd (cc)
QueueMakes-of_map {cap} (some q) xs e (b, e', h) =
    let same : b ≡ as_buffer q = cc in (q, refl, subst (λ b. Holds cap b xs) same h)

-- Both fault, or both reply alike and the queue holds what the FIFO is left with.
abbrev pub Agrees {ℓ} :
    {A : Type ℓ} → ℕ → Option (Reply A × InplaceQueue A) → Option (Reply A × List A) → Type ℓ
Agrees cap r none = r ≡ none
Agrees {A} cap r (some (reply, ys)) =
    (q : InplaceQueue A) × (r ≡ some (reply, q)) × QueueHolds cap q ys

module _ {ℓ} {A : Type ℓ} (cap : ℕ) {q : InplaceQueue A} where
  pub emplace-QueueMakes :
      (x : A) (xs : List A)
      → QueueHolds cap q xs
      → length xs < cap
      → QueueMakes cap (emplace cap q x) (xs ++ x ∷ [])
  emplace-QueueMakes x xs h room =
      QueueMakes-of_map _ (xs ++ x ∷ []) (emplace_as cap q x (omega (arith, h.counted)))
        (write_back_with_room x xs h room)

  pub pop_front-QueueMakes :
      (x : A) (xs : List A) → QueueHolds cap q (x ∷ xs) → QueueMakes cap (pop_front cap q) xs
  pop_front-QueueMakes x xs h =
      QueueMakes-of_map _ xs (pop_front_as cap q) (pop_front-Makes cap x xs h)

  clear_queue-QueueMakes :
      (xs : List A) → QueueHolds cap q xs → QueueMakes cap (clear_queue cap q) []
  clear_queue-QueueMakes xs h =
      QueueMakes-of_map _ [] (clear_queue_as cap q) (clear_buffer-Makes cap xs h)

  pub values_read :
      (xs : List A)
      → QueueHolds cap q xs
      → (front_value cap q ≡ get_elem? xs 0) × (back_value cap q ≡ last? xs)
  unfolding front_value back_value CircularBuffer.front_value CircularBuffer.back_value
  values_read xs h = let r = accessors_read cap xs 0 h in (r.0, r.1)

  step-push :
      (x : A) (xs : List A)
      → QueueHolds cap q xs
      → Agrees cap (step cap q (push x)) (fifo_step cap xs (push x))
  unfolding step emplace
  step-push x xs h = elim (dec_lt (length xs) cap) [
    | yes room ↦
        let (q', e, h') = emplace-QueueMakes x xs h room in
        let spec : fifo_step cap xs (push x) ≡ some (done, xs ++ x ∷ []) = ground arith in
        rw spec (q', rw e, h')
    | no full ↦
        let spec : fifo_step cap xs (push x) ≡ none = ground arith in
        rw spec (ground (arith, h.counted, h.fits))
  ]

  step-try_push :
      (x : A) (xs : List A)
      → QueueHolds cap q xs
      → Agrees cap (step cap q (try_push x)) (fifo_step cap xs (try_push x))
  unfolding step try_emplace
  step-try_push x xs h = elim (dec_lt (length xs) cap) [
    | yes room ↦
        let (q', e, h') = emplace-QueueMakes x xs h room in
        let spec : fifo_step cap xs (try_push x) ≡ some (accepted true, xs ++ x ∷ []) =
          ground arith in
        rw spec (q', ground (arith, e, h.counted), h')
    | no full ↦
        let spec : fifo_step cap xs (try_push x) ≡ some (accepted false, xs) = ground arith in
        rw spec (q, ground (arith, h.counted, h.fits), h)
  ]

  -- Each call on a queue that holds a list does what the FIFO does with that list, and breaks a
  -- precondition exactly where the FIFO does.
  pub step_refines :
      (xs : List A) (op : Op A)
      → QueueHolds cap q xs
      → Agrees cap (step cap q op) (fifo_step cap xs op)
  unfolding step pop_front take_front
  step_refines xs (push x) h = step-push x xs h
  step_refines xs (try_push x) h = step-try_push x xs h
  step_refines [] pop h = ground (arith, h.counted)
  step_refines (x ∷ xs) pop h = let (q', e, h') = pop_front-QueueMakes x xs h in (q', rw e, h')
  step_refines [] try_pop h = (q, ground (arith, h.counted), h)
  step_refines (x ∷ xs) try_pop h =
      let (q', e, h') = pop_front-QueueMakes x xs h in
      (q', ground (arith, h.counted, e, front_live x xs h), h')
  step_refines xs clear h = let (q', e, h') = clear_queue-QueueMakes xs h in (q', rw e, h')
  step_refines [] front h = rw (values_read [] h).0
  step_refines (x ∷ xs) front h = (q, rw (values_read (x ∷ xs) h).0, h)
  step_refines xs back h = elim (Option-cases (last? xs)) [
    | inl e ↦ rw (e, reply_value, (values_read xs h).1, e)
    | inr (x, e) ↦ rw (e, reply_value) (q, rw ((values_read xs h).1, e), h)
  ]

module _ {ℓ} {A : Type ℓ} (cap : ℕ) where
  run_refines-QueueHolds :
      (ops : List (Op A)) (q : InplaceQueue A) (xs : List A)
      → QueueHolds cap q xs
      → run cap q ops ≡ fifo_run cap xs ops
  unfolding run fifo_run
  run_refines-QueueHolds [] q xs h = refl
  run_refines-QueueHolds (op ∷ ops) q xs h = elim (Option-cases (fifo_step cap xs op)) [
    | inl e ↦ rw (e, rw e at (step_refines cap xs op h))
    | inr ((reply, ys), e) ↦
        let (q', e', h') = rw e at (step_refines cap {q = q} xs op h) in
        rw (e, e', run_refines-QueueHolds ops q' ys h')
  ]

  -- Any sequence of calls on a new queue returns what it returns on the bounded FIFO, and faults
  -- exactly where a call breaks its precondition there.
  pub run_refines_fifo :
      (ops : List (Op A))
      → 0 < cap
      → cap ≤ max_capacity
      → run cap (empty_queue cap) ops ≡ fifo_run cap [] ops
  unfolding empty_queue
  run_refines_fifo ops pos small =
      run_refines-QueueHolds ops (empty_queue cap) []
        (unfold CircularBuffer.empty_buffer in empty_buffer-Holds cap pos small)
