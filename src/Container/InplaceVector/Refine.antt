-- ===== src/Container/InplaceVector/Refine.antt =====
-- The vector against the bounded list of what it holds.
use emblib.Base.{
  ℕ, ◌≤◌, ◌≡◌, refl, ◌∙◌, ap, ap₂, sym, subst, true, false, Option, none, some, List, [], ◌∷◌, ◌++◌,
  arith, length, get_elem?, get_elem?_above, last?, last?-snoc, init-snoc, snoc_of_pos,
  Option-cases, inl, inr,
}
use native.Mathlib.Decide.{dec_lt}
use emblib.Base.OptionMonad.{◌>>=◌}
use emblib.Container.Slots.{max_capacity}
use emblib.Container.Bounded.{
  Op, push_back, try_push_back, pop_back, try_pop_back, clear, front, back, at, Reply, done,
  accepted, popped, value, bounded_step, bounded_run, reply_value, reply_popped,
}
use emblib.Container.InplaceVector.{
  InplaceVector, empty_vector, emplace_back, try_emplace_back, drop_back, take_back, front_value,
  back_value, value_at, step, run,
}
use emblib.Container.InplaceVector.Holds.{
  Holds, empty_vector-Holds, emplace_back-Makes, drop_back-Makes, back_live,
}
use emblib.Container.InplaceVector.Copies.{clear_vector-Makes}

-- Both fault, or both reply alike and the vector holds what the list is left with.
abbrev pub Agrees {ℓ} :
    {A : Type ℓ} → ℕ → Option (Reply A × InplaceVector A) → Option (Reply A × List A) → Type ℓ
Agrees cap r none = r ≡ none
Agrees {A} cap r (some (reply, ys)) = (v : InplaceVector A) × (r ≡ some (reply, v)) × Holds cap v ys

module _ {ℓ} {A : Type ℓ} (cap : ℕ) {v : InplaceVector A} where
  front_read : (xs : List A) → Holds cap v xs → front_value cap v ≡ get_elem? xs 0
  unfolding front_value
  front_read [] h = ground (arith, h.counted)
  front_read (x ∷ xs) h = ground (arith, h.counted, h.filled.at 0 (omega (arith, h.fits)))

  at_read : (xs : List A) (i : ℕ) → Holds cap v xs → value_at cap v i ≡ get_elem? xs i
  unfolding value_at
  at_read xs i h = elim (dec_lt i (length xs)) [
    | yes p ↦ ground (arith, h.counted, h.filled.at i (omega (arith, h.fits)))
    | no p ↦ ground (arith, h.counted, get_elem?_above xs i (omega arith))
  ]

  back_read : (xs : List A) (x : A) → Holds cap v (xs ++ x ∷ []) → back_value cap v ≡ some x
  unfolding back_value
  back_read xs x h = let (size, live, pos) = back_live cap xs x h in ground (arith, size, live, pos)

  back_taken :
      (xs : List A) (x : A)
      → Holds cap v (xs ++ x ∷ [])
      → (w : InplaceVector A) × (take_back cap v ≡ some (some x, w)) × Holds cap w xs
  unfolding take_back
  back_taken xs x h =
      let (size, live, pos) = back_live cap xs x h in
      let (w, e, h') = drop_back-Makes cap xs x h in (w, ground (arith, size, live, pos, e), h')

  step-push_back :
      (x : A) (xs : List A)
      → Holds cap v xs
      → Agrees cap (step cap v (push_back x)) (bounded_step cap xs (push_back x))
  unfolding step emplace_back
  step-push_back x xs h = elim (dec_lt (length xs) cap) [
    | yes room ↦
        let (w, e, h') = emplace_back-Makes cap xs x h room in
        let spec : bounded_step cap xs (push_back x) ≡ some (done, xs ++ x ∷ []) = ground arith in
        rw spec (w, rw e, h')
    | no full ↦
        let spec : bounded_step cap xs (push_back x) ≡ none = ground arith in
        rw spec (ground (arith, h.counted, h.fits))
  ]

  step-try_push_back :
      (x : A) (xs : List A)
      → Holds cap v xs
      → Agrees cap (step cap v (try_push_back x)) (bounded_step cap xs (try_push_back x))
  unfolding step try_emplace_back
  step-try_push_back x xs h = elim (dec_lt (length xs) cap) [
    | yes room ↦
        let (w, e, h') = emplace_back-Makes cap xs x h room in
        let spec : bounded_step cap xs (try_push_back x) ≡ some (accepted true, xs ++ x ∷ []) =
          ground arith in
        rw spec (w, ground (arith, e, h.counted), h')
    | no full ↦
        let spec : bounded_step cap xs (try_push_back x) ≡ some (accepted false, xs) =
          ground arith in
        rw spec (v, ground (arith, h.counted, h.fits), h)
  ]

  step-value :
      (xs : List A) (r o : Option A)
      → Holds cap v xs
      → r ≡ o
      → Agrees cap (do x ← r; some (value x, v)) (reply_value xs o)
  step-value xs none o h e = rw (← e)
  step-value xs (some x) o h e = rw (← e) (v, refl, h)

  step-pop_back :
      (xs : List A)
      → Holds cap v xs
      → Agrees cap (step cap v pop_back) (bounded_step cap xs pop_back)
  unfolding step drop_back
  step-pop_back [] h = ground (arith, h.counted)
  step-pop_back (y ∷ ys) h =
      let (xs, x, e) = snoc_of_pos (y ∷ ys) (omega arith) in
      let h' : Holds cap v (xs ++ x ∷ []) = subst (Holds cap v) e h in
      let (w, e', k) = drop_back-Makes cap xs x h' in
      let same : bounded_step cap (y ∷ ys) pop_back ≡ some (done, xs) =
        ap (λ l. bounded_step cap l pop_back) e
        ∙ ap (reply_popped (xs ++ x ∷ [])) (last?-snoc xs x)
        ∙ ap (λ l. some (done, l)) (init-snoc xs x) in
      subst (Agrees cap (step cap v pop_back)) (sym same) (w, rw e', k)

  step-try_pop_back :
      (xs : List A)
      → Holds cap v xs
      → Agrees cap (step cap v try_pop_back) (bounded_step cap xs try_pop_back)
  unfolding step take_back
  step-try_pop_back [] h = (v, ground (arith, h.counted), h)
  step-try_pop_back (y ∷ ys) h =
      let (xs, x, e) = snoc_of_pos (y ∷ ys) (omega arith) in
      let h' : Holds cap v (xs ++ x ∷ []) = subst (Holds cap v) e h in
      let (w, e', k) = back_taken xs x h' in
      let same : bounded_step cap (y ∷ ys) try_pop_back ≡ some (popped (some x), xs) =
        ap (λ l. bounded_step cap l try_pop_back) e
        ∙ ap₂ (λ o l. some (popped o, l)) (last?-snoc xs x) (init-snoc xs x) in
      subst (Agrees cap (step cap v try_pop_back)) (sym same) (w, rw e', k)

  back_value_read : (xs : List A) → Holds cap v xs → back_value cap v ≡ last? xs
  unfolding back_value
  back_value_read [] h = ground (arith, h.counted)
  back_value_read (y ∷ ys) h =
      let (xs, x, e) = snoc_of_pos (y ∷ ys) (omega arith) in
      back_read xs x (subst (Holds cap v) e h) ∙ sym (last?-snoc xs x) ∙ sym (ap last? e)

  -- Each call on a vector that holds a list does what the bounded list does, and breaks a
  -- precondition exactly where the list does.
  pub step_refines :
      (xs : List A) (op : Op A)
      → Holds cap v xs
      → Agrees cap (step cap v op) (bounded_step cap xs op)
  unfolding step
  step_refines xs (push_back x) h = step-push_back x xs h
  step_refines xs (try_push_back x) h = step-try_push_back x xs h
  step_refines xs pop_back h = step-pop_back xs h
  step_refines xs try_pop_back h = step-try_pop_back xs h
  step_refines xs clear h = let (w, e, h') = clear_vector-Makes xs h in (w, rw e, h')
  step_refines xs front h = step-value xs _ _ h (front_read xs h)
  step_refines xs back h = step-value xs _ _ h (back_value_read xs h)
  step_refines xs (at i) h = step-value xs _ _ h (at_read xs i h)

module _ {ℓ} {A : Type ℓ} (cap : ℕ) where
  run_refines-Holds :
      (ops : List (Op A)) (v : InplaceVector A) (xs : List A)
      → Holds cap v xs
      → run cap v ops ≡ bounded_run cap xs ops
  unfolding run bounded_run
  run_refines-Holds [] v xs h = refl
  run_refines-Holds (op ∷ ops) v xs h = elim (Option-cases (bounded_step cap xs op)) [
    | inl e ↦ rw (e, rw e at (step_refines cap xs op h))
    | inr ((reply, ys), e) ↦
        let (w, e', h') = rw e at (step_refines cap {v = v} xs op h) in
        rw (e, e', run_refines-Holds ops w ys h')
  ]

  -- Any sequence of calls on a new vector returns what it returns on the bounded list, and faults
  -- exactly where a call breaks its precondition there.
  pub run_refines_bounded :
      (ops : List (Op A))
      → cap ≤ max_capacity
      → run cap (empty_vector cap) ops ≡ bounded_run cap [] ops
  run_refines_bounded ops small =
      run_refines-Holds ops (empty_vector cap) [] (empty_vector-Holds cap small)
