-- ===== src/Container/Bounded.antt =====
-- What a bounded vector promises, and a bounded stack, which is one with its top at the back: a
-- list of at most `cap` elements. `none` where the caller breaks a precondition.
use emblib.Base.{
  ℕ, Bool, true, false, Option, none, some, List, [], ◌∷◌, ◌++◌, length, last?, init, get_elem?,
  leb, if◌then◌else◌,
}
use emblib.Base.OptionMonad.{◌>>=◌}

pub data Op {ℓ} (A : Type ℓ) : Type ℓ where
  push_back try_push_back : A → Op A
  pop_back try_pop_back clear front back : Op A
  at : ℕ → Op A

pub data Reply {ℓ} (A : Type ℓ) : Type ℓ where
  done : Reply A
  accepted : Bool → Reply A
  popped : Option A → Reply A
  value : A → Reply A

module _ {ℓ} {A : Type ℓ} where
  abbrev pub reply_value : List A → Option A → Option (Reply A × List A)
  reply_value xs none = none
  reply_value xs (some x) = some (value x, xs)

  abbrev pub reply_popped : List A → Option A → Option (Reply A × List A)
  reply_popped xs none = none
  reply_popped xs (some x) = some (done, init xs)

  module _ (cap : ℕ) where
    -- One call on the abstract vector.
    abbrev pub bounded_step : List A → Op A → Option (Reply A × List A)
    bounded_step xs (push_back x) = if leb cap (length xs) then none else some (done, xs ++ x ∷ [])
    bounded_step xs (try_push_back x) =
        if leb cap (length xs)
        then some (accepted false, xs)
        else some (accepted true, xs ++ x ∷ [])
    bounded_step xs pop_back = reply_popped xs (last? xs)
    bounded_step xs try_pop_back = some (popped (last? xs), init xs)
    bounded_step xs clear = some (done, [])
    bounded_step xs front = reply_value xs (get_elem? xs 0)
    bounded_step xs back = reply_value xs (last? xs)
    bounded_step xs (at i) = reply_value xs (get_elem? xs i)

    unfoldable pub bounded_run : List A → List (Op A) → Option (List (Reply A))
    bounded_run xs [] = some []
    bounded_run xs (op ∷ ops) = do
      r ← bounded_step xs op
      rest ← bounded_run r.1 ops
      some (r.0 ∷ rest)
