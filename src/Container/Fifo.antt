-- ===== src/Container/Fifo.antt =====
-- What a bounded queue promises: a list of at most `cap` elements, oldest first. `none` where the
-- caller breaks a precondition.
use emblib.Base.{
  ℕ, Bool, true, false, Option, none, some, List, [], ◌∷◌, ◌++◌, length, last?, leb, if◌then◌else◌,
}
use emblib.Base.OptionMonad.{◌>>=◌}

pub data Op {ℓ} (A : Type ℓ) : Type ℓ where
  push try_push : A → Op A
  pop try_pop clear front back : Op A

pub data Reply {ℓ} (A : Type ℓ) : Type ℓ where
  done : Reply A
  accepted : Bool → Reply A
  popped : Option A → Reply A
  value : A → Reply A

module _ {ℓ} {A : Type ℓ} where
  abbrev pub reply_value : List A → Option A → Option (Reply A × List A)
  reply_value xs none = none
  reply_value xs (some x) = some (value x, xs)

  module _ (cap : ℕ) where
    -- One call on the abstract queue.
    abbrev pub fifo_step : List A → Op A → Option (Reply A × List A)
    fifo_step xs (push x) = if leb cap (length xs) then none else some (done, xs ++ x ∷ [])
    fifo_step xs (try_push x) =
        if leb cap (length xs)
        then some (accepted false, xs)
        else some (accepted true, xs ++ x ∷ [])
    fifo_step [] pop = none
    fifo_step (x ∷ xs) pop = some (done, xs)
    fifo_step [] try_pop = some (popped none, [])
    fifo_step (x ∷ xs) try_pop = some (popped (some x), xs)
    fifo_step xs clear = some (done, [])
    fifo_step [] front = none
    fifo_step (x ∷ xs) front = some (value x, x ∷ xs)
    fifo_step xs back = reply_value xs (last? xs)

    unfoldable pub fifo_run : List A → List (Op A) → Option (List (Reply A))
    fifo_run xs [] = some []
    fifo_run xs (op ∷ ops) = do r ← fifo_step xs op; rest ← fifo_run r.1 ops; some (r.0 ∷ rest)
