-- ===== src/Container/Deque.antt =====
-- What a bounded double-ended queue promises: a list of at most `cap` elements, oldest first. A
-- push on a full queue drops an element at the other end.
use emblib.Base.{
  ℕ, ◌-◌, Bool, true, false, Option, none, some, List, [], ◌∷◌, ◌++◌, length, take, init, last?,
  drop, replicate, leb, if◌then◌else◌,
}

pub data Op {ℓ} (A : Type ℓ) : Type ℓ where
  push_back push_front try_push_back try_push_front fill : A → Op A
  try_pop_front try_pop_back clear : Op A

pub data Reply {ℓ} (A : Type ℓ) : Type ℓ where
  done : Reply A
  accepted : Bool → Reply A
  popped : Option A → Reply A

module _ {ℓ} {A : Type ℓ} where
  -- The last `n` elements.
  abbrev pub latest : ℕ → List A → List A
  latest n xs = drop (length xs - n) xs

  abbrev pub pop_front : List A → Option A × List A
  pop_front [] = (none, [])
  pop_front (x ∷ xs) = (some x, xs)

  module _ (cap : ℕ) where
    abbrev pub try_push : List A → List A → List A → Reply A × List A
    try_push xs pushed full =
        if leb cap (length xs) then (accepted false, full) else (accepted true, pushed)

    -- One call on the abstract queue.
    abbrev pub deque_step : List A → Op A → Reply A × List A
    deque_step xs (push_back x) = (done, latest cap (xs ++ x ∷ []))
    deque_step xs (push_front x) = (done, take cap (x ∷ xs))
    deque_step xs (try_push_back x) = try_push xs (xs ++ x ∷ []) xs
    deque_step xs (try_push_front x) = try_push xs (x ∷ xs) xs
    deque_step xs (fill x) = (done, replicate cap x)
    deque_step xs try_pop_front = (popped (pop_front xs).0, (pop_front xs).1)
    deque_step xs try_pop_back = (popped (last? xs), init xs)
    deque_step xs clear = (done, [])

    unfoldable pub deque_run : List A → List (Op A) → List (Reply A)
    deque_run xs [] = []
    deque_run xs (op ∷ ops) = (deque_step xs op).0 ∷ deque_run (deque_step xs op).1 ops
