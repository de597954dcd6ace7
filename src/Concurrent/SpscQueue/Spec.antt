-- ===== src/Concurrent/SpscQueue/Spec.antt =====
-- What the callers of the queue may see: a bounded FIFO, on which each call takes effect at once.
use emblib.Base.{ℕ, ◌<◌, ◌≡◌, List, [], ◌∷◌, ◌++◌, length}
use emblib.Concurrent.SpscQueue.{
  Event, silent, pushed, refused, popped, pop_empty, peeked, peek_empty, clear_called, cleared,
}

-- One event takes the elements of the FIFO, and the number of those that a clear under way is to
-- remove, to what they are after it. A clear removes the elements that were there when it was called,
-- all of them and no others: those that are pushed meanwhile stay.
pub data FifoStep {ℓ} {A : Type ℓ} (cap : ℕ) : List A → ℕ → Event A → List A → ℕ → Type ℓ where
  waits : {xs : List A} {m : ℕ} → FifoStep cap xs m silent xs m
  pushes :
      {xs : List A} {m : ℕ} (x : A)
      → length xs < cap
      → FifoStep cap xs m (pushed x) (xs ++ x ∷ []) m
  refuses : {xs : List A} {m : ℕ} → length xs ≡ cap → FifoStep cap xs m refused xs m
  pops : {x : A} {xs : List A} {m : ℕ} → FifoStep cap (x ∷ xs) m (popped x) xs m
  finds_none : {m : ℕ} → FifoStep cap [] m pop_empty [] m
  peeks : {x : A} {xs : List A} {m : ℕ} → FifoStep cap (x ∷ xs) m (peeked x) (x ∷ xs) m
  peeks_none : {m : ℕ} → FifoStep cap [] m peek_empty [] m
  clear_begins : {xs : List A} {m : ℕ} → FifoStep cap xs m clear_called xs (length xs)
  clears : (ys zs : List A) → FifoStep cap (ys ++ zs) (length ys) cleared zs 0

-- The events of a run, in their order, take the FIFO from one state to another.
pub data Explains {ℓ} {A : Type ℓ} (cap : ℕ)
    : List A → ℕ → List (Event A) → List A → ℕ → Type ℓ where
  nothing : {xs : List A} {m : ℕ} → Explains cap xs m [] xs m
  then :
      {xs ys zs : List A} {m n o : ℕ} {e : Event A} {es : List (Event A)}
      → FifoStep cap xs m e ys n
      → Explains cap ys n es zs o
      → Explains cap xs m (e ∷ es) zs o
