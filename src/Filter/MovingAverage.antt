-- ===== src/Filter/MovingAverage.antt =====
-- emb/filter/moving_average_filter.hpp, over any value type: its sums and its quotient by a size are
-- parameters.
use emblib.Base.{
  ℕ, suc, ◌≤◌, ◌<◌, ◌≡◌, refl, ap, ap₂, subst, sym, ◌∙◌, true, false, not, Option, some, List, [],
  ◌∷◌, ◌++◌, append-nil, append_assoc, arith, length, length-append, if◌then◌else◌,
}
use native.Mathlib.Decide.{dec_lt}
use emblib.Base.OptionMonad.{◌>>=◌}
use emblib.Container.Slots.{max_capacity}
use emblib.Container.Deque.{latest}
use emblib.Container.CircularBuffer.{
  CircularBuffer, empty_buffer, clear_buffer, is_full, front_value, emplace_back,
}
use emblib.Container.CircularBuffer.Holds.{Holds, clear_buffer-Makes, empty_buffer-Holds}
use emblib.Container.CircularBuffer.Pushes.{write_back_with-Makes}
use emblib.Container.CircularBuffer.Refine.{accessors_read}
use emblib.Filter.Latest.{latest-latest, latest_all, latest_but_first}

-- `value_type{0}`, `+`, `-`, and the division by `static_cast<divider_type>(size)`.
pub record Arithmetic (T : Type 0) : Type 0 where
  pub zero_value : T
  pub add : T → T → T
  pub sub : T → T → T
  pub divide : T → ℕ → T

-- What holds of integers and of arithmetic modulo a power of two, and of no floating point.
pub record IsExact {T : Type 0} (ops : Arithmetic T) : Type 0 where
  pub add-assoc : (a b c : T) → ops.add (ops.add a b) c ≡ ops.add a (ops.add b c)
  pub add-comm : (a b : T) → ops.add a b ≡ ops.add b a
  pub add-zero : (a : T) → ops.add a ops.zero_value ≡ a
  pub sub-add : (a b : T) → ops.sub (ops.add a b) a ≡ b

pub record Average (T : Type 0) : Type 0 where
  pub data_ : CircularBuffer T
  pub sum : T
  pub init_output : T
  pub output : T

module _ {T : Type 0} (ops : Arithmetic T) (window_size : ℕ) where
  unfoldable pub set_output : T → Average T → Option (Average T)
  set_output v f = do
    d ← clear_buffer window_size f.data_
    some (record f { data_ = d; sum = ops.zero_value; output = v })

  unfoldable pub reset : Average T → Option (Average T)
  reset f = set_output f.init_output f

  -- The constructor, with what it leaves to be set in `reset`.
  unfoldable pub make : T → Option (Average T)
  make init = reset (record {
    data_ = empty_buffer window_size;
    sum = ops.zero_value;
    init_output = init;
    output = init;
  })

  -- The two branches of `push`, before the division.
  abbrev pub accumulate : T → Average T → Option (Average T)
  accumulate input f =
      if not (is_full window_size f.data_)
      then (do
        d ← emplace_back window_size f.data_ input
        some (record f { data_ = d; sum = ops.add f.sum input }))
      else (do
        oldest ← front_value window_size f.data_
        d ← emplace_back window_size f.data_ input
        some (record f { data_ = d; sum = ops.add (ops.sub f.sum oldest) input }))

  unfoldable pub push : T → Average T → Option (Average T)
  push input f = do
    g ← accumulate input f
    some (record g { output = ops.divide g.sum g.data_.size })

  unfoldable pub push_all : List T → Average T → Option (Average T)
  push_all [] f = some f
  push_all (x ∷ xs) f = push x f >>= λ g. push_all xs g

  -- The sum of a list, from its end on.
  abbrev pub sum_of : List T → T
  sum_of [] = ops.zero_value
  sum_of (x ∷ xs) = ops.add x (sum_of xs)

  -- A filter whose window holds a list, and whose sum is that of the list.
  pub record Sums (f : Average T) (xs : List T) : Type 0 where
    pub window : Holds window_size f.data_ xs
    pub summed : f.sum ≡ sum_of xs

  module _ (exact : IsExact ops) where
    zero-add : (a : T) → ops.add ops.zero_value a ≡ a
    zero-add a = exact.add-comm ops.zero_value a ∙ exact.add-zero a

    sum_of-snoc : (xs : List T) (x : T) → sum_of (xs ++ x ∷ []) ≡ ops.add (sum_of xs) x
    sum_of-snoc [] x = exact.add-comm x ops.zero_value
    sum_of-snoc (y ∷ ys) x =
        ap (ops.add y) (sum_of-snoc ys x) ∙ sym (exact.add-assoc y (sum_of ys) x)

    -- The window with one more input, and the oldest one gone where it was full.
    abbrev after : List T → T → List T
    after xs x = latest window_size (xs ++ x ∷ [])

    accumulate_room :
        (f : Average T) (xs : List T) (x : T)
        → length xs < window_size
        → Sums f xs
        → (g : Average T) × (accumulate x f ≡ some g) × Sums g (after xs x)
    unfolding emplace_back
    accumulate_room f xs x room s =
        let (d, e, h) = write_back_with-Makes x xs s.window in
        let counted = s.window.counted in
        let not_full : is_full window_size f.data_ ≡ false = ground arith in
        let all =
          latest_all window_size (xs ++ x ∷ []) (omega (arith, length-append xs (x ∷ []))) in
        (
          record f { data_ = d; sum = ops.add f.sum x },
          rw (not_full, e) refl,
          record {
            window = h;
            summed = ap (λ t. ops.add t x) s.summed ∙ sym (sum_of-snoc xs x) ∙ ap sum_of (sym all);
          },
        )

    accumulate_full :
        (f : Average T) (y : T) (ys : List T) (x : T)
        → suc (length ys) ≡ window_size
        → Sums f (y ∷ ys)
        → (g : Average T) × (accumulate x f ≡ some g) × Sums g (after (y ∷ ys) x)
    unfolding emplace_back
    accumulate_full f y ys x full s =
        let (d, e, h) = write_back_with-Makes x (y ∷ ys) s.window in
        let counted = s.window.counted in
        let is : is_full window_size f.data_ ≡ true = ground arith in
        let (oldest, _, _) = accessors_read window_size (y ∷ ys) 0 s.window in
        let size = length-append ys (x ∷ []) in
        let kept = latest_but_first window_size y (ys ++ x ∷ []) (omega arith) in
        (
          record f { data_ = d; sum = ops.add (ops.sub f.sum y) x },
          rw (is, oldest, e) refl,
          record {
            window = h;
            summed =
                ap (λ t. ops.add (ops.sub t y) x) s.summed
                ∙ ap (λ t. ops.add t x) (exact.sub-add y (sum_of ys))
                ∙ sym (sum_of-snoc ys x)
                ∙ ap sum_of (sym kept);
          },
        )

    accumulate-Sums :
        (f : Average T) (xs : List T) (x : T)
        → 0 < window_size
        → Sums f xs
        → (g : Average T) × (accumulate x f ≡ some g) × Sums g (after xs x)
    accumulate-Sums f [] x pos s = accumulate_room f [] x pos s
    accumulate-Sums f (y ∷ ys) x pos s = elim (dec_lt (suc (length ys)) window_size) [
      | yes room ↦ accumulate_room f (y ∷ ys) x room s
      | no full ↦ accumulate_full f y ys x (omega (arith, s.window.fits)) s
    ]

    -- What the filter reports of a list that it holds.
    abbrev pub Averages : Average T → List T → Type 0
    Averages f xs = Sums f xs × (f.output ≡ ops.divide (sum_of xs) (length xs))

    push-Averages :
        (f : Average T) (xs : List T) (x : T)
        → 0 < window_size
        → Sums f (latest window_size xs)
        → (g : Average T) × (push x f ≡ some g) × Averages g (after xs x)
    unfolding push
    push-Averages f xs x pos s =
        let (g, e, t) = accumulate-Sums f (latest window_size xs) x pos s in
        let t' = subst (Sums g) (latest-latest window_size xs x) t in
        (
          record g { output = ops.divide g.sum g.data_.size },
          rw e refl,
          (
            record { window = t'.window; summed = t'.summed },
            ap₂ ops.divide t'.summed t'.window.counted,
          ),
        )

    push_all-Averages :
        (inputs : List T) (f : Average T) (xs : List T)
        → 0 < window_size
        → Averages f (latest window_size xs)
        → (g : Average T) × (push_all inputs f ≡ some g)
          × Averages g (latest window_size (xs ++ inputs))
    unfolding push_all
    push_all-Averages [] f xs pos s =
        (f, refl, subst (λ l. Averages f (latest window_size l)) (sym (append-nil xs)) s)
    push_all-Averages (x ∷ inputs) f xs pos (s, _) =
        let (g, e, t) = push-Averages f xs x pos s in
        let (k, e', t') = push_all-Averages inputs g (xs ++ x ∷ []) pos t in
        (
          k,
          rw (e, e') refl,
          subst (λ l. Averages k (latest window_size l)) (append_assoc xs (x ∷ []) inputs) t',
        )

    make-Sums :
        (init : T)
        → 0 < window_size
        → window_size ≤ max_capacity
        → (f : Average T) × (make init ≡ some f) × Sums f [] × (f.output ≡ init)
    unfolding make reset set_output
    make-Sums init pos small =
        let (d, e, h) =
          clear_buffer-Makes window_size [] (empty_buffer-Holds window_size pos small) in
        (
          record { data_ = d; sum = ops.zero_value; init_output = init; output = init },
          rw e refl,
          record { window = h; summed = refl },
          refl,
        )

    -- With exact arithmetic and a window of 1 to 2^31 inputs, a new filter goes without a fault through
    -- any inputs, of which there is one at least: its sum, which it changes by the newest and the oldest
    -- input only, is then the sum of the latest inputs in the window, and its output that sum over their
    -- number. Before, its output is the initial one.
    pub average_of_latest :
        (init x : T) (inputs : List T)
        → 0 < window_size
        → window_size ≤ max_capacity
        → let seen = latest window_size (x ∷ inputs) in
          (f : Average T) × (g : Average T) × (make init ≡ some f)
          × (f.output ≡ init)
          × (push_all (x ∷ inputs) f ≡ some g)
          × (g.sum ≡ sum_of seen)
          × (g.output ≡ ops.divide (sum_of seen) (length seen))
    unfolding push_all
    average_of_latest init x inputs pos small =
        let (f, made, s, first) = make-Sums init pos small in
        let none_yet = latest_all window_size [] (omega arith) in
        let (g, e, t) = push-Averages f [] x pos (subst (Sums f) (sym none_yet) s) in
        let (k, e', t') = push_all-Averages inputs g (x ∷ []) pos t in
        (f, k, made, first, rw (e, e') refl, t'.0.summed, t'.1)
