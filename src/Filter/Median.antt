-- ===== src/Filter/Median.antt =====
-- emb/filter/median_filter.hpp, over any value type with an order.
use emblib.Base.{
  ℕ, zero, suc, ◌+◌, ◌/◌, ◌%◌, ◌≤◌, ◌≡◌, refl, ap, subst, sym, ◌∙◌, Bool, Option, Option-cases, inl,
  inr, some, List, [], ◌∷◌, ◌++◌, append-nil, append_assoc, arith, length, length-append, take,
  get_elem?, get_or, set, replicate, length-replicate, length-set,
}
use emblib.Base.OptionMonad.{◌>>=◌}
use emblib.Container.Slots.{max_capacity}
use emblib.Container.Deque.{latest}
use emblib.Container.CircularBuffer.{CircularBuffer, empty_buffer, fill_buffer, emplace_back, at}
use emblib.Container.CircularBuffer.Holds.{Holds, empty_buffer-Holds}
use emblib.Container.CircularBuffer.Pushes.{write_back_with-Makes}
use emblib.Container.CircularBuffer.Copies.{fill_buffer-Makes}
use emblib.Container.CircularBuffer.Refine.{accessors_read}
use emblib.Base.Parts.{take-all}
use emblib.Base.Words.{out_of_range, take-set}
use emblib.Filter.Latest.{latest-latest, length-latest, latest_all}
use emblib.Base.Order.{IsOrder}
use emblib.Filter.Order.{
  sort, count_below, count_above, count_below-sort, count_above-sort, length-sort, sort-IsSorted,
  sorted_ranks,
}

pub record Median (T : Type 0) : Type 0 where
  pub window : CircularBuffer T
  pub init_output : T
  pub output : T

-- `value_type()` is the first argument after the order.
module _ {T : Type 0} (lt : T → T → Bool) (no_value : T) (window_size : ℕ) where
  unfoldable pub set_output : T → Median T → Option (Median T)
  set_output v f = do
    w ← fill_buffer window_size f.window v
    some (record f { window = w; output = v })

  unfoldable pub reset : Median T → Option (Median T)
  reset f = set_output f.init_output f

  unfoldable pub make : T → Option (Median T)
  make init =
      reset (record { window = empty_buffer window_size; init_output = init; output = init })

  -- The loop of `push` that copies the window, with a count of the rounds.
  unfoldable pub copy_window : CircularBuffer T → ℕ → ℕ → List T → Option (List T)
  copy_window w zero i copied = some copied
  copy_window w (suc n) i copied = do
    x ← at window_size w i
    copy_window w n (suc i) (set copied i x)

  unfoldable pub push : T → Median T → Option (Median T)
  push input f = do
    w ← emplace_back window_size f.window input
    copied ← copy_window w w.size 0 (replicate window_size no_value)
    some (record f { window = w; output = get_or (sort lt copied) (window_size / 2) no_value })

  unfoldable pub push_all : List T → Median T → Option (Median T)
  push_all [] f = some f
  push_all (x ∷ xs) f = push x f >>= λ g. push_all xs g

  copy_window-Holds :
      (n i : ℕ) (w : CircularBuffer T) (xs copied : List T)
      → Holds window_size w xs
      → i + n ≡ length xs
      → length copied ≡ length xs
      → take i copied ≡ take i xs
      → copy_window w n i copied ≡ some xs
  unfolding copy_window
  copy_window-Holds zero i w xs copied h count size same =
      ap some (sym (take-all i copied (omega arith)) ∙ same ∙ take-all i xs (omega arith))
  copy_window-Holds (suc n) i w xs copied h count size same =
      let (_, _, read) = accessors_read window_size xs i h in
      elim (Option-cases (get_elem? xs i)) [
        | inl e ↦ let out = out_of_range xs i e in absurd (omega arith)
        | inr (x, e) ↦ rw (read ∙ e) (
            copy_window-Holds n (suc i) w xs (set copied i x) h (omega arith)
              (length-set copied i x ∙ size) (take-set copied xs i x e (omega arith) same))
      ]

  -- At most half of a list is below a value, and at most half above.
  abbrev pub IsMedian : List T → T → Type 0
  IsMedian xs m = (count_below lt m xs ≤ window_size / 2) × (count_above lt m xs ≤ window_size / 2)

  get_or_found : (xs : List T) (k : ℕ) (m : T) → get_elem? xs k ≡ some m → get_or xs k no_value ≡ m
  get_or_found [] k m e = absurd (cc)
  get_or_found (x ∷ xs) zero m e = cc
  get_or_found (x ∷ xs) (suc k) m e = get_or_found xs k m e

  sorted_middle :
      (xs : List T)
      → IsOrder lt
      → window_size % 2 ≡ 1
      → length xs ≡ window_size
      → IsMedian xs (get_or (sort lt xs) (window_size / 2) no_value)
  sorted_middle xs order odd size =
      let k = window_size / 2 in
      let sorted = length-sort lt xs in
      elim (Option-cases (get_elem? (sort lt xs) k)) [
        | inl e ↦ let out = out_of_range (sort lt xs) k e in absurd (omega arith)
        | inr (m, e) ↦
            let (below, above) =
              sorted_ranks lt order (sort lt xs) k m (sort-IsSorted lt order xs) e in
            let same_below = count_below-sort lt m xs in
            let same_above = count_above-sort lt m xs in
            subst (IsMedian xs) (sym (get_or_found (sort lt xs) k m e)) (omega arith, omega arith)
      ]

  -- A window that is full, with the latest of what was seen.
  abbrev Windowed : Median T → List T → Type 0
  Windowed f seen =
      Holds window_size f.window (latest window_size seen) × (window_size ≤ length seen)

  push-Windowed :
      (f : Median T) (seen : List T) (x : T)
      → IsOrder lt
      → window_size % 2 ≡ 1
      → Windowed f seen
      → (g : Median T) × (push x f ≡ some g)
        × Windowed g (seen ++ x ∷ [])
        × IsMedian (latest window_size (seen ++ x ∷ [])) g.output
  unfolding push emplace_back
  push-Windowed f seen x order odd (h, full) =
      let (w, e, h1) = write_back_with-Makes x (latest window_size seen) h in
      let h2 = subst (Holds window_size w) (latest-latest window_size seen x) h1 in
      let ys = latest window_size (seen ++ x ∷ []) in
      let more : window_size ≤ length (seen ++ x ∷ []) =
        omega (arith, length-append seen (x ∷ [])) in
      let size = length-latest window_size (seen ++ x ∷ []) more in
      let copied =
        copy_window-Holds w.size 0 w ys (replicate window_size no_value) h2
          (omega (arith, h2.counted)) (length-replicate window_size no_value ∙ sym size) refl in
      (
        record f { window = w; output = get_or (sort lt ys) (window_size / 2) no_value },
        rw (e, copied) refl,
        (h2, more),
        sorted_middle ys order odd size,
      )

  push_all-Windowed :
      (inputs : List T) (f : Median T) (seen : List T)
      → IsOrder lt
      → window_size % 2 ≡ 1
      → Windowed f seen
      → IsMedian (latest window_size seen) f.output
      → (g : Median T) × (push_all inputs f ≡ some g)
        × IsMedian (latest window_size (seen ++ inputs)) g.output
  unfolding push_all
  push_all-Windowed [] f seen order odd h m =
      (f, refl, subst (λ l. IsMedian (latest window_size l) f.output) (sym (append-nil seen)) m)
  push_all-Windowed (x ∷ inputs) f seen order odd h m =
      let (g, e, h', m') = push-Windowed f seen x order odd h in
      let (k, e', m'') = push_all-Windowed inputs g (seen ++ x ∷ []) order odd h' m' in
      (
        k,
        rw (e, e') refl,
        subst (λ l. IsMedian (latest window_size l) k.output) (append_assoc seen (x ∷ []) inputs)
            m'',
      )

  count_same :
      (n : ℕ) (v : T)
      → IsOrder lt
      → (count_below lt v (replicate n v) ≡ 0) × (count_above lt v (replicate n v) ≡ 0)
  count_same zero v order = (refl, refl)
  count_same (suc n) v order =
      let (below, above) = count_same n v order in rw (order.irrefl v) (omega arith, omega arith)

  -- With an order and an odd window of at most 2^31 values, a new filter goes without a fault through
  -- any inputs, and its output is a median of the latest values in the window, those before the first
  -- input being the initial output: at most half of them are below it, and at most half above.
  pub median_of_latest :
      (init : T) (inputs : List T)
      → IsOrder lt
      → window_size % 2 ≡ 1
      → window_size ≤ max_capacity
      → (f : Median T) × (g : Median T) × (make init ≡ some f)
        × (push_all inputs f ≡ some g)
        × IsMedian (latest window_size (replicate window_size init ++ inputs)) g.output
  unfolding make reset set_output
  median_of_latest init inputs order odd small =
      let (w, e, h) =
        fill_buffer-Makes init [] (empty_buffer-Holds window_size (omega arith) small) in
      let size = length-replicate window_size init in
      let all = latest_all window_size (replicate window_size init) (omega arith) in
      let (below, above) = count_same window_size init order in
      let f : Median T = record { window = w; init_output = init; output = init } in
      let (g, e', m) =
        push_all-Windowed inputs f (replicate window_size init) order odd
          (subst (Holds window_size w) (sym all) h, omega arith)
          (subst (λ l. IsMedian l init) (sym all) (omega arith, omega arith)) in
      (f, g, rw e refl, e', m)
