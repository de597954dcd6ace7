-- ===== src/Filter/Tests.antt =====
-- Filters over windows of three numbers.
use emblib.Base.{ℕ, ◌+◌, ◌-◌, ◌/◌, ◌≡◌, refl, some, List, [], ◌∷◌, ◌++◌, arith, ltb, replicate}
use emblib.Container.Deque.{latest}
use emblib.Filter.MovingAverage
use emblib.Filter.MovingAverage.{Arithmetic, IsExact, Average, sum_of, average_of_latest}
use emblib.Filter.Median
use emblib.Filter.Median.{Median, IsMedian, median_of_latest}
use emblib.Base.Order.{IsOrder}

-- A spike of 90 among small values.
abbrev readings : List ℕ
readings = 4 ∷ 90 ∷ 5 ∷ 6 ∷ []

ltb-IsOrder : IsOrder ltb
ltb-IsOrder = record {
  asym = λ a b h. ground arith;
  trans = λ a b c h k. ground arith;
  irrefl = λ a. ground arith;
}

median_of_latest_example :
    (f : Median ℕ) × (g : Median ℕ) × (Median.make ltb 0 3 1 ≡ some f)
    × (Median.push_all ltb 0 3 readings f ≡ some g)
    × IsMedian ltb 0 3 (latest 3 (replicate 3 1 ++ readings)) g.output
median_of_latest_example = median_of_latest ltb 0 3 1 readings ltb-IsOrder refl (omega arith)

-- Sums that do not overflow.
abbrev exact_ops : Arithmetic ℕ
exact_ops = record { zero_value = 0; add = ◌+◌; sub = ◌-◌; divide = ◌/◌ }

exact_ops-IsExact : IsExact exact_ops
exact_ops-IsExact = record {
  add-assoc = λ a b c. omega arith;
  add-comm = λ a b. omega arith;
  add-zero = λ a. omega arith;
  sub-add = λ a b. omega arith;
}

average_of_latest_example :
    (f : Average ℕ) × (g : Average ℕ) × (MovingAverage.make exact_ops 3 7 ≡ some f)
    × (f.output ≡ 7)
    × (MovingAverage.push_all exact_ops 3 readings f ≡ some g)
    × (g.sum ≡ 101)
    × (g.output ≡ 33)
average_of_latest_example =
    average_of_latest exact_ops 3 exact_ops-IsExact 7 4 (90 ∷ 5 ∷ 6 ∷ []) (omega arith)
      (omega arith)
