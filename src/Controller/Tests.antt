-- ===== src/Controller/Tests.antt =====
-- Controllers over the integers and a value that is no number, with a gain of 1 for the halved sum of two errors.
use emblib.Base.{
  ℕ, suc, ◌+◌, ◌-◌, ◌*◌, ◌≡◌, refl, Bool, true, false, Option, none, some, ltb, arith,
  if◌then◌else◌,
}
use emblib.Base.Int.{ℤ, pos, negsuc}
use emblib.Controller.{
  Numbers, non_inverting, inverting, PController, BackcalcPi, ClampingPi, make_p, make_base,
  make_backcalc, make_clamping, push_p, push_backcalc, push_clamping, proportional,
}
use emblib.Controller.Limits.{IsWithin, DoesNotWindUp, pushes_are_limited}

-- `a - b`
abbrev minus : ℕ → ℕ → ℤ
minus a b = if ltb a b then negsuc (b - a - 1) else pos (a - b)

abbrev int_add : ℤ → ℤ → ℤ
int_add (pos a) (pos b) = pos (a + b)
int_add (pos a) (negsuc b) = minus a (suc b)
int_add (negsuc a) (pos b) = minus b (suc a)
int_add (negsuc a) (negsuc b) = negsuc (a + b + 1)

abbrev int_neg : ℤ → ℤ
int_neg (pos a) = minus 0 a
int_neg (negsuc a) = pos (a + 1)

abbrev int_sub : ℤ → ℤ → ℤ
int_sub a b = int_add a (int_neg b)

abbrev int_mul : ℤ → ℤ → ℤ
int_mul (pos a) (pos b) = pos (a * b)
int_mul (pos a) (negsuc b) = minus 0 (a * (b + 1))
int_mul (negsuc a) (pos b) = minus 0 ((a + 1) * b)
int_mul (negsuc a) (negsuc b) = pos ((a + 1) * (b + 1))

abbrev int_lt : ℤ → ℤ → Bool
int_lt (pos a) (pos b) = ltb a b
int_lt (pos a) (negsuc b) = false
int_lt (negsuc a) (pos b) = true
int_lt (negsuc a) (negsuc b) = ltb b a

-- A number, or one that is not a number: each operation passes it on, and it is less than nothing.
abbrev with_nan : (ℤ → ℤ → ℤ) → Option ℤ → Option ℤ → Option ℤ
with_nan f (some a) (some b) = some (f a b)
with_nan f _ _ = none

abbrev nan_lt : Option ℤ → Option ℤ → Bool
nan_lt (some a) (some b) = int_lt a b
nan_lt _ _ = false

abbrev nan_negate : Option ℤ → Option ℤ
nan_negate none = none
nan_negate (some a) = some (int_neg a)

abbrev num : ℤ → Option ℤ
num a = some a

-- `half` stands for a factor that makes the mean of two errors their sum.
abbrev numbers : Numbers (Option ℤ)
numbers = record {
  zero_value = num (pos 0);
  half = num (pos 1);
  max_value = num (pos 2147483647);
  add = with_nan int_add;
  sub = with_nan int_sub;
  mul = with_nan int_mul;
  negate = nan_negate;
  lt = nan_lt;
}

int_lt_irrefl : (a : ℤ) → int_lt a a ≡ false
int_lt_irrefl (pos a) = ground arith
int_lt_irrefl (negsuc a) = ground arith

nan_lt_irrefl : (a : Option ℤ) → nan_lt a a ≡ false
nan_lt_irrefl none = refl
nan_lt_irrefl (some a) = int_lt_irrefl a

abbrev a_p : PController (Option ℤ)
a_p = make_p numbers (num (pos 3)) (num (negsuc 9)) (num (pos 10))

abbrev a_backcalc : BackcalcPi (Option ℤ)
a_backcalc =
    make_backcalc numbers (num (pos 3)) (num (pos 1)) (num (pos 1)) (num (pos 1)) (num (negsuc 9))
      (num (pos 10))

abbrev a_clamping : ClampingPi (Option ℤ)
a_clamping =
    make_clamping numbers (num (pos 1)) (num (pos 2)) (num (pos 1)) (num (negsuc 9)) (num (pos 10))

-- An error of 4: 4 and 8 are more than 10, so the integral becomes 6.
clamped :
    (push_clamping numbers non_inverting (num (pos 7)) (num (pos 3)) a_clamping).base ≡ record {
      kp = num (pos 1);
      ki = num (pos 2);
      ts = num (pos 1);
      out_i = num (pos 6);
      lower_limit = num (negsuc 9);
      upper_limit = num (pos 10);
      out = num (pos 10);
    }
unfolding push_clamping make_clamping make_base
clamped = refl

pushes_are_limited_example :
    let k' = push_clamping numbers inverting (num (pos 7)) (num (pos 3)) a_clamping in
    IsWithin numbers
      (num (negsuc 9))
      (num (pos 10))
      (push_p numbers inverting (num (pos 7)) (num (pos 3)) a_p).out
    × IsWithin numbers
        (num (negsuc 9))
        (num (pos 10))
        (push_backcalc numbers inverting (num (pos 7)) (num (pos 3)) a_backcalc).base.out
    × IsWithin numbers (num (negsuc 9)) (num (pos 10)) k'.base.out
    × DoesNotWindUp numbers (proportional numbers k'.error a_clamping.base) a_clamping.base k'.base
unfolding make_p make_backcalc make_clamping make_base
pushes_are_limited_example =
    pushes_are_limited numbers inverting (num (pos 7)) (num (pos 3)) a_p a_backcalc a_clamping
      nan_lt_irrefl refl refl refl
