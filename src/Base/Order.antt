-- ===== src/Base/Order.antt =====
-- What `operator<` of a type is taken to satisfy: a strict weak order.
use mathlib.Core.Path.{◌≡◌}
use mathlib.Core.Bool.{Bool, true, false}

pub record IsOrder {T : Type 0} (lt : T → T → Bool) : Type 0 where
  pub asym : (a b : T) → lt a b ≡ true → lt b a ≡ false
  pub trans : (a b c : T) → lt a b ≡ false → lt b c ≡ false → lt a c ≡ false
  pub irrefl : (a : T) → lt a a ≡ false
