-- ===== src/Base/OptionMonad.antt =====
-- Chains of steps that can fault: `none` is undefined behaviour or a call of `std::terminate`.
use mathlib.Core.Bool.{Bool, true, false}
use mathlib.Core.Option.{Option, none, some}

infixl 5 ◌>>=◌ ◌>>◌
abbrev pub ◌>>=◌ {ℓ κ} : {A : Type ℓ} {B : Type κ} → Option A → (A → Option B) → Option B
none >>= f = none
some a >>= f = f a

abbrev pub ◌>>◌ {ℓ} : {B : Type ℓ} → Option (Unit {0}) → Option B → Option B
m >> k = m >>= λ _. k

-- `ASSUME(cond)` of emb/assert.hpp: undefined behaviour unless the condition holds.
abbrev pub assume : Bool → Option (Unit {0})
assume true = some tt
assume false = none
