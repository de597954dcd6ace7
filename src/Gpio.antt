-- ===== src/Gpio.antt =====
-- emb/gpio.hpp: levels of a line, and the states that they stand for. A pin is a parameter, as the
-- concepts `input` and `output` ask for it; `H` is the state of the hardware.
use emblib.Base.{◌≡◌, refl, Bool, true, false, if◌then◌else◌}

pub data Level : Type 0 where
  low : Level
  high : Level

pub data Polarity : Type 0 where
  active_low : Polarity
  active_high : Polarity

pub data State : Type 0 where
  inactive : State
  active : State

abbrev pub is_high : Level → Bool
is_high low = false
is_high high = true

abbrev pub is_active_high : Polarity → Bool
is_active_high active_low = false
is_active_high active_high = true

abbrev pub is_active : State → Bool
is_active inactive = false
is_active active = true

-- `==` on `bool`
abbrev pub same : Bool → Bool → Bool
same true b = b
same false true = false
same false false = true

abbrev pub opposite : Level → Level
opposite l = if is_high l then low else high

unfoldable pub to_state : Level → Polarity → State
to_state l p = if same (is_high l) (is_active_high p) then active else inactive

unfoldable pub to_level : State → Polarity → Level
to_level s p = if same (is_active s) (is_active_high p) then high else low

pub record Input (H : Type 0) : Type 0 where
  pub read : H → State
  pub read_level : H → Level

pub record Output (H : Type 0) : Type 0 where
  pub line : Input H
  pub set : State → H → H
  pub set_level : Level → H → H

-- A pin applies its polarity.
pub record IsInput {H : Type 0} (pin : Input H) (p : Polarity) : Type 0 where
  pub reads : (h : H) → pin.read h ≡ to_state (pin.read_level h) p

pub record IsOutput {H : Type 0} (pin : Output H) (p : Polarity) : Type 0 where
  pub sets : (s : State) (h : H) → pin.line.read_level (pin.set s h) ≡ to_level s p

-- What a line says is what was put on it.
pub to_state-to_level : (s : State) (p : Polarity) → to_state (to_level s p) p ≡ s
unfolding to_state to_level
to_state-to_level inactive active_low = refl
to_state-to_level inactive active_high = refl
to_state-to_level active active_low = refl
to_state-to_level active active_high = refl
