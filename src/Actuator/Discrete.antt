-- ===== src/Actuator/Discrete.antt =====
-- emb/actuator/discrete.hpp: two-position actuators on GPIO lines.
use emblib.Base.{Bool, true, false, if◌then◌else◌}
use emblib.Gpio
use emblib.Gpio.{Input, Output}

pub data Position : Type 0 where
  closed : Position
  opened : Position

pub data Signal : Type 0 where
  inactive : Signal
  active : Signal

-- The structs of these names, each of which has both directions.
pub data Rest : Type 0 where
  normally_closed : Rest
  normally_open : Rest

abbrev pub position_eq : Position → Position → Bool
position_eq closed closed = true
position_eq opened opened = true
position_eq _ _ = false

abbrev pub signal_is_active : Signal → Bool
signal_is_active inactive = false
signal_is_active active = true

unfoldable pub encode : Rest → Position → Signal
encode normally_closed desired = if position_eq desired closed then inactive else active
encode normally_open desired = if position_eq desired opened then inactive else active

unfoldable pub decode : Rest → Signal → Position
decode normally_closed s = if signal_is_active s then opened else closed
decode normally_open s = if signal_is_active s then closed else opened

abbrev pub state_of : Signal → Gpio.State
state_of s = if signal_is_active s then Gpio.State.active else Gpio.State.inactive

abbrev pub signal_of : Gpio.State → Signal
signal_of s = if Gpio.is_active s then active else inactive

module _ {H : Type 0} where
  unfoldable pub gpio_driver : Output H → Signal → H → H
  gpio_driver pin s h = pin.set (state_of s) h

  unfoldable pub gpio_sensor : Input H → H → Signal × H
  gpio_sensor pin h = (signal_of (pin.read h), h)

  -- The encoder and the decoder of `gpio_actuator` and `gpio_feedback`.
  abbrev pub encoder : Rest → Position → H → Signal × H
  encoder rest s h = (encode rest s, h)

  abbrev pub decoder : Rest → Signal → H → Position × H
  decoder rest s h = (decode rest s, h)
