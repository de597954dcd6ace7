-- ===== src/Actuator/Tests.antt =====
-- Two lines, and an instance of what is proved of a discrete actuator.
use emblib.Base.{◌≡◌, refl, false, [], ◌∷◌}
use emblib.Gpio.{
  Level, high, active_low, active_high, Input, Output, IsInput, IsOutput, to_state, to_level,
}
use emblib.Actuator.{actual, in_sync, make, command, command_all}
use emblib.Actuator.Discrete.{
  closed, opened, normally_closed, normally_open, position_eq, gpio_sensor, decoder, encode,
  gpio_driver,
}
use emblib.Actuator.Lines.{commanded, position_on, lines_carry_positions}

record Lines : Type 0 where
  driven : Level
  contact : Level

abbrev control : Output Lines
control = record {
  line = record { read = λ h. to_state h.driven active_low; read_level = λ h. h.driven };
  set = λ s h. record h { driven = to_level s active_low };
  set_level = λ l h. record h { driven = l };
}

abbrev sensed : Input Lines
sensed = record { read = λ h. to_state h.contact active_high; read_level = λ h. h.contact }

control-IsOutput : IsOutput control active_low
control-IsOutput = record { sets = λ s h. refl }

sensed-IsInput : IsInput sensed active_high
sensed-IsInput = record { reads = λ h. refl }

-- A valve that stays closed.
abbrev stuck : Lines
stuck = record { driven = high; contact = high }

lines_carry_positions_example :
    let (a, h) = commanded control active_low normally_closed closed (opened ∷ []) stuck in
    (a.desired ≡ opened)
    × (position_on normally_closed active_low (control.line.read_level h) ≡ opened)
    × (actual (gpio_sensor sensed) (decoder normally_open) h ≡ (closed, h))
    × (in_sync (gpio_sensor sensed) (decoder normally_open) position_eq a h ≡ (false, h))
unfolding to_level encode gpio_driver make command command_all
lines_carry_positions_example =
    lines_carry_positions control active_low normally_closed sensed active_high normally_open closed
      (opened ∷ []) stuck closed control-IsOutput sensed-IsInput refl
