-- ===== src/Actuator.antt =====
-- emb/actuator/unmonitored.hpp, feedback.hpp and monitored.hpp. The encoder, the driver, the sensor
-- and the decoder are parameters that may use and change a state `H`, that of the hardware.
pub mod Discrete
pub mod Lines
mod Tests
use emblib.Base.{Bool, List, [], ◌∷◌}

pub record Unmonitored (State : Type 0) : Type 0 where
  pub desired : State

module _ {State Command H : Type 0} (encoder : State → H → Command × H)
    (driver : Command → H → H) where
  -- `driver_(encoder_(desired_))`
  abbrev pub drive : State → H → H
  drive s h = let r = encoder s h in driver r.0 r.1

  -- Constructor.
  unfoldable pub make : State → H → Unmonitored State × H
  make initial h = (record { desired = initial }, drive initial h)

  unfoldable pub command : State → Unmonitored State → H → Unmonitored State × H
  command s a h = (record a { desired = s }, drive s h)

  unfoldable pub command_all : List State → Unmonitored State → H → Unmonitored State × H
  command_all [] a h = (a, h)
  command_all (s ∷ ss) a h = let r = command s a h in command_all ss r.0 r.1

module _ {State Reading H : Type 0} (sensor : H → Reading × H)
    (decoder : Reading → H → State × H) where
  -- `feedback::read`
  unfoldable pub read : H → State × H
  read h = let r = sensor h in decoder r.0 r.1

  -- The questions of `monitored`; its `command` and `desired` are those of its actuator.
  unfoldable pub actual : H → State × H
  actual h = read h

  unfoldable pub in_sync : (State → State → Bool) → Unmonitored State → H → Bool × H
  in_sync eq a h = let r = actual h in (eq r.0 a.desired, r.1)
