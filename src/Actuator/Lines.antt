-- ===== src/Actuator/Lines.antt =====
-- What the two lines of a `gpio_monitored_actuator` of emb/actuator/discrete.hpp carry.
use emblib.Base.{◌≡◌, refl, ap, ◌∙◌, List, [], ◌∷◌}
use emblib.Gpio.{
  Level, Polarity, Input, Output, IsInput, IsOutput, to_state, to_level, to_state-to_level,
}
use emblib.Actuator.{Unmonitored, make, command_all, command, read, actual, in_sync}
use emblib.Actuator.Discrete.{
  Position, Signal, Rest, closed, opened, normally_closed, normally_open, active, inactive,
  position_eq, encode, decode, state_of, signal_of, gpio_driver, gpio_sensor, encoder, decoder,
}

decode-encode : (rest : Rest) (x : Position) → decode rest (encode rest x) ≡ x
unfolding decode encode
decode-encode normally_closed closed = refl
decode-encode normally_closed opened = refl
decode-encode normally_open closed = refl
decode-encode normally_open opened = refl

signal_of-state_of : (s : Signal) → signal_of (state_of s) ≡ s
signal_of-state_of inactive = refl
signal_of-state_of active = refl

-- The level of a line with a polarity, for a position, and the position that a level says.
abbrev pub level_for : Rest → Polarity → Position → Level
level_for rest p x = to_level (state_of (encode rest x)) p

abbrev pub position_on : Rest → Polarity → Level → Position
position_on rest p l = decode rest (signal_of (to_state l p))

position_on-level_for :
    (rest : Rest) (p : Polarity) (x : Position) → position_on rest p (level_for rest p x) ≡ x
position_on-level_for rest p x =
    ap (λ s. decode rest (signal_of s)) (to_state-to_level (state_of (encode rest x)) p)
    ∙ ap (decode rest) (signal_of-state_of (encode rest x))
    ∙ decode-encode rest x

-- The command that holds after the initial position and a list of commands.
abbrev pub last_of : Position → List Position → Position
last_of s [] = s
last_of s (t ∷ ss) = last_of t ss

module _ {H : Type 0} (control : Output H) (p : Polarity) (wiring : Rest) where
  -- The control line carries the desired position.
  abbrev Drives : Position → Unmonitored Position × H → Type 0
  Drives s (a, h) = (a.desired ≡ s) × (control.line.read_level h ≡ level_for wiring p s)

  command_all-Drives :
      (cmds : List Position) (s : Position) (a : Unmonitored Position) (h : H)
      → IsOutput control p
      → Drives s (a, h)
      → Drives (last_of s cmds) (command_all (encoder wiring) (gpio_driver control) cmds a h)
  unfolding command_all command gpio_driver
  command_all-Drives [] s a h output d = d
  command_all-Drives (t ∷ cmds) s a h output d =
      command_all-Drives cmds t _ _ output (refl, output.sets (state_of (encode wiring t)) h)

  -- An actuator that is made with an initial position and then commanded.
  abbrev pub commanded : Position → List Position → H → Unmonitored Position × H
  commanded initial cmds h =
      let r = make (encoder wiring) (gpio_driver control) initial h in
      command_all (encoder wiring) (gpio_driver control) cmds r.0 r.1

  -- For pins that apply their polarities: after the constructor and any commands, the actuator desires
  -- the last position that it was given, and the level of the control line says this position to
  -- whoever reads it with the pin's polarity and the wiring. If the contact then gives the feedback
  -- line the level for some position, `actual` is this position, and `in_sync` whether it is the one
  -- last commanded. This is so for all four wirings and all polarities.
  pub lines_carry_positions :
      (sensed : Input H) (q : Polarity) (contact : Rest) (initial : Position) (cmds : List Position)
      (h : H) (x : Position)
      → IsOutput control p
      → IsInput sensed q
      → sensed.read_level (commanded initial cmds h).1 ≡ level_for contact q x
      → let (a, h') = commanded initial cmds h in
        let wanted = last_of initial cmds in
        (a.desired ≡ wanted)
        × (position_on wiring p (control.line.read_level h') ≡ wanted)
        × (actual (gpio_sensor sensed) (decoder contact) h' ≡ (x, h'))
        × (in_sync (gpio_sensor sensed) (decoder contact) position_eq a h'
            ≡ (position_eq x wanted, h'))
  unfolding make actual in_sync read gpio_sensor gpio_driver
  lines_carry_positions sensed q contact initial cmds h x output input feeds =
      let (a, h') = commanded initial cmds h in
      let (wants, drives) =
        command_all-Drives cmds initial _ _ output
          (refl, output.sets (state_of (encode wiring initial)) h) in
      let seen : decode contact (signal_of (sensed.read h')) ≡ x =
        ap (λ s. decode contact (signal_of s)) (input.reads h' ∙ ap (λ l. to_state l q) feeds)
        ∙ position_on-level_for contact q x in
      (
        wants,
        ap (position_on wiring p) drives ∙ position_on-level_for wiring p (last_of initial cmds),
        ap (λ y. (y, h')) seen,
        rw (seen, wants),
      )
