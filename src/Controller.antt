-- ===== src/Controller.antt =====
-- emb/controller.hpp: controllers whose output stays within limits. The arithmetic and the order of
-- `T` are parameters; times are in seconds, as `ts_.value()`.
pub mod Limits
mod Tests
use emblib.Base.{Bool, true, false, if◌then◌else◌}

-- The operators of `T`, its literals 0 and 0.5, and its greatest value.
pub record Numbers (T : Type 0) : Type 0 where
  pub zero_value : T
  pub half : T
  pub max_value : T
  pub add : T → T → T
  pub sub : T → T → T
  pub mul : T → T → T
  pub negate : T → T
  pub lt : T → T → Bool

pub data Policy : Type 0 where
  non_inverting inverting : Policy

pub record PController (T : Type 0) : Type 0 where
  pub kp : T
  pub lower_limit : T
  pub upper_limit : T
  pub out : T

-- `pi_controller_base`
pub record PiBase (T : Type 0) : Type 0 where
  pub kp : T
  pub ki : T
  pub ts : T
  pub out_i : T
  pub lower_limit : T
  pub upper_limit : T
  pub out : T

-- `backcalc_pi_controller` and `clamping_pi_controller`
pub record BackcalcPi (T : Type 0) : Type 0 where
  pub base : PiBase T
  pub kc : T

pub record ClampingPi (T : Type 0) : Type 0 where
  pub base : PiBase T
  pub error : T

-- The setters. An output is not limited again before the next push.
module _ {T : Type 0} where
  abbrev pub set_lower_limit_p : T → PController T → PController T
  set_lower_limit_p v c = record c { lower_limit = v }

  abbrev pub set_upper_limit_p : T → PController T → PController T
  set_upper_limit_p v c = record c { upper_limit = v }

  abbrev pub set_kp_p : T → PController T → PController T
  set_kp_p v c = record c { kp = v }

  abbrev pub set_lower_limit : T → PiBase T → PiBase T
  set_lower_limit v b = record b { lower_limit = v }

  abbrev pub set_upper_limit : T → PiBase T → PiBase T
  set_upper_limit v b = record b { upper_limit = v }

  abbrev pub set_kp : T → PiBase T → PiBase T
  set_kp v b = record b { kp = v }

  abbrev pub set_ki : T → PiBase T → PiBase T
  set_ki v b = record b { ki = v }

  abbrev pub set_timestep : T → PiBase T → PiBase T
  set_timestep v b = record b { ts = v }

module _ {T : Type 0} (num : Numbers T) where
  abbrev pub error_of : Policy → T → T → T
  error_of non_inverting ref meas = num.sub ref meas
  error_of inverting ref meas = num.sub meas ref

  -- `std::clamp`
  abbrev pub clamp : T → T → T → T
  clamp v low high = if num.lt v low then low else if num.lt high v then high else v

  unfoldable pub make_p : T → T → T → PController T
  make_p kp low high = record {
    kp = kp;
    lower_limit = low;
    upper_limit = high;
    out = num.zero_value;
  }

  unfoldable pub push_p : Policy → T → T → PController T → PController T
  push_p policy ref meas c = record c {
    out = clamp (num.mul c.kp (error_of policy ref meas)) c.lower_limit c.upper_limit;
  }

  unfoldable pub reset_p : PController T → PController T
  reset_p c = record c { out = num.zero_value }

  unfoldable pub make_base : T → T → T → T → T → PiBase T
  make_base kp ki ts low high = record {
    kp = kp;
    ki = ki;
    ts = ts;
    out_i = num.zero_value;
    lower_limit = low;
    upper_limit = high;
    out = num.zero_value;
  }

  -- Between the least and the greatest value.
  abbrev pub finite : T → T
  finite v = clamp v (num.negate num.max_value) num.max_value

  unfoldable pub make_backcalc : T → T → T → T → T → T → BackcalcPi T
  make_backcalc kp ki ts kc low high = record { base = make_base kp ki ts low high; kc = kc }

  unfoldable pub push_backcalc : Policy → T → T → BackcalcPi T → BackcalcPi T
  push_backcalc policy ref meas c =
      let b = c.base in
      let error = error_of policy ref meas in
      let out = finite (num.add (num.mul error b.kp) b.out_i) in
      let limited = clamp out b.lower_limit b.upper_limit in
      let out_i =
        num.sub (num.add b.out_i (num.mul (num.mul b.ki b.ts) error))
          (num.mul c.kc (num.sub out limited)) in
      record c { base = record b { out = limited; out_i = finite out_i } }

  unfoldable pub reset_backcalc : BackcalcPi T → BackcalcPi T
  reset_backcalc c = record c {
    base = record (c.base) { out_i = num.zero_value; out = num.zero_value };
  }

  unfoldable pub make_clamping : T → T → T → T → T → ClampingPi T
  make_clamping kp ki ts low high = record {
    base = make_base kp ki ts low high;
    error = num.zero_value;
  }

  -- The proportional part of the output, and the integral one before the limits.
  abbrev pub proportional : T → PiBase T → T
  proportional error b = num.mul error b.kp

  abbrev pub integrated : T → ClampingPi T → T
  integrated error c =
      num.add (num.mul (num.mul (num.mul (num.add error c.error) num.half) c.base.ki) c.base.ts)
        c.base.out_i

  -- The branches of `push`, for the two parts of the output.
  abbrev pub limit : T → T → PiBase T → PiBase T
  limit out_p out_i b =
      let out = num.add out_p out_i in
      if num.lt b.upper_limit out
      then record b {
        out = b.upper_limit;
        out_i = if num.lt out_p b.upper_limit then num.sub b.upper_limit out_p else b.out_i;
      }
      else if num.lt out b.lower_limit
      then record b {
        out = b.lower_limit;
        out_i = if num.lt b.lower_limit out_p then num.sub b.lower_limit out_p else b.out_i;
      }
      else record b { out = out; out_i = out_i }

  unfoldable pub push_clamping : Policy → T → T → ClampingPi T → ClampingPi T
  push_clamping policy ref meas c =
      let error = error_of policy ref meas in
      record { base = limit (proportional error c.base) (integrated error c) c.base; error = error }

  unfoldable pub reset_clamping : ClampingPi T → ClampingPi T
  reset_clamping c = record {
    base = record (c.base) { out_i = num.zero_value; out = num.zero_value };
    error = num.zero_value;
  }
