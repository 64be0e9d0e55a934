-- ===== src/Kinematics/Tests.antt =====
-- A base with two motors, and the theorem at a concrete input.
use sistema_motriz_rs.Base.{◌≡◌, refl, true, List, [], ◌∷◌}
use sistema_motriz_rs.Base.Int.{pos, negsuc}
use sistema_motriz_rs.Base.Float.{Milli, milli}
use sistema_motriz_rs.Base.Double.{milli_double}
use sistema_motriz_rs.Kinematics.Model.{
  left, right, DifferentialConfig, MotorConfig, BodyVelocity, MotorCommand, failed,
  duplicate_actuator_id, has_actuator, motor_error, validate_from, validate_motor_configs,
  unscaled_motor_rpm, common_scale, motor_command, solve, argument_error, differential_inverse,
}
use sistema_motriz_rs.Kinematics.Limits.{Respects, Distinct, differential_inverse-Respects}

computes : Unit {0}
unfolding has_actuator motor_error validate_from validate_motor_configs unscaled_motor_rpm
    common_scale motor_command solve argument_error differential_inverse
computes = tt

abbrev base : DifferentialConfig Milli
base = record { track_width_m = milli (pos 500); vy_epsilon_mps = milli (pos 1) }

abbrev left_motor : MotorConfig Milli
left_motor = record {
  actuator_id = 1;
  side = left;
  wheel_radius_m = milli (pos 100);
  motor_to_wheel_ratio = milli (pos 1000);
  direction_sign = pos 1;
  max_abs_rpm = milli (pos 50000);
}

abbrev right_motor : MotorConfig Milli
right_motor = record left_motor { actuator_id = 2; side = right; direction_sign = negsuc 0 }

abbrev forward : BodyVelocity Milli
forward = record { vx_mps = milli (pos 1000); vy_mps = milli (pos 0); wz_radps = milli (pos 0) }

-- One metre per second is too fast for 50 rpm: both motors are slowed down alike.
abbrev slowed : List (MotorCommand Milli)
slowed =
    record { actuator_id = 1; motor_rpm = milli (pos 49941) }
    ∷ record { actuator_id = 2; motor_rpm = milli (negsuc 49940) }
    ∷ []

doubled :
    differential_inverse base (left_motor ∷ left_motor ∷ []) forward 8
    ≡ failed duplicate_actuator_id
unfolding computes
doubled = refl

differential_inverse-Respects_example :
    Respects (left_motor ∷ right_motor ∷ []) slowed × Distinct [] (left_motor ∷ right_motor ∷ [])
unfolding computes
differential_inverse-Respects_example =
    differential_inverse-Respects base (left_motor ∷ right_motor ∷ []) forward 8 slowed
      (record { scale = milli (pos 523); saturated = true }) refl
