-- ===== src/Kinematics/Model.antt =====
-- components/robot_kinematics/robot_kinematics.c, with the data of its header. A pointer that the
-- code tests against NULL is an `Option`, or a flag for output pointers.
use Prim.Native.String.{String}
use sistema_motriz_rs.Base.{
  ℕ, ◌+◌, Bool, true, false, not, ◌&&◌, ◌||◌, List, [], ◌∷◌, ◌++◌, map, Option, none, some, ltb,
  ◌==◌, if◌then◌else◌, length,
}
use sistema_motriz_rs.Base.Int.{ℤ, pos, negsuc}
use sistema_motriz_rs.Base.Double.{Double}

-- `other_side` is any other value of the enum.
pub data Side : Type 0 where
  left right other_side : Side

pub record DifferentialConfig (D : Type 0) : Type 0 where
  pub track_width_m : D
  pub vy_epsilon_mps : D

pub record MotorConfig (D : Type 0) : Type 0 where
  pub actuator_id : ℕ
  pub side : Side
  pub wheel_radius_m : D
  pub motor_to_wheel_ratio : D
  pub direction_sign : ℤ
  pub max_abs_rpm : D

pub record BodyVelocity (D : Type 0) : Type 0 where
  pub vx_mps : D
  pub vy_mps : D
  pub wz_radps : D

pub record MotorCommand (D : Type 0) : Type 0 where
  pub actuator_id : ℕ
  pub motor_rpm : D

pub record Report (D : Type 0) : Type 0 where
  pub scale : D
  pub saturated : Bool

pub data KinematicsError : Type 0 where
  error_none null_argument motor_count_zero output_capacity invalid_track_width : KinematicsError
  invalid_vy_epsilon nonfinite_body_velocity unsupported_lateral_velocity : KinematicsError
  invalid_motor_side invalid_wheel_radius invalid_motor_to_wheel_ratio : KinematicsError
  invalid_direction_sign invalid_max_abs_rpm duplicate_actuator_id : KinematicsError
  missing_left_motor missing_right_motor numeric_overflow : KinematicsError

-- What a call writes: the commands and the report, or nothing with an error.
pub data Inverse (D : Type 0) : Type 0 where
  completed : List (MotorCommand D) → Report D → Inverse D
  failed : KinematicsError → Inverse D

abbrev pub error_name : KinematicsError → String
error_name error_none = "OK"
error_name null_argument = "NULL_ARGUMENT"
error_name motor_count_zero = "MOTOR_COUNT_ZERO"
error_name output_capacity = "OUTPUT_CAPACITY"
error_name invalid_track_width = "INVALID_TRACK_WIDTH"
error_name invalid_vy_epsilon = "INVALID_VY_EPSILON"
error_name nonfinite_body_velocity = "NONFINITE_BODY_VELOCITY"
error_name unsupported_lateral_velocity = "UNSUPPORTED_LATERAL_VELOCITY"
error_name invalid_motor_side = "INVALID_MOTOR_SIDE"
error_name invalid_wheel_radius = "INVALID_WHEEL_RADIUS"
error_name invalid_motor_to_wheel_ratio = "INVALID_MOTOR_TO_WHEEL_RATIO"
error_name invalid_direction_sign = "INVALID_DIRECTION_SIGN"
error_name invalid_max_abs_rpm = "INVALID_MAX_ABS_RPM"
error_name duplicate_actuator_id = "DUPLICATE_ACTUATOR_ID"
error_name missing_left_motor = "MISSING_LEFT_MOTOR"
error_name missing_right_motor = "MISSING_RIGHT_MOTOR"
error_name numeric_overflow = "NUMERIC_OVERFLOW"

abbrev pub is_left : Side → Bool
is_left left = true
is_left right = false
is_left other_side = false

abbrev pub is_valid_side : Side → Bool
is_valid_side left = true
is_valid_side right = true
is_valid_side other_side = false

abbrev pub is_unit_sign : ℤ → Bool
is_unit_sign (pos n) = n == 1
is_unit_sign (negsuc n) = n == 0

module _ {D : Type 0} where
  -- The inner loop over the motors before.
  unfoldable pub has_actuator : List (MotorConfig D) → ℕ → Bool
  has_actuator [] id = false
  has_actuator (m ∷ ms) id = m.actuator_id == id || has_actuator ms id

module _ {D : Type 0} ⦃fd : Double D⦄ where
  abbrev pub positive : D → Bool
  positive x = fd.finite_d x && not (fd.le_d x fd.zero_d)

  -- The tests of one motor, with the motors before it.
  unfoldable pub motor_error : List (MotorConfig D) → MotorConfig D → Option KinematicsError
  motor_error before m =
      if not (is_valid_side m.side)
      then some invalid_motor_side
      else if not (positive m.wheel_radius_m)
      then some invalid_wheel_radius
      else if not (positive m.motor_to_wheel_ratio)
      then some invalid_motor_to_wheel_ratio
      else if not (is_unit_sign m.direction_sign)
      then some invalid_direction_sign
      else if not (positive m.max_abs_rpm)
      then some invalid_max_abs_rpm
      else if has_actuator before m.actuator_id
      then some duplicate_actuator_id
      else none

  -- The loop, with the motors before and the counts of both sides; `none` is OK.
  unfoldable pub validate_from :
      List (MotorConfig D) → ℕ → ℕ → List (MotorConfig D) → Option KinematicsError
  validate_from before left_count right_count [] =
      if left_count == 0
      then some missing_left_motor
      else if right_count == 0
      then some missing_right_motor
      else none
  validate_from before left_count right_count (m ∷ ms) = elim (motor_error before m) [
    | some e ↦ some e
    | none ↦
        validate_from (before ++ (m ∷ [])) (if is_left m.side then left_count + 1 else left_count)
          (if is_left m.side then right_count else right_count + 1) ms
  ]

  unfoldable pub validate_motor_configs : List (MotorConfig D) → Option KinematicsError
  validate_motor_configs ms = validate_from [] 0 0 ms

  unfoldable pub unscaled_motor_rpm : MotorConfig D → fd.L → fd.L → fd.L
  unscaled_motor_rpm m left_velocity right_velocity =
      fd.mul_l
        (fd.mul_l
          (fd.mul_l
            (fd.div_l (if is_left m.side then left_velocity else right_velocity)
              (fd.to_long m.wheel_radius_m))
            fd.rpm_per_radps_l)
          (fd.to_long m.motor_to_wheel_ratio))
        (fd.of_sign m.direction_sign)

  abbrev pub smaller_scale : MotorConfig D → fd.L → fd.L → fd.L
  smaller_scale m raw scale =
      let motor_scale = fd.div_l (fd.to_long m.max_abs_rpm) (fd.fabsl raw) in
      if fd.lt_l (fd.to_long m.max_abs_rpm) (fd.fabsl raw) && fd.lt_l motor_scale scale
      then motor_scale
      else scale

  -- The loop for the scale; `none` is NUMERIC_OVERFLOW.
  unfoldable pub common_scale : List (MotorConfig D) → fd.L → fd.L → fd.L → Option fd.L
  common_scale [] left_velocity right_velocity scale = some scale
  common_scale (m ∷ ms) left_velocity right_velocity scale =
      let raw = unscaled_motor_rpm m left_velocity right_velocity in
      let rest = common_scale ms left_velocity right_velocity (smaller_scale m raw scale) in
      if not (fd.finite_l raw) || fd.lt_l fd.dbl_max_l (fd.fabsl raw) then none else rest

  unfoldable pub motor_command : fd.L → fd.L → fd.L → MotorConfig D → MotorCommand D
  motor_command left_velocity right_velocity scale m =
      let rpm = fd.of_long (fd.mul_l (unscaled_motor_rpm m left_velocity right_velocity) scale) in
      record {
        actuator_id = m.actuator_id;
        motor_rpm =
            if fd.lt_d m.max_abs_rpm (fd.fabs rpm) then fd.copysign m.max_abs_rpm rpm else rpm;
      }

  -- The part behind the checks of the arguments.
  unfoldable pub solve : DifferentialConfig D → List (MotorConfig D) → BodyVelocity D → Inverse D
  solve config motors body =
      let yaw =
        fd.mul_l (fd.to_long body.wz_radps) (fd.div_l (fd.to_long config.track_width_m) fd.two_l) in
      let left_velocity = fd.sub_l (fd.to_long body.vx_mps) yaw in
      let right_velocity = fd.add_l (fd.to_long body.vx_mps) yaw in
      if not (fd.finite_l yaw && fd.finite_l left_velocity && fd.finite_l right_velocity)
      then failed numeric_overflow
      else elim (common_scale motors left_velocity right_velocity fd.one_l) [
        | none ↦ failed numeric_overflow
        | some scale ↦
            if fd.lt_l scale fd.dbl_true_min_l
            then failed numeric_overflow
            else completed (map (motor_command left_velocity right_velocity scale) motors)
                (record { scale = fd.of_long scale; saturated = fd.lt_l scale fd.one_l })
      ]

  -- The checks of the arguments in their order; `none` lets the call go on.
  unfoldable pub argument_error :
      DifferentialConfig D → List (MotorConfig D) → BodyVelocity D → ℕ → Option KinematicsError
  argument_error config motors body capacity =
      if length motors == 0
      then some motor_count_zero
      else if ltb capacity (length motors)
      then some output_capacity
      else if not (positive config.track_width_m)
      then some invalid_track_width
      else if not (fd.finite_d config.vy_epsilon_mps) || fd.lt_d config.vy_epsilon_mps fd.zero_d
      then some invalid_vy_epsilon
      else if not (fd.finite_d body.vx_mps && fd.finite_d body.vy_mps && fd.finite_d body.wz_radps)
      then some nonfinite_body_velocity
      else if fd.lt_d config.vy_epsilon_mps (fd.fabs body.vy_mps)
      then some unsupported_lateral_velocity
      else validate_motor_configs motors

  unfoldable pub differential_inverse :
      DifferentialConfig D → List (MotorConfig D) → BodyVelocity D → ℕ → Inverse D
  differential_inverse config motors body capacity =
      elim (argument_error config motors body capacity) [
        | some e ↦ failed e
        | none ↦ solve config motors body
      ]

  -- The call with pointers; `outputs` tells whether both outputs are given.
  unfoldable pub differential_inverse_checked :
      Option (DifferentialConfig D)
      → Option (List (MotorConfig D))
      → Option (BodyVelocity D)
      → Bool
      → ℕ
      → Inverse D
  differential_inverse_checked (some config) (some motors) (some body) true capacity =
      differential_inverse config motors body capacity
  differential_inverse_checked _ _ _ _ _ = failed null_argument
