-- ===== src/Kinematics/Limits.antt =====
-- What components/robot_kinematics/robot_kinematics.c guarantees of the commands it completes.
use mathlib.Core.Path.{subst}
use sistema_motriz_rs.Base.{
  ℕ, ◌+◌, ◌≡◌, refl, inl, inr, true, false, List, [], ◌∷◌, ◌++◌, map, none, arith, if◌then◌else◌,
  Bool-cases, Option-cases,
}
use sistema_motriz_rs.Base.Double.{Double}
use sistema_motriz_rs.Kinematics.Model.{
  DifferentialConfig, MotorConfig, BodyVelocity, MotorCommand, Report, completed, has_actuator,
  positive, is_left, unscaled_motor_rpm, motor_error, validate_from, validate_motor_configs,
  common_scale, motor_command, solve, argument_error, differential_inverse,
}

module _ {D : Type 0} ⦃fd : Double D⦄ where
  -- One command for each motor, in order, each within the limit of its motor.
  abbrev pub Respects : List (MotorConfig D) → List (MotorCommand D) → Type 0
  Respects [] [] = Unit
  Respects [] (c ∷ cs) = ⊥
  Respects (m ∷ ms) [] = ⊥
  Respects (m ∷ ms) (c ∷ cs) =
      (c.actuator_id ≡ m.actuator_id)
      × (fd.lt_d m.max_abs_rpm (fd.fabs c.motor_rpm) ≡ false)
      × Respects ms cs

  -- No motor of the list has the number of one before it.
  abbrev pub Distinct : List (MotorConfig D) → List (MotorConfig D) → Type 0
  Distinct before [] = Unit
  Distinct before (m ∷ ms) =
      (has_actuator before m.actuator_id ≡ false) × Distinct (before ++ (m ∷ [])) ms

  abbrev AllPositive : List (MotorConfig D) → Type 0
  AllPositive [] = Unit
  AllPositive (m ∷ ms) = (positive m.max_abs_rpm ≡ true) × AllPositive ms

  motor_error-none :
      (before : List (MotorConfig D)) (m : MotorConfig D)
      → motor_error before m ≡ none
      → (positive m.max_abs_rpm ≡ true) × (has_actuator before m.actuator_id ≡ false)
  unfolding motor_error
  motor_error-none before m h = ground arith

  validate_from-none :
      (ms before : List (MotorConfig D)) (left_count right_count : ℕ)
      → validate_from before left_count right_count ms ≡ none
      → AllPositive ms × Distinct before ms
  unfolding validate_from
  validate_from-none [] before l r h = (tt, tt)
  validate_from-none (m ∷ ms) before l r h = elim (Option-cases (motor_error before m)) [
    | inl e ↦
        let p = motor_error-none before m e in
        let q =
          validate_from-none ms (before ++ (m ∷ [])) (if is_left m.side then l + 1 else l)
            (if is_left m.side then r else r + 1) (ground (arith, e, h)) in
        ((p.0, q.0), (p.1, q.1))
    | inr (k, e) ↦ absurd (ground (arith, e, h))
  ]

  positive_parts :
      (x : D) → positive x ≡ true → (fd.finite_d x ≡ true) × (fd.le_d x fd.zero_d ≡ false)
  positive_parts x p = ground arith

  motor_command-id :
      (l r scale : fd.L) (m : MotorConfig D)
      → (motor_command l r scale m).actuator_id ≡ m.actuator_id
  unfolding motor_command
  motor_command-id l r scale m = refl

  motor_command-bounded :
      (l r scale : fd.L) (m : MotorConfig D)
      → positive m.max_abs_rpm ≡ true
      → fd.lt_d m.max_abs_rpm (fd.fabs (motor_command l r scale m).motor_rpm) ≡ false
  unfolding motor_command
  motor_command-bounded l r scale m p =
      let rpm = fd.of_long (fd.mul_l (unscaled_motor_rpm m l r) scale) in
      let q = positive_parts m.max_abs_rpm p in
      elim (Bool-cases (fd.lt_d m.max_abs_rpm (fd.fabs rpm))) [
        | inl over ↦
            rw (over, fd.fabs-copysign m.max_abs_rpm rpm q.0 q.1) (fd.lt_d_irrefl m.max_abs_rpm)
        | inr within ↦ rw within within
      ]

  commands-Respects :
      (l r scale : fd.L) (ms : List (MotorConfig D))
      → AllPositive ms
      → Respects ms (map (motor_command l r scale) ms)
  commands-Respects l r scale [] a = tt
  commands-Respects l r scale (m ∷ ms) a = (
    motor_command-id l r scale m,
    motor_command-bounded l r scale m a.0,
    commands-Respects l r scale ms a.1,
  )

  solve-completed :
      (config : DifferentialConfig D) (ms : List (MotorConfig D)) (body : BodyVelocity D)
      (cs : List (MotorCommand D)) (report : Report D)
      → solve config ms body ≡ completed cs report
      → AllPositive ms
      → Respects ms cs
  unfolding solve
  solve-completed config ms body cs report h a =
      let yaw =
        fd.mul_l (fd.to_long body.wz_radps) (fd.div_l (fd.to_long config.track_width_m) fd.two_l) in
      let l = fd.sub_l (fd.to_long body.vx_mps) yaw in
      let r = fd.add_l (fd.to_long body.vx_mps) yaw in
      elim (Option-cases (common_scale ms l r fd.one_l)) [
        | inl e ↦ absurd (ground (arith, e, h))
        | inr (scale, e) ↦
            subst (Respects ms) (ground (arith, e, h)) (commands-Respects l r scale ms a)
      ]

  solved :
      (config : DifferentialConfig D) (ms : List (MotorConfig D)) (body : BodyVelocity D)
      (capacity : ℕ) (cs : List (MotorCommand D)) (report : Report D)
      → differential_inverse config ms body capacity ≡ completed cs report
      → (validate_motor_configs ms ≡ none) × (solve config ms body ≡ completed cs report)
  unfolding differential_inverse argument_error
  solved config ms body capacity cs report h = ground arith

  -- A completed call gives one command for each motor, in the order of the motors, each within the
  -- limit of its motor, and no two of them are for the same actuator.
  pub differential_inverse-Respects :
      (config : DifferentialConfig D) (ms : List (MotorConfig D)) (body : BodyVelocity D)
      (capacity : ℕ) (cs : List (MotorCommand D)) (report : Report D)
      → differential_inverse config ms body capacity ≡ completed cs report
      → Respects ms cs × Distinct [] ms
  unfolding validate_motor_configs
  differential_inverse-Respects config ms body capacity cs report h =
      let s = solved config ms body capacity cs report h in
      let v = validate_from-none ms [] 0 0 s.0 in
      (solve-completed config ms body cs report s.1 v.0, v.1)
