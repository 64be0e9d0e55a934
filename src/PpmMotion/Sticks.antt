-- ===== src/PpmMotion/Sticks.antt =====
-- The range of a stick in components/ppm_motion_source/ppm_motion_model.c.
use sistema_motriz_rs.Base.{ℕ, ◌≡◌, sym, ◌∙◌, ap, Bool, false, arith, Bool-cases, inl, inr}
use sistema_motriz_rs.Base.Int.{ℤ}
use sistema_motriz_rs.Base.Float.{Float32}
use sistema_motriz_rs.PpmMotion.Model.{
  FloatArith, bounded, axis_ratio, normalize_axis, PpmModel, PpmInput, PpmOutput, channel_at,
  take_frame, step_command, step, step_released, step_takeover, step_phase, step_arm_pending,
  step_neutral,
}

module _ {F : Type 0} ⦃fl : Float32 F⦄ ⦃fa : FloatArith F⦄ where
  -- Neither above 1 nor below -1.
  abbrev pub InUnit : F → Type 0
  InUnit x = (fl.lt fa.one_f x ≡ false) × (fl.lt x (fl.neg fa.one_f) ≡ false)

  bounded-InUnit : (x : F) → InUnit (bounded x)
  bounded-InUnit x = elim (Bool-cases (fl.lt fa.one_f x)) [
    | inl a ↦ rw a (fl.lt_irrefl fa.one_f, fa.one_above)
    | inr a ↦ elim (Bool-cases (fl.lt x (fl.neg fa.one_f))) [
      | inl b ↦ rw (a, b) (fa.one_above, fl.lt_irrefl (fl.neg fa.one_f))
      | inr b ↦ rw (a, b) (a, b)
    ]
  ]

  neg-InUnit : (x : F) → InUnit x → InUnit (fl.neg x)
  neg-InUnit x h = (
    ap (λ y. fl.lt y (fl.neg x)) (sym (fa.neg_neg fa.one_f)) ∙ fa.lt_neg (fl.neg fa.one_f) x ∙ h.1,
    fa.lt_neg x fa.one_f ∙ h.0,
  )

module _ (F : Type 0) ⦃fl : Float32 F⦄ ⦃fa : FloatArith F⦄ where
  normalize_axis-InUnit :
      (pulse minimum center maximum deadband : ℕ) (sign : ℤ)
      → InUnit {F = F} (normalize_axis pulse minimum center maximum deadband sign)
  unfolding normalize_axis
  normalize_axis-InUnit pulse minimum center maximum deadband sign =
      let x : F = bounded (axis_ratio pulse minimum center maximum deadband) in
      let b : InUnit x =
        bounded-InUnit {F = F} (axis_ratio pulse minimum center maximum deadband) in
      ground (arith, b, neg-InUnit x b, fa.zero_below, fa.zero_above)

module _ {F : Type 0} ⦃fl : Float32 F⦄ ⦃fa : FloatArith F⦄ where
  abbrev BothInUnit : PpmOutput F → Type 0
  BothInUnit o = InUnit o.normalized_vx × InUnit o.normalized_wz

  command-BothInUnit : (m : PpmModel F) (input : PpmInput) → BothInUnit (step_command m input).1
  unfolding step_command
  command-BothInUnit m input =
      let c = m.config in
      (
        normalize_axis-InUnit F (channel_at input c.throttle_channel) c.throttle_min_us
            c.throttle_center_us c.throttle_max_us c.neutral_deadband_us c.throttle_sign,
        normalize_axis-InUnit F (channel_at input c.steering_channel) c.steering_min_us
            c.steering_center_us c.steering_max_us c.neutral_deadband_us c.steering_sign,
      )

  -- Whatever the input, the configuration and the state, no step asks for an axis above 1 or below -1.
  pub step-InUnit :
      (m : PpmModel F) (input : PpmInput) (rc_active : Bool)
      → let o = (step m input rc_active).1 in InUnit o.normalized_vx × InUnit o.normalized_wz
  unfolding step step_released step_takeover step_phase step_arm_pending step_neutral
  step-InUnit m input rc_active =
      ground (arith, command-BothInUnit (take_frame m input) input, fa.zero_below, fa.zero_above)
