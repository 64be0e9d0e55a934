-- ===== src/PpmMotion/Tests.antt =====
-- A receiver with four channels, and the theorems at concrete inputs.
use sistema_motriz_rs.Base.{ℕ, ◌≡◌, refl, true, false, List, [], ◌∷◌, none, some, arith}
use sistema_motriz_rs.Base.Int.{pos, negsuc}
use sistema_motriz_rs.Base.Float.{Milli, milli, milli_float, lt_milli, neg_milli}
use sistema_motriz_rs.Base.Double.{milli_double}
use sistema_motriz_rs.PpmMotion.Model.{
  FloatArith, PpmConfig, PpmInput, PpmModel, axis_config_valid, is_neutral, pulse_is_valid,
  input_has_channels, input_is_priority, config_valid, axis_ratio, normalize_axis, speed_scale_of,
  init, step_released, step_takeover, step_arm_pending, step_neutral, step_command, step_phase,
  step, inactive, stream_prefix, armed,
}
use sistema_motriz_rs.PpmMotion.Sticks.{InUnit, step-InUnit}
use sistema_motriz_rs.PpmMotion.Handshake.{Tick, RunFollows, init-RunFollows}

computes : Unit {0}
unfolding axis_config_valid is_neutral pulse_is_valid input_has_channels input_is_priority
    config_valid axis_ratio normalize_axis speed_scale_of init step_released step_takeover
    step_arm_pending step_neutral step_command step_phase step
computes = tt

neg_milli-lt : (x y : Milli) → lt_milli (neg_milli x) (neg_milli y) ≡ lt_milli y x
neg_milli-lt x y = ground arith

neg_milli-neg : (x : Milli) → neg_milli (neg_milli x) ≡ x
neg_milli-neg x = ground arith

instance abbrev milli_arith : FloatArith Milli
milli_arith = record {
  of_int = milli_double.of_sign;
  add_f = milli_double.add_l;
  sub_f = milli_double.sub_l;
  mul_f = milli_double.mul_l;
  div_f = milli_double.div_l;
  one_f = milli (pos 1000);
  lt_neg = neg_milli-lt;
  neg_neg = neg_milli-neg;
  one_above = refl;
  zero_below = refl;
  zero_above = refl;
}

abbrev config : PpmConfig Milli
config = record {
  throttle_channel = 1;
  steering_channel = 2;
  enable_channel = 3;
  enable_active_max_us = 1300;
  neutral_deadband_us = 20;
  valid_min_us = 900;
  valid_max_us = 2100;
  throttle_min_us = 1000;
  throttle_center_us = 1500;
  throttle_max_us = 2000;
  steering_min_us = 1000;
  steering_center_us = 1500;
  steering_max_us = 2000;
  throttle_sign = pos 1;
  steering_sign = negsuc 0;
  speed_scale_channel = 4;
  speed_scale_min_us = 1000;
  speed_scale_max_us = 2000;
  speed_scale_min = milli (pos 200);
  speed_scale_max = milli (pos 1000);
}

abbrev started : PpmModel Milli
started = record {
  config = config;
  phase = inactive;
  priority_active = false;
  have_frame_sequence = false;
  last_frame_sequence = 0;
  arm_pending_frames = 0;
  stream_nonce = stream_prefix;
  stream_id = 0;
  sequence = 0;
  initialized = true;
}

init_starts : init config ≡ some started
unfolding computes
init_starts = refl

abbrev frame : ℕ → ℕ → PpmInput
frame number throttle = record {
  signal_valid = true;
  valid_frame_sequence = number;
  channel_count = 6;
  channels = throttle ∷ 1500 ∷ 1000 ∷ 2000 ∷ 1500 ∷ 1500 ∷ [];
}

-- Takeover, handshake, confirmation by the application, full throttle.
abbrev driving : List Tick
driving =
    record { input = frame 1 1500; rc_active = false }
    ∷ record { input = frame 2 1505; rc_active = false }
    ∷ record { input = frame 3 1500; rc_active = true }
    ∷ record { input = frame 4 2000; rc_active = true }
    ∷ []

abbrev armed_model : PpmModel Milli
armed_model = record started { phase = armed; priority_active = true }

full_throttle : (step armed_model (frame 4 2000) true).1.normalized_vx ≡ milli (pos 1000)
unfolding computes
full_throttle = refl

half_throttle : (step armed_model (frame 4 1740) true).1.normalized_vx ≡ milli (pos 458)
unfolding computes
half_throttle = refl

init-RunFollows_example : RunFollows none false started driving
unfolding computes
init-RunFollows_example = init-RunFollows config started driving refl

step-InUnit_example :
    let o = (step armed_model (frame 1 2050) true).1 in
    InUnit o.normalized_vx × InUnit o.normalized_wz
step-InUnit_example = step-InUnit armed_model (frame 1 2050) true
