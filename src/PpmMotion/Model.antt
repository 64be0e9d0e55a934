-- ===== src/PpmMotion/Model.antt =====
-- components/ppm_motion_source/ppm_motion_model.c. The pointers are not NULL, and `channels` holds the
-- 14 channels of an input. Differences of pulses are written on ℕ behind the tests of their sign.
use Prim.Native.String.{String}
use sistema_motriz_rs.Base.{
  ℕ, ◌+◌, ◌-◌, Bool, true, false, not, ◌&&◌, ◌||◌, List, Option, none, some, ltb, leb, ◌==◌, ◌≡◌,
  if◌then◌else◌, get_or, u8, u64,
}
use sistema_motriz_rs.Base.Int.{ℤ, pos, negsuc}
use sistema_motriz_rs.Base.Float.{Float32, negate}

-- The arithmetic of `float`, with facts of IEEE 754.
pub record FloatArith (F : Type 0) ⦃fl : Float32 F⦄ : Type 0 where
  pub of_int : ℤ → F
  pub add_f : F → F → F
  pub sub_f : F → F → F
  pub mul_f : F → F → F
  pub div_f : F → F → F
  pub one_f : F
  pub lt_neg : (x y : F) → fl.lt (fl.neg x) (fl.neg y) ≡ fl.lt y x
  pub neg_neg : (x : F) → fl.neg (fl.neg x) ≡ x
  pub one_above : fl.lt one_f (fl.neg one_f) ≡ false
  pub zero_below : fl.lt one_f fl.zero_f ≡ false
  pub zero_above : fl.lt fl.zero_f (fl.neg one_f) ≡ false

pub data Action : Type 0 where
  action_none action_stop action_arm action_command : Action

pub data Phase : Type 0 where
  inactive wait_neutral arm_pending armed : Phase

pub record PpmConfig (F : Type 0) : Type 0 where
  pub throttle_channel : ℕ
  pub steering_channel : ℕ
  pub enable_channel : ℕ
  pub enable_active_max_us : ℕ
  pub neutral_deadband_us : ℕ
  pub valid_min_us : ℕ
  pub valid_max_us : ℕ
  pub throttle_min_us : ℕ
  pub throttle_center_us : ℕ
  pub throttle_max_us : ℕ
  pub steering_min_us : ℕ
  pub steering_center_us : ℕ
  pub steering_max_us : ℕ
  pub throttle_sign : ℤ
  pub steering_sign : ℤ
  pub speed_scale_channel : ℕ
  pub speed_scale_min_us : ℕ
  pub speed_scale_max_us : ℕ
  pub speed_scale_min : F
  pub speed_scale_max : F

pub record PpmInput : Type 0 where
  pub signal_valid : Bool
  pub valid_frame_sequence : ℕ
  pub channel_count : ℕ
  pub channels : List ℕ

pub record PpmOutput (F : Type 0) : Type 0 where
  pub action : Action
  pub stream_id : ℕ
  pub sequence : ℕ
  pub normalized_vx : F
  pub normalized_wz : F
  pub speed_scale : F
  pub deadman : Bool

pub record PpmModel (F : Type 0) : Type 0 where
  pub config : PpmConfig F
  pub phase : Phase
  pub priority_active : Bool
  pub have_frame_sequence : Bool
  pub last_frame_sequence : ℕ
  pub arm_pending_frames : ℕ
  pub stream_nonce : ℕ
  pub stream_id : ℕ
  pub sequence : ℕ
  pub initialized : Bool

abbrev pub max_channels : ℕ
max_channels = 14

abbrev pub arm_pending_max_new_frames : ℕ
arm_pending_max_new_frames = 2

abbrev pub stream_prefix : ℕ
stream_prefix = 5927581534549704704

abbrev pub phase_name : Phase → String
phase_name inactive = "INACTIVE"
phase_name wait_neutral = "WAIT_NEUTRAL"
phase_name arm_pending = "ARM_PENDING"
phase_name armed = "ARMED"

unfoldable pub axis_config_valid : ℕ → ℕ → ℕ → ℕ → ℕ → ℕ → Bool
axis_config_valid minimum_us center_us maximum_us deadband_us valid_min_us valid_max_us =
    leb valid_min_us minimum_us
    && leb maximum_us valid_max_us
    && ltb (minimum_us + deadband_us) center_us
    && ltb (center_us + deadband_us) maximum_us

abbrev is_sign : ℤ → Bool
is_sign (pos n) = n == 1
is_sign (negsuc n) = n == 0

abbrev is_negative : ℤ → Bool
is_negative (pos n) = false
is_negative (negsuc n) = true

abbrev pub distance : ℕ → ℕ → ℕ
distance a b = (a - b) + (b - a)

unfoldable pub is_neutral : ℕ → ℕ → ℕ → Bool
is_neutral pulse_us center_us deadband_us = leb (distance pulse_us center_us) deadband_us

-- `++stream_nonce` on `uint64_t`, without the number 0.
abbrev pub next_nonce : ℕ → ℕ
next_nonce nonce = if u64 (nonce + 1) == 0 then 1 else u64 (nonce + 1)

abbrev valid_channel : ℕ → Bool
valid_channel channel = ltb 0 channel && leb channel max_channels

abbrev pub channel_at : PpmInput → ℕ → ℕ
channel_at input channel = get_or input.channels (channel - 1) 0

module _ {F : Type 0} where
  unfoldable pub pulse_is_valid : PpmModel F → ℕ → Bool
  pulse_is_valid m pulse_us =
      leb m.config.valid_min_us pulse_us && leb pulse_us m.config.valid_max_us

  unfoldable pub input_has_channels : PpmModel F → PpmInput → Bool
  input_has_channels m input =
      input.signal_valid
      && leb m.config.enable_channel input.channel_count
      && leb m.config.throttle_channel input.channel_count
      && leb m.config.steering_channel input.channel_count
      && leb m.config.speed_scale_channel input.channel_count
      && pulse_is_valid m (channel_at input m.config.throttle_channel)
      && pulse_is_valid m (channel_at input m.config.steering_channel)
      && pulse_is_valid m (channel_at input m.config.enable_channel)
      && pulse_is_valid m (channel_at input m.config.speed_scale_channel)

  unfoldable pub input_is_priority : PpmModel F → PpmInput → Bool
  input_is_priority m input =
      input_has_channels m input
      && leb (channel_at input m.config.enable_channel) m.config.enable_active_max_us

  abbrev pub is_new_frame : PpmModel F → PpmInput → Bool
  is_new_frame m input =
      input.signal_valid
      && (not m.have_frame_sequence || not (input.valid_frame_sequence == m.last_frame_sequence))

  -- The number of the frame is remembered while the signal is valid.
  abbrev pub take_frame : PpmModel F → PpmInput → PpmModel F
  take_frame m input =
      if input.signal_valid
      then record m { have_frame_sequence = true; last_frame_sequence = input.valid_frame_sequence }
      else m

  -- Both sticks are at rest.
  abbrev pub sticks_neutral : PpmConfig F → PpmInput → Bool
  sticks_neutral c input =
      is_neutral (channel_at input c.throttle_channel) c.throttle_center_us c.neutral_deadband_us
      && is_neutral (channel_at input c.steering_channel) c.steering_center_us c.neutral_deadband_us

module _ {F : Type 0} ⦃fl : Float32 F⦄ ⦃fa : FloatArith F⦄ where
  unfoldable pub config_valid : PpmConfig F → Bool
  config_valid c =
      valid_channel c.throttle_channel
      && valid_channel c.steering_channel
      && valid_channel c.enable_channel
      && valid_channel c.speed_scale_channel
      && not (c.throttle_channel == c.steering_channel)
      && not (c.throttle_channel == c.enable_channel)
      && not (c.steering_channel == c.enable_channel)
      && not (c.speed_scale_channel == c.throttle_channel)
      && not (c.speed_scale_channel == c.steering_channel)
      && not (c.speed_scale_channel == c.enable_channel)
      && ltb 0 c.enable_active_max_us
      && ltb 0 c.neutral_deadband_us
      && ltb c.valid_min_us c.valid_max_us
      && leb c.valid_min_us c.enable_active_max_us
      && leb c.enable_active_max_us c.valid_max_us
      && axis_config_valid c.throttle_min_us c.throttle_center_us c.throttle_max_us
          c.neutral_deadband_us c.valid_min_us c.valid_max_us
      && axis_config_valid c.steering_min_us c.steering_center_us c.steering_max_us
          c.neutral_deadband_us c.valid_min_us c.valid_max_us
      && leb c.valid_min_us c.speed_scale_min_us
      && ltb c.speed_scale_min_us c.speed_scale_max_us
      && leb c.speed_scale_max_us c.valid_max_us
      && fl.lt fl.zero_f c.speed_scale_min
      && fl.le c.speed_scale_min c.speed_scale_max
      && fl.le c.speed_scale_max fa.one_f
      && is_sign c.throttle_sign
      && is_sign c.steering_sign

  -- `normalized` before it is bounded; `span > 0` is the test of the numbers around `center`.
  unfoldable pub axis_ratio : ℕ → ℕ → ℕ → ℕ → ℕ → F
  axis_ratio pulse_us minimum_us center_us maximum_us deadband_us =
      if ltb center_us pulse_us
      then (if ltb (center_us + deadband_us) maximum_us
          then fa.div_f (fa.of_int (pos (pulse_us - center_us - deadband_us)))
              (fa.of_int (pos (maximum_us - center_us - deadband_us)))
          else fl.zero_f)
      else if ltb (minimum_us + deadband_us) center_us
      then fa.div_f (fa.of_int (negate (pos (center_us - pulse_us - deadband_us))))
          (fa.of_int (pos (center_us - deadband_us - minimum_us)))
      else fl.zero_f

  abbrev pub bounded : F → F
  bounded x =
      if fl.lt fa.one_f x
      then fa.one_f
      else if fl.lt x (fl.neg fa.one_f)
      then fl.neg fa.one_f
      else x

  unfoldable pub normalize_axis : ℕ → ℕ → ℕ → ℕ → ℕ → ℤ → F
  normalize_axis pulse_us minimum_us center_us maximum_us deadband_us sign =
      let x = bounded (axis_ratio pulse_us minimum_us center_us maximum_us deadband_us) in
      if leb (distance pulse_us center_us) deadband_us
      then fl.zero_f
      else if is_negative sign
      then fl.neg x
      else x

  -- The configuration has `speed_scale_min_us < speed_scale_max_us`.
  unfoldable pub speed_scale_of : PpmConfig F → ℕ → F
  speed_scale_of c pulse_us =
      let ratio =
        fa.div_f (fa.sub_f (fa.of_int (pos pulse_us)) (fa.of_int (pos c.speed_scale_min_us)))
          (fa.of_int (pos (c.speed_scale_max_us - c.speed_scale_min_us))) in
      let normalized =
        if fl.lt ratio fl.zero_f
        then fl.zero_f
        else if fl.lt fa.one_f ratio
        then fa.one_f
        else ratio in
      fa.add_f c.speed_scale_min
        (fa.mul_f normalized (fa.sub_f c.speed_scale_max c.speed_scale_min))

  abbrev pub reset_output : PpmOutput F
  reset_output = record {
    action = action_none;
    stream_id = 0;
    sequence = 0;
    normalized_vx = fl.zero_f;
    normalized_wz = fl.zero_f;
    speed_scale = fl.zero_f;
    deadman = false;
  }

  unfoldable pub init : PpmConfig F → Option (PpmModel F)
  init c =
      if not (config_valid c)
      then none
      else some (record {
        config = c;
        phase = inactive;
        priority_active = false;
        have_frame_sequence = false;
        last_frame_sequence = 0;
        arm_pending_frames = 0;
        stream_nonce = stream_prefix;
        stream_id = 0;
        sequence = 0;
        initialized = true;
      })

  abbrev pub stop_output : PpmOutput F
  stop_output = record reset_output { action = action_stop }

  -- Without priority: a STOP if it was there.
  unfoldable pub step_released : PpmModel F → PpmModel F × PpmOutput F
  step_released m = (
    record m {
      priority_active = false;
      phase = inactive;
      arm_pending_frames = 0;
      stream_id = 0;
      sequence = 0;
    },
    if m.priority_active then stop_output else reset_output,
  )

  -- The takeover.
  unfoldable pub step_takeover : PpmModel F → PpmModel F × PpmOutput F
  step_takeover m = (
    record m { priority_active = true; phase = wait_neutral; arm_pending_frames = 0 },
    stop_output,
  )

  unfoldable pub step_arm_pending : PpmModel F → Bool → Bool → PpmModel F × PpmOutput F
  step_arm_pending m application_rc_active new_frame =
      let frames = u8 (m.arm_pending_frames + 1) in
      (
        if application_rc_active
            then record m { phase = armed; arm_pending_frames = 0 }
            else if not new_frame
            then m
            else if leb arm_pending_max_new_frames frames
            then record m { phase = wait_neutral; arm_pending_frames = 0 }
            else record m { arm_pending_frames = frames },
        reset_output,
      )

  unfoldable pub step_neutral : PpmModel F → PpmInput → PpmModel F × PpmOutput F
  step_neutral m input =
      let nonce = next_nonce m.stream_nonce in
      if not (sticks_neutral m.config input) then (m, reset_output) else (
        record m {
          stream_nonce = nonce;
          stream_id = nonce;
          sequence = 1;
          phase = arm_pending;
          arm_pending_frames = 0;
        },
        record reset_output { action = action_arm; stream_id = nonce; sequence = 1 },
      )

  unfoldable pub step_command : PpmModel F → PpmInput → PpmModel F × PpmOutput F
  step_command m input =
      let c = m.config in
      let sequence = u64 (m.sequence + 1) in
      (
        record m { sequence = sequence },
        record {
          action = action_command;
          stream_id = m.stream_id;
          sequence = sequence;
          normalized_vx =
              normalize_axis (channel_at input c.throttle_channel) c.throttle_min_us
                c.throttle_center_us c.throttle_max_us c.neutral_deadband_us c.throttle_sign;
          normalized_wz =
              normalize_axis (channel_at input c.steering_channel) c.steering_min_us
                c.steering_center_us c.steering_max_us c.neutral_deadband_us c.steering_sign;
          speed_scale = speed_scale_of c (channel_at input c.speed_scale_channel);
          deadman = true;
        },
      )

  -- With priority since an earlier call, by phase.
  unfoldable pub step_phase : Phase → PpmModel F → PpmInput → Bool → Bool → PpmModel F × PpmOutput F
  step_phase arm_pending m input application_rc_active new_frame =
      step_arm_pending m application_rc_active new_frame
  step_phase armed m input application_rc_active new_frame =
      if not application_rc_active
      then (record m { phase = wait_neutral; arm_pending_frames = 0 }, reset_output)
      else if not new_frame || not (input_has_channels m input)
      then (m, reset_output)
      else step_command m input
  step_phase wait_neutral m input application_rc_active new_frame =
      if not new_frame || not (input_has_channels m input)
      then (m, reset_output)
      else step_neutral m input
  step_phase inactive m input application_rc_active new_frame = (m, reset_output)

  -- The step of an initialized model.
  unfoldable pub step : PpmModel F → PpmInput → Bool → PpmModel F × PpmOutput F
  step m input application_rc_active =
      let t = take_frame m input in
      if not (input_is_priority m input)
      then step_released t
      else if not m.priority_active
      then step_takeover t
      else step_phase m.phase t input application_rc_active (is_new_frame m input)
