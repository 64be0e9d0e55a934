-- ===== src/MotionApplication/Tests.antt =====
-- A base with two motors that is armed and driven, and the theorems at concrete inputs.
use sistema_motriz_rs.Base.{
  ℕ, ◌≡◌, ◌≢◌, ◌≤◌, ◌<◌, inl, refl, true, false, List, [], ◌∷◌, some, arith, contains,
}
use sistema_motriz_rs.Base.Int.{pos, negsuc}
use sistema_motriz_rs.Base.Float.{Milli, milli, milli_float}
use sistema_motriz_rs.Base.Double.{milli_double, milli_widening}
use sistema_motriz_rs.Kinematics.Model.{
  left, right, has_actuator, motor_error, validate_from, validate_motor_configs, unscaled_motor_rpm,
  common_scale, motor_command, solve, argument_error, differential_inverse,
}
use sistema_motriz_rs.CommandAuthority.State.{
  lan, Velocity, scalar_abs, velocity_is_finite, velocity_is_within_limits, velocity_is_moving,
  config_is_valid, mailbox_is_fresh, mailbox_is_expired, highest_fresh_source,
}
use sistema_motriz_rs.CommandAuthority.Stop.{blank_model, init, stop, stop_model}
use sistema_motriz_rs.CommandAuthority.Publish.{
  argument_refusal, order_refusal, accept, publish, publish_command,
  reject_order_with_fail_safe_stop,
}
use sistema_motriz_rs.CommandAuthority.Arbitrate.{
  switch_source, keep_source, arbitrate, arbitrate_model,
}
use sistema_motriz_rs.MotionApplication.State.{
  Event, EventAction, event_arm, event_command, event_stop, Config, EndpointConfig, Target, Motion,
  Plan, plan_apply, plan_stop, disarmed, ok, stream_retired,
}
use sistema_motriz_rs.MotionApplication.Plans.{
  reset_plan, stop_plan, stream_is_retired, retired_with, retire_active_stream, authority_config,
  reset_authority, release, fault_stop, expire, round_targets, inverse_of, plan_inverse, dispatch,
  convert_authority_decision,
}
use sistema_motriz_rs.MotionApplication.Operations.{
  endpoints_named, config_valid, configured, init_model, arm, handle_arm, command, handle_command,
  handle_stop, handle_event, submit, tick, overwrite, record_actuation,
}
use sistema_motriz_rs.MotionApplication.Trace.{Call, call_submit, call_tick, plan_of, step, run}
use sistema_motriz_rs.MotionApplication.Safety.{MayMove, step-MayMove}
use sistema_motriz_rs.MotionApplication.Idle.{IsOff, idle-not_apply}
use sistema_motriz_rs.MotionApplication.Invariant.{IsValid}
use sistema_motriz_rs.MotionApplication.Runs.{
  init-run-IsValid, accepted_command-increases, submit_stop-halts, Faults, closed_gate-Faults,
}

computes : Unit {0}
unfolding has_actuator motor_error validate_from validate_motor_configs unscaled_motor_rpm
    common_scale motor_command solve argument_error differential_inverse scalar_abs
    velocity_is_finite velocity_is_within_limits velocity_is_moving config_is_valid mailbox_is_fresh
    mailbox_is_expired highest_fresh_source init stop stop_model argument_refusal order_refusal
    accept publish publish_command reject_order_with_fail_safe_stop switch_source keep_source
    arbitrate arbitrate_model reset_plan stop_plan stream_is_retired retired_with
    retire_active_stream reset_authority release fault_stop expire round_targets inverse_of
    plan_inverse dispatch convert_authority_decision endpoints_named config_valid init_model arm
    handle_arm command handle_command handle_stop handle_event submit tick overwrite
    record_actuation contains
computes = tt

abbrev velocity : ℕ → ℕ → Velocity Milli
velocity x z = record { vx = milli (pos x); vy = milli (pos 0); wz = milli (pos z) }

abbrev left_endpoint : EndpointConfig Milli
left_endpoint = record {
  endpoint_id = 1;
  name = some (76 ∷ []);
  side = left;
  wheel_radius_m = milli (pos 100);
  motor_to_wheel_ratio = milli (pos 1000);
  direction_sign = pos 1;
  max_abs_rpm = milli (pos 50000);
}

abbrev right_endpoint : EndpointConfig Milli
right_endpoint = record left_endpoint { endpoint_id = 2; side = right; direction_sign = negsuc 0 }

abbrev config : Config Milli Milli
config = record {
  command_ttl_ms = 200;
  velocity_limit = record { vx = milli (pos 1000); vy = milli (pos 1000); wz = milli (pos 1000) };
  moving_epsilon = record { vx = milli (pos 10); vy = milli (pos 10); wz = milli (pos 10) };
  differential = record { track_width_m = milli (pos 500); vy_epsilon_mps = milli (pos 1) };
  endpoints = left_endpoint ∷ right_endpoint ∷ [];
}

abbrev resting : List Target
resting = record { endpoint_id = 1; rpm = pos 0 } ∷ record { endpoint_id = 2; rpm = pos 0 } ∷ []

abbrev started : Motion Milli Milli
started = record (configured config) {
  authority = record blank_model { config = authority_config config; initialized = true };
  state = disarmed;
  targets = resting;
  last_detail = "READY";
  initialized = true;
}

init_model_starts : init_model config ≡ some started
unfolding computes
init_model_starts = refl

abbrev event : EventAction → ℕ → ℕ → Event Milli
event action sequence received = record {
  action = action;
  source = lan;
  stream_id = 7;
  sequence = sequence;
  received_at_ms = received;
  vx_mps = milli (pos 1000);
  vy_mps = milli (pos 0);
  wz_radps = milli (pos 0);
  deadman = true;
}

abbrev no_calls : List (Call Milli)
no_calls = []

abbrev arming : List (Call Milli)
arming = call_submit (event event_arm 1 10) true 10 ∷ []

abbrev armed_motion : Motion Milli Milli
armed_motion = run started arming

abbrev drive : Call Milli
drive = call_submit (event event_command 2 30) true 30

abbrev plan : Plan
plan = plan_of armed_motion drive

-- One metre per second is too fast for 50 rpm.
drives :
    plan.targets
    ≡ (record { endpoint_id = 1; rpm = pos 50 } ∷ record { endpoint_id = 2; rpm = negsuc 49 } ∷ [])
unfolding computes
drives = refl

-- The stream of a stop is not armed again.
rearmed :
    (submit
      (step armed_motion (call_submit (event event_stop 0 40) true 40))
      (event event_arm 9 50)
      true
      50
      plan).outcome
    ≡ stream_retired
unfolding computes
rearmed = refl

started-IsOff : IsOff started
started-IsOff = record { no_stream = refl; no_source = refl; released = refl }

armed-IsValid : IsValid armed_motion
unfolding computes
armed-IsValid = init-run-IsValid config started arming refl

step-MayMove_example : MayMove armed_motion drive
unfolding computes
step-MayMove_example = step-MayMove armed_motion drive refl

idle-not_apply_example : (plan_of (run started (call_tick true 20 ∷ [])) drive).action ≢ plan_apply
idle-not_apply_example =
    idle-not_apply started (call_tick true 20 ∷ []) drive started-IsOff refl refl

init-run-IsValid_example : IsValid (run started (call_tick true 5 ∷ arming))
unfolding computes
init-run-IsValid_example = init-run-IsValid config started (call_tick true 5 ∷ arming) refl

accepted_command-increases_example :
    (true ≡ true)
    × (7 ≡ armed_motion.active_stream_id)
    × (lan ≡ armed_motion.active_source)
    × (30 ≤ 30)
    × (armed_motion.sequence < 2)
unfolding computes
accepted_command-increases_example =
    accepted_command-increases armed_motion (event event_command 2 30) true 30 reset_plan
      armed-IsValid refl refl

submit_stop-halts_example :
    let r = submit armed_motion (event event_stop 0 40) false 40 reset_plan in
    (r.outcome ≡ ok) × (r.plan.action ≡ plan_stop) × (r.model.state ≡ disarmed) × IsOff r.model
submit_stop-halts_example =
    submit_stop-halts armed_motion (event event_stop 0 40) false 40 reset_plan armed-IsValid
      (inl refl) (ground arith)

closed_gate-Faults_example :
    Faults (tick armed_motion false 30 reset_plan)
    × Faults (submit armed_motion (event event_command 2 30) false 30 reset_plan)
unfolding computes
closed_gate-Faults_example =
    closed_gate-Faults armed_motion (event event_command 2 30) 30 reset_plan armed-IsValid refl refl
      (ground arith) refl refl refl
