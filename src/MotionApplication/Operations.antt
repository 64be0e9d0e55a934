-- ===== src/MotionApplication/Operations.antt =====
-- components/motion_application/motion_application_model.c: the operations. A pointer that the code
-- tests against NULL is an `Option` of the calls at the end.
use Prim.Native.String.{String}
use sistema_motriz_rs.Base.{
  ℕ, Bool, true, false, not, ◌&&◌, ◌||◌, List, [], ◌∷◌, map, Option, none, some, ltb, ◌==◌,
  if◌then◌else◌, length,
}
use sistema_motriz_rs.Base.Int.{pos}
use sistema_motriz_rs.Base.Float.{Float32}
use sistema_motriz_rs.Base.Double.{Double, Widening}
use sistema_motriz_rs.Kinematics.Model.{Inverse, completed, failed, differential_inverse}
use sistema_motriz_rs.CommandAuthority.State as Authority
use sistema_motriz_rs.CommandAuthority.State.{
  Source, none_source, source_eq, Velocity, Command, Cycle, zero_velocity,
}
use sistema_motriz_rs.CommandAuthority.Stop.{blank_model}
use sistema_motriz_rs.CommandAuthority.Publish.{publish}
use sistema_motriz_rs.CommandAuthority.Arbitrate.{arbitrate}
use sistema_motriz_rs.CommandAuthority.Names.{outcome_name}
use sistema_motriz_rs.MotionApplication.State.{
  unavailable, disarmed, armed, active, fault, in_control, EventAction, event_arm, event_command,
  event_disarm, event_stop, plan_none, plan_apply, plan_stop, Outcome, ok, invalid_argument,
  not_armed, already_armed, stream_mismatch, stream_retired, sequence_invalid, unsafe,
  authority_rejected, source_invalid, source_mismatch, max_endpoints, Event, EndpointConfig, Config,
  Target, Plan, Motion, Snapshot,
}
use sistema_motriz_rs.MotionApplication.Plans.{
  held, Handled, reset_plan, stop_plan, event_source_supported, is_invalid, authority_ok,
  stream_is_retired, motor_configs, reset_authority, release, fault_stop,
  convert_authority_decision,
}

abbrev has_name : Option (List ℕ) → Bool
has_name none = false
has_name (some []) = false
has_name (some (c ∷ cs)) = true

abbrev is_completed : {D : Type 0} → Inverse D → Bool
is_completed (completed cs report) = true
is_completed (failed e) = false

-- `targets[index] = plan->targets[index]`, for the targets that the plan has.
unfoldable pub overwrite : List Target → List Target → List Target
overwrite ts [] = ts
overwrite [] (p ∷ ps) = p ∷ ps
overwrite (t ∷ ts) (p ∷ ps) = p ∷ overwrite ts ps

abbrev idle : ℕ → Target
idle endpoint_id = record { endpoint_id = endpoint_id; rpm = pos 0 }

module _ {D : Type 0} where
  unfoldable pub endpoints_named : List (EndpointConfig D) → Bool
  endpoints_named [] = true
  endpoints_named (e ∷ es) = not (e.endpoint_id == 0) && has_name e.name && endpoints_named es

module _ {F D : Type 0} ⦃fl : Float32 F⦄ ⦃fd : Double D⦄ ⦃fw : Widening F D⦄ where
  unfoldable pub config_valid : Config F D → Bool
  config_valid c =
      if c.command_ttl_ms == 0
        || ltb (length c.endpoints) 2
        || ltb max_endpoints (length c.endpoints)
        || not (fl.is_finite c.velocity_limit.vx)
        || not (fl.is_finite c.velocity_limit.vy)
        || not (fl.is_finite c.velocity_limit.wz)
        || fl.le c.velocity_limit.vx fl.zero_f
        || fl.le c.velocity_limit.vy fl.zero_f
        || fl.le c.velocity_limit.wz fl.zero_f
      then false
      else if not (endpoints_named c.endpoints)
      then false
      else is_completed (
          differential_inverse c.differential (motor_configs c.endpoints)
            (record { vx_mps = fd.zero_d; vy_mps = fd.zero_d; wz_radps = fd.zero_d }) max_endpoints)

  -- A model that has its configuration and nothing else yet.
  abbrev pub configured : Config F D → Motion F D
  configured c = record {
    config = c;
    authority = blank_model;
    state = unavailable;
    active_source = none_source;
    active_stream_id = 0;
    sequence = 0;
    last_received_ms = 0;
    last_dispatched_revision = 0;
    retired_streams = [];
    deadman = false;
    requested = zero_velocity;
    targets = [];
    last_detail = "";
    initialized = false;
  }

  -- `none` is INVALID_CONFIG, which leaves a model that is not initialized.
  unfoldable pub init_model : Config F D → Option (Motion F D)
  init_model c =
      let (m, authority_reset) = reset_authority (configured c) in
      if not (config_valid c)
      then none
      else if not authority_reset
      then none
      else some (record m {
        state = disarmed;
        requested = zero_velocity;
        targets = map (λ e. idle e.endpoint_id) c.endpoints;
        last_detail = "READY";
        initialized = true;
      })

  abbrev refuse : Motion F D → Plan → Outcome → Handled F D
  refuse m plan r = record { model = m; plan = plan; outcome = r }

  abbrev pub arm_command : Motion F D → Event F → Command F
  arm_command m e = record {
    stream_id = e.stream_id;
    sequence = e.sequence;
    received_at_ms = e.received_at_ms;
    ttl_ms = m.config.command_ttl_ms;
    valid = true;
    deadman = false;
    body = zero_velocity;
  }

  abbrev pub publish_for : Motion F D → Source → Command F → ℕ → Motion F D × Authority.Outcome
  publish_for m source c now =
      let p = publish (some m.authority) source (some c) now in
      (record m { authority = held p.0 m.authority }, p.1)

  abbrev pub run_cycle : Motion F D → ℕ → Motion F D × Cycle F
  run_cycle m now =
      let c = arbitrate (some m.authority) now in
      (record m { authority = held c.0 m.authority }, c.1)

  -- The part behind the tests of the event.
  unfoldable pub arm : Motion F D → Event F → ℕ → Plan → Handled F D
  arm m e now plan =
      let (t, authority_reset) = reset_authority m in
      let p = publish_for t e.source (arm_command m e) now in
      if not authority_reset
      then refuse t plan authority_rejected
      else if not (authority_ok p.1)
      then refuse p.0 plan authority_rejected
      else record {
        model = record ((run_cycle p.0 now).0) {
          active_stream_id = e.stream_id;
          active_source = e.source;
          sequence = e.sequence;
          last_received_ms = e.received_at_ms;
          deadman = false;
          requested = zero_velocity;
          state = armed;
          last_dispatched_revision = 0;
          last_detail = "ARMED";
        };
        plan = stop_plan "ARM_BARRIER_STOP";
        outcome = ok;
      }

  unfoldable pub handle_arm : Motion F D → Event F → Bool → ℕ → Plan → Handled F D
  handle_arm m e safety_gate_open now plan =
      if not (event_source_supported e.source)
      then refuse m plan source_invalid
      else if not safety_gate_open
      then refuse (record m { last_detail = "SAFETY_GATE_CLOSED" }) plan unsafe
      else if e.stream_id == 0 || e.sequence == 0
      then refuse m plan sequence_invalid
      else if stream_is_retired m e.stream_id
      then refuse m plan stream_retired
      else if not (m.active_stream_id == 0)
      then refuse m plan
          (if m.active_stream_id == e.stream_id then already_armed else stream_mismatch)
      else arm m e now plan

  abbrev pub event_command_of : Motion F D → Event F → Command F
  event_command_of m e = record {
    stream_id = e.stream_id;
    sequence = e.sequence;
    received_at_ms = e.received_at_ms;
    ttl_ms = m.config.command_ttl_ms;
    valid = true;
    deadman = e.deadman;
    body = record { vx = e.vx_mps; vy = e.vy_mps; wz = e.wz_radps };
  }

  -- The model behind an accepted command, before the cycle.
  abbrev pub accepted : Motion F D → Event F → Motion F D
  accepted m e = record m {
    sequence = e.sequence;
    last_received_ms = e.received_at_ms;
    deadman = e.deadman;
  }

  -- The part behind the tests of the event.
  unfoldable pub command : Motion F D → Event F → ℕ → Plan → Handled F D
  command m e now plan =
      let p = publish_for m e.source (event_command_of m e) now in
      let detail = outcome_name p.1 in
      if not (authority_ok p.1)
      then record {
        model = record (p.0) { last_detail = detail };
        plan = if not e.deadman then stop_plan detail else plan;
        outcome = authority_rejected;
      }
      else let c = run_cycle p.0 now in convert_authority_decision (accepted c.0 e) c.1 now plan

  unfoldable pub handle_command : Motion F D → Event F → Bool → ℕ → Plan → Handled F D
  handle_command m e safety_gate_open now plan =
      if not (in_control m.state)
      then refuse m plan not_armed
      else if not (e.stream_id == m.active_stream_id)
      then refuse m plan stream_mismatch
      else if not (event_source_supported e.source)
      then refuse m plan source_invalid
      else if not (source_eq e.source m.active_source)
      then refuse m plan source_mismatch
      else if not safety_gate_open
      then fault_stop m now "SAFETY_GATE_CLOSED" unsafe
      else command m e now plan

  -- DISARM and STOP.
  unfoldable pub handle_stop : Motion F D → ℕ → String → Handled F D
  handle_stop m now detail =
      let r = release m now in
      record {
        model = record (r.0) {
          state = if r.1 && r.2 then disarmed else fault;
          last_detail = detail;
        };
        plan = stop_plan detail;
        outcome = if r.1 && r.2 then ok else authority_rejected;
      }

  -- The switch on the action, with the plan reset.
  unfoldable pub handle_event : Motion F D → Event F → EventAction → Bool → ℕ → Handled F D
  handle_event m e event_arm gate now = handle_arm m e gate now reset_plan
  handle_event m e event_command gate now = handle_command m e gate now reset_plan
  handle_event m e event_disarm gate now = handle_stop m now "DISARMED"
  handle_event m e event_stop gate now = handle_stop m now "EXPLICIT_STOP"

  unfoldable pub submit : Motion F D → Event F → Bool → ℕ → Plan → Handled F D
  submit m e safety_gate_open now plan =
      if not m.initialized || ltb now e.received_at_ms
      then refuse m plan invalid_argument
      else handle_event m e e.action safety_gate_open now

  unfoldable pub tick : Motion F D → Bool → ℕ → Plan → Handled F D
  tick m safety_gate_open now plan =
      let c = run_cycle m now in
      if not m.initialized
      then refuse m plan invalid_argument
      else if not (in_control m.state)
      then refuse m reset_plan ok
      else if not safety_gate_open
      then fault_stop m now "SAFETY_GATE_CLOSED" unsafe
      else if is_invalid c.1.decision
      then fault_stop c.0 now "AUTHORITY_INVALID" authority_rejected
      else convert_authority_decision c.0 c.1 now reset_plan

  unfoldable pub record_actuation : Motion F D → Plan → Bool → Motion F D
  record_actuation m plan success = if not m.initialized then m else elim plan.action [
    | plan_none ↦ m
    | plan_stop ↦
        if not success
        then record m { state = fault; last_detail = "ACTUATION_FAILED" }
        else record m {
          targets = map (λ t. idle t.endpoint_id) m.targets;
          last_detail = plan.detail;
        }
    | plan_apply ↦
        if not success
        then record m { state = fault; last_detail = "ACTUATION_FAILED" }
        else record m {
          targets = overwrite m.targets plan.targets;
          state = active;
          last_detail = plan.detail;
        }
  ]

  unfoldable pub snapshot : Motion F D → Option (Snapshot F)
  snapshot m =
      if not m.initialized
      then none
      else some (record {
        state = m.state;
        source = m.active_source;
        command_ttl_ms = m.config.command_ttl_ms;
        deadman = m.deadman;
        stream_id = m.active_stream_id;
        sequence = m.sequence;
        last_received_ms = m.last_received_ms;
        requested = m.requested;
        endpoint_count = length m.config.endpoints;
        targets = m.targets;
        last_detail = m.last_detail;
      })

  -- The calls with pointers: `none` is INVALID_ARGUMENT with nothing written.
  unfoldable pub submit_call :
      Option (Motion F D) → Option (Event F) → Bool → ℕ → Option Plan → Option (Handled F D)
  submit_call (some m) (some e) gate now (some plan) = some (submit m e gate now plan)
  submit_call _ _ _ _ _ = none

  unfoldable pub tick_call : Option (Motion F D) → Bool → ℕ → Option Plan → Option (Handled F D)
  tick_call (some m) gate now (some plan) = some (tick m gate now plan)
  tick_call _ _ _ _ = none
