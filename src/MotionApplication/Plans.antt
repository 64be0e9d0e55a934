-- ===== src/MotionApplication/Plans.antt =====
-- components/motion_application/motion_application_model.c: the plans, the list of retired streams,
-- and how a cycle of the command authority becomes a plan. A call whose result is the state, the plan and
-- the returned code is a function into `Handled`; the authority is never NULL.
use Prim.Native.String.{String}
use sistema_motriz_rs.Base.{
  ℕ, Bool, true, false, not, ◌&&◌, ◌||◌, List, [], ◌∷◌, ◌++◌, map, Option, none, some, leb, ◌==◌,
  if◌then◌else◌, length, contains, drop,
}
use sistema_motriz_rs.Base.Int.{ℤ, pos, negsuc}
use sistema_motriz_rs.Base.Float.{Float32}
use sistema_motriz_rs.Base.Double.{Double, Widening}
use sistema_motriz_rs.Kinematics.Model.{
  MotorConfig, MotorCommand, Inverse, completed, failed, differential_inverse, error_name,
}
use sistema_motriz_rs.CommandAuthority.State as Authority
use sistema_motriz_rs.CommandAuthority.State.{
  Source, none_source, lan, rc, bluetooth, Decision, invalid, stop_output, apply, Reason,
  no_fresh_source, selected_source_expired, selected_source_invalidated, waiting_fresh_after_switch,
  Velocity, Cycle, zero_velocity,
}
use sistema_motriz_rs.CommandAuthority.Stop.{init, stop}
use sistema_motriz_rs.CommandAuthority.Names.{reason_name}
use sistema_motriz_rs.MotionApplication.State.{
  armed, expired, fault, plan_none, plan_apply, plan_stop, Outcome, ok, authority_rejected,
  kinematics_failed, retired_streams_capacity, max_endpoints, EndpointConfig, Config, Target, Plan,
  Motion,
}

-- What a call leaves behind a model pointer, and the value it returns.
abbrev pub held : {A : Type 0} → Option A → A → A
held (some a) b = a
held none b = b

pub record Handled (F D : Type 0) : Type 0 where
  pub model : Motion F D
  pub plan : Plan
  pub outcome : Outcome

unfoldable pub reset_plan : Plan
reset_plan = record { action = plan_none; command_revision = 0; targets = []; detail = "NO_CHANGE" }

unfoldable pub stop_plan : String → Plan
stop_plan detail = record reset_plan { action = plan_stop; detail = detail }

abbrev pub event_source_supported : Source → Bool
event_source_supported none_source = false
event_source_supported bluetooth = false
event_source_supported lan = true
event_source_supported rc = true

abbrev pub is_fault_stop : Decision → Bool
is_fault_stop Authority.fault_stop = true
is_fault_stop _ = false

abbrev pub is_apply : Decision → Bool
is_apply apply = true
is_apply _ = false

abbrev pub is_invalid : Decision → Bool
is_invalid invalid = true
is_invalid _ = false

-- The three reasons for which the active stream is given up.
abbrev pub loses_source : Reason → Bool
loses_source selected_source_expired = true
loses_source selected_source_invalidated = true
loses_source no_fresh_source = true
loses_source _ = false

abbrev pub waits_for_fresh : Reason → Bool
waits_for_fresh waiting_fresh_after_switch = true
waits_for_fresh _ = false

-- INT16_MIN ≤ n ≤ INT16_MAX
abbrev pub fits_int16 : ℤ → Bool
fits_int16 (pos n) = leb n 32767
fits_int16 (negsuc n) = leb n 32767

-- The active stream at the end of the list, the oldest one dropped where the list is full.
unfoldable pub retired_with : List ℕ → ℕ → List ℕ
retired_with retired stream_id =
    if length retired == retired_streams_capacity
    then drop 1 retired ++ (stream_id ∷ [])
    else retired ++ (stream_id ∷ [])

abbrev pub authority_ok : Authority.Outcome → Bool
authority_ok Authority.ok = true
authority_ok _ = false

abbrev pub applied_plan : ℕ → List Target → String → Plan
applied_plan revision targets detail = record {
  action = plan_apply;
  command_revision = revision;
  targets = targets;
  detail = detail;
}

module _ {D : Type 0} where
  abbrev pub motor_configs : List (EndpointConfig D) → List (MotorConfig D)
  motor_configs endpoints =
      map
        (λ e. record {
          actuator_id = e.endpoint_id;
          side = e.side;
          wheel_radius_m = e.wheel_radius_m;
          motor_to_wheel_ratio = e.motor_to_wheel_ratio;
          direction_sign = e.direction_sign;
          max_abs_rpm = e.max_abs_rpm;
        })
        endpoints

module _ {D : Type 0} ⦃fd : Double D⦄ where
  -- The loop over the commands; `none` is the overflow of int16_t.
  unfoldable pub round_targets : List (MotorCommand D) → Option (List Target)
  round_targets [] = some []
  round_targets (c ∷ cs) =
      let rounded = fd.lround c.motor_rpm in
      let rest = round_targets cs in
      if not (fits_int16 rounded) then none else elim rest [
        | none ↦ none
        | some ts ↦ some (record { endpoint_id = c.actuator_id; rpm = rounded } ∷ ts)
      ]

module _ {F D : Type 0} where
  unfoldable pub stream_is_retired : Motion F D → ℕ → Bool
  stream_is_retired m stream_id = contains m.retired_streams stream_id

module _ {F D : Type 0} ⦃fl : Float32 F⦄ where
  unfoldable pub retire_active_stream : Motion F D → Motion F D × Bool
  retire_active_stream m = if m.active_stream_id == 0 then (m, true) else (
    record m {
      retired_streams =
          if stream_is_retired m m.active_stream_id
          then m.retired_streams
          else retired_with m.retired_streams m.active_stream_id;
      active_stream_id = 0;
      active_source = none_source;
      sequence = 0;
      deadman = false;
      requested = zero_velocity;
    },
    true,
  )

  abbrev pub authority_config : Config F D → Authority.Config F
  authority_config c = record {
    velocity_limit = c.velocity_limit;
    moving_epsilon = c.moving_epsilon;
    max_ttl_ms = c.command_ttl_ms;
  }

  unfoldable pub reset_authority : Motion F D → Motion F D × Bool
  reset_authority m =
      let (a, r) = init (some m.authority) (some (authority_config m.config)) in
      (record m { authority = held a m.authority }, authority_ok r)

  abbrev pub stop_authority : Motion F D → ℕ → Motion F D
  stop_authority m now = record m { authority = held (stop (some m.authority) now).0 m.authority }

  -- The stop, the retirement and the reset, in this order, with the results of the last two.
  unfoldable pub release : Motion F D → ℕ → Motion F D × Bool × Bool
  release m now =
      let (m₁, retired) = retire_active_stream (stop_authority m now) in
      let (m₂, authority_reset) = reset_authority m₁ in (m₂, retired, authority_reset)

  unfoldable pub fault_stop : Motion F D → ℕ → String → Outcome → Handled F D
  fault_stop m now detail outcome =
      let r = release m now in
      record {
        model = record (r.0) { state = fault; last_detail = detail };
        plan = stop_plan detail;
        outcome =
            if not r.2
            then authority_rejected
            else if not r.1
            then Outcome.stream_history_full
            else outcome;
      }

  -- The cycle that gives up the active stream.
  unfoldable pub expire : Motion F D → ℕ → Handled F D
  expire m now =
      let r = release m now in
      let detail = if r.1 then "SOURCE_EXPIRED" else "STREAM_HISTORY_FULL" in
      record {
        model = record (r.0) {
          state = if r.1 && r.2 then expired else fault;
          last_detail = detail;
        };
        plan = stop_plan detail;
        outcome = if r.1 && r.2 then ok else authority_rejected;
      }

module _ {F D : Type 0} ⦃fl : Float32 F⦄ ⦃fd : Double D⦄ ⦃fw : Widening F D⦄ where
  unfoldable pub inverse_of : Config F D → Velocity F → Inverse D
  inverse_of config v =
      differential_inverse config.differential (motor_configs config.endpoints)
        (record { vx_mps = fw.widen v.vx; vy_mps = fw.widen v.vy; wz_radps = fw.widen v.wz })
        max_endpoints

  -- The part behind the kinematics.
  unfoldable pub plan_inverse : Motion F D → ℕ → ℕ → Inverse D → Handled F D
  plan_inverse m revision now (failed e) = fault_stop m now (error_name e) kinematics_failed
  plan_inverse m revision now (completed cs report) = elim (round_targets cs) [
    | none ↦ fault_stop m now "RPM_NUMERIC_OVERFLOW" kinematics_failed
    | some ts ↦
        let detail = if report.saturated then "APPLY_SATURATED" else "APPLY" in
        record {
          model = record m { last_detail = detail };
          plan = applied_plan revision ts detail;
          outcome = ok;
        }
  ]

  abbrev pub dispatched : Motion F D → Cycle F → Motion F D
  dispatched m cycle = record m {
    last_dispatched_revision = cycle.command_revision;
    requested = cycle.output;
  }

  -- A decision to apply that is not dispatched yet.
  unfoldable pub dispatch : Motion F D → Cycle F → ℕ → Handled F D
  dispatch m cycle now =
      let t = dispatched m cycle in
      if not m.deadman
      then record {
        model = record t { state = armed; last_detail = "DEADMAN_RELEASED" };
        plan = record (stop_plan "DEADMAN_RELEASED") { command_revision = cycle.command_revision };
        outcome = ok;
      }
      else plan_inverse t cycle.command_revision now (inverse_of m.config cycle.output)

  unfoldable pub convert_authority_decision : Motion F D → Cycle F → ℕ → Plan → Handled F D
  convert_authority_decision m cycle now plan =
      if is_fault_stop cycle.decision || loses_source cycle.reason
      then expire m now
      else if not (is_apply cycle.decision)
      then record {
        model = record m {
          last_detail =
              if waits_for_fresh cycle.reason
              then "SOURCE_SWITCH_BARRIER"
              else reason_name cycle.reason;
        };
        plan = plan;
        outcome = ok;
      }
      else if cycle.command_revision == m.last_dispatched_revision
      then record { model = m; plan = plan; outcome = ok }
      else dispatch m cycle now
