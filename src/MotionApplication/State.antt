-- ===== src/MotionApplication/State.antt =====
-- The data of components/motion_application: include/motion_application_model.h, the states of
-- components/robot_capabilities/include/motion_status_port.h, and the names of the results.
use Prim.Native.String.{String}
use sistema_motriz_rs.Base.{ℕ, Bool, true, false, List, Option}
use sistema_motriz_rs.Base.Int.{ℤ}
use sistema_motriz_rs.Kinematics.Model.{Side, DifferentialConfig}
use sistema_motriz_rs.CommandAuthority.State as Authority
use sistema_motriz_rs.CommandAuthority.State.{Source, Velocity}

pub data ControlState : Type 0 where
  unavailable disarmed armed active expired fault : ControlState

pub data EventAction : Type 0 where
  event_arm event_command event_disarm event_stop : EventAction

pub data PlanAction : Type 0 where
  plan_none plan_apply plan_stop : PlanAction

pub data Outcome : Type 0 where
  ok invalid_argument invalid_config not_armed already_armed stream_mismatch : Outcome
  stream_retired stream_history_full sequence_invalid unsafe authority_rejected : Outcome
  kinematics_failed source_invalid source_mismatch : Outcome

abbrev pub max_endpoints : ℕ
max_endpoints = 8

abbrev pub retired_streams_capacity : ℕ
retired_streams_capacity = 16

pub record Event (F : Type 0) : Type 0 where
  pub action : EventAction
  pub source : Source
  pub stream_id : ℕ
  pub sequence : ℕ
  pub received_at_ms : ℕ
  pub vx_mps : F
  pub vy_mps : F
  pub wz_radps : F
  pub deadman : Bool

-- A name is the codes of its characters.
pub record EndpointConfig (D : Type 0) : Type 0 where
  pub endpoint_id : ℕ
  pub name : Option (List ℕ)
  pub side : Side
  pub wheel_radius_m : D
  pub motor_to_wheel_ratio : D
  pub direction_sign : ℤ
  pub max_abs_rpm : D

-- `endpoints` holds the first `endpoint_count` entries.
pub record Config (F D : Type 0) : Type 0 where
  pub command_ttl_ms : ℕ
  pub velocity_limit : Velocity F
  pub moving_epsilon : Velocity F
  pub differential : DifferentialConfig D
  pub endpoints : List (EndpointConfig D)

pub record Target : Type 0 where
  pub endpoint_id : ℕ
  pub rpm : ℤ

-- `targets` holds the first `target_count` entries.
pub record Plan : Type 0 where
  pub action : PlanAction
  pub command_revision : ℕ
  pub targets : List Target
  pub detail : String

-- `retired_streams` holds the first `retired_stream_count` entries, `targets` the first
-- `endpoint_count`.
pub record Motion (F D : Type 0) : Type 0 where
  pub config : Config F D
  pub authority : Authority.Model F
  pub state : ControlState
  pub active_source : Source
  pub active_stream_id : ℕ
  pub sequence : ℕ
  pub last_received_ms : ℕ
  pub last_dispatched_revision : ℕ
  pub retired_streams : List ℕ
  pub deadman : Bool
  pub requested : Velocity F
  pub targets : List Target
  pub last_detail : String
  pub initialized : Bool

pub record Snapshot (F : Type 0) : Type 0 where
  pub state : ControlState
  pub source : Source
  pub command_ttl_ms : ℕ
  pub deadman : Bool
  pub stream_id : ℕ
  pub sequence : ℕ
  pub last_received_ms : ℕ
  pub requested : Velocity F
  pub endpoint_count : ℕ
  pub targets : List Target
  pub last_detail : String

abbrev pub outcome_name : Outcome → String
outcome_name ok = "OK"
outcome_name invalid_argument = "INVALID_ARGUMENT"
outcome_name invalid_config = "INVALID_CONFIG"
outcome_name not_armed = "NOT_ARMED"
outcome_name already_armed = "ALREADY_ARMED"
outcome_name stream_mismatch = "STREAM_MISMATCH"
outcome_name stream_retired = "STREAM_RETIRED"
outcome_name stream_history_full = "STREAM_HISTORY_FULL"
outcome_name sequence_invalid = "SEQUENCE_INVALID"
outcome_name unsafe = "UNSAFE"
outcome_name authority_rejected = "AUTHORITY_REJECTED"
outcome_name kinematics_failed = "KINEMATICS_FAILED"
outcome_name source_invalid = "SOURCE_INVALID"
outcome_name source_mismatch = "SOURCE_MISMATCH"

abbrev pub control_state_name : ControlState → String
control_state_name unavailable = "UNAVAILABLE"
control_state_name disarmed = "DISARMED"
control_state_name armed = "ARMED"
control_state_name active = "ACTIVE"
control_state_name expired = "EXPIRED"
control_state_name fault = "FAULT"

-- `state == ARMED || state == ACTIVE`
abbrev pub in_control : ControlState → Bool
in_control armed = true
in_control active = true
in_control _ = false
