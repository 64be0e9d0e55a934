-- ===== src/Capabilities/Endpoint.antt =====
-- components/robot_capabilities/robot_capabilities.c and its header: what an endpoint can do. `W` is
-- the world that the functions behind the ports change. A port's function is `none` where `ops` or
-- the function is NULL, and `has_context` tells whether `context` is set.
use sistema_motriz_rs.Base.{
  ℕ, ◌+◌, Bool, true, false, not, ◌&&◌, ◌||◌, List, Option, none, some, ◌==◌, if◌then◌else◌,
}
use Prim.Native.Nat.{bit_and}
use sistema_motriz_rs.Base.Int.{ℤ, ltb_ℤ}
use sistema_motriz_rs.Base.Float.{Float32}

pub data CapError : Type 0 where
  cap_ok cap_invalid_argument cap_unavailable cap_unsupported cap_out_of_range cap_io_error :
      CapError

pub data Criticality : Type 0 where
  development optional required : Criticality

pub data EndpointHealth : Type 0 where
  health_unknown healthy degraded offline health_fault health_stale : EndpointHealth

pub data VelocitySource : Type 0 where
  velocity_unknown velocity_feedback : VelocitySource

pub data PositionSource : Type 0 where
  position_unknown position_feedback independent_sensor inferred : PositionSource

pub record VelocityObservation : Type 0 where
  pub valid : Bool
  pub rpm : ℤ
  pub timestamp_ms : ℕ
  pub source : VelocitySource
  pub online : Bool
  pub stale : Bool
  pub health : EndpointHealth

pub record PositionObservation (F : Type 0) : Type 0 where
  pub valid : Bool
  pub calibrated : Bool
  pub referenced : Bool
  pub degrees : F
  pub timestamp_ms : ℕ
  pub source_endpoint_id : ℕ
  pub source : PositionSource
  pub online : Bool
  pub stale : Bool
  pub health : EndpointHealth
  pub status : CapError

pub record VelocityPort (W : Type 0) : Type 0 where
  pub set_velocity_rpm : Option (ℤ → W → W × CapError)
  pub has_context : Bool
  pub min_rpm : ℤ
  pub max_rpm : ℤ

pub record StoppablePort (W : Type 0) : Type 0 where
  pub stop : Option (W → W × CapError)
  pub has_context : Bool

-- The port of positions and the port of references have the same fields.
pub record PositionPort (W F : Type 0) : Type 0 where
  pub set_degrees : Option (F → W → W × CapError)
  pub has_context : Bool
  pub min_degrees : F
  pub max_degrees : F

-- A port that reads an observation of type `O`.
pub record ObservationPort (W O : Type 0) : Type 0 where
  pub read : Option (W → W × O × CapError)
  pub has_context : Bool

-- Of the sensor port only its presence is used.
pub record Endpoint (W F : Type 0) : Type 0 where
  pub id : ℕ
  pub name : Option (List ℕ)
  pub criticality : Criticality
  pub available : Bool
  pub velocity_rpm : Option (VelocityPort W)
  pub stoppable : Option (StoppablePort W)
  pub position : Option (PositionPort W F)
  pub position_reference : Option (PositionPort W F)
  pub has_position_sensor : Bool
  pub velocity_observation : Option (ObservationPort W VelocityObservation)
  pub position_observation : Option (ObservationPort W (PositionObservation F))

abbrev pub capability_velocity_rpm : ℕ
capability_velocity_rpm = 1

abbrev pub capability_stoppable : ℕ
capability_stoppable = 2

abbrev pub capability_position : ℕ
capability_position = 4

abbrev pub capability_position_sensor : ℕ
capability_position_sensor = 8

abbrev pub capability_position_observation : ℕ
capability_position_observation = 16

abbrev pub capability_position_reference : ℕ
capability_position_reference = 32

abbrev pub is_some : {A : Type 0} → Option A → Bool
is_some none = false
is_some (some a) = true

abbrev pub is_required : Criticality → Bool
is_required required = true
is_required _ = false

abbrev pub is_cap_ok : CapError → Bool
is_cap_ok cap_ok = true
is_cap_ok _ = false

-- The bit of a capability where the port is there.
abbrev pub bit_if : Bool → ℕ → ℕ
bit_if true c = c
bit_if false c = 0

module _ {W : Type 0} where
  abbrev set_rpm_on : VelocityPort W → ℤ → W → W × CapError
  set_rpm_on port rpm w = elim port.set_velocity_rpm [
    | none ↦ (w, cap_unsupported)
    | some set ↦
        if not port.has_context
        then (w, cap_invalid_argument)
        else if ltb_ℤ rpm port.min_rpm || ltb_ℤ port.max_rpm rpm
        then (w, cap_out_of_range)
        else set rpm w
  ]

  abbrev stop_on : StoppablePort W → W → W × CapError
  stop_on port w = elim port.stop [
    | none ↦ (w, cap_unsupported)
    | some stop ↦ if not port.has_context then (w, cap_invalid_argument) else stop w
  ]

  abbrev read_on : {O : Type 0} → Option (ObservationPort W O) → Bool → O → W → W × O × CapError
  read_on none available before w =
      (w, before, if not available then cap_unavailable else cap_unsupported)
  read_on (some port) available before w =
      if not available then (w, before, cap_unavailable) else elim port.read [
        | none ↦ (w, before, cap_unsupported)
        | some read ↦ if not port.has_context then (w, before, cap_invalid_argument) else read w
      ]

module _ {W F : Type 0} where
  -- The bits are distinct, so their sum is their disjunction.
  unfoldable pub endpoint_capabilities : Endpoint W F → ℕ
  endpoint_capabilities e =
      bit_if (is_some e.velocity_rpm) capability_velocity_rpm
      + bit_if (is_some e.stoppable) capability_stoppable
      + bit_if (is_some e.position) capability_position
      + bit_if (is_some e.position_reference) capability_position_reference
      + bit_if e.has_position_sensor capability_position_sensor
      + bit_if (is_some e.position_observation) capability_position_observation

  unfoldable pub endpoint_has_capability : Endpoint W F → ℕ → Bool
  endpoint_has_capability e c = bit_and (endpoint_capabilities e) c == c

  abbrev pub endpoint_has_position_observation : Endpoint W F → Bool
  endpoint_has_position_observation e = endpoint_has_capability e capability_position_observation

  unfoldable pub velocity_set_rpm : Endpoint W F → ℤ → W → W × CapError
  velocity_set_rpm e rpm w =
      if not e.available
      then (w, cap_unavailable)
      else elim e.velocity_rpm [ none ↦ (w, cap_unsupported) | some port ↦ set_rpm_on port rpm w ]

  -- An endpoint that is not available is stopped all the same.
  unfoldable pub endpoint_stop : Endpoint W F → W → W × CapError
  endpoint_stop e w = elim e.stoppable [ none ↦ (w, cap_unsupported) | some port ↦ stop_on port w ]

  -- `before` is what the caller's observation holds.
  unfoldable pub read_velocity_observation :
      Endpoint W F → VelocityObservation → W → W × VelocityObservation × CapError
  read_velocity_observation e before w = read_on e.velocity_observation e.available before w

  unfoldable pub read_position_observation :
      Endpoint W F → PositionObservation F → W → W × PositionObservation F × CapError
  read_position_observation e before w =
      let r = read_on e.position_observation e.available before w in
      (
        r.0,
        if is_cap_ok r.2 && r.1.source_endpoint_id == 0
            then record (r.1) { source_endpoint_id = e.id }
            else r.1,
        r.2,
      )

module _ {W F : Type 0} ⦃fl : Float32 F⦄ where
  abbrev set_degrees_on : PositionPort W F → F → W → W × CapError
  set_degrees_on port degrees w = elim port.set_degrees [
    | none ↦ (w, cap_unsupported)
    | some set ↦
        if not port.has_context
        then (w, cap_invalid_argument)
        else if not (fl.is_finite port.min_degrees)
            || not (fl.is_finite port.max_degrees)
            || fl.lt port.max_degrees port.min_degrees
        then (w, cap_invalid_argument)
        else if not (fl.is_finite degrees)
            || fl.lt degrees port.min_degrees
            || fl.lt port.max_degrees degrees
        then (w, cap_out_of_range)
        else set degrees w
  ]

  unfoldable pub position_set_degrees : Endpoint W F → F → W → W × CapError
  position_set_degrees e degrees w =
      if not e.available then (w, cap_unavailable) else elim e.position [
        | none ↦ (w, cap_unsupported)
        | some port ↦ set_degrees_on port degrees w
      ]

  unfoldable pub position_set_reference_degrees : Endpoint W F → F → W → W × CapError
  position_set_reference_degrees e degrees w =
      if not e.available then (w, cap_unavailable) else elim e.position_reference [
        | none ↦ (w, cap_unsupported)
        | some port ↦ set_degrees_on port degrees w
      ]
