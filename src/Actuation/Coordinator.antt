-- ===== src/Actuation/Coordinator.antt =====
-- components/actuation_coordinator/actuation_coordinator.c. `W` is the world that the lock and the
-- endpoints change. The pointers of a call are not NULL, and the requests are a list with its length.
use sistema_motriz_rs.Base.{
  ℕ, ◌+◌, Bool, true, false, not, ◌||◌, List, [], ◌∷◌, ◌++◌, Option, none, some, ltb, ◌==◌,
  if◌then◌else◌, length,
}
use sistema_motriz_rs.Base.Int.{ℤ}
use sistema_motriz_rs.Base.Float.{Float32}
use sistema_motriz_rs.Capabilities.Endpoint.{
  CapError, cap_ok, cap_unavailable, cap_unsupported, Endpoint, capability_stoppable,
  capability_position_reference, is_required, is_cap_ok, endpoint_has_capability, velocity_set_rpm,
  position_set_degrees, position_set_reference_degrees, endpoint_stop,
}
use sistema_motriz_rs.Capabilities.Registry.{Registry, registry_find}

abbrev pub max_setpoints : ℕ
max_setpoints = 16

pub data ActuationResult : Type 0 where
  success failure partial_result lock_timeout : ActuationResult

pub record LockPort (W : Type 0) : Type 0 where
  pub acquire : W → W × Bool
  pub release : W → W

pub record VelocityRequest : Type 0 where
  pub endpoint_id : ℕ
  pub rpm : ℤ

pub record PositionRequest (F : Type 0) : Type 0 where
  pub endpoint_id : ℕ
  pub degrees : F

pub record EndpointResult : Type 0 where
  pub endpoint_id : ℕ
  pub error : CapError
  pub applied : Bool
  pub rollback_stop_attempted : Bool
  pub rollback_stop_error : CapError

-- `endpoints` holds the entries that were written.
pub record Report : Type 0 where
  pub outcome : ActuationResult
  pub requested : ℕ
  pub applied : ℕ
  pub endpoints : List EndpointResult

pub record Coordinator (W F : Type 0) : Type 0 where
  pub registry : Registry W F
  pub lock : LockPort W

abbrev pub reset_report : ℕ → Report
reset_report requested = record {
  outcome = failure;
  requested = requested;
  applied = 0;
  endpoints = [];
}

-- An entry as `memset` leaves it, with the id and the error of the attempt.
abbrev pub attempt : ℕ → CapError → EndpointResult
attempt endpoint_id error = record {
  endpoint_id = endpoint_id;
  error = error;
  applied = is_cap_ok error;
  rollback_stop_attempted = false;
  rollback_stop_error = cap_ok;
}

-- `report->applied ? PARTIAL : FAILURE`
abbrev pub partial_or_failure : ℕ → ActuationResult
partial_or_failure applied = if applied == 0 then failure else partial_result

abbrev pub count_applied : List EndpointResult → ℕ
count_applied [] = 0
count_applied (r ∷ rs) = if r.applied then count_applied rs + 1 else count_applied rs

-- The outcome from the counts of entries and of applied ones.
abbrev pub stop_outcome : ℕ → ℕ → ActuationResult
stop_outcome requested applied =
    if requested == 0
    then failure
    else if applied == requested
    then success
    else if ltb 0 applied
    then partial_result
    else failure

-- What a call on one endpoint reports.
abbrev pub single_report : EndpointResult → Report
single_report entry = record {
  outcome = if is_cap_ok entry.error then success else failure;
  requested = 1;
  applied = if is_cap_ok entry.error then 1 else 0;
  endpoints = entry ∷ [];
}

module _ {W F : Type 0} where
  abbrev pub stop_found : Option (Endpoint W F) → W → W × CapError
  stop_found none w = (w, CapError.cap_invalid_argument)
  stop_found (some e) w = endpoint_stop e w

  -- The entries so far, each applied one stopped, in their order.
  unfoldable pub rollback : Registry W F → List EndpointResult → W → W × List EndpointResult
  rollback registry [] w = (w, [])
  rollback registry (p ∷ ps) w =
      let stopped = stop_found (registry_find registry p.endpoint_id) w in
      let (w', rest) = rollback registry ps (if p.applied then stopped.0 else w) in
      (
        w',
        (if p.applied
              then record p { rollback_stop_attempted = true; rollback_stop_error = stopped.1 }
              else p)
            ∷ rest,
      )

  abbrev pub found_required : Option (Endpoint W F) → Bool
  found_required none = false
  found_required (some e) = is_required e.criticality

  -- Setpoints of a kind `A`: the id of one, and how an endpoint takes it.
  module _ {A : Type 0} (id_of : A → ℕ) (set : Endpoint W F → A → W → W × CapError) where
    abbrev pub set_found : Option (Endpoint W F) → A → W → W × CapError
    set_found none a w = (w, cap_unavailable)
    set_found (some e) a w = set e a w

    -- The loop over the requests; `done` holds the entries before.
    unfoldable pub apply_locked : Registry W F → List EndpointResult → List A → W → W × Report
    apply_locked registry done [] w = (
      w,
      record {
        outcome = success;
        requested = length done;
        applied = count_applied done;
        endpoints = done;
      },
    )
    apply_locked registry done (a ∷ more) w =
        let found = registry_find registry (id_of a) in
        let (w', error) = set_found found a w in
        let entry = attempt (id_of a) error in
        let rest = apply_locked registry (done ++ (entry ∷ [])) more w' in
        let (u, back) = if found_required found then rollback registry done w' else (w', done) in
        if is_cap_ok error then rest else (
          u,
          record {
            outcome = partial_or_failure (count_applied done);
            requested = length done + 1 + length more;
            applied = count_applied done;
            endpoints = back ++ (entry ∷ []);
          },
        )

    unfoldable pub apply_setpoints : Coordinator W F → List A → W → W × Report
    apply_setpoints c requests w =
        let (w₁, acquired) = c.lock.acquire w in
        let (w₂, report) = apply_locked c.registry [] requests w₁ in
        if length requests == 0 || ltb max_setpoints (length requests)
        then (w, reset_report (length requests))
        else if not acquired
        then (w₁, record (reset_report (length requests)) { outcome = lock_timeout })
        else (c.lock.release w₂, report)

  unfoldable pub apply_velocity_rpm : Coordinator W F → List VelocityRequest → W → W × Report
  apply_velocity_rpm c requests w =
      apply_setpoints (λ r. r.endpoint_id) (λ e r. velocity_set_rpm e r.rpm) c requests w

  abbrev pub set_velocity_rpm : Coordinator W F → ℕ → ℤ → W → W × Report
  set_velocity_rpm c endpoint_id rpm w =
      apply_velocity_rpm c (record { endpoint_id = endpoint_id; rpm = rpm } ∷ []) w

  abbrev pub stop_or_unavailable : Option (Endpoint W F) → W → W × CapError
  stop_or_unavailable none w = (w, cap_unavailable)
  stop_or_unavailable (some e) w = endpoint_stop e w

  unfoldable pub stop_endpoint : Coordinator W F → ℕ → W → W × Report
  stop_endpoint c endpoint_id w =
      let (w₁, acquired) = c.lock.acquire w in
      let (w₂, error) = stop_or_unavailable (registry_find c.registry endpoint_id) w₁ in
      if not acquired
      then (w₁, record (reset_report 1) { outcome = lock_timeout })
      else (c.lock.release w₂, single_report (attempt endpoint_id error))

  -- The loop over the registry.
  unfoldable pub stop_each : List (Endpoint W F) → W → W × List EndpointResult
  stop_each [] w = (w, [])
  stop_each (e ∷ es) w =
      let stoppable = endpoint_has_capability e capability_stoppable in
      let (w', error) = endpoint_stop e w in
      let (u, rest) = stop_each es (if stoppable then w' else w) in
      (u, if stoppable then attempt e.id error ∷ rest else rest)

  unfoldable pub stop_all : Coordinator W F → W → W × Report
  stop_all c w =
      let (w₁, acquired) = c.lock.acquire w in
      let (w₂, entries) = stop_each c.registry.items w₁ in
      if not acquired then (w₁, record (reset_report 0) { outcome = lock_timeout }) else (
        c.lock.release w₂,
        record {
          outcome = stop_outcome (length entries) (count_applied entries);
          requested = length entries;
          applied = count_applied entries;
          endpoints = entries;
        },
      )

module _ {W F : Type 0} ⦃fl : Float32 F⦄ where
  unfoldable pub apply_position_degrees :
      Coordinator W F → List (PositionRequest F) → W → W × Report
  apply_position_degrees c requests w =
      apply_setpoints (λ r. r.endpoint_id) (λ e r. position_set_degrees e r.degrees) c requests w

  abbrev pub set_position_degrees : Coordinator W F → ℕ → F → W → W × Report
  set_position_degrees c endpoint_id degrees w =
      apply_position_degrees c (record { endpoint_id = endpoint_id; degrees = degrees } ∷ []) w

  -- The stop comes first, and only if it succeeds the reference.
  unfoldable pub reference_found : ℕ → Option (Endpoint W F) → F → W → W × EndpointResult
  reference_found id none degrees w = (w, attempt id cap_unavailable)
  reference_found id (some e) degrees w =
      let (w₁, stop_error) = endpoint_stop e w in
      let (w₂, error) = position_set_reference_degrees e degrees w₁ in
      let stopped = is_cap_ok stop_error in
      if not (endpoint_has_capability e capability_position_reference)
        || not (endpoint_has_capability e capability_stoppable)
      then (w, attempt id cap_unsupported)
      else (
        if stopped then w₂ else w₁,
        record (attempt id (if stopped then error else stop_error)) {
          rollback_stop_attempted = true;
          rollback_stop_error = stop_error;
        },
      )

  unfoldable pub set_position_reference_degrees : Coordinator W F → ℕ → F → W → W × Report
  set_position_reference_degrees c endpoint_id degrees w =
      let (w₁, acquired) = c.lock.acquire w in
      let (w₂, entry) =
        reference_found endpoint_id (registry_find c.registry endpoint_id) degrees w₁ in
      if not acquired
      then (w₁, record (reset_report 1) { outcome = lock_timeout })
      else (c.lock.release w₂, single_report entry)
