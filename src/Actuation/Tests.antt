-- ===== src/Actuation/Tests.antt =====
-- Three endpoints and a log of what they are told, and the theorems at concrete inputs.
use sistema_motriz_rs.Base.{
  ℕ, ◌+◌, ◌-◌, ◌<◌, ◌≡◌, ◌≢◌, ◌↔◌, ◌⊎◌, refl, true, false, List, [], ◌∷◌, ◌++◌, none, some, All,
  arith, length,
}
use sistema_motriz_rs.Base.Int.{pos, negsuc}
use sistema_motriz_rs.Base.Float.{Milli}
use sistema_motriz_rs.Capabilities.Endpoint.{
  Endpoint, required, VelocityPort, StoppablePort, CapError, cap_ok, cap_io_error, velocity_set_rpm,
  endpoint_stop, endpoint_has_capability, endpoint_capabilities,
}
use sistema_motriz_rs.Capabilities.Registry.{
  Registry, registry_find, find_in, registry_add, registry_ok, IsSound, registry_add-IsSound,
}
use sistema_motriz_rs.Actuation.Coordinator.{
  Coordinator, LockPort, VelocityRequest, success, apply_velocity_rpm, apply_setpoints,
  apply_locked, rollback, stop_all, stop_each, stop_endpoint, partial_result,
}
use sistema_motriz_rs.Actuation.Orders.{AllStopped, stoppables}
use sistema_motriz_rs.Actuation.Reports.{Completed, Interrupted, apply_setpoints-reports}
use sistema_motriz_rs.Actuation.Stops.{AnsweredOk, stop_all-covers, Counts, calls-release}

computes : Unit {0}
unfolding velocity_set_rpm endpoint_stop endpoint_has_capability endpoint_capabilities registry_find
    find_in registry_add apply_velocity_rpm apply_setpoints apply_locked rollback stop_all stop_each
    stop_endpoint
computes = tt

-- How often the lock is held, and the endpoints that were stopped.
pub record World : Type 0 where
  pub held : ℕ
  pub stopped : List ℕ

abbrev velocity_port : CapError → VelocityPort World
velocity_port answer = record {
  set_velocity_rpm = some (λ rpm w. (w, answer));
  has_context = true;
  min_rpm = negsuc 99;
  max_rpm = pos 100;
}

abbrev stop_port : ℕ → StoppablePort World
stop_port id = record {
  stop = some (λ w. (record w { stopped = w.stopped ++ (id ∷ []) }, cap_ok));
  has_context = true;
}

abbrev endpoint : ℕ → CapError → Endpoint World Milli
endpoint id answer = record {
  id = id;
  name = some (76 ∷ []);
  criticality = required;
  available = true;
  velocity_rpm = some (velocity_port answer);
  stoppable = some (stop_port id);
  position = none;
  position_reference = none;
  has_position_sensor = false;
  velocity_observation = none;
  position_observation = none;
}

-- The third endpoint answers every setpoint with an error.
abbrev registry : Registry World Milli
registry = record { items = endpoint 1 cap_ok ∷ endpoint 2 cap_ok ∷ endpoint 3 cap_io_error ∷ [] }

abbrev lock : LockPort World
lock = record {
  acquire = λ w. (record w { held = w.held + 1 }, true);
  release = λ w. record w { held = w.held - 1 };
}

abbrev coordinator : Coordinator World Milli
coordinator = record { registry = registry; lock = lock }

abbrev quiet : World
quiet = record { held = 0; stopped = [] }

abbrev request : ℕ → VelocityRequest
request id = record { endpoint_id = id; rpm = pos 50 }

abbrev requests : List VelocityRequest
requests = request 1 ∷ request 2 ∷ request 3 ∷ []

-- The failure of the third endpoint stops the first two.
undone : (apply_velocity_rpm coordinator requests quiet).0.stopped ≡ (1 ∷ 2 ∷ [])
unfolding computes
undone = refl

undone_outcome : (apply_velocity_rpm coordinator requests quiet).1.outcome ≡ partial_result
unfolding computes
undone_outcome = refl

abbrev id_of : VelocityRequest → ℕ
id_of q = q.endpoint_id

abbrev set_rpm : Endpoint World Milli → VelocityRequest → World → World × CapError
set_rpm e q w = velocity_set_rpm e q.rpm w

apply_setpoints-reports_example :
    let r = apply_setpoints id_of set_rpm coordinator requests quiet in
    (v : World) × (r.0 ≡ lock.release v)
    × (Completed id_of set_rpm registry requests (lock.acquire quiet).0 v r.1
        ⊎ Interrupted id_of set_rpm registry requests (lock.acquire quiet).0 v r.1)
apply_setpoints-reports_example =
    apply_setpoints-reports id_of set_rpm coordinator requests quiet refl (ground arith)
      (ground arith)

all_stopped : (stop_all coordinator quiet).0.stopped ≡ (1 ∷ 2 ∷ 3 ∷ [])
unfolding computes
all_stopped = refl

stop_all-covers_example :
    let r = stop_all coordinator quiet in
    (v : World) × (r.0 ≡ lock.release v)
    × AllStopped (stoppables registry.items) r.1.endpoints (lock.acquire quiet).0 v
    × ((r.1.outcome ≡ success) ↔ ((0 < length r.1.endpoints) × All AnsweredOk r.1.endpoints))
stop_all-covers_example = stop_all-covers coordinator quiet refl

lock-Counts : Counts (λ w. w.held) lock
lock-Counts = record {
  taken = λ w h. refl;
  refused = λ w h. absurd (ground (arith, h));
  returned = λ w. refl;
}

set_keeps :
    (id : ℕ) (answer : CapError) (a : VelocityRequest) (w : World)
    → (velocity_set_rpm (endpoint id answer) a.rpm w).0.held ≡ w.held
unfolding velocity_set_rpm
set_keeps id answer a w = ground arith

calls-release_example :
    ((apply_setpoints
        (λ q. q.endpoint_id)
        (λ e q. velocity_set_rpm e q.rpm)
        coordinator
        requests
        quiet).0.held
      ≡ 0)
    × ((stop_endpoint coordinator 2 quiet).0.held ≡ 0)
    × ((stop_all coordinator quiet).0.held ≡ 0)
unfolding computes
calls-release_example =
    calls-release (λ w. w.held) (λ q. q.endpoint_id) (λ e q. velocity_set_rpm e q.rpm) coordinator
      requests 2 quiet lock-Counts
      (set_keeps 1 cap_ok, (set_keeps 2 cap_ok, (set_keeps 3 cap_io_error, tt)))
      ((λ w. refl), ((λ w. refl), ((λ w. refl), tt)))

registry-IsSound : IsSound registry
unfolding computes
registry-IsSound = record { distinct = (refl, (refl, (refl, tt))); fits = ground arith }

registry_add-IsSound_example :
    let a = registry_add registry (endpoint 4 cap_ok) in
    IsSound a.0
    × ((a.1 ≢ registry_ok) ⊎ (registry_find a.0 4 ≡ some (endpoint 4 cap_ok)))
    × ((a.1 ≡ registry_ok) ⊎ (a.0 ≡ registry))
registry_add-IsSound_example = registry_add-IsSound registry (endpoint 4 cap_ok) registry-IsSound
