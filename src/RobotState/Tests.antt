-- ===== src/RobotState/Tests.antt =====
-- A run of the operational state, and the theorems at concrete inputs.
use Prim.Native.Nat.{bit_and}
use sistema_motriz_rs.Base.{arith, ◌≡◌, ◌≢◌, ◌↔◌, ◌⊎◌, refl, Bool, true, false, List, [], ◌∷◌, some}
use sistema_motriz_rs.RobotState.State.{
  disarmed, armed, faulted, applied, Model, motor_fault, rc_invalid, fault_ack_blockers,
  request_stop, emergency_stop, revoke_authority, has_only_known_inhibits,
}
use sistema_motriz_rs.RobotState.Operations.{
  init, Request, boot, inhibit, arm, disarm, acknowledge, handle, authorize, authorize_motion,
}
use sistema_motriz_rs.RobotState.Invariant.{IsSound, run, reachable-IsSound, authorize_motion_iff}
use sistema_motriz_rs.RobotState.Service.{
  Service, source_rc, service_init, complete_operation, run_operation, aggregate_from,
  service_boot_complete, service_publish_inhibits, service_report_fault,
}
use sistema_motriz_rs.RobotState.Epoch.{
  ServiceCall, call_boot, call_publish, call_arm, call_disarm, serve_all, same_epoch-armed,
}
use sistema_motriz_rs.RobotState.Transitions.{leave_armed_stops, faulted_until_acknowledged}

computes : Unit {0}
unfolding init has_only_known_inhibits handle authorize authorize_motion
computes = tt

abbrev to_armed : List Request
to_armed = boot 0 ∷ arm ∷ []

abbrev running : Model
running = run init to_armed

abbrev tripped : Model
tripped = (handle running (inhibit motor_fault)).0

running_armed : running.state ≡ armed
unfolding computes
running_armed = refl

trip_faults : (tripped.state ≡ faulted) × (tripped.latched_faults ≡ motor_fault)
unfolding computes
trip_faults = (refl, refl)

reachable-IsSound_example : IsSound running
reachable-IsSound_example = reachable-IsSound to_armed

authorize_motion_iff_example :
    ((authorize_motion (some running)).0 ≡ applied) ↔ (running.state ≡ armed)
authorize_motion_iff_example = authorize_motion_iff to_armed

leave_armed_stops_example :
    let actions = (handle running disarm).1.actions in
    ((bit_and actions request_stop ≢ 0) ⊎ (bit_and actions emergency_stop ≢ 0))
    × (bit_and actions revoke_authority ≢ 0)
unfolding computes
leave_armed_stops_example = leave_armed_stops running disarm refl (λ e. cc)

abbrev repaired : Model
repaired = (handle tripped (inhibit rc_invalid)).0

faulted_until_acknowledged_example :
    (acknowledge ≡ acknowledge)
    × (bit_and repaired.active_inhibits fault_ack_blockers ≡ 0)
    × ((handle repaired acknowledge).0.state ≡ disarmed)
    × ((handle repaired acknowledge).0.latched_faults ≡ 0)
unfolding computes
faulted_until_acknowledged_example = faulted_until_acknowledged repaired acknowledge refl (λ e. cc)

computes_service : Unit {0}
unfolding service_init run_operation complete_operation service_boot_complete
    service_publish_inhibits service_report_fault aggregate_from init has_only_known_inhibits handle
computes_service = tt

abbrev armed_service : Service
armed_service = serve_all service_init ((call_boot 0, true) ∷ (call_arm, true) ∷ [])

-- A publication without inhibits, a call that does not get the mutex and a repeated request to arm.
abbrev quiet_calls : List (ServiceCall × Bool)
quiet_calls = (call_publish source_rc 0, true) ∷ (call_disarm, false) ∷ (call_arm, true) ∷ []

tripped_epoch :
    (serve_all armed_service ((call_publish source_rc rc_invalid, true) ∷ [])).gate_epoch ≡ 1
unfolding computes_service
tripped_epoch = refl

disarm_epoch :
    (serve_all service_init ((call_boot 0, true) ∷ (call_disarm, true) ∷ [])).gate_epoch ≡ 1
unfolding computes_service
disarm_epoch = refl

same_epoch-armed_example : (serve_all armed_service quiet_calls).model.state ≡ armed
unfolding computes_service
same_epoch-armed_example = same_epoch-armed armed_service quiet_calls refl (omega arith) refl
