-- ===== src/RobotState/Operations.antt =====
-- components/robot_state/robot_state_model.c: every operation. The outcome that a function returns
-- is the `outcome` of the transition that it fills in; a NULL model is `none`.
use Prim.Native.Nat.{bit_and, bit_or}
use sistema_motriz_rs.Base.{
  ℕ, ◌+◌, Bool, true, false, not, ◌||◌, Option, none, some, ◌==◌, if◌then◌else◌, u32,
}
use sistema_motriz_rs.RobotState.State.{
  OperationalState, booting, disarmed, armed, faulted, maintenance, ota, Outcome, applied,
  no_change, rejected_state, rejected_inhibited, rejected_fault_latched, invalid_argument, Model,
  Transition, action_none, request_stop, emergency_stop, revoke_authority, self_test_failed,
  arm_blockers, maintenance_entry_blockers, maintenance_write_blockers, ota_entry_blockers,
  fault_ack_blockers, has_only_known_inhibits, state_eq, trip_inhibits_for_state,
}

abbrev pub stop_and_revoke : ℕ
stop_and_revoke = bit_or request_stop revoke_authority

abbrev pub emergency_and_revoke : ℕ
emergency_and_revoke = bit_or emergency_stop revoke_authority

abbrev pub set_transition : Model → OperationalState → Outcome → ℕ → ℕ → Transition
set_transition m previous o blockers actions = record {
  outcome = o;
  previous_state = previous;
  current_state = m.state;
  blockers = blockers;
  actions = actions;
  revision = m.revision;
}

abbrev pub reject_invalid : Transition
reject_invalid = record {
  outcome = invalid_argument;
  previous_state = booting;
  current_state = booting;
  blockers = 0;
  actions = action_none;
  revision = 0;
}

abbrev pub finish : Model → OperationalState → Bool → ℕ → ℕ → Model × Transition
finish m previous changed blockers actions =
    let m' = record m { revision = if changed then u32 (m.revision + 1) else m.revision } in
    (m', set_transition m' previous (if changed then applied else no_change) blockers actions)

abbrev pub reject : Model → Outcome → ℕ → Model × Transition
reject m o blockers = (m, set_transition m m.state o blockers action_none)

unfoldable pub init : Model
init = record { state = booting; active_inhibits = 0; latched_faults = 0; revision = 0 }

unfoldable pub boot_complete : Model → ℕ → Model × Transition
boot_complete m boot_failure =
    let causes = bit_or boot_failure (bit_and m.active_inhibits self_test_failed) in
    if not (has_only_known_inhibits boot_failure)
    then (m, reject_invalid)
    else if not (state_eq m.state booting)
    then reject m rejected_state 0
    else if causes == 0
    then finish (record m { state = disarmed }) m.state true causes action_none
    else finish
        (record m {
          active_inhibits = bit_or m.active_inhibits causes;
          latched_faults = bit_or m.latched_faults causes;
          state = faulted;
        })
        m.state true causes emergency_and_revoke

unfoldable pub set_inhibits : Model → ℕ → Model × Transition
set_inhibits m active =
    let trip = bit_and active (trip_inhibits_for_state m.state) in
    let latched = bit_or m.latched_faults trip in
    let changed = not (m.active_inhibits == active) in
    if not (has_only_known_inhibits active)
    then (m, reject_invalid)
    else if not (trip == 0)
    then finish (record m { active_inhibits = active; latched_faults = latched; state = faulted })
        m.state (changed || not (state_eq m.state faulted) || not (m.latched_faults == latched))
        trip emergency_and_revoke
    else finish (record m { active_inhibits = active }) m.state changed trip action_none

unfoldable pub report_fault : Model → ℕ → Model × Transition
report_fault m causes =
    let active = bit_or m.active_inhibits causes in
    let latched = bit_or m.latched_faults causes in
    if causes == 0 || not (has_only_known_inhibits causes)
    then (m, reject_invalid)
    else finish (record m { active_inhibits = active; latched_faults = latched; state = faulted })
        m.state
        (not (state_eq m.state faulted)
          || not (m.active_inhibits == active)
          || not (m.latched_faults == latched))
        causes emergency_and_revoke

-- The three entries from DISARMED differ by the mask, the new state and the actions.
abbrev pub enter : Model → ℕ → OperationalState → ℕ → Model × Transition
enter m mask next actions =
    let blockers = bit_and m.active_inhibits mask in
    if not (state_eq m.state disarmed)
    then reject m rejected_state 0
    else if not (m.latched_faults == 0)
    then reject m rejected_fault_latched m.latched_faults
    else if not (blockers == 0)
    then reject m rejected_inhibited blockers
    else finish (record m { state = next }) m.state true 0 actions

unfoldable pub request_arm : Model → Model × Transition
request_arm m = enter m arm_blockers armed action_none

unfoldable pub request_maintenance : Model → Model × Transition
request_maintenance m = enter m maintenance_entry_blockers maintenance stop_and_revoke

unfoldable pub request_ota : Model → Model × Transition
request_ota m = enter m ota_entry_blockers ota stop_and_revoke

unfoldable pub request_disarm : Model → Model × Transition
request_disarm m =
    if state_eq m.state disarmed
    then finish m m.state false 0 action_none
    else if not (state_eq m.state armed)
    then reject m rejected_state 0
    else finish (record m { state = disarmed }) m.state true 0 stop_and_revoke

unfoldable pub close_maintenance : Model → Model × Transition
close_maintenance m =
    if not (state_eq m.state maintenance)
    then reject m rejected_state 0
    else finish (record m { state = disarmed }) m.state true 0 stop_and_revoke

unfoldable pub acknowledge_fault : Model → Model × Transition
acknowledge_fault m =
    let blockers = bit_and m.active_inhibits fault_ack_blockers in
    if not (state_eq m.state faulted)
    then reject m rejected_state 0
    else if not (blockers == 0)
    then reject m rejected_inhibited blockers
    else finish (record m { latched_faults = 0; state = disarmed }) m.state true 0 stop_and_revoke

-- The outcome and the blockers.
unfoldable pub authorize : Option Model → OperationalState → ℕ → Outcome × ℕ
authorize none required mask = (invalid_argument, 0)
authorize (some m) required mask =
    let blockers = bit_and m.active_inhibits mask in
    if not (state_eq m.state required)
    then (rejected_state, 0)
    else if not (m.latched_faults == 0)
    then (rejected_fault_latched, m.latched_faults)
    else if not (blockers == 0)
    then (rejected_inhibited, blockers)
    else (applied, 0)

unfoldable pub authorize_motion : Option Model → Outcome × ℕ
authorize_motion m = authorize m armed arm_blockers

unfoldable pub authorize_configuration_write : Option Model → Outcome × ℕ
authorize_configuration_write m = authorize m maintenance maintenance_write_blockers

unfoldable pub authorize_ota_install : Option Model → Outcome × ℕ
authorize_ota_install m = authorize m ota ota_entry_blockers

-- The calls that change the model, and the dispatch of one; every function tests its model for NULL.
pub data Request : Type 0 where
  boot inhibit fault : ℕ → Request
  arm disarm open_maintenance end_maintenance open_ota acknowledge : Request

unfoldable pub handle : Model → Request → Model × Transition
unfolding boot_complete set_inhibits report_fault request_arm request_maintenance request_ota
    request_disarm close_maintenance acknowledge_fault
handle m (boot mask) = boot_complete m mask
handle m (inhibit mask) = set_inhibits m mask
handle m (fault mask) = report_fault m mask
handle m arm = request_arm m
handle m disarm = request_disarm m
handle m open_maintenance = request_maintenance m
handle m end_maintenance = close_maintenance m
handle m open_ota = request_ota m
handle m acknowledge = acknowledge_fault m

unfoldable pub handle_pointer : Option Model → Request → Option Model × Transition
handle_pointer none r = (none, reject_invalid)
handle_pointer (some m) r = let (m', t) = handle m r in (some m', t)
