-- ===== src/RobotState/Service.antt =====
-- components/robot_state/robot_state_service.c: the model behind a mutex, with the inhibits of each
-- source and the epoch of the motion gate. The handle is not NULL, and `taken` tells whether the mutex
-- was taken. A call gives back its outcome and the transition that it writes, if any.
use Prim.Native.Nat.{bit_and, bit_or}
use sistema_motriz_rs.Base.{
  ℕ, suc, ◌+◌, Bool, true, false, not, ◌&&◌, ◌||◌, List, [], ◌∷◌, Option, none, some, ◌==◌,
  if◌then◌else◌, u64, get_or, set_elem,
}
use sistema_motriz_rs.RobotState.State.{
  Outcome, applied, no_change, invalid_argument, Model, Transition, request_stop, emergency_stop,
  revoke_authority, has_only_known_inhibits,
}
use sistema_motriz_rs.RobotState.Operations.{
  init, boot_complete, set_inhibits, report_fault, request_arm, request_disarm, request_maintenance,
  close_maintenance, request_ota, acknowledge_fault,
}

pub data InhibitSource : Type 0 where
  source_boot source_profile source_controller source_rc source_authority source_estop :
      InhibitSource
  source_config : InhibitSource

abbrev pub source_index : InhibitSource → ℕ
source_index source_boot = 0
source_index source_profile = 1
source_index source_controller = 2
source_index source_rc = 3
source_index source_authority = 4
source_index source_estop = 5
source_index source_config = 6

pub record Service : Type 0 where
  pub model : Model
  pub source_inhibits : List ℕ
  pub gate_epoch : ℕ

pub record ServiceSnapshot : Type 0 where
  pub model : Model
  pub source_inhibits : List ℕ
  pub gate_epoch : ℕ

pub record Served : Type 0 where
  pub service : Service
  pub outcome : Outcome
  pub transition : Option Transition

abbrev pub gate_invalidating_actions : ℕ
gate_invalidating_actions = bit_or (bit_or request_stop emergency_stop) revoke_authority

abbrev pub is_no_change : Outcome → Bool
is_no_change no_change = true
is_no_change _ = false

abbrev pub is_applied : Outcome → Bool
is_applied applied = true
is_applied _ = false

abbrev pub refused : Service → Served
refused s = record { service = s; outcome = invalid_argument; transition = none }

unfoldable pub service_init : Service
service_init = record {
  model = init;
  source_inhibits = 0 ∷ 0 ∷ 0 ∷ 0 ∷ 0 ∷ 0 ∷ 0 ∷ [];
  gate_epoch = 0;
}

unfoldable pub get_snapshot : Service → Bool → Option ServiceSnapshot
get_snapshot s taken =
    if not taken
    then none
    else some
        (record { model = s.model; source_inhibits = s.source_inhibits; gate_epoch = s.gate_epoch })

unfoldable pub complete_operation : Service → Transition → Bool → Served
complete_operation s t invalidate_on_no_change = record {
  service = record s {
    gate_epoch =
        if not (bit_and t.actions gate_invalidating_actions == 0)
          || (invalidate_on_no_change && is_no_change t.outcome)
        then u64 (s.gate_epoch + 1)
        else s.gate_epoch;
  };
  outcome = t.outcome;
  transition = some t;
}

unfoldable pub run_operation : Service → (Model → Model × Transition) → Bool → Bool → Served
run_operation s operation invalidate_on_no_change taken =
    let r = operation s.model in
    if not taken
    then refused s
    else complete_operation (record s { model = r.0 }) r.1 invalidate_on_no_change

-- The loop over the sources, from the one with number `index`.
unfoldable pub aggregate_from : List ℕ → ℕ → ℕ → ℕ → ℕ
aggregate_from [] index updated_source updated_inhibits = 0
aggregate_from (i ∷ is) index updated_source updated_inhibits =
    bit_or (if index == updated_source then updated_inhibits else i)
      (aggregate_from is (suc index) updated_source updated_inhibits)

abbrev pub aggregate_inhibits : Service → InhibitSource → ℕ → ℕ
aggregate_inhibits s source inhibits =
    aggregate_from s.source_inhibits 0 (source_index source) inhibits

-- `source_inhibits[source] = inhibits`
abbrev pub with_source : Service → InhibitSource → ℕ → Service
with_source s source inhibits = record s {
  source_inhibits = set_elem s.source_inhibits (source_index source) inhibits;
}

-- `source_inhibits[source] |= inhibits`
abbrev pub add_to_source : Service → InhibitSource → ℕ → Service
add_to_source s source inhibits =
    with_source s source (bit_or (get_or s.source_inhibits (source_index source) 0) inhibits)

unfoldable pub service_boot_complete : Service → ℕ → Bool → Served
service_boot_complete s boot_failure_inhibits taken =
    let r = boot_complete s.model boot_failure_inhibits in
    let t = record s { model = r.0 } in
    if not (has_only_known_inhibits boot_failure_inhibits)
    then refused s
    else if not taken
    then refused s
    else complete_operation
        (if is_applied r.1.outcome then add_to_source t source_boot boot_failure_inhibits else t)
        r.1 false

unfoldable pub service_publish_inhibits : Service → InhibitSource → ℕ → Bool → Served
service_publish_inhibits s source inhibits taken =
    let r = set_inhibits s.model (aggregate_inhibits s source inhibits) in
    let t = record s { model = r.0 } in
    if not (has_only_known_inhibits inhibits)
    then refused s
    else if not taken
    then refused s
    else complete_operation
        (if is_applied r.1.outcome || is_no_change r.1.outcome
          then with_source t source inhibits
          else t)
        r.1 false

unfoldable pub service_report_fault : Service → InhibitSource → ℕ → Bool → Served
service_report_fault s source causes taken =
    let r = report_fault s.model causes in
    let t = record s { model = r.0 } in
    if causes == 0 || not (has_only_known_inhibits causes)
    then refused s
    else if not taken
    then refused s
    else complete_operation
        (if is_applied r.1.outcome || is_no_change r.1.outcome
          then add_to_source t source causes
          else t)
        r.1 false

abbrev pub service_request_arm : Service → Bool → Served
service_request_arm s taken = run_operation s request_arm false taken

-- A repeated request to disarm invalidates the gate, too.
abbrev pub service_request_disarm : Service → Bool → Served
service_request_disarm s taken = run_operation s request_disarm true taken

abbrev pub service_request_maintenance : Service → Bool → Served
service_request_maintenance s taken = run_operation s request_maintenance false taken

abbrev pub service_close_maintenance : Service → Bool → Served
service_close_maintenance s taken = run_operation s close_maintenance false taken

abbrev pub service_request_ota : Service → Bool → Served
service_request_ota s taken = run_operation s request_ota false taken

abbrev pub service_acknowledge_fault : Service → Bool → Served
service_acknowledge_fault s taken = run_operation s acknowledge_fault false taken
