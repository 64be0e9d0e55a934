-- ===== src/RobotState/State.antt =====
-- components/robot_state: the data of include/robot_state_model.h and the masks of
-- robot_state_model.c. A mask is the number whose binary digits it sets.
use Prim.Native.Nat.{bit_and, bit_or}
use sistema_motriz_rs.Base.{ℕ, ◌-◌, Bool, true, false, ◌==◌, u32_max}

pub data OperationalState : Type 0 where
  booting disarmed armed faulted maintenance ota : OperationalState

pub data Outcome : Type 0 where
  applied no_change rejected_state rejected_inhibited rejected_fault_latched : Outcome
  invalid_argument : Outcome

pub record Model : Type 0 where
  pub state : OperationalState
  pub active_inhibits : ℕ
  pub latched_faults : ℕ
  pub revision : ℕ

pub record Transition : Type 0 where
  pub outcome : Outcome
  pub previous_state : OperationalState
  pub current_state : OperationalState
  pub blockers : ℕ
  pub actions : ℕ
  pub revision : ℕ

-- `robot_state_action_t`
abbrev pub action_none : ℕ
action_none = 0

abbrev pub request_stop : ℕ
request_stop = 1

abbrev pub emergency_stop : ℕ
emergency_stop = 2

abbrev pub revoke_authority : ℕ
revoke_authority = 4

-- `ROBOT_STATE_INHIBIT_*`
abbrev pub rc_invalid : ℕ
rc_invalid = 1

abbrev pub deadman_inactive : ℕ
deadman_inactive = 2

abbrev pub controller_offline : ℕ
controller_offline = 4

abbrev pub controller_stale : ℕ
controller_stale = 8

abbrev pub motor_fault : ℕ
motor_fault = 16

abbrev pub estop_active : ℕ
estop_active = 32

abbrev pub profile_invalid : ℕ
profile_invalid = 64

abbrev pub authority_missing : ℕ
authority_missing = 128

abbrev pub authority_lease_expired : ℕ
authority_lease_expired = 256

abbrev pub stop_unconfirmed : ℕ
stop_unconfirmed = 512

abbrev pub motion_detected : ℕ
motion_detected = 1024

abbrev pub partial_apply : ℕ
partial_apply = 2048

abbrev pub config_outcome_unknown : ℕ
config_outcome_unknown = 4096

abbrev pub self_test_failed : ℕ
self_test_failed = 8192

infixr 60 ◌∪◌
abbrev ◌∪◌ : ℕ → ℕ → ℕ
a ∪ b = bit_or a b

abbrev pub known_inhibits : ℕ
known_inhibits =
    rc_invalid ∪ deadman_inactive ∪ controller_offline ∪ controller_stale ∪ motor_fault
    ∪ estop_active ∪ profile_invalid ∪ authority_missing ∪ authority_lease_expired
    ∪ stop_unconfirmed ∪ motion_detected ∪ partial_apply ∪ config_outcome_unknown ∪ self_test_failed

abbrev pub arm_blockers : ℕ
arm_blockers =
    rc_invalid ∪ deadman_inactive ∪ controller_offline ∪ controller_stale ∪ motor_fault
    ∪ estop_active ∪ profile_invalid ∪ authority_missing ∪ authority_lease_expired
    ∪ stop_unconfirmed ∪ motion_detected ∪ partial_apply ∪ config_outcome_unknown ∪ self_test_failed

abbrev pub maintenance_entry_blockers : ℕ
maintenance_entry_blockers =
    motor_fault ∪ estop_active ∪ stop_unconfirmed ∪ motion_detected ∪ partial_apply
    ∪ config_outcome_unknown ∪ self_test_failed

abbrev pub maintenance_write_blockers : ℕ
maintenance_write_blockers = maintenance_entry_blockers ∪ controller_offline ∪ controller_stale

abbrev pub maintenance_trip_inhibits : ℕ
maintenance_trip_inhibits =
    motor_fault ∪ estop_active ∪ motion_detected ∪ partial_apply ∪ config_outcome_unknown

abbrev pub ota_entry_blockers : ℕ
ota_entry_blockers =
    controller_offline ∪ controller_stale ∪ motor_fault ∪ estop_active ∪ stop_unconfirmed
    ∪ motion_detected ∪ partial_apply ∪ config_outcome_unknown ∪ self_test_failed

abbrev pub ota_trip_inhibits : ℕ
ota_trip_inhibits = motor_fault ∪ estop_active ∪ motion_detected

abbrev pub fault_ack_blockers : ℕ
fault_ack_blockers =
    controller_offline ∪ controller_stale ∪ motor_fault ∪ estop_active ∪ profile_invalid
    ∪ stop_unconfirmed ∪ motion_detected ∪ partial_apply ∪ config_outcome_unknown ∪ self_test_failed

-- `~ROBOT_STATE_KNOWN_INHIBITS` on 32 bits
abbrev pub unknown_inhibits : ℕ
unknown_inhibits = u32_max - known_inhibits

unfoldable pub has_only_known_inhibits : ℕ → Bool
has_only_known_inhibits inhibits = bit_and inhibits unknown_inhibits == 0

abbrev pub state_eq : OperationalState → OperationalState → Bool
state_eq booting booting = true
state_eq disarmed disarmed = true
state_eq armed armed = true
state_eq faulted faulted = true
state_eq maintenance maintenance = true
state_eq ota ota = true
state_eq _ _ = false

abbrev pub trip_inhibits_for_state : OperationalState → ℕ
trip_inhibits_for_state armed = arm_blockers
trip_inhibits_for_state maintenance = maintenance_trip_inhibits
trip_inhibits_for_state ota = ota_trip_inhibits
trip_inhibits_for_state _ = 0
