-- ===== src/CommandAuthority/Names.antt =====
-- The names that components/command_authority/command_authority_model.c prints.
use Prim.Native.String.{String}
use sistema_motriz_rs.CommandAuthority.State.{
  Source, none_source, bluetooth, lan, rc, Outcome, ok, invalid_argument, invalid_config,
  not_initialized, invalid_source, stream_id_zero, stream_retired, stream_history_full,
  sequence_not_increasing, clock_regression, timestamp_in_future, timestamp_regression, ttl_invalid,
  expired_on_arrival, nonfinite_velocity, velocity_limit_exceeded, counter_exhausted_result,
  Decision, invalid, stop_output, apply, fault_stop, Reason, no_reason, no_fresh_source,
  source_switch, waiting_fresh_after_switch, selected_source_expired, selected_source_invalidated,
  command_applied, explicit_stop, clock_went_back, counters_exhausted, bad_argument, no_model,
}

abbrev pub source_name : Source → String
source_name none_source = "NONE"
source_name bluetooth = "BLUETOOTH"
source_name lan = "LAN"
source_name rc = "RC"

abbrev pub outcome_name : Outcome → String
outcome_name ok = "OK"
outcome_name invalid_argument = "INVALID_ARGUMENT"
outcome_name invalid_config = "INVALID_CONFIG"
outcome_name not_initialized = "NOT_INITIALIZED"
outcome_name invalid_source = "INVALID_SOURCE"
outcome_name stream_id_zero = "STREAM_ID_ZERO"
outcome_name stream_retired = "STREAM_RETIRED"
outcome_name stream_history_full = "STREAM_HISTORY_FULL"
outcome_name sequence_not_increasing = "SEQUENCE_NOT_INCREASING"
outcome_name clock_regression = "CLOCK_REGRESSION"
outcome_name timestamp_in_future = "TIMESTAMP_IN_FUTURE"
outcome_name timestamp_regression = "TIMESTAMP_REGRESSION"
outcome_name ttl_invalid = "TTL_INVALID"
outcome_name expired_on_arrival = "EXPIRED_ON_ARRIVAL"
outcome_name nonfinite_velocity = "NONFINITE_VELOCITY"
outcome_name velocity_limit_exceeded = "VELOCITY_LIMIT"
outcome_name counter_exhausted_result = "COUNTER_EXHAUSTED"

abbrev pub decision_name : Decision → String
decision_name invalid = "INVALID"
decision_name stop_output = "STOP"
decision_name apply = "APPLY"
decision_name fault_stop = "FAULT_STOP"

abbrev pub reason_name : Reason → String
reason_name no_reason = "NONE"
reason_name no_fresh_source = "NO_FRESH_SOURCE"
reason_name source_switch = "SOURCE_SWITCH"
reason_name waiting_fresh_after_switch = "WAITING_FRESH_AFTER_SWITCH"
reason_name selected_source_expired = "SELECTED_SOURCE_EXPIRED"
reason_name selected_source_invalidated = "SELECTED_SOURCE_INVALIDATED"
reason_name command_applied = "COMMAND_APPLIED"
reason_name explicit_stop = "EXPLICIT_STOP"
reason_name clock_went_back = "CLOCK_REGRESSION"
reason_name counters_exhausted = "COUNTER_EXHAUSTED"
reason_name bad_argument = "INVALID_ARGUMENT"
reason_name no_model = "NOT_INITIALIZED"
