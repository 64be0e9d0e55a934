-- ===== src/SerialGateway/Policy.antt =====
-- components/serial_gateway/serial_gateway_policy.c: which command lines are let through. `argv` is a
-- list of as many entries as `argc` says, `none` where an entry is NULL; a NULL `argv` is `none` of the
-- calls.
use Prim.Native.String.{String}
use sistema_motriz_rs.Base.{
  ℕ, ◌-◌, Bool, true, false, not, ◌&&◌, ◌||◌, List, [], ◌∷◌, Option, none, some, leb, ◌==◌,
  if◌then◌else◌, length, get_or,
}
use sistema_motriz_rs.SerialGateway.Text.{same_text}

unfoldable pub arg_is : Option String → String → Bool
arg_is none expected = false
arg_is (some value) expected = same_text value expected

-- The loop over a table of names; `is` is the comparison with the command.
unfoldable pub is_any : (String → Bool) → List String → Bool
is_any is [] = false
is_any is (n ∷ ns) = if is n then true else is_any is ns

abbrev pub argv_at : List (Option String) → ℕ → Option String
argv_at argv i = get_or argv i none

abbrev pub has_entry : Option String → Bool
has_entry none = false
has_entry (some value) = true

unfoldable pub no_arg_command_allowed : (String → Bool) → Bool
no_arg_command_allowed is = is_any is (
    "PING" ∷ "VERSION" ∷ "PROFILE_STATUS" ∷ "COMPOSITION_STATUS" ∷ "PLATFORM_STATUS"
    ∷ "SAFETY_STATUS" ∷ "CONTROL_STATUS" ∷ "CONFIG_STATUS" ∷ "WIFI_STATUS" ∷ "OTA_CONFIG"
    ∷ "OTA_ANNOUNCE_STATUS" ∷ "OTA_ROLLBACK_STATUS" ∷ "OTA_AUTO_STATUS" ∷ "IBUS_STATUS"
    ∷ "IBUS_CHANNELS" ∷ "POLL_ONCE" ∷ "MAINT_LAN_STATUS" ∷ "SVD48_INVENTORY" ∷ [])

-- The tests of the command's name and arguments, in their order.
unfoldable pub lan_allowed : (String → Bool) → ℕ → List (Option String) → Bool
lan_allowed is argc argv =
    if argc == 1 && no_arg_command_allowed is
    then true
    else if (is "GET_SPEED" || is "GET_MOTOR") && argc == 2
    then true
    else if is "STOP" && argc == 2
    then true
    else if is "SET_SPEED" && argc == 3
    then true
    else if is "GET_SVD48_CHANNEL_TELEMETRY" && argc == 3
    then true
    else if is "SVD48_BENCH_SET_SPEED" && argc == 4
    then true
    else if is "SVD48_BENCH_SET_SPEED_PAIR" && argc == 3
    then true
    else if (is "SVD48_BENCH_HOLD" || is "SVD48_BENCH_DISABLE" || is "SVD48_BENCH_STOP")
        && argc == 3
    then true
    else if is "SVD48_HALL_CALIBRATE" && argc == 4 && arg_is (argv_at argv 3) "CONFIRM"
    then true
    else if is "SVD48_HALL_DIAG"
        && ((argc == 2 && arg_is (argv_at argv 1) "STATUS")
            || (argc == 4
                && (arg_is (argv_at argv 1) "TRACE"
                    || arg_is (argv_at argv 1) "PREFLIGHT"
                    || arg_is (argv_at argv 1) "TIMELINE")))
    then true
    else if is "STOP_DIAG_ARM" && argc == 1
    then true
    else if is "STOP_DIAG"
        && ((argc == 2 && arg_is (argv_at argv 1) "STATUS")
            || (argc == 4
                && (arg_is (argv_at argv 1) "TRACE" || arg_is (argv_at argv 1) "OBSERVATIONS")))
    then true
    else if is "READ_REG" && (argc == 3 || argc == 4)
    then true
    else if is "SVD48_PROBE" && argc == 2
    then true
    else if is "GET_SVD48_CONFIG" && (argc == 2 || argc == 3)
    then true
    else if is "WRITE_REG" && argc == 5 && arg_is (argv_at argv 4) "CONFIRM"
    then true
    else if is "WRITE_REGS" && leb 5 argc && arg_is (argv_at argv (argc - 1)) "CONFIRM"
    then true
    else if is "SAVE_SVD48_CONFIG" && argc == 3 && arg_is (argv_at argv 2) "CONFIRM"
    then true
    else if is "SET_SVD48_GEAR_RATIO" && argc == 5 && arg_is (argv_at argv 4) "CONFIRM"
    then true
    else if is "SVD48_IDENTIFY_STATUS" && argc == 3
    then true
    else if is "SVD48_IDENTIFY" && argc == 5 && arg_is (argv_at argv 4) "CONFIRM"
    then true
    else false

unfoldable pub lan_command_allowed : Option (List (Option String)) → Bool
lan_command_allowed none = false
lan_command_allowed (some argv) =
    if length argv == 0 || not (has_entry (argv_at argv 0))
    then false
    else lan_allowed (arg_is (argv_at argv 0)) (length argv) argv

unfoldable pub diagnostic_command_allowed : Option (List (Option String)) → Bool
diagnostic_command_allowed none = false
diagnostic_command_allowed (some argv) =
    let argc = length argv in
    let name = argv_at argv 0 in
    if argc == 0 || not (has_entry name)
    then false
    else if argc == 1
        && is_any (arg_is name) (
            "PING" ∷ "VERSION" ∷ "HELP" ∷ "PLATFORM_STATUS" ∷ "CONFIG_STATUS" ∷ "WIFI_STATUS"
            ∷ "PROFILE_STATUS" ∷ "COMPOSITION_STATUS" ∷ [])
    then true
    else argc == 2 && arg_is name "STOP" && arg_is (argv_at argv 1) "ALL"
