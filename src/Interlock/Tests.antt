-- ===== src/Interlock/Tests.antt =====
-- A takeover by the receiver, and the theorems at concrete inputs.
use sistema_motriz_rs.Base.{ℕ, ◌≡◌, refl, true, false, List, [], ◌∷◌, some, arith}
use sistema_motriz_rs.Interlock.Model.{
  no_signal, ppm_priority, Config, Observation, Interlock, config_valid, init, zeroed,
  signal_absent, channel_absent, channel_pulse, next_state, is_valid_new_frame, confirm, transition,
  authority_state, allows_lan, observe, update,
}
use sistema_motriz_rs.Interlock.Confirm.{IsSound, init-IsSound}
use sistema_motriz_rs.Interlock.Takeover.{run, new_frames, run_unconfirmed, run_takeover}

computes : Unit {0}
unfolding config_valid init signal_absent channel_absent channel_pulse next_state is_valid_new_frame
    confirm transition observe update run new_frames
computes = tt

-- Channel 2 decides, and two frames confirm.
abbrev settings : Config
settings = record {
  enabled = true;
  channel = 2;
  active_max_us = 1500;
  transition_confirm_good_frames = 2;
}

abbrev started : Interlock
started = record (zeroed settings) {
  state = no_signal;
  committed_state = no_signal;
  initialized = true;
}

abbrev frame : ℕ → ℕ → Observation
frame sequence pulse = record {
  receiver_available = true;
  signal_valid = true;
  valid_frame_sequence = sequence;
  channel_count = 2;
  channels = some (1500 ∷ pulse ∷ []);
}

started-IsSound : IsSound started
unfolding computes
started-IsSound = init-IsSound started settings refl (omega arith) refl

abbrev claims : List Observation
claims = frame 1 1100 ∷ frame 2 1100 ∷ []

abbrev silence : Observation
silence = record (frame 3 1100) { signal_valid = false }

-- The same frame, read three times.
abbrev repeated : List Observation
repeated = frame 1 1100 ∷ frame 1 1100 ∷ frame 1 1100 ∷ []

run_unconfirmed_example :
    ((run started repeated).committed_state ≡ no_signal)
    × ((run started repeated).priority_epoch ≡ 0)
unfolding computes
run_unconfirmed_example = run_unconfirmed repeated started started-IsSound (omega arith)

run_takeover_example :
    let m' = run started claims in
    (m'.committed_state ≡ ppm_priority)
    × (m'.priority_epoch ≡ 1)
    × (allows_lan (authority_state m') ≡ false)
unfolding computes
run_takeover_example =
    run_takeover claims started started-IsSound (λ e. cc) refl refl ((refl, refl, (refl, refl, tt)))
