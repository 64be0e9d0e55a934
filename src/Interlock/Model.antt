-- ===== src/Interlock/Model.antt =====
-- components/robot_safety/robot_safety_rc_lan_interlock_model.c, with the data of its header. A
-- pointer that the code tests against NULL is an `Option`, or a flag for an output pointer.
use Prim.Native.String.{String}
use sistema_motriz_rs.Base.{
  ℕ, ◌+◌, ◌-◌, Bool, true, false, not, ◌&&◌, ◌||◌, List, Option, none, some, ltb, leb, ◌==◌,
  if◌then◌else◌, u32, get_or,
}

pub data State : Type 0 where
  disabled no_signal failsafe ppm_priority ppm_lost channel_unavailable : State
  ppm_priority_candidate failsafe_candidate : State

pub record Config : Type 0 where
  pub enabled : Bool
  pub channel : ℕ
  pub active_max_us : ℕ
  pub transition_confirm_good_frames : ℕ

-- `channels` points to `channel_count` pulses.
pub record Observation : Type 0 where
  pub receiver_available : Bool
  pub signal_valid : Bool
  pub valid_frame_sequence : ℕ
  pub channel_count : ℕ
  pub channels : Option (List ℕ)

pub record Interlock : Type 0 where
  pub config : Config
  pub state : State
  pub committed_state : State
  pub candidate_state : State
  pub candidate_valid_frames : ℕ
  pub last_observed_frame_sequence : ℕ
  pub priority_epoch : ℕ
  pub initialized : Bool

pub record Snapshot : Type 0 where
  pub state : State
  pub lan_allowed : Bool
  pub channel_us : ℕ
  pub priority_epoch : ℕ
  pub candidate_valid_frames : ℕ
  pub transition_confirm_good_frames : ℕ
  pub detail : String

unfoldable pub config_valid : Config → Bool
config_valid c = not c.enabled || (ltb 0 c.channel && leb c.channel 14 && ltb 0 c.active_max_us)

abbrev pub state_name : State → String
state_name disabled = "DISABLED"
state_name no_signal = "RC_NO_SIGNAL"
state_name failsafe = "RC_FAILSAFE"
state_name ppm_priority = "PPM_PRIORITY"
state_name ppm_lost = "PPM_LOST"
state_name channel_unavailable = "RC_CHANNEL_UNAVAILABLE"
state_name ppm_priority_candidate = "PPM_PRIORITY_CANDIDATE"
state_name failsafe_candidate = "RC_FAILSAFE_CANDIDATE"

abbrev pub state_eq : State → State → Bool
state_eq disabled disabled = true
state_eq no_signal no_signal = true
state_eq failsafe failsafe = true
state_eq ppm_priority ppm_priority = true
state_eq ppm_lost ppm_lost = true
state_eq channel_unavailable channel_unavailable = true
state_eq ppm_priority_candidate ppm_priority_candidate = true
state_eq failsafe_candidate failsafe_candidate = true
state_eq _ _ = false

-- What `memset` leaves; `disabled` is 0.
abbrev pub zeroed : Config → Interlock
zeroed c = record {
  config = c;
  state = disabled;
  committed_state = disabled;
  candidate_state = disabled;
  candidate_valid_frames = 0;
  last_observed_frame_sequence = 0;
  priority_epoch = 0;
  initialized = false;
}

unfoldable pub init : Option Interlock → Option Config → Option Interlock × Bool
init none c = (none, false)
init (some m) none = (some m, false)
init (some m) (some c) =
    let s = if c.enabled then no_signal else disabled in
    if not (config_valid c)
    then (some m, false)
    else if c.enabled && c.transition_confirm_good_frames == 0
    then (some (zeroed c), false)
    else (some (record (zeroed c) { state = s; committed_state = s; initialized = true }), true)

-- `observation->channels[config.channel - 1U]`
abbrev pub pulse_of : Option (List ℕ) → ℕ → ℕ
pulse_of none channel = 0
pulse_of (some pulses) channel = get_or pulses (channel - 1) 0

abbrev pub is_null : Option (List ℕ) → Bool
is_null none = true
is_null (some _) = false

-- No channel to read: the signal is absent, or the receiver has too few channels.
unfoldable pub signal_absent : Observation → Bool
signal_absent o = not o.receiver_available || not o.signal_valid

unfoldable pub channel_absent : Interlock → Observation → Bool
channel_absent m o = is_null o.channels || ltb o.channel_count m.config.channel

unfoldable pub channel_pulse : Interlock → Observation → ℕ
channel_pulse m o =
    if not m.config.enabled || signal_absent o || channel_absent m o
    then 0
    else pulse_of o.channels m.config.channel

-- The state that the observation alone asks for.
unfoldable pub next_state : Interlock → Observation → State
next_state m o =
    if not m.config.enabled
    then disabled
    else if signal_absent o
    then (if ltb 0 m.priority_epoch then ppm_lost else no_signal)
    else if channel_absent m o
    then channel_unavailable
    else if leb (pulse_of o.channels m.config.channel) m.config.active_max_us
    then ppm_priority
    else failsafe

unfoldable pub is_valid_new_frame : Interlock → Observation → Bool
is_valid_new_frame m o =
    o.signal_valid
    && not (o.valid_frame_sequence == 0)
    && not (o.valid_frame_sequence == m.last_observed_frame_sequence)

abbrev pub is_absence : State → Bool
is_absence no_signal = true
is_absence ppm_lost = true
is_absence channel_unavailable = true
is_absence _ = false

-- A new frame asks for another state than the committed one.
unfoldable pub confirm : Interlock → State → Interlock
confirm m next =
    let frames =
      if state_eq m.candidate_state next then u32 (m.candidate_valid_frames + 1) else 1 in
    if leb m.config.transition_confirm_good_frames frames
    then record m {
      candidate_state = next;
      candidate_valid_frames = 0;
      priority_epoch =
          if state_eq next ppm_priority && not (state_eq m.committed_state ppm_priority)
          then u32 (m.priority_epoch + 1)
          else m.priority_epoch;
      committed_state = next;
      state = next;
    }
    else record m {
      candidate_state = next;
      candidate_valid_frames = frames;
      state = if state_eq next ppm_priority then ppm_priority_candidate else failsafe_candidate;
    }

-- The branches of the update, on the state that the observation asks for.
unfoldable pub transition : Interlock → State → Bool → Interlock
transition m next is_new =
    if not m.config.enabled
    then record m {
      committed_state = next;
      candidate_state = next;
      candidate_valid_frames = 0;
      state = next;
    }
    else if is_absence next
    then record m { candidate_valid_frames = 0; candidate_state = m.committed_state; state = next }
    else if state_eq next m.committed_state
    then record m { candidate_valid_frames = 0; candidate_state = next; state = next }
    else if is_new
    then confirm m next
    else if m.candidate_valid_frames == 0
    then record m { state = m.committed_state }
    else m

-- The state that decides: a candidate has not changed anything yet.
abbrev pub authority_state : Interlock → State
authority_state m =
    if state_eq m.state ppm_priority_candidate || state_eq m.state failsafe_candidate
    then m.committed_state
    else m.state

abbrev pub allows_lan : State → Bool
allows_lan disabled = true
allows_lan no_signal = true
allows_lan failsafe = true
allows_lan ppm_lost = true
allows_lan _ = false

unfoldable pub observe : Interlock → Observation → Interlock
observe m o =
    let is_new = is_valid_new_frame m o in
    transition
      (record m {
        last_observed_frame_sequence =
            if is_new then o.valid_frame_sequence else m.last_observed_frame_sequence;
      })
      (next_state m o) is_new

abbrev pub snapshot_of : Interlock → ℕ → Snapshot
snapshot_of m channel_us = record {
  state = m.state;
  lan_allowed = allows_lan (authority_state m);
  channel_us = channel_us;
  priority_epoch = m.priority_epoch;
  candidate_valid_frames = m.candidate_valid_frames;
  transition_confirm_good_frames = m.config.transition_confirm_good_frames;
  detail = state_name m.state;
}

-- `none` for the result false; the flag tells whether a snapshot is asked for.
unfoldable pub update :
    Option Interlock → Option Observation → Bool → Option Interlock × Option Snapshot
update none o wanted = (none, none)
update (some m) none wanted = (some m, none)
update (some m) (some o) wanted =
    if not m.initialized || not wanted
    then (some m, none)
    else let m' = observe m o in (some m', some (snapshot_of m' (channel_pulse m o)))
