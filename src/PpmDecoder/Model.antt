-- ===== src/PpmDecoder/Model.antt =====
-- components/ppm_decoder/ppm_decoder_model.c, with the data of its header. A pointer that the code
-- tests against NULL is an `Option`, or a flag for an output pointer.
use sistema_motriz_rs.Base.{
  ℕ, ◌+◌, Bool, true, false, not, ◌&&◌, ◌||◌, List, [], ◌∷◌, ◌++◌, Option, none, some, ltb, leb,
  ◌==◌, if◌then◌else◌, u8_max, u16, u32, u32_max, sub_u32, take, drop, set_elem,
}

abbrev pub ppm_max_channels : ℕ
ppm_max_channels = 14

pub record Config : Type 0 where
  pub channel_count : ℕ
  pub min_frame_channels : ℕ
  pub sync_threshold_us : ℕ
  pub min_pulse_us : ℕ
  pub max_pulse_us : ℕ

pub record Decoder : Type 0 where
  pub config : Config
  pub initialized : Bool
  pub has_last_edge : Bool
  pub last_edge_us : ℕ
  pub last_valid_frame_us : ℕ
  pub working_channels : List ℕ
  pub channels : List ℕ
  pub working_channel_count : ℕ
  pub published_channel_count : ℕ
  pub edges_seen : ℕ
  pub sync_gaps : ℕ
  pub valid_frames : ℕ
  pub incomplete_frames : ℕ
  pub invalid_pulses : ℕ
  pub overflow_pulses : ℕ
  pub rejected_frames : ℕ

pub record Status : Type 0 where
  pub last_frame_age_us : ℕ
  pub edges_seen : ℕ
  pub sync_gaps : ℕ
  pub valid_frames : ℕ
  pub incomplete_frames : ℕ
  pub invalid_pulses : ℕ
  pub overflow_pulses : ℕ
  pub rejected_frames : ℕ
  pub channel_count : ℕ
  pub channels : List ℕ

unfoldable pub config_valid : Config → Bool
config_valid c =
    not (c.channel_count == 0)
    && leb c.channel_count ppm_max_channels
    && c.min_frame_channels == c.channel_count
    && not (c.sync_threshold_us == 0)
    && not (c.min_pulse_us == 0)
    && leb c.min_pulse_us c.max_pulse_us
    && ltb c.max_pulse_us c.sync_threshold_us

-- An array of `PPM_MAX_CHANNELS` zeros.
abbrev pub no_channels : List ℕ
no_channels = 0 ∷ 0 ∷ 0 ∷ 0 ∷ 0 ∷ 0 ∷ 0 ∷ 0 ∷ 0 ∷ 0 ∷ 0 ∷ 0 ∷ 0 ∷ 0 ∷ []

-- What `memset` leaves, with the configuration.
abbrev pub started : Config → Decoder
started c = record {
  config = c;
  initialized = true;
  has_last_edge = false;
  last_edge_us = 0;
  last_valid_frame_us = 0;
  working_channels = no_channels;
  channels = no_channels;
  working_channel_count = 0;
  published_channel_count = 0;
  edges_seen = 0;
  sync_gaps = 0;
  valid_frames = 0;
  incomplete_frames = 0;
  invalid_pulses = 0;
  overflow_pulses = 0;
  rejected_frames = 0;
}

unfoldable pub init : Option Decoder → Option Config → Option Decoder × Bool
init none c = (none, false)
init (some m) none = (some m, false)
init (some m) (some c) = if config_valid c then (some (started c), true) else (some m, false)

-- The end of a frame.
unfoldable pub feed_gap : Decoder → ℕ → Decoder × Bool
feed_gap m now_us =
    let counted = record m { sync_gaps = u32 (m.sync_gaps + 1); working_channel_count = 0 } in
    if m.working_channel_count == m.config.channel_count
    then (
      record counted {
        channels =
            take m.config.channel_count m.working_channels
            ++ drop m.config.channel_count m.channels;
        published_channel_count = m.config.channel_count;
        last_valid_frame_us = now_us;
        valid_frames = u32 (m.valid_frames + 1);
      },
      true,
    )
    else if ltb 0 m.working_channel_count
    then (
      record counted {
        rejected_frames = u32 (m.rejected_frames + 1);
        incomplete_frames = u32 (m.incomplete_frames + 1);
      },
      false,
    )
    else (counted, false)

-- A pulse within a frame.
unfoldable pub feed_pulse : Decoder → ℕ → Decoder
feed_pulse m pulse_us =
    if ltb pulse_us m.config.min_pulse_us || ltb m.config.max_pulse_us pulse_us
    then record m { invalid_pulses = u32 (m.invalid_pulses + 1) }
    else if ltb m.working_channel_count m.config.channel_count
    then record m {
      working_channels = set_elem m.working_channels m.working_channel_count (u16 pulse_us);
      working_channel_count = m.working_channel_count + 1;
    }
    else record m {
      overflow_pulses = u32 (m.overflow_pulses + 1);
      working_channel_count =
          if ltb m.working_channel_count u8_max
          then m.working_channel_count + 1
          else m.working_channel_count;
    }

unfoldable pub feed_interval : Decoder → ℕ → ℕ → Decoder × Bool
feed_interval m pulse_us now_us =
    if leb m.config.sync_threshold_us pulse_us
    then feed_gap m now_us
    else (feed_pulse m pulse_us, false)

unfoldable pub feed_rising_edge : Decoder → ℕ → Decoder × Bool
feed_rising_edge m now_us =
    let counted = record m {
      edges_seen = u32 (m.edges_seen + 1);
      has_last_edge = true;
      last_edge_us = now_us;
    } in
    if not m.initialized
    then (m, false)
    else if not m.has_last_edge
    then (counted, false)
    else feed_interval counted (sub_u32 now_us m.last_edge_us) now_us

-- `none` for the result false; the flag tells whether a status is asked for.
unfoldable pub snapshot : Option Decoder → ℕ → Bool → Option Status
snapshot none now_us wanted = none
snapshot (some m) now_us wanted =
    if not m.initialized || not wanted
    then none
    else some (record {
      last_frame_age_us =
          if m.last_valid_frame_us == 0 then u32_max else sub_u32 now_us m.last_valid_frame_us;
      edges_seen = m.edges_seen;
      sync_gaps = m.sync_gaps;
      valid_frames = m.valid_frames;
      incomplete_frames = m.incomplete_frames;
      invalid_pulses = m.invalid_pulses;
      overflow_pulses = m.overflow_pulses;
      rejected_frames = m.rejected_frames;
      channel_count = m.published_channel_count;
      channels = m.channels;
    })
