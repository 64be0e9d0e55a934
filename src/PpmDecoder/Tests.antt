-- ===== src/PpmDecoder/Tests.antt =====
-- A PPM signal of three channels, and the theorems at concrete inputs.
use sistema_motriz_rs.Base.{
  ℕ, ◌≤◌, ◌≡◌, refl, true, false, List, [], ◌∷◌, arith, u32_max, All, take,
}
use sistema_motriz_rs.PpmDecoder.Model.{
  Config, Decoder, config_valid, started, init, feed_gap, feed_pulse, feed_interval,
  feed_rising_edge, snapshot,
}
use sistema_motriz_rs.PpmDecoder.Frames.{publishes, next_frames, next_heard}
use sistema_motriz_rs.PpmDecoder.Refine.{Holds, init-Holds}
use sistema_motriz_rs.PpmDecoder.RoundTrip.{Ready, feed_pulses, kept, Shows}
use sistema_motriz_rs.PpmDecoder.Delivery.{feed_frame, frame_roundtrip}
use sistema_motriz_rs.PpmDecoder.Runs.{feed_edges, frames_of, heard_of, Clear, feed_edges_refines}

computes : Unit {0}
unfolding config_valid init feed_gap feed_pulse feed_interval feed_rising_edge snapshot publishes
    next_frames feed_pulses kept feed_edges frames_of next_heard heard_of
computes = tt

abbrev receiver : Config
receiver = record {
  channel_count = 3;
  min_frame_channels = 3;
  sync_threshold_us = 3000;
  min_pulse_us = 750;
  max_pulse_us = 2250;
}

abbrev synced : Decoder
synced = record (started receiver) { has_last_edge = true; last_edge_us = 500; edges_seen = 1 }

synced-Ready : Ready synced
synced-Ready = record { is_initialized = refl; seen = refl; clock = omega arith }

synced-Holds : Shows synced [] []
unfolding computes
synced-Holds = record {
  valid = refl;
  word = omega arith;
  room = refl;
  count = refl;
  working = λ _. refl;
  published = refl;
}

abbrev sticks : List ℕ
sticks = 1000 ∷ 1500 ∷ 2000 ∷ []

-- One edge too many splits the second pulse; its shorter part is out of range.
abbrev split : List ℕ
split = 1000 ∷ 300 ∷ 1200 ∷ 2000 ∷ []

split_published : (feed_frame synced split 4000).1 ≡ true
unfolding computes
split_published = refl

short_kept : (feed_frame synced (1000 ∷ 1500 ∷ []) 4000).1 ≡ false
unfolding computes
short_kept = refl

init-Holds_example : Holds (started receiver) (record { captured = []; published = [] })
unfolding computes
init-Holds_example = init-Holds synced receiver (omega arith) refl

frame_roundtrip_example :
    ((feed_frame synced sticks 4000).1 ≡ true)
    × (take
          (feed_frame synced sticks 4000).0.published_channel_count
          (feed_frame synced sticks 4000).0.channels
        ≡ sticks)
unfolding computes
frame_roundtrip_example =
    frame_roundtrip synced [] sticks 4000 synced-Ready synced-Holds (refl, (refl, (refl, tt))) refl
      refl (omega arith)

-- A whole frame, one with a pulse of 300 in place of the second, and one with a pulse too many.
abbrev edges : List ℕ
edges =
    5000 ∷ 6000 ∷ 7500 ∷ 9500 ∷ 13500 ∷ 14500 ∷ 14800 ∷ 16800 ∷ 20800 ∷ 21800 ∷ 22800 ∷ 23800
    ∷ 24800 ∷ 28800 ∷ []

edges_word : All (λ t. t ≤ u32_max) (1000 ∷ edges)
edges_word = ground arith

edges-Clear : Clear receiver 1000 (record { heard = []; shown = [] }) edges
unfolding computes
edges-Clear = ground arith

feed_edges_refines_example :
    take
      (feed_edges (started receiver) (1000 ∷ edges)).published_channel_count
      (feed_edges (started receiver) (1000 ∷ edges)).channels
    ≡ sticks
unfolding computes
feed_edges_refines_example =
    feed_edges_refines synced receiver 1000 edges (omega arith) refl edges_word edges-Clear
