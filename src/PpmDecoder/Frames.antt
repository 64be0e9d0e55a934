-- ===== src/PpmDecoder/Frames.antt =====
-- The PPM decoder of components/ppm_decoder without arrays and counters: the pulses in range since the
-- last gap, and the frame that stands published. Below that, what its header promises of whole frames.
use sistema_motriz_rs.Base.{
  ℕ, Bool, true, ◌&&◌, List, [], ◌∷◌, ◌++◌, leb, ◌==◌, if◌then◌else◌, length,
}
use sistema_motriz_rs.PpmDecoder.Model.{Config}

pub record Frames : Type 0 where
  pub captured : List ℕ
  pub published : List ℕ

abbrev pub in_range : Config → ℕ → Bool
in_range c pulse = leb c.min_pulse_us pulse && leb pulse c.max_pulse_us

abbrev pub is_gap : Config → ℕ → Bool
is_gap c pulse = leb c.sync_threshold_us pulse

-- A gap publishes what was captured if that is one whole frame.
unfoldable pub publishes : Config → Frames → ℕ → Bool
publishes c f pulse = is_gap c pulse && length f.captured == c.channel_count

unfoldable pub next_frames : Config → Frames → ℕ → Frames
next_frames c f pulse =
    if is_gap c pulse
    then record {
      captured = [];
      published = if length f.captured == c.channel_count then f.captured else f.published;
    }
    else if in_range c pulse
    then record f { captured = f.captured ++ (pulse ∷ []) }
    else f

-- What the header and the documents promise: all pulses since the last gap, and the frame shown.
pub record Heard : Type 0 where
  pub heard : List ℕ
  pub shown : List ℕ

abbrev pub all_in_range : Config → List ℕ → Bool
all_in_range c [] = true
all_in_range c (p ∷ ps) = in_range c p && all_in_range c ps

-- A frame has exactly the configured number of pulses, and each is in range.
abbrev pub whole_frame : Config → List ℕ → Bool
whole_frame c pulses = length pulses == c.channel_count && all_in_range c pulses

unfoldable pub next_heard : Config → Heard → ℕ → Heard
next_heard c h pulse =
    if is_gap c pulse
    then record { heard = []; shown = if whole_frame c h.heard then h.heard else h.shown }
    else record h { heard = h.heard ++ (pulse ∷ []) }
