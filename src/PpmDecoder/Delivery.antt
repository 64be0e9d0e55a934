-- ===== src/PpmDecoder/Delivery.antt =====
-- Which frames of a PPM signal reach the channels that the decoder publishes.
use mathlib.Core.Path.{subst}
use sistema_motriz_rs.Base.{
  ℕ, ◌≤◌, ◌≡◌, refl, Bool, true, List, [], ◌∷◌, ◌+◌, ap, ◌∙◌, ==_iff, arith, ◌==◌, if◌then◌else◌,
  u16_max, u32, u32_max, length, take, All,
}
use sistema_motriz_rs.PpmDecoder.Model.{Config, Decoder, config_valid, feed_rising_edge}
use sistema_motriz_rs.PpmDecoder.Frames.{Frames, in_range, is_gap, publishes, next_frames}
use sistema_motriz_rs.PpmDecoder.Refine.{Holds}
use sistema_motriz_rs.PpmDecoder.RoundTrip.{
  Ready, feed_pulses, kept, edge_after, IsPulse, Shows, feed_pulses-Received,
}

-- The pulses of a frame and the gap that ends it.
abbrev pub feed_frame : Decoder → List ℕ → ℕ → Decoder × Bool
feed_frame m ps gap =
    let sent = feed_pulses m ps in feed_rising_edge sent (u32 (sent.last_edge_us + gap))

abbrev pub is_whole : Config → List ℕ → Bool
is_whole c ps = length (kept c ps) == c.channel_count

gap_delivers :
    (c : Config) (captured shown : List ℕ) (gap : ℕ)
    → is_gap c gap ≡ true
    → let f : Frames = record { captured = captured; published = shown } in
      let whole = length captured == c.channel_count in
      (publishes c f gap ≡ whole)
      × (next_frames c f gap
          ≡ record { captured = []; published = if whole then captured else shown })
unfolding publishes next_frames
gap_delivers c captured shown gap g = rw (g) (refl, refl)

-- A frame is delivered exactly if as many of its pulses are in range as the configuration has
-- channels: the gap that ends it then reports a frame, and the published channels are those pulses
-- in order; otherwise they stay what they were. Pulses out of range do not count.
pub frame_delivered :
    (m : Decoder) (shown ps : List ℕ) (gap : ℕ)
    → Ready m
    → Shows m [] shown
    → All (IsPulse m.config) ps
    → is_gap m.config gap ≡ true
    → gap ≤ u32_max
    → let r = feed_frame m ps gap in
      (r.1 ≡ is_whole m.config ps)
      × Shows r.0 [] (if is_whole m.config ps then kept m.config ps else shown)
frame_delivered m shown ps gap r v a g w =
    let f : Frames = record { captured = []; published = shown } in
    let sent = feed_pulses-Received m.config ps m f refl r v a in
    let s =
      edge_after m.config (feed_pulses m ps)
        (record { captured = kept m.config ps; published = shown }) gap sent.config sent.ready
        sent.shows w in
    let d = gap_delivers m.config (kept m.config ps) shown gap g in
    (s.1 ∙ d.0, subst (Holds (feed_frame m ps gap).0) d.1 s.0)

kept-All : (c : Config) (ps : List ℕ) → All (λ p. in_range c p ≡ true) ps → kept c ps ≡ ps
unfolding kept
kept-All c [] a = refl
kept-All c (p ∷ ps) a = rw (a.0, kept-All c ps a.1) refl

in_range-IsPulse :
    (c : Config) (ps : List ℕ)
    → config_valid c ≡ true
    → c.max_pulse_us ≤ u16_max
    → All (λ p. in_range c p ≡ true) ps
    → All (IsPulse c) ps
unfolding config_valid
in_range-IsPulse c [] v w a = tt
in_range-IsPulse c (p ∷ ps) v w a = (ground (arith, v, w, a.0), in_range-IsPulse c ps v w a.1)

-- Round trip: a transmitter's frame of as many channels as the configuration has, each in range,
-- with a gap behind it, comes out as the published channels, whatever stood there before.
pub frame_roundtrip :
    (m : Decoder) (shown ps : List ℕ) (gap : ℕ)
    → Ready m
    → Shows m [] shown
    → All (λ p. in_range m.config p ≡ true) ps
    → length ps ≡ m.config.channel_count
    → is_gap m.config gap ≡ true
    → gap ≤ u32_max
    → let r = feed_frame m ps gap in
      (r.1 ≡ true) × (take r.0.published_channel_count r.0.channels ≡ ps)
frame_roundtrip m shown ps gap r v a l g w =
    let d =
      frame_delivered m shown ps gap r v (in_range-IsPulse m.config ps v.valid v.word a) g w in
    let k = kept-All m.config ps a in
    let whole =
      ap (λ xs. length xs == m.config.channel_count) k
      ∙ (==_iff (length ps) m.config.channel_count).1 l in
    (d.0 ∙ whole, d.1.published ∙ ap (λ b. if b then kept m.config ps else shown) whole ∙ k)
