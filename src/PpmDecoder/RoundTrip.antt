-- ===== src/PpmDecoder/RoundTrip.antt =====
-- Frames that a transmitter sends and the PPM decoder receives, over whole sequences of edges.
use mathlib.Core.Path.{subst, subst₂}
use sistema_motriz_rs.Base.{
  append_nil, append_one, ℕ, ◌+◌, ◌≤◌, ◌≡◌, inl, inr, refl, sym, ◌∙◌, true, false, List, [], ◌∷◌,
  ◌++◌, arith, ltb, ◌==◌, if◌then◌else◌, u32, u32_max, sub_u32, All, Bool-cases,
}
use sistema_motriz_rs.PpmDecoder.Model.{
  Config, Decoder, feed_rising_edge, feed_interval, feed_gap, feed_pulse,
}
use sistema_motriz_rs.PpmDecoder.Frames.{Frames, in_range, is_gap, publishes, next_frames}
use sistema_motriz_rs.PpmDecoder.Refine.{Holds, feed_rising_edge-Holds}

-- An edge comes each pulse after the one before it, on the clock of 32 bits.
unfoldable pub feed_pulses : Decoder → List ℕ → Decoder
feed_pulses m [] = m
feed_pulses m (p ∷ ps) = feed_pulses (feed_rising_edge m (u32 (m.last_edge_us + p))).0 ps

-- The pulses that the decoder does not skip.
unfoldable pub kept : Config → List ℕ → List ℕ
kept c [] = []
kept c (p ∷ ps) = let rest = kept c ps in if in_range c p then p ∷ rest else rest

-- Ready for an edge, with the last one seen.
pub record Ready (m : Decoder) : Type 0 where
  pub is_initialized : m.initialized ≡ true
  pub seen : m.has_last_edge ≡ true
  pub clock : m.last_edge_us ≤ u32_max

record Same (m m' : Decoder) : Type 0 where
  initialized : m'.initialized ≡ m.initialized
  has_last_edge : m'.has_last_edge ≡ m.has_last_edge
  last_edge_us : m'.last_edge_us ≡ m.last_edge_us
  pub config : m'.config ≡ m.config

feed_gap-Same : (m : Decoder) (now_us : ℕ) → Same m (feed_gap m now_us).0
unfolding feed_gap
feed_gap-Same m now_us = elim (Bool-cases (m.working_channel_count == m.config.channel_count)) [
  | inl e ↦
      rw (e)
        (record { initialized = refl; has_last_edge = refl; last_edge_us = refl; config = refl })
  | inr e ↦ elim (Bool-cases (ltb 0 m.working_channel_count)) [
    | inl p ↦
        rw (e, p)
          (record { initialized = refl; has_last_edge = refl; last_edge_us = refl; config = refl })
    | inr p ↦
        rw (e, p)
          (record { initialized = refl; has_last_edge = refl; last_edge_us = refl; config = refl })
  ]
]

feed_pulse-Same : (m : Decoder) (pulse : ℕ) → Same m (feed_pulse m pulse)
unfolding feed_pulse
feed_pulse-Same m pulse = ground arith

feed_interval-Same : (m : Decoder) (pulse now_us : ℕ) → Same m (feed_interval m pulse now_us).0
unfolding feed_interval
feed_interval-Same m pulse now_us = elim (Bool-cases (is_gap m.config pulse)) [
  | inl g ↦ rw (g) (feed_gap-Same m now_us)
  | inr g ↦ rw (g) (feed_pulse-Same m pulse)
]

-- What an edge does to a decoder that has seen one.
pub record Edge (m : Decoder) (now_us : ℕ) (m' : Decoder) : Type 0 where
  pub ready : Ready m'
  pub config : m'.config ≡ m.config
  pub at : m'.last_edge_us ≡ now_us

pub feed_rising_edge-Edge :
    (m : Decoder) (now_us : ℕ)
    → now_us ≤ u32_max
    → Ready m
    → Edge m now_us (feed_rising_edge m now_us).0
unfolding feed_rising_edge
feed_rising_edge-Edge m now_us w r =
    let counted = record m {
      initialized = true;
      edges_seen = u32 (m.edges_seen + 1);
      has_last_edge = true;
      last_edge_us = now_us;
    } in
    let s = feed_interval-Same counted (sub_u32 now_us m.last_edge_us) now_us in
    rw (r.is_initialized, r.seen)
      (record {
        ready = record {
          is_initialized = s.initialized;
          seen = s.has_last_edge;
          clock = rw (s.last_edge_us) w;
        };
        config = s.config;
        at = s.last_edge_us;
      })

interval : (a p : ℕ) → a ≤ u32_max → p ≤ u32_max → sub_u32 (u32 (a + p)) a ≡ p
interval a p h h' = omega arith

-- The clock of 32 bits gives the pulse back.
pub edge_after :
    (c : Config) (m : Decoder) (f : Frames) (p : ℕ)
    → m.config ≡ c
    → Ready m
    → Holds m f
    → p ≤ u32_max
    → let r = feed_rising_edge m (u32 (m.last_edge_us + p)) in
      Holds r.0 (next_frames c f p) × (r.1 ≡ publishes c f p)
edge_after c m f p e r v h =
    let m' = feed_rising_edge m (u32 (m.last_edge_us + p)) in
    subst₂ (λ k q. Holds m'.0 (next_frames k f q) × (m'.1 ≡ publishes k f q)) e
      (interval m.last_edge_us p r.clock h)
      (feed_rising_edge-Holds m f (u32 (m.last_edge_us + p)) r.is_initialized r.seen v)

next_frames_pulse :
    (c : Config) (f : Frames) (p : ℕ) (ps : List ℕ)
    → is_gap c p ≡ false
    → ((next_frames c f p).captured ++ kept c ps ≡ f.captured ++ kept c (p ∷ ps))
      × ((next_frames c f p).published ≡ f.published)
unfolding next_frames kept
next_frames_pulse c f p ps g = elim (Bool-cases (in_range c p)) [
  | inl e ↦ rw (g, e) (append_one f.captured p (kept c ps), refl)
  | inr e ↦ rw (g, e) (refl, refl)
]

abbrev pub IsPulse : Config → ℕ → Type 0
IsPulse c p = (is_gap c p ≡ false) × (p ≤ u32_max)

abbrev pub Shows : Decoder → List ℕ → List ℕ → Type 0
Shows m captured published = Holds m (record { captured = captured; published = published })

-- A sequence of pulses without a gap.
pub record Received (c : Config) (f : Frames) (ps : List ℕ) (m' : Decoder) : Type 0 where
  pub ready : Ready m'
  pub config : m'.config ≡ c
  pub shows : Shows m' (f.captured ++ kept c ps) f.published

pub feed_pulses-Received :
    (c : Config) (ps : List ℕ) (m : Decoder) (f : Frames)
    → m.config ≡ c
    → Ready m
    → Holds m f
    → All (IsPulse c) ps
    → Received c f ps (feed_pulses m ps)
unfolding feed_pulses kept
feed_pulses-Received c [] m f e r v a = record {
  ready = r;
  config = e;
  shows = subst (λ xs. Shows m xs f.published) (sym (append_nil f.captured)) v;
}
feed_pulses-Received c (p ∷ ps) m f e r v a =
    let now_us = u32 (m.last_edge_us + p) in
    let g = feed_rising_edge-Edge m now_us (omega arith) r in
    let n = next_frames_pulse c f p ps a.0.0 in
    let rest =
      feed_pulses-Received c ps (feed_rising_edge m now_us).0 (next_frames c f p) (g.config ∙ e)
        g.ready (edge_after c m f p e r v a.0.1).0 a.1 in
    record {
      ready = rest.ready;
      config = rest.config;
      shows = subst₂ (Shows (feed_pulses m (p ∷ ps))) n.0 n.1 rest.shows;
    }
