-- ===== src/PpmDecoder/Refine.antt =====
-- The decoder implements the specification of frames, edge by edge.
use sistema_motriz_rs.Base.{
  ℕ, ◌+◌, ◌≤◌, ◌≡◌, inl, inr, refl, sym, true, false, List, [], ◌∷◌, ◌++◌, some, arith, ltb, ◌==◌,
  if◌then◌else◌, u16, u16_max, u32, sub_u32, length, take, drop, length-append, length-set_elem,
  take-set_elem, take-append, take-zero, ==_iff, Bool-cases,
}
use sistema_motriz_rs.PpmDecoder.Model.{
  Config, Decoder, config_valid, init, feed_gap, feed_pulse, feed_interval, feed_rising_edge,
  ppm_max_channels,
}
use sistema_motriz_rs.PpmDecoder.Frames.{Frames, is_gap, publishes, next_frames}

-- The decoder holds the frames of the specification.
pub record Holds (m : Decoder) (f : Frames) : Type 0 where
  pub valid : config_valid m.config ≡ true
  pub word : m.config.max_pulse_us ≤ u16_max
  pub room : length m.working_channels ≡ ppm_max_channels
  pub count :
      m.working_channel_count ≡ (if ltb (length f.captured) 255 then length f.captured else 255)
  pub working :
      length f.captured ≤ m.config.channel_count
      → take (length f.captured) m.working_channels ≡ f.captured
  pub published : take m.published_channel_count m.channels ≡ f.published

count_whole :
    (m : Decoder) (f : Frames)
    → Holds m f
    → (m.working_channel_count == m.config.channel_count)
      ≡ (length f.captured == m.config.channel_count)
unfolding config_valid
count_whole m f v = ground (arith, v.valid, v.count)

take_whole :
    (m : Decoder) (f : Frames)
    → Holds m f
    → length f.captured ≡ m.config.channel_count
    → take m.config.channel_count
        (take m.config.channel_count m.working_channels ++ drop m.config.channel_count m.channels)
      ≡ f.captured
take_whole m f v e =
    rw (sym e, v.working (omega (arith, e)))
      (take-append f.captured (drop (length f.captured) m.channels))

shows_nothing :
    (m : Decoder) (shown : List ℕ)
    → config_valid m.config ≡ true
    → m.config.max_pulse_us ≤ u16_max
    → length m.working_channels ≡ ppm_max_channels
    → m.working_channel_count ≡ 0
    → take m.published_channel_count m.channels ≡ shown
    → Holds m (record { captured = []; published = shown })
shows_nothing m shown v w r c p = record {
  valid = v;
  word = w;
  room = r;
  count = c;
  working = λ _. take-zero m.working_channels;
  published = p;
}

feed_gap-Holds :
    (m : Decoder) (f : Frames) (pulse now_us : ℕ)
    → Holds m f
    → is_gap m.config pulse ≡ true
    → Holds (feed_gap m now_us).0 (next_frames m.config f pulse)
unfolding feed_gap next_frames
feed_gap-Holds m f pulse now_us v g =
    elim (Bool-cases (length f.captured == m.config.channel_count)) [
      | inl e ↦
          rw (g, count_whole m f v, e)
            (shows_nothing _ f.captured v.valid v.word v.room refl
              (take_whole m f v ((==_iff (length f.captured) m.config.channel_count).0 e)))
      | inr e ↦ elim (Bool-cases (ltb 0 m.working_channel_count)) [
        | inl p ↦
            rw (g, count_whole m f v, e, p)
              (shows_nothing _ f.published v.valid v.word v.room refl v.published)
        | inr p ↦
            rw (g, count_whole m f v, e, p)
              (shows_nothing _ f.published v.valid v.word v.room refl v.published)
      ]
    ]

feed_pulse-Holds :
    (m : Decoder) (f : Frames) (pulse : ℕ)
    → Holds m f
    → is_gap m.config pulse ≡ false
    → Holds (feed_pulse m pulse) (next_frames m.config f pulse)
unfolding feed_pulse next_frames config_valid
feed_pulse-Holds m f pulse v g = ground (
  arith,
  length-append f.captured (pulse ∷ []),
  length-set_elem m.working_channels m.working_channel_count (u16 pulse),
  take-set_elem m.working_channels (length f.captured) pulse,
)

feed_interval-Holds :
    (m : Decoder) (f : Frames) (pulse now_us : ℕ)
    → Holds m f
    → let r = feed_interval m pulse now_us in
      Holds r.0 (next_frames m.config f pulse) × (r.1 ≡ publishes m.config f pulse)
unfolding feed_interval publishes feed_gap
feed_interval-Holds m f pulse now_us v = elim (Bool-cases (is_gap m.config pulse)) [
  | inl g ↦ rw (g) (feed_gap-Holds m f pulse now_us v g, ground (arith, count_whole m f v))
  | inr g ↦ rw (g) (feed_pulse-Holds m f pulse v g, refl)
]

-- Each edge after the first refines one step of the specification: the decoder goes on to hold the
-- frames, and reports a frame exactly when the specification publishes one.
pub feed_rising_edge-Holds :
    (m : Decoder) (f : Frames) (now_us : ℕ)
    → m.initialized ≡ true
    → m.has_last_edge ≡ true
    → Holds m f
    → let pulse = sub_u32 now_us m.last_edge_us in
      let r = feed_rising_edge m now_us in
      Holds r.0 (next_frames m.config f pulse) × (r.1 ≡ publishes m.config f pulse)
unfolding feed_rising_edge
feed_rising_edge-Holds m f now_us i e v =
    rw (i, e)
      (feed_interval-Holds
        (record m {
          initialized = true;
          edges_seen = u32 (m.edges_seen + 1);
          has_last_edge = true;
          last_edge_us = now_us;
        })
        f (sub_u32 now_us m.last_edge_us) now_us (ground arith))

-- A decoder that starts holds no pulse and no frame.
pub init-Holds :
    (m : Decoder) (c : Config) {m' : Decoder}
    → c.max_pulse_us ≤ u16_max
    → init (some m) (some c) ≡ (some m', true)
    → Holds m' (record { captured = []; published = [] })
unfolding init
init-Holds m c w h = ground arith
