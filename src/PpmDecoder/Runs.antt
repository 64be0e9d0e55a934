-- ===== src/PpmDecoder/Runs.antt =====
-- The decoder of components/ppm_decoder against the frames that its header promises, over any sequence
-- of edges from the start on.
use mathlib.Core.Path.{subst}
use sistema_motriz_rs.Base.{
  ℕ, ◌≤◌, ◌≡◌, refl, sym, ◌∙◌, true, false, List, [], ◌∷◌, some, arith, u16_max, u32_max, sub_u32,
  All, take, u32, ◌+◌, ◌++◌, ap, length, Bool-cases, inl, inr, if◌then◌else◌, ◌==◌, append_nil,
}
use sistema_motriz_rs.PpmDecoder.Model.{Config, Decoder, init, feed_rising_edge}
use sistema_motriz_rs.PpmDecoder.Frames.{
  Frames, next_frames, is_gap, in_range, Heard, all_in_range, whole_frame, next_heard,
}
use sistema_motriz_rs.PpmDecoder.Refine.{Holds, init-Holds, feed_rising_edge-Holds}
use sistema_motriz_rs.PpmDecoder.RoundTrip.{Ready, kept, feed_rising_edge-Edge}

unfoldable pub feed_edges : Decoder → List ℕ → Decoder
feed_edges m [] = m
feed_edges m (t ∷ ts) = feed_edges (feed_rising_edge m t).0 ts

-- The specification, on the times between edges of the clock of 32 bits.
unfoldable pub frames_of : Config → ℕ → Frames → List ℕ → Frames
frames_of c last f [] = f
frames_of c last f (t ∷ ts) = frames_of c t (next_frames c f (sub_u32 t last)) ts

feed_edges-Holds :
    (c : Config) (ts : List ℕ) (m : Decoder) (f : Frames)
    → m.config ≡ c
    → Ready m
    → Holds m f
    → All (λ t. t ≤ u32_max) ts
    → Holds (feed_edges m ts) (frames_of c m.last_edge_us f ts)
unfolding feed_edges frames_of
feed_edges-Holds c [] m f e r v a = v
feed_edges-Holds c (t ∷ ts) m f e r v a =
    let m' = (feed_rising_edge m t).0 in
    let g = feed_rising_edge-Edge m t a.0 r in
    let f' = next_frames c f (sub_u32 t m.last_edge_us) in
    let h =
      subst (λ k. Holds m' (next_frames k f (sub_u32 t m.last_edge_us))) e
        (feed_rising_edge-Holds m f t r.is_initialized r.seen v).0 in
    subst (λ last. Holds (feed_edges m' ts) (frames_of c last f' ts)) g.at
      (feed_edges-Holds c ts m' f' (g.config ∙ e) g.ready h a.1)

init_fresh :
    (m : Decoder) (c : Config) {m' : Decoder}
    → c.max_pulse_us ≤ u16_max
    → init (some m) (some c) ≡ (some m', true)
    → (m'.initialized ≡ true) × (m'.has_last_edge ≡ false) × (m'.config ≡ c)
unfolding init
init_fresh m c w h = ground arith

feed_edges-Frames :
    (m : Decoder) (c : Config) (t : ℕ) (ts : List ℕ) {m' : Decoder}
    → c.max_pulse_us ≤ u16_max
    → init (some m) (some c) ≡ (some m', true)
    → All (λ u. u ≤ u32_max) (t ∷ ts)
    → let s = feed_edges m' (t ∷ ts) in
      take s.published_channel_count s.channels
      ≡ (frames_of c t (record { captured = []; published = [] }) ts).published
unfolding feed_edges feed_rising_edge
feed_edges-Frames m c t ts {m' = m'} w h a =
    let i = init_fresh m c w h in
    let v = init-Holds m c w h in
    rw (i.0, i.1)
      (feed_edges-Holds c ts
        (record m' {
          initialized = true;
          edges_seen = u32 (m'.edges_seen + 1);
          has_last_edge = true;
          last_edge_us = t;
        })
        (record { captured = []; published = [] }) i.2
        (record { is_initialized = refl; seen = refl; clock = a.0 })
        (record {
          valid = v.valid;
          word = v.word;
          room = v.room;
          count = v.count;
          working = v.working;
          published = v.published;
        })
        a.1).published

-- The promise, on the times between edges of the clock of 32 bits.
unfoldable pub heard_of : Config → ℕ → Heard → List ℕ → Heard
heard_of c last h [] = h
heard_of c last h (t ∷ ts) = heard_of c t (next_heard c h (sub_u32 t last)) ts

-- No frame has a pulse out of range besides exactly the configured number in range.
abbrev pub Clear : Config → ℕ → Heard → List ℕ → Type 0
Clear c last h [] = Unit
Clear c last h (t ∷ ts) =
    (is_gap c (sub_u32 t last) ≡ true
      → length (kept c h.heard) ≡ c.channel_count
      → all_in_range c h.heard ≡ true)
    × Clear c t (next_heard c h (sub_u32 t last)) ts

kept-append :
    (c : Config) (ps : List ℕ) (p : ℕ) → kept c (ps ++ (p ∷ [])) ≡ kept c ps ++ kept c (p ∷ [])
unfolding kept
kept-append c [] p = refl
kept-append c (q ∷ ps) p = elim (Bool-cases (in_range c q)) [
  | inl h ↦ rw h (ap (λ l. q ∷ l) (kept-append c ps p))
  | inr h ↦ rw h (kept-append c ps p)
]

kept-append_in :
    (c : Config) (ps : List ℕ) (p : ℕ)
    → in_range c p ≡ true
    → kept c (ps ++ (p ∷ [])) ≡ kept c ps ++ (p ∷ [])
unfolding kept
kept-append_in c ps p r = kept-append c ps p ∙ rw r refl

kept-append_out :
    (c : Config) (ps : List ℕ) (p : ℕ) → in_range c p ≡ false → kept c (ps ++ (p ∷ [])) ≡ kept c ps
unfolding kept
kept-append_out c ps p r = kept-append c ps p ∙ rw r (append_nil (kept c ps))

kept-all : (c : Config) (ps : List ℕ) → all_in_range c ps ≡ true → kept c ps ≡ ps
unfolding kept
kept-all c [] h = refl
kept-all c (p ∷ ps) h = ground (arith, h, kept-all c ps)

record Agrees (c : Config) (f : Frames) (h : Heard) : Type 0 where
  same : f.captured ≡ kept c h.heard
  shown : f.published ≡ h.shown

gap-shows :
    (c : Config) (f : Frames) (h : Heard)
    → Agrees c f h
    → (length (kept c h.heard) ≡ c.channel_count → all_in_range c h.heard ≡ true)
    → (if length f.captured == c.channel_count then f.captured else f.published)
      ≡ (if whole_frame c h.heard then h.heard else h.shown)
gap-shows c f h a k = ground (arith, a.same, a.shown, k, kept-all c h.heard)

next-Agrees :
    (c : Config) (f : Frames) (h : Heard) (pulse : ℕ)
    → Agrees c f h
    → (is_gap c pulse ≡ true
        → length (kept c h.heard) ≡ c.channel_count
        → all_in_range c h.heard ≡ true)
    → Agrees c (next_frames c f pulse) (next_heard c h pulse)
unfolding next_frames next_heard kept
next-Agrees c f h pulse a k = elim (Bool-cases (is_gap c pulse)) [
  | inl g ↦ rw g (record { same = refl; shown = gap-shows c f h a (k g) })
  | inr g ↦ elim (Bool-cases (in_range c pulse)) [
    | inl r ↦
        rw (g, r)
          (record {
            same = ap (λ l. l ++ (pulse ∷ [])) a.same ∙ sym (kept-append_in c h.heard pulse r);
            shown = a.shown;
          })
    | inr r ↦
        rw (g, r)
          (record { same = a.same ∙ sym (kept-append_out c h.heard pulse r); shown = a.shown })
  ]
]

frames_of-Agrees :
    (c : Config) (last : ℕ) (f : Frames) (h : Heard) (ts : List ℕ)
    → Agrees c f h
    → Clear c last h ts
    → Agrees c (frames_of c last f ts) (heard_of c last h ts)
unfolding frames_of heard_of
frames_of-Agrees c last f h [] a k = a
frames_of-Agrees c last f h (t ∷ ts) a k =
    let pulse = sub_u32 t last in
    frames_of-Agrees c t (next_frames c f pulse) (next_heard c h pulse) ts
      (next-Agrees c f h pulse a k.0) k.1

-- Refinement: after any edges, from the start on, the published channels are the last frame, between
-- two gaps, of exactly the configured number of pulses, each of them in range: short and extended
-- frames, and frames with a pulse out of range, change nothing. This supposes of the times between
-- the edges that no frame has a pulse out of range besides exactly the configured number in range.
pub feed_edges_refines :
    (m : Decoder) (c : Config) (t : ℕ) (ts : List ℕ) {m' : Decoder}
    → c.max_pulse_us ≤ u16_max
    → init (some m) (some c) ≡ (some m', true)
    → All (λ u. u ≤ u32_max) (t ∷ ts)
    → Clear c t (record { heard = []; shown = [] }) ts
    → let s = feed_edges m' (t ∷ ts) in
      take s.published_channel_count s.channels
      ≡ (heard_of c t (record { heard = []; shown = [] }) ts).shown
unfolding kept
feed_edges_refines m c t ts w h a k =
    feed_edges-Frames m c t ts w h a
    ∙ (frames_of-Agrees c t (record { captured = []; published = [] })
        (record { heard = []; shown = [] }) ts (record { same = refl; shown = refl }) k).shown
