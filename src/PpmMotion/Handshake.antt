-- ===== src/PpmMotion/Handshake.antt =====
-- The events of components/ppm_motion_source/ppm_motion_model.c in any run.
use mathlib.Core.Path.{subst}
use sistema_motriz_rs.Base.{
  ◌&&◌, leb, ℕ, ◌+◌, ◌≡◌, ◌≢◌, refl, Bool, true, false, List, [], ◌∷◌, Option, none, some, arith,
  u64, Bool-cases, inl, inr,
}
use sistema_motriz_rs.Base.Float.{Float32}
use sistema_motriz_rs.PpmMotion.Model.{
  FloatArith, Action, action_none, action_stop, action_arm, action_command, Phase, inactive,
  wait_neutral, arm_pending, armed, PpmConfig, PpmInput, PpmOutput, PpmModel, is_new_frame,
  take_frame, sticks_neutral, next_nonce, input_is_priority, input_has_channels, pulse_is_valid,
  channel_at, init, step_released, step_takeover, step_arm_pending, step_neutral, step_command,
  step_phase, step,
}

-- What a receiver of the events knows: the stream of the last ARM since the last STOP, with its last
-- sequence number.
pub record Stream : Type 0 where
  pub id : ℕ
  pub last : ℕ

-- One step's input, and whether the application reports that the receiver is its active source.
pub record Tick : Type 0 where
  pub input : PpmInput
  pub rc_active : Bool

abbrev in_stream : Phase → Bool
in_stream inactive = false
in_stream wait_neutral = false
in_stream arm_pending = true
in_stream armed = true

module _ {F : Type 0} where
  abbrev pub after_action : Action → Option Stream → PpmOutput F → Option Stream
  after_action action_none open_stream o = open_stream
  after_action action_stop open_stream o = none
  after_action action_arm open_stream o = some (record { id = o.stream_id; last = o.sequence })
  after_action action_command open_stream o = some (record { id = o.stream_id; last = o.sequence })

  -- The open stream after an output.
  abbrev pub after : Option Stream → PpmOutput F → Option Stream
  after open_stream o = after_action o.action open_stream o

  abbrev pub Continues : Option Stream → PpmOutput F → Type 0
  Continues none o = ⊥
  Continues (some s) o = (o.stream_id ≡ s.id) × (o.sequence ≡ u64 (s.last + 1))

  abbrev pub all_channels : PpmConfig F → PpmInput → List ℕ → Bool
  all_channels c input [] = true
  all_channels c input (n ∷ ns) =
      leb n input.channel_count
      && leb c.valid_min_us (channel_at input n)
      && leb (channel_at input n) c.valid_max_us
      && all_channels c input ns

  -- The frame claims the priority: its signal is valid, its four channels are there with valid pulses,
  -- and the one that enables is low enough.
  abbrev pub has_priority : PpmConfig F → PpmInput → Bool
  has_priority c input =
      input.signal_valid
      && all_channels c input
          (c.enable_channel ∷ c.throttle_channel ∷ c.steering_channel ∷ c.speed_scale_channel ∷ [])
      && leb (channel_at input c.enable_channel) c.enable_active_max_us

  priority-has_priority :
      (m : PpmModel F) (input : PpmInput) → input_is_priority m input ≡ has_priority m.config input
  unfolding input_is_priority input_has_channels pulse_is_valid
  priority-has_priority m input = ground arith

  -- `prior` and `now` tell whether the receiver had and has the priority.
  abbrev pub RuleOf :
      Action → Option Stream → Bool → Bool → PpmConfig F → Tick → PpmOutput F → Type 0
  RuleOf action_none open_stream prior now c t o = prior ≡ now
  RuleOf action_stop open_stream prior now c t o = prior ≢ now
  RuleOf action_arm open_stream prior now c t o =
      (prior ≡ true)
      × (now ≡ true)
      × (o.stream_id ≢ 0)
      × (o.sequence ≡ 1)
      × (t.input.signal_valid ≡ true)
      × (sticks_neutral c t.input ≡ true)
  RuleOf action_command open_stream prior now c t o =
      (prior ≡ true)
      × (now ≡ true)
      × Continues open_stream o
      × (t.input.signal_valid ≡ true)
      × (t.rc_active ≡ true)
      × (o.deadman ≡ true)

  -- The receiver's rule of one output.
  abbrev pub Follows : Option Stream → Bool → Bool → PpmConfig F → Tick → PpmOutput F → Type 0
  Follows open_stream prior now c t o = RuleOf o.action open_stream prior now c t o

  abbrev pub Linked : Option Stream → PpmModel F → Type 0
  Linked open_stream m =
      in_stream m.phase ≡ true → open_stream ≡ some (record { id = m.stream_id; last = m.sequence })

next_nonce-positive : (n : ℕ) → next_nonce n ≢ 0
next_nonce-positive n = ground arith

module _ {F : Type 0} ⦃fl : Float32 F⦄ ⦃fa : FloatArith F⦄ where
  -- What a step leaves: an output that follows the rule, and the link to the open stream.
  abbrev Good : Option Stream → Bool → Bool → PpmConfig F → Tick → PpmModel F × PpmOutput F → Type 0
  Good open_stream prior now c t r =
      Follows open_stream prior now c t r.1
      × Linked (after open_stream r.1) r.0
      × (r.0.config ≡ c)
      × (r.0.priority_active ≡ now)

  released-Good :
      (open_stream : Option Stream) (m : PpmModel F) (t : Tick)
      → Good open_stream m.priority_active false m.config t (step_released m)
  unfolding step_released
  released-Good open_stream m t = ground arith

  takeover-Good :
      (open_stream : Option Stream) (m : PpmModel F) (t : Tick)
      → m.priority_active ≡ false
      → Good open_stream false true m.config t (step_takeover m)
  unfolding step_takeover
  takeover-Good open_stream m t p = ground arith

  neutral-Good :
      (open_stream : Option Stream) (m : PpmModel F) (t : Tick)
      → t.input.signal_valid ≡ true
      → Linked open_stream m
      → m.priority_active ≡ true
      → Good open_stream true true m.config t (step_neutral m t.input)
  unfolding step_neutral
  neutral-Good open_stream m t v h a = ground (arith, next_nonce-positive m.stream_nonce)

  pending-Good :
      (open_stream : Option Stream) (m : PpmModel F) (t : Tick) (new_frame : Bool)
      → m.phase ≡ arm_pending
      → Linked open_stream m
      → m.priority_active ≡ true
      → Good open_stream true true m.config t (step_arm_pending m t.rc_active new_frame)
  unfolding step_arm_pending
  pending-Good open_stream m t new_frame p h a =
      let k : open_stream ≡ some (record { id = m.stream_id; last = m.sequence }) = h (rw p refl) in
      ground (arith, k)

  command-Good :
      (open_stream : Option Stream) (m : PpmModel F) (t : Tick)
      → t.input.signal_valid ≡ true
      → t.rc_active ≡ true
      → m.phase ≡ armed
      → Linked open_stream m
      → m.priority_active ≡ true
      → Good open_stream true true m.config t (step_command m t.input)
  unfolding step_command
  command-Good open_stream m t v r p h a =
      let k : open_stream ≡ some (record { id = m.stream_id; last = m.sequence }) = h (rw p refl) in
      ground (arith, k)

  phase-Good :
      (open_stream : Option Stream) (m : PpmModel F) (t : Tick) (p : Phase) (new_frame : Bool)
      → t.input.signal_valid ≡ true
      → m.phase ≡ p
      → Linked open_stream m
      → m.priority_active ≡ true
      → Good open_stream true true m.config t (step_phase p m t.input t.rc_active new_frame)
  unfolding step_phase
  phase-Good open_stream m t inactive new_frame v p h a = ground (arith, h)
  phase-Good open_stream m t wait_neutral new_frame v p h a =
      ground (arith, h, neutral-Good open_stream m t v h a)
  phase-Good open_stream m t arm_pending new_frame v p h a =
      pending-Good open_stream m t new_frame p h a
  phase-Good open_stream m t armed new_frame v p h a = elim (Bool-cases t.rc_active) [
    | inl r ↦ ground (arith, h, r, command-Good open_stream m t v r p h a)
    | inr r ↦ ground (arith, r)
  ]

  priority-valid :
      (m : PpmModel F) (input : PpmInput)
      → input_is_priority m input ≡ true
      → input.signal_valid ≡ true
  unfolding input_is_priority input_has_channels
  priority-valid m input h = ground (arith, h)

  step-Good :
      (open_stream : Option Stream) (m : PpmModel F) (t : Tick)
      → Linked open_stream m
      → Good open_stream m.priority_active
          (input_is_priority m t.input)
          m.config
          t
          (step m t.input t.rc_active)
  unfolding step
  step-Good open_stream m t h =
      let u = take_frame m t.input in
      let k : Linked open_stream u = ground (arith, h) in
      elim (Bool-cases (input_is_priority m t.input)) [
        | inr n ↦ ground (arith, n, released-Good open_stream u t)
        | inl y ↦ elim (Bool-cases m.priority_active) [
          | inr n ↦ ground (arith, y, n, takeover-Good open_stream u t)
          | inl a ↦
              let q =
                phase-Good open_stream u t m.phase (is_new_frame m t.input)
                  (priority-valid m t.input y) (ground arith) k in
              ground (arith, y, a, q)
        ]
      ]

  -- The outputs of a run, each with the rule that it follows; `prior` tells whether the frame before
  -- claimed the priority.
  abbrev pub RunFollows : Option Stream → Bool → PpmModel F → List Tick → Type 0
  RunFollows open_stream prior m [] = Unit
  RunFollows open_stream prior m (t ∷ ts) =
      let r = step m t.input t.rc_active in
      let now = has_priority m.config t.input in
      Follows open_stream prior now m.config t r.1 × RunFollows (after open_stream r.1) now r.0 ts

  run-Good :
      (open_stream : Option Stream) (prior : Bool) (m : PpmModel F) (ts : List Tick)
      → m.priority_active ≡ prior
      → Linked open_stream m
      → RunFollows open_stream prior m ts
  run-Good open_stream prior m [] p h = tt
  run-Good open_stream prior m (t ∷ ts) p h =
      let r = step m t.input t.rc_active in
      let now = has_priority m.config t.input in
      let g =
        subst (λ b. Good open_stream m.priority_active b m.config t r)
          (priority-has_priority m t.input) (step-Good open_stream m t h) in
      (
        subst (λ b. Follows open_stream b now m.config t r.1) p g.0,
        run-Good (after open_stream r.1) now r.0 ts g.3 g.1,
      )

  init-inactive :
      (c : PpmConfig F) (m : PpmModel F)
      → init c ≡ some m
      → (m.phase ≡ inactive) × (m.priority_active ≡ false)
  unfolding init
  init-inactive c m h = ground (arith, h)

  -- In any run of a started model, for any frames and any answers of the application: a STOP is given
  -- exactly where the frames begin or cease to claim the priority, from one frame to the next and from
  -- none at the start. An ARM and a COMMAND are given only for a frame that claims it behind another
  -- one that did. An ARM names a stream that is not 0, has the number 1 and comes from a frame with
  -- both sticks at rest. A COMMAND belongs to the stream of the last ARM with no STOP since, has the
  -- next sequence number and its deadman set, and is given only while the application reports the
  -- receiver as its active source.
  pub init-RunFollows :
      (c : PpmConfig F) (m : PpmModel F) (ts : List Tick)
      → init c ≡ some m
      → RunFollows none false m ts
  init-RunFollows c m ts h =
      let i = init-inactive c m h in run-Good none false m ts i.1 (λ k. ground (arith, i.0, k))
