-- ===== src/MotionApplication/Runs.antt =====
-- Runs of components/motion_application/motion_application_model.c: what holds of every state that
-- any calls lead to, and what the calls of a valid state report.
use Prim.Native.String.{String}
use sistema_motriz_rs.Base.{
  ℕ, ◌≤◌, ◌<◌, ◌≡◌, ◌≢◌, Bool, ◌⊎◌, true, false, List, [], ◌∷◌, some, arith,
}
use sistema_motriz_rs.Base.Float.{Float32}
use sistema_motriz_rs.Base.Double.{Double, Widening}
use sistema_motriz_rs.CommandAuthority.State.{source_eq_sound, source_eq_refl, config_is_valid}
use sistema_motriz_rs.CommandAuthority.Stop.{init}
use sistema_motriz_rs.CommandAuthority.Publish.{publish}
use sistema_motriz_rs.CommandAuthority.Invariant.{zero-IsSafe}
use sistema_motriz_rs.MotionApplication.State.{
  Event, Config, Motion, Plan, ok, unsafe, disarmed, fault, in_control, event_disarm, event_stop,
  event_command, plan_stop,
}
use sistema_motriz_rs.MotionApplication.Plans.{
  Handled, reset_plan, stop_plan, reset_authority, fault_stop, event_source_supported,
  authority_config, authority_ok,
}
use sistema_motriz_rs.MotionApplication.Operations.{
  handle_arm, handle_command, handle_stop, handle_event, submit, tick, publish_for, init_model,
  configured, command, event_command_of,
}
use sistema_motriz_rs.MotionApplication.Idle.{IsOff, release-IsOff}
use sistema_motriz_rs.MotionApplication.Link.{init-Runs, publish-increases}
use sistema_motriz_rs.MotionApplication.Trace.{
  Call, call_submit, call_tick, call_actuated, step, run,
}
use sistema_motriz_rs.MotionApplication.Invariant.{IsValid, release-IsValid, fault_stop-IsValid}
use sistema_motriz_rs.MotionApplication.Steps.{
  authority_ok-ok, command-IsValid, arm-IsValid, tick-IsValid, record_actuation-IsValid,
  handle_stop-IsValid,
}

module _ {F D : Type 0} ⦃fl : Float32 F⦄ ⦃fd : Double D⦄ ⦃fw : Widening F D⦄ where
  handle_arm-IsValid :
      (m : Motion F D) (e : Event F) (gate : Bool) (now : ℕ) (plan : Plan)
      → IsValid m
      → IsValid (handle_arm m e gate now plan).model
  unfolding handle_arm
  handle_arm-IsValid m e gate now plan v = ground (arith, arm-IsValid m e now plan v)

  handle_command-IsValid :
      (m : Motion F D) (e : Event F) (gate : Bool) (now : ℕ) (plan : Plan)
      → IsValid m
      → IsValid (handle_command m e gate now plan).model
  unfolding handle_command
  handle_command-IsValid m e gate now plan v = ground (
    arith,
    command-IsValid m e now plan v,
    source_eq_sound e.source m.active_source,
    fault_stop-IsValid m now "SAFETY_GATE_CLOSED" unsafe v,
  )

  submit-IsValid :
      (m : Motion F D) (e : Event F) (gate : Bool) (now : ℕ) (plan : Plan)
      → IsValid m
      → IsValid (submit m e gate now plan).model
  unfolding submit handle_event
  submit-IsValid m e gate now plan v = ground (
    arith,
    handle_arm-IsValid m e gate now reset_plan v,
    handle_command-IsValid m e gate now reset_plan v,
    handle_stop-IsValid m now "DISARMED" v,
    handle_stop-IsValid m now "EXPLICIT_STOP" v,
  )

  step-IsValid : (m : Motion F D) (c : Call F) → IsValid m → IsValid (step m c)
  step-IsValid m (call_submit e gate now) v = submit-IsValid m e gate now reset_plan v
  step-IsValid m (call_tick gate now) v = tick-IsValid m gate now reset_plan v
  step-IsValid m (call_actuated plan success) v = record_actuation-IsValid m plan success v

  run-IsValid : (m : Motion F D) (cs : List (Call F)) → IsValid m → IsValid (run m cs)
  run-IsValid m [] v = v
  run-IsValid m (c ∷ cs) v = run-IsValid (step m c) cs (step-IsValid m c v)

  init_model-configured :
      (c : Config F D) (m : Motion F D)
      → init_model c ≡ some m
      → (reset_authority (configured c)).1 ≡ true
  unfolding init_model
  init_model-configured c m h = ground arith

  reset-startable :
      (m : Motion F D)
      → (reset_authority m).1 ≡ true
      → config_is_valid (authority_config m.config) ≡ true
  unfolding reset_authority init
  reset-startable m h = ground arith

  init_model-IsValid : (c : Config F D) (m : Motion F D) → init_model c ≡ some m → IsValid m
  unfolding init_model reset_authority
  init_model-IsValid c m h =
      let s = reset-startable (configured c) (init_model-configured c m h) in
      let r = init-Runs (configured c).authority (authority_config c) s in
      ground (arith, h, r, zero-IsSafe (authority_config c) s)

  -- Every state that calls lead to after a successful `init` is valid: its authority is, at most 16
  -- streams are retired, the requested velocity is finite and within the configured limits, without
  -- an active stream no source is active and the deadman is released, and with one the authority's
  -- mailbox of the active source, LAN or RC, holds the stream with the last accepted sequence number.
  pub init-run-IsValid :
      (c : Config F D) (m : Motion F D) (cs : List (Call F))
      → init_model c ≡ some m
      → IsValid (run m cs)
  init-run-IsValid c m cs h = run-IsValid m cs (init_model-IsValid c m h)

  command-ok :
      (m : Motion F D) (e : Event F) (now : ℕ) (plan : Plan)
      → (command m e now plan).outcome ≡ ok
      → authority_ok (publish_for m e.source (event_command_of m e) now).1 ≡ true
  unfolding command
  command-ok m e now plan h = ground arith

  handle_command-ok :
      (m : Motion F D) (e : Event F) (gate : Bool) (now : ℕ) (plan : Plan)
      → IsValid m
      → (handle_command m e gate now plan).outcome ≡ ok
      → (gate ≡ true)
        × (e.stream_id ≡ m.active_stream_id)
        × (e.source ≡ m.active_source)
        × (event_source_supported e.source ≡ true)
        × ((command m e now plan).outcome ≡ ok)
  unfolding handle_command
  handle_command-ok m e gate now plan v h = ground (
    arith,
    h,
    source_eq_sound e.source m.active_source,
    (fault_stop-IsValid m now "SAFETY_GATE_CLOSED" unsafe v).1,
  )

  submit_command-ok :
      (m : Motion F D) (e : Event F) (gate : Bool) (now : ℕ) (plan : Plan)
      → e.action ≡ event_command
      → (submit m e gate now plan).outcome ≡ ok
      → (e.received_at_ms ≤ now) × ((handle_command m e gate now reset_plan).outcome ≡ ok)
  unfolding submit handle_event
  submit_command-ok m e gate now plan a h = ground (arith, a, h)

  -- A command that a valid state answers with OK comes from the active source, belongs to the active
  -- stream, was received by now while the gate is open, and has a higher sequence number than the
  -- last accepted event of the stream.
  pub accepted_command-increases :
      (m : Motion F D) (e : Event F) (gate : Bool) (now : ℕ) (plan : Plan)
      → IsValid m
      → e.action ≡ event_command
      → (submit m e gate now plan).outcome ≡ ok
      → (gate ≡ true)
        × (e.stream_id ≡ m.active_stream_id)
        × (e.source ≡ m.active_source)
        × (e.received_at_ms ≤ now)
        × (m.sequence < e.sequence)
  unfolding publish
  accepted_command-increases m e gate now plan v a h =
      let s = submit_command-ok m e gate now plan a h in
      let k = handle_command-ok m e gate now reset_plan v s.1 in
      let p =
        authority_ok-ok (publish_for m e.source (event_command_of m e) now).1
          (command-ok m e now reset_plan k.4) in
      let running : m.active_stream_id ≢ 0 = λ z. ground (arith, (v.idle z).no_source, k.2, k.3) in
      (
        k.0,
        k.1,
        k.2,
        s.0,
        publish-increases m.active_stream_id m.sequence m.authority e.source (event_command_of m e)
            now (rw (k.2) ((v.linked running).1)) k.1 p,
      )

  handle_stop-halts :
      (m : Motion F D) (now : ℕ) (detail : String)
      → IsValid m
      → let r = handle_stop m now detail in
        (r.outcome ≡ ok) × (r.plan.action ≡ plan_stop) × (r.model.state ≡ disarmed) × IsOff r.model
  unfolding handle_stop stop_plan
  handle_stop-halts m now detail v =
      ground (arith, release-IsValid m now v, release-IsOff m now v.idle)

  -- A valid state answers a STOP or DISARM event that was received by now, in whatever state the
  -- robot is and whether the gate is open or not, with OK, a STOP plan and the state DISARMED, and
  -- without an active stream.
  pub submit_stop-halts :
      (m : Motion F D) (e : Event F) (gate : Bool) (now : ℕ) (plan : Plan)
      → IsValid m
      → (e.action ≡ event_stop) ⊎ (e.action ≡ event_disarm)
      → e.received_at_ms ≤ now
      → let r = submit m e gate now plan in
        (r.outcome ≡ ok) × (r.plan.action ≡ plan_stop) × (r.model.state ≡ disarmed) × IsOff r.model
  unfolding submit handle_event
  submit_stop-halts m e gate now plan v a t = ground (
    arith,
    v.started,
    handle_stop-halts m now "DISARMED" v,
    handle_stop-halts m now "EXPLICIT_STOP" v,
  )

  -- The answer to a closed gate.
  abbrev pub Faults : Handled F D → Type 0
  Faults r =
      (r.outcome ≡ unsafe) × (r.plan.action ≡ plan_stop) × (r.model.state ≡ fault) × IsOff r.model

  fault_stop-Faults :
      (m : Motion F D) (now : ℕ) → IsValid m → Faults (fault_stop m now "SAFETY_GATE_CLOSED" unsafe)
  unfolding fault_stop stop_plan
  fault_stop-Faults m now v = ground (arith, release-IsValid m now v, release-IsOff m now v.idle)

  -- With the gate closed, a tick of an armed or active valid state, and also a command of its active
  -- stream and source that was received by now, give UNSAFE, a STOP plan and the state FAULT, and the
  -- stream is given up.
  pub closed_gate-Faults :
      (m : Motion F D) (e : Event F) (now : ℕ) (plan : Plan)
      → IsValid m
      → in_control m.state ≡ true
      → e.action ≡ event_command
      → e.received_at_ms ≤ now
      → e.stream_id ≡ m.active_stream_id
      → e.source ≡ m.active_source
      → event_source_supported e.source ≡ true
      → Faults (tick m false now plan) × Faults (submit m e false now plan)
  unfolding tick submit handle_event handle_command
  closed_gate-Faults m e now plan v c a t s n k =
      ground (arith, v.started, source_eq_refl m.active_source, fault_stop-Faults m now v)
