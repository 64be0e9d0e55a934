-- ===== src/MotionApplication/Steps.antt =====
-- Every operation of components/motion_application/motion_application_model.c keeps the invariant.
use Prim.Native.String.{String}
use sistema_motriz_rs.Base.{ℕ, ◌≡◌, ◌≢◌, refl, inl, inr, Bool, true, false, arith, Bool-cases}
use sistema_motriz_rs.Base.Float.{Float32}
use sistema_motriz_rs.Base.Double.{Double, Widening}
use sistema_motriz_rs.CommandAuthority.State.{
  Source, none_source, source_eq, source_eq_sound, Model, Cycle, config_is_valid, Command,
  zero_velocity,
}
use sistema_motriz_rs.CommandAuthority.State as Authority
use sistema_motriz_rs.CommandAuthority.Publish.{publish, publish_command}
use sistema_motriz_rs.CommandAuthority.Arbitrate.{arbitrate_model}
use sistema_motriz_rs.CommandAuthority.Invariant.{zero-IsSafe}
use sistema_motriz_rs.MotionApplication.State.{Event, Motion, Plan, unsafe, authority_rejected}
use sistema_motriz_rs.MotionApplication.Plans.{
  reset_plan, reset_authority, event_source_supported, authority_config, authority_ok,
}
use sistema_motriz_rs.MotionApplication.Operations.{
  handle_stop, tick, run_cycle, publish_for, record_actuation, arm, arm_command, command,
  event_command_of, accepted,
}
use sistema_motriz_rs.MotionApplication.Link.{
  arbitrate-started, Runs, Holds, arbitrate-Runs, arbitrate-Holds, arbitrate-output, publish-Runs,
  publish_refused-Holds, publish_accepted-Holds,
}
use sistema_motriz_rs.MotionApplication.Invariant.{
  IsValid, IsValid-configured, reset-IsValid, release-IsValid, fault_stop-IsValid, convert-IsValid,
}

pub authority_ok-ok : (r : Authority.Outcome) → authority_ok r ≡ true → r ≡ Authority.ok
authority_ok-ok r h = ground arith

pub authority_ok-not_ok : (r : Authority.Outcome) → authority_ok r ≡ false → r ≢ Authority.ok
authority_ok-not_ok r h = ground arith

module _ {F D : Type 0} ⦃fl : Float32 F⦄ ⦃fd : Double D⦄ ⦃fw : Widening F D⦄ where
  with_authority-IsValid :
      (m : Motion F D) (a : Model F)
      → IsValid m
      → Runs (authority_config m.config) a
      → (m.active_stream_id ≢ 0 → Holds m.active_source m.active_stream_id m.sequence a)
      → IsValid (record m { authority = a })
  with_authority-IsValid m a v r h = ground arith

  pub run_cycle-IsValid :
      (m : Motion F D) (now : ℕ)
      → IsValid m
      → IsValid (run_cycle m now).0
        × ((run_cycle m now).1.output ≡ (run_cycle m now).0.authority.output)
  run_cycle-IsValid m now v = rw (arbitrate-started m.authority now v.authority.valid.started) (
    with_authority-IsValid m (arbitrate_model m.authority now).0 v
        (arbitrate-Runs (authority_config m.config) m.authority now v.authority)
        (λ k.
          arbitrate-Holds m.active_source m.active_stream_id m.sequence m.authority now
            (v.linked k).1),
    arbitrate-output m.authority now v.authority.valid.started,
  )

  publish_refused-IsValid :
      (m : Motion F D) (s : Source) (c : Command F) (now : ℕ)
      → IsValid m
      → (publish_for m s c now).1 ≢ Authority.ok
      → IsValid (publish_for m s c now).0
  unfolding publish
  publish_refused-IsValid m s c now v r =
      with_authority-IsValid m (publish_command m.authority s c now).0 v
        (publish-Runs (authority_config m.config) m.authority s c now v.authority)
        (λ k.
          publish_refused-Holds m.active_source m.active_stream_id m.sequence m.authority s c now r
            (v.linked k).1)

  -- The model that has taken the command of `s` is valid with its stream and sequence number.
  publish_accepted-IsValid :
      (m : Motion F D) (s : Source) (c : Command F) (now : ℕ) (deadman : Bool) (stream : ℕ)
      (source : Source)
      → IsValid m
      → (publish_for m s c now).1 ≡ Authority.ok
      → event_source_supported s ≡ true
      → c.stream_id ≡ stream
      → stream ≢ 0
      → s ≡ source
      → IsValid (record ((publish_for m s c now).0) {
        active_stream_id = stream;
        active_source = source;
        sequence = c.sequence;
        deadman = deadman;
      })
  unfolding publish
  publish_accepted-IsValid m s c now deadman stream source v r e p n q =
      let runs = publish-Runs (authority_config m.config) m.authority s c now v.authority in
      let holds = publish_accepted-Holds m.authority s c now r in ground (arith, runs, holds)

  off-reset-IsValid :
      (m : Motion F D)
      → IsValid m
      → m.active_stream_id ≡ 0
      → IsValid (reset_authority m).0 × ((reset_authority m).1 ≡ true)
  off-reset-IsValid m v h =
      reset-IsValid m
        (record {
          started = v.started;
          startable = IsValid-configured m v;
          history = v.history;
          idle = v.idle;
          requested_safe = v.requested_safe;
        })
        (v.idle h)

  pub arm-IsValid :
      (m : Motion F D) (e : Event F) (now : ℕ) (plan : Plan)
      → IsValid m
      → m.active_stream_id ≡ 0
      → event_source_supported e.source ≡ true
      → e.stream_id ≢ 0
      → IsValid (arm m e now plan).model
  unfolding arm
  arm-IsValid m e now plan v h s n =
      let t = (reset_authority m).0 in
      let r = off-reset-IsValid m v h in
      let c = arm_command m e in
      let p = publish_for t e.source c now in
      elim (Bool-cases (authority_ok p.1)) [
        | inr refused ↦
            rw (r.1, refused)
              (publish_refused-IsValid t e.source c now r.0 (authority_ok-not_ok p.1 refused))
        | inl taken ↦
            let x =
              publish_accepted-IsValid t e.source c now false e.stream_id e.source r.0
                (authority_ok-ok p.1 taken) s refl n refl in
            let y =
              run_cycle-IsValid
                (record (p.0) {
                  active_stream_id = e.stream_id;
                  active_source = e.source;
                  sequence = e.sequence;
                  deadman = false;
                })
                now x in
            rw (r.1, taken)
              (ground
                (arith, y.0, zero-IsSafe (authority_config t.config) (IsValid-configured t r.0)))
      ]

  pub command-IsValid :
      (m : Motion F D) (e : Event F) (now : ℕ) (plan : Plan)
      → IsValid m
      → e.stream_id ≡ m.active_stream_id
      → event_source_supported e.source ≡ true
      → e.source ≡ m.active_source
      → IsValid (command m e now plan).model
  unfolding command
  command-IsValid m e now plan v h s n =
      let c = event_command_of m e in
      let p = publish_for m e.source c now in
      let running : m.active_stream_id ≢ 0 = λ z. ground (arith, (v.idle z).no_source, s, n) in
      elim (Bool-cases (authority_ok p.1)) [
        | inr refused ↦
            let x = publish_refused-IsValid m e.source c now v (authority_ok-not_ok p.1 refused) in
            rw refused (ground (arith, x))
        | inl taken ↦
            let x =
              publish_accepted-IsValid m e.source c now e.deadman m.active_stream_id m.active_source
                v (authority_ok-ok p.1 taken) s h running n in
            let q = record (p.0) { sequence = e.sequence; deadman = e.deadman } in
            let y = run_cycle-IsValid q now x in
            let z = run_cycle p.0 now in
            let w : IsValid (accepted z.0 e) = ground (arith, y.0) in
            rw taken (convert-IsValid (accepted z.0 e) z.1 now plan w (y.1))
      ]

  pub tick-IsValid :
      (m : Motion F D) (gate : Bool) (now : ℕ) (plan : Plan)
      → IsValid m
      → IsValid (tick m gate now plan).model
  unfolding tick
  tick-IsValid m gate now plan v =
      let c = run_cycle m now in
      let k = run_cycle-IsValid m now v in
      ground (
        arith,
        (fault_stop-IsValid m now "SAFETY_GATE_CLOSED" unsafe v).0,
        (fault_stop-IsValid c.0 now "AUTHORITY_INVALID" authority_rejected k.0).0,
        convert-IsValid c.0 c.1 now reset_plan k.0 k.1,
      )

  pub record_actuation-IsValid :
      (m : Motion F D) (plan : Plan) (success : Bool)
      → IsValid m
      → IsValid (record_actuation m plan success)
  unfolding record_actuation
  record_actuation-IsValid m plan success v = ground arith

  pub handle_stop-IsValid :
      (m : Motion F D) (now : ℕ) (detail : String)
      → IsValid m
      → IsValid (handle_stop m now detail).model
  unfolding handle_stop
  handle_stop-IsValid m now detail v = ground (arith, release-IsValid m now v)
