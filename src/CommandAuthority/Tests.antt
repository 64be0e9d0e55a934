-- ===== src/CommandAuthority/Tests.antt =====
-- Runs of the command arbiter on concrete commands, and the theorems at concrete inputs.
use sistema_motriz_rs.Base.{
  ℕ, ◌≡◌, ◌≢◌, ◌<◌, refl, Bool, true, false, List, [], ◌∷◌, arith, ◌⊎◌, inl, contains,
}
use sistema_motriz_rs.Base.Int.{pos}
use sistema_motriz_rs.Base.Float.{Milli, milli, milli_float}
use sistema_motriz_rs.CommandAuthority.State.{
  stream_retired, Source, none_source, lan, source_is_valid, mailbox_at, ok,
  sequence_not_increasing, apply, Velocity, Command, Config, Model, zero_velocity, scalar_abs,
  velocity_is_finite, velocity_is_within_limits, velocity_is_moving, config_is_valid,
  mailbox_is_fresh, mailbox_is_expired, highest_fresh_source,
}
use sistema_motriz_rs.CommandAuthority.Stop.{blank_model, init, stop_model}
use sistema_motriz_rs.CommandAuthority.Publish.{
  argument_refusal, order_refusal, accept, publish_command, reject_order_with_fail_safe_stop,
}
use sistema_motriz_rs.CommandAuthority.Arbitrate.{switch_source, keep_source, arbitrate_model}
use sistema_motriz_rs.CommandAuthority.Invariant.{IsValid, init-IsValid}
use sistema_motriz_rs.CommandAuthority.Cycles.{
  arbitrate_applied, arbitrate_applies, MayApply, commanded_output,
}
use sistema_motriz_rs.CommandAuthority.Stopping.{arbitrate_otherwise_zero}
use sistema_motriz_rs.CommandAuthority.FailSafe.{publish_command-fail_safe}
use sistema_motriz_rs.CommandAuthority.Trace.{
  Call, publish_call, arbitrate_call, run, run-IsValid, run-output_safe, stop_barrier,
}
use sistema_motriz_rs.CommandAuthority.Replay.{publish_replay_refused}

-- Everything that a run computes with.
computes : Unit {0}
unfolding init config_is_valid scalar_abs velocity_is_finite velocity_is_within_limits
    velocity_is_moving mailbox_is_fresh mailbox_is_expired highest_fresh_source contains
    argument_refusal order_refusal accept publish_command reject_order_with_fail_safe_stop
    stop_model switch_source keep_source arbitrate_model
computes = tt

abbrev velocity : ℕ → Velocity Milli
velocity x = record { vx = milli (pos x); vy = milli (pos 0); wz = milli (pos 0) }

-- 1.000 on each axis, moving above 0.010, 200 ms at most.
abbrev limits : Config Milli
limits = record {
  velocity_limit = record { vx = milli (pos 1000); vy = milli (pos 1000); wz = milli (pos 1000) };
  moving_epsilon = record { vx = milli (pos 10); vy = milli (pos 10); wz = milli (pos 10) };
  max_ttl_ms = 200;
}

abbrev drive : ℕ → ℕ → Bool → Command Milli
drive sequence received deadman = record {
  stream_id = 7;
  sequence = sequence;
  received_at_ms = received;
  ttl_ms = 100;
  valid = true;
  deadman = deadman;
  body = velocity 500;
}

abbrev started : Model Milli
started = record blank_model { config = limits; initialized = true }

-- Selects the LAN, then publishes past the barrier.
abbrev approach : List (Call Milli)
approach =
    publish_call lan (drive 1 10 true) 10
    ∷ arbitrate_call 20
    ∷ publish_call lan (drive 2 30 true) 30
    ∷ []

abbrev ready : Model Milli
ready = run started approach

abbrev driving : Model Milli
driving = (arbitrate_model ready 40).0

started-IsValid : IsValid started
unfolding computes
started-IsValid = init-IsValid started limits refl

ready-IsValid : IsValid ready
ready-IsValid = run-IsValid started approach started-IsValid

driving-IsValid : IsValid driving
driving-IsValid = run-IsValid ready (arbitrate_call 40 ∷ []) ready-IsValid

approach_applies : (arbitrate_model ready 40).1.output ≡ velocity 500
unfolding computes
approach_applies = refl

arbitrate_applied_example :
    MayApply ready 40 ready.selected_source ready.mailboxes.at_lan
    × (driving.output ≡ commanded_output ready.mailboxes.at_lan)
    × (driving.authority_granted ≡ true)
    × (driving.selected_source ≡ ready.selected_source)
unfolding computes
arbitrate_applied_example = arbitrate_applied ready 40 ready-IsValid refl

arbitrate_applies_example : (arbitrate_model ready 40).1.decision ≡ apply
unfolding computes
arbitrate_applies_example =
    arbitrate_applies ready 40 ready-IsValid (arbitrate_applied ready 40 ready-IsValid refl).0

arbitrate_otherwise_zero_example :
    ((arbitrate_model driving 130).0.output ≡ zero_velocity)
    × ((arbitrate_model driving 130).0.authority_granted ≡ false)
unfolding computes
arbitrate_otherwise_zero_example = arbitrate_otherwise_zero driving 130 (λ e. cc) (λ e. cc)

nothing_fresh :
    (s : Source)
    → source_is_valid s ≡ true
    → mailbox_is_fresh (mailbox_at driving.mailboxes s) 130 ≡ false
unfolding computes
nothing_fresh none_source v = cc
nothing_fresh _ v = refl

publish_command-fail_safe_example :
    let (m', r') = publish_command driving lan (drive 2 50 false) 50 in
    (r' ≡ sequence_not_increasing)
    × (m'.output ≡ zero_velocity)
    × (m'.authority_granted ≡ false)
    × (m'.selected_source ≡ none_source)
    × ((t : ℕ) → highest_fresh_source m' t ≡ none_source)
unfolding computes
publish_command-fail_safe_example =
    publish_command-fail_safe driving lan (drive 2 50 false) 50 driving-IsValid
      (record { arguments = refl; not_older = refl }) refl refl

run-output_safe_example :
    (velocity_is_finite driving.output ≡ true)
    × (velocity_is_within_limits limits driving.output ≡ true)
    × ((driving.authority_granted ≡ true) ⊎ (driving.output ≡ zero_velocity))
unfolding computes
run-output_safe_example =
    run-output_safe started limits
      (publish_call lan (drive 1 10 true) 10
        ∷ arbitrate_call 20
        ∷ publish_call lan (drive 2 30 true) 30
        ∷ arbitrate_call 40
        ∷ [])
      refl

-- The commands that follow a stop at 50.
abbrev restart : List (Call Milli)
restart =
    publish_call lan (drive 3 60 true) 60
    ∷ arbitrate_call 70
    ∷ publish_call lan (drive 4 80 true) 80
    ∷ []

stop_barrier_example :
    let m' = run (stop_model driving 50).0 restart in
    (driving.publication_revision < m'.mailboxes.at_lan.revision)
    × (50 < m'.mailboxes.at_lan.command.received_at_ms)
unfolding computes
stop_barrier_example = stop_barrier driving 50 restart 90 driving-IsValid refl

publish_replay_refused_example :
    (publish_command
      (run (publish_command started lan (drive 5 10 true) 10).0 restart)
      lan
      (drive 5 90 true)
      90).1
    ≢ ok
unfolding computes
publish_replay_refused_example =
    publish_replay_refused started lan (drive 5 10 true) 10 restart (drive 5 90 true) 90 refl refl
      (inl (omega arith))

-- The stream 8 replaces the stream 7, which is refused then with any sequence number.
abbrev replaced : Model Milli
replaced =
    run (publish_command started lan (drive 5 10 true) 10).0
      (publish_call lan (record (drive 1 20 true) { stream_id = 8 }) 20 ∷ [])

retired_refused : (publish_command replaced lan (drive 9 90 true) 90).1 ≡ stream_retired
unfolding computes
retired_refused = refl
