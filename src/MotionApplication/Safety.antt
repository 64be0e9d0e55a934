-- ===== src/MotionApplication/Safety.antt =====
-- When components/motion_application/motion_application_model.c hands out a plan that moves motors.
use Prim.Native.String.{String}
use mathlib.Core.Path.{subst}
use sistema_motriz_rs.Base.{
  ℕ, ◌≡◌, ◌≢◌, refl, ◌∙◌, sym, inl, inr, Bool, true, false, List, [], ◌∷◌, some, arith, Bool-cases,
  Option-cases,
}
use sistema_motriz_rs.Base.Float.{Float32}
use sistema_motriz_rs.Base.Double.{Double, Widening}
use sistema_motriz_rs.Kinematics.Model.{
  MotorCommand, Report, Inverse, completed, failed, error_name,
}
use sistema_motriz_rs.Kinematics.Limits.{Respects, differential_inverse-Respects}
use sistema_motriz_rs.CommandAuthority.State.{apply, Cycle, Velocity}
use sistema_motriz_rs.MotionApplication.State.{
  in_control, event_command, plan_apply, plan_stop, Event, EndpointConfig, Target, Motion,
  max_endpoints, Outcome, kinematics_failed, unsafe, authority_rejected, Config,
}
use sistema_motriz_rs.MotionApplication.Plans.{
  reset_plan, stop_plan, fits_int16, motor_configs, round_targets, inverse_of, plan_inverse,
  dispatched, Handled, dispatch, expire, fault_stop, convert_authority_decision,
}
use sistema_motriz_rs.MotionApplication.Operations.{
  arm, handle_arm, command, handle_command, handle_stop, handle_event, submit, tick, accepted,
  run_cycle, publish_for, event_command_of,
}
use sistema_motriz_rs.MotionApplication.Trace.{
  Call, call_submit, call_tick, call_actuated, gate_of, plan_of, step,
}

module _ {D : Type 0} ⦃fd : Double D⦄ where
  -- One target for each endpoint, in order: the rounding of a speed within the endpoint's limit, in
  -- the range of int16_t.
  abbrev pub Commanded : List (EndpointConfig D) → List Target → Type 0
  Commanded [] [] = Unit
  Commanded [] (t ∷ ts) = ⊥
  Commanded (e ∷ es) [] = ⊥
  Commanded (e ∷ es) (t ∷ ts) =
      (t.endpoint_id ≡ e.endpoint_id)
      × ((x : D) × (fd.lround x ≡ t.rpm) × (fd.lt_d e.max_abs_rpm (fd.fabs x) ≡ false))
      × (fits_int16 t.rpm ≡ true)
      × Commanded es ts

  target_head :
      (c : MotorCommand D) (cs : List (MotorCommand D)) (ts us : List Target)
      → round_targets cs ≡ some us
      → round_targets (c ∷ cs) ≡ some ts
      → (record { endpoint_id = c.actuator_id; rpm = fd.lround c.motor_rpm } ∷ us) ≡ ts
  unfolding round_targets
  target_head c cs ts us n h = ground arith

  round_targets-fits :
      (c : MotorCommand D) (cs : List (MotorCommand D)) (ts : List Target)
      → round_targets (c ∷ cs) ≡ some ts
      → fits_int16 (fd.lround c.motor_rpm) ≡ true
  unfolding round_targets
  round_targets-fits c cs ts h = ground arith

  round_targets-Commanded :
      (es : List (EndpointConfig D)) (cs : List (MotorCommand D)) (ts : List Target)
      → Respects (motor_configs es) cs
      → round_targets cs ≡ some ts
      → Commanded es ts
  unfolding round_targets
  round_targets-Commanded [] [] [] r h = tt
  round_targets-Commanded [] [] (t ∷ ts) r h = absurd (ground (arith, h))
  round_targets-Commanded [] (c ∷ cs) ts r h = absurd r
  round_targets-Commanded (e ∷ es) [] ts r h = absurd r
  round_targets-Commanded (e ∷ es) (c ∷ cs) ts r h = elim (Option-cases (round_targets cs)) [
    | inl n ↦ absurd (ground (arith, n, h))
    | inr (us, n) ↦ subst (Commanded (e ∷ es)) (target_head c cs ts us n h) (
      r.0,
      (c.motor_rpm, refl, r.1),
      round_targets-fits c cs ts h,
      round_targets-Commanded es cs us r.2 n,
    )
  ]

module _ {F D : Type 0} ⦃fl : Float32 F⦄ ⦃fd : Double D⦄ ⦃fw : Widening F D⦄ where
  fault_stop-stops :
      (m : Motion F D) (now : ℕ) (detail : String) (r : Outcome)
      → (fault_stop m now detail r).plan.action ≡ plan_stop
  unfolding fault_stop stop_plan
  fault_stop-stops m now detail r = refl

  expire-stops : (m : Motion F D) (now : ℕ) → (expire m now).plan.action ≡ plan_stop
  unfolding expire stop_plan
  expire-stops m now = refl

  plan_inverse-apply :
      (m : Motion F D) (revision now : ℕ) (i : Inverse D) (es : List (EndpointConfig D))
      → ((cs : List (MotorCommand D)) (report : Report D)
          → i ≡ completed cs report
          → Respects (motor_configs es) cs)
      → (plan_inverse m revision now i).plan.action ≡ plan_apply
      → Commanded es (plan_inverse m revision now i).plan.targets
  unfolding plan_inverse
  plan_inverse-apply m revision now (failed e) es k h =
      absurd (ground (arith, fault_stop-stops m now (error_name e) kinematics_failed, h))
  plan_inverse-apply m revision now (completed cs report) es k h =
      elim (Option-cases (round_targets cs)) [
        | inl n ↦
            absurd (
              ground (arith, n, h, fault_stop-stops m now "RPM_NUMERIC_OVERFLOW" kinematics_failed))
        | inr (ts, n) ↦ rw (n, plan_inverse) (round_targets-Commanded es cs ts (k cs report refl) n)
      ]

  plan_inverse-deadman :
      (m : Motion F D) (revision now : ℕ) (i : Inverse D)
      → (plan_inverse m revision now i).plan.action ≡ plan_apply
      → (plan_inverse m revision now i).model.deadman ≡ m.deadman
  unfolding plan_inverse
  plan_inverse-deadman m revision now (failed e) h =
      absurd (ground (arith, fault_stop-stops m now (error_name e) kinematics_failed, h))
  plan_inverse-deadman m revision now (completed cs report) h =
      ground (arith, h, fault_stop-stops m now "RPM_NUMERIC_OVERFLOW" kinematics_failed)

  -- What an APPLY plan of a decision says.
  pub record Applies (m : Motion F D) (cycle : Cycle F) (r : Handled F D) : Type 0 where
    pub decided : cycle.decision ≡ apply
    pub held_down : m.deadman ≡ true
    pub still_down : r.model.deadman ≡ true
    pub fresh : cycle.command_revision ≢ m.last_dispatched_revision
    pub commanded : Commanded m.config.endpoints r.plan.targets

  dispatch_released :
      (m : Motion F D) (cycle : Cycle F) (now : ℕ)
      → m.deadman ≡ false
      → (dispatch m cycle now).plan.action ≡ plan_stop
  unfolding dispatch stop_plan
  dispatch_released m cycle now h = rw h refl

  dispatch_held :
      (m : Motion F D) (cycle : Cycle F) (now : ℕ)
      → m.deadman ≡ true
      → dispatch m cycle now
        ≡ plan_inverse
            (dispatched m cycle)
            cycle.command_revision
            now
            (inverse_of m.config cycle.output)
  unfolding dispatch
  dispatch_held m cycle now h = ground arith

  inverse_of-Respects :
      (config : Config F D) (v : Velocity F) (cs : List (MotorCommand D)) (report : Report D)
      → inverse_of config v ≡ completed cs report
      → Respects (motor_configs config.endpoints) cs
  unfolding inverse_of
  inverse_of-Respects config v cs report e =
      (differential_inverse-Respects config.differential (motor_configs config.endpoints) _
        max_endpoints cs report e).0

  dispatch-apply :
      (m : Motion F D) (cycle : Cycle F) (now : ℕ)
      → (dispatch m cycle now).plan.action ≡ plan_apply
      → (m.deadman ≡ true)
        × ((dispatch m cycle now).model.deadman ≡ true)
        × Commanded m.config.endpoints (dispatch m cycle now).plan.targets
  dispatch-apply m cycle now h = elim (Bool-cases m.deadman) [
    | inr up ↦ absurd (ground (arith, dispatch_released m cycle now up, h))
    | inl down ↦ (
      down,
      rw (dispatch_held m cycle now down) (
          plan_inverse-deadman (dispatched m cycle) cycle.command_revision now
            (inverse_of m.config cycle.output) (rw (← dispatch_held m cycle now down) h)
          ∙ down),
      rw (dispatch_held m cycle now down) (
          plan_inverse-apply (dispatched m cycle) cycle.command_revision now
            (inverse_of m.config cycle.output) m.config.endpoints
            (inverse_of-Respects m.config cycle.output) (rw (← dispatch_held m cycle now down) h)),
    )
  ]

  convert_parts :
      (m : Motion F D) (cycle : Cycle F) (now : ℕ)
      → (convert_authority_decision m cycle now reset_plan).plan.action ≡ plan_apply
      → (convert_authority_decision m cycle now reset_plan ≡ dispatch m cycle now)
        × (cycle.decision ≡ apply)
        × (cycle.command_revision ≢ m.last_dispatched_revision)
  unfolding convert_authority_decision reset_plan
  convert_parts m cycle now h = ground (arith, expire-stops m now, h)

  pub convert-Applies :
      (m : Motion F D) (cycle : Cycle F) (now : ℕ)
      → (convert_authority_decision m cycle now reset_plan).plan.action ≡ plan_apply
      → Applies m cycle (convert_authority_decision m cycle now reset_plan)
  convert-Applies m cycle now h =
      let p = convert_parts m cycle now h in
      let d = dispatch-apply m cycle now (rw (← p.0) h) in
      record {
        decided = p.1;
        held_down = d.0;
        fresh = p.2;
        still_down = rw (p.0) d.1;
        commanded = rw (p.0) d.2;
      }

  handle_arm-not_apply :
      (m : Motion F D) (e : Event F) (gate : Bool) (now : ℕ)
      → (handle_arm m e gate now reset_plan).plan.action ≢ plan_apply
  unfolding handle_arm arm reset_plan stop_plan
  handle_arm-not_apply m e gate now = ground arith

  handle_command-open :
      (m : Motion F D) (e : Event F) (gate : Bool) (now : ℕ)
      → (handle_command m e gate now reset_plan).plan.action ≡ plan_apply
      → (gate ≡ true)
        × (in_control m.state ≡ true)
        × (handle_command m e gate now reset_plan ≡ command m e now reset_plan)
  unfolding handle_command reset_plan
  handle_command-open m e gate now h =
      ground (arith, fault_stop-stops m now "SAFETY_GATE_CLOSED" unsafe, h)

  command-converts :
      (m : Motion F D) (e : Event F) (now : ℕ)
      → (command m e now reset_plan).plan.action ≡ plan_apply
      → let c = run_cycle (publish_for m e.source (event_command_of m e) now).0 now in
        command m e now reset_plan ≡ convert_authority_decision (accepted c.0 e) c.1 now reset_plan
  unfolding command reset_plan stop_plan
  command-converts m e now h = ground (arith, h)

  tick-open :
      (m : Motion F D) (gate : Bool) (now : ℕ)
      → (tick m gate now reset_plan).plan.action ≡ plan_apply
      → let c = run_cycle m now in
        (gate ≡ true)
        × (in_control m.state ≡ true)
        × (tick m gate now reset_plan ≡ convert_authority_decision c.0 c.1 now reset_plan)
  unfolding tick reset_plan
  tick-open m gate now h = ground (
    arith,
    fault_stop-stops m now "SAFETY_GATE_CLOSED" unsafe,
    fault_stop-stops (run_cycle m now).0 now "AUTHORITY_INVALID" authority_rejected,
    h,
  )

  submit-handles :
      (m : Motion F D) (e : Event F) (gate : Bool) (now : ℕ)
      → (submit m e gate now reset_plan).plan.action ≡ plan_apply
      → (submit m e gate now reset_plan ≡ handle_command m e gate now reset_plan)
        × (e.action ≡ event_command)
  unfolding submit handle_event handle_stop reset_plan stop_plan
  submit-handles m e gate now h = ground (arith, handle_arm-not_apply m e gate now, h)

  -- A plan that moves motors.
  pub record MayMove (m : Motion F D) (c : Call F) : Type 0 where
    pub gate_open : gate_of c ≡ true
    pub controlled : in_control m.state ≡ true
    pub deadman_held : (step m c).deadman ≡ true
    pub commanded : Commanded m.config.endpoints (plan_of m c).targets

  -- Whatever the state, a call hands out a plan to move motors only if the safety gate is open, the
  -- robot is ARMED or ACTIVE and the deadman is held after the call; the plan then has one target
  -- for each configured endpoint, in order, each the rounding of a speed within the limit of its
  -- endpoint and within the range of int16_t.
  pub step-MayMove : (m : Motion F D) (c : Call F) → (plan_of m c).action ≡ plan_apply → MayMove m c
  unfolding reset_plan
  step-MayMove m (call_actuated plan success) h = absurd (ground (arith, h))
  step-MayMove m (call_tick gate now) h =
      let t = tick-open m gate now h in
      let k = run_cycle m now in
      let a = convert-Applies k.0 k.1 now (rw (← t.2) h) in
      record {
        gate_open = t.0;
        controlled = t.1;
        deadman_held = subst (λ r. r.model.deadman ≡ true) (sym t.2) (a.still_down);
        commanded =
            subst (λ r. Commanded m.config.endpoints r.plan.targets) (sym t.2) (a.commanded);
      }
  step-MayMove m (call_submit e gate now) h =
      let s = submit-handles m e gate now h in
      let t = handle_command-open m e gate now (rw (← s.0) h) in
      let u = command-converts m e now (rw (← t.2, ← s.0) h) in
      let k = run_cycle (publish_for m e.source (event_command_of m e) now).0 now in
      let a = convert-Applies (accepted k.0 e) k.1 now (rw (← u, ← t.2, ← s.0) h) in
      let q = s.0 ∙ t.2 ∙ u in
      record {
        gate_open = t.0;
        controlled = t.1;
        deadman_held = subst (λ r. r.model.deadman ≡ true) (sym q) (a.still_down);
        commanded = subst (λ r. Commanded m.config.endpoints r.plan.targets) (sym q) (a.commanded);
      }
