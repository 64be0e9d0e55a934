-- ===== src/MotionApplication/Idle.antt =====
-- What components/motion_application/motion_application_model.c does once the active stream is given
-- up.
use Prim.Native.String.{String}
use sistema_motriz_rs.Base.{ℕ, ◌≡◌, ◌≢◌, Bool, true, false, List, [], ◌∷◌, arith}
use sistema_motriz_rs.Base.Float.{Float32}
use sistema_motriz_rs.Base.Double.{Double, Widening}
use sistema_motriz_rs.CommandAuthority.State.{none_source, Cycle}
use sistema_motriz_rs.MotionApplication.State.{
  plan_apply, Event, Motion, Plan, Outcome, unsafe, authority_rejected,
}
use sistema_motriz_rs.MotionApplication.Plans.{
  reset_plan, retire_active_stream, reset_authority, release, dispatch, expire, fault_stop,
  convert_authority_decision,
}
use sistema_motriz_rs.MotionApplication.Operations.{
  handle_command, handle_stop, handle_event, submit, tick, run_cycle, record_actuation,
}
use sistema_motriz_rs.MotionApplication.Safety.{step-MayMove}
use sistema_motriz_rs.MotionApplication.Trace.{
  Call, call_submit, call_tick, call_actuated, is_arm, never_arms, plan_of, step, run,
}

module _ {F D : Type 0} where
  -- No stream is active.
  pub record IsOff (m : Motion F D) : Type 0 where
    pub no_stream : m.active_stream_id ≡ 0
    pub no_source : m.active_source ≡ none_source
    pub released : m.deadman ≡ false

module _ {F D : Type 0} ⦃fl : Float32 F⦄ where
  pub release-IsOff :
      (m : Motion F D) (now : ℕ) → (m.active_stream_id ≡ 0 → IsOff m) → IsOff (release m now).0
  unfolding release retire_active_stream reset_authority
  release-IsOff m now h = ground arith

  fault_stop-IsOff :
      (m : Motion F D) (now : ℕ) (detail : String) (r : Outcome)
      → (m.active_stream_id ≡ 0 → IsOff m)
      → IsOff (fault_stop m now detail r).model
  unfolding fault_stop
  fault_stop-IsOff m now detail r h = ground (arith, release-IsOff m now h)

  expire-IsOff :
      (m : Motion F D) (now : ℕ) → (m.active_stream_id ≡ 0 → IsOff m) → IsOff (expire m now).model
  unfolding expire
  expire-IsOff m now h = ground (arith, release-IsOff m now h)

module _ {F D : Type 0} ⦃fl : Float32 F⦄ ⦃fd : Double D⦄ ⦃fw : Widening F D⦄ where
  dispatch-IsOff :
      (m : Motion F D) (cycle : Cycle F) (now : ℕ) → IsOff m → IsOff (dispatch m cycle now).model
  unfolding dispatch
  dispatch-IsOff m cycle now h = ground arith

  convert-IsOff :
      (m : Motion F D) (cycle : Cycle F) (now : ℕ) (plan : Plan)
      → IsOff m
      → IsOff (convert_authority_decision m cycle now plan).model
  unfolding convert_authority_decision
  convert-IsOff m cycle now plan h =
      ground (arith, expire-IsOff m now (λ _. h), dispatch-IsOff m cycle now h)

  run_cycle-IsOff : (m : Motion F D) (now : ℕ) → IsOff m → IsOff (run_cycle m now).0
  run_cycle-IsOff m now h = ground arith

  tick-IsOff :
      (m : Motion F D) (gate : Bool) (now : ℕ) (plan : Plan)
      → IsOff m
      → IsOff (tick m gate now plan).model
  unfolding tick
  tick-IsOff m gate now plan h =
      let c = run_cycle m now in
      let k = run_cycle-IsOff m now h in
      ground (
        arith,
        fault_stop-IsOff m now "SAFETY_GATE_CLOSED" unsafe (λ _. h),
        fault_stop-IsOff c.0 now "AUTHORITY_INVALID" authority_rejected (λ _. k),
        convert-IsOff c.0 c.1 now reset_plan k,
      )

  -- The tests of the source refuse every command.
  handle_command-IsOff :
      (m : Motion F D) (e : Event F) (gate : Bool) (now : ℕ) (plan : Plan)
      → IsOff m
      → (handle_command m e gate now plan).model ≡ m
  unfolding handle_command
  handle_command-IsOff m e gate now plan h = ground arith

  handle_stop-IsOff :
      (m : Motion F D) (now : ℕ) (detail : String)
      → (m.active_stream_id ≡ 0 → IsOff m)
      → IsOff (handle_stop m now detail).model
  unfolding handle_stop
  handle_stop-IsOff m now detail h = ground (arith, release-IsOff m now h)

  submit-IsOff :
      (m : Motion F D) (e : Event F) (gate : Bool) (now : ℕ)
      → is_arm (call_submit e gate now) ≡ false
      → IsOff m
      → IsOff (submit m e gate now reset_plan).model
  unfolding submit handle_event
  submit-IsOff m e gate now a h = ground (
    arith,
    handle_command-IsOff m e gate now reset_plan h,
    handle_stop-IsOff m now "DISARMED" (λ _. h),
    handle_stop-IsOff m now "EXPLICIT_STOP" (λ _. h),
  )

  record_actuation-IsOff :
      (m : Motion F D) (plan : Plan) (success : Bool)
      → IsOff m
      → IsOff (record_actuation m plan success)
  unfolding record_actuation
  record_actuation-IsOff m plan success h = ground arith

  step-IsOff : (m : Motion F D) (c : Call F) → is_arm c ≡ false → IsOff m → IsOff (step m c)
  step-IsOff m (call_submit e gate now) a h = submit-IsOff m e gate now a h
  step-IsOff m (call_tick gate now) a h = tick-IsOff m gate now reset_plan h
  step-IsOff m (call_actuated plan success) a h = record_actuation-IsOff m plan success h

  run-IsOff :
      (m : Motion F D) (cs : List (Call F)) → never_arms cs ≡ true → IsOff m → IsOff (run m cs)
  run-IsOff m [] a h = h
  run-IsOff m (c ∷ cs) a h =
      run-IsOff (step m c) cs (ground arith) (step-IsOff m c (ground arith) h)

  -- Once no stream is active, no call moves motors before an ARM event: not commands of whatever
  -- stream, not ticks, and not the late report of an old plan.
  pub idle-not_apply :
      (m : Motion F D) (cs : List (Call F)) (c : Call F)
      → IsOff m
      → never_arms cs ≡ true
      → is_arm c ≡ false
      → (plan_of (run m cs) c).action ≢ plan_apply
  idle-not_apply m cs c h a b k =
      let off = run-IsOff m cs a h in
      ground (
        arith,
        (step-IsOff (run m cs) c b off).released,
        (step-MayMove (run m cs) c k).deadman_held,
      )
