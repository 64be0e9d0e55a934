-- ===== src/MotionApplication/Invariant.antt =====
-- The invariant of `motion_application_model_t`, and that every operation keeps it.
use Prim.Native.String.{String}
use sistema_motriz_rs.Base.{
  ℕ, ◌≤◌, ◌≡◌, ◌≢◌, refl, true, List, [], ◌∷◌, arith, length, length-append,
}
use sistema_motriz_rs.Base.Float.{Float32}
use sistema_motriz_rs.Base.Double.{Double, Widening}
use sistema_motriz_rs.Kinematics.Model.{Inverse, completed, failed, error_name}
use sistema_motriz_rs.CommandAuthority.State.{Cycle, config_is_valid}
use sistema_motriz_rs.CommandAuthority.Invariant.{IsSafe, zero-IsSafe}
use sistema_motriz_rs.MotionApplication.State.{
  Motion, Plan, Outcome, ok, kinematics_failed, retired_streams_capacity,
}
use sistema_motriz_rs.MotionApplication.Plans.{
  retired_with, retire_active_stream, reset_authority, release, plan_inverse, dispatched, dispatch,
  expire, fault_stop, convert_authority_decision, event_source_supported, inverse_of,
  authority_config, stop_authority,
}
use sistema_motriz_rs.MotionApplication.Idle.{IsOff}
use sistema_motriz_rs.MotionApplication.Link.{Runs, Holds, init-Runs}

retired_with-length :
    (xs : List ℕ) (s : ℕ)
    → length xs ≤ retired_streams_capacity
    → length (retired_with xs s) ≤ retired_streams_capacity
unfolding retired_with
retired_with-length [] s h = ground arith
retired_with-length (x ∷ xs) s h = ground (arith, h, length-append xs (s ∷ []))

module _ {F D : Type 0} ⦃fl : Float32 F⦄ where
  pub record IsValid (m : Motion F D) : Type 0 where
    pub started : m.initialized ≡ true
    pub authority : Runs (authority_config m.config) m.authority
    pub history : length m.retired_streams ≤ retired_streams_capacity
    pub idle : m.active_stream_id ≡ 0 → IsOff m
    pub linked :
        m.active_stream_id ≢ 0
        → (event_source_supported m.active_source ≡ true)
          × Holds m.active_source m.active_stream_id m.sequence m.authority
    pub requested_safe : IsSafe (authority_config m.config) m.requested

  pub IsValid-configured :
      (m : Motion F D) → IsValid m → config_is_valid (authority_config m.config) ≡ true
  IsValid-configured m v = rw (← v.authority.same_config) (v.authority.valid.configured)

  pub reset_authority-Runs :
      (m : Motion F D)
      → config_is_valid (authority_config m.config) ≡ true
      → Runs (authority_config m.config) (reset_authority m).0.authority
        × ((reset_authority m).1 ≡ true)
  unfolding reset_authority
  reset_authority-Runs m h =
      let r = init-Runs m.authority (authority_config m.config) h in (r.0, rw (r.1) refl)

  -- What the invariant says but of the authority.
  pub record Settled (m : Motion F D) : Type 0 where
    pub started : m.initialized ≡ true
    pub startable : config_is_valid (authority_config m.config) ≡ true
    pub history : length m.retired_streams ≤ retired_streams_capacity
    pub idle : m.active_stream_id ≡ 0 → IsOff m
    pub requested_safe : IsSafe (authority_config m.config) m.requested

  stop_authority-Settled : (m : Motion F D) (now : ℕ) → IsValid m → Settled (stop_authority m now)
  stop_authority-Settled m now v = ground (arith, IsValid-configured m v)

  retire-Settled :
      (m : Motion F D)
      → Settled m
      → Settled (retire_active_stream m).0
        × IsOff (retire_active_stream m).0
        × ((retire_active_stream m).1 ≡ true)
  unfolding retire_active_stream
  retire-Settled m v = ground (
    arith,
    retired_with-length m.retired_streams m.active_stream_id v.history,
    zero-IsSafe (authority_config m.config) v.startable,
  )

  pub reset-IsValid :
      (m : Motion F D)
      → Settled m
      → IsOff m
      → IsValid (reset_authority m).0 × ((reset_authority m).1 ≡ true)
  unfolding reset_authority
  reset-IsValid m v h =
      let r = reset_authority-Runs m v.startable in
      (
        record {
          started = v.started;
          authority = r.0;
          history = v.history;
          idle = λ _. record {
            no_stream = h.no_stream;
            no_source = h.no_source;
            released = h.released;
          };
          linked = λ k. absurd (k h.no_stream);
          requested_safe = v.requested_safe;
        },
        r.1,
      )

  -- What a release leaves: a valid model without a stream, and both of its steps succeed.
  pub release-IsValid :
      (m : Motion F D) (now : ℕ)
      → IsValid m
      → IsValid (release m now).0 × ((release m now).1 ≡ true) × ((release m now).2 ≡ true)
  unfolding release
  release-IsValid m now v =
      let t = retire-Settled (stop_authority m now) (stop_authority-Settled m now v) in
      let r = reset-IsValid (retire_active_stream (stop_authority m now)).0 t.0 t.1 in
      (r.0, t.2, r.1)

  pub fault_stop-IsValid :
      (m : Motion F D) (now : ℕ) (detail : String) (r : Outcome)
      → IsValid m
      → IsValid (fault_stop m now detail r).model × ((fault_stop m now detail r).outcome ≡ r)
  unfolding fault_stop
  fault_stop-IsValid m now detail r v = ground (arith, release-IsValid m now v)

  pub expire-IsValid :
      (m : Motion F D) (now : ℕ)
      → IsValid m
      → IsValid (expire m now).model × ((expire m now).outcome ≡ ok)
  unfolding expire
  expire-IsValid m now v = ground (arith, release-IsValid m now v)

module _ {F D : Type 0} ⦃fl : Float32 F⦄ ⦃fd : Double D⦄ ⦃fw : Widening F D⦄ where
  -- The cycle gives out the output of a valid authority.
  dispatched-IsValid :
      (m : Motion F D) (cycle : Cycle F)
      → IsValid m
      → cycle.output ≡ m.authority.output
      → IsValid (dispatched m cycle)
  dispatched-IsValid m cycle v e =
      let safe : IsSafe (authority_config m.config) cycle.output =
        rw (e, ← v.authority.same_config) (v.authority.valid.output_safe) in
      ground (arith, safe)

  plan_inverse-IsValid :
      (m : Motion F D) (revision now : ℕ) (i : Inverse D)
      → IsValid m
      → IsValid (plan_inverse m revision now i).model
  unfolding plan_inverse
  plan_inverse-IsValid m revision now (failed e) v =
      (fault_stop-IsValid m now (error_name e) kinematics_failed v).0
  plan_inverse-IsValid m revision now (completed cs report) v =
      ground (arith, fault_stop-IsValid m now "RPM_NUMERIC_OVERFLOW" kinematics_failed v)

  dispatch-IsValid :
      (m : Motion F D) (cycle : Cycle F) (now : ℕ)
      → IsValid m
      → cycle.output ≡ m.authority.output
      → IsValid (dispatch m cycle now).model
  unfolding dispatch
  dispatch-IsValid m cycle now v e =
      let t = dispatched-IsValid m cycle v e in
      ground (
        arith,
        t,
        plan_inverse-IsValid (dispatched m cycle) cycle.command_revision now
            (inverse_of m.config cycle.output) t,
      )

  pub convert-IsValid :
      (m : Motion F D) (cycle : Cycle F) (now : ℕ) (plan : Plan)
      → IsValid m
      → cycle.output ≡ m.authority.output
      → IsValid (convert_authority_decision m cycle now plan).model
  unfolding convert_authority_decision
  convert-IsValid m cycle now plan v e =
      ground (arith, expire-IsValid m now v, dispatch-IsValid m cycle now v e)
