-- ===== src/CommandAuthority/Stopping.antt =====
-- When a cycle of `command_authority_model_arbitrate` puts out zero.
use sistema_motriz_rs.Base.{
  ℕ, ◌≡◌, ◌≢◌, sym, ◌∙◌, true, false, arith, inl, inr, Bool-cases, if◌then◌else◌, ◌&&◌, ltb,
  u64_max,
}
use sistema_motriz_rs.Base.Float.{Float32}
use sistema_motriz_rs.CommandAuthority.State.{
  Source, none_source, source_is_valid, source_eq, source_eq_sound, invalid, apply, fault_stop,
  stop_output, Model, mailbox_at, zero_velocity, mailbox_is_fresh, highest_fresh_source,
}
use sistema_motriz_rs.CommandAuthority.Arbitrate.{switch_source, keep_source, arbitrate_model}
use sistema_motriz_rs.CommandAuthority.Rules.{observe}
use sistema_motriz_rs.CommandAuthority.Invariant.{IsValid}
use sistema_motriz_rs.CommandAuthority.Ranking.{highest-stale}
use sistema_motriz_rs.CommandAuthority.Cycles.{
  arbitrate_keep, arbitrate_switch, arbitrate_regression,
}

module _ {F : Type 0} ⦃fl : Float32 F⦄ where
  keep_source-stop :
      (m : Model F)
      → (keep_source m).1.decision ≢ apply
      → ((keep_source m).0.output ≡ zero_velocity) × ((keep_source m).0.authority_granted ≡ false)
  unfolding keep_source
  keep_source-stop m d = ground arith

  switch_source-stop :
      (m : Model F) (s : Source) (now : ℕ)
      → ((switch_source m s now).0.output ≡ zero_velocity)
        × ((switch_source m s now).0.authority_granted ≡ false)
  unfolding switch_source
  switch_source-stop m s now = ground arith

  -- A cycle that neither applies a command nor rejects its clock leaves the output at zero and
  -- authority revoked: a change of source, a wait behind the barrier, and the loss of every source.
  pub arbitrate_otherwise_zero :
      (m : Model F) (now : ℕ)
      → (arbitrate_model m now).1.decision ≢ apply
      → (arbitrate_model m now).1.decision ≢ invalid
      → ((arbitrate_model m now).0.output ≡ zero_velocity)
        × ((arbitrate_model m now).0.authority_granted ≡ false)
  arbitrate_otherwise_zero m now a i =
      elim (Bool-cases (m.has_observed_time && ltb now m.last_now_ms)) [
        | inl back ↦ absurd (i (arbitrate_regression m now back).1)
        | inr f ↦ elim (Bool-cases (source_eq (highest_fresh_source m now) m.selected_source)) [
          | inl e ↦
              let h = source_eq_sound (highest_fresh_source m now) m.selected_source e in
              rw (arbitrate_keep m now f h)
                (keep_source-stop (observe m now) (rw (← arbitrate_keep m now f h) a))
          | inr e ↦
              rw (arbitrate_switch m now f e)
                (switch_source-stop (observe m now) (highest_fresh_source m now) now)
        ]
      ]

  keep_source-lost :
      (m : Model F)
      → m.initialized ≡ true
      → m.selected_source ≡ none_source
      → ((keep_source m).0.output ≡ zero_velocity)
        × ((keep_source m).0.authority_granted ≡ false)
        × ((keep_source m).0.selected_source ≡ none_source)
        × ((keep_source m).1.decision ≡ stop_output)
  unfolding keep_source
  keep_source-lost m i h = ground arith

  switch_source-lost :
      (m : Model F) (now : ℕ)
      → m.initialized ≡ true
      → m.epoch ≢ u64_max
      → m.selected_source ≢ none_source
      → mailbox_is_fresh (mailbox_at m.mailboxes m.selected_source) now ≡ false
      → ((switch_source m none_source now).0.output ≡ zero_velocity)
        × ((switch_source m none_source now).0.authority_granted ≡ false)
        × ((switch_source m none_source now).0.selected_source ≡ none_source)
        × ((switch_source m none_source now).1.decision
            ≡ (if m.last_output_moving then fault_stop else stop_output))
  unfolding switch_source
  switch_source-lost m now i e s h = ground arith

  -- The deadline. When no source has a fresh command and time has not gone back, a cycle leaves the
  -- output at zero, revokes authority and deselects the source. It is a fault stop exactly when a
  -- source was selected and the output that it loses was moving.
  pub arbitrate_deadline :
      (m : Model F) (now : ℕ)
      → IsValid m
      → m.epoch ≢ u64_max
      → (m.has_observed_time && ltb now m.last_now_ms) ≡ false
      → ((s : Source)
          → source_is_valid s ≡ true
          → mailbox_is_fresh (mailbox_at m.mailboxes s) now ≡ false)
      → let (m', cycle) = arbitrate_model m now in
        (m'.output ≡ zero_velocity)
        × (m'.authority_granted ≡ false)
        × (m'.selected_source ≡ none_source)
        × (cycle.decision ≡ (
            if source_is_valid m.selected_source && m.last_output_moving
            then fault_stop
            else stop_output))
  arbitrate_deadline m now v e f stale =
      let none = highest-stale m now stale in
      elim (Bool-cases (source_eq none_source m.selected_source)) [
        | inl q ↦
            let h = source_eq_sound none_source m.selected_source q in
            rw (arbitrate_keep m now f (none ∙ h))
              (ground (arith, h, keep_source-lost (observe m now) v.started (sym h)))
        | inr q ↦
            let valid : source_is_valid m.selected_source ≡ true = ground arith in
            rw (arbitrate_switch m now f (rw none q), none)
              (ground (
                arith,
                valid,
                switch_source-lost (observe m now) now v.started e (ground arith)
                    (stale m.selected_source valid),
              ))
      ]
