-- ===== src/CommandAuthority/Cycles.antt =====
-- What a cycle of `command_authority_model_arbitrate` applies.
use sistema_motriz_rs.Base.{
  ℕ, ◌<◌, ◌≡◌, ◌≢◌, true, false, arith, inl, inr, Bool-cases, if◌then◌else◌, ◌&&◌, ltb,
}
use sistema_motriz_rs.Base.Float.{Float32}
use sistema_motriz_rs.CommandAuthority.State.{
  Source, none_source, bluetooth, lan, rc, source_is_valid, source_eq, source_eq_sound,
  source_eq_refl, invalid, apply, Velocity, Mailbox, Model, mailbox_at, zero_velocity,
  mailbox_is_fresh, highest_fresh_source,
}
use sistema_motriz_rs.CommandAuthority.Arbitrate.{switch_source, keep_source, arbitrate_model}
use sistema_motriz_rs.CommandAuthority.Rules.{observe}
use sistema_motriz_rs.CommandAuthority.Invariant.{IsValid}
use sistema_motriz_rs.CommandAuthority.Ranking.{rank, above-highest, fresh-highest}

module _ {F : Type 0} ⦃fl : Float32 F⦄ where
  -- Why the mailbox `b` of `s` may drive the robot at `now`.
  pub record MayApply (m : Model F) (now : ℕ) (s : Source) (b : Mailbox F) : Type 0 where
    pub forward : (m.has_observed_time && ltb now m.last_now_ms) ≡ false
    pub real : source_is_valid s ≡ true
    pub fresh : mailbox_is_fresh b now ≡ true
    pub above :
        (t : Source) → rank s < rank t → mailbox_is_fresh (mailbox_at m.mailboxes t) now ≡ false
    pub after_barrier : m.barrier_revision < b.revision
    pub received_after : m.barrier_time_ms < b.command.received_at_ms

  abbrev pub commanded_output : Mailbox F → Velocity F
  commanded_output b = if b.command.deadman then b.command.body else zero_velocity

  pub keep_source-apply :
      (m : Model F)
      → m.initialized ≡ true
      → (keep_source m).1.decision ≡ apply
      → let b = mailbox_at m.mailboxes m.selected_source in
        (source_is_valid m.selected_source ≡ true)
        × (m.barrier_revision < b.revision)
        × (m.barrier_time_ms < b.command.received_at_ms)
        × ((keep_source m).0.output ≡ commanded_output b)
        × ((keep_source m).0.authority_granted ≡ true)
        × ((keep_source m).0.selected_source ≡ m.selected_source)
  unfolding keep_source
  keep_source-apply m i d = ground arith

  pub switch_source-not_apply :
      (m : Model F) (s : Source) (now : ℕ) → (switch_source m s now).1.decision ≢ apply
  unfolding switch_source
  switch_source-not_apply m s now = ground arith

  pub highest-MayApply :
      (m : Model F) (now : ℕ)
      → (m.has_observed_time && ltb now m.last_now_ms) ≡ false
      → highest_fresh_source m now ≡ m.selected_source
      → source_is_valid m.selected_source ≡ true
      → m.barrier_revision < (mailbox_at m.mailboxes m.selected_source).revision
      → m.barrier_time_ms < (mailbox_at m.mailboxes m.selected_source).command.received_at_ms
      → MayApply m now m.selected_source (mailbox_at m.mailboxes m.selected_source)
  highest-MayApply m now f h v r t = record {
    forward = f;
    real = v;
    fresh = fresh-highest m now m.selected_source h v;
    above = λ u. above-highest m now m.selected_source u h;
    after_barrier = r;
    received_after = t;
  }

  pub arbitrate_keep :
      (m : Model F) (now : ℕ)
      → (m.has_observed_time && ltb now m.last_now_ms) ≡ false
      → highest_fresh_source m now ≡ m.selected_source
      → arbitrate_model m now ≡ keep_source (observe m now)
  unfolding arbitrate_model highest_fresh_source
  arbitrate_keep m now f h = rw (f, h, source_eq_refl)

  pub arbitrate_switch :
      (m : Model F) (now : ℕ)
      → (m.has_observed_time && ltb now m.last_now_ms) ≡ false
      → source_eq (highest_fresh_source m now) m.selected_source ≡ false
      → arbitrate_model m now ≡ switch_source (observe m now) (highest_fresh_source m now) now
  unfolding arbitrate_model highest_fresh_source
  arbitrate_switch m now f h = rw (f, h)

  pub arbitrate_regression :
      (m : Model F) (now : ℕ)
      → (m.has_observed_time && ltb now m.last_now_ms) ≡ true
      → ((arbitrate_model m now).0 ≡ m) × ((arbitrate_model m now).1.decision ≡ invalid)
  unfolding arbitrate_model
  arbitrate_regression m now f = rw f (ground arith)

  -- A cycle of a valid model applies a command only for the source that was already selected, and
  -- only if that source has a fresh command, no source of a higher rank has one, and the command
  -- was published and received after the last barrier. The output is the command's velocity, or
  -- zero if its deadman is released, and authority is granted.
  pub arbitrate_applied :
      (m : Model F) (now : ℕ)
      → IsValid m
      → (arbitrate_model m now).1.decision ≡ apply
      → let b = mailbox_at m.mailboxes m.selected_source in
        let m' = (arbitrate_model m now).0 in
        MayApply m now m.selected_source b
        × (m'.output ≡ commanded_output b)
        × (m'.authority_granted ≡ true)
        × (m'.selected_source ≡ m.selected_source)
  arbitrate_applied m now v d = elim (Bool-cases (m.has_observed_time && ltb now m.last_now_ms)) [
    | inl back ↦ absurd (cc ((arbitrate_regression m now back).1))
    | inr f ↦ elim (Bool-cases (source_eq (highest_fresh_source m now) m.selected_source)) [
      | inl e ↦
          let h = source_eq_sound (highest_fresh_source m now) m.selected_source e in
          let k = keep_source-apply (observe m now) v.started (rw (← arbitrate_keep m now f h) d) in
          rw (arbitrate_keep m now f h) (highest-MayApply m now f h k.0 k.1 k.2, k.3, k.4, k.5)
      | inr e ↦ absurd (
          switch_source-not_apply (observe m now) (highest_fresh_source m now) now
            (rw (← arbitrate_switch m now f e) d))
    ]
  ]

  pub keep_source-applies :
      (m : Model F)
      → m.initialized ≡ true
      → source_is_valid m.selected_source ≡ true
      → m.barrier_revision < (mailbox_at m.mailboxes m.selected_source).revision
      → m.barrier_time_ms < (mailbox_at m.mailboxes m.selected_source).command.received_at_ms
      → (keep_source m).1.decision ≡ apply
  unfolding keep_source
  keep_source-applies m i v r t = ground arith

  pub MayApply-highest :
      (m : Model F) (now : ℕ) (s : Source)
      → MayApply m now s (mailbox_at m.mailboxes s)
      → highest_fresh_source m now ≡ s
  unfolding highest_fresh_source
  MayApply-highest m now none_source h = absurd (cc h.real)
  MayApply-highest m now s h =
      ground (arith, h.above bluetooth, h.above lan, h.above rc, h.fresh, h.real)

  -- Conversely a cycle applies whenever the selected source may drive the robot.
  pub arbitrate_applies :
      (m : Model F) (now : ℕ)
      → IsValid m
      → MayApply m now m.selected_source (mailbox_at m.mailboxes m.selected_source)
      → (arbitrate_model m now).1.decision ≡ apply
  arbitrate_applies m now v h =
      rw (arbitrate_keep m now h.forward (MayApply-highest m now m.selected_source h))
        (keep_source-applies (observe m now) v.started h.real h.after_barrier h.received_after)
