-- ===== src/MotionApplication/Link.antt =====
-- What the calls of components/command_authority do to the authority inside
-- components/motion_application/motion_application_model.c.
use sistema_motriz_rs.Base.{
  ℕ, ◌+◌, ◌<◌, ◌≡◌, ◌≢◌, refl, sym, ◌∙◌, inl, inr, ◌⊎◌, true, some, none, arith,
}
use sistema_motriz_rs.Base.Float.{Float32}
use sistema_motriz_rs.CommandAuthority.State.{
  Source, none_source, source_eq_refl, source_is_valid, Outcome, ok, Model, Mailbox, Mailboxes,
  Command, Cycle, mailbox_at, set_mailbox, config_is_valid, counter_exhausted_result,
}
use sistema_motriz_rs.CommandAuthority.State as Authority
use sistema_motriz_rs.CommandAuthority.Stop.{blank_model, init, stop, stop_model, invalidate_all}
use sistema_motriz_rs.CommandAuthority.Publish.{
  write_mailbox, publish_command, accept, order_refusal, reject_order_with_fail_safe_stop,
}
use sistema_motriz_rs.CommandAuthority.Arbitrate.{
  arbitrate, arbitrate_model, switch_source, keep_source,
}
use sistema_motriz_rs.CommandAuthority.Rules.{
  arbitrate_model-elim, publish_command-elim, publish_command-ok,
}
use sistema_motriz_rs.CommandAuthority.Replay.{mailbox_at-set, mailboxes-accept}
use sistema_motriz_rs.CommandAuthority.Invariant as Valid
use sistema_motriz_rs.CommandAuthority.Invariant.{
  IsSafe, init-IsValid, stop_model-IsValid, arbitrate_model-IsValid, publish_command-IsValid,
}
use sistema_motriz_rs.MotionApplication.Plans.{held}

module _ {F : Type 0} ⦃fl : Float32 F⦄ where
  -- The authority is valid for the configuration that it was started with.
  pub record Runs (c : Authority.Config F) (a : Model F) : Type 0 where
    pub valid : Valid.IsValid a
    pub same_config : a.config ≡ c

  -- What the last accepted command left in the mailbox of the source.
  pub record Holds (s : Source) (stream sequence : ℕ) (a : Model F) : Type 0 where
    pub used : (mailbox_at a.mailboxes s).initialized ≡ true
    pub same_stream : (mailbox_at a.mailboxes s).command.stream_id ≡ stream
    pub same_sequence : (mailbox_at a.mailboxes s).command.sequence ≡ sequence

  init-ok :
      (a : Model F) (c : Authority.Config F)
      → config_is_valid c ≡ true
      → init (some a) (some c) ≡ (some (record blank_model { config = c; initialized = true }), ok)
  unfolding init
  init-ok a c h = rw h refl

  pub init-Runs :
      (a : Model F) (c : Authority.Config F)
      → config_is_valid c ≡ true
      → Runs c (held (init (some a) (some c)).0 a) × ((init (some a) (some c)).1 ≡ ok)
  init-Runs a c h =
      rw (init-ok a c h)
        (record { valid = init-IsValid a c (init-ok a c h); same_config = refl }, refl)

  stop-started :
      (a : Model F) (now : ℕ)
      → a.initialized ≡ true
      → held (stop (some a) now).0 a ≡ (stop_model a now).0
  unfolding stop
  stop-started a now h = rw h refl

  stop_model-config : (a : Model F) (now : ℕ) → (stop_model a now).0.config ≡ a.config
  unfolding stop_model
  stop_model-config a now = refl

  pub stop-Runs :
      (c : Authority.Config F) (a : Model F) (now : ℕ)
      → Runs c a
      → Runs c (held (stop (some a) now).0 a)
  stop-Runs c a now h = rw (stop-started a now h.valid.started) (record {
    valid = stop_model-IsValid a now h.valid;
    same_config = stop_model-config a now ∙ h.same_config;
  })

  arbitrate-config : (a : Model F) (now : ℕ) → (arbitrate_model a now).0.config ≡ a.config
  unfolding switch_source keep_source
  arbitrate-config a now =
      arbitrate_model-elim (λ b. b.config ≡ a.config) a now refl (λ f s. ground arith)
        (λ f. ground arith)

  arbitrate-mailboxes : (a : Model F) (now : ℕ) → (arbitrate_model a now).0.mailboxes ≡ a.mailboxes
  unfolding switch_source keep_source
  arbitrate-mailboxes a now =
      arbitrate_model-elim (λ b. b.mailboxes ≡ a.mailboxes) a now refl (λ f s. ground arith)
        (λ f. ground arith)

  pub arbitrate-output :
      (a : Model F) (now : ℕ)
      → a.initialized ≡ true
      → (arbitrate_model a now).1.output ≡ (arbitrate_model a now).0.output
  unfolding arbitrate_model switch_source keep_source
  arbitrate-output a now h = ground arith

  pub arbitrate-Runs :
      (c : Authority.Config F) (a : Model F) (now : ℕ) → Runs c a → Runs c (arbitrate_model a now).0
  arbitrate-Runs c a now h = record {
    valid = arbitrate_model-IsValid a now h.valid;
    same_config = arbitrate-config a now ∙ h.same_config;
  }

  pub arbitrate-Holds :
      (s : Source) (stream sequence : ℕ) (a : Model F) (now : ℕ)
      → Holds s stream sequence a
      → Holds s stream sequence (arbitrate_model a now).0
  arbitrate-Holds s stream sequence a now h = record {
    used = rw (arbitrate-mailboxes a now) h.used;
    same_stream = rw (arbitrate-mailboxes a now) h.same_stream;
    same_sequence = rw (arbitrate-mailboxes a now) h.same_sequence;
  }

  publish-config :
      (a : Model F) (s : Source) (c : Command F) (now : ℕ)
      → (publish_command a s c now).0.config ≡ a.config
  unfolding accept reject_order_with_fail_safe_stop stop_model
  publish-config a s c now =
      publish_command-elim (λ b. b.config ≡ a.config) a s c now (λ r. ground arith)
        (λ r. ground arith) (ground arith) (λ _ _ _. ground arith)

  pub publish-Runs :
      (g : Authority.Config F) (a : Model F) (s : Source) (c : Command F) (now : ℕ)
      → Runs g a
      → Runs g (publish_command a s c now).0
  publish-Runs g a s c now h = record {
    valid = publish_command-IsValid a s c now h.valid;
    same_config = publish-config a s c now ∙ h.same_config;
  }

  publish-mailboxes :
      (a : Model F) (s : Source) (c : Command F) (now : ℕ)
      → (publish_command a s c now).1 ≢ ok
      → ((publish_command a s c now).0.mailboxes ≡ a.mailboxes)
        ⊎ ((publish_command a s c now).0.mailboxes ≡ invalidate_all a.mailboxes)
  unfolding publish_command reject_order_with_fail_safe_stop stop_model accept
  publish-mailboxes a s c now h = ground arith

  Holds-invalidate_all :
      (s : Source) (stream sequence : ℕ) (a b : Model F)
      → b.mailboxes ≡ invalidate_all a.mailboxes
      → Holds s stream sequence a
      → Holds s stream sequence b
  Holds-invalidate_all s stream sequence a b e h = ground arith

  -- A refused command leaves what the mailbox holds,
  pub publish_refused-Holds :
      (t : Source) (stream sequence : ℕ) (a : Model F) (s : Source) (c : Command F) (now : ℕ)
      → (publish_command a s c now).1 ≢ ok
      → Holds t stream sequence a
      → Holds t stream sequence (publish_command a s c now).0
  publish_refused-Holds t stream sequence a s c now r h = elim (publish-mailboxes a s c now r) [
    | inl e ↦ ground arith
    | inr e ↦ Holds-invalidate_all t stream sequence a (publish_command a s c now).0 e h
  ]

  accept-Holds :
      (a : Model F) (s : Source) (c : Command F) (now : ℕ)
      → Holds s c.stream_id c.sequence (accept a s c now).0
  accept-Holds a s c now =
      let b = write_mailbox (mailbox_at a.mailboxes s) c (a.publication_revision + 1) in
      ground (arith, mailboxes-accept a s c now, mailbox_at-set a.mailboxes s s b, source_eq_refl s)

  -- and an accepted one is in it.
  pub publish_accepted-Holds :
      (a : Model F) (s : Source) (c : Command F) (now : ℕ)
      → (publish_command a s c now).1 ≡ ok
      → Holds s c.stream_id c.sequence (publish_command a s c now).0
  publish_accepted-Holds a s c now h =
      rw ((publish_command-ok a s c now h).2) (accept-Holds a s c now)

  order_refusal-increases :
      (b : Mailbox F) (c : Command F)
      → order_refusal b c ≡ none
      → b.initialized ≡ true
      → b.command.stream_id ≡ c.stream_id
      → b.command.sequence < c.sequence
  unfolding order_refusal
  order_refusal-increases b c h i e = ground arith

  pub publish-increases :
      (stream sequence : ℕ) (a : Model F) (s : Source) (c : Command F) (now : ℕ)
      → Holds s stream sequence a
      → c.stream_id ≡ stream
      → (publish_command a s c now).1 ≡ ok
      → sequence < c.sequence
  publish-increases stream sequence a s c now h e k =
      let b = mailbox_at a.mailboxes s in
      ground (
        arith,
        order_refusal-increases b c (publish_command-ok a s c now k).1 h.used
            (h.same_stream ∙ sym e),
        h.same_sequence,
      )

  pub arbitrate-started :
      (a : Model F) (now : ℕ)
      → a.initialized ≡ true
      → arbitrate (some a) now ≡ (some (arbitrate_model a now).0, (arbitrate_model a now).1)
  unfolding arbitrate
  arbitrate-started a now h = rw h refl
