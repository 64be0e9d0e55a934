-- ===== src/CommandAuthority/Invariant.antt =====
-- The invariant of `command_authority_model_t`, and that every operation keeps it.
use sistema_motriz_rs.Base.{
  ℕ, ◌+◌, ◌≤◌, ◌<◌, ◌≡◌, true, false, [], ◌∷◌, none, some, arith, u64_max, length, length-append,
  ltb, ◌≢◌, ◌&&◌,
}
use sistema_motriz_rs.Base.Float.{Float32}
use sistema_motriz_rs.CommandAuthority.State.{
  Source, none_source, source_is_valid, Outcome, ok, Velocity, Command, Config, Mailbox, Model,
  retired_stream_capacity, mailbox_at, zero_velocity, scalar_abs, velocity_is_finite,
  velocity_is_within_limits, config_is_valid,
}
use sistema_motriz_rs.CommandAuthority.Stop.{init, stop_model}
use sistema_motriz_rs.CommandAuthority.Publish.{
  argument_refusal, order_refusal, accept, publish_command, reject_order_with_fail_safe_stop,
  normalize, write_mailbox,
}
use sistema_motriz_rs.CommandAuthority.Rules.{observe, arbitrate_model-elim, publish_command-elim}
use sistema_motriz_rs.CommandAuthority.Arbitrate.{switch_source, keep_source, arbitrate_model}

module _ {F : Type 0} ⦃fl : Float32 F⦄ where
  -- A velocity that may be sent to the motors.
  abbrev pub IsSafe : Config F → Velocity F → Type 0
  IsSafe c v = (velocity_is_finite v ≡ true) × (velocity_is_within_limits c v ≡ true)

  pub record MailboxIsValid (c : Config F) (revision now : ℕ) (b : Mailbox F) : Type 0 where
    pub published : b.revision ≤ revision
    pub received : b.command.received_at_ms ≤ now
    pub history : length b.retired ≤ retired_stream_capacity
    pub safe : IsSafe c b.command.body

  pub record IsValid (m : Model F) : Type 0 where
    pub started : m.initialized ≡ true
    pub configured : config_is_valid m.config ≡ true
    pub epoch_fits : m.epoch ≤ u64_max
    pub revision_fits : m.publication_revision ≤ u64_max
    pub barrier_published : m.barrier_revision ≤ m.publication_revision
    pub barrier_past : m.barrier_time_ms ≤ m.last_now_ms
    pub applied_published : m.applied_revision ≤ m.publication_revision
    pub granted :
        m.authority_granted ≡ true
        → (m.barrier_revision < m.applied_revision) × (source_is_valid m.selected_source ≡ true)
    pub revoked :
        m.authority_granted ≡ false
        → (m.output ≡ zero_velocity) × (m.last_output_moving ≡ false) × (m.applied_revision ≡ 0)
    pub output_safe : IsSafe m.config m.output
    pub unobserved : m.has_observed_time ≡ false → m.last_now_ms ≡ 0
    pub at_bluetooth :
        MailboxIsValid m.config m.publication_revision m.last_now_ms m.mailboxes.at_bluetooth
    pub at_lan : MailboxIsValid m.config m.publication_revision m.last_now_ms m.mailboxes.at_lan
    pub at_rc : MailboxIsValid m.config m.publication_revision m.last_now_ms m.mailboxes.at_rc

  -- Zero is within every limit of a valid configuration.
  pub zero-IsSafe : (c : Config F) → config_is_valid c ≡ true → IsSafe c zero_velocity
  unfolding config_is_valid velocity_is_finite velocity_is_within_limits scalar_abs
  zero-IsSafe c h = ground (
    arith,
    fl.zero-is_finite,
    fl.lt_irrefl fl.zero_f,
    fl.lt_of_not_le c.velocity_limit.vx fl.zero_f,
    fl.lt_of_not_le c.velocity_limit.vy fl.zero_f,
    fl.lt_of_not_le c.velocity_limit.wz fl.zero_f,
    fl.le_of_lt fl.zero_f c.velocity_limit.vx,
    fl.le_of_lt fl.zero_f c.velocity_limit.vy,
    fl.le_of_lt fl.zero_f c.velocity_limit.wz,
  )

  pub init-IsValid :
      (m : Model F) (c : Config F) {m' : Model F}
      → init (some m) (some c) ≡ (some m', ok)
      → IsValid m'
  unfolding init
  init-IsValid m c h = ground (arith, zero-IsSafe c)

  pub stop_model-IsValid : (m : Model F) (now : ℕ) → IsValid m → IsValid (stop_model m now).0
  unfolding stop_model
  stop_model-IsValid m now v = ground (arith, zero-IsSafe m.config v.configured)

  pub switch_source-IsValid :
      (m : Model F) (s : Source) → IsValid m → IsValid (switch_source m s m.last_now_ms).0
  unfolding switch_source
  switch_source-IsValid m s v = ground (arith, zero-IsSafe m.config v.configured)

  pub keep_source-IsValid : (m : Model F) → IsValid m → IsValid (keep_source m).0
  unfolding keep_source
  keep_source-IsValid m v = ground (arith, zero-IsSafe m.config v.configured)

  -- Time only moves forward, so the mailboxes stay in the past.
  advance-IsValid :
      (m : Model F) (now : ℕ)
      → IsValid m
      → (m.has_observed_time && ltb now m.last_now_ms) ≡ false
      → IsValid (observe m now)
  advance-IsValid m now v h = ground arith

  pub arbitrate_model-IsValid :
      (m : Model F) (now : ℕ) → IsValid m → IsValid (arbitrate_model m now).0
  arbitrate_model-IsValid m now v =
      arbitrate_model-elim IsValid m now v
        (λ f s. switch_source-IsValid (observe m now) s (advance-IsValid m now v f))
        (λ f. keep_source-IsValid (observe m now) (advance-IsValid m now v f))

  -- What the argument tests let through has a safe body once it is normalized.
  pub normalize-IsSafe :
      (m : Model F) (s : Source) (c : Command F) (now : ℕ)
      → config_is_valid m.config ≡ true
      → argument_refusal m s c now ≡ none
      → IsSafe m.config (normalize c).body
  unfolding argument_refusal
  normalize-IsSafe m s c now v h = ground (arith, zero-IsSafe m.config v)

  -- and its time lies between the last observed one and `now`.
  argument_refusal-time :
      (m : Model F) (s : Source) (c : Command F) (now : ℕ)
      → argument_refusal m s c now ≡ none
      → (c.received_at_ms ≤ now) × ((m.has_observed_time && ltb now m.last_now_ms) ≡ false)
  unfolding argument_refusal
  argument_refusal-time m s c now h = ground arith

  write_mailbox-IsValid :
      (g : Config F) (b : Mailbox F) (c : Command F) {r now : ℕ}
      → length b.retired ≤ retired_stream_capacity
      → IsSafe g (normalize c).body
      → c.received_at_ms ≤ now
      → order_refusal b c ≡ none
      → MailboxIsValid g r now (write_mailbox b c r)
  unfolding order_refusal
  write_mailbox-IsValid g b c v h t o =
      ground (arith, length-append b.retired (b.command.stream_id ∷ []))

  MailboxIsValid-mono :
      {g : Config F} {b : Mailbox F} {r r' t t' : ℕ}
      → MailboxIsValid g r t b
      → r ≤ r'
      → t ≤ t'
      → MailboxIsValid g r' t' b
  MailboxIsValid-mono v p q = ground arith

  -- `none_source` is refused before the mailboxes are read.
  argument_refusal-none_source :
      (m : Model F) (c : Command F) (now : ℕ) → argument_refusal m none_source c now ≢ none
  unfolding argument_refusal
  argument_refusal-none_source m c now = ground arith

  -- The mailbox that the command goes to keeps its invariant.
  target-IsValid :
      (m : Model F) (s : Source) (c : Command F) (now : ℕ)
      → IsValid m
      → argument_refusal m s c now ≡ none
      → order_refusal (mailbox_at m.mailboxes s) c ≡ none
      → MailboxIsValid m.config
          (m.publication_revision + 1)
          now
          (write_mailbox (mailbox_at m.mailboxes s) c (m.publication_revision + 1))
  target-IsValid m none_source c now v h o = absurd (argument_refusal-none_source m c now h)
  target-IsValid m s c now v h o =
      write_mailbox-IsValid m.config (mailbox_at m.mailboxes s) c (ground arith)
        (normalize-IsSafe m s c now v.configured h) (argument_refusal-time m s c now h).0 o

  accept-IsValid :
      (m : Model F) (s : Source) (c : Command F) (now : ℕ)
      → IsValid m
      → argument_refusal m s c now ≡ none
      → order_refusal (mailbox_at m.mailboxes s) c ≡ none
      → m.publication_revision ≢ u64_max
      → IsValid (accept m s c now).0
  unfolding accept
  accept-IsValid m none_source c now v h o p = absurd (argument_refusal-none_source m c now h)
  accept-IsValid m s c now v h o p = ground (
    arith,
    target-IsValid m s c now v h o,
    argument_refusal-time m s c now h,
    zero-IsSafe m.config v.configured,
  )

  reject_order-IsValid :
      (m : Model F) (c : Command F) (now : ℕ) (r : Outcome)
      → IsValid m
      → IsValid (reject_order_with_fail_safe_stop m c now r).0
  unfolding reject_order_with_fail_safe_stop
  reject_order-IsValid m c now r v = ground (arith, stop_model-IsValid m now v)

  pub publish_command-IsValid :
      (m : Model F) (s : Source) (c : Command F) (now : ℕ)
      → IsValid m
      → IsValid (publish_command m s c now).0
  publish_command-IsValid m s c now v =
      publish_command-elim IsValid m s c now (λ r. ground arith)
        (λ r. reject_order-IsValid m c now r v) (ground arith) (accept-IsValid m s c now v)
