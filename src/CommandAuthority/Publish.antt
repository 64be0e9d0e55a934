-- ===== src/CommandAuthority/Publish.antt =====
-- components/command_authority/command_authority_model.c: `command_authority_model_publish`.
use sistema_motriz_rs.Base.{
  ℕ, ◌+◌, ◌-◌, Bool, true, not, ◌&&◌, ◌||◌, [], ◌∷◌, ◌++◌, Option, none, some, ltb, leb, ◌==◌,
  if◌then◌else◌, u64_max, length, contains,
}
use sistema_motriz_rs.Base.Float.{Float32}
use sistema_motriz_rs.CommandAuthority.State.{
  Source, none_source, source_is_valid, source_eq, Outcome, ok, invalid_argument, not_initialized,
  invalid_source, stream_id_zero, stream_retired, stream_history_full, sequence_not_increasing,
  clock_regression, timestamp_in_future, timestamp_regression, ttl_invalid, expired_on_arrival,
  nonfinite_velocity, velocity_limit_exceeded, counter_exhausted_result, Command, Mailbox, Model,
  retired_stream_capacity, mailbox_at, set_mailbox, zero_velocity, velocity_is_finite,
  velocity_is_within_limits,
}
use sistema_motriz_rs.CommandAuthority.Stop.{revoke_authority, stop_model}

module _ {F : Type 0} where
  abbrev pub stream_changed : Mailbox F → Command F → Bool
  stream_changed b c = b.initialized && not (c.stream_id == b.command.stream_id)

  -- The tests that need the mailbox's history and reject with a fail-safe stop.
  unfoldable pub order_refusal : Mailbox F → Command F → Option Outcome
  order_refusal b c =
      if b.initialized && not (stream_changed b c) && leb c.sequence b.command.sequence
      then some sequence_not_increasing
      else if stream_changed b c
      then (if contains b.retired c.stream_id
          then some stream_retired
          else if leb retired_stream_capacity (length b.retired)
          then some stream_history_full
          else none)
      else none

module _ {F : Type 0} ⦃fl : Float32 F⦄ where
  abbrev pub remember : Model F → Outcome → Model F × Outcome
  remember m r = (if m.initialized then record m { last_publish_result = r } else m, r)

  unfoldable pub reject_order_with_fail_safe_stop :
      Model F → Command F → ℕ → Outcome → Model F × Outcome
  reject_order_with_fail_safe_stop m c now r =
      remember (if not c.valid || not c.deadman then (stop_model m now).0 else m) r

  -- The tests on the call's arguments, in their order; each rejects with no other effect.
  unfoldable pub argument_refusal : Model F → Source → Command F → ℕ → Option Outcome
  argument_refusal m source c now =
      if not m.initialized
      then some not_initialized
      else if not (source_is_valid source)
      then some invalid_source
      else if c.stream_id == 0
      then some stream_id_zero
      else if m.has_observed_time && ltb now m.last_now_ms
      then some clock_regression
      else if ltb now c.received_at_ms
      then some timestamp_in_future
      else if c.ttl_ms == 0
          || ltb m.config.max_ttl_ms c.ttl_ms
          || ltb (u64_max - c.ttl_ms) c.received_at_ms
      then some ttl_invalid
      else if leb c.ttl_ms (now - c.received_at_ms)
      then some expired_on_arrival
      else if c.valid && c.deadman && not (velocity_is_finite c.body)
      then some nonfinite_velocity
      else if c.valid && c.deadman && not (velocity_is_within_limits m.config c.body)
      then some velocity_limit_exceeded
      else none

  abbrev pub normalize : Command F → Command F
  normalize c = if not c.valid || not c.deadman then record c { body = zero_velocity } else c

  -- The mailbox that an accepted command leaves, as publication number `revision`.
  abbrev pub write_mailbox : Mailbox F → Command F → ℕ → Mailbox F
  write_mailbox b c revision = record {
    command = normalize c;
    revision = revision;
    retired = if stream_changed b c then b.retired ++ (b.command.stream_id ∷ []) else b.retired;
    initialized = true;
  }

  unfoldable pub accept : Model F → Source → Command F → ℕ → Model F × Outcome
  accept m source c now =
      let b = mailbox_at m.mailboxes source in
      let revision = m.publication_revision + 1 in
      let t = record m {
        publication_revision = revision;
        mailboxes = set_mailbox m.mailboxes source (write_mailbox b c revision);
      } in
      let u =
        if stream_changed b c && source_eq m.selected_source source
        then revoke_authority (record t { selected_source = none_source })
        else t in
      (record u { last_now_ms = now; has_observed_time = true; last_publish_result = ok }, ok)

  unfoldable pub publish_command : Model F → Source → Command F → ℕ → Model F × Outcome
  publish_command m source c now = elim (argument_refusal m source c now) [
    | some r ↦ remember m r
    | none ↦
        let b = mailbox_at m.mailboxes source in
        if b.initialized && ltb c.received_at_ms b.command.received_at_ms
        then remember m timestamp_regression
        else elim (order_refusal b c) [
          | some r ↦ reject_order_with_fail_safe_stop m c now r
          | none ↦
              if m.publication_revision == u64_max
              then remember (record m { counter_exhausted = true }) counter_exhausted_result
              else accept m source c now
        ]
  ]

  unfoldable pub publish :
      Option (Model F) → Source → Option (Command F) → ℕ → Option (Model F) × Outcome
  publish none source c now = (none, invalid_argument)
  publish (some m) source none now = let (m', r) = remember m invalid_argument in (some m', r)
  publish (some m) source (some c) now =
      let (m', r) = publish_command m source c now in (some m', r)
