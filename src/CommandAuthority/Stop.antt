-- ===== src/CommandAuthority/Stop.antt =====
-- components/command_authority/command_authority_model.c: start-up, the record of a decision, and
-- the explicit stop. A pointer that the code tests against NULL is an `Option`; an output pointer
-- is part of the result.
use sistema_motriz_rs.Base.{
  ℕ, ◌+◌, true, false, not, ◌||◌, [], Option, none, some, leb, ◌==◌, if◌then◌else◌, u64_max,
}
use sistema_motriz_rs.Base.Float.{Float32}
use sistema_motriz_rs.CommandAuthority.State.{
  Source, none_source, Outcome, ok, invalid_argument, invalid_config, Decision, invalid,
  stop_output, Reason, no_fresh_source, explicit_stop, bad_argument, no_model, Command, Config,
  Mailbox, Mailboxes, Model, Cycle, zero_velocity, config_is_valid,
}

module _ {F : Type 0} ⦃fl : Float32 F⦄ where
  -- What `memset` leaves.
  abbrev pub blank_command : Command F
  blank_command = record {
    stream_id = 0;
    sequence = 0;
    received_at_ms = 0;
    ttl_ms = 0;
    valid = false;
    deadman = false;
    body = zero_velocity;
  }

  abbrev pub blank_mailbox : Mailbox F
  blank_mailbox = record {
    command = blank_command;
    revision = 0;
    retired = [];
    initialized = false;
  }

  -- `memset`, then the four fields that `init` sets before it reads the configuration.
  abbrev pub blank_model : Model F
  blank_model = record {
    config = record {
      velocity_limit = zero_velocity;
      moving_epsilon = zero_velocity;
      max_ttl_ms = 0;
    };
    mailboxes = record {
      at_none = blank_mailbox;
      at_bluetooth = blank_mailbox;
      at_lan = blank_mailbox;
      at_rc = blank_mailbox;
    };
    selected_source = none_source;
    authority_granted = false;
    last_output_moving = false;
    counter_exhausted = false;
    epoch = 0;
    publication_revision = 0;
    barrier_revision = 0;
    barrier_time_ms = 0;
    applied_revision = 0;
    last_now_ms = 0;
    has_observed_time = false;
    output = zero_velocity;
    last_decision = stop_output;
    last_reason = no_fresh_source;
    last_publish_result = ok;
    initialized = false;
  }

  unfoldable pub init : Option (Model F) → Option (Config F) → Option (Model F) × Outcome
  init none c = (none, invalid_argument)
  init (some m) none = (some blank_model, invalid_argument)
  init (some m) (some c) =
      if not (config_is_valid c)
      then (some blank_model, invalid_config)
      else (some (record blank_model { config = c; initialized = true }), ok)

  abbrev pub revoke_authority : Model F → Model F
  revoke_authority m = record m {
    authority_granted = false;
    last_output_moving = false;
    applied_revision = 0;
    output = zero_velocity;
  }

  -- `fill_cycle_result` without a model, or with one that is not initialized.
  abbrev pub blank_cycle : Source → Decision → Reason → Cycle F
  blank_cycle previous d r = record {
    decision = d;
    reason = r;
    previous_source = previous;
    selected_source = none_source;
    authority_granted = false;
    epoch = 0;
    publication_revision = 0;
    barrier_revision = 0;
    barrier_time_ms = 0;
    command_revision = 0;
    output = zero_velocity;
  }

  abbrev pub fill_cycle_result : Model F → Source → Decision → Reason → ℕ → Cycle F
  fill_cycle_result m previous d r revision =
      if not m.initialized then blank_cycle previous d r else record {
        decision = d;
        reason = r;
        previous_source = previous;
        selected_source = m.selected_source;
        authority_granted = m.authority_granted;
        epoch = m.epoch;
        publication_revision = m.publication_revision;
        barrier_revision = m.barrier_revision;
        barrier_time_ms = m.barrier_time_ms;
        command_revision = revision;
        output = m.output;
      }

  abbrev pub record_decision : Model F → Source → Decision → Reason → ℕ → Model F × Cycle F
  record_decision m previous d r revision =
      let m' = record m { last_decision = d; last_reason = r } in
      (m', fill_cycle_result m' previous d r revision)

  -- `mailboxes[source].command.valid = false`
  abbrev pub invalidate : Mailbox F → Mailbox F
  invalidate b = record b { command = record (b.command) { valid = false } }

  abbrev pub invalidate_all : Mailboxes F → Mailboxes F
  invalidate_all b = record b {
    at_bluetooth = invalidate b.at_bluetooth;
    at_lan = invalidate b.at_lan;
    at_rc = invalidate b.at_rc;
  }

  -- The stop of an initialized model.
  unfoldable pub stop_model : Model F → ℕ → Model F × Cycle F
  stop_model m now =
      let observed = not m.has_observed_time || leb m.last_now_ms now in
      let last = if observed then now else m.last_now_ms in
      record_decision
        (revoke_authority (record m {
          last_now_ms = last;
          has_observed_time = if observed then true else m.has_observed_time;
          mailboxes = invalidate_all m.mailboxes;
          counter_exhausted = if m.epoch == u64_max then true else m.counter_exhausted;
          epoch = if m.epoch == u64_max then m.epoch else m.epoch + 1;
          selected_source = none_source;
          barrier_revision = m.publication_revision;
          barrier_time_ms = last;
        }))
        m.selected_source stop_output explicit_stop 0

  unfoldable pub stop : Option (Model F) → ℕ → Option (Model F) × Cycle F
  stop none now = (none, blank_cycle none_source invalid bad_argument)
  stop (some m) now =
      if not m.initialized
      then (some m, blank_cycle none_source invalid no_model)
      else let (m', cycle) = stop_model m now in (some m', cycle)
