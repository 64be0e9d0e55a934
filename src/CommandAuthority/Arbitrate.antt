-- ===== src/CommandAuthority/Arbitrate.antt =====
-- components/command_authority/command_authority_model.c: `switch_source` and
-- `command_authority_model_arbitrate`.
use sistema_motriz_rs.Base.{
  ℕ, ◌+◌, true, not, ◌&&◌, ◌||◌, Option, none, some, ltb, leb, ◌==◌, if◌then◌else◌, u64_max,
}
use sistema_motriz_rs.Base.Float.{Float32}
use sistema_motriz_rs.CommandAuthority.State.{
  Source, none_source, source_is_valid, source_eq, invalid, stop_output, apply, fault_stop,
  no_fresh_source, source_switch, waiting_fresh_after_switch, selected_source_expired,
  selected_source_invalidated, command_applied, clock_went_back, counters_exhausted, bad_argument,
  no_model, Model, Cycle, mailbox_at, mailbox_is_fresh, mailbox_is_expired, highest_fresh_source,
  zero_velocity, velocity_is_moving,
}
use sistema_motriz_rs.CommandAuthority.Stop.{
  revoke_authority, blank_cycle, fill_cycle_result, record_decision,
}

module _ {F : Type 0} ⦃fl : Float32 F⦄ where
  unfoldable pub switch_source : Model F → Source → ℕ → Model F × Cycle F
  switch_source m desired now =
      let previous = m.selected_source in
      let b = mailbox_at m.mailboxes previous in
      let previous_is_fresh = source_is_valid previous && mailbox_is_fresh b now in
      let previous_is_expired = source_is_valid previous && mailbox_is_expired b now in
      let lost = not (source_eq previous none_source) && not previous_is_fresh in
      let no_revision = not (source_eq desired none_source) && m.publication_revision == u64_max in
      if m.epoch == u64_max
      then record_decision
          (revoke_authority (record m {
            counter_exhausted = true;
            selected_source = none_source;
            barrier_revision = m.publication_revision;
            barrier_time_ms = now;
          }))
          previous fault_stop counters_exhausted 0
      else record_decision
          (revoke_authority (record m {
            epoch = m.epoch + 1;
            selected_source = if no_revision then none_source else desired;
            counter_exhausted = if no_revision then true else m.counter_exhausted;
            barrier_revision = m.publication_revision;
            barrier_time_ms = now;
          }))
          previous
          (if no_revision || (lost && m.last_output_moving) then fault_stop else stop_output)
          (if no_revision
            then counters_exhausted
            else if lost
            then (if previous_is_expired
                then selected_source_expired
                else selected_source_invalidated)
            else source_switch)
          0

  -- The selected source is still the highest fresh one.
  unfoldable pub keep_source : Model F → Model F × Cycle F
  keep_source m =
      let b = mailbox_at m.mailboxes m.selected_source in
      let output = if b.command.deadman then b.command.body else zero_velocity in
      if source_eq m.selected_source none_source
      then record_decision (revoke_authority m) m.selected_source stop_output no_fresh_source 0
      else if leb b.revision m.barrier_revision || leb b.command.received_at_ms m.barrier_time_ms
      then record_decision (revoke_authority m) m.selected_source stop_output
          waiting_fresh_after_switch 0
      else record_decision
          (record m {
            authority_granted = true;
            applied_revision = b.revision;
            output = output;
            last_output_moving = velocity_is_moving m.config output;
          })
          m.selected_source apply command_applied b.revision

  -- One cycle of an initialized model.
  unfoldable pub arbitrate_model : Model F → ℕ → Model F × Cycle F
  arbitrate_model m now =
      if m.has_observed_time && ltb now m.last_now_ms
      then (m, fill_cycle_result m m.selected_source invalid clock_went_back 0)
      else let t = record m { last_now_ms = now; has_observed_time = true } in
        let desired = highest_fresh_source t now in
        if not (source_eq desired m.selected_source)
        then switch_source t desired now
        else keep_source t

  unfoldable pub arbitrate : Option (Model F) → ℕ → Option (Model F) × Cycle F
  arbitrate none now = (none, blank_cycle none_source invalid bad_argument)
  arbitrate (some m) now =
      if not m.initialized
      then (some m, blank_cycle none_source invalid no_model)
      else let (m', cycle) = arbitrate_model m now in (some m', cycle)
