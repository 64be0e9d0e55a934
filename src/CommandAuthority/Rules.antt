-- ===== src/CommandAuthority/Rules.antt =====
-- To prove a predicate of the model after a call: one premise for each way through the code.
use sistema_motriz_rs.Base.{
  ℕ, ◌≡◌, ◌≢◌, true, false, none, some, arith, inl, inr, Bool-cases, Option-cases, ◌&&◌, ltb,
  u64_max, not, ◌==◌,
}
use sistema_motriz_rs.Base.Float.{Float32}
use sistema_motriz_rs.CommandAuthority.State.{
  Source, Outcome, ok, Mailbox, counter_exhausted_result, timestamp_regression, Command, Model,
  mailbox_at, highest_fresh_source, source_eq,
}
use sistema_motriz_rs.CommandAuthority.Publish.{
  argument_refusal, order_refusal, accept, publish_command, reject_order_with_fail_safe_stop,
  remember,
}
use sistema_motriz_rs.CommandAuthority.Arbitrate.{switch_source, keep_source, arbitrate_model}

module _ {F : Type 0} ⦃fl : Float32 F⦄ where
  -- The model as `arbitrate` reads it: the time is recorded first.
  abbrev pub observe : Model F → ℕ → Model F
  observe m now = record m { last_now_ms = now; has_observed_time = true }

  pub arbitrate_model-elim :
      (P : Model F → Type 0) (m : Model F) (now : ℕ)
      → P m
      → ((m.has_observed_time && ltb now m.last_now_ms) ≡ false
          → (s : Source) → P (switch_source (observe m now) s now).0)
      → ((m.has_observed_time && ltb now m.last_now_ms) ≡ false → P (keep_source (observe m now)).0)
      → P (arbitrate_model m now).0
  unfolding arbitrate_model
  arbitrate_model-elim P m now h k l =
      elim (Bool-cases (m.has_observed_time && ltb now m.last_now_ms)) [
        | inl back ↦ rw back h
        | inr f ↦
            let s = highest_fresh_source (observe m now) now in
            rw f (elim (Bool-cases (not (source_eq s m.selected_source))) [
              | inl moved ↦ rw moved (k f s)
              | inr kept ↦ rw kept (l f)
            ])
      ]

  pub publish_command-elim :
      (P : Model F → Type 0) (m : Model F) (s : Source) (c : Command F) (now : ℕ)
      → ((r : Outcome) → P (remember m r).0)
      → ((r : Outcome) → P (reject_order_with_fail_safe_stop m c now r).0)
      → P (remember (record m { counter_exhausted = true }) counter_exhausted_result).0
      → (argument_refusal m s c now ≡ none
          → order_refusal (mailbox_at m.mailboxes s) c ≡ none
          → m.publication_revision ≢ u64_max
          → P (accept m s c now).0)
      → P (publish_command m s c now).0
  unfolding publish_command
  publish_command-elim P m s c now refused disordered exhausted accepted =
      elim (Option-cases (argument_refusal m s c now)) [
        | inr (r, e) ↦ rw (e, publish_command) (refused r)
        | inl e ↦
            let b = mailbox_at m.mailboxes s in
            elim (Bool-cases (b.initialized && ltb c.received_at_ms b.command.received_at_ms)) [
              | inl older ↦ rw (e, older, publish_command) (refused timestamp_regression)
              | inr newer ↦ elim (Option-cases (order_refusal b c)) [
                | inr (r, o) ↦ rw (e, newer, o, publish_command) (disordered r)
                | inl o ↦ elim (Bool-cases (m.publication_revision == u64_max)) [
                  | inl full ↦ rw (e, newer, o, full, publish_command) exhausted
                  | inr room ↦ rw (e, newer, o, room, publish_command) (accepted e o (ground arith))
                ]
              ]
            ]
      ]

  argument_refusal-ne-ok :
      (m : Model F) (s : Source) (c : Command F) (now : ℕ) → argument_refusal m s c now ≢ some ok
  unfolding argument_refusal
  argument_refusal-ne-ok m s c now = ground arith

  order_refusal-ne-ok : (b : Mailbox F) (c : Command F) → order_refusal b c ≢ some ok
  unfolding order_refusal
  order_refusal-ne-ok b c = ground arith

  -- A publication that reports success went all the way.
  pub publish_command-ok :
      (m : Model F) (s : Source) (c : Command F) (now : ℕ)
      → (publish_command m s c now).1 ≡ ok
      → (argument_refusal m s c now ≡ none)
        × (order_refusal (mailbox_at m.mailboxes s) c ≡ none)
        × (publish_command m s c now ≡ accept m s c now)
  unfolding publish_command reject_order_with_fail_safe_stop
  publish_command-ok m s c now h =
      ground
        (arith, argument_refusal-ne-ok m s c now, order_refusal-ne-ok (mailbox_at m.mailboxes s) c)
