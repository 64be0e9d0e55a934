-- ===== src/CommandAuthority/FailSafe.antt =====
-- How `command_authority_model_publish` refuses a command.
use sistema_motriz_rs.Base.{ℕ, ◌≡◌, refl, true, false, none, some, arith, ◌&&◌, ltb}
use sistema_motriz_rs.Base.Float.{Float32}
use sistema_motriz_rs.CommandAuthority.State.{
  Source, none_source, Outcome, Command, Model, mailbox_at, zero_velocity, mailbox_is_fresh,
  highest_fresh_source,
}
use sistema_motriz_rs.CommandAuthority.Stop.{stop_model}
use sistema_motriz_rs.CommandAuthority.Publish.{
  argument_refusal, order_refusal, publish_command, reject_order_with_fail_safe_stop,
}
use sistema_motriz_rs.CommandAuthority.Invariant.{IsValid}

module _ {F : Type 0} ⦃fl : Float32 F⦄ where
  -- The command reaches the tests of its order.
  pub record IsOrderable (m : Model F) (s : Source) (c : Command F) (now : ℕ) : Type 0 where
    pub arguments : argument_refusal m s c now ≡ none
    pub not_older :
        ((mailbox_at m.mailboxes s).initialized
          && ltb c.received_at_ms (mailbox_at m.mailboxes s).command.received_at_ms)
        ≡ false

  pub publish_command-order :
      (m : Model F) (s : Source) (c : Command F) (now : ℕ) (r : Outcome)
      → IsOrderable m s c now
      → order_refusal (mailbox_at m.mailboxes s) c ≡ some r
      → publish_command m s c now ≡ reject_order_with_fail_safe_stop m c now r
  unfolding publish_command
  publish_command-order m s c now r h o = rw (h.arguments, h.not_older, o, publish_command)

  stop_model-forgets :
      (m : Model F) (now t : ℕ) → highest_fresh_source (stop_model m now).0 t ≡ none_source
  unfolding stop_model highest_fresh_source mailbox_is_fresh
  stop_model-forgets m now t = ground arith

  reject_order-stops :
      (m : Model F) (c : Command F) (now : ℕ) (r : Outcome)
      → (c.valid && c.deadman) ≡ false
      → m.initialized ≡ true
      → reject_order_with_fail_safe_stop m c now r
        ≡ (record ((stop_model m now).0) { last_publish_result = r }, r)
  unfolding reject_order_with_fail_safe_stop stop_model
  reject_order-stops m c now r d i = ground arith

  -- A publication that is refused for its order, and whose command is not valid or whose deadman is
  -- released, stops the robot at once: the output is zero, authority is revoked, no source is
  -- selected, and no source has a fresh command at any time until the next publication.
  pub publish_command-fail_safe :
      (m : Model F) (s : Source) (c : Command F) (now : ℕ) {r : Outcome}
      → IsValid m
      → IsOrderable m s c now
      → order_refusal (mailbox_at m.mailboxes s) c ≡ some r
      → (c.valid && c.deadman) ≡ false
      → let (m', r') = publish_command m s c now in
        (r' ≡ r)
        × (m'.output ≡ zero_velocity)
        × (m'.authority_granted ≡ false)
        × (m'.selected_source ≡ none_source)
        × ((t : ℕ) → highest_fresh_source m' t ≡ none_source)
  unfolding stop_model highest_fresh_source
  publish_command-fail_safe m s c now {r} v h o d =
      rw (publish_command-order m s c now r h o, reject_order-stops m c now r d v.started)
        (refl, refl, refl, refl, λ t. stop_model-forgets m now t)
