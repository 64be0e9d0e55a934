-- ===== src/CommandAuthority/Trace.antt =====
-- What holds after any sequence of calls of components/command_authority.
use sistema_motriz_rs.Base.{
  ℕ, ◌≤◌, ◌<◌, ◌≡◌, ◌∙◌, true, false, List, [], ◌∷◌, some, arith, ◌⊎◌, inl, inr, Bool-cases, ◌&&◌,
  ltb,
}
use sistema_motriz_rs.Base.Float.{Float32}
use sistema_motriz_rs.CommandAuthority.State.{
  Source, Outcome, ok, apply, Command, Config, Model, mailbox_at, velocity_is_finite,
  velocity_is_within_limits, zero_velocity,
}
use sistema_motriz_rs.CommandAuthority.Stop.{init, stop_model}
use sistema_motriz_rs.CommandAuthority.Publish.{
  accept, publish_command, reject_order_with_fail_safe_stop,
}
use sistema_motriz_rs.CommandAuthority.Arbitrate.{switch_source, keep_source, arbitrate_model}
use sistema_motriz_rs.CommandAuthority.Rules.{observe, arbitrate_model-elim, publish_command-elim}
use sistema_motriz_rs.CommandAuthority.Invariant.{
  IsValid, init-IsValid, stop_model-IsValid, arbitrate_model-IsValid, publish_command-IsValid,
}
use sistema_motriz_rs.CommandAuthority.Cycles.{arbitrate_applied}

pub data Call (F : Type 0) : Type 0 where
  publish_call : Source → Command F → ℕ → Call F
  arbitrate_call : ℕ → Call F
  stop_call : ℕ → Call F

module _ {F : Type 0} ⦃fl : Float32 F⦄ where
  abbrev pub step : Model F → Call F → Model F
  step m (publish_call s c now) = (publish_command m s c now).0
  step m (arbitrate_call now) = (arbitrate_model m now).0
  step m (stop_call now) = (stop_model m now).0

  abbrev pub run : Model F → List (Call F) → Model F
  run m [] = m
  run m (c ∷ cs) = run (step m c) cs

  step-IsValid : (m : Model F) (c : Call F) → IsValid m → IsValid (step m c)
  step-IsValid m (publish_call s c now) v = publish_command-IsValid m s c now v
  step-IsValid m (arbitrate_call now) v = arbitrate_model-IsValid m now v
  step-IsValid m (stop_call now) v = stop_model-IsValid m now v

  pub run-IsValid : (m : Model F) (cs : List (Call F)) → IsValid m → IsValid (run m cs)
  run-IsValid m [] v = v
  run-IsValid m (c ∷ cs) v = run-IsValid (step m c) cs (step-IsValid m c v)

  -- What the calls never change, or only raise.
  pub record Follows (m m' : Model F) : Type 0 where
    pub config : m'.config ≡ m.config
    pub epoch : m.epoch ≤ m'.epoch
    pub revision : m.publication_revision ≤ m'.publication_revision
    pub barrier : m.barrier_revision ≤ m'.barrier_revision
    pub barrier_time : m.barrier_time_ms ≤ m'.barrier_time_ms
    pub exhausted : m.counter_exhausted ≡ true → m'.counter_exhausted ≡ true

  Follows-refl : (m : Model F) → Follows m m
  Follows-refl m = ground arith

  Follows-trans : {m n o : Model F} → Follows m n → Follows n o → Follows m o
  Follows-trans p q = ground arith

  stop_model-Follows : (m : Model F) (now : ℕ) → IsValid m → Follows m (stop_model m now).0
  unfolding stop_model
  stop_model-Follows m now v = ground arith

  switch_source-Follows :
      (m : Model F) (s : Source) (now : ℕ)
      → IsValid m
      → (m.has_observed_time && ltb now m.last_now_ms) ≡ false
      → Follows m (switch_source (observe m now) s now).0
  unfolding switch_source
  switch_source-Follows m s now v f = ground arith

  keep_source-Follows : (m : Model F) (now : ℕ) → Follows m (keep_source (observe m now)).0
  unfolding keep_source
  keep_source-Follows m now = ground arith

  accept-Follows :
      (m : Model F) (s : Source) (c : Command F) (now : ℕ) → Follows m (accept m s c now).0
  unfolding accept
  accept-Follows m s c now = ground arith

  reject_order-Follows :
      (m : Model F) (c : Command F) (now : ℕ) (r : Outcome)
      → IsValid m
      → Follows m (reject_order_with_fail_safe_stop m c now r).0
  unfolding reject_order_with_fail_safe_stop
  reject_order-Follows m c now r v = ground (arith, stop_model-Follows m now v)

  step-Follows : (m : Model F) (c : Call F) → IsValid m → Follows m (step m c)
  step-Follows m (publish_call s c now) v =
      publish_command-elim (Follows m) m s c now (λ r. ground arith)
        (λ r. reject_order-Follows m c now r v) (ground arith) (λ _ _ _. accept-Follows m s c now)
  step-Follows m (arbitrate_call now) v =
      arbitrate_model-elim (Follows m) m now (Follows-refl m)
        (λ f s. switch_source-Follows m s now v f) (λ _. keep_source-Follows m now)
  step-Follows m (stop_call now) v = stop_model-Follows m now v

  -- No sequence of calls changes the configuration, lowers a counter or moves the barrier back.
  pub run-Follows : (m : Model F) (cs : List (Call F)) → IsValid m → Follows m (run m cs)
  run-Follows m [] v = Follows-refl m
  run-Follows m (c ∷ cs) v =
      Follows-trans (step-Follows m c v) (run-Follows (step m c) cs (step-IsValid m c v))

  init-config :
      (m : Model F) (c : Config F) {m' : Model F}
      → init (some m) (some c) ≡ (some m', ok)
      → m'.config ≡ c
  unfolding init
  init-config m c h = ground arith

  stop_model-barrier :
      (m : Model F) (now : ℕ)
      → ((stop_model m now).0.barrier_revision ≡ m.publication_revision)
        × (now ≤ (stop_model m now).0.barrier_time_ms)
  unfolding stop_model
  stop_model-barrier m now = ground arith

  -- After `init` and any sequence of calls, the velocity that the arbiter puts out is finite and
  -- within the limits of the configuration it was started with, and without authority it is zero.
  pub run-output_safe :
      (m : Model F) (c : Config F) (cs : List (Call F)) {m' : Model F}
      → init (some m) (some c) ≡ (some m', ok)
      → let r = run m' cs in
        (velocity_is_finite r.output ≡ true)
        × (velocity_is_within_limits c r.output ≡ true)
        × ((r.authority_granted ≡ true) ⊎ (r.output ≡ zero_velocity))
  run-output_safe m c cs {m'} h =
      let v = init-IsValid m c h in
      let w = run-IsValid m' cs v in
      let k = (run-Follows m' cs v).config ∙ init-config m c h in
      (
        w.output_safe.0,
        rw (← k) (w.output_safe.1),
        elim (Bool-cases (run m' cs).authority_granted) [
          | inl g ↦ inl g
          | inr g ↦ inr ((w.revoked g).0)
        ],
      )

  -- The explicit stop is a barrier. Whatever calls come after a stop, a cycle applies a command only
  -- if that command was published after the stop, and received later than the stop's time.
  pub stop_barrier :
      (m : Model F) (now : ℕ) (cs : List (Call F)) (later : ℕ)
      → IsValid m
      → (arbitrate_model (run (stop_model m now).0 cs) later).1.decision ≡ apply
      → let m' = run (stop_model m now).0 cs in
        let b = mailbox_at m'.mailboxes m'.selected_source in
        (m.publication_revision < b.revision) × (now < b.command.received_at_ms)
  stop_barrier m now cs later v d =
      let w = stop_model-IsValid m now v in
      let e = run-Follows (stop_model m now).0 cs w in
      ground (
        arith,
        e,
        stop_model-barrier m now,
        (arbitrate_applied (run (stop_model m now).0 cs) later
            (run-IsValid (stop_model m now).0 cs w) d).0,
      )
