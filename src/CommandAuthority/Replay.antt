-- ===== src/CommandAuthority/Replay.antt =====
-- A command of components/command_authority is accepted once: an old sequence number of a stream, or
-- a stream that another one has replaced, is refused for ever after.
use mathlib.Core.Path.{subst}
use sistema_motriz_rs.Base.{
  ℕ, sym, ◌+◌, ◌≤◌, ◌≡◌, ◌≢◌, true, List, [], ◌∷◌, none, arith, ◌⊎◌, inl, inr, Bool-cases,
  if◌then◌else◌, contains, contains-append_left, contains-append_self,
}
use sistema_motriz_rs.Base.Float.{Float32}
use sistema_motriz_rs.CommandAuthority.State.{
  Source, none_source, source_eq, source_eq_sound, source_eq_refl, Outcome, ok,
  counter_exhausted_result, Command, Mailbox, Mailboxes, Model, mailbox_at, set_mailbox,
}
use sistema_motriz_rs.CommandAuthority.Stop.{stop_model, invalidate_all}
use sistema_motriz_rs.CommandAuthority.Publish.{
  order_refusal, accept, publish_command, reject_order_with_fail_safe_stop, write_mailbox, remember,
}
use sistema_motriz_rs.CommandAuthority.Arbitrate.{switch_source, keep_source}
use sistema_motriz_rs.CommandAuthority.Rules.{
  observe, arbitrate_model-elim, publish_command-elim, publish_command-ok,
}
use sistema_motriz_rs.CommandAuthority.Trace.{
  Call, publish_call, arbitrate_call, stop_call, step, run,
}

module _ {F : Type 0} where
  -- The mailbox has seen the stream up to the sequence number, or has replaced the stream.
  pub record Spent (b : Mailbox F) (stream sequence : ℕ) : Type 0 where
    pub used : b.initialized ≡ true
    pub seen :
        ((b.command.stream_id ≡ stream) × (sequence ≤ b.command.sequence))
        ⊎ ((contains b.retired stream ≡ true) × (b.command.stream_id ≢ stream))

  order_refusal-Spent :
      (b : Mailbox F) (c : Command F) {stream sequence : ℕ}
      → Spent b stream sequence
      → c.stream_id ≡ stream
      → c.sequence ≤ sequence
      → order_refusal b c ≢ none
  unfolding order_refusal
  order_refusal-Spent b c p e l = ground arith

  pub mailbox_at-set :
      (bs : Mailboxes F) (s t : Source) (b : Mailbox F)
      → mailbox_at (set_mailbox bs s b) t ≡ (if source_eq s t then b else mailbox_at bs t)
  mailbox_at-set bs s t b = ground arith

module _ {F : Type 0} ⦃fl : Float32 F⦄ where
  write_mailbox-Spent :
      (b : Mailbox F) (c : Command F) (r stream sequence : ℕ)
      → order_refusal b c ≡ none
      → Spent b stream sequence
      → Spent (write_mailbox b c r) stream sequence
  unfolding order_refusal
  write_mailbox-Spent b c r stream sequence o p = ground (
    arith,
    contains-append_left b.retired (b.command.stream_id ∷ []) stream,
    contains-append_self b.retired stream,
  )

  write_mailbox-Spent_self :
      (b : Mailbox F) (c : Command F) (r : ℕ) → Spent (write_mailbox b c r) c.stream_id c.sequence
  write_mailbox-Spent_self b c r = ground arith

  Spent-invalidate_all :
      (bs : Mailboxes F) (t : Source) (stream sequence : ℕ)
      → Spent (mailbox_at bs t) stream sequence
      → Spent (mailbox_at (invalidate_all bs) t) stream sequence
  Spent-invalidate_all bs none_source stream sequence p = p
  Spent-invalidate_all bs t stream sequence p = ground arith

  pub mailboxes-accept :
      (m : Model F) (s : Source) (c : Command F) (now : ℕ)
      → (accept m s c now).0.mailboxes
        ≡ set_mailbox m.mailboxes s
            (write_mailbox (mailbox_at m.mailboxes s) c (m.publication_revision + 1))
  unfolding accept
  mailboxes-accept m s c now = ground arith

  module _ (t : Source) (stream sequence : ℕ) where
    abbrev SpentAt : Model F → Type 0
    SpentAt m = Spent (mailbox_at m.mailboxes t) stream sequence

    stop_model-SpentAt : (m : Model F) (now : ℕ) → SpentAt m → SpentAt (stop_model m now).0
    unfolding stop_model
    stop_model-SpentAt m now p = Spent-invalidate_all m.mailboxes t stream sequence p

    switch_source-SpentAt :
        (m : Model F) (s : Source) (now : ℕ)
        → SpentAt m
        → SpentAt (switch_source (observe m now) s now).0
    unfolding switch_source
    switch_source-SpentAt m s now p = ground arith

    keep_source-SpentAt :
        (m : Model F) (now : ℕ) → SpentAt m → SpentAt (keep_source (observe m now)).0
    unfolding keep_source
    keep_source-SpentAt m now p = ground arith

    accept-SpentAt :
        (m : Model F) (s : Source) (c : Command F) (now : ℕ)
        → order_refusal (mailbox_at m.mailboxes s) c ≡ none
        → SpentAt m
        → SpentAt (accept m s c now).0
    accept-SpentAt m s c now o p =
        let b = write_mailbox (mailbox_at m.mailboxes s) c (m.publication_revision + 1) in
        rw (mailboxes-accept m s c now, mailbox_at-set m.mailboxes s t b)
          (elim (Bool-cases (source_eq s t)) [
            | inr other ↦ rw other p
            | inl same ↦
                let q : SpentAt m → Spent (mailbox_at m.mailboxes s) stream sequence =
                  rw (source_eq_sound s t same) (λ x. x) in
                rw same (write_mailbox-Spent (mailbox_at m.mailboxes s) c _ stream sequence o (q p))
          ])

    remember-SpentAt : (m : Model F) (r : Outcome) → SpentAt m → SpentAt (remember m r).0
    remember-SpentAt m r p = ground arith

    reject_order-SpentAt :
        (m : Model F) (c : Command F) (now : ℕ) (r : Outcome)
        → SpentAt m
        → SpentAt (reject_order_with_fail_safe_stop m c now r).0
    unfolding reject_order_with_fail_safe_stop
    reject_order-SpentAt m c now r p = ground (arith, stop_model-SpentAt m now p)

    step-SpentAt : (m : Model F) (c : Call F) → SpentAt m → SpentAt (step m c)
    step-SpentAt m (publish_call s c now) p =
        publish_command-elim SpentAt m s c now (λ r. remember-SpentAt m r p)
          (λ r. reject_order-SpentAt m c now r p)
          (remember-SpentAt (record m { counter_exhausted = true }) counter_exhausted_result p)
          (λ _ o _. accept-SpentAt m s c now o p)
    step-SpentAt m (arbitrate_call now) p =
        arbitrate_model-elim SpentAt m now p (λ _ s. switch_source-SpentAt m s now p)
          (λ _. keep_source-SpentAt m now p)
    step-SpentAt m (stop_call now) p = stop_model-SpentAt m now p

    run-SpentAt : (m : Model F) (cs : List (Call F)) → SpentAt m → SpentAt (run m cs)
    run-SpentAt m [] p = p
    run-SpentAt m (c ∷ cs) p = run-SpentAt (step m c) cs (step-SpentAt m c p)

  publish_command-refuses :
      (m : Model F) (s : Source) (c : Command F) (now : ℕ) {stream sequence : ℕ}
      → Spent (mailbox_at m.mailboxes s) stream sequence
      → c.stream_id ≡ stream
      → c.sequence ≤ sequence
      → (publish_command m s c now).1 ≢ ok
  publish_command-refuses m s c now p e l k =
      order_refusal-Spent (mailbox_at m.mailboxes s) c p e l (publish_command-ok m s c now k).1

  accept-Spent :
      (m : Model F) (s : Source) (c : Command F) (now : ℕ)
      → Spent (mailbox_at (accept m s c now).0.mailboxes s) c.stream_id c.sequence
  accept-Spent m s c now =
      let b = write_mailbox (mailbox_at m.mailboxes s) c (m.publication_revision + 1) in
      rw (mailboxes-accept m s c now, mailbox_at-set m.mailboxes s s b, source_eq_refl s)
        (write_mailbox-Spent_self (mailbox_at m.mailboxes s) c (m.publication_revision + 1))

  -- Another stream takes the place of one in its mailbox, which retires that one for ever.
  write_mailbox-Spent_other :
      (b : Mailbox F) (c : Command F) (r stream sequence later : ℕ)
      → Spent b stream sequence
      → c.stream_id ≢ stream
      → Spent (write_mailbox b c r) stream later
  write_mailbox-Spent_other b c r stream sequence later p n = ground (
    arith,
    contains-append_left b.retired (b.command.stream_id ∷ []) stream,
    contains-append_self b.retired stream,
  )

  accept-Spent_other :
      (m : Model F) (s : Source) (c : Command F) (now stream sequence later : ℕ)
      → Spent (mailbox_at m.mailboxes s) stream sequence
      → c.stream_id ≢ stream
      → Spent (mailbox_at (accept m s c now).0.mailboxes s) stream later
  accept-Spent_other m s c now stream sequence later p n =
      let b = write_mailbox (mailbox_at m.mailboxes s) c (m.publication_revision + 1) in
      rw (mailboxes-accept m s c now, mailbox_at-set m.mailboxes s s b, source_eq_refl s)
        (write_mailbox-Spent_other (mailbox_at m.mailboxes s) c _ stream sequence later p n)

  -- The call publishes, with success, a command of the source with another stream.
  abbrev pub Replaces : Source → ℕ → Model F → Call F → Type 0
  Replaces s stream m (publish_call t c now) =
      (t ≡ s) × (c.stream_id ≢ stream) × ((publish_command m t c now).1 ≡ ok)
  Replaces s stream m (arbitrate_call now) = ⊥
  Replaces s stream m (stop_call now) = ⊥

  -- One of the calls does.
  abbrev pub Replaced : Source → ℕ → Model F → List (Call F) → Type 0
  Replaced s stream m [] = ⊥
  Replaced s stream m (c ∷ cs) = Replaces s stream m c ⊎ Replaced s stream (step m c) cs

  module _ (s : Source) (stream sequence later : ℕ) where
    step-Spent_other :
        (m : Model F) (c : Call F)
        → SpentAt s stream sequence m
        → Replaces s stream m c
        → SpentAt s stream later (step m c)
    step-Spent_other m (publish_call t c now) p (e, n, k) =
        rw (step, (publish_command-ok m t c now k).2)
          (subst (λ u. Spent (mailbox_at (accept m t c now).0.mailboxes u) stream later) e
            (accept-Spent_other m t c now stream sequence later
              (subst (λ u. Spent (mailbox_at m.mailboxes u) stream sequence) (sym e) p) n))
    step-Spent_other m (arbitrate_call now) p r = absurd r
    step-Spent_other m (stop_call now) p r = absurd r

    run-Spent_other :
        (m : Model F) (cs : List (Call F))
        → SpentAt s stream sequence m
        → Replaced s stream m cs
        → SpentAt s stream later (run m cs)
    run-Spent_other m [] p r = absurd r
    run-Spent_other m (c ∷ cs) p (inl r) =
        run-SpentAt s stream later (step m c) cs (step-Spent_other m c p r)
    run-Spent_other m (c ∷ cs) p (inr r) =
        run-Spent_other (step m c) cs (step-SpentAt s stream sequence m c p) r

  -- No replay. Once a source has published a command with success, a later command of that source with
  -- the same stream is refused if its sequence number is no higher, or, whatever its sequence number,
  -- if a call between has published with success a command of that source with another stream.
  -- Any other calls may stand between: other sources, stops and cycles.
  pub publish_replay_refused :
      (m : Model F) (s : Source) (c : Command F) (now : ℕ) (cs : List (Call F)) (old : Command F)
      (later : ℕ)
      → (publish_command m s c now).1 ≡ ok
      → old.stream_id ≡ c.stream_id
      → (old.sequence ≤ c.sequence) ⊎ Replaced s c.stream_id (publish_command m s c now).0 cs
      → (publish_command (run (publish_command m s c now).0 cs) s old later).1 ≢ ok
  publish_replay_refused m s c now cs old later h e (inl l) =
      rw ((publish_command-ok m s c now h).2) (
        publish_command-refuses (run (accept m s c now).0 cs) s old later
          (run-SpentAt s c.stream_id c.sequence (accept m s c now).0 cs (accept-Spent m s c now)) e
          l)
  publish_replay_refused m s c now cs old later h e (inr r) =
      let p : SpentAt s c.stream_id c.sequence (publish_command m s c now).0 =
        rw ((publish_command-ok m s c now h).2) (accept-Spent m s c now) in
      publish_command-refuses (run (publish_command m s c now).0 cs) s old later
        (run-Spent_other s c.stream_id c.sequence old.sequence (publish_command m s c now).0 cs p r)
        e (omega arith)
