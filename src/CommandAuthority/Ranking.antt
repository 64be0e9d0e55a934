-- ===== src/CommandAuthority/Ranking.antt =====
-- The choice of the highest fresh source in `command_authority_model_arbitrate`.
use sistema_motriz_rs.Base.{ℕ, ◌<◌, ◌≡◌, refl, true, false, arith}
use sistema_motriz_rs.CommandAuthority.State.{
  Source, none_source, bluetooth, lan, rc, source_is_valid, Model, mailbox_at, mailbox_is_fresh,
  highest_fresh_source,
}

abbrev pub rank : Source → ℕ
rank none_source = 0
rank bluetooth = 1
rank lan = 2
rank rc = 3

module _ {F : Type 0} where
  pub above-highest :
      (m : Model F) (now : ℕ) (s t : Source)
      → highest_fresh_source m now ≡ s
      → rank s < rank t
      → mailbox_is_fresh (mailbox_at m.mailboxes t) now ≡ false
  unfolding highest_fresh_source
  above-highest m now s none_source h r = absurd (ground arith)
  above-highest m now s t h r = ground arith

  pub fresh-highest :
      (m : Model F) (now : ℕ) (s : Source)
      → highest_fresh_source m now ≡ s
      → source_is_valid s ≡ true
      → mailbox_is_fresh (mailbox_at m.mailboxes s) now ≡ true
  unfolding highest_fresh_source
  fresh-highest m now none_source h v = cc
  fresh-highest m now s h v = ground arith

  pub none-highest :
      (m : Model F) (now : ℕ) (s : Source)
      → highest_fresh_source m now ≡ none_source
      → source_is_valid s ≡ true
      → mailbox_is_fresh (mailbox_at m.mailboxes s) now ≡ false
  unfolding highest_fresh_source
  none-highest m now none_source h v = cc
  none-highest m now s h v = ground arith

  pub highest-stale :
      (m : Model F) (now : ℕ)
      → ((s : Source)
          → source_is_valid s ≡ true
          → mailbox_is_fresh (mailbox_at m.mailboxes s) now ≡ false)
      → highest_fresh_source m now ≡ none_source
  unfolding highest_fresh_source
  highest-stale m now stale = ground (arith, stale rc refl, stale lan refl, stale bluetooth refl)
