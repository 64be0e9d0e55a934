-- ===== src/Interlock/Confirm.antt =====
-- What the interlock guarantees: when LAN is allowed, and that a change of priority is confirmed by
-- new frames.
use sistema_motriz_rs.Base.{
  ◌≤◌, ◌<◌, ◌≡◌, ◌≢◌, ◌↔◌, ◌⊎◌, Bool, true, false, ◌||◌, some, arith, if◌then◌else◌,
}
use sistema_motriz_rs.Interlock.Model.{
  State, disabled, no_signal, failsafe, ppm_priority, ppm_priority_candidate, failsafe_candidate,
  Config, Observation, Interlock, init, signal_absent, channel_absent, next_state,
  is_valid_new_frame, confirm, transition, authority_state, allows_lan, observe,
}

abbrev pub is_committable : State → Bool
is_committable no_signal = true
is_committable failsafe = true
is_committable ppm_priority = true
is_committable _ = false

abbrev pub is_candidate : State → Bool
is_candidate ppm_priority_candidate = true
is_candidate failsafe_candidate = true
is_candidate _ = false

-- An interlock in service.
pub record IsSound (m : Interlock) : Type 0 where
  pub enabled : m.config.enabled ≡ true
  pub confirms : 0 < m.config.transition_confirm_good_frames
  pub bounded : m.config.transition_confirm_good_frames ≤ 255
  pub committed : is_committable m.committed_state ≡ true
  pub counting : m.candidate_valid_frames < m.config.transition_confirm_good_frames
  pub pending : 0 < m.candidate_valid_frames → is_candidate m.state ≡ true

transition-IsSound :
    (m : Interlock) (next : State) (is_new : Bool)
    → is_candidate next ≡ false
    → next ≢ disabled
    → IsSound m
    → IsSound (transition m next is_new)
unfolding transition confirm
transition-IsSound m next is_new c d v = ground arith

next_state-observed :
    (m : Interlock) (o : Observation)
    → m.config.enabled ≡ true
    → (is_candidate (next_state m o) ≡ false) × (next_state m o ≢ disabled)
unfolding next_state
next_state-observed m o e = ground arith

module _ (o : Observation) where
  abbrev pub noted : Interlock → Interlock
  noted m = record m {
    last_observed_frame_sequence =
        if is_valid_new_frame m o then o.valid_frame_sequence else m.last_observed_frame_sequence;
  }

-- Every observation keeps the invariant.
pub observe-IsSound : (m : Interlock) (o : Observation) → IsSound m → IsSound (observe m o)
unfolding observe
observe-IsSound m o v =
    transition-IsSound (noted o m) (next_state m o) (is_valid_new_frame m o)
      (next_state-observed m o v.enabled).0 (next_state-observed m o v.enabled).1 (ground arith)

pub init-IsSound :
    (m : Interlock) (c : Config) {m' : Interlock}
    → c.enabled ≡ true
    → c.transition_confirm_good_frames ≤ 255
    → init (some m) (some c) ≡ (some m', true)
    → IsSound m'
unfolding init
init-IsSound m c e b h = ground arith

transition-lan :
    (m : Interlock) (next : State) (is_new : Bool)
    → IsSound m
    → (next ≡ ppm_priority) ⊎ (next ≡ failsafe)
    → (allows_lan (authority_state (transition m next is_new)) ≡ true)
      ↔ ((transition m next is_new).committed_state ≢ ppm_priority)
unfolding transition confirm
transition-lan m next is_new v n = ground arith

next_state-present :
    (m : Interlock) (o : Observation)
    → m.config.enabled ≡ true
    → signal_absent o ≡ false
    → channel_absent m o ≡ false
    → (next_state m o ≡ ppm_priority) ⊎ (next_state m o ≡ failsafe)
unfolding next_state
next_state-present m o e s c = ground arith

-- While the receiver delivers the priority channel, LAN is allowed exactly if the committed state is
-- not PPM priority; a candidate that is not confirmed decides nothing.
pub observe-lan_iff :
    (m : Interlock) (o : Observation)
    → IsSound m
    → signal_absent o ≡ false
    → channel_absent m o ≡ false
    → (allows_lan (authority_state (observe m o)) ≡ true)
      ↔ ((observe m o).committed_state ≢ ppm_priority)
unfolding observe
observe-lan_iff m o v s c =
    transition-lan (noted o m) (next_state m o) (is_valid_new_frame m o) (ground arith)
      (next_state-present m o v.enabled s c)

-- A lost signal allows LAN and a missing channel denies it. Both keep the committed state and drop a
-- candidate with its count.
pub observe_absent :
    (m : Interlock) (o : Observation)
    → IsSound m
    → (signal_absent o || channel_absent m o) ≡ true
    → let m' = observe m o in
      (allows_lan (authority_state m') ≡ signal_absent o)
      × (m'.committed_state ≡ m.committed_state)
      × (m'.candidate_state ≡ m.committed_state)
      × (m'.candidate_valid_frames ≡ 0)
unfolding observe next_state transition
observe_absent m o v h = ground arith
