-- ===== src/Interlock/Takeover.antt =====
-- How a change of priority takes effect over a sequence of observations of the interlock.
use sistema_motriz_rs.Base.{
  ℕ, ◌+◌, ◌≤◌, ◌<◌, ◌≡◌, ◌≢◌, ◌⊎◌, inl, inr, Bool, true, false, List, [], ◌∷◌, arith, u32, length,
  length-eq_zero,
}
use sistema_motriz_rs.Interlock.Model.{
  State, ppm_priority, Observation, Interlock, next_state, is_valid_new_frame, confirm, transition,
  authority_state, allows_lan, observe,
}
use sistema_motriz_rs.Interlock.Confirm.{IsSound, observe-IsSound, noted}

abbrev pub count_new : Bool → ℕ
count_new true = 1
count_new false = 0

unfoldable pub run : Interlock → List Observation → Interlock
run m [] = m
run m (o ∷ os) = run (observe m o) os

-- How many of the observations bring a new valid frame.
unfoldable pub new_frames : Interlock → List Observation → ℕ
new_frames m [] = 0
new_frames m (o ∷ os) = count_new (is_valid_new_frame m o) + new_frames (observe m o) os

transition_slow :
    (m : Interlock) (next : State) (is_new : Bool)
    → IsSound m
    → m.candidate_valid_frames + count_new is_new < m.config.transition_confirm_good_frames
    → let m' = transition m next is_new in
      (m'.committed_state ≡ m.committed_state)
      × (m'.priority_epoch ≡ m.priority_epoch)
      × (m'.config ≡ m.config)
      × (m'.candidate_valid_frames ≤ m.candidate_valid_frames + count_new is_new)
unfolding transition confirm
transition_slow m next is_new v h = ground arith

observe_slow :
    (m : Interlock) (o : Observation)
    → IsSound m
    → m.candidate_valid_frames + count_new (is_valid_new_frame m o)
      < m.config.transition_confirm_good_frames
    → let m' = observe m o in
      (m'.committed_state ≡ m.committed_state)
      × (m'.priority_epoch ≡ m.priority_epoch)
      × (m'.config ≡ m.config)
      × (m'.candidate_valid_frames ≤ m.candidate_valid_frames + count_new (is_valid_new_frame m o))
unfolding observe
observe_slow m o v h =
    transition_slow (noted o m) (next_state m o) (is_valid_new_frame m o) (ground arith) h

-- A change of the committed state needs the configured number of new frames: with fewer, counting
-- those that a candidate already has, any sequence of observations leaves it and the epoch alone,
-- however often a frame is read again.
pub run_unconfirmed :
    (os : List Observation) (m : Interlock)
    → IsSound m
    → m.candidate_valid_frames + new_frames m os < m.config.transition_confirm_good_frames
    → ((run m os).committed_state ≡ m.committed_state)
      × ((run m os).priority_epoch ≡ m.priority_epoch)
unfolding run new_frames
run_unconfirmed [] m v h = ground arith
run_unconfirmed (o ∷ os) m v h =
    let s = observe_slow m o v (ground arith) in
    ground (arith, s, run_unconfirmed os (observe m o) (observe-IsSound m o v) (ground (arith, s)))

-- One more frame for PPM priority, and the last one.
record Counted (m m' : Interlock) : Type 0 where
  room : m.candidate_valid_frames + 1 < m.config.transition_confirm_good_frames
  committed : m'.committed_state ≡ m.committed_state
  candidate : m'.candidate_state ≡ ppm_priority
  frames : m'.candidate_valid_frames ≡ m.candidate_valid_frames + 1
  epoch : m'.priority_epoch ≡ m.priority_epoch
  config : m'.config ≡ m.config

record Taken (m m' : Interlock) : Type 0 where
  last : m.candidate_valid_frames + 1 ≡ m.config.transition_confirm_good_frames
  committed : m'.committed_state ≡ ppm_priority
  epoch : m'.priority_epoch ≡ u32 (m.priority_epoch + 1)
  lan : allows_lan (authority_state m') ≡ false

-- Each observation brings a new frame that asks for PPM priority.
abbrev pub AllClaim : Interlock → List Observation → Type 0
AllClaim m [] = Unit
AllClaim m (o ∷ os) =
    (is_valid_new_frame m o ≡ true) × (next_state m o ≡ ppm_priority) × AllClaim (observe m o) os

transition_claim :
    (m : Interlock) (sequence : ℕ)
    → IsSound m
    → m.committed_state ≢ ppm_priority
    → (m.candidate_valid_frames ≡ 0) ⊎ (m.candidate_state ≡ ppm_priority)
    → let m' =
        transition (record m { last_observed_frame_sequence = sequence }) ppm_priority true in
      Counted m m' ⊎ Taken m m'
unfolding transition confirm
transition_claim m sequence v c k = ground arith

observe_claim :
    (m : Interlock) (o : Observation)
    → IsSound m
    → m.committed_state ≢ ppm_priority
    → (m.candidate_valid_frames ≡ 0) ⊎ (m.candidate_state ≡ ppm_priority)
    → is_valid_new_frame m o ≡ true
    → next_state m o ≡ ppm_priority
    → Counted m (observe m o) ⊎ Taken m (observe m o)
unfolding observe
observe_claim m o v c k n p = rw (p, n) (transition_claim m o.valid_frame_sequence v c k)

run_claim :
    (os : List Observation) (m : Interlock)
    → IsSound m
    → m.committed_state ≢ ppm_priority
    → (m.candidate_valid_frames ≡ 0) ⊎ (m.candidate_state ≡ ppm_priority)
    → m.candidate_valid_frames + length os ≡ m.config.transition_confirm_good_frames
    → AllClaim m os
    → let m' = run m os in
      (m'.committed_state ≡ ppm_priority)
      × (m'.priority_epoch ≡ u32 (m.priority_epoch + 1))
      × (allows_lan (authority_state m') ≡ false)
unfolding run
run_claim [] m v c k l a = absurd (omega (arith, v.counting))
run_claim (o ∷ os) m v c k l a = elim (observe_claim m o v c k a.0 a.1) [
  | inl more ↦ ground (
    arith,
    more,
    run_claim os (observe m o) (observe-IsSound m o v) (ground (arith, more)) (inr more.candidate)
        (ground (arith, more)) a.2,
  )
  | inr done ↦
      rw (length-eq_zero os (omega (arith, done.last))) (done.committed, done.epoch, done.lan)
]

-- A takeover happens: the configured number of new frames that ask for PPM priority, with no other
-- observation between, commits it, starts one epoch and denies LAN.
pub run_takeover :
    (os : List Observation) (m : Interlock)
    → IsSound m
    → m.committed_state ≢ ppm_priority
    → m.candidate_valid_frames ≡ 0
    → length os ≡ m.config.transition_confirm_good_frames
    → AllClaim m os
    → let m' = run m os in
      (m'.committed_state ≡ ppm_priority)
      × (m'.priority_epoch ≡ u32 (m.priority_epoch + 1))
      × (allows_lan (authority_state m') ≡ false)
run_takeover os m v c z l a = run_claim os m v c (inl z) (omega arith) a
