-- ===== src/CommunicationQuality/Health.antt =====
-- The health that the model of a link reports, at a time and from one exchange to the next.
use sistema_motriz_rs.Base.{
  ℕ, ◌≤◌, ◌<◌, ◌≡◌, ◌↔◌, ◌⊎◌, true, false, arith, ◌==◌, if◌then◌else◌, not,
}
use sistema_motriz_rs.CommunicationQuality.Model.{
  Health, healthy, suspect, stale, offline, good, transient_failure, Model, policy_valid, state_at,
  age, needs_recovery, record_good, record_failure, quality_of,
}
use sistema_motriz_rs.CommunicationQuality.Recovery.{IsSound}

-- How bad a state is.
abbrev pub severity : Health → ℕ
severity Health.unknown = 0
severity healthy = 1
severity suspect = 2
severity Health.degraded = 3
severity stale = 4
severity offline = 5

-- A link never gets better by waiting: with a valid policy, a later time within one turn of the
-- clock reports a state that is as bad or worse.
pub state_at-monotone :
    (m : Model) (now_ms later_ms : ℕ)
    → policy_valid m.policy ≡ true
    → age m now_ms ≤ age m later_ms
    → severity (state_at m now_ms) ≤ severity (state_at m later_ms)
unfolding state_at policy_valid
state_at-monotone m now_ms later_ms v h = ground arith

-- A failure never improves the state.
pub record_failure_worsens :
    (m : Model) (now_ms reason at_ms : ℕ)
    → severity (state_at m at_ms) ≤ severity (state_at (record_failure m now_ms reason) at_ms)
unfolding state_at record_failure
record_failure_worsens m now_ms reason at_ms = ground arith

-- A link is healthy exactly if it has been good, is not recovering, has had fewer failures in a row
-- than the policy suspects, and its last good exchange is not older than the age that warns.
pub state_at-healthy_iff :
    (m : Model) (now_ms : ℕ)
    → policy_valid m.policy ≡ true
    → (state_at m now_ms ≡ healthy) ↔ (
        (m.has_last_good ≡ true)
        × (m.recovery_pending ≡ false)
        × (m.consecutive_failures < m.policy.suspect_failure_count)
        × (age m now_ms ≤ m.policy.warning_age_ms))
unfolding state_at policy_valid
state_at-healthy_iff m now_ms v = ground arith

fresh_state :
    (m : Model)
    → policy_valid m.policy ≡ true
    → m.has_last_good ≡ true
    → m.consecutive_failures ≡ 0
    → state_at m m.last_good_ms ≡ (if m.recovery_pending then suspect else healthy)
unfolding state_at policy_valid
fresh_state m v g f = ground arith

-- After a good exchange the link is suspect while it recovers, and healthy otherwise.
pub record_good_state :
    (m : Model) (now_ms : ℕ)
    → IsSound m
    → let m' = record_good m now_ms in
      state_at m' now_ms ≡ (if m'.recovery_pending then suspect else healthy)
unfolding record_good
record_good_state m now_ms v = ground (arith, fresh_state (record_good m now_ms))

recovery_starts :
    (m : Model) (now_ms : ℕ)
    → IsSound m
    → needs_recovery (state_at m now_ms) ≡ true
    → (record_good m now_ms).recovery_pending ≡ not (m.policy.recovery_confirm_count == 1)
unfolding record_good policy_valid
recovery_starts m now_ms v h = ground arith

-- The first good exchange of a link that was degraded, stale or offline makes it suspect, except
-- where the policy asks for no more than one good exchange.
pub record_good_recovers :
    (m : Model) (now_ms : ℕ)
    → IsSound m
    → needs_recovery (state_at m now_ms) ≡ true
    → state_at (record_good m now_ms) now_ms
      ≡ (if m.policy.recovery_confirm_count == 1 then healthy else suspect)
record_good_recovers m now_ms v h =
    ground (arith, record_good_state m now_ms v, recovery_starts m now_ms v h)

-- A healthy link has quality good or transient failure: the quality, which leaves the age out, never
-- calls it degraded, recovering or unknown.
pub healthy_quality :
    (m : Model) (now_ms : ℕ)
    → policy_valid m.policy ≡ true
    → state_at m now_ms ≡ healthy
    → (quality_of m ≡ good) ⊎ (quality_of m ≡ transient_failure)
unfolding state_at quality_of policy_valid
healthy_quality m now_ms v h = ground arith
