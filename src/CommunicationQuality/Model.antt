-- ===== src/CommunicationQuality/Model.antt =====
-- components/communication_quality/communication_quality_model.c, with the data of its header. A
-- pointer that the code tests against NULL is an `Option`, or a flag for an output pointer.
use Prim.Native.String.{String}
use sistema_motriz_rs.Base.{
  ℕ, ◌+◌, Bool, true, false, not, ◌&&◌, ◌||◌, Option, none, some, ltb, leb, ◌==◌, if◌then◌else◌,
  u32, u32_max, sub_u32,
}

pub data Health : Type 0 where
  unknown healthy suspect degraded stale offline : Health

pub data Quality : Type 0 where
  unknown good transient_failure degraded recovering : Quality

pub record Policy : Type 0 where
  pub warning_age_ms : ℕ
  pub stale_age_ms : ℕ
  pub offline_age_ms : ℕ
  pub suspect_failure_count : ℕ
  pub degraded_failure_count : ℕ
  pub recovery_confirm_count : ℕ

pub record Model : Type 0 where
  pub policy : Policy
  pub initialized : Bool
  pub has_last_good : Bool
  pub recovery_pending : Bool
  pub last_good_ms : ℕ
  pub last_failure_ms : ℕ
  pub last_failure_reason : ℕ
  pub consecutive_good : ℕ
  pub consecutive_failures : ℕ
  pub total_good : ℕ
  pub total_failures : ℕ

pub record Snapshot : Type 0 where
  pub raw_state : Health
  pub effective_state : Health
  pub quality : Quality
  pub has_last_good : Bool
  pub last_good_age_ms : ℕ
  pub last_failure_age_ms : ℕ
  pub last_failure_reason : ℕ
  pub consecutive_good : ℕ
  pub consecutive_failures : ℕ
  pub total_good : ℕ
  pub total_failures : ℕ

unfoldable pub policy_valid : Policy → Bool
policy_valid p =
    ltb 0 p.warning_age_ms
    && leb p.warning_age_ms p.stale_age_ms
    && ltb p.stale_age_ms p.offline_age_ms
    && ltb 0 p.suspect_failure_count
    && leb p.suspect_failure_count p.degraded_failure_count
    && ltb 0 p.recovery_confirm_count

-- `now_ms - model->last_good_ms`
abbrev pub age : Model → ℕ → ℕ
age m now_ms = sub_u32 now_ms m.last_good_ms

unfoldable pub state_at : Model → ℕ → Health
state_at m now_ms =
    if not m.has_last_good
    then unknown
    else if ltb m.policy.offline_age_ms (age m now_ms)
    then offline
    else if ltb m.policy.stale_age_ms (age m now_ms)
    then stale
    else if m.recovery_pending
    then suspect
    else if leb m.policy.degraded_failure_count m.consecutive_failures
    then degraded
    else if leb m.policy.suspect_failure_count m.consecutive_failures
        || ltb m.policy.warning_age_ms (age m now_ms)
    then suspect
    else healthy

-- What `memset` leaves, with the policy.
abbrev pub started : Policy → Model
started p = record {
  policy = p;
  initialized = true;
  has_last_good = false;
  recovery_pending = false;
  last_good_ms = 0;
  last_failure_ms = 0;
  last_failure_reason = 0;
  consecutive_good = 0;
  consecutive_failures = 0;
  total_good = 0;
  total_failures = 0;
}

unfoldable pub init : Option Model → Option Policy → Option Model × Bool
init none p = (none, false)
init (some m) none = (some m, false)
init (some m) (some p) = if policy_valid p then (some (started p), true) else (some m, false)

abbrev pub needs_recovery : Health → Bool
needs_recovery degraded = true
needs_recovery stale = true
needs_recovery offline = true
needs_recovery _ = false

unfoldable pub record_good : Model → ℕ → Model
record_good m now_ms =
    let lost = needs_recovery (state_at m now_ms) in
    let run = u32 ((if lost then 0 else m.consecutive_good) + 1) in
    if not m.initialized then m else record m {
      recovery_pending =
          (lost || m.recovery_pending) && not (leb m.policy.recovery_confirm_count run);
      has_last_good = true;
      last_good_ms = now_ms;
      consecutive_failures = 0;
      consecutive_good = run;
      total_good = u32 (m.total_good + 1);
    }

unfoldable pub record_failure : Model → ℕ → ℕ → Model
record_failure m now_ms raw_failure_reason = if not m.initialized then m else record m {
  last_failure_ms = now_ms;
  last_failure_reason = raw_failure_reason;
  consecutive_good = 0;
  consecutive_failures =
      if ltb m.consecutive_failures u32_max
      then m.consecutive_failures + 1
      else m.consecutive_failures;
  total_failures = u32 (m.total_failures + 1);
}

unfoldable pub raw_state_of : Model → Health
raw_state_of m =
    if not m.has_last_good
    then unknown
    else if m.consecutive_failures == 0
    then healthy
    else suspect

unfoldable pub quality_of : Model → Quality
quality_of m =
    if not m.has_last_good
    then unknown
    else if m.recovery_pending
    then recovering
    else if leb m.policy.degraded_failure_count m.consecutive_failures
    then degraded
    else if ltb 0 m.consecutive_failures
    then transient_failure
    else good

-- `none` for the result false; the flag tells whether a snapshot is asked for.
unfoldable pub snapshot : Option Model → ℕ → Bool → Option Snapshot
snapshot none now_ms wanted = none
snapshot (some m) now_ms wanted =
    if not m.initialized || not wanted
    then none
    else some (record {
      raw_state = raw_state_of m;
      effective_state = state_at m now_ms;
      quality = quality_of m;
      has_last_good = m.has_last_good;
      last_good_age_ms = if m.has_last_good then age m now_ms else u32_max;
      last_failure_age_ms =
          if ltb 0 m.total_failures then sub_u32 now_ms m.last_failure_ms else u32_max;
      last_failure_reason = m.last_failure_reason;
      consecutive_good = m.consecutive_good;
      consecutive_failures = m.consecutive_failures;
      total_good = m.total_good;
      total_failures = m.total_failures;
    })

abbrev pub health_name : Health → String
health_name healthy = "HEALTHY"
health_name suspect = "SUSPECT"
health_name degraded = "DEGRADED"
health_name stale = "STALE"
health_name offline = "OFFLINE"
health_name unknown = "UNKNOWN"

abbrev pub quality_name : Quality → String
quality_name good = "GOOD"
quality_name transient_failure = "TRANSIENT_FAILURE"
quality_name degraded = "DEGRADED"
quality_name recovering = "RECOVERING"
quality_name unknown = "UNKNOWN"
