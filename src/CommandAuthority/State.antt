-- ===== src/CommandAuthority/State.antt =====
-- The data of components/command_authority: include/command_authority_model.h and the helpers of
-- command_authority_model.c on velocities, configurations and mailboxes.
use sistema_motriz_rs.Base.{
  ℕ, ◌-◌, Bool, true, false, not, ◌&&◌, ◌||◌, List, ltb, leb, ◌==◌, if◌then◌else◌, ◌≡◌, arith,
}
use sistema_motriz_rs.Base.Float.{Float32}

-- `COMMAND_AUTHORITY_SOURCE_COUNT` is only the size of an array.
pub data Source : Type 0 where
  none_source bluetooth lan rc : Source

pub data Outcome : Type 0 where
  ok invalid_argument invalid_config not_initialized invalid_source stream_id_zero : Outcome
  stream_retired stream_history_full sequence_not_increasing clock_regression : Outcome
  timestamp_in_future timestamp_regression ttl_invalid expired_on_arrival : Outcome
  nonfinite_velocity velocity_limit_exceeded counter_exhausted_result : Outcome

pub data Decision : Type 0 where
  invalid stop_output apply fault_stop : Decision

pub data Reason : Type 0 where
  no_reason no_fresh_source source_switch waiting_fresh_after_switch : Reason
  selected_source_expired selected_source_invalidated command_applied explicit_stop : Reason
  clock_went_back counters_exhausted bad_argument no_model : Reason

pub record Velocity (F : Type 0) : Type 0 where
  pub vx : F
  pub vy : F
  pub wz : F

pub record Command (F : Type 0) : Type 0 where
  pub stream_id : ℕ
  pub sequence : ℕ
  pub received_at_ms : ℕ
  pub ttl_ms : ℕ
  pub valid : Bool
  pub deadman : Bool
  pub body : Velocity F

pub record Config (F : Type 0) : Type 0 where
  pub velocity_limit : Velocity F
  pub moving_epsilon : Velocity F
  pub max_ttl_ms : ℕ

-- `retired` holds the first `retired_stream_count` entries of `retired_stream_ids`.
pub record Mailbox (F : Type 0) : Type 0 where
  pub command : Command F
  pub revision : ℕ
  pub retired : List ℕ
  pub initialized : Bool

-- The array indexed by source; the entry of `none_source` is never written.
pub record Mailboxes (F : Type 0) : Type 0 where
  pub at_none : Mailbox F
  pub at_bluetooth : Mailbox F
  pub at_lan : Mailbox F
  pub at_rc : Mailbox F

pub record Model (F : Type 0) : Type 0 where
  pub config : Config F
  pub mailboxes : Mailboxes F
  pub selected_source : Source
  pub authority_granted : Bool
  pub last_output_moving : Bool
  pub counter_exhausted : Bool
  pub epoch : ℕ
  pub publication_revision : ℕ
  pub barrier_revision : ℕ
  pub barrier_time_ms : ℕ
  pub applied_revision : ℕ
  pub last_now_ms : ℕ
  pub has_observed_time : Bool
  pub output : Velocity F
  pub last_decision : Decision
  pub last_reason : Reason
  pub last_publish_result : Outcome
  pub initialized : Bool

pub record Cycle (F : Type 0) : Type 0 where
  pub decision : Decision
  pub reason : Reason
  pub previous_source : Source
  pub selected_source : Source
  pub authority_granted : Bool
  pub epoch : ℕ
  pub publication_revision : ℕ
  pub barrier_revision : ℕ
  pub barrier_time_ms : ℕ
  pub command_revision : ℕ
  pub output : Velocity F

abbrev pub retired_stream_capacity : ℕ
retired_stream_capacity = 16

abbrev pub source_is_valid : Source → Bool
source_is_valid none_source = false
source_is_valid bluetooth = true
source_is_valid lan = true
source_is_valid rc = true

abbrev pub source_eq : Source → Source → Bool
source_eq none_source none_source = true
source_eq bluetooth bluetooth = true
source_eq lan lan = true
source_eq rc rc = true
source_eq _ _ = false

pub source_eq_sound : (a b : Source) → source_eq a b ≡ true → a ≡ b
source_eq_sound a b h = ground arith

pub source_eq_refl : (a : Source) → source_eq a a ≡ true
source_eq_refl a = ground arith

-- `mailboxes[source]`
abbrev pub mailbox_at : {F : Type 0} → Mailboxes F → Source → Mailbox F
mailbox_at b none_source = b.at_none
mailbox_at b bluetooth = b.at_bluetooth
mailbox_at b lan = b.at_lan
mailbox_at b rc = b.at_rc

abbrev pub set_mailbox : {F : Type 0} → Mailboxes F → Source → Mailbox F → Mailboxes F
set_mailbox b none_source m = record b { at_none = m }
set_mailbox b bluetooth m = record b { at_bluetooth = m }
set_mailbox b lan m = record b { at_lan = m }
set_mailbox b rc m = record b { at_rc = m }

module _ {F : Type 0} where
  unfoldable pub mailbox_is_fresh : Mailbox F → ℕ → Bool
  mailbox_is_fresh m now =
      if not m.initialized || not m.command.valid || ltb now m.command.received_at_ms
      then false
      else ltb (now - m.command.received_at_ms) m.command.ttl_ms

  unfoldable pub mailbox_is_expired : Mailbox F → ℕ → Bool
  mailbox_is_expired m now =
      if not m.initialized || not m.command.valid || ltb now m.command.received_at_ms
      then false
      else leb m.command.ttl_ms (now - m.command.received_at_ms)

  unfoldable pub highest_fresh_source : Model F → ℕ → Source
  highest_fresh_source model now =
      if mailbox_is_fresh model.mailboxes.at_rc now
      then rc
      else if mailbox_is_fresh model.mailboxes.at_lan now
      then lan
      else if mailbox_is_fresh model.mailboxes.at_bluetooth now
      then bluetooth
      else none_source

module _ {F : Type 0} ⦃fl : Float32 F⦄ where
  abbrev pub zero_velocity : Velocity F
  zero_velocity = record { vx = fl.zero_f; vy = fl.zero_f; wz = fl.zero_f }

  unfoldable pub scalar_abs : F → F
  scalar_abs x = if fl.lt x fl.zero_f then fl.neg x else x

  unfoldable pub velocity_is_finite : Velocity F → Bool
  velocity_is_finite v = fl.is_finite v.vx && fl.is_finite v.vy && fl.is_finite v.wz

  unfoldable pub config_is_valid : Config F → Bool
  config_is_valid c =
      if c.max_ttl_ms == 0
        || not (velocity_is_finite c.velocity_limit)
        || not (velocity_is_finite c.moving_epsilon)
      then false
      else if fl.le c.velocity_limit.vx fl.zero_f
          || fl.le c.velocity_limit.vy fl.zero_f
          || fl.le c.velocity_limit.wz fl.zero_f
      then false
      else if fl.lt c.moving_epsilon.vx fl.zero_f
          || fl.lt c.moving_epsilon.vy fl.zero_f
          || fl.lt c.moving_epsilon.wz fl.zero_f
      then false
      else fl.le c.moving_epsilon.vx c.velocity_limit.vx
        && fl.le c.moving_epsilon.vy c.velocity_limit.vy
        && fl.le c.moving_epsilon.wz c.velocity_limit.wz

  -- `x > y` of C is `y < x`.
  unfoldable pub velocity_is_moving : Config F → Velocity F → Bool
  velocity_is_moving c v =
      if not (velocity_is_finite v)
      then false
      else fl.lt c.moving_epsilon.vx (scalar_abs v.vx)
        || fl.lt c.moving_epsilon.vy (scalar_abs v.vy)
        || fl.lt c.moving_epsilon.wz (scalar_abs v.wz)

  unfoldable pub velocity_is_within_limits : Config F → Velocity F → Bool
  velocity_is_within_limits c v =
      fl.le (scalar_abs v.vx) c.velocity_limit.vx
      && fl.le (scalar_abs v.vy) c.velocity_limit.vy
      && fl.le (scalar_abs v.wz) c.velocity_limit.wz
