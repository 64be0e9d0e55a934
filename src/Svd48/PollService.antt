-- ===== src/Svd48/PollService.antt =====
-- components/svd48/svd48_poll_service.c, with the data of its header. A device stands for its
-- pointer; pointers are not NULL here, and for NULL the code does nothing; the clock and `svd48_device_poll` are operations on the rest of the world, and so is the
-- test whether a device is initialized.
use sistema_motriz_rs.Base.{
  ℕ, zero, suc, ◌+◌, Bool, true, false, not, ◌&&◌, ◌||◌, List, [], ◌∷◌, ◌++◌, Option, none, some,
  ltb, leb, ◌==◌, if◌then◌else◌, u8_max, u32, sub_u32, length,
}

pub data DeviceResult : Type 0 where
  device_ok invalid_argument timeout bus_busy io_error incomplete_frame cancelled : DeviceResult
  crc_error device_exception bad_response unsupported partial : DeviceResult

abbrev pub is_ok : DeviceResult → Bool
is_ok device_ok = true
is_ok _ = false

abbrev pub max_devices : ℕ
max_devices = 4

abbrev pub default_poll_period_ms : ℕ
default_poll_period_ms = 30

abbrev pub backoff_max_ms : ℕ
backoff_max_ms = 1500

abbrev pub int32_max : ℕ
int32_max = 2147483647

pub record PollEntry : Type 0 where
  pub device : ℕ
  pub period_ms : ℕ
  pub next_poll_ms : ℕ
  pub scheduled : Bool
  pub consecutive_failures : ℕ
  pub last_result : DeviceResult

-- `entries` holds the first `count` entries.
pub record PollService : Type 0 where
  pub entries : List PollEntry
  pub initialized : Bool

-- `(int32_t)(now - deadline) >= 0`
unfoldable pub time_reached : ℕ → ℕ → Bool
time_reached now deadline = leb (sub_u32 now deadline) int32_max

-- `SVD48_BACKOFF_BASE_MS << shift`
unfoldable pub shifted_backoff : ℕ → ℕ
shifted_backoff zero = 250
shifted_backoff (suc zero) = 500
shifted_backoff (suc (suc zero)) = 1000
shifted_backoff (suc (suc (suc _))) = 2000

unfoldable pub failure_backoff_ms : ℕ → ℕ
failure_backoff_ms zero = 0
failure_backoff_ms (suc n) =
    let backoff = shifted_backoff (if ltb 4 (suc n) then 3 else n) in
    if ltb backoff_max_ms backoff then backoff_max_ms else backoff

-- `svd48_poll_service_init` with a clock, and `svd48_poll_service_reset`.
abbrev pub init : PollService
init = record { entries = []; initialized = true }

abbrev pub reset : PollService
reset = record { entries = []; initialized = false }

unfoldable pub has_device : List PollEntry → ℕ → Bool
has_device [] device = false
has_device (e ∷ es) device = e.device == device || has_device es device

abbrev pub effective_period : ℕ → ℕ
effective_period period_ms = if period_ms == 0 then default_poll_period_ms else period_ms

unfoldable pub add_device : PollService → ℕ → Bool → ℕ → PollService × Bool
add_device s device device_initialized period_ms =
    let entry : PollEntry = record {
      device = device;
      period_ms = effective_period period_ms;
      next_poll_ms = 0;
      scheduled = false;
      consecutive_failures = 0;
      last_result = timeout;
    } in
    if not s.initialized
      || not device_initialized
      || leb max_devices (length s.entries)
      || leb int32_max (effective_period period_ms)
      || has_device s.entries device
    then (s, false)
    else (record s { entries = s.entries ++ (entry ∷ []) }, true)

abbrev pub failures_after : PollEntry → ℕ
failures_after e =
    if ltb e.consecutive_failures u8_max then e.consecutive_failures + 1 else e.consecutive_failures

-- How long an entry waits after a poll with this result.
unfoldable pub poll_delay : PollEntry → DeviceResult → ℕ
poll_delay e result =
    let backoff = failure_backoff_ms (failures_after e) in
    if is_ok result || ltb backoff e.period_ms then e.period_ms else backoff

-- The fields of an entry after a poll that ended at `completed_at`.
unfoldable pub after_poll : PollEntry → DeviceResult → ℕ → PollEntry
after_poll e result completed_at = record e {
  last_result = result;
  consecutive_failures = if is_ok result then 0 else failures_after e;
  next_poll_ms = u32 (completed_at + poll_delay e result);
  scheduled = true;
}

unfoldable pub is_waiting : PollEntry → ℕ → Bool
is_waiting e now = e.scheduled && not (time_reached now e.next_poll_ms)

-- The shortest time to a deadline, at most `delay`; `none` where an entry is due.
unfoldable pub shortest_delay : List PollEntry → ℕ → ℕ → Option ℕ
shortest_delay [] now delay = some delay
shortest_delay (e ∷ es) now delay =
    let candidate = sub_u32 e.next_poll_ms now in
    let rest = shortest_delay es now (if ltb candidate delay then candidate else delay) in
    if is_waiting e now then rest else none

abbrev pub delay_of : Option ℕ → ℕ
delay_of none = 1
delay_of (some delay) = if delay == 0 then 1 else delay

module _ {W : Type 0} (clock_ms : W → ℕ × W) (device_poll : ℕ → W → DeviceResult × W) where
  -- The body of the loop: the entry, whether it was polled, and the world behind it.
  unfoldable pub poll_entry : PollEntry → W → PollEntry × Bool × W
  poll_entry e w =
      let (now, w₁) = clock_ms w in
      let (result, w₂) = device_poll e.device w₁ in
      let (completed_at, w₃) = clock_ms w₂ in
      if is_waiting e now then (e, false, w₁) else (after_poll e result completed_at, true, w₃)

  -- The loop, with the first error so far and whether a poll was attempted.
  unfoldable pub poll_entries :
      List PollEntry → DeviceResult → W → List PollEntry × DeviceResult × W
  poll_entries [] first_error w = ([], first_error, w)
  poll_entries (e ∷ es) first_error w =
      let (e', polled, w') = poll_entry e w in
      let (es', result, w'') =
        poll_entries es (if polled && is_ok first_error then e'.last_result else first_error) w' in
      (e' ∷ es', result, w'')

  unfoldable pub run_once : PollService → W → PollService × DeviceResult × W
  run_once s w =
      let (es, result, w') = poll_entries s.entries device_ok w in
      if not s.initialized || length s.entries == 0
      then (s, invalid_argument, w)
      else (record s { entries = es }, result, w')

  unfoldable pub next_delay_ms : PollService → ℕ → W → ℕ × W
  next_delay_ms s maximum_delay_ms w =
      let (now, w') = clock_ms w in
      if not s.initialized || length s.entries == 0 || maximum_delay_ms == 0
      then (1, w)
      else (delay_of (shortest_delay s.entries now maximum_delay_ms), w')
