-- ===== src/BusTransport/Controller.antt =====
-- components/bus_transport/bus_transport.c. `W` is the world that the functions of the backend change. The
-- backend's functions are not NULL behind `controller_init`, and a call through a port or a pointer that
-- is NULL is one of the calls with `_call`.
use sistema_motriz_rs.Base.{
  ℕ, ◌+◌, Bool, true, false, not, ◌||◌, List, Option, none, some, ltb, ◌==◌, if◌then◌else◌, length,
  u32, u64,
}

pub data TransportResult : Type 0 where
  transport_ok transport_invalid_argument timeout busy io_error : TransportResult
  incomplete cancelled : TransportResult

pub record TransportStats : Type 0 where
  pub transactions : ℕ
  pub successes : ℕ
  pub timeouts : ℕ
  pub busy_count : ℕ
  pub io_errors : ℕ
  pub incomplete_frames : ℕ
  pub cancellations : ℕ
  pub tx_bytes : ℕ
  pub rx_bytes : ℕ

-- What an exchange gives back: its result and the bytes that it wrote.
pub record Backend (W : Type 0) : Type 0 where
  pub acquire : ℕ → W → W × Bool
  pub release : W → W
  pub stats_acquire : W → W × Bool
  pub stats_release : W → W
  pub exchange : List ℕ → ℕ → ℕ → W → W × TransportResult × List ℕ

pub record Controller (W : Type 0) : Type 0 where
  pub backend : Backend W
  pub stats : TransportStats
  pub lock_timeout_ms : ℕ
  pub initialized : Bool

abbrev pub blank_stats : TransportStats
blank_stats = record {
  transactions = 0;
  successes = 0;
  timeouts = 0;
  busy_count = 0;
  io_errors = 0;
  incomplete_frames = 0;
  cancellations = 0;
  tx_bytes = 0;
  rx_bytes = 0;
}

-- The counters wrap.
unfoldable pub count_result : TransportResult → TransportStats → TransportStats
count_result transport_ok s = record s { successes = u32 (s.successes + 1) }
count_result timeout s = record s { timeouts = u32 (s.timeouts + 1) }
count_result busy s = record s { busy_count = u32 (s.busy_count + 1) }
count_result io_error s = record s { io_errors = u32 (s.io_errors + 1) }
count_result incomplete s = record s { incomplete_frames = u32 (s.incomplete_frames + 1) }
count_result cancelled s = record s { cancellations = u32 (s.cancellations + 1) }
count_result transport_invalid_argument s = s

unfoldable pub count_transaction : TransportResult → ℕ → ℕ → TransportStats → TransportStats
count_transaction result request_length response_length s = count_result result (record s {
  transactions = u32 (s.transactions + 1);
  tx_bytes = u64 (s.tx_bytes + request_length);
  rx_bytes = u64 (s.rx_bytes + response_length);
})

-- The response of a call: the result and the bytes, none unless an exchange took place.
pub record Transacted (W : Type 0) : Type 0 where
  pub controller : Controller W
  pub world : W
  pub result : TransportResult
  pub response : List ℕ

module _ {W : Type 0} where
  unfoldable pub record_result : Controller W → TransportResult → ℕ → ℕ → W → Controller W × W
  record_result c result request_length response_length w =
      let (w₁, acquired) = c.backend.stats_acquire w in
      if not acquired then (c, w₁) else (
        record c { stats = count_transaction result request_length response_length c.stats },
        c.backend.stats_release w₁,
      )

  -- `lock_timeout_ms`, bounded by the time-out of the call.
  abbrev pub bounded_lock_timeout : Controller W → ℕ → ℕ
  bounded_lock_timeout c timeout_ms =
      if c.lock_timeout_ms == 0 || ltb timeout_ms c.lock_timeout_ms
      then timeout_ms
      else c.lock_timeout_ms

  unfoldable pub controller_transact : Controller W → List ℕ → ℕ → ℕ → W → Transacted W
  controller_transact c request response_capacity timeout_ms w =
      let (w₁, acquired) = c.backend.acquire (bounded_lock_timeout c timeout_ms) w in
      let refused = record_result c busy 0 0 w₁ in
      let e = c.backend.exchange request response_capacity timeout_ms w₁ in
      let done = record_result c e.1 (length request) (length e.2) (c.backend.release e.0) in
      if not c.initialized || length request == 0 || response_capacity == 0 || timeout_ms == 0
      then record {
        controller = c;
        world = w;
        result = transport_invalid_argument;
        response = List.[];
      }
      else if not acquired
      then record { controller = refused.0; world = refused.1; result = busy; response = List.[] }
      else record { controller = done.0; world = done.1; result = e.1; response = e.2 }

  unfoldable pub controller_get_stats : Controller W → W → W × Option TransportStats
  controller_get_stats c w =
      let (w₁, acquired) = c.backend.stats_acquire w in
      if not c.initialized
      then (w, none)
      else if not acquired
      then (w₁, none)
      else (c.backend.stats_release w₁, some c.stats)

  -- `none` where a function of the backend is NULL.
  unfoldable pub controller_init : Option (Backend W) → ℕ → Option (Controller W)
  controller_init none lock_timeout_ms = none
  controller_init (some backend) lock_timeout_ms = some (record {
    backend = backend;
    stats = blank_stats;
    lock_timeout_ms = lock_timeout_ms;
    initialized = true;
  })

  -- Without `initialized` no call reads the backend, which is NULL then.
  unfoldable pub controller_reset : Controller W → Controller W
  controller_reset c = record c { stats = blank_stats; lock_timeout_ms = 0; initialized = false }

  -- The port of a controller; `none` is NULL.
  unfoldable pub controller_port : Option (Controller W) → Option (Controller W)
  controller_port none = none
  controller_port (some c) = if c.initialized then some c else none

  unfoldable pub transact_call : Option (Controller W) → List ℕ → ℕ → ℕ → W → Option (Transacted W)
  transact_call none request response_capacity timeout_ms w = none
  transact_call (some c) request response_capacity timeout_ms w =
      some (controller_transact c request response_capacity timeout_ms w)

  unfoldable pub get_stats_call : Option (Controller W) → W → W × Option TransportStats
  get_stats_call none w = (w, none)
  get_stats_call (some c) w = controller_get_stats c w
