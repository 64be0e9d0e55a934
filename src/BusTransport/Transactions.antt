-- ===== src/BusTransport/Transactions.antt =====
-- Any sequence of transactions of components/bus_transport/bus_transport.c: the locks and the counts.
use mathlib.Core.Path.{subst}
use sistema_motriz_rs.Base.{
  ℕ, ◌+◌, ◌-◌, ◌<◌, ◌≤◌, ◌≡◌, ◌≢◌, refl, sym, ◌∙◌, true, false, List, [], ◌∷◌, length, arith,
  u32_max, Bool-cases, inl, inr, not, ◌||◌, ◌==◌,
}
use sistema_motriz_rs.BusTransport.Controller.{
  TransportResult, transport_invalid_argument, busy, TransportStats, Backend, Controller,
  count_result, count_transaction, record_result, bounded_lock_timeout, controller_transact,
}

pub record Request : Type 0 where
  pub bytes : List ℕ
  pub capacity : ℕ
  pub timeout_ms : ℕ

-- Every transaction is in exactly one of the six counts.
abbrev pub Balanced : TransportStats → Type 0
Balanced s =
    s.successes + s.timeouts + s.busy_count + s.io_errors + s.incomplete_frames + s.cancellations
    ≡ s.transactions

count_transaction-Balanced :
    (r : TransportResult) (tx rx : ℕ) (s : TransportStats)
    → Balanced s
    → s.transactions < u32_max
    → r ≢ transport_invalid_argument
    → Balanced (count_transaction r tx rx s)
      × ((count_transaction r tx rx s).transactions ≡ s.transactions + 1)
unfolding count_transaction count_result
count_transaction-Balanced r tx rx s b l n = ground arith

module _ {W : Type 0} where
  abbrev pub step : Controller W × W → Request → Controller W × W
  step s r =
      let t = controller_transact s.0 r.bytes r.capacity r.timeout_ms s.1 in (t.controller, t.world)

  abbrev pub run : Controller W × W → List Request → Controller W × W
  run s [] = s
  run s (r ∷ rs) = run (step s r) rs

  record_result-Balanced :
      (c : Controller W) (r : TransportResult) (tx rx : ℕ) (w : W)
      → Balanced c.stats
      → c.stats.transactions < u32_max
      → r ≢ transport_invalid_argument
      → let d = (record_result c r tx rx w).0 in
        Balanced d.stats
        × (d.stats.transactions ≤ c.stats.transactions + 1)
        × (d.backend ≡ c.backend)
  unfolding record_result
  record_result-Balanced c r tx rx w b l n =
      ground (arith, count_transaction-Balanced r tx rx c.stats b l n)

  -- A backend that is up stays so, whatever is called, and answers that its arguments are invalid
  -- only to an empty request or without room for a response.
  pub record Answers (up : W → Type 0) (b : Backend W) : Type 0 where
    pub acquire_up : (t : ℕ) (w : W) → up w → up (b.acquire t w).0
    pub release_up : (w : W) → up w → up (b.release w)
    pub stats_acquire_up : (w : W) → up w → up (b.stats_acquire w).0
    pub stats_release_up : (w : W) → up w → up (b.stats_release w)
    pub exchange_up :
        (bytes : List ℕ) (capacity limit : ℕ) (w : W)
        → up w
        → up (b.exchange bytes capacity limit w).0
    pub exchange_answers :
        (bytes : List ℕ) (capacity limit : ℕ) (w : W)
        → up w
        → 0 < length bytes
        → 0 < capacity
        → (b.exchange bytes capacity limit w).1 ≢ transport_invalid_argument

  module _ (up : W → Type 0) where
    record_result-up :
        (c : Controller W) (r : TransportResult) (tx rx : ℕ) (w : W)
        → Answers up c.backend
        → up w
        → up (record_result c r tx rx w).1
    unfolding record_result
    record_result-up c r tx rx w a u =
        let v = (c.backend.stats_acquire w).0 in
        let k = a.stats_acquire_up w u in
        elim (Bool-cases (c.backend.stats_acquire w).1) [
          | inl y ↦ rw y (a.stats_release_up v k)
          | inr n ↦ rw n k
        ]

    step-Balanced :
        (s : Controller W × W) (r : Request)
        → Answers up s.0.backend
        → up s.1
        → Balanced s.0.stats
        → s.0.stats.transactions < u32_max
        → let d = (step s r).0 in
          Balanced d.stats
          × (d.stats.transactions ≤ s.0.stats.transactions + 1)
          × (d.backend ≡ s.0.backend)
          × up (step s r).1
    unfolding controller_transact
    step-Balanced s r a u b l =
        let c = s.0 in
        let t = bounded_lock_timeout c r.timeout_ms in
        let w₁ = (c.backend.acquire t s.1).0 in
        let u₁ = a.acquire_up t s.1 u in
        let e = c.backend.exchange r.bytes r.capacity r.timeout_ms w₁ in
        let u₂ = a.release_up e.0 (a.exchange_up r.bytes r.capacity r.timeout_ms w₁ u₁) in
        let tx = length r.bytes in
        let rx = length e.2 in
        let refused = record_result-Balanced c busy 0 0 w₁ b l (ground arith) in
        let done = record_result-Balanced c e.1 tx rx (c.backend.release e.0) b l in
        let answer = a.exchange_answers r.bytes r.capacity r.timeout_ms w₁ u₁ in
        let up_refused = record_result-up c busy 0 0 w₁ a u₁ in
        let up_done = record_result-up c e.1 tx rx (c.backend.release e.0) a u₂ in
        let bad = not c.initialized || tx == 0 || r.capacity == 0 || r.timeout_ms == 0 in
        elim (Bool-cases bad) [
          | inl y ↦ rw y (b, omega arith, refl, u)
          | inr n ↦ elim (Bool-cases (c.backend.acquire t s.1).1) [
            | inl y ↦
                let k = done (answer (ground (arith, n)) (ground (arith, n))) in
                rw (n, y) (k.0, k.1, k.2, up_done)
            | inr f ↦ rw (n, f) (refused.0, refused.1, refused.2, up_refused)
          ]
        ]

    -- As long as fewer than 2^32 transactions are counted, every counted one is in exactly one of the
    -- six counts of results, after any sequence of transactions: of those that are refused for their
    -- arguments, that do not get the bus, and that are exchanged. The backend is up at the start, and
    -- one that is up is supposed to stay so and to find a request with bytes and room valid.
    pub run-Balanced :
        (s : Controller W × W) (rs : List Request)
        → Answers up s.0.backend
        → up s.1
        → Balanced s.0.stats
        → s.0.stats.transactions + length rs ≤ u32_max
        → Balanced (run s rs).0.stats
    run-Balanced s [] a u b l = b
    run-Balanced s (r ∷ rs) a u b l =
        let k = step-Balanced s r a u b (ground arith) in
        run-Balanced (step s r) rs (subst (Answers up) (sym k.2) a) k.3 k.0 (ground (arith, l, k.1))

  -- How often the lock of the bus and the lock of the counts are held.
  pub record Locks (bus stats : W → ℕ) (b : Backend W) : Type 0 where
    pub taken : (t : ℕ) (w : W) → (b.acquire t w).1 ≡ true → bus (b.acquire t w).0 ≡ bus w + 1
    pub refused : (t : ℕ) (w : W) → (b.acquire t w).1 ≡ false → bus (b.acquire t w).0 ≡ bus w
    pub acquire_keeps : (t : ℕ) (w : W) → stats (b.acquire t w).0 ≡ stats w
    pub returned : (w : W) → bus (b.release w) ≡ bus w - 1
    pub release_keeps : (w : W) → stats (b.release w) ≡ stats w
    pub stats_taken :
        (w : W) → (b.stats_acquire w).1 ≡ true → stats (b.stats_acquire w).0 ≡ stats w + 1
    pub stats_refused :
        (w : W) → (b.stats_acquire w).1 ≡ false → stats (b.stats_acquire w).0 ≡ stats w
    pub stats_acquire_keeps : (w : W) → bus (b.stats_acquire w).0 ≡ bus w
    pub stats_returned : (w : W) → stats (b.stats_release w) ≡ stats w - 1
    pub stats_release_keeps : (w : W) → bus (b.stats_release w) ≡ bus w
    pub exchange_keeps :
        (bytes : List ℕ) (capacity limit : ℕ) (w : W)
        → (bus (b.exchange bytes capacity limit w).0 ≡ bus w)
          × (stats (b.exchange bytes capacity limit w).0 ≡ stats w)

  module _ (bus stats : W → ℕ) where
    -- The same holds of both locks.
    abbrev pub Same : W → W → Type 0
    Same w v = (bus v ≡ bus w) × (stats v ≡ stats w)

    record_result-Same :
        (c : Controller W) (r : TransportResult) (tx rx : ℕ) (w : W)
        → Locks bus stats c.backend
        → Same w (record_result c r tx rx w).1 × ((record_result c r tx rx w).0.backend ≡ c.backend)
    unfolding record_result
    record_result-Same c r tx rx w k =
        let v = (c.backend.stats_acquire w).0 in
        ground (
          arith,
          k.stats_taken w,
          k.stats_refused w,
          k.stats_acquire_keeps w,
          k.stats_returned v,
          k.stats_release_keeps v,
        )

    step-Same :
        (s : Controller W × W) (r : Request)
        → Locks bus stats s.0.backend
        → Same s.1 (step s r).1 × ((step s r).0.backend ≡ s.0.backend)
    unfolding controller_transact
    step-Same s r k =
        let c = s.0 in
        let t = bounded_lock_timeout c r.timeout_ms in
        let w₁ = (c.backend.acquire t s.1).0 in
        let e = c.backend.exchange r.bytes r.capacity r.timeout_ms w₁ in
        ground (
          arith,
          k.taken t s.1,
          k.refused t s.1,
          k.acquire_keeps t s.1,
          k.exchange_keeps r.bytes r.capacity r.timeout_ms w₁,
          k.returned e.0,
          k.release_keeps e.0,
          record_result-Same c busy 0 0 w₁ k,
          record_result-Same c e.1 (length r.bytes) (length e.2) (c.backend.release e.0) k,
        )

    -- Any sequence of transactions leaves the lock of the bus and the lock of the counts as it found
    -- them, whichever are refused or fail.
    pub run-releases :
        (s : Controller W × W) (rs : List Request)
        → Locks bus stats s.0.backend
        → Same s.1 (run s rs).1
    run-releases s [] k = (refl, refl)
    run-releases s (r ∷ rs) k =
        let a = step-Same s r k in
        let b = run-releases (step s r) rs (subst (Locks bus stats) (sym a.1) k) in
        (b.0 ∙ a.0.0, b.1 ∙ a.0.1)
