-- ===== src/BusTransport/Tests.antt =====
-- A bus whose lock can be busy and whose device answers an odd first byte, and the theorems at
-- concrete inputs.
use sistema_motriz_rs.Base.{
  ℕ, ◌+◌, ◌-◌, ◌%◌, ◌≡◌, refl, Bool, true, false, List, [], ◌∷◌, arith, ◌==◌, not, ◌||◌, length,
  if◌then◌else◌, get_or,
}
use sistema_motriz_rs.BusTransport.Controller.{
  transport_ok, transport_invalid_argument, timeout, Backend, Controller, blank_stats, count_result,
  count_transaction, record_result, controller_transact,
}
use sistema_motriz_rs.BusTransport.Transactions.{
  Request, Balanced, Answers, run-Balanced, Locks, Same, run-releases, run,
}

computes : Unit {0}
unfolding count_result count_transaction record_result controller_transact
computes = tt

-- Whether the device is set up, another holder of the bus, our hold, and the hold of the counts.
pub record World : Type 0 where
  pub ready : Bool
  pub taken_by_other : Bool
  pub bus : ℕ
  pub stats : ℕ

abbrev backend : Backend World
backend = record {
  acquire = λ t w. if w.taken_by_other then (w, false) else (record w { bus = w.bus + 1 }, true);
  release = λ w. record w { bus = w.bus - 1 };
  stats_acquire = λ w. (record w { stats = w.stats + 1 }, true);
  stats_release = λ w. record w { stats = w.stats - 1 };
  exchange = λ bytes capacity limit w. (
    w,
    if not w.ready || length bytes == 0 || capacity == 0
        then transport_invalid_argument
        else if get_or bytes 0 0 % 2 == 1
        then transport_ok
        else timeout,
    bytes,
  );
}

abbrev controller : Controller World
controller = record {
  backend = backend;
  stats = blank_stats;
  lock_timeout_ms = 5;
  initialized = true;
}

abbrev request : ℕ → Request
request b = record { bytes = b ∷ 2 ∷ []; capacity = 8; timeout_ms = 20 }

abbrev requests : List Request
requests =
    request 1 ∷ request 4 ∷ record { bytes = []; capacity = 8; timeout_ms = 20 } ∷ request 3 ∷ []

abbrev free : World
free = record { ready = true; taken_by_other = false; bus = 0; stats = 0 }

abbrev taken : World
taken = record free { taken_by_other = true }

counted : (run (controller, free) requests).0.stats.successes ≡ 2
unfolding computes
counted = refl

refused : (run (controller, taken) requests).0.stats.busy_count ≡ 3
unfolding computes
refused = refl

abbrev IsReady : World → Type 0
IsReady w = w.ready ≡ true

backend-Answers : Answers IsReady backend
backend-Answers = record {
  acquire_up = λ t w u. ground (arith, u);
  release_up = λ w u. u;
  stats_acquire_up = λ w u. u;
  stats_release_up = λ w u. u;
  exchange_up = λ bytes capacity limit w u. u;
  exchange_answers = λ bytes capacity limit w u l c. ground (arith, u, l, c);
}

run-Balanced_example : Balanced (run (controller, free) requests).0.stats
run-Balanced_example =
    run-Balanced IsReady (controller, free) requests backend-Answers refl refl (ground arith)

backend-Locks : Locks (λ w. w.bus) (λ w. w.stats) backend
backend-Locks = record {
  taken = λ t w. ground arith;
  refused = λ t w. ground arith;
  acquire_keeps = λ t w. ground arith;
  returned = λ w. refl;
  release_keeps = λ w. refl;
  stats_taken = λ w. ground arith;
  stats_refused = λ w. ground arith;
  stats_acquire_keeps = λ w. refl;
  stats_returned = λ w. refl;
  stats_release_keeps = λ w. refl;
  exchange_keeps = λ bytes capacity limit w. (refl, refl);
}

run-releases_example : Same (λ w. w.bus) (λ w. w.stats) taken (run (controller, taken) requests).1
run-releases_example =
    run-releases (λ w. w.bus) (λ w. w.stats) (controller, taken) requests backend-Locks
