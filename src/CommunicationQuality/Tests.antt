-- ===== src/CommunicationQuality/Tests.antt =====
-- A link over time, and the theorems at concrete inputs.
use sistema_motriz_rs.Base.{◌≡◌, refl, true, List, [], ◌∷◌, arith}
use sistema_motriz_rs.CommunicationQuality.Model.{
  Health, healthy, suspect, stale, Policy, Model, policy_valid, state_at, started, init,
  record_good, record_failure, quality_of, raw_state_of, snapshot,
}
use sistema_motriz_rs.CommunicationQuality.Recovery.{
  IsSound, Exchange, record_exchange, run, init-IsSound, run-IsSound, goods, run_recovering,
  AllPrompt, run_good,
}

computes : Unit {0}
unfolding policy_valid state_at init record_good record_failure quality_of raw_state_of snapshot
    record_exchange run goods AllPrompt run_good
computes = tt

-- Warns after 100 ms, stale after 200, offline after 300; one failure is suspect, two degrade, and
-- two good exchanges recover.
abbrev link_policy : Policy
link_policy = record {
  warning_age_ms = 100;
  stale_age_ms = 200;
  offline_age_ms = 300;
  suspect_failure_count = 1;
  degraded_failure_count = 2;
  recovery_confirm_count = 2;
}

abbrev link : Model
link = started link_policy

link-IsSound : IsSound link
unfolding computes
link-IsSound = init-IsSound link link_policy (omega arith) refl

abbrev two_failures : List Exchange
two_failures = Exchange.good 1000 ∷ Exchange.failure 1010 7 ∷ Exchange.failure 1020 7 ∷ []

abbrev worn : Model
worn = run link two_failures

abbrev mending : Model
mending = run link (Exchange.good 1000 ∷ Exchange.good 1400 ∷ [])

worn-IsSound : IsSound worn
worn-IsSound = run-IsSound two_failures link link-IsSound

mending-IsSound : IsSound mending
mending-IsSound = run-IsSound (Exchange.good 1000 ∷ Exchange.good 1400 ∷ []) link link-IsSound

degrades : state_at worn 1030 ≡ Health.degraded
unfolding computes
degrades = refl

ages : (state_at mending 1450 ≡ suspect) × (state_at mending 1700 ≡ stale)
unfolding computes
ages = (refl, refl)

wraps : state_at (record_good link 4294967290) 10 ≡ healthy
unfolding computes
wraps = refl

run_recovering_example :
    (run mending (Exchange.failure 1410 3 ∷ Exchange.failure 1420 3 ∷ [])).recovery_pending ≡ true
unfolding computes
run_recovering_example =
    run_recovering (Exchange.failure 1410 3 ∷ Exchange.failure 1420 3 ∷ []) mending mending-IsSound
      refl (omega arith)
