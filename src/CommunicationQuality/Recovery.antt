-- ===== src/CommunicationQuality/Recovery.antt =====
-- A lost link recovers by consecutive good exchanges: the counter of the model over any sequence of
-- exchanges.
use sistema_motriz_rs.Base.{
  ℕ, ◌+◌, ◌≤◌, ◌<◌, ◌≡◌, true, false, List, [], ◌∷◌, some, arith, leb, u32_max, length, not,
}
use sistema_motriz_rs.CommunicationQuality.Model.{
  Policy, Model, policy_valid, state_at, age, init, record_good, record_failure,
}

-- A model in service.
pub record IsSound (m : Model) : Type 0 where
  pub is_initialized : m.initialized ≡ true
  pub valid : policy_valid m.policy ≡ true
  pub byte : m.policy.recovery_confirm_count ≤ 255
  pub word : m.consecutive_good ≤ u32_max
  pub pending_seen : m.recovery_pending ≡ true → m.has_last_good ≡ true
  pub pending_counts :
      m.recovery_pending ≡ true → m.consecutive_good < m.policy.recovery_confirm_count

pub data Exchange : Type 0 where
  good : ℕ → Exchange
  failure : ℕ → ℕ → Exchange

unfoldable pub record_exchange : Model → Exchange → Model
record_exchange m (good now_ms) = record_good m now_ms
record_exchange m (failure now_ms reason) = record_failure m now_ms reason

unfoldable pub run : Model → List Exchange → Model
run m [] = m
run m (e ∷ es) = run (record_exchange m e) es

pub init-IsSound :
    (m : Model) (p : Policy) {m' : Model}
    → p.recovery_confirm_count ≤ 255
    → init (some m) (some p) ≡ (some m', true)
    → IsSound m'
unfolding init
init-IsSound m p b h = ground arith

record_good-IsSound : (m : Model) (now_ms : ℕ) → IsSound m → IsSound (record_good m now_ms)
unfolding record_good
record_good-IsSound m now_ms v = ground arith

record_failure-IsSound :
    (m : Model) (now_ms reason : ℕ) → IsSound m → IsSound (record_failure m now_ms reason)
unfolding record_failure policy_valid
record_failure-IsSound m now_ms reason v = ground arith

record_exchange-IsSound : (m : Model) (e : Exchange) → IsSound m → IsSound (record_exchange m e)
unfolding record_exchange
record_exchange-IsSound m (good now_ms) v = record_good-IsSound m now_ms v
record_exchange-IsSound m (failure now_ms reason) v = record_failure-IsSound m now_ms reason v

-- Every sequence of exchanges keeps the invariant: a link that recovers has been good once, and has
-- fewer good exchanges in a row than the policy asks for.
pub run-IsSound : (es : List Exchange) (m : Model) → IsSound m → IsSound (run m es)
unfolding run
run-IsSound [] m v = v
run-IsSound (e ∷ es) m v = run-IsSound es (record_exchange m e) (record_exchange-IsSound m e v)

unfoldable pub goods : List Exchange → ℕ
goods [] = 0
goods (good _ ∷ es) = goods es + 1
goods (failure _ _ ∷ es) = goods es

good_slow :
    (m : Model) (now_ms : ℕ)
    → IsSound m
    → m.recovery_pending ≡ true
    → m.consecutive_good + 1 < m.policy.recovery_confirm_count
    → let m' = record_good m now_ms in
      (m'.recovery_pending ≡ true)
      × (m'.policy ≡ m.policy)
      × (m'.consecutive_good ≤ m.consecutive_good + 1)
unfolding record_good
good_slow m now_ms v p h = ground arith

failure_slow :
    (m : Model) (now_ms reason : ℕ)
    → m.recovery_pending ≡ true
    → let m' = record_failure m now_ms reason in
      (m'.recovery_pending ≡ true)
      × (m'.policy ≡ m.policy)
      × (m'.consecutive_good ≤ m.consecutive_good)
unfolding record_failure
failure_slow m now_ms reason p = ground arith

-- A link that recovers goes on recovering while it has fewer good exchanges than the policy asks
-- for, counting those in a row at the start; failures between them do not help.
pub run_recovering :
    (es : List Exchange) (m : Model)
    → IsSound m
    → m.recovery_pending ≡ true
    → m.consecutive_good + goods es < m.policy.recovery_confirm_count
    → (run m es).recovery_pending ≡ true
unfolding run goods record_exchange
run_recovering [] m v p h = p
run_recovering (good t ∷ es) m v p h =
    let s = good_slow m t v p (ground arith) in
    run_recovering es (record_good m t) (record_good-IsSound m t v) s.0 (ground (arith, s))
run_recovering (failure t r ∷ es) m v p h =
    let s = failure_slow m t r p in
    run_recovering es (record_failure m t r) (record_failure-IsSound m t r v) s.0
      (ground (arith, s))

-- Good exchanges, each before the one in front of it is stale.
unfoldable pub AllPrompt : Model → List ℕ → Type 0
AllPrompt m [] = Unit
AllPrompt m (t ∷ ts) = (age m t ≤ m.policy.stale_age_ms) × AllPrompt (record_good m t) ts

unfoldable pub run_good : Model → List ℕ → Model
run_good m [] = m
run_good m (t ∷ ts) = run_good (record_good m t) ts

good_counts :
    (m : Model) (now_ms : ℕ)
    → IsSound m
    → m.recovery_pending ≡ true
    → age m now_ms ≤ m.policy.stale_age_ms
    → let m' = record_good m now_ms in
      (m'.consecutive_good ≡ m.consecutive_good + 1)
      × (m'.policy ≡ m.policy)
      × (m'.consecutive_failures ≡ 0)
      × (m'.recovery_pending ≡ not (leb m.policy.recovery_confirm_count (m.consecutive_good + 1)))
unfolding record_good state_at policy_valid
good_counts m now_ms v p h = ground arith

-- A recovery ends: as many prompt good exchanges as the policy still asks for, without a failure
-- between, end it and leave no failure counted.
run_recovers :
    (ts : List ℕ) (m : Model)
    → IsSound m
    → m.recovery_pending ≡ true
    → m.consecutive_good + length ts ≡ m.policy.recovery_confirm_count
    → AllPrompt m ts
    → ((run_good m ts).recovery_pending ≡ false) × ((run_good m ts).consecutive_failures ≡ 0)
unfolding run_good AllPrompt
run_recovers [] m v p l a = absurd (omega (arith, v.pending_counts p))
run_recovers (t ∷ []) m v p l a = ground (arith, good_counts m t v p a.0)
run_recovers (t ∷ u ∷ ts) m v p l a =
    let s = good_counts m t v p a.0 in
    run_recovers (u ∷ ts) (record_good m t) (record_good-IsSound m t v) (ground (arith, s))
      (ground (arith, s)) a.1
