-- ===== src/RobotState/Epoch.antt =====
-- The epoch of the motion gate in components/robot_state/robot_state_service.c.
use Prim.Native.Nat.{bit_and}
use sistema_motriz_rs.Base.{
  ℕ, ◌+◌, ◌≤◌, ◌≡◌, ◌≢◌, ◌⊎◌, inl, refl, Bool, true, false, not, List, [], ◌∷◌, ◌==◌, if◌then◌else◌,
  u64, u64_max, length, arith,
}
use sistema_motriz_rs.RobotState.State.{armed, Model, Transition}
use sistema_motriz_rs.RobotState.Operations.{
  Request, boot, inhibit, fault, arm, disarm, open_maintenance, end_maintenance, open_ota,
  acknowledge, handle,
}
use sistema_motriz_rs.RobotState.Service.{
  InhibitSource, Service, Served, refused, gate_invalidating_actions, complete_operation,
  run_operation, aggregate_inhibits, service_boot_complete, service_publish_inhibits,
  service_report_fault, service_request_arm, service_request_disarm, service_request_maintenance,
  service_close_maintenance, service_request_ota, service_acknowledge_fault,
}

pub data ServiceCall : Type 0 where
  call_boot : ℕ → ServiceCall
  call_publish call_fault : InhibitSource → ℕ → ServiceCall
  call_arm call_disarm call_maintenance call_close call_ota call_acknowledge : ServiceCall

abbrev pub serve : Service → ServiceCall → Bool → Served
serve s (call_boot mask) taken = service_boot_complete s mask taken
serve s (call_publish origin mask) taken = service_publish_inhibits s origin mask taken
serve s (call_fault origin mask) taken = service_report_fault s origin mask taken
serve s call_arm taken = service_request_arm s taken
serve s call_disarm taken = service_request_disarm s taken
serve s call_maintenance taken = service_request_maintenance s taken
serve s call_close taken = service_close_maintenance s taken
serve s call_ota taken = service_request_ota s taken
serve s call_acknowledge taken = service_acknowledge_fault s taken

-- Each call with whether the mutex was taken.
abbrev pub serve_all : Service → List (ServiceCall × Bool) → Service
serve_all s [] = s
serve_all s (c ∷ cs) = serve_all (serve s c.0 c.1).service cs

leave_armed-invalidates :
    (m : Model) (r : Request)
    → m.state ≡ armed
    → (handle m r).0.state ≢ armed
    → (bit_and (handle m r).1.actions gate_invalidating_actions == 0) ≡ false
unfolding handle
leave_armed-invalidates m (boot mask) a l = ground arith
leave_armed-invalidates m r a l = ground arith

-- The request that a call makes of the model.
abbrev request_of : Service → ServiceCall → Request
request_of s (call_boot mask) = boot mask
request_of s (call_publish origin mask) = inhibit (aggregate_inhibits s origin mask)
request_of s (call_fault origin mask) = fault mask
request_of s call_arm = arm
request_of s call_disarm = disarm
request_of s call_maintenance = open_maintenance
request_of s call_close = end_maintenance
request_of s call_ota = open_ota
request_of s call_acknowledge = acknowledge

-- The epoch stays or goes one up, and it goes up where the call leaves ARMED.
abbrev Advances : Service → Served → Type 0
Advances s r =
    ((r.service.gate_epoch ≡ s.gate_epoch) ⊎ (r.service.gate_epoch ≡ u64 (s.gate_epoch + 1)))
    × ((s.model.state ≢ armed)
        ⊎ (r.service.model.state ≡ armed)
        ⊎ (r.service.gate_epoch ≡ u64 (s.gate_epoch + 1)))

complete-Advances :
    (s t : Service) (m : Model) (tr : Transition) (b : Bool)
    → t.gate_epoch ≡ s.gate_epoch
    → t.model ≡ m
    → (s.model.state ≡ armed
        → m.state ≢ armed
        → (bit_and tr.actions gate_invalidating_actions == 0) ≡ false)
    → Advances s (complete_operation t tr b)
unfolding complete_operation
complete-Advances s t m tr b e q h = ground (arith, e, q, h)

refused-Advances : (s : Service) → Advances s (refused s)
refused-Advances s = (inl refl, ground arith)

run_operation-Advances :
    (s : Service) (r : Request) (b taken : Bool)
    → Advances s (run_operation s (λ m. handle m r) b taken)
unfolding run_operation
run_operation-Advances s r b false = refused-Advances s
run_operation-Advances s r b true =
    complete-Advances s (record s { model = (handle s.model r).0 }) (handle s.model r).0
      (handle s.model r).1 b refl refl (leave_armed-invalidates s.model r)

-- A call that checks its argument, takes the mutex and records the inhibits of a source.
recorded-Advances :
    (s x : Service) (r : Request) (bad taken recorded : Bool)
    → x.gate_epoch ≡ s.gate_epoch
    → x.model ≡ (handle s.model r).0
    → Advances s (
        if bad
        then refused s
        else if not taken
        then refused s
        else complete_operation
            (if recorded then x else record s { model = (handle s.model r).0 })
            (handle s.model r).1
            false)
recorded-Advances s x r true taken b e q = refused-Advances s
recorded-Advances s x r false false b e q = refused-Advances s
recorded-Advances s x r false true true e q =
    complete-Advances s x (handle s.model r).0 (handle s.model r).1 false e q
      (leave_armed-invalidates s.model r)
recorded-Advances s x r false true false e q =
    complete-Advances s (record s { model = (handle s.model r).0 }) (handle s.model r).0
      (handle s.model r).1 false refl refl (leave_armed-invalidates s.model r)

serve-Advances : (s : Service) (c : ServiceCall) (taken : Bool) → Advances s (serve s c taken)
unfolding service_boot_complete service_publish_inhibits service_report_fault handle
serve-Advances s (call_boot mask) taken = recorded-Advances s _ (boot mask) _ taken _ refl refl
serve-Advances s (call_publish origin mask) taken =
    recorded-Advances s _ (inhibit (aggregate_inhibits s origin mask)) _ taken _ refl refl
serve-Advances s (call_fault origin mask) taken =
    recorded-Advances s _ (fault mask) _ taken _ refl refl
serve-Advances s call_arm taken = run_operation-Advances s arm false taken
serve-Advances s call_disarm taken = run_operation-Advances s disarm true taken
serve-Advances s call_maintenance taken = run_operation-Advances s open_maintenance false taken
serve-Advances s call_close taken = run_operation-Advances s end_maintenance false taken
serve-Advances s call_ota taken = run_operation-Advances s open_ota false taken
serve-Advances s call_acknowledge taken = run_operation-Advances s acknowledge false taken

serve_all-epoch_le :
    (s : Service) (cs : List (ServiceCall × Bool))
    → s.gate_epoch + length cs ≤ u64_max
    → s.gate_epoch ≤ (serve_all s cs).gate_epoch
serve_all-epoch_le s [] b = omega arith
serve_all-epoch_le s (c ∷ cs) b =
    let step = (serve-Advances s c.0 c.1).0 in
    let rest = serve_all-epoch_le (serve s c.0 c.1).service cs in grind (arith, b, step, rest)

-- From ARMED, a run of calls, fewer than would take the 64-bit epoch past its end, after which the epoch
-- of the motion gate is what it was, ends in ARMED.
pub same_epoch-armed :
    (s : Service) (cs : List (ServiceCall × Bool))
    → s.model.state ≡ armed
    → s.gate_epoch + length cs ≤ u64_max
    → (serve_all s cs).gate_epoch ≡ s.gate_epoch
    → (serve_all s cs).model.state ≡ armed
same_epoch-armed s [] a b e = a
same_epoch-armed s (c ∷ cs) a b e =
    let step = serve-Advances s c.0 c.1 in
    let mono = serve_all-epoch_le (serve s c.0 c.1).service cs in
    let rest = same_epoch-armed (serve s c.0 c.1).service cs in
    grind (arith, a, b, e, step, mono, rest)
