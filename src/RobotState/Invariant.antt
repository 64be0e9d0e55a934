-- ===== src/RobotState/Invariant.antt =====
-- The invariant of `robot_state_model_t`, kept by every request.
use Prim.Native.Nat.{bit_and, bit_or}
use sistema_motriz_rs.Base.{ℕ, ◌≡◌, ◌≢◌, ◌↔◌, List, [], ◌∷◌, arith, some}
use sistema_motriz_rs.Base.Bits.{
  bit_or-eq_zero, bit_or-apart, bit_and-within, bit_and-zero, bit_and-submask,
}
use sistema_motriz_rs.RobotState.State.{
  armed, faulted, applied, Model, self_test_failed, maintenance_entry_blockers, ota_entry_blockers,
  maintenance_trip_inhibits, ota_trip_inhibits, unknown_inhibits, has_only_known_inhibits,
  trip_inhibits_for_state,
}
use sistema_motriz_rs.RobotState.Operations.{
  init, Request, boot, inhibit, fault, handle, authorize_motion, authorize, boot_complete,
  set_inhibits, report_fault,
}

pub record IsSound (m : Model) : Type 0 where
  pub faulted_latched : m.state ≡ faulted → m.latched_faults ≢ 0
  pub latched_faulted : m.state ≢ faulted → m.latched_faults ≡ 0
  pub clear : bit_and m.active_inhibits (trip_inhibits_for_state m.state) ≡ 0
  pub known_active : bit_and m.active_inhibits unknown_inhibits ≡ 0
  pub known_latched : bit_and m.latched_faults unknown_inhibits ≡ 0

pub init-IsSound : IsSound init
unfolding init
init-IsSound = ground arith

boot_complete-IsSound : (m : Model) (mask : ℕ) → IsSound m → IsSound (boot_complete m mask).0
unfolding boot_complete has_only_known_inhibits
boot_complete-IsSound m mask v =
    let part = bit_and m.active_inhibits self_test_failed in
    let causes = bit_or mask part in
    ground (
      arith,
      bit_and-within m.active_inhibits self_test_failed unknown_inhibits,
      bit_or-apart mask part unknown_inhibits,
      bit_or-apart m.active_inhibits causes unknown_inhibits,
      bit_or-apart m.latched_faults causes unknown_inhibits,
      bit_or-eq_zero m.latched_faults causes,
      bit_and-zero m.active_inhibits,
      bit_and-zero (bit_or m.active_inhibits causes),
    )

set_inhibits-IsSound : (m : Model) (mask : ℕ) → IsSound m → IsSound (set_inhibits m mask).0
unfolding set_inhibits has_only_known_inhibits
set_inhibits-IsSound m mask v =
    let trip = bit_and mask (trip_inhibits_for_state m.state) in
    ground (
      arith,
      bit_and-within mask (trip_inhibits_for_state m.state) unknown_inhibits,
      bit_or-apart m.latched_faults trip unknown_inhibits,
      bit_or-eq_zero m.latched_faults trip,
      bit_and-zero mask,
    )

report_fault-IsSound : (m : Model) (mask : ℕ) → IsSound m → IsSound (report_fault m mask).0
unfolding report_fault has_only_known_inhibits
report_fault-IsSound m mask v = ground (
  arith,
  bit_or-apart m.active_inhibits mask unknown_inhibits,
  bit_or-apart m.latched_faults mask unknown_inhibits,
  bit_or-eq_zero m.latched_faults mask,
  bit_and-zero (bit_or m.active_inhibits mask),
)

-- Every request keeps the invariant.
pub handle-IsSound : (m : Model) (r : Request) → IsSound m → IsSound (handle m r).0
unfolding handle
handle-IsSound m (boot mask) v = boot_complete-IsSound m mask v
handle-IsSound m (inhibit mask) v = set_inhibits-IsSound m mask v
handle-IsSound m (fault mask) v = report_fault-IsSound m mask v
handle-IsSound m r v = ground (
  arith,
  bit_and-zero m.active_inhibits,
  bit_and-submask m.active_inhibits maintenance_entry_blockers maintenance_trip_inhibits,
  bit_and-submask m.active_inhibits ota_entry_blockers ota_trip_inhibits,
)

abbrev pub run : Model → List Request → Model
run m [] = m
run m (r ∷ rs) = run (handle m r).0 rs

run-IsSound : (m : Model) (rs : List Request) → IsSound m → IsSound (run m rs)
run-IsSound m [] v = v
run-IsSound m (r ∷ rs) v = run-IsSound (handle m r).0 rs (handle-IsSound m r v)

-- After start-up and any requests: a fault is latched exactly in FAULTED, the active inhibits do not
-- meet what trips the current state (in ARMED, no arm blocker is active), and both masks hold known
-- inhibits only.
pub reachable-IsSound : (rs : List Request) → IsSound (run init rs)
reachable-IsSound rs = run-IsSound init rs init-IsSound

-- Motion is authorized exactly in ARMED, in every state that requests can reach.
pub authorize_motion_iff :
    (rs : List Request)
    → ((authorize_motion (some (run init rs))).0 ≡ applied) ↔ ((run init rs).state ≡ armed)
unfolding authorize_motion authorize
authorize_motion_iff rs = ground (arith, reachable-IsSound rs)
