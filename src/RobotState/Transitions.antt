-- ===== src/RobotState/Transitions.antt =====
-- What one request of components/robot_state may do: the diagram of states, the stop that goes with
-- each way out of ARMED, the latch of a fault, and the count of revisions.
use Prim.Native.Nat.{bit_and}
use sistema_motriz_rs.Base.{◌+◌, ◌≡◌, ◌≢◌, ◌↔◌, ◌⊎◌, arith, u32}
use sistema_motriz_rs.RobotState.State.{
  OperationalState, booting, disarmed, armed, faulted, maintenance, ota, applied, Model,
  arm_blockers, fault_ack_blockers, request_stop, emergency_stop, revoke_authority,
}
use sistema_motriz_rs.RobotState.Operations.{
  Request, boot, inhibit, fault, arm, acknowledge, handle,
}

infix 40 ◌⟶◌
-- The diagram, without the requests that change no state.
pub data ◌⟶◌ : OperationalState → OperationalState → Type 0 where
  boots : booting ⟶ disarmed
  arms : disarmed ⟶ armed
  disarms : armed ⟶ disarmed
  opens_maintenance : disarmed ⟶ maintenance
  ends_maintenance : maintenance ⟶ disarmed
  opens_ota : disarmed ⟶ ota
  faults : {s : OperationalState} → s ⟶ faulted
  acknowledges : faulted ⟶ disarmed

ruleset edges =
    (boots, arms, disarms, opens_maintenance, ends_maintenance, opens_ota, faults, acknowledges)

-- A request leaves the state as it is, or follows the diagram.
pub handle-⟶ :
    (m : Model) (r : Request) → ((handle m r).0.state ≡ m.state) ⊎ (m.state ⟶ (handle m r).0.state)
unfolding handle
handle-⟶ m (boot mask) = grind (arith, edges)
handle-⟶ m (inhibit mask) = grind (arith, edges)
handle-⟶ m (fault mask) = grind (arith, edges)
handle-⟶ m r = grind (arith, edges)

-- Every request that leaves ARMED orders a stop, normal or emergency, and revokes authority.
pub leave_armed_stops :
    (m : Model) (r : Request)
    → m.state ≡ armed
    → (handle m r).0.state ≢ armed
    → let actions = (handle m r).1.actions in
      ((bit_and actions request_stop ≢ 0) ⊎ (bit_and actions emergency_stop ≢ 0))
      × (bit_and actions revoke_authority ≢ 0)
unfolding handle
leave_armed_stops m (boot mask) a l = ground arith
leave_armed_stops m r a l = ground arith

-- A fault stays latched: only an acknowledgement leads out of FAULTED, and only when none of its
-- blockers is active; it leads to DISARMED with no fault latched.
pub faulted_until_acknowledged :
    (m : Model) (r : Request)
    → m.state ≡ faulted
    → (handle m r).0.state ≢ faulted
    → (r ≡ acknowledge)
      × (bit_and m.active_inhibits fault_ack_blockers ≡ 0)
      × ((handle m r).0.state ≡ disarmed)
      × ((handle m r).0.latched_faults ≡ 0)
unfolding handle
faulted_until_acknowledged m (boot mask) a l = ground arith
faulted_until_acknowledged m r a l = ground arith

-- From another state, a request leads to ARMED exactly if it is a request to arm, made in DISARMED
-- with no fault latched and no arm blocker active.
pub arm_iff :
    (m : Model) (r : Request)
    → m.state ≢ armed
    → ((handle m r).0.state ≡ armed) ↔ (
        (r ≡ arm)
        × (m.state ≡ disarmed)
        × (m.latched_faults ≡ 0)
        × (bit_and m.active_inhibits arm_blockers ≡ 0))
unfolding handle
arm_iff m (boot mask) h = ground arith
arm_iff m r h = ground arith

-- The revision counts the requests that are applied, modulo 2 ^ 32; every other request changes
-- nothing at all.
pub revision_counts_applied :
    (m : Model) (r : Request)
    → (((handle m r).1.outcome ≡ applied) × ((handle m r).0.revision ≡ u32 (m.revision + 1)))
      ⊎ (((handle m r).1.outcome ≢ applied) × ((handle m r).0 ≡ m))
unfolding handle
revision_counts_applied m (boot mask) = ground arith
revision_counts_applied m r = ground arith
