-- ===== src/MotionApplication/Trace.antt =====
-- The calls of components/motion_application/motion_application_model.c as data, for theorems about
-- any sequence of them.
use sistema_motriz_rs.Base.{ℕ, Bool, true, false, not, ◌&&◌, List, [], ◌∷◌}
use sistema_motriz_rs.Base.Float.{Float32}
use sistema_motriz_rs.Base.Double.{Double, Widening}
use sistema_motriz_rs.MotionApplication.State.{EventAction, event_arm, Event, Plan, Motion}
use sistema_motriz_rs.MotionApplication.Plans.{reset_plan}
use sistema_motriz_rs.MotionApplication.Operations.{submit, tick, record_actuation}

-- `call_actuated` reports a plan as carried out or not; the plan need not be the last one.
pub data Call (F : Type 0) : Type 0 where
  call_submit : Event F → Bool → ℕ → Call F
  call_tick : Bool → ℕ → Call F
  call_actuated : Plan → Bool → Call F

abbrev is_arm_action : EventAction → Bool
is_arm_action event_arm = true
is_arm_action _ = false

module _ {F : Type 0} where
  abbrev pub is_arm : Call F → Bool
  is_arm (call_submit e gate now) = is_arm_action e.action
  is_arm (call_tick gate now) = false
  is_arm (call_actuated plan success) = false

  abbrev pub gate_of : Call F → Bool
  gate_of (call_submit e gate now) = gate
  gate_of (call_tick gate now) = gate
  gate_of (call_actuated plan success) = false

  -- No call of the list asks to arm.
  abbrev pub never_arms : List (Call F) → Bool
  never_arms [] = true
  never_arms (c ∷ cs) = not (is_arm c) && never_arms cs

module _ {F D : Type 0} ⦃fl : Float32 F⦄ ⦃fd : Double D⦄ ⦃fw : Widening F D⦄ where
  abbrev pub step : Motion F D → Call F → Motion F D
  step m (call_submit e gate now) = (submit m e gate now reset_plan).model
  step m (call_tick gate now) = (tick m gate now reset_plan).model
  step m (call_actuated plan success) = record_actuation m plan success

  -- The plan that the call hands out.
  abbrev pub plan_of : Motion F D → Call F → Plan
  plan_of m (call_submit e gate now) = (submit m e gate now reset_plan).plan
  plan_of m (call_tick gate now) = (tick m gate now reset_plan).plan
  plan_of m (call_actuated plan success) = reset_plan

  abbrev pub run : Motion F D → List (Call F) → Motion F D
  run m [] = m
  run m (c ∷ cs) = run (step m c) cs
