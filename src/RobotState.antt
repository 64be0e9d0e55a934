-- ===== src/RobotState.antt =====
-- components/robot_state: the operational state of the robot and the service around it.
pub mod State
pub mod Operations
pub mod Invariant
pub mod Transitions
pub mod Service
pub mod Epoch
mod Tests
