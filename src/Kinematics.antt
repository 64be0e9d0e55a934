-- ===== src/Kinematics.antt =====
-- components/robot_kinematics: body velocities to motor speeds.
pub mod Model
pub mod Limits
mod Tests
