-- ===== src/MotionApplication.antt =====
-- components/motion_application/motion_application_model.c: from commands to targets of motors.
pub mod State
pub mod Plans
pub mod Operations
pub mod Trace
pub mod Safety
pub mod Idle
pub mod Link
pub mod Invariant
pub mod Steps
pub mod Runs
pub mod Tests
