-- ===== src/Interlock.antt =====
-- components/robot_safety/robot_safety_rc_lan_interlock_model.c: the receiver's priority over LAN.
pub mod Model
pub mod Confirm
pub mod Takeover
mod Tests
