-- ===== src/PpmMotion.antt =====
-- components/ppm_motion_source/ppm_motion_model.c: from frames of the receiver to motion events.
pub mod Model
pub mod Sticks
pub mod Handshake
pub mod Tests
