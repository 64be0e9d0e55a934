-- ===== src/Ibus.antt =====
-- components/ibus_receiver: frames of the i-BUS receiver.
pub mod Receiver
pub mod Framing
mod Tests
