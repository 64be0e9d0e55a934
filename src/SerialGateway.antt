-- ===== src/SerialGateway.antt =====
-- components/serial_gateway: commands as lines of text.
pub mod Framing
pub mod Lines
pub mod RoundTrip
pub mod Text
pub mod Policy
pub mod Confirmation
mod Tests
