-- ===== src/CommunicationQuality.antt =====
-- components/communication_quality: the health of a link over time.
pub mod Model
pub mod Recovery
pub mod Health
mod Tests
