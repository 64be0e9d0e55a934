-- ===== src/PpmDecoder.antt =====
-- components/ppm_decoder: channels from the rising edges of a PPM signal.
pub mod Model
pub mod Frames
pub mod Refine
pub mod RoundTrip
pub mod Delivery
pub mod Runs
mod Tests
