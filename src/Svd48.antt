-- ===== src/Svd48.antt =====
-- components/svd48: the protocol of the SVD48 motor drivers.
pub mod Protocol
pub mod Checksum
pub mod Replies
pub mod Exceptions
pub mod Requests
pub mod Registers
pub mod PollService
pub mod Polling
mod Tests
