-- ===== src/CommandAuthority.antt =====
-- components/command_authority/command_authority_model.c: arbitration between command sources.
pub mod State
pub mod Names
pub mod Stop
pub mod Publish
pub mod Arbitrate
pub mod Rules
pub mod Invariant
pub mod Ranking
pub mod Cycles
pub mod Stopping
pub mod FailSafe
pub mod Trace
pub mod Replay
mod Tests
