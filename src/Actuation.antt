-- ===== src/Actuation.antt =====
-- components/actuation_coordinator/actuation_coordinator.c: setpoints and stops of endpoints.
pub mod Coordinator
pub mod Orders
pub mod Reports
pub mod Stops
pub mod Tests
