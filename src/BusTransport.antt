-- ===== src/BusTransport.antt =====
-- components/bus_transport/bus_transport.c: exchanges on a shared bus, one at a time, and their counts.
pub mod Controller
pub mod Transactions
pub mod Tests
