-- ===== src/Tnc.antt =====
-- The TNC engine: core/src/tnc.rs.
pub mod Outbox
pub mod TxQueue
