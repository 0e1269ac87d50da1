-- ===== src/Modem.antt =====
-- The bit-level parts of core/src/modem.
pub mod Scrambler
pub mod FrameOutput
pub mod SoftHdlc
