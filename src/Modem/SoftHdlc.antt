-- ===== src/Modem/SoftHdlc.antt =====
-- The soft-decision HDLC decoder of core/src/modem/soft_hdlc.rs.
pub mod Defs
pub mod Validity
pub mod Recovery
pub mod Feed
pub mod Flips
pub mod Trials
pub mod Phases
pub mod Sound
pub mod FlagStop
pub mod Syndrome
pub mod SingleBit
mod Tests
