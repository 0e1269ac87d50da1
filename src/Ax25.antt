-- ===== src/Ax25.antt =====
-- AX.25: core/src/ax25 and the limits of core/src/lib.rs.
pub mod Limits
pub mod Crc
pub mod Hdlc
pub mod Address
pub mod Frame
pub mod Build
pub mod Link
