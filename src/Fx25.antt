-- ===== src/Fx25.antt =====
-- FX.25: core/src/fx25.
pub mod Gf256
pub mod Tags
pub mod Rs
pub mod Encode
pub mod Decode
pub mod Link
