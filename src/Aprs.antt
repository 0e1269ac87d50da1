-- ===== src/Aprs.antt =====
-- APRS: core/src/aprs.
pub mod Nmea
