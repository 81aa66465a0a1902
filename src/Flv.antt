-- ===== src/Flv.antt =====
-- The code of protocol/flv.
pub mod Muxer
mod Examples
