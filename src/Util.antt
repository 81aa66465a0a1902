-- ===== src/Util.antt =====
-- The code of util/.
pub mod Bytes
pub mod Pool
pub mod Timer
mod Examples
