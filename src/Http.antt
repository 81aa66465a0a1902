-- ===== src/Http.antt =====
-- The code of protocol/http.
pub mod Header
pub mod Protocol
pub mod Session
mod Examples
mod ProtocolExamples
