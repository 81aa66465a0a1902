-- ===== src/Media.antt =====
-- The code of media/.
pub mod Dispatcher
pub mod Info
pub mod Muxing
pub mod Sources
mod Examples
mod SourcesExamples
