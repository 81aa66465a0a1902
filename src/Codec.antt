-- ===== src/Codec.antt =====
-- include/codec and src/codec: frames, and the tracks that make them.
pub mod Frame
pub mod Aac
pub mod H264
mod Examples
