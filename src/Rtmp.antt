-- ===== src/Rtmp.antt =====
-- src/protocol/rtmp: the AMF0 values of the commands, the chunk stream, and the messages.
pub mod Amf
pub mod Packet
pub mod Chunk
pub mod Control
pub mod Decoders
pub mod Demuxer
pub mod Commands
pub mod Source
pub mod Script
pub mod Session
mod Examples
mod AmfExamples
mod StreamExamples
mod CommandExamples
