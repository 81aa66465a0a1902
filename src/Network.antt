-- ===== src/Network.antt =====
-- include/network and src/network: the byte buffer that every parser reads from, and the view of
-- it that the parsers' models use.
pub mod Unread
pub mod Sessions
pub mod Server
pub mod RawBuffer
pub mod BufferString
pub mod FlatBuffer
mod Examples
