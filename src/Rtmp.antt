-- ===== src/Rtmp.antt =====
-- src/server/rtmp: the RTMP protocol.
pub mod Amf0
pub mod Chunk
pub mod Connection
pub mod Player
pub mod Session
pub mod Video
mod Tests
