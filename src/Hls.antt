-- ===== src/Hls.antt =====
-- HLS: src/server/hls/ts_muxer.rs, m3u8.rs and timing.rs.
pub mod Checksum
pub mod Pes
pub mod Packets
pub mod TsMuxer
pub mod Clock
pub mod Payload
pub mod Demux
pub mod Counters
pub mod Playlist
pub mod Timing
mod Tests
