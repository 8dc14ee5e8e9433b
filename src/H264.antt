-- ===== src/H264.antt =====
-- H264 over RTP: src/server/webrtc/rtp_h264.rs, src/server/webrtc/h264_rtp_ingest.rs and the RTP parts of
-- src/server/rtsp/common.rs.
pub mod Packet
pub mod Depacketizer
pub mod Packetizer
pub mod Receiver
pub mod Fragments
pub mod Numbers
pub mod StapA
pub mod RtpClock
pub mod AnnexB
mod Tests
