-- ===== src/Lib.antt =====
-- vcp-media-server: a model of its media core, with proofs.
--
-- The server takes live streams in over RTMP, RTSP and WebRTC, keeps the recent frames of each stream
-- in a ring, and hands them out to players over RTMP, RTSP, HTTP-FLV, HLS and WebRTC.
--
-- Which file models which part, by the paths of the repository:
--   Media            src/core/mod.rs: codecs and media frames.
--   FrameRing        src/core/frame_ring.rs: the ring of a stream's frames and its GOP index.
--     Rising, Invariant, Returns, Livelock, Latest, IdrScan: its proofs.
--   Timestamp        src/core/timestamp.rs: timestamp deltas, the FLV/RTMP tag timelines.
--     Monotone, Drift: their proofs.
--   Prelude          shared names, Boolean tests, lists over native numbers, machine words.
--   StreamHub        src/core/stream_hub.rs: a stream's metadata, receivers, publisher slot and ring.
--     Publisher, Receivers, InStep: its proofs.
--   Dispatch         src/core/dispatch.rs: Reader is the reader's state and cursor, Receive its
--                    `recv_batch`, Coalesce the batches for live players, Prime its `prime_from_idr`.
--     Drain, Gap, Collapse, Resend, Stuck, Restart: its proofs.
--   StreamManager    src/core/stream_manager.rs: the hubs of all streams; Clients is its receivers.
--     Streams, Sessions, FirstFrame, Calls, Independent: its proofs.
--   Rtmp.Chunk       src/server/rtmp/chunk.rs: RTMP chunks, `parse_chunks` and `encode_message`.
--     Headers, Continue, RoundTrip, Message, Progress, Reparse, Oversized: its proofs.
--   Rtmp.Amf0        src/server/rtmp/amf0.rs: AMF0 values, `encode` and `decode`.
--     Keys, RoundTrip, Returns: its proofs.
--   Rtmp.Session     src/server/rtmp/session.rs: a session's state, and the messages it builds.
--   Rtmp.Video       the video payloads read by src/server/rtmp/mod.rs; Relay, Config: its proofs.
--   Rtmp.Connection  src/server/rtmp/mod.rs: a connection and its handshake. Commands is its
--                    `handle_amf0_command`, Messages its `handle_rtmp_message`, Serve its
--                    `handle_connection`.
--     Holder, Publish, Hold, Handshakes, ChunkSize: its proofs.
--   LivePlay         src/core/live_play.rs: the frames for live players and their parameter sets.
--   Rtmp.Player      src/server/rtmp/mod.rs: the task that forwards frames to a player.
--     Steps, Forward: its proofs.
--   H264.Depacketizer  src/server/webrtc/rtp_h264.rs: `H264RtpDepacketizer` and its helpers.
--   H264.Packet      the RTP packets of src/server/rtsp/common.rs and their reader in
--                    src/server/webrtc/h264_rtp_ingest.rs.
--   H264.Packetizer  `packetize_h264_nal_for_rtp` of src/server/rtsp/common.rs.
--     Receiver, Fragments, Numbers, StapA: the proofs about these three.
--   Ingest           src/server/webrtc/h264_rtp_ingest.rs: RTP packets into access units for the manager.
--     Elsewhere, Units: its proofs.
--   H264.RtpClock, H264.AnnexB  src/server/webrtc/h264_util.rs: the order of timestamps, and the NAL
--                    units of an Annex B buffer, with the proofs Split and Types.
--   Hls              src/server/hls/ts_muxer.rs: Checksum, Pes and Packets are its functions, TsMuxer its
--                    state and operations; Clock, Payload, Demux and Counters its proofs.
--   Hls.Playlist     src/server/hls/m3u8.rs: the playlist's window.
--   Hls.Timing       src/server/hls/timing.rs: the mux clock.
--
-- They meet as follows: a hub holds a frame ring and passes frames on to it; the manager holds the hubs
-- by their streams' identifiers, and the ingest publishes to it; a reader has a cursor into a hub's ring, and a call of it reads the hub in one
-- state; the packetizer's packets are
-- what the depacketizer takes in; the muxer and the tag timelines take the frames of Media.
--
-- How the code is read. A struct is a record, an enum a data type with the source's constructors, and
-- a method with `&mut self` returns the new record. A byte is a number, and a slice of bytes a list;
-- `usize` and `u64` additions are written modulo 2 ^ 64, `saturating_add` and `saturating_sub` as
-- they saturate. A walk by an index over a slice is a recursion on what is left of the slice. Clocks,
-- randomness and the network enter as arguments.
--
-- Fuel. `evict_if_needed` of the ring is a `while` loop that need not stop, so it runs on fuel and
-- answers `none` when the fuel is used up.
-- The other loops run on fuel too. The chunk parser and encoder answer `none` when it is used up, the
-- depacketizer `stuck`, the packetizer and the transport stream packets `none`; the fuel meant is a
-- round per byte, and one more for the chunk parser, since each round takes at least one byte. The AMF0
-- decoder has `out_of_fuel` and a unit more than it has bytes, which is proved to be enough; a connection
-- has a round more for its messages than its buffer has bytes.
--
-- Not modelled: the async sessions and sockets, HTTP handlers, file writing and logging; the waits
-- of a reader on its channel, the waits of a live player for its first frame, the playlist's text and
-- SDP stand outside the model. UTF-8 enters AMF0 as a parameter.
pub mod Dispatch
pub mod FrameRing
pub mod H264
pub mod Hls
pub mod Ingest
pub mod LivePlay
pub mod Media
pub mod Prelude
pub mod Rtmp
pub mod StreamHub
pub mod StreamManager
pub mod Timestamp
