-- ===== src/Rtmp/Connection/Messages.antt =====
-- `handle_rtmp_message` of src/server/rtmp/mod.rs. An index or a slice out of range panics. The fuel is that of
-- the frame ring.
use vcp_media_server.Prelude.{
  ℕ, ◌/◌, ◌^◌, Bool, false, not, ◌&&◌, ◌||◌, none, some, List, length, drop, ltb, leb, ◌==◌,
  if◌then◌else◌,
}
use vcp_media_server.Prelude.Words.{add64}
use vcp_media_server.Media.{CodecType, MediaFrame, new_frame, with_optional_clock_rate, h264, aac}
use vcp_media_server.StreamManager.{set_stream_sps_pps, publish_frame}
use vcp_media_server.Rtmp.Chunk.{RtmpMessage, byte_at, be32}
use vcp_media_server.Rtmp.Amf0.{Utf8, parse_command}
use vcp_media_server.Rtmp.Video.{avc_config, annex_b_from}
use vcp_media_server.Rtmp.Connection.{RtmpConnection, Reply, proceed, panicked, out_of_rounds, done}
use vcp_media_server.Rtmp.Connection.Commands.{handle_amf0_command}

-- The frame of a payload, with its timestamp in milliseconds.
unfoldable pub tagged_frame : RtmpConnection → ℕ → ℕ → List ℕ → Bool → CodecType → MediaFrame
unfolding new_frame with_optional_clock_rate
tagged_frame conn track_id timestamp bytes is_keyframe codec =
    with_optional_clock_rate (new_frame conn.stream_id track_id timestamp bytes is_keyframe codec)
      (some 1000)

unfoldable pub publish_tagged : ℕ → RtmpConnection → MediaFrame → Reply
publish_tagged fuel conn frame = elim (publish_frame fuel conn.stream_manager frame) [
  | none ↦ out_of_rounds
  | some m ↦ done (record conn { stream_manager = m })
]

unfoldable pub on_avc_header : RtmpConnection → List ℕ → Reply
on_avc_header conn payload = elim (avc_config payload) [
  | none ↦ done conn
  | some (sps, pps) ↦ done (record conn {
    stream_manager = set_stream_sps_pps conn.stream_manager conn.stream_id sps pps;
  })
]

unfoldable pub on_avc_units : ℕ → RtmpConnection → List ℕ → ℕ → Reply
on_avc_units fuel conn payload timestamp =
    let counted : RtmpConnection = record conn { frames_received = add64 conn.frames_received 1 } in
    let body = drop 5 payload in
    let annex_b = annex_b_from (length body) body in
    if ltb (length payload) 5
    then panicked counted
    else if not conn.is_publishing || length annex_b == 0
    then done counted
    else publish_tagged fuel counted
        (tagged_frame conn 0 timestamp annex_b (byte_at payload 0 / 2 ^ 4 == 1) h264)

unfoldable pub on_video : ℕ → RtmpConnection → List ℕ → ℕ → Reply
on_video fuel conn payload timestamp =
    let packet_type = if ltb 1 (length payload) then byte_at payload 1 else 0xFF in
    if length payload == 0
    then done conn
    else if packet_type == 0
    then on_avc_header conn payload
    else if packet_type == 1
    then on_avc_units fuel conn payload timestamp
    else done conn

-- Without the header of the tag.
unfoldable pub audio_data : List ℕ → List ℕ
audio_data payload =
    if ltb 1 (length payload)
    then (if byte_at payload 0 == 0xAF && byte_at payload 1 == 0x01
        then drop 2 payload
        else drop 1 payload)
    else payload

unfoldable pub on_audio : ℕ → RtmpConnection → List ℕ → ℕ → Reply
on_audio fuel conn payload timestamp =
    let counted : RtmpConnection = record conn { frames_received = add64 conn.frames_received 1 } in
    let is_header = ltb 1 (length payload) && byte_at payload 1 == 0x00 in
    if length payload == 0
    then done conn
    else if conn.is_publishing && not is_header
    then publish_tagged fuel counted (tagged_frame conn 1 timestamp (audio_data payload) false aac)
    else done counted

unfoldable pub on_set_chunk_size : RtmpConnection → List ℕ → Reply
on_set_chunk_size conn payload =
    if leb 4 (length payload)
    then proceed (some (be32 payload 0)) (record conn { chunk_size = be32 payload 0 })
    else done conn

unfoldable pub handle_rtmp_message : Utf8 → ℕ → RtmpConnection → RtmpMessage → Reply
handle_rtmp_message utf8 fuel conn msg =
    if msg.msg_type == 0x14 || msg.msg_type == 0x12
    then elim (parse_command utf8 msg.payload) [
      | none ↦ done conn
      | some (command, args) ↦ handle_amf0_command utf8 conn command args
    ]
    else if msg.msg_type == 0x09
    then on_video fuel conn msg.payload msg.timestamp
    else if msg.msg_type == 0x08
    then on_audio fuel conn msg.payload msg.timestamp
    else if msg.msg_type == 0x01
    then on_set_chunk_size conn msg.payload
    else done conn
