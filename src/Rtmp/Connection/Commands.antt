-- ===== src/Rtmp/Connection/Commands.antt =====
-- `handle_amf0_command` of src/server/rtmp/mod.rs. What a player's task does once it is started, and the requests for
-- key frames that the WebRTC server gets, are left out; `set_stream_broadcast` changes nothing.
use text.Mathlib.Text.{◌==◌ as ◌=ˢ◌}
use vcp_media_server.Prelude.{
  ℕ, ◌%◌, ◌^◌, String, Bool, true, false, ◌||◌, none, some, List, [], ◌∷◌, ◌++◌, length,
  if◌then◌else◌, ◌==◌,
}
use vcp_media_server.Media.{
  StreamStatus, StreamSourceMode, StreamProtocol, CodecType, Track, Stream, h264, aac,
}
use vcp_media_server.StreamManager.{
  StreamManager, done, failed, get_stream, create_stream, manager_acquire_publisher,
  set_stream_tracks, set_status, dispatch_subscribe,
}
use vcp_media_server.Dispatch.Reader.{DispatchReader, live_coalesce}
use vcp_media_server.Rtmp.Chunk.{put32}
use vcp_media_server.Rtmp.Amf0.{Amf0Value, Utf8, number, string, null, encode}
use vcp_media_server.Rtmp.Session.{
  SessionState, handle_connect, handle_create_stream, handle_publish, handle_play,
  build_result_response, build_on_status, build_avc_sequence_header, build_aac_sequence_header,
  build_user_control_stream_begin, build_user_control_set_buffer_length, f64_of_u32,
}
use vcp_media_server.Rtmp.Connection.{
  RtmpConnection, Reply, panicked, and_then, done as ok, write_message, rtmp_publisher,
  release_publish_connection,
}

-- `encode_window_ack_size`, `encode_set_peer_bandwidth` and `encode_set_chunk_size`, written.
unfoldable pub write_window_ack_size : RtmpConnection → ℕ → Reply
write_window_ack_size conn size = write_message conn 0x05 0 (put32 size) 128 2

unfoldable pub write_set_peer_bandwidth : RtmpConnection → ℕ → ℕ → Reply
write_set_peer_bandwidth conn size limit_type =
    write_message conn 0x06 0 (put32 size ++ (limit_type ∷ [])) 128 2

unfoldable pub write_set_chunk_size : RtmpConnection → ℕ → Reply
write_set_chunk_size conn new_size = write_message conn 0x01 0 (put32 new_size) 128 2

-- An `onStatus` message, of the session's stream.
unfoldable pub write_status : Utf8 → RtmpConnection → String → String → String → Reply
write_status utf8 conn code description level =
    write_message conn 0x14 conn.session.server_stream_id
      (build_on_status utf8 code description level) conn.session.chunk_size 3

unfoldable pub on_connect : Utf8 → RtmpConnection → List Amf0Value → Reply
on_connect utf8 conn args =
    let session = handle_connect conn.session args in
    and_then
      (write_window_ack_size (record conn { session = session; stream_id = session.app }) 2500000)
      λ c. and_then (write_set_peer_bandwidth c 2500000 2) λ c.
        and_then (write_set_chunk_size c (c.session.chunk_size % 2 ^ 32)) λ c.
          write_message c 0x14 0 (build_result_response utf8 c.session.transaction_id "Connect")
            c.session.chunk_size 3

-- An argument that is missing or no number makes the session panic.
unfoldable pub on_create_stream : Utf8 → RtmpConnection → List Amf0Value → Reply
on_create_stream utf8 conn args = elim (handle_create_stream conn.session args) [
  | none ↦ panicked conn
  | some session ↦
      write_message (record conn { session = session }) 0x14 0
        (encode utf8 (
          string "_result"
          ∷ number session.transaction_id
          ∷ null
          ∷ number (f64_of_u32 session.server_stream_id)
          ∷ []))
        session.chunk_size 3
]

unfoldable pub default_live_tracks : List Track
default_live_tracks =
    record { id = 0; codec = h264; payload_type = 96; clock_rate = 90000; extra_params = [] }
    ∷ record { id = 1; codec = aac; payload_type = 97; clock_rate = 44100; extra_params = [] }
    ∷ []

-- The manager with the stream there.
unfoldable pub with_push_stream : StreamManager → String → StreamManager
with_push_stream m stream_name = elim (get_stream m stream_name) [
  | none ↦ (create_stream m stream_name StreamSourceMode.push StreamProtocol.rtmp none).1
  | some stream ↦ m
]

-- The manager with tracks for a stream that has none.
unfoldable pub with_live_tracks : StreamManager → String → StreamManager
with_live_tracks m stream_name = elim (get_stream m stream_name) [
  | none ↦ m
  | some stream ↦
      if length stream.tracks == 0 then set_stream_tracks m stream_name default_live_tracks else m
]

unfoldable pub start_publishing : Utf8 → RtmpConnection → String → Reply
start_publishing utf8 conn stream_name =
    let m = with_live_tracks conn.stream_manager stream_name in
    let unpublished = (set_status m stream_name StreamStatus.unpublished).1 in
    and_then
      (write_status utf8 (record conn { stream_manager = unpublished }) "NetStream.Publish.Start"
        "Publishing started." "status")
      λ c. ok (record c {
        stream_manager = (set_status c.stream_manager stream_name StreamStatus.publishing).1;
        restarts = if c.hls_server then c.restarts ++ (stream_name ∷ []) else c.restarts;
      })

unfoldable pub on_publish : Utf8 → RtmpConnection → List Amf0Value → Reply
on_publish utf8 conn args =
    let session = handle_publish conn.session args in
    let name = session.stream_name in
    let publisher_id = rtmp_publisher session.peer_addr in
    let (outcome, m) =
      manager_acquire_publisher (with_push_stream conn.stream_manager name) name publisher_id in
    elim outcome [
      | failed e ↦
          write_status utf8 (record conn { session = session; stream_manager = m })
            "NetStream.Publish.BadName" "Stream already has an active publisher." "error"
      | done ↦
          start_publishing utf8
            (record conn {
              session = session;
              stream_manager = m;
              is_publishing = true;
              stream_id = name;
              publisher_id = some publisher_id;
            })
            name
    ]

abbrev pub is_publishing_status : StreamStatus → Bool
is_publishing_status StreamStatus.publishing = true
is_publishing_status _ = false

abbrev pub is_aac : CodecType → Bool
is_aac CodecType.aac = true
is_aac _ = false

-- `stream_has_codec` for AAC
unfoldable pub has_aac : List Track → Bool
has_aac [] = false
has_aac (track ∷ tracks) = is_aac track.codec || has_aac tracks

unfoldable pub write_avc_header : RtmpConnection → Stream → Reply
write_avc_header conn stream = elim stream.sps [
  | none ↦ ok conn
  | some sps ↦ elim stream.pps [
    | none ↦ ok conn
    | some pps ↦
        write_message conn 0x09 conn.session.server_stream_id (build_avc_sequence_header sps pps)
          conn.session.chunk_size 6
  ]
]

unfoldable pub write_aac_header : RtmpConnection → Stream → Reply
write_aac_header conn stream =
    if has_aac stream.tracks
    then write_message conn 0x08 conn.session.server_stream_id build_aac_sequence_header
        conn.session.chunk_size 4
    else ok conn

-- The answers to a play of a stream that is on air; then the task gets the reader.
unfoldable pub start_playing : Utf8 → RtmpConnection → Stream → DispatchReader → Reply
start_playing utf8 conn stream reader =
    and_then (write_status utf8 conn "NetStream.Play.Start" "Play started." "status") λ c.
      and_then (write_avc_header c stream) λ c. and_then (write_aac_header c stream) λ c.
        and_then
          (write_message c 0x04 0 (build_user_control_stream_begin c.session.server_stream_id)
            c.session.chunk_size 2)
          λ c.
            and_then
              (write_message c 0x04 0
                (build_user_control_set_buffer_length c.session.server_stream_id 100)
                c.session.chunk_size 2)
              λ c. ok (record c { player = some reader })

unfoldable pub write_not_found : Utf8 → RtmpConnection → Reply
write_not_found utf8 conn =
    write_status utf8 conn "NetStream.Play.StreamNotFound" "Stream not found" "error"

unfoldable pub on_play : Utf8 → RtmpConnection → List Amf0Value → Reply
on_play utf8 conn args =
    let session = handle_play conn.session args in
    let name = session.stream_name in
    let c : RtmpConnection = record conn { session = session; stream_id = name } in
    elim (get_stream c.stream_manager name) [
      | none ↦ write_not_found utf8 c
      | some stream ↦
          if is_publishing_status stream.status
          then elim (dispatch_subscribe c.stream_manager name live_coalesce) [
            | none ↦ write_not_found utf8 (record c { player = none })
            | some reader ↦ start_playing utf8 (record c { player = none }) stream reader
          ]
          else write_not_found utf8 c
    ]

-- The session in another state.
abbrev pub in_state : RtmpConnection → SessionState → RtmpConnection
in_state conn state = record conn { session = record conn.session { state = state } }

unfoldable pub handle_amf0_command : Utf8 → RtmpConnection → String → List Amf0Value → Reply
handle_amf0_command utf8 conn command args =
    if command =ˢ "connect"
    then on_connect utf8 conn args
    else if command =ˢ "createStream"
    then on_create_stream utf8 conn args
    else if command =ˢ "publish"
    then on_publish utf8 conn args
    else if command =ˢ "play"
    then on_play utf8 conn args
    else if command =ˢ "deleteStream"
    then ok (in_state (release_publish_connection conn) SessionState.ready)
    else if command =ˢ "closeStream"
    then ok (in_state (release_publish_connection conn) SessionState.closing)
    else ok conn
