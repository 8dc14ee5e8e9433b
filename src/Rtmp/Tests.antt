-- ===== src/Rtmp/Tests.antt =====
-- Tests and witnesses for the RTMP server (src/server/rtmp).
use Prim.Native.Char.{code}
use Prim.Native.String.{char_at}
use text.Mathlib.Text.{◌==◌ as ◌=ˢ◌}
use vcp_media_server.Prelude.{
  ℕ, zero, suc, ap, ◌-◌, ◌≡◌, ◌≤◌, ◌<◌, ◌⊎◌, refl, String, true, false, none, some, List, [], ◌∷◌,
  ◌++◌, map, length, drop, arith,
}
use vcp_media_server.Prelude.StringMap.{find}
use vcp_media_server.Prelude.Bytes.{starts_with}
use vcp_media_server.Media.{CodecType, MediaFrame, h264}
use vcp_media_server.H264.StapA.{annex_b}
use vcp_media_server.StreamManager.{new_manager, manager_current_publisher, get_hub}
use vcp_media_server.Rtmp.Chunk.{
  RtmpMessage, encode_message, encode_rest, encode_basic_header, encode_type0_header, put32,
}
use vcp_media_server.Rtmp.Connection.ChunkSize.{set_chunk_size_deafens}
use vcp_media_server.Rtmp.Amf0.{
  Utf8, Amf0Value, string, number, object, undefined, null, property, no_properties, got, failed,
  encode, decode,
}
use vcp_media_server.Rtmp.Amf0.Returns.{decode-returns}
use vcp_media_server.Rtmp.Amf0.RoundTrip.{Fits, Clear, settled, decode-encode}
use vcp_media_server.Rtmp.Session.{
  stream_name_of, build_avc_sequence_header, frame_to_rtmp_video, frame_to_rtmp_audio,
}
use vcp_media_server.Rtmp.Video.{avc_config, annex_b_from}
use vcp_media_server.Rtmp.Video.Config.{avc_config-build_avc_sequence_header}
use vcp_media_server.Rtmp.Video.Relay.{Bare, BareUnits, annex_b_from-frame_to_rtmp_video}
use vcp_media_server.LivePlay.{is_idr_frame}
use vcp_media_server.H264.AnnexB.{
  contains_idr_nalu, contains_nalu_type, iter_annex_b_nal_ranges, nal_walk, ensure_annex_b,
  find_end, nalu_type,
}
use vcp_media_server.Rtmp.Player.{new_task, forward_batch}
use vcp_media_server.Rtmp.Player.Steps.{tag_of, frame_tag, from_idr, before_idr}
use vcp_media_server.Rtmp.Player.Forward.{forward_batch_lem}
use vcp_media_server.Rtmp.Connection.{
  RtmpConnection, new_connection, proceed, panicked, rtmp_publisher, handle_handshake, zero_bytes,
}
use vcp_media_server.Rtmp.Connection.Commands.{on_publish}
use vcp_media_server.Rtmp.Connection.Messages.{handle_rtmp_message}
use vcp_media_server.Rtmp.Connection.Serve.{Serving, serving, ended, received, serve, on_read}
use vcp_media_server.Rtmp.Connection.Publish.{PublishEnd, asked, refused, on_publish_lem}
use vcp_media_server.Rtmp.Connection.Hold.{
  publish_then_close, publish_twice_keeps_first, short_video_keeps_stream,
}
use vcp_media_server.Rtmp.Connection.Handshakes.{
  answer, handle_handshake_lem, split_handshake_unanswered,
}

-- Texts of printable ASCII.
abbrev codes : String → List ℕ
codes String.[] = []
codes (String.◌∷◌ c s) = code c ∷ codes s

abbrev printable : String
printable =
    " !\"#$%&'()*+,-./0123456789:;<=>?@ABCDEFGHIJKLMNOPQRSTUVWXYZ[\\]^_`abcdefghijklmnopqrstuvwxyz{|}~"

abbrev of_codes : List ℕ → String
of_codes [] = ""
of_codes (n ∷ ns) = String.◌∷◌ (char_at printable (n - 32)) (of_codes ns)

abbrev ascii : Utf8
ascii = record { as_bytes = codes; from_utf8_lossy = of_codes }

abbrev values : List Amf0Value
values =
    string "connect"
    ∷ number 0x3FF0000000000000
    ∷ object (property "app" (string "live") (property "x" undefined no_properties))
    ∷ []

decode-encode_example : decode ascii (encode ascii values) ≡ got (map settled values) []
unfolding Fits Clear
decode-encode_example = decode-encode ascii values (
  ((omega arith, refl), tt),
  (
    ((omega arith), refl),
    (
      (
        (
          omega arith,
          (omega arith, refl),
          (refl, tt),
          (omega arith, refl),
          (omega arith, (omega arith, refl), tt, tt, tt),
        ),
        tt,
      ),
      tt,
    ),
  ),
)

decode-returns_example :
    ((values : List Amf0Value) × (rest : List ℕ) × (decode ascii (2 ∷ 0 ∷ 9 ∷ []) ≡ got values rest)
      × (length rest ≤ 3))
    ⊎ ((rest : List ℕ) × (decode ascii (2 ∷ 0 ∷ 9 ∷ []) ≡ failed rest) × (length rest ≤ 3))
decode-returns_example = decode-returns ascii (2 ∷ 0 ∷ 9 ∷ [])

abbrev units : List (List ℕ)
units = (0x65 ∷ 1 ∷ []) ∷ (0x41 ∷ 2 ∷ []) ∷ []

abbrev picture : MediaFrame
picture = record {
  stream_id = "live";
  track_id = 0;
  timestamp = 0;
  clock_rate = none;
  bytes = annex_b units;
  is_keyframe = true;
  codec = h264;
  rtp_data = none;
}

annex_b_from-frame_to_rtmp_video_example :
    let body = drop 5 (frame_to_rtmp_video picture) in
    annex_b_from (length body) body ≡ annex_b units
unfolding Bare BareUnits starts_with
annex_b_from-frame_to_rtmp_video_example =
    annex_b_from-frame_to_rtmp_video picture units refl
      (omega arith, (refl, (refl, tt)), (omega arith, (refl, (refl, tt)), tt))

avc_config-build_avc_sequence_header_example :
    avc_config (build_avc_sequence_header (0x67 ∷ 1 ∷ []) (0x68 ∷ []))
    ≡ some (0x67 ∷ 1 ∷ [], 0x68 ∷ [])
avc_config-build_avc_sequence_header_example =
    avc_config-build_avc_sequence_header (0x67 ∷ 1 ∷ []) (0x68 ∷ []) (omega arith) (omega arith)
      (omega arith)

abbrev client : RtmpConnection
client = new_connection new_manager false "10.0.0.1:5000" true

abbrev live : List Amf0Value
live = null ∷ string "live" ∷ []

abbrev other : List Amf0Value
other = null ∷ string "other" ∷ []

on_publish_lem_example :
    (after : RtmpConnection) × (on_publish ascii client live ≡ proceed none after)
    × PublishEnd client live after
on_publish_lem_example = on_publish_lem ascii client live refl (omega arith)

abbrev fresh : Serving
fresh = record {
  conn = client;
  chunks = record { buf = []; assemblers = λ _. none; headers = λ _. none };
  chunk_size = 128;
  handshake_done = false;
  handshake_first_call = true;
}

abbrev idle : Serving
idle = record fresh { handshake_done = true }

live_free : manager_current_publisher new_manager "live" ≡ none
unfolding manager_current_publisher get_hub find
live_free = refl

other_free : manager_current_publisher new_manager "other" ≡ none
unfolding manager_current_publisher get_hub find
other_free = refl

publish_then_close_example :
    (published closed : RtmpConnection) × (on_publish ascii client live ≡ proceed none published)
    × (on_read ascii 1 (record idle { conn = published }) (received []) ≡ ended closed)
    × ((id : String)
        → manager_current_publisher closed.stream_manager id
          ≡ manager_current_publisher new_manager id)
unfolding stream_name_of
publish_then_close_example = publish_then_close ascii 1 idle live refl (omega arith) live_free

publish_twice_keeps_first_example :
    (published again closed : RtmpConnection) × (on_publish ascii client live
      ≡ proceed none published)
    × (on_publish ascii published other ≡ proceed none again)
    × (on_read ascii 1 (record idle { conn = again }) (received []) ≡ ended closed)
    × ((conn : RtmpConnection) (args : List Amf0Value)
        → conn.stream_manager ≡ closed.stream_manager
        → asked conn args ≡ asked client live
        → (rtmp_publisher "10.0.0.1:5000" =ˢ rtmp_publisher conn.session.peer_addr) ≡ false
        → refused conn args ≡ true)
unfolding stream_name_of
publish_twice_keeps_first_example =
    publish_twice_keeps_first ascii 1 idle live other refl (omega arith) live_free refl other_free

abbrev short_video : RtmpMessage
short_video = record {
  msg_type = 0x09;
  timestamp = 0;
  msg_stream_id = 1;
  payload = 0x17 ∷ 0x01 ∷ [];
}

short_video_keeps_stream_example :
    (published gone : RtmpConnection) × (on_publish ascii client live ≡ proceed none published)
    × (handle_rtmp_message ascii 1 published short_video ≡ panicked gone)
    × ((conn : RtmpConnection) (name : List Amf0Value)
        → conn.stream_manager ≡ gone.stream_manager
        → asked conn name ≡ asked client live
        → (rtmp_publisher "10.0.0.1:5000" =ˢ rtmp_publisher conn.session.peer_addr) ≡ false
        → refused conn name ≡ true)
unfolding stream_name_of
short_video_keeps_stream_example =
    short_video_keeps_stream ascii 1 client live short_video refl (omega arith) live_free refl refl
      (omega arith) (omega arith)

length-zero_bytes : (n : ℕ) → length (zero_bytes n) ≡ n
unfolding zero_bytes
length-zero_bytes zero = refl
length-zero_bytes (suc n) = ap suc (length-zero_bytes n)

handle_handshake_lem_example :
    (handle_handshake (3 ∷ (zero_bytes 1536 ++ (zero_bytes 1536 ++ (7 ∷ [])))) true
      ≡ record { finished = true; buffer = 7 ∷ []; response = answer (zero_bytes 1536) })
    × (handle_handshake (3 ∷ (zero_bytes 1536 ++ [])) true
        ≡ record { finished = false; buffer = []; response = answer (zero_bytes 1536) })
    × (0 < 1
        → handle_handshake (zero_bytes 1536 ++ (7 ∷ [])) false
          ≡ record { finished = true; buffer = 7 ∷ []; response = [] })
    × (handle_handshake (zero_bytes 1536 ++ []) false
        ≡ record { finished = false; buffer = zero_bytes 1536 ++ []; response = [] })
handle_handshake_lem_example =
    handle_handshake_lem (zero_bytes 1536) (zero_bytes 1536) (7 ∷ []) (length-zero_bytes 1536)
      (length-zero_bytes 1536)

split_handshake_unanswered_example :
    (after : Serving) × (serve ascii 1
        (serving fresh)
        (map received ((3 ∷ []) ∷ zero_bytes 1536 ∷ []))
      ≡ serving after)
    × (after.conn.written ≡ [])
split_handshake_unanswered_example =
    split_handshake_unanswered ascii 1 fresh (3 ∷ []) (zero_bytes 1536 ∷ []) refl refl (λ _. refl)
      (omega arith) (omega (arith, length-zero_bytes 1536), tt) (omega arith)
      (omega (arith, length-zero_bytes 1536))

abbrev mixed : List MediaFrame
mixed =
    record picture { bytes = annex_b ((0x41 ∷ 2 ∷ []) ∷ []); is_keyframe = false }
    ∷ record picture { bytes = zero_bytes 8; codec = CodecType.aac }
    ∷ picture
    ∷ record picture { bytes = zero_bytes 9; codec = CodecType.aac }
    ∷ record picture { bytes = zero_bytes 7; codec = CodecType.aac }
    ∷ record picture { codec = CodecType.opus }
    ∷ []

-- A player that streamed before a gap gets no slice in front of the IDR frame, but the long AAC frame there.
forward_batch_lem_example :
    map tag_of (forward_batch 1 new_manager "live" (λ _. (0, 0)) true (new_task true) mixed).sent
    ≡ (0x08, 1, 0xAF ∷ 1 ∷ zero_bytes 8)
      ∷ frame_tag 1 new_manager "live" picture
      ∷ (0x08, 1, 0xAF ∷ 1 ∷ zero_bytes 9)
      ∷ []
unfolding from_idr before_idr is_idr_frame zero_bytes contains_idr_nalu frame_to_rtmp_audio
    contains_nalu_type iter_annex_b_nal_ranges nal_walk ensure_annex_b annex_b starts_with find_end
    nalu_type
forward_batch_lem_example =
    forward_batch_lem 1 new_manager "live" (λ _. (0, 0)) true (new_task true) mixed

-- `connect` in one chunk of 130 bytes, behind a new chunk size of 4096.
abbrev announced : List ℕ
announced = 2 ∷ 0 ∷ 0 ∷ 0 ∷ 0 ∷ 0 ∷ 4 ∷ 1 ∷ 0 ∷ 0 ∷ 0 ∷ 0 ∷ 0 ∷ 0 ∷ 16 ∷ 0 ∷ []

abbrev long_chunk : List ℕ
long_chunk =
    3 ∷ 0 ∷ 0 ∷ 0 ∷ 0 ∷ 0 ∷ 130 ∷ 0x14 ∷ 0 ∷ 0 ∷ 0 ∷ 0 ∷ (zero_bytes 128 ++ (0x72 ∷ 0x74 ∷ []))

announced_encoded : encode_message 0 0x01 0 0 (put32 4096) 128 2 ≡ some announced
unfolding encode_message encode_rest encode_basic_header encode_type0_header
announced_encoded = refl

long_encoded :
    encode_message 0 0x14 0 0 (zero_bytes 128 ++ (0x72 ∷ 0x74 ∷ [])) 4096 3 ≡ some long_chunk
unfolding encode_message encode_rest encode_basic_header encode_type0_header zero_bytes
long_encoded = refl

long_length : length (zero_bytes 128 ++ (0x72 ∷ 0x74 ∷ [])) ≡ 130
unfolding zero_bytes
long_length = refl

set_chunk_size_deafens_example :
    let s = record fresh { handshake_done = true } in
    (after : Serving) × (serve ascii 1
        (serving s)
        (map received ((announced ++ long_chunk) ∷ long_chunk ∷ []))
      ≡ serving after)
    × (after.conn ≡ record client { chunk_size = 4096 })
set_chunk_size_deafens_example =
    set_chunk_size_deafens ascii 1 (record fresh { handshake_done = true }) 4096 0 0 0x14 0 0 3 0x72
      (zero_bytes 128) (0x74 ∷ []) announced long_chunk (long_chunk ∷ []) refl refl (λ _. refl)
      (λ _. refl) (omega arith) (omega arith) announced_encoded (omega arith, omega arith)
      (λ e. omega (arith, e)) (omega arith) (omega arith) (length-zero_bytes 128)
      (omega arith, omega arith) (λ e. omega (arith, e)) (omega (arith, long_length))
      (omega (arith, long_length)) long_encoded (omega arith, tt)
