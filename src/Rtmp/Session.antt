-- ===== src/Rtmp/Session.antt =====
-- src/server/rtmp/session.rs: the state of an RTMP session, and the messages that it sends. A `HashMap` is encoded in
-- the order in which its entries were put in, which is one of the orders that the source may take. `none` of
-- `handle_create_stream` is a panic. An f64 is the number that its bits are.
use Prim.Native.String.{◌++◌ as ◌++ˢ◌}
use text.Mathlib.Text.{◌==◌ as ◌=ˢ◌}
use vcp_media_server.Prelude.{
  ℕ, zero, suc, ◌+◌, ◌*◌, ◌-◌, ◌%◌, ◌^◌, String, Bool, false, ◌||◌, Option, none, some, List, [],
  ◌∷◌, ◌++◌, length, take, drop, leb, if◌then◌else◌,
}
use vcp_media_server.Prelude.Bytes.{starts_with}
use vcp_media_server.Prelude.Words.{add32}
use vcp_media_server.Media.{MediaFrame}
use vcp_media_server.H264.Depacketizer.{start_code}
use vcp_media_server.H264.AnnexB.{is_keyframe_annex_b, short_start_code}
use vcp_media_server.Rtmp.Chunk.{byte_at, be32, put32}
use vcp_media_server.Rtmp.Amf0.{
  Amf0Value, Properties, Utf8, number, string, object, null, ecma_array, no_properties, property,
  as_str, as_object, as_f64, get_property, encode, put16,
}

pub data SessionState : Type 0 where
  handshaking connected create_stream ready publishing playing closing : SessionState

pub data SessionMode : Type 0 where
  no_mode publish play : SessionMode

pub record RtmpSession : Type 0 where
  pub state : SessionState
  pub app : String
  pub stream_name : String
  pub stream_key : String
  pub mode : SessionMode
  pub chunk_size : ℕ
  pub client_chunk_size : ℕ
  pub server_stream_id : ℕ
  pub avc_header_sent : Bool
  pub aac_header_sent : Bool
  pub metadata_sent : Bool
  pub transaction_id : ℕ
  pub peer_addr : String

-- `n as f64` for a `u32`: the exponent is the place of the highest bit.
unfoldable pub top_bit : ℕ → ℕ → ℕ
top_bit zero n = 0
top_bit (suc k) n = let below = top_bit k n in if leb (2 ^ k) n then k else below

unfoldable pub f64_of_u32 : ℕ → ℕ
unfolding top_bit
f64_of_u32 zero = 0
f64_of_u32 (suc n) =
    let k = top_bit 32 (suc n) in (1023 + k) * 2 ^ 52 + (suc n - 2 ^ k) * 2 ^ (52 - k)

-- `RtmpSession::new`
abbrev pub new_session : String → RtmpSession
new_session peer_addr = record {
  state = handshaking;
  app = "";
  stream_name = "";
  stream_key = "";
  mode = no_mode;
  chunk_size = 4096;
  client_chunk_size = 128;
  server_stream_id = 0;
  avc_header_sent = false;
  aac_header_sent = false;
  metadata_sent = false;
  transaction_id = 0x3FF0000000000000;
  peer_addr = peer_addr;
}

-- A member that is a text: `map.get(key).and_then(|v| v.as_str())`.
unfoldable pub text_member : Option Properties → String → Option String
unfolding get_property as_str
text_member none key = none
text_member (some map) key = elim (get_property map key) [ some v ↦ as_str v | none ↦ none ]

-- The loop of `handle_connect`: the last argument that has an application names it.
unfoldable pub app_of : String → List Amf0Value → String
unfolding text_member as_object
app_of app [] = app
app_of app (arg ∷ args) =
    app_of (elim (text_member (as_object arg) "app") [ some name ↦ name | none ↦ app ]) args

unfoldable pub handle_connect : RtmpSession → List Amf0Value → RtmpSession
handle_connect s args = record s { app = app_of s.app args; state = connected }

unfoldable pub handle_create_stream : RtmpSession → List Amf0Value → Option RtmpSession
handle_create_stream s [] = none
handle_create_stream s (arg ∷ args) = elim (as_f64 arg) [
  | none ↦ none
  | some id ↦ some (record s {
    server_stream_id = add32 s.server_stream_id 1;
    state = ready;
    transaction_id = id;
  })
]

-- The loop of `handle_publish` and `handle_play`: the first text that is not empty ends it.
unfoldable pub stream_name_of : String → List Amf0Value → String
unfolding text_member as_object as_str
stream_name_of name [] = name
stream_name_of name (arg ∷ args) =
    let member : String = elim (text_member (as_object arg) "streamName") [
      | some s ↦ s
      | none ↦ name
    ] in
    let later = stream_name_of member args in
    elim (as_str arg) [ some s ↦ (if s =ˢ "" then later else s) | none ↦ later ]

unfoldable pub handle_publish : RtmpSession → List Amf0Value → RtmpSession
handle_publish s args = record s {
  stream_name = stream_name_of s.stream_name args;
  mode = publish;
  state = publishing;
}

unfoldable pub handle_play : RtmpSession → List Amf0Value → RtmpSession
handle_play s args = record s {
  stream_name = stream_name_of s.stream_name args;
  mode = play;
  state = playing;
}

unfoldable pub handle_set_chunk_size : RtmpSession → List ℕ → RtmpSession
handle_set_chunk_size s payload =
    if leb 4 (length payload) then record s { client_chunk_size = be32 payload 0 } else s

unfoldable pub build_result_response : Utf8 → ℕ → String → List ℕ
build_result_response utf8 transaction_id command = encode utf8 (
    string "_result"
    ∷ number transaction_id
    ∷ object (
        property "fmsVer" (string "FMS/3.0.1.123") (
          property "capabilities" (number (f64_of_u32 31))
            (property "objectEncoding" (number 0) no_properties)))
    ∷ object (
        property "level" (string "status") (
          property "code" (string ("NetConnection." ++ˢ (command ++ˢ ".Success"))) (
            property "description" (string (command ++ˢ " succeeded."))
              (property "data" (object no_properties) no_properties))))
    ∷ [])

unfoldable pub build_user_control_stream_begin : ℕ → List ℕ
build_user_control_stream_begin stream_id = put16 0 ++ put32 stream_id

unfoldable pub build_user_control_set_buffer_length : ℕ → ℕ → List ℕ
build_user_control_set_buffer_length stream_id buffer_ms =
    put16 3 ++ (put32 stream_id ++ put32 buffer_ms)

unfoldable pub build_on_status : Utf8 → String → String → String → List ℕ
build_on_status utf8 code description level = encode utf8 (
    string "onStatus"
    ∷ number 0
    ∷ null
    ∷ object (
        property "level" (string level) (
          property "code" (string code)
            (property "description" (string description) no_properties)))
    ∷ [])

unfoldable pub build_avc_sequence_header : List ℕ → List ℕ → List ℕ
build_avc_sequence_header sps pps =
    0x17
    ∷ 0x00
    ∷ 0x00
    ∷ 0x00
    ∷ 0x00
    ∷ 0x01
    ∷ (if leb 4 (length sps) then byte_at sps 1 else 0x42)
    ∷ (if leb 4 (length sps) then byte_at sps 2 else 0x00)
    ∷ (if leb 4 (length sps) then byte_at sps 3 else 0x1F)
    ∷ 0xFF
    ∷ 0xE1
    ∷ (put16 (length sps % 2 ^ 16) ++ (sps ++ (0x01 ∷ (put16 (length pps % 2 ^ 16) ++ pps))))

abbrev pub build_aac_sequence_header : List ℕ
build_aac_sequence_header = 0xAF ∷ 0x00 ∷ 0x12 ∷ 0x10 ∷ []

unfoldable pub build_metadata : Utf8 → ℕ → ℕ → String → List ℕ
build_metadata utf8 width height stream_name = encode utf8 (
    string "onMetaData"
    ∷ ecma_array (
        property "width" (number (f64_of_u32 width)) (
          property "height" (number (f64_of_u32 height)) (
            property "streamName" (string stream_name)
              (property "encoder" (string "Rust-Media-Server") no_properties))))
    ∷ [])

-- The inner loop of `frame_to_rtmp_video`: how far the next start code is.
unfoldable pub unit_length : List ℕ → ℕ
unit_length [] = 0
unit_length (b ∷ bs) =
    let more = unit_length bs in
    if starts_with (b ∷ bs) short_start_code || starts_with (b ∷ bs) start_code then 0 else suc more

-- Its outer loop, on what is left of the frame; `skip` bytes of it belong to the last unit.
unfoldable pub length_prefixed : ℕ → List ℕ → List ℕ
length_prefixed skip [] = []
length_prefixed (suc skip) (b ∷ bs) = length_prefixed skip bs
length_prefixed zero (b ∷ bs) =
    let short = drop 2 bs in
    let long = drop 3 bs in
    let after_short = length_prefixed (2 + unit_length short) bs in
    let after_long = length_prefixed (3 + unit_length long) bs in
    let next = length_prefixed zero bs in
    if starts_with (b ∷ bs) short_start_code
    then put32 (unit_length short % 2 ^ 32) ++ (take (unit_length short) short ++ after_short)
    else if starts_with (b ∷ bs) start_code
    then put32 (unit_length long % 2 ^ 32) ++ (take (unit_length long) long ++ after_long)
    else next

unfoldable pub frame_to_rtmp_video : MediaFrame → List ℕ
frame_to_rtmp_video frame =
    (if frame.is_keyframe || is_keyframe_annex_b frame.bytes then 0x17 else 0x27)
    ∷ 0x01
    ∷ 0x00
    ∷ 0x00
    ∷ 0x00
    ∷ length_prefixed zero frame.bytes

unfoldable pub frame_to_rtmp_audio : MediaFrame → List ℕ
frame_to_rtmp_audio frame = 0xAF ∷ 0x01 ∷ frame.bytes
