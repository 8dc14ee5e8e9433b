-- ===== src/Media.antt =====
-- The shared media types of src/core/mod.rs.
use Prim.Native.String.{◌++◌}
use vcp_media_server.Prelude.{ℕ, String, Bool, true, false, Option, none, some, List}

pub data CodecType : Type 0 where
  h264 h265 aac opus g711 unknown : CodecType

-- `MediaFrame`; the field `data` is called `bytes` here. A byte is a number below 256.
pub record MediaFrame : Type 0 where
  pub stream_id : String
  pub track_id : ℕ
  pub timestamp : ℕ
  pub clock_rate : Option ℕ
  pub bytes : List ℕ
  pub is_keyframe : Bool
  pub codec : CodecType
  pub rtp_data : Option (List ℕ)

-- `matches!(codec, CodecType::H264 | CodecType::H265)`
abbrev pub is_video : CodecType → Bool
is_video CodecType.h264 = true
is_video CodecType.h265 = true
is_video _ = false

unfoldable pub new_frame : String → ℕ → ℕ → List ℕ → Bool → CodecType → MediaFrame
new_frame stream_id track_id timestamp bytes is_keyframe codec = record {
  stream_id = stream_id;
  track_id = track_id;
  timestamp = timestamp;
  clock_rate = none;
  bytes = bytes;
  is_keyframe = is_keyframe;
  codec = codec;
  rtp_data = none;
}

unfoldable pub with_optional_clock_rate : MediaFrame → Option ℕ → MediaFrame
with_optional_clock_rate f clock_rate = record f { clock_rate = clock_rate }

pub data StreamStatus : Type 0 where
  created unpublished publishing paused stopped : StreamStatus
  error : String → StreamStatus

pub data PlaybackStatus : Type 0 where
  idle playing paused : PlaybackStatus

pub data StreamSourceMode : Type 0 where
  pull push : StreamSourceMode

pub data StreamProtocol : Type 0 where
  rtsp rtmp web_rtc http unknown : StreamProtocol

pub data StreamSinkMode : Type 0 where
  pull push : StreamSinkMode

pub data ReceiverStatus : Type 0 where
  idle connecting playing paused stopped : ReceiverStatus
  error : String → ReceiverStatus

-- `id` is the track's number, `extra_params` its pairs of names and values.
pub record Track : Type 0 where
  pub id : ℕ
  pub codec : CodecType
  pub payload_type : ℕ
  pub clock_rate : ℕ
  pub extra_params : List (String × String)

pub record Stream : Type 0 where
  pub id : String
  pub tracks : List Track
  pub status : StreamStatus
  pub playback_status : PlaybackStatus
  pub source : StreamSourceMode
  pub protocol : StreamProtocol
  pub pull_url : Option String
  pub sps : Option (List ℕ)
  pub pps : Option (List ℕ)

pub record StreamReceiver : Type 0 where
  pub id : String
  pub stream_id : String
  pub mode : StreamSinkMode
  pub protocol : StreamProtocol
  pub client_addr : Option String
  pub status : ReceiverStatus
  pub push_addr : Option String

-- `tag` is the first group of the new UUID.
unfoldable pub new_receiver : String → String → StreamSinkMode → StreamProtocol → StreamReceiver
new_receiver tag stream_id mode protocol = record {
  id = stream_id ++ ("_" ++ tag);
  stream_id = stream_id;
  mode = mode;
  protocol = protocol;
  client_addr = none;
  status = ReceiverStatus.idle;
  push_addr = none;
}

unfoldable pub with_client_addr : StreamReceiver → String → StreamReceiver
with_client_addr receiver addr = record receiver { client_addr = some addr }

unfoldable pub with_push_addr : StreamReceiver → String → StreamReceiver
with_push_addr receiver addr = record receiver { push_addr = some addr }
