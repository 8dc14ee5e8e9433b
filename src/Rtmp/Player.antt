-- ===== src/Rtmp/Player.antt =====
-- The task of src/server/rtmp/mod.rs that forwards a stream's frames to an RTMP player. What it sends is the list of the
-- messages that it gives to `encode_message`; a write that fails ends the task. The clock is read when a message is
-- sent: `readings` gives what its two readings are for the message of each number.
pub mod Steps
pub mod Forward
use vcp_media_server.Prelude.{
  ℕ, String, Bool, true, false, not, ◌&&◌, ◌||◌, Option, none, some, List, [], ◌∷◌, ◌++◌, length,
  ltb, ◌==◌, if◌then◌else◌,
}
use vcp_media_server.Prelude.Words.{add64}
use vcp_media_server.Media.{CodecType, MediaFrame, is_video, new_frame, with_optional_clock_rate}
use vcp_media_server.Timestamp.{WallclockMsTimeline, map_ms}
use vcp_media_server.StreamManager.{StreamManager}
use vcp_media_server.LivePlay.{is_idr_frame, annex_b_with_config, stream_config}
use vcp_media_server.Rtmp.Chunk.{RtmpMessage}
use vcp_media_server.Rtmp.Session.{frame_to_rtmp_video, frame_to_rtmp_audio}

pub record PlayTask : Type 0 where
  pub video_streaming : Bool
  pub frames_sent : ℕ
  pub clock : WallclockMsTimeline
  pub sent : List RtmpMessage

-- `pending` is what the prime has found.
abbrev pub new_task : Bool → PlayTask
new_task pending = record {
  video_streaming = pending;
  frames_sent = 0;
  clock = record { anchor = none; last_emit_ms = 0 };
  sent = [];
}

unfoldable pub prepend_rtmp_video_config : StreamManager → String → MediaFrame → MediaFrame
prepend_rtmp_video_config m stream_id frame =
    if is_video frame.codec
    then elim (stream_config m stream_id) [
      | none ↦ frame
      | some (sps, pps) ↦
          with_optional_clock_rate
            (new_frame frame.stream_id frame.track_id frame.timestamp
              (annex_b_with_config sps pps frame.bytes) frame.is_keyframe frame.codec)
            frame.clock_rate
    ]
    else frame

-- A message of the player's stream, with the clock's time.
unfoldable pub send_tag : ℕ → (ℕ → ℕ × ℕ) → PlayTask → ℕ → List ℕ → PlayTask
send_tag server_stream_id readings task msg_type payload =
    let (first, now) = readings task.frames_sent in
    let (clock, rtmp_ts) = map_ms task.clock first now in
    if length payload == 0 then task else record task {
      clock = clock;
      frames_sent = add64 task.frames_sent 1;
      sent =
          task.sent
          ++ (record {
            msg_type = msg_type;
            timestamp = rtmp_ts;
            msg_stream_id = server_stream_id;
            payload = payload;
          }
              ∷ []);
    }

unfoldable pub forward_video :
    ℕ → StreamManager → String → (ℕ → ℕ × ℕ) → PlayTask → MediaFrame → PlayTask
forward_video server_stream_id m stream_id readings task frame =
    if task.video_streaming || is_idr_frame frame
    then send_tag server_stream_id readings (record task { video_streaming = true }) 0x09
        (frame_to_rtmp_video (prepend_rtmp_video_config m stream_id frame))
    else task

-- One round of the loop over the frames of a batch.
unfoldable pub forward_frame :
    ℕ → StreamManager → String → (ℕ → ℕ × ℕ) → PlayTask → MediaFrame → PlayTask
forward_frame server_stream_id m stream_id readings task frame = elim frame.codec [
  | CodecType.h264 ↦ forward_video server_stream_id m stream_id readings task frame
  | CodecType.h265 ↦ forward_video server_stream_id m stream_id readings task frame
  | CodecType.aac ↦
      (if ltb (length frame.bytes) 8
        then task
        else send_tag server_stream_id readings task 0x08 (frame_to_rtmp_audio frame))
  | CodecType.opus ↦ task
  | CodecType.g711 ↦ task
  | CodecType.unknown ↦ task
]

unfoldable pub forward_frames :
    ℕ → StreamManager → String → (ℕ → ℕ × ℕ) → PlayTask → List MediaFrame → PlayTask
forward_frames server_stream_id m stream_id readings task [] = task
forward_frames server_stream_id m stream_id readings task (frame ∷ frames) =
    forward_frames server_stream_id m stream_id readings
      (forward_frame server_stream_id m stream_id readings task frame) frames

-- A batch: after a gap of the ring the player waits for an IDR again.
unfoldable pub forward_batch :
    ℕ → StreamManager → String → (ℕ → ℕ × ℕ) → Bool → PlayTask → List MediaFrame → PlayTask
forward_batch server_stream_id m stream_id readings resync task frames =
    forward_frames server_stream_id m stream_id readings
      (if resync then record task { video_streaming = false } else task) frames
