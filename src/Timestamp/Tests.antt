-- ===== src/Timestamp/Tests.antt =====
-- The timelines of src/core/timestamp.rs at concrete inputs.
use vcp_media_server.Prelude.{ℕ, ◌≡◌, refl, false, some, List, [], ◌∷◌, arith}
use vcp_media_server.Media.{CodecType, MediaFrame, new_frame, with_optional_clock_rate}
use vcp_media_server.Timestamp.{
  FlvPlayTimeline, default_timeline, media_timestamp_delta_ms, media_timestamp_delta_ms_with_clock,
  map_frame, map_all, ideal_ms,
}
use vcp_media_server.Timestamp.Monotone.{InRange, Climbs, map_all-Climbs}
use vcp_media_server.Timestamp.Drift.{map_all-offsets}

-- `rtp_video_delta_to_ms`, `fractional_fps_...` and `rtmp_delta_unchanged` of the source's tests.
deltas :
    (media_timestamp_delta_ms 1_690_126_824 1_690_130_424 ≡ 40)
    × (media_timestamp_delta_ms 2_742_522_000 2_742_523_501 ≡ 16)
    × (media_timestamp_delta_ms 1000 1040 ≡ 40)
unfolding media_timestamp_delta_ms
deltas = (refl, refl, refl)

abbrev clocked : ℕ → ℕ → CodecType → MediaFrame
unfolding new_frame with_optional_clock_rate
clocked ts rate codec =
    with_optional_clock_rate (new_frame "s" 0 ts (1 ∷ []) false codec) (some rate)

abbrev session : List MediaFrame
unfolding new_frame with_optional_clock_rate
session =
    clocked 1_000_040 1000 CodecType.h264
    ∷ clocked 48_000 48_000 CodecType.aac
    ∷ clocked 1_000_080 1000 CodecType.h264
    ∷ []

-- The state after the session from a new timeline.
abbrev session_end : FlvPlayTimeline
session_end = record {
  last_emit_ms = 40;
  video_ms = 40;
  last_raw_video_ts = some 1_000_080;
  last_raw_video_clock_rate = some 1000;
  audio_ms = 0;
  last_raw_audio_ts = some 48_000;
  last_raw_audio_clock_rate = some 48_000;
  audio_frames = 1;
}

session_runs : map_all default_timeline session ≡ some (session_end, 0 ∷ 0 ∷ 40 ∷ [])
unfolding map_all map_frame ideal_ms media_timestamp_delta_ms_with_clock new_frame
    with_optional_clock_rate
session_runs = refl

default-InRange : InRange default_timeline
default-InRange = omega arith

abbrev first_video : FlvPlayTimeline
first_video = record default_timeline {
  last_raw_video_ts = some 1_000_040;
  last_raw_video_clock_rate = some 1000;
}

first_video_runs :
    map_frame default_timeline (clocked 1_000_040 1000 CodecType.h264) ≡ some (first_video, 0)
unfolding map_frame ideal_ms new_frame with_optional_clock_rate
first_video_runs = refl

map_all-Climbs_example : Climbs 0 (0 ∷ 0 ∷ 40 ∷ [])
unfolding new_frame with_optional_clock_rate
map_all-Climbs_example =
    map_all-Climbs default_timeline session_end session (0 ∷ 0 ∷ 40 ∷ []) default-InRange
      session_runs (omega arith)

map_all-offsets_example :
    (end : FlvPlayTimeline) × (map_all default_timeline
        (clocked 1_000_040 1000 CodecType.h264 ∷ clocked 1_000_080 1000 CodecType.h264 ∷ [])
      ≡ some (end, 0 ∷ 40 ∷ []))
unfolding new_frame with_optional_clock_rate
map_all-offsets_example =
    map_all-offsets (clocked 1_000_040 1000 CodecType.h264)
      (clocked 1_000_080 1000 CodecType.h264 ∷ []) refl
      (refl, refl, omega arith, omega arith, omega arith, tt)
