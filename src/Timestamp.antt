-- ===== src/Timestamp.antt =====
-- src/core/timestamp.rs: timestamp deltas in milliseconds, and the FLV/RTMP tag timelines.
-- `&mut self` is a timeline that is passed in and returned. `FlvPlayTimeline::map` divides by the
-- frame's clock rate; `none` is the panic of a division by zero.
pub mod Monotone
pub mod Drift
mod Tests
use vcp_media_server.Prelude.{
  ℕ, ◌+◌, ◌-◌, ◌*◌, ◌/◌, ◌%◌, ◌^◌, Bool, true, false, ◌&&◌, ◌||◌, Option, none, some, ltb, leb,
  ◌==◌, List, [], ◌∷◌, if◌then◌else◌, first_some, or_else,
}
use vcp_media_server.Prelude.Words.{add64, mul64, saturating_add, saturating_mul}
use vcp_media_server.Media.{CodecType, MediaFrame}

abbrev pub flv_mux_min_step_ms : ℕ
flv_mux_min_step_ms = 1

abbrev pub video_rtp_clock_hz : ℕ
video_rtp_clock_hz = 90_000

abbrev pub video_rtp_ticks_per_ms : ℕ
video_rtp_ticks_per_ms = video_rtp_clock_hz / 1_000

abbrev pub rtp_video_delta_min_ticks : ℕ
rtp_video_delta_min_ticks = video_rtp_ticks_per_ms * 10

abbrev pub rtp_video_delta_max_ticks : ℕ
rtp_video_delta_max_ticks = video_rtp_clock_hz

abbrev pub aac_default_sample_rate_hz : ℕ
aac_default_sample_rate_hz = 44_100

abbrev pub millisecond_clock_rate : ℕ
millisecond_clock_rate = 1_000

abbrev pub aac_default_clock_rate : ℕ
aac_default_clock_rate = aac_default_sample_rate_hz

unfoldable pub looks_like_rtp_video_delta : ℕ → Bool
looks_like_rtp_video_delta delta =
    (leb rtp_video_delta_min_ticks delta && leb delta rtp_video_delta_max_ticks)
    && (delta % video_rtp_ticks_per_ms == 0
        || (delta == 1_501 || delta == 1_502 || delta == 3_003 || delta == 3_753 || delta == 3_754))

-- The body behind the early return: `delta` is `curr - prev`.
unfoldable pub scaled_delta : ℕ → Option ℕ → ℕ
unfolding looks_like_rtp_video_delta
scaled_delta delta (some clock_rate) =
    if clock_rate == 0
    then 0
    else if clock_rate == millisecond_clock_rate
    then delta
    else saturating_mul delta 1_000 / clock_rate
scaled_delta delta none =
    if ltb 2000 delta || looks_like_rtp_video_delta delta
    then delta / video_rtp_ticks_per_ms
    else delta

unfoldable pub media_timestamp_delta_ms_with_clock : ℕ → ℕ → Option ℕ → ℕ
unfolding scaled_delta
media_timestamp_delta_ms_with_clock prev curr clock_rate =
    if leb curr prev then 0 else scaled_delta (curr - prev) clock_rate

unfoldable pub media_timestamp_delta_ms : ℕ → ℕ → ℕ
unfolding media_timestamp_delta_ms_with_clock
media_timestamp_delta_ms prev curr = media_timestamp_delta_ms_with_clock prev curr none

unfoldable pub media_frame_timestamp_delta_ms : MediaFrame → MediaFrame → ℕ
unfolding media_timestamp_delta_ms_with_clock
media_frame_timestamp_delta_ms prev curr =
    media_timestamp_delta_ms_with_clock prev.timestamp curr.timestamp
      (first_some curr.clock_rate prev.clock_rate)

flv_raw_ms : CodecType → ℕ → ℕ
flv_raw_ms CodecType.h264 raw = if ltb 1_000_000 raw then raw / video_rtp_ticks_per_ms else raw
flv_raw_ms CodecType.h265 raw = if ltb 1_000_000 raw then raw / video_rtp_ticks_per_ms else raw
flv_raw_ms CodecType.aac raw =
    if ltb 1_000_000 raw then mul64 raw 1000 / aac_default_sample_rate_hz else raw
flv_raw_ms _ raw = raw

unfoldable pub flv_timestamp_ms : CodecType → ℕ → ℕ
unfolding flv_raw_ms
flv_timestamp_ms codec raw = flv_raw_ms codec raw % 2 ^ 32

-- `anchor` is the instant of the first call, in milliseconds of the monotonic clock.
pub record WallclockMsTimeline : Type 0 where
  pub anchor : Option ℕ
  pub last_emit_ms : ℕ

-- `Instant::now()` and `elapsed()` read the clock one after the other: `first` and `now`.
unfoldable pub map_ms : WallclockMsTimeline → ℕ → ℕ → WallclockMsTimeline × ℕ
map_ms tl first now =
    let anchor = or_else tl.anchor first in
    let ideal = (now - anchor) % 2 ^ 64 in
    let ts =
      if ltb tl.last_emit_ms ideal
      then ideal
      else saturating_add tl.last_emit_ms flv_mux_min_step_ms in
    (record { anchor = some anchor; last_emit_ms = ts }, ts % 2 ^ 32)

pub record FlvPlayTimeline : Type 0 where
  pub last_emit_ms : ℕ
  pub video_ms : ℕ
  pub last_raw_video_ts : Option ℕ
  pub last_raw_video_clock_rate : Option ℕ
  pub audio_ms : ℕ
  pub last_raw_audio_ts : Option ℕ
  pub last_raw_audio_clock_rate : Option ℕ
  pub audio_frames : ℕ

abbrev pub default_timeline : FlvPlayTimeline
default_timeline = record {
  last_emit_ms = 0;
  video_ms = 0;
  last_raw_video_ts = none;
  last_raw_video_clock_rate = none;
  audio_ms = 0;
  last_raw_audio_ts = none;
  last_raw_audio_clock_rate = none;
  audio_frames = 0;
}

-- The video clock's step on a frame that follows one with timestamp `last`.
unfoldable pub video_step : FlvPlayTimeline → MediaFrame → ℕ → ℕ
video_step tl frame last =
    let delta =
      media_timestamp_delta_ms_with_clock last frame.timestamp
        (first_some frame.clock_rate tl.last_raw_video_clock_rate) in
    if ltb last frame.timestamp
    then (if ltb 0 delta && ltb delta 2000
        then add64 tl.video_ms delta
        else saturating_add tl.video_ms flv_mux_min_step_ms)
    else saturating_add tl.video_ms flv_mux_min_step_ms

abbrev pub next_video_ms : FlvPlayTimeline → MediaFrame → Option ℕ → ℕ
next_video_ms tl frame none = tl.video_ms
next_video_ms tl frame (some last) = video_step tl frame last

unfoldable pub audio_step : FlvPlayTimeline → MediaFrame → ℕ → ℕ → ℕ
audio_step tl frame step_ms last =
    let delta =
      media_timestamp_delta_ms_with_clock last frame.timestamp
        (first_some frame.clock_rate tl.last_raw_audio_clock_rate) in
    if ltb last frame.timestamp
    then saturating_add tl.audio_ms (if ltb 0 delta && ltb delta 2000 then delta else step_ms)
    else saturating_add tl.audio_ms step_ms

abbrev pub next_audio_ms : FlvPlayTimeline → MediaFrame → ℕ → Option ℕ → ℕ
next_audio_ms tl frame step_ms none = mul64 tl.audio_frames step_ms
next_audio_ms tl frame step_ms (some last) = audio_step tl frame step_ms last

-- The `match frame.codec` of `map`: the new state and the ideal timestamp.
unfoldable pub ideal_ms : FlvPlayTimeline → MediaFrame → CodecType → Option (FlvPlayTimeline × ℕ)
unfolding video_step audio_step
ideal_ms tl frame CodecType.h264 =
    let ms = next_video_ms tl frame tl.last_raw_video_ts in
    some (
      record tl {
        video_ms = ms;
        last_raw_video_ts = some frame.timestamp;
        last_raw_video_clock_rate = frame.clock_rate;
      },
      ms,
    )
ideal_ms tl frame CodecType.h265 =
    let ms = next_video_ms tl frame tl.last_raw_video_ts in
    some (
      record tl {
        video_ms = ms;
        last_raw_video_ts = some frame.timestamp;
        last_raw_video_clock_rate = frame.clock_rate;
      },
      ms,
    )
ideal_ms tl frame CodecType.aac =
    let rate = or_else frame.clock_rate aac_default_clock_rate in
    let ms = next_audio_ms tl frame (1024 * 1000 / rate) tl.last_raw_audio_ts in
    if rate == 0
    then none
    else some (
      record tl {
        audio_ms = ms;
        last_raw_audio_ts = some frame.timestamp;
        last_raw_audio_clock_rate = frame.clock_rate;
        audio_frames = add64 tl.audio_frames 1;
      },
      ms,
    )
ideal_ms tl frame _ = some (tl, tl.last_emit_ms)

abbrev pub emit_ms : ℕ → ℕ → ℕ
emit_ms last ideal =
    if ltb last ideal
    then ideal
    else if ideal == last && last == 0
    then 0
    else saturating_add last flv_mux_min_step_ms

unfoldable pub map_frame : FlvPlayTimeline → MediaFrame → Option (FlvPlayTimeline × ℕ)
map_frame tl frame = elim (ideal_ms tl frame frame.codec) [
  | none ↦ none
  | some (moved, ideal) ↦
      let ts = emit_ms moved.last_emit_ms ideal in
      some (record moved { last_emit_ms = ts }, ts % 2 ^ 32)
]

-- A player's frames in mux order: the tags that they get.
unfoldable pub map_all : FlvPlayTimeline → List MediaFrame → Option (FlvPlayTimeline × List ℕ)
map_all tl [] = some (tl, [])
map_all tl (f ∷ fs) = elim (map_frame tl f) [
  | none ↦ none
  | some (next, ts) ↦ elim (map_all next fs) [
    | none ↦ none
    | some (last, tags) ↦ some (last, ts ∷ tags)
  ]
]
