-- ===== src/Timestamp/Drift.antt =====
-- A steady publisher's video in src/core/timestamp.rs: the tag timeline adds up no error.
use vcp_media_server.Prelude.{
  ℕ, ◌+◌, ◌-◌, ◌%◌, ◌^◌, ◌≤◌, ◌<◌, ◌≡◌, refl, true, some, List, [], ◌∷◌, arith,
}
use vcp_media_server.Media.{CodecType, MediaFrame, is_video}
use vcp_media_server.Timestamp.{
  FlvPlayTimeline, default_timeline, ideal_ms, map_frame, map_all, video_step,
  media_timestamp_delta_ms_with_clock,
}

-- Video frames on a millisecond clock, each later than the one before by less than two seconds.
abbrev pub Steady : ℕ → List MediaFrame → Type 0
Steady last [] = Unit {0}
Steady last (f ∷ fs) =
    (is_video f.codec ≡ true)
    × (f.clock_rate ≡ some 1000)
    × (last < f.timestamp)
    × (f.timestamp < last + 2000)
    × (f.timestamp < 2 ^ 64)
    × Steady f.timestamp fs

abbrev pub offsets : ℕ → List MediaFrame → List ℕ
offsets base [] = []
offsets base (f ∷ fs) = (f.timestamp - base) % 2 ^ 32 ∷ offsets base fs

-- The timeline has emitted `last - base` for the video frame at `last`.
record At (tl : FlvPlayTimeline) (base last : ℕ) : Type 0 where
  emitted : tl.last_emit_ms ≡ last - base
  video : tl.video_ms ≡ last - base
  raw : tl.last_raw_video_ts ≡ some last
  from : base ≤ last

abbrev advance : FlvPlayTimeline → MediaFrame → ℕ → FlvPlayTimeline
advance tl f base = record tl {
  last_emit_ms = f.timestamp - base;
  video_ms = f.timestamp - base;
  last_raw_video_ts = some f.timestamp;
  last_raw_video_clock_rate = f.clock_rate;
}

steady_delta :
    (last ts : ℕ) → last < ts → media_timestamp_delta_ms_with_clock last ts (some 1000) ≡ ts - last
unfolding media_timestamp_delta_ms_with_clock
steady_delta last ts h = ground arith

steady_step :
    (tl : FlvPlayTimeline) (f : MediaFrame) (base last : ℕ)
    → At tl base last
    → f.clock_rate ≡ some 1000
    → last < f.timestamp
    → f.timestamp < last + 2000
    → f.timestamp < 2 ^ 64
    → video_step tl f last ≡ f.timestamp - base
unfolding video_step
steady_step tl f base last at rate up near small =
    ground (arith, at, rate, steady_delta last f.timestamp up)

module _ (tl : FlvPlayTimeline) (f : MediaFrame) (base last : ℕ) (at : At tl base last)
    (step : video_step tl f last ≡ f.timestamp - base) (up : last < f.timestamp) where
  steady_ideal :
      (c : CodecType)
      → is_video c ≡ true
      → ideal_ms tl f c
        ≡ some (
          record tl {
            video_ms = f.timestamp - base;
            last_raw_video_ts = some f.timestamp;
            last_raw_video_clock_rate = f.clock_rate;
          },
          f.timestamp - base,
        )
  unfolding ideal_ms
  steady_ideal CodecType.h264 h = ground (arith, at.raw, step)
  steady_ideal CodecType.h265 h = ground (arith, at.raw, step)
  steady_ideal CodecType.aac h = cc
  steady_ideal CodecType.opus h = cc
  steady_ideal CodecType.g711 h = cc
  steady_ideal CodecType.unknown h = cc

  steady_map :
      is_video f.codec ≡ true
      → map_frame tl f ≡ some (advance tl f base, (f.timestamp - base) % 2 ^ 32)
  unfolding map_frame
  steady_map h = ground (arith, steady_ideal f.codec h, at.emitted, at.from)

advance-At :
    (tl : FlvPlayTimeline) (f : MediaFrame) (base last : ℕ)
    → At tl base last
    → last < f.timestamp
    → At (advance tl f base) base f.timestamp
advance-At tl f base last at up = record {
  emitted = refl;
  video = refl;
  raw = refl;
  from = omega (arith, at.from);
}

map_all_next :
    (tl next : FlvPlayTimeline) (f : MediaFrame) (fs : List MediaFrame) (ts : ℕ)
    (last : FlvPlayTimeline) (tags : List ℕ)
    → map_frame tl f ≡ some (next, ts)
    → map_all next fs ≡ some (last, tags)
    → map_all tl (f ∷ fs) ≡ some (last, ts ∷ tags)
unfolding map_all
map_all_next tl next f fs ts last tags n m = ground (arith, n, m)

map_all-At :
    (tl : FlvPlayTimeline) (base last : ℕ) (fs : List MediaFrame)
    → At tl base last
    → Steady last fs
    → (end : FlvPlayTimeline) × (map_all tl fs ≡ some (end, offsets base fs))
map_all-At tl base last [] at s = (tl, unfold map_all in refl)
map_all-At tl base last (f ∷ fs) at (video, rate, up, near, small, rest) =
    let step = steady_step tl f base last at rate up near small in
    let (end, e) =
      map_all-At (advance tl f base) base f.timestamp fs (advance-At tl f base last at up) rest in
    (
      end,
      map_all_next tl (advance tl f base) f fs ((f.timestamp - base) % 2 ^ 32) end (offsets base fs)
          (steady_map tl f base last at step up video) e,
    )

first_map :
    (f : MediaFrame) (c : CodecType)
    → f.codec ≡ c
    → is_video c ≡ true
    → map_frame default_timeline f
      ≡ some (
        record default_timeline {
          last_raw_video_ts = some f.timestamp;
          last_raw_video_clock_rate = f.clock_rate;
        },
        0,
      )
unfolding map_frame ideal_ms
first_map f CodecType.h264 e h = ground (arith, e)
first_map f CodecType.h265 e h = ground (arith, e)
first_map f CodecType.aac e h = cc
first_map f CodecType.opus e h = cc
first_map f CodecType.g711 e h = cc
first_map f CodecType.unknown e h = cc

-- A new timeline, fed with video frames on a millisecond clock whose steps are under two seconds,
-- tags each frame with its offset from the first one (modulo 2 ^ 32), with no drift however long the
-- session.
pub map_all-offsets :
    (f : MediaFrame) (fs : List MediaFrame)
    → is_video f.codec ≡ true
    → Steady f.timestamp fs
    → (end : FlvPlayTimeline) × (map_all default_timeline (f ∷ fs)
        ≡ some (end, 0 ∷ offsets f.timestamp fs))
map_all-offsets f fs video s =
    let start : FlvPlayTimeline = record default_timeline {
      last_raw_video_ts = some f.timestamp;
      last_raw_video_clock_rate = f.clock_rate;
    } in
    let (end, e) =
      map_all-At start f.timestamp f.timestamp fs
        (record { emitted = omega arith; video = omega arith; raw = refl; from = omega arith }) s in
    (
      end,
      map_all_next default_timeline start f fs 0 end (offsets f.timestamp fs)
          (first_map f f.codec refl video) e,
    )
