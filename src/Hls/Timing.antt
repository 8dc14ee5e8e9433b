-- ===== src/Hls/Timing.antt =====
-- The mux clock of src/server/hls/timing.rs: `advance_video_mux_ms`.
use vcp_media_server.Prelude.{
  ℕ, ◌+◌, ◌^◌, ◌≤◌, ◌<◌, ◌≡◌, ◌⊎◌, refl, ◌&&◌, Option, arith, ltb, ◌==◌, if◌then◌else◌,
}
use vcp_media_server.Prelude.Words.{saturating_add}
use vcp_media_server.Timestamp.{media_timestamp_delta_ms_with_clock}

abbrev pub min_video_mux_step_ms : ℕ
min_video_mux_step_ms = 40

-- The step for a delta, which is taken when it lies in 1 to 499.
abbrev pub bounded_step : ℕ → ℕ
bounded_step delta = if ltb 0 delta && ltb delta 500 then delta else min_video_mux_step_ms

unfoldable pub mux_step : ℕ → ℕ → ℕ → Option ℕ → ℕ
mux_step last_raw_video video_mux_ms timestamp clock_rate =
    if ltb 0 last_raw_video && ltb last_raw_video timestamp
    then bounded_step (media_timestamp_delta_ms_with_clock last_raw_video timestamp clock_rate)
    else if video_mux_ms == 0
    then 0
    else min_video_mux_step_ms

-- The last raw timestamp and the mux clock behind the frame.
unfoldable pub advance_video_mux_ms : ℕ → ℕ → ℕ → Option ℕ → ℕ × ℕ
unfolding mux_step
advance_video_mux_ms last_raw_video video_mux_ms timestamp clock_rate =
    let step = mux_step last_raw_video video_mux_ms timestamp clock_rate in
    (
      timestamp,
      (if video_mux_ms == 0 && step == 0
          then 0
          else saturating_add video_mux_ms (if step == 0 then min_video_mux_step_ms else step)),
    )

mux_step_bound :
    (last_raw_video video_mux_ms timestamp : ℕ) (clock_rate : Option ℕ)
    → mux_step last_raw_video video_mux_ms timestamp clock_rate < 500
unfolding mux_step
mux_step_bound last_raw_video video_mux_ms timestamp clock_rate = ground arith

-- The mux clock of a session moves by 1 to 499 milliseconds with every video frame, whatever the
-- publisher's timestamps are, once it has started; a frame with no earlier one leaves the clock at zero. The
-- clock is not within 500 ms of the top of `u64`.
advance_video_mux_ms_climbs :
    (last_raw_video video_mux_ms timestamp : ℕ) (clock_rate : Option ℕ)
    → video_mux_ms + 500 < 2 ^ 64
    → (let next = advance_video_mux_ms last_raw_video video_mux_ms timestamp clock_rate in
        (next.0 ≡ timestamp)
        × (next.1 < video_mux_ms + 500)
        × ((video_mux_ms < next.1)
            ⊎ ((video_mux_ms ≡ 0)
                × (next.1 ≡ 0)
                × ((last_raw_video ≡ 0) ⊎ (timestamp ≤ last_raw_video)))))
unfolding advance_video_mux_ms mux_step
advance_video_mux_ms_climbs last_raw_video video_mux_ms timestamp clock_rate room =
    let bound = mux_step_bound last_raw_video video_mux_ms timestamp clock_rate in
    (refl, ground (arith, bound), ground arith)
