-- ===== src/H264/RtpClock.antt =====
-- Order of RTP timestamps on the wrapping clock, from src/server/webrtc/h264_util.rs.
use vcp_media_server.Prelude.{
  ℕ, ◌+◌, ◌%◌, ◌^◌, ◌<◌, ◌≡◌, Bool, true, false, not, ◌&&◌, ◌||◌, arith, ltb, leb, ◌==◌,
  if◌then◌else◌,
}
use vcp_media_server.Prelude.Words.{sub32}

-- `as u32` of both, and `wrapping_sub`.
abbrev pub rtp_distance : ℕ → ℕ → ℕ
rtp_distance a b = sub32 (a % 2 ^ 32) (b % 2 ^ 32)

unfoldable pub is_rtp_timestamp_after : ℕ → ℕ → Bool
is_rtp_timestamp_after curr prev =
    if curr == prev then false else ltb (rtp_distance curr prev) 0x80000000

unfoldable pub is_rtp_timestamp_before : ℕ → ℕ → Bool
is_rtp_timestamp_before curr prev =
    if curr == prev then false else not (is_rtp_timestamp_after curr prev)

unfoldable pub is_rtp_stale_in_gop : ℕ → ℕ → Bool
is_rtp_stale_in_gop curr prev =
    if not (is_rtp_timestamp_before curr prev)
    then false
    else ltb 0 (rtp_distance prev curr) && ltb (rtp_distance prev curr) 90000

unfoldable pub is_rtp_timeline_reset : ℕ → ℕ → Bool
is_rtp_timeline_reset curr prev =
    if not (is_rtp_timestamp_before curr prev) then false else leb 90000 (rtp_distance prev curr)

-- On 32-bit timestamps a step back is either a reordering within a GOP or a new timeline and never both,
-- and nothing else is one of them.
before_cases :
    (curr prev : ℕ)
    → curr < 2 ^ 32
    → prev < 2 ^ 32
    → (is_rtp_timestamp_before curr prev
        ≡ (is_rtp_stale_in_gop curr prev || is_rtp_timeline_reset curr prev))
      × ((is_rtp_stale_in_gop curr prev && is_rtp_timeline_reset curr prev) ≡ false)
unfolding is_rtp_timestamp_before is_rtp_timestamp_after is_rtp_stale_in_gop is_rtp_timeline_reset
before_cases curr prev hc hp = (ground arith, ground arith)

-- A clock that advances by less than 2 ^ 31 ticks is seen as after, across its wrap, and the other way
-- round as before.
after_step :
    (prev step : ℕ)
    → prev < 2 ^ 32
    → 0 < step
    → step < 2 ^ 31
    → (is_rtp_timestamp_after ((prev + step) % 2 ^ 32) prev ≡ true)
      × (is_rtp_timestamp_before prev ((prev + step) % 2 ^ 32) ≡ true)
unfolding is_rtp_timestamp_before is_rtp_timestamp_after
after_step prev step hp pos small = (ground arith, ground arith)
