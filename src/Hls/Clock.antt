-- ===== src/Hls/Clock.antt =====
-- The clocks of src/server/hls/ts_muxer.rs as a demuxer reads them (ISO/IEC 13818-1, 2.4.3.5 and 2.4.3.7).
use vcp_media_server.Prelude.{ℕ, ◌+◌, ◌*◌, ◌/◌, ◌%◌, ◌^◌, ◌≤◌, ◌<◌, ◌≡◌, List, arith}
use vcp_media_server.H264.Packet.{nth}
use vcp_media_server.Hls.Pes.{write_pes_timestamp, write_pcr}
use vcp_media_server.Hls.TsMuxer.{TsMuxer, update_pcr}

-- The 33 bits of a PTS field: three behind the marker, then fifteen and fifteen, each before a marker bit.
abbrev pub read_pts : List ℕ → ℕ
read_pts field =
    nth field 0 / 2 % 2 ^ 3 * 2 ^ 30
    + nth field 1 * 2 ^ 22
    + nth field 2 / 2 % 2 ^ 7 * 2 ^ 15
    + nth field 3 * 2 ^ 7
    + nth field 4 / 2 % 2 ^ 7

-- The base of a PCR field, in units of 90 kHz.
abbrev pub read_pcr_base : List ℕ → ℕ
read_pcr_base field =
    nth field 0 * 2 ^ 25
    + nth field 1 * 2 ^ 17
    + nth field 2 * 2 ^ 9
    + nth field 3 * 2
    + nth field 4 / 2 ^ 7 % 2

-- A timestamp whose PTS at 90 kHz is below 2 ^ 30 reads back as this PTS.
read_pts-write_pes_timestamp :
    (timestamp_ms : ℕ)
    → timestamp_ms * 90 < 2 ^ 30
    → read_pts (write_pes_timestamp 0x20 timestamp_ms) ≡ timestamp_ms * 90
unfolding write_pes_timestamp
read_pts-write_pes_timestamp ms h = omega arith

-- A timestamp whose PTS at 90 kHz lies between 2 ^ 30 and 2 ^ 31 reads back 2 ^ 30 ticks too low: the bit of
-- weight 2 ^ 30 is not written.
pub pts_bit_30_lost :
    (timestamp_ms : ℕ)
    → 2 ^ 30 ≤ timestamp_ms * 90
    → timestamp_ms * 90 < 2 ^ 31
    → read_pts (write_pes_timestamp 0x20 timestamp_ms) + 2 ^ 30 ≡ timestamp_ms * 90
unfolding write_pes_timestamp
pts_bit_30_lost ms lo hi = omega arith

-- The program clock that is written for a millisecond runs 300 times too fast: its base reads as 300 times
-- the PTS of that millisecond, while this is below 2 ^ 33.
pub pcr_runs_300_times :
    (m : TsMuxer) (timestamp_ms : ℕ)
    → timestamp_ms * 27000 < 2 ^ 33
    → read_pcr_base (write_pcr (update_pcr m timestamp_ms).pcr_clock) ≡ 300 * (timestamp_ms * 90)
unfolding write_pcr update_pcr
pcr_runs_300_times m ms h = omega arith
