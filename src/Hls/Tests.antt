-- ===== src/Hls/Tests.antt =====
-- Tests and witnesses for HLS (src/server/hls/ts_muxer.rs, m3u8.rs and timing.rs).
use vcp_media_server.Prelude.{ℕ, ◌+◌, ◌*◌, ◌^◌, ◌≡◌, refl, true, some, List, [], ◌∷◌, ◌++◌, arith}
use vcp_media_server.Media.{MediaFrame, new_frame, h264}
use vcp_media_server.Hls.Checksum.{crc32, crc32_from, crc32_step, crc32_table, crc_shift, xor_bits}
use vcp_media_server.Hls.Pes.{
  write_pes_timestamp, write_pcr, wrap_aac_adts, prepare_h264_au_for_ts, starts_with_aud,
}
use vcp_media_server.Prelude.Bytes.{starts_with}
use vcp_media_server.Hls.Packets.{pes_to_ts_packets}
use vcp_media_server.Hls.TsMuxer.{new_muxer, update_pcr}
use vcp_media_server.Hls.Clock.{read_pts, read_pcr_base, pts_bit_30_lost, pcr_runs_300_times}
use vcp_media_server.Hls.Payload.{demuxed}
use vcp_media_server.Hls.Demux.{padding, demuxed-pes_to_ts_packets}
use vcp_media_server.Hls.Playlist.{
  IsWindow, add_segment, new_generator, new_generator-IsWindow, add_segment-IsWindow,
}
use vcp_media_server.Hls.Counters.{IsValid}

-- The check value of CRC-32/MPEG-2.
check_value : crc32 (0x31 ∷ 0x32 ∷ 0x33 ∷ 0x34 ∷ 0x35 ∷ 0x36 ∷ 0x37 ∷ 0x38 ∷ 0x39 ∷ []) ≡ 0x0376E6E7
unfolding crc32 crc32_from crc32_step crc32_table crc_shift xor_bits
check_value = refl

aud_added :
    prepare_h264_au_for_ts (0 ∷ 0 ∷ 0 ∷ 1 ∷ 0x65 ∷ [])
    ≡ (0 ∷ 0 ∷ 0 ∷ 1 ∷ 9 ∷ 0xF0 ∷ 0 ∷ 0 ∷ 0 ∷ 1 ∷ 0x65 ∷ [])
unfolding prepare_h264_au_for_ts starts_with_aud starts_with
aud_added = refl

adts_added : wrap_aac_adts (0x21 ∷ []) ≡ (0xFF ∷ 0xF1 ∷ 16 ∷ 128 ∷ 1 ∷ 0x1F ∷ 0xFC ∷ 0x21 ∷ [])
unfolding wrap_aac_adts
adts_added = refl

pts_bit_30_lost_example : read_pts (write_pes_timestamp 0x20 12000000) + 2 ^ 30 ≡ 12000000 * 90
pts_bit_30_lost_example = pts_bit_30_lost 12000000 (omega arith) (omega arith)

pcr_runs_300_times_example :
    read_pcr_base (write_pcr (update_pcr new_muxer 1000).pcr_clock) ≡ 300 * (1000 * 90)
pcr_runs_300_times_example = pcr_runs_300_times new_muxer 1000 (omega arith)

abbrev small_pes : List ℕ
small_pes = 0 ∷ 0 ∷ 1 ∷ 0xE0 ∷ 7 ∷ []

demuxed-pes_to_ts_packets_example :
    demuxed 5 (pes_to_ts_packets 0x100 true 0 5 small_pes 15)
    ≡ some (small_pes ++ padding true small_pes)
demuxed-pes_to_ts_packets_example =
    demuxed-pes_to_ts_packets 0x100 true 0 5 15 small_pes (omega arith) (omega arith) (omega arith)

new_muxer-IsValid : IsValid new_muxer
unfolding new_muxer
new_muxer-IsValid = record {
  video = omega arith;
  audio = omega arith;
  pat = omega arith;
  pmt = omega arith;
}

abbrev idr_frame : MediaFrame
idr_frame = new_frame "live" 0 40 (0 ∷ 0 ∷ 0 ∷ 1 ∷ 0x65 ∷ []) true h264

add_segment-IsWindow_example :
    IsWindow ℕ ℕ (0 + 1) (0 + 1) (add_segment ℕ ℕ (new_generator ℕ ℕ 1000 3) 960 0 0 true)
unfolding new_generator
add_segment-IsWindow_example =
    add_segment-IsWindow ℕ ℕ 0 0 (new_generator ℕ ℕ 1000 3) 960 0 0 true (omega arith) (omega arith)
      (omega arith) (new_generator-IsWindow ℕ ℕ 1000 3)

abbrev last_raw : ℕ
last_raw = 3000

abbrev mux_ms : ℕ
mux_ms = 40

abbrev next_raw : ℕ
next_raw = 6600
