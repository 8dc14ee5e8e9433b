-- ===== src/Hls/Pes.antt =====
-- Elementary stream parts of src/server/hls/ts_muxer.rs: PES packets with their timestamps, the program
-- clock, ADTS headers and access unit delimiters.
-- A mask or a shift by a constant is written by `%` and `/`; an `|` of bits that do not overlap is a sum.
use vcp_media_server.Prelude.{
  ℕ, ◌+◌, ◌*◌, ◌/◌, ◌%◌, ◌^◌, Bool, ◌&&◌, ◌||◌, List, [], ◌∷◌, ◌++◌, leb, ◌==◌, if◌then◌else◌,
  length,
}
use vcp_media_server.Prelude.Bytes.{starts_with}
use vcp_media_server.Prelude.Words.{saturating_mul}
use vcp_media_server.Media.{MediaFrame}

unfoldable pub starts_with_aud : List ℕ → Bool
starts_with_aud bytes =
    starts_with bytes (0x00 ∷ 0x00 ∷ 0x00 ∷ 0x01 ∷ 0x09 ∷ [])
    || starts_with bytes (0x00 ∷ 0x00 ∷ 0x01 ∷ 0x09 ∷ [])

unfoldable pub prepare_h264_au_for_ts : List ℕ → List ℕ
prepare_h264_au_for_ts [] = []
prepare_h264_au_for_ts (b ∷ bs) =
    if starts_with_aud (b ∷ bs) then b ∷ bs else 0x00 ∷ 0x00 ∷ 0x00 ∷ 0x01 ∷ 0x09 ∷ 0xF0 ∷ b ∷ bs

-- The five bytes that the source pushes on `pes`; `u64` arithmetic.
unfoldable pub write_pes_timestamp : ℕ → ℕ → List ℕ
write_pes_timestamp marker timestamp_ms =
    let pts_val = saturating_mul timestamp_ms 90 in
    (marker + 0x01 + pts_val / 2 ^ 30 / 2 % 2 ^ 3 * 2)
    ∷ pts_val / 2 ^ 22 % 256
    ∷ (0x01 + pts_val / 2 ^ 14 / 2 % 2 ^ 7 * 2)
    ∷ pts_val / 2 ^ 7 % 256
    ∷ (0x01 + pts_val * 2 % 2 ^ 64 / 2 % 2 ^ 7 * 2)
    ∷ []

-- `PES_FIXED_HEADER_LEN + PTS_FIELD_LEN`
abbrev pub pes_header_len : ℕ
pes_header_len = 3 + 5

unfoldable pub build_pes : MediaFrame → Bool → List ℕ
build_pes frame is_video =
    let pes_body_len = pes_header_len + length frame.bytes in
    0x00
    ∷ 0x00
    ∷ 0x01
    ∷ (if is_video then 0xE0 else 0xC0)
    ∷ (if leb pes_body_len 0xFFFF then pes_body_len / 2 ^ 8 % 256 else 0x00)
    ∷ (if leb pes_body_len 0xFFFF then pes_body_len % 256 else 0x00)
    ∷ (0x80 + (if is_video then 0x04 else 0x00))
    ∷ 0x80
    ∷ 5
    ∷ (write_pes_timestamp 0x20 frame.timestamp ++ frame.bytes)

-- The six bytes that the source writes to `out`.
unfoldable pub write_pcr : ℕ → List ℕ
write_pcr pcr_base =
    pcr_base / 2 ^ 25 % 256
    ∷ pcr_base / 2 ^ 17 % 256
    ∷ pcr_base / 2 ^ 9 % 256
    ∷ pcr_base / 2 % 256
    ∷ (pcr_base % 2 * 2 ^ 7 + 0x7E)
    ∷ 0x00
    ∷ []

abbrev pub aac_sample_rate_index : ℕ
aac_sample_rate_index = 4

abbrev pub aac_channels : ℕ
aac_channels = 2

-- `((AAC_CHANNELS & 0x03) << 6) | high` for a byte `high`: bit 7 is set, bit 6 is that of `high`.
abbrev pub adts_length_high : ℕ → ℕ
adts_length_high high = aac_channels % 2 ^ 2 * 2 ^ 6 + high % 2 ^ 7

-- `frame_len >> 11` is cut to a byte.
abbrev pub adts_header : ℕ → List ℕ
adts_header frame_len =
    0xFF
    ∷ 0xF1
    ∷ (aac_sample_rate_index % 2 ^ 4 * 2 ^ 2 + aac_channels / 2 ^ 2 % 2)
    ∷ adts_length_high (frame_len / 2 ^ 11 % 256)
    ∷ frame_len / 2 ^ 3 % 256
    ∷ (frame_len % 2 ^ 3 * 2 ^ 5 + 0x1F)
    ∷ 0xFC
    ∷ []

unfoldable pub wrap_aac_adts : List ℕ → List ℕ
wrap_aac_adts [] = []
wrap_aac_adts (a ∷ []) = adts_header (1 + 7) ++ (a ∷ [])
wrap_aac_adts (a ∷ b ∷ bs) =
    if a == 0xFF && b / 2 ^ 4 % 2 ^ 4 == 0xF
    then a ∷ b ∷ bs
    else adts_header (length (a ∷ b ∷ bs) + 7) ++ (a ∷ b ∷ bs)
