-- ===== src/H264/Packet.antt =====
-- RTP packets and interleaved frames: `build_rtp_packet`, `wrap_interleaved` and `parse_interleaved` of
-- src/server/rtsp/common.rs, and `rtp_h264_packet_info` of src/server/webrtc/h264_rtp_ingest.rs.
-- A mask or a shift by a constant is written by `%` and `/`; an `|` of bits that do not overlap is a sum.
use vcp_media_server.Prelude.{
  ℕ, zero, suc, ◌+◌, ◌*◌, ◌/◌, ◌%◌, ◌^◌, ◌<◌, ◌≡◌, Bool, not, Option, none, some, List, [], ◌∷◌,
  ◌++◌, arith, ltb, leb, ◌==◌, if◌then◌else◌, length, take, drop, length-append, take-append_length,
}

-- `buf[i]`; each use is behind a check of the length.
abbrev pub nth : List ℕ → ℕ → ℕ
nth [] i = 0
nth (b ∷ bs) zero = b
nth (b ∷ bs) (suc i) = nth bs i

abbrev pub marker_byte : Bool → ℕ → ℕ
marker_byte marker payload_type = if marker then 2 ^ 7 + payload_type % 2 ^ 7 else payload_type

unfoldable pub build_rtp_packet : ℕ → ℕ → ℕ → ℕ → Bool → List ℕ → List ℕ
build_rtp_packet payload_type seq ts ssrc marker payload =
    2 * 2 ^ 6
    ∷ marker_byte marker payload_type
    ∷ seq / 2 ^ 8 % 256
    ∷ seq % 256
    ∷ ts / 2 ^ 24 % 256
    ∷ ts / 2 ^ 16 % 256
    ∷ ts / 2 ^ 8 % 256
    ∷ ts % 256
    ∷ ssrc / 2 ^ 24 % 256
    ∷ ssrc / 2 ^ 16 % 256
    ∷ ssrc / 2 ^ 8 % 256
    ∷ ssrc % 256
    ∷ payload

pub record RtpH264PacketInfo : Type 0 where
  pub payload : List ℕ
  pub timestamp : ℕ
  pub marker : Bool
  pub sequence_number : ℕ

-- The payload's offset behind the CSRC list and the header extension.
abbrev pub payload_offset : List ℕ → ℕ → Option ℕ
payload_offset rtp offset =
    if ltb (length rtp) offset
    then none
    else if nth rtp 0 / 2 ^ 4 % 2 == 0
    then some offset
    else if ltb (length rtp) (offset + 4)
    then none
    else some (offset + ((nth rtp (offset + 2) * 2 ^ 8 + nth rtp (offset + 3)) * 4 + 4))

unfoldable pub rtp_h264_packet_info : List ℕ → Option RtpH264PacketInfo
rtp_h264_packet_info rtp =
    if ltb (length rtp) 12 then none else elim (payload_offset rtp (12 + nth rtp 0 % 2 ^ 4 * 4)) [
      | none ↦ none
      | some offset ↦
          if leb (length rtp) offset
          then none
          else some (record {
            payload = drop offset rtp;
            timestamp = nth rtp 4 * 2 ^ 24 + nth rtp 5 * 2 ^ 16 + nth rtp 6 * 2 ^ 8 + nth rtp 7;
            marker = not (nth rtp 1 / 2 ^ 7 % 2 == 0);
            sequence_number = nth rtp 2 * 2 ^ 8 + nth rtp 3;
          })
    ]

unfoldable pub wrap_interleaved : List ℕ → ℕ → List ℕ
wrap_interleaved bytes channel =
    0x24 ∷ channel ∷ length bytes % 2 ^ 16 / 2 ^ 8 ∷ length bytes % 2 ^ 16 % 256 ∷ bytes

unfoldable pub parse_interleaved : List ℕ → Option (ℕ × List ℕ)
parse_interleaved [] = none
parse_interleaved (b ∷ bs) =
    let bytes = b ∷ bs in
    let len = nth bytes 2 * 2 ^ 8 + nth bytes 3 in
    if not (b == 0x24)
    then none
    else if ltb (length bytes) 4
    then none
    else if ltb (length bytes) (4 + len)
    then none
    else some (nth bytes 1, take len (drop 4 bytes))

-- An RTP packet reads back: its payload, timestamp, marker and sequence number. The payload is not
-- empty and the payload type has seven bits.
pub rtp_h264_packet_info-build_rtp_packet :
    (payload_type seq ts ssrc : ℕ) (marker : Bool) (payload : List ℕ)
    → payload_type < 2 ^ 7
    → seq < 2 ^ 16
    → ts < 2 ^ 32
    → 0 < length payload
    → rtp_h264_packet_info (build_rtp_packet payload_type seq ts ssrc marker payload)
      ≡ some (record { payload = payload; timestamp = ts; marker = marker; sequence_number = seq })
unfolding rtp_h264_packet_info build_rtp_packet
rtp_h264_packet_info-build_rtp_packet payload_type seq ts ssrc marker payload hp hs ht hl =
    ground arith

-- An interleaved frame reads back, whatever follows it, if its bytes number below 2 ^ 16.
parse_interleaved-wrap_interleaved :
    (bytes rest : List ℕ) (channel : ℕ)
    → length bytes < 2 ^ 16
    → parse_interleaved (wrap_interleaved bytes channel ++ rest) ≡ some (channel, bytes)
unfolding parse_interleaved wrap_interleaved
parse_interleaved-wrap_interleaved bytes rest channel h =
    let len : length bytes % 2 ^ 16 / 2 ^ 8 * 2 ^ 8 + length bytes % 2 ^ 16 % 256 ≡ length bytes =
      omega arith in
    rw len (ground (arith, length-append bytes rest, take-append_length bytes rest))
