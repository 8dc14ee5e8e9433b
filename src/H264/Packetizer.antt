-- ===== src/H264/Packetizer.antt =====
-- `packetize_h264_nal_for_rtp` of src/server/rtsp/common.rs: one NAL unit as one RTP packet, or as FU-A
-- fragments. The loop runs on fuel; `none` says that it was used up.
use vcp_media_server.Prelude.{
  ℕ, zero, suc, ◌+◌, ◌-◌, ◌*◌, ◌/◌, ◌%◌, ◌^◌, min, Bool, true, false, ◌&&◌, Option, none, some,
  List, [], ◌∷◌, leb, ◌==◌, if◌then◌else◌, length, take, drop,
}
use vcp_media_server.H264.Packet.{build_rtp_packet}

abbrev pub udp_rtp_max_payload : ℕ
udp_rtp_max_payload = 1200

-- `seq.wrapping_add(1)` on `u16`.
abbrev pub next_seq : ℕ → ℕ
next_seq seq = (seq + 1) % 2 ^ 16

abbrev pub fu_header : Bool → Bool → ℕ → ℕ
fu_header is_start is_end nal_type =
    (if is_start then 0x80 else 0) + (if is_end then 0x40 else 0) + nal_type

abbrev pub with_packet : List ℕ → Option (List (List ℕ) × ℕ) → Option (List (List ℕ) × ℕ)
with_packet packet none = none
with_packet packet (some (packets, last)) = some (packet ∷ packets, last)

module _ (payload_type ts ssrc : ℕ) (marker : Bool) where
  -- `first` is the NAL unit's header byte, `left` what is still to be sent.
  unfoldable pub fragment_loop : ℕ → ℕ → ℕ → Bool → List ℕ → Option (List (List ℕ) × ℕ)
  fragment_loop zero first seq is_start left = if length left == 0 then some ([], seq) else none
  fragment_loop (suc fuel) first seq is_start left =
      let size = min (length left) (udp_rtp_max_payload - 2) in
      let is_end = leb (length left) size in
      let payload =
        (first / 2 ^ 5 % 2 ^ 2 * 2 ^ 5 + 28)
        ∷ fu_header is_start is_end (first % 2 ^ 5)
        ∷ take size left in
      let packet = build_rtp_packet payload_type seq ts ssrc (marker && is_end) payload in
      let rest = fragment_loop fuel first (next_seq seq) false (drop size left) in
      if length left == 0 then some ([], seq) else with_packet packet rest

  -- The packets, and the sequence number that `seq` is left at.
  unfoldable pub packetize_h264_nal_for_rtp : ℕ → List ℕ → ℕ → Option (List (List ℕ) × ℕ)
  packetize_h264_nal_for_rtp fuel [] seq = some ([], seq)
  packetize_h264_nal_for_rtp fuel (b ∷ bs) seq =
      if leb (length (b ∷ bs)) udp_rtp_max_payload
      then some (build_rtp_packet payload_type seq ts ssrc marker (b ∷ bs) ∷ [], next_seq seq)
      else fragment_loop fuel b seq true bs
