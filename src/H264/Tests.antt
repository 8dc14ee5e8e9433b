-- ===== src/H264/Tests.antt =====
-- Tests and witnesses for H264 over RTP (src/server/rtsp/common.rs, src/server/webrtc/rtp_h264.rs).
use vcp_media_server.Prelude.Bytes.{starts_with}
use vcp_media_server.H264.AnnexB.Split.{Units, Plain, slice-iter_annex_b_nal_ranges}
use vcp_media_server.H264.AnnexB.{
  iter_annex_b_nal_ranges, slice, is_keyframe_annex_b, first_nalu_type, first_nalu_header_offset,
  nalu_type,
}
use vcp_media_server.Prelude.{
  if◌then◌else◌, leb, length, ◌%◌, suc, zero, ℕ, ◌≡◌, refl, true, none, some, List, [], ◌∷◌, ◌++◌,
  arith, map,
}
use vcp_media_server.H264.Depacketizer.{
  ok, push, default_depacketizer, start_code, is_idr_rtp_payload, extract_sps_pps_from_nalus,
  parse_rtp_h264, is_fu_a_continuation, annex_b_from_rtp_payload, nalus_to_annex_b, sps_pps_loop,
}
use vcp_media_server.H264.Packetizer.{packetize_h264_nal_for_rtp}
use vcp_media_server.Ingest.{new_ingest}
use vcp_media_server.H264.Numbers.{receive, receive-packetize_h264_nal_for_rtp}
use vcp_media_server.H264.StapA.{push-sized, sized, annex_b, Sizable}

abbrev idr_unit : List ℕ
idr_unit = 0x65 ∷ 1 ∷ 2 ∷ 3 ∷ []

idr_payload : is_idr_rtp_payload idr_unit ≡ true
unfolding is_idr_rtp_payload
idr_payload = refl

whole_unit : annex_b_from_rtp_payload idr_unit ≡ some (start_code ++ idr_unit)
unfolding annex_b_from_rtp_payload parse_rtp_h264 nalus_to_annex_b
whole_unit = refl

continuation : is_fu_a_continuation (0x7C ∷ 0x05 ∷ []) ≡ true
unfolding is_fu_a_continuation
continuation = refl

parameter_sets :
    extract_sps_pps_from_nalus (parse_rtp_h264 (0x67 ∷ 9 ∷ [])) ≡ (some (0x67 ∷ 9 ∷ []), none)
unfolding extract_sps_pps_from_nalus parse_rtp_h264 sps_pps_loop
parameter_sets = refl

filler : ℕ → List ℕ
filler zero = []
filler (suc n) = n % 256 ∷ filler n

length-filler : (n : ℕ) → length (filler n) ≡ n
unfolding filler
length-filler zero = refl
length-filler (suc n) = omega (arith, length-filler n)

-- An IDR unit of 2001 bytes, in two fragments across the wrap of the sequence number.
receive-packetize_h264_nal_for_rtp_example :
    (packets : List (List ℕ)) × (next : ℕ) × (packetize_h264_nal_for_rtp 96 90000 5 true 2000
        (0x65 ∷ filler 2000)
        65535
      ≡ some (packets, next))
    × (receive (new_ingest "live") packets
        ≡ some (
          (start_code ++ (0x65 ∷ filler 2000)) ∷ [],
          record (new_ingest "live") {
            depacketizer =
                if leb (suc (length (filler 2000))) 1200
                then default_depacketizer
                else record { fu_buffer = none };
            expected_seq = some next;
          },
        ))
receive-packetize_h264_nal_for_rtp_example =
    receive-packetize_h264_nal_for_rtp 96 90000 5 true (omega arith) (omega arith)
      (new_ingest "live") 2000 0x65 65535 (filler 2000) (omega arith) (omega arith) (omega arith)
      (omega arith) (omega (arith, length-filler 2000)) refl

abbrev parameter_units : List (List ℕ)
parameter_units = (0x67 ∷ 9 ∷ []) ∷ (0x68 ∷ []) ∷ []

parameter_units-Sizable : Sizable parameter_units
unfolding Sizable
parameter_units-Sizable = (omega arith, omega arith, (omega arith, omega arith, tt))

push-sized_example :
    push default_depacketizer (0x78 ∷ sized parameter_units)
    ≡ (ok (some (annex_b parameter_units)), default_depacketizer)
push-sized_example =
    push-sized default_depacketizer 0x78 parameter_units refl parameter_units-Sizable

parameter_units-Units : Units parameter_units
unfolding Units Plain starts_with
parameter_units-Units = (omega arith, (refl, (refl, tt)), (omega arith, (refl, tt), tt))

slice-iter_annex_b_nal_ranges_example :
    map (slice (annex_b parameter_units)) (iter_annex_b_nal_ranges (annex_b parameter_units))
    ≡ parameter_units
slice-iter_annex_b_nal_ranges_example =
    slice-iter_annex_b_nal_ranges parameter_units parameter_units-Units

keyframe_found : is_keyframe_annex_b (0 ∷ 0 ∷ 1 ∷ 0x65 ∷ 9 ∷ []) ≡ true
unfolding is_keyframe_annex_b first_nalu_type first_nalu_header_offset starts_with nalu_type
keyframe_found = refl
