-- ===== src/Ingest/Tests.antt =====
-- Tests and witnesses for the H264 ingest (src/server/webrtc/h264_rtp_ingest.rs).
use vcp_media_server.Prelude.{◌≡◌, refl, true, false, none, some, List, [], ◌∷◌, ◌++◌, ℕ, arith}
use vcp_media_server.Prelude.StringMap.{find, insert}
use vcp_media_server.Prelude.Bytes.{starts_with}
use vcp_media_server.Media.{StreamSourceMode, StreamProtocol, new_frame, MediaFrame}
use vcp_media_server.StreamHub.{with_stream, publish}
use vcp_media_server.FrameRing.{evict_if_needed}
use vcp_media_server.H264.Packet.{build_rtp_packet, rtp_h264_packet_info}
use vcp_media_server.H264.Depacketizer.{
  start_code, push, parse_rtp_h264, contains_idr, is_idr_rtp_payload, extract_sps_pps_from_nalus,
  sps_pps_loop, nalus_to_annex_b,
}
use vcp_media_server.H264.AnnexB.{
  is_keyframe_annex_b, is_parameter_set_only, first_nalu_type, first_nalu_header_offset, nalu_type,
  iter_annex_b_nal_ranges, nal_walk, find_end,
}
use vcp_media_server.StreamManager.{
  StreamManager, new_manager, create_stream, get_hub, get_stream, publish_frame, get_or_create_hub,
}
use vcp_media_server.Ingest.{
  Ingested, new_ingest, ingest_rtp_packet, accept_sequence, ingest_payload,
  store_nalu_config_from_rtp, store_config, has_config, merge_nalus, frame_of, take_frame,
  take_part, add_part, access_frame,
}
use vcp_media_server.Ingest.Units.{flushed, ingest_units, ingest_units-publish_frame}
use vcp_media_server.H264.AnnexB.Split.{Units, Plain}
use vcp_media_server.H264.StapA.{annex_b}

abbrev served : StreamManager
served = (create_stream new_manager "camera" StreamSourceMode.push StreamProtocol.web_rtc none).1

abbrev packet : List ℕ
packet = build_rtp_packet 96 7 90000 5 false (0x65 ∷ 1 ∷ 2 ∷ [])

abbrev taken : Ingested
taken = record {
  published = false;
  ingest = record (new_ingest "camera") {
    batch = record {
      timestamp = 90000;
      parts = (start_code ++ (0x65 ∷ 1 ∷ 2 ∷ [])) ∷ [];
      is_keyframe = true;
    };
    expected_seq = some 8;
  };
  manager = served;
}

packet-taken : ingest_rtp_packet 1 served (new_ingest "camera") packet ≡ some taken
unfolding ingest_rtp_packet build_rtp_packet rtp_h264_packet_info accept_sequence ingest_payload
    store_nalu_config_from_rtp store_config has_config merge_nalus frame_of take_frame take_part
    add_part push parse_rtp_h264 extract_sps_pps_from_nalus sps_pps_loop nalus_to_annex_b
    contains_idr is_idr_rtp_payload is_keyframe_annex_b is_parameter_set_only first_nalu_type
    first_nalu_header_offset nalu_type iter_annex_b_nal_ranges nal_walk find_end starts_with
    create_stream get_hub get_stream find insert with_stream new_frame
packet-taken = refl

abbrev picture : List (List ℕ)
picture = (0x65 ∷ 1 ∷ []) ∷ (0x41 ∷ 2 ∷ []) ∷ []

picture-Units : Units picture
unfolding Units Plain starts_with
picture-Units = (omega arith, (refl, (refl, tt)), (omega arith, (refl, (refl, tt)), tt))

abbrev whole_picture : MediaFrame
whole_picture = access_frame "camera" 90000 (annex_b picture) true

abbrev after_picture : StreamManager
after_picture = elim (publish_frame 1 served whole_picture) [ none ↦ served | some m ↦ m ]

picture-published : publish_frame 1 served whole_picture ≡ some after_picture
unfolding publish_frame get_or_create_hub create_stream get_hub get_stream find insert with_stream
    new_frame publish vcp_media_server.FrameRing.push evict_if_needed annex_b
picture-published = refl

ingest_units-publish_frame_example :
    ingest_units 1 served (new_ingest "camera") (0x65 ∷ 1 ∷ []) ((0x41 ∷ 2 ∷ []) ∷ []) 90000
    ≡ some (record {
      published = true;
      ingest = flushed (new_ingest "camera") 90000;
      manager = after_picture;
    })
ingest_units-publish_frame_example =
    ingest_units-publish_frame 1 served after_picture (new_ingest "camera") (0x65 ∷ 1 ∷ [])
      ((0x41 ∷ 2 ∷ []) ∷ []) 90000 picture-Units (refl, (refl, tt)) refl refl picture-published
