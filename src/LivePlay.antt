-- ===== src/LivePlay.antt =====
-- src/core/live_play.rs: which frames a live player may start with, and the parameter sets in front of them
-- (`annex_b_with_config` of src/server/webrtc/outbound_h264.rs). The waits of `prime_live_play` are left out.
use vcp_media_server.Prelude.{
  ℕ, String, Bool, true, not, ◌&&◌, ◌||◌, Option, none, some, List, ◌++◌, length, ◌==◌,
  if◌then◌else◌,
}
use vcp_media_server.Media.{MediaFrame, is_video, new_frame, with_optional_clock_rate}
use vcp_media_server.H264.Depacketizer.{start_code}
use vcp_media_server.H264.AnnexB.{
  ensure_annex_b, contains_idr_nalu, contains_sps_or_pps_nalu, is_parameter_set_only,
}
use vcp_media_server.StreamManager.{StreamManager, get_stream}

unfoldable pub is_playable_video_frame : MediaFrame → Bool
is_playable_video_frame frame =
    is_video frame.codec
    && not (length (ensure_annex_b frame.bytes) == 0)
    && not (is_parameter_set_only (ensure_annex_b frame.bytes))

unfoldable pub is_idr_frame : MediaFrame → Bool
is_idr_frame frame = frame.is_keyframe || contains_idr_nalu (ensure_annex_b frame.bytes)

unfoldable pub annex_b_with_config : List ℕ → List ℕ → List ℕ → List ℕ
annex_b_with_config sps pps access_unit =
    let au = ensure_annex_b access_unit in
    if contains_sps_or_pps_nalu au then au else start_code ++ (sps ++ (start_code ++ (pps ++ au)))

-- Both parameter sets of a stream, if it is there and has them.
unfoldable pub stream_config : StreamManager → String → Option (List ℕ × List ℕ)
stream_config m stream_id = elim (get_stream m stream_id) [
  | none ↦ none
  | some stream ↦ elim stream.sps [
    | none ↦ none
    | some sps ↦ elim stream.pps [ none ↦ none | some pps ↦ some (sps, pps) ]
  ]
]

unfoldable pub prepend_h264_config : StreamManager → String → MediaFrame → List ℕ
prepend_h264_config m stream_id frame =
    let au = ensure_annex_b frame.bytes in
    if frame.is_keyframe || is_idr_frame frame || contains_sps_or_pps_nalu au
    then elim (stream_config m stream_id) [
      | none ↦ au
      | some (sps, pps) ↦ annex_b_with_config sps pps au
    ]
    else au

unfoldable pub prepare_h264_play_frame : StreamManager → String → MediaFrame → MediaFrame
prepare_h264_play_frame m stream_id frame =
    with_optional_clock_rate
      (new_frame stream_id frame.track_id frame.timestamp (prepend_h264_config m stream_id frame)
        true frame.codec)
      frame.clock_rate
