-- ===== src/Ingest.antt =====
-- src/server/webrtc/h264_rtp_ingest.rs: H264 over RTP assembled into access units, which go to the stream
-- manager. The manager is passed in and returned; the label and what is only logged are left out. `none` is a
-- loop that does not return: that of the ring's push.
pub mod Units
pub mod Elsewhere
mod Tests
use vcp_media_server.Prelude.{
  ℕ, ◌+◌, ◌^◌, ◌%◌, String, Bool, true, false, not, ◌&&◌, ◌||◌, Option, none, some, List, [], ◌∷◌,
  ◌++◌, ◌==◌, if◌then◌else◌, length,
}
use vcp_media_server.Prelude.Words.{add64}
use vcp_media_server.Media.{MediaFrame, Stream, new_frame, h264}
use vcp_media_server.Timestamp.{video_rtp_clock_hz}
use vcp_media_server.H264.Packet.{RtpH264PacketInfo, rtp_h264_packet_info}
use vcp_media_server.H264.Depacketizer.{
  H264RtpDepacketizer, ParsedNalu, Result, ok, err, stuck, default_depacketizer, reset_depacketizer,
  push, parse_rtp_h264, contains_idr, is_idr_rtp_payload, extract_sps_pps_from_nalus,
  annex_b_from_rtp_payload, is_fu_a_continuation,
}
use vcp_media_server.H264.AnnexB.{contains_vcl_nalu, is_keyframe_annex_b, is_parameter_set_only}
use vcp_media_server.StreamManager.{
  StreamManager, get_stream, set_stream_sps_pps, merge_stream_nalu_config, publish_frame,
}

pub record AccessUnitBatch : Type 0 where
  pub timestamp : ℕ
  pub parts : List (List ℕ)
  pub is_keyframe : Bool

abbrev pub default_batch : AccessUnitBatch
default_batch = record { timestamp = 0; parts = []; is_keyframe = false }

pub record H264RtpIngest : Type 0 where
  pub stream_id : String
  pub depacketizer : H264RtpDepacketizer
  pub batch : AccessUnitBatch
  pub expected_seq : Option ℕ
  pub units : ℕ

abbrev pub new_ingest : String → H264RtpIngest
new_ingest stream_id = record {
  stream_id = stream_id;
  depacketizer = default_depacketizer;
  batch = default_batch;
  expected_seq = none;
  units = 0;
}

-- What a call answers and leaves.
pub record Ingested : Type 0 where
  pub published : Bool
  pub ingest : H264RtpIngest
  pub manager : StreamManager

-- Whether a stream has both parameter sets.
unfoldable pub has_config : Option Stream → Bool
has_config none = false
has_config (some stream) = elim stream.sps [
  | none ↦ false
  | some sps ↦ elim stream.pps [ none ↦ false | some pps ↦ true ]
]

unfoldable pub merge_nalus : StreamManager → String → List ParsedNalu → StreamManager
merge_nalus m stream_id [] = m
merge_nalus m stream_id (n ∷ ns) =
    merge_nalus
      (if n.nal_type == 7 || n.nal_type == 8
        then merge_stream_nalu_config m stream_id n.bytes
        else m)
      stream_id ns

unfoldable pub store_config :
    StreamManager → String → List ParsedNalu → Option (List ℕ) → Option (List ℕ) → StreamManager
store_config m stream_id nalus (some sps) (some pps) = set_stream_sps_pps m stream_id sps pps
store_config m stream_id nalus _ _ =
    if has_config (get_stream m stream_id) then m else merge_nalus m stream_id nalus

unfoldable pub store_nalu_config_from_rtp : StreamManager → String → List ℕ → StreamManager
store_nalu_config_from_rtp m stream_id payload =
    let nalus = parse_rtp_h264 payload in
    let (sps, pps) = extract_sps_pps_from_nalus nalus in store_config m stream_id nalus sps pps

abbrev pub access_frame : String → ℕ → List ℕ → Bool → MediaFrame
access_frame stream_id timestamp bytes is_keyframe =
    record (new_frame stream_id 0 timestamp bytes is_keyframe h264) {
      clock_rate = some video_rtp_clock_hz;
    }

-- The frame of `h264_rtp_to_annex_b`; its call of `store_nalu_config_from_rtp` is made by `ingest_payload`.
unfoldable pub frame_of :
    String → ℕ → List ℕ → Result (Option (List ℕ)) → Option (Option MediaFrame)
frame_of stream_id timestamp payload stuck = none
frame_of stream_id timestamp payload (ok none) = some none
frame_of stream_id timestamp payload (ok (some annex_b)) =
    let is_keyframe_rtp = contains_idr (parse_rtp_h264 payload) || is_idr_rtp_payload payload in
    some (
      some
        (access_frame stream_id timestamp annex_b (is_keyframe_rtp || is_keyframe_annex_b annex_b)))
frame_of stream_id timestamp payload (err e) =
    let is_keyframe_rtp = contains_idr (parse_rtp_h264 payload) || is_idr_rtp_payload payload in
    elim (annex_b_from_rtp_payload payload) [
      | none ↦ some none
      | some annex_b ↦ some (
          some (
            access_frame stream_id timestamp annex_b
              (is_keyframe_rtp || is_keyframe_annex_b annex_b)))
    ]

unfoldable pub concat : List (List ℕ) → List ℕ
concat [] = []
concat (part ∷ parts) = part ++ concat parts

-- The batch once its parts are cleared; the timestamp stays.
abbrev pub cleared_batch : AccessUnitBatch → AccessUnitBatch
cleared_batch batch = record batch { parts = []; is_keyframe = false }

unfoldable pub flush_access_unit : ℕ → StreamManager → H264RtpIngest → Option Ingested
flush_access_unit fuel m ing =
    let combined = concat ing.batch.parts in
    let is_keyframe = ing.batch.is_keyframe || is_keyframe_annex_b combined in
    let cleared : H264RtpIngest = record ing { batch = cleared_batch ing.batch } in
    if length ing.batch.parts == 0
    then some (record { published = false; ingest = ing; manager = m })
    else if not (contains_vcl_nalu combined)
    then some (record { published = false; ingest = cleared; manager = m })
    else elim (publish_frame fuel m
        (access_frame ing.stream_id ing.batch.timestamp combined is_keyframe)) [
          | none ↦ none
          | some after ↦ some (record {
            published = true;
            ingest = record cleared { units = add64 ing.units 1 };
            manager = after;
          })
        ]

-- The part of a packet, added to the batch.
unfoldable pub add_part : H264RtpIngest → MediaFrame → ℕ → H264RtpIngest
add_part ing frame timestamp = record ing {
  batch = record {
    timestamp = if length ing.batch.parts == 0 then timestamp else ing.batch.timestamp;
    parts = ing.batch.parts ++ (frame.bytes ∷ []);
    is_keyframe = ing.batch.is_keyframe || frame.is_keyframe;
  };
}

-- `ingest_payload` once the earlier unit is flushed.
unfoldable pub take_part : ℕ → Ingested → MediaFrame → ℕ → Bool → Option Ingested
take_part fuel got frame timestamp marker =
    let added = add_part got.ingest frame timestamp in
    if marker
    then elim (flush_access_unit fuel got.manager added) [
      | none ↦ none
      | some flushed ↦ some (record flushed { published = got.published || flushed.published })
    ]
    else some (record got { ingest = added })

unfoldable pub take_frame :
    ℕ → StreamManager → H264RtpIngest → MediaFrame → ℕ → Bool → Option Ingested
take_frame fuel m ing frame timestamp marker =
    let kept : Ingested = record { published = false; ingest = ing; manager = m } in
    if is_parameter_set_only frame.bytes
    then some kept
    else if not (length ing.batch.parts == 0) && not (ing.batch.timestamp == timestamp)
    then elim (flush_access_unit fuel m ing) [
      | none ↦ none
      | some flushed ↦ take_part fuel flushed frame timestamp marker
    ]
    else take_part fuel kept frame timestamp marker

unfoldable pub ingest_payload :
    ℕ → StreamManager → H264RtpIngest → List ℕ → ℕ → Bool → Option Ingested
ingest_payload fuel m ing [] timestamp marker =
    some (record { published = false; ingest = ing; manager = m })
ingest_payload fuel m ing (b ∷ bs) timestamp marker =
    let stored = store_nalu_config_from_rtp m ing.stream_id (b ∷ bs) in
    let pushed = push ing.depacketizer (b ∷ bs) in
    let after : H264RtpIngest = record ing { depacketizer = pushed.1 } in
    elim (frame_of ing.stream_id timestamp (b ∷ bs) pushed.0) [
      | none ↦ none
      | some none ↦ some (record { published = false; ingest = after; manager = stored })
      | some (some frame) ↦ take_frame fuel stored after frame timestamp marker
    ]

unfoldable pub discard_partial_access_unit : H264RtpIngest → H264RtpIngest
discard_partial_access_unit ing = record ing {
  depacketizer = reset_depacketizer ing.depacketizer;
  batch = cleared_batch ing.batch;
}

-- A gap: a number is expected, and it is not this one.
abbrev pub is_gap : Option ℕ → ℕ → Bool
is_gap none seq = false
is_gap (some expected) seq = not (seq == expected)

unfoldable pub accept_sequence : H264RtpIngest → ℕ → List ℕ → Bool × H264RtpIngest
accept_sequence ing seq payload =
    let next : H264RtpIngest = record ing { expected_seq = some ((seq + 1) % 2 ^ 16) } in
    if is_gap ing.expected_seq seq
    then (not (is_fu_a_continuation payload), discard_partial_access_unit next)
    else (true, next)

unfoldable pub ingest_rtp_packet : ℕ → StreamManager → H264RtpIngest → List ℕ → Option Ingested
ingest_rtp_packet fuel m ing rtp = elim (rtp_h264_packet_info rtp) [
  | none ↦ some (record { published = false; ingest = ing; manager = m })
  | some info ↦
      let (accepted, next) = accept_sequence ing info.sequence_number info.payload in
      if accepted
      then ingest_payload fuel m next info.payload info.timestamp info.marker
      else some (record { published = false; ingest = next; manager = m })
]

unfoldable pub flush_remaining : ℕ → StreamManager → H264RtpIngest → Option Ingested
flush_remaining fuel m ing = flush_access_unit fuel m ing
