-- ===== src/Hls/TsMuxer.antt =====
-- `TsMuxer` of src/server/hls/ts_muxer.rs: its state and its operations. An operation that writes packets
-- returns `none` if the packet loop's fuel, a unit per payload byte, was used up.
use vcp_media_server.Prelude.{
  ℕ, ◌+◌, ◌/◌, ◌%◌, ◌^◌, Bool, true, false, Option, none, some, List, [], ◌∷◌, ◌++◌, ◌==◌,
  if◌then◌else◌, length,
}
use vcp_media_server.Prelude.Words.{mul64}
use vcp_media_server.Media.{
  CodecType, h264, h265, aac, MediaFrame, is_video, new_frame, with_optional_clock_rate,
}
use vcp_media_server.Hls.Checksum.{crc32, be_bytes}
use vcp_media_server.Hls.Pes.{build_pes, wrap_aac_adts, prepare_h264_au_for_ts}
use vcp_media_server.Hls.Packets.{
  pat_pid, pmt_pid, video_pid, audio_pid, pes_to_ts_packets, ts_packet,
}

pub record TsMuxer : Type 0 where
  pub continuity_counter_video : ℕ
  pub continuity_counter_audio : ℕ
  pub continuity_counter_pat : ℕ
  pub continuity_counter_pmt : ℕ
  pub pcr_clock : ℕ
  pub segment_discontinuity : Bool

unfoldable pub new_muxer : TsMuxer
new_muxer = record {
  continuity_counter_video = 0;
  continuity_counter_audio = 0;
  continuity_counter_pat = 0;
  continuity_counter_pmt = 0;
  pcr_clock = 0;
  segment_discontinuity = false;
}

unfoldable pub mark_segment_discontinuity : TsMuxer → TsMuxer
mark_segment_discontinuity m = record m { segment_discontinuity = true }

-- Leaves everything as it is, as in the source.
unfoldable pub reset_for_new_segment : TsMuxer → TsMuxer
reset_for_new_segment m = m

unfoldable pub hard_reset : TsMuxer → TsMuxer
hard_reset m = new_muxer

unfoldable pub update_pcr : TsMuxer → ℕ → TsMuxer
update_pcr m timestamp_ms = record m { pcr_clock = mul64 timestamp_ms 27000 }

-- A section behind its pointer field, with its checksum.
abbrev pub checked : List ℕ → List ℕ
checked section = 0x00 ∷ (section ++ be_bytes (crc32 section))

abbrev pub pat_section : List ℕ
pat_section =
    0x00
    ∷ (0xB0 + 13 / 2 ^ 8 % 2 ^ 4)
    ∷ 13 % 2 ^ 8
    ∷ 0x00
    ∷ 0x01
    ∷ 0xC1
    ∷ 0x00
    ∷ 0x00
    ∷ 0x00
    ∷ 0x01
    ∷ pmt_pid / 2 ^ 8 % 2 ^ 5
    ∷ pmt_pid % 2 ^ 8
    ∷ []

unfoldable pub generate_pat : TsMuxer → Option (List ℕ × TsMuxer)
generate_pat m =
    let payload = checked pat_section in
    elim (ts_packet pat_pid true m.segment_discontinuity (length payload) payload
      m.continuity_counter_pat) [
        | none ↦ none
        | some (packets, cc) ↦
            some (packets, record m { continuity_counter_pat = cc; segment_discontinuity = false })
      ]

-- A stream's entry: its type and its packet identifier.
abbrev pub stream_info : Bool → ℕ → ℕ → List ℕ
stream_info false stream_type pid = []
stream_info true stream_type pid =
    stream_type ∷ pid / 2 ^ 8 % 2 ^ 5 ∷ pid % 2 ^ 8 ∷ 0xF0 ∷ 0x00 ∷ []

abbrev pub pcr_pid : Bool → Bool → List ℕ
pcr_pid true has_audio = video_pid / 2 ^ 8 % 2 ^ 5 ∷ video_pid % 2 ^ 8 ∷ []
pcr_pid false true = audio_pid / 2 ^ 8 % 2 ^ 5 ∷ audio_pid % 2 ^ 8 ∷ []
pcr_pid false false = 0x1F ∷ 0xFF ∷ []

abbrev pub pmt_section : Bool → Bool → List ℕ
pmt_section has_video has_audio =
    let section_length =
      5 + 4 + ((if has_video then 5 else 0) + (if has_audio then 5 else 0)) + 4 in
    0x02
    ∷ (0xB0 + section_length / 2 ^ 8 % 2 ^ 4)
    ∷ section_length % 2 ^ 8
    ∷ 0x00
    ∷ 0x01
    ∷ 0xC1
    ∷ 0x00
    ∷ 0x00
    ∷ (pcr_pid has_video has_audio
        ++ (0xF0
            ∷ 0x00
            ∷ (stream_info has_video 0x1B video_pid ++ stream_info has_audio 0x0F audio_pid)))

unfoldable pub generate_pmt : TsMuxer → Bool → Bool → Option (List ℕ × TsMuxer)
generate_pmt m has_video has_audio =
    let payload = checked (pmt_section has_video has_audio) in
    elim (ts_packet pmt_pid true false (length payload) payload m.continuity_counter_pmt) [
      | none ↦ none
      | some (packets, cc) ↦ some (packets, record m { continuity_counter_pmt = cc })
    ]

unfoldable pub generate_pat_pmt : TsMuxer → Bool → Bool → Option (List ℕ × TsMuxer)
generate_pat_pmt m has_video has_audio = elim (generate_pat m) [
  | none ↦ none
  | some (pat, m') ↦ elim (generate_pmt m' has_video has_audio) [
    | none ↦ none
    | some (pmt, m'') ↦ some (pat ++ pmt, m'')
  ]
]

abbrev pub frame_pid : CodecType → ℕ
frame_pid CodecType.aac = audio_pid
frame_pid CodecType.opus = audio_pid
frame_pid CodecType.g711 = audio_pid
frame_pid _ = video_pid

unfoldable pub frame_payload : MediaFrame → List ℕ
frame_payload frame = elim frame.codec [
  | aac ↦ wrap_aac_adts frame.bytes
  | h264 ↦ prepare_h264_au_for_ts frame.bytes
  | h265 ↦ prepare_h264_au_for_ts frame.bytes
  | _ ↦ frame.bytes
]

-- The PES packet of a frame with the payload given.
unfoldable pub frame_pes : MediaFrame → List ℕ → List ℕ
frame_pes frame payload =
    build_pes
      (with_optional_clock_rate
        (new_frame frame.stream_id frame.track_id frame.timestamp payload frame.is_keyframe
          frame.codec)
        frame.clock_rate)
      (is_video frame.codec)

-- `cc`, the counter that a frame's packets use.
abbrev pub counter_of : Bool → TsMuxer → ℕ
counter_of true m = m.continuity_counter_video
counter_of false m = m.continuity_counter_audio

abbrev pub set_counter : Bool → TsMuxer → ℕ → TsMuxer
set_counter true m cc = record m { continuity_counter_video = cc }
set_counter false m cc = record m { continuity_counter_audio = cc }

unfoldable pub frame_to_ts : TsMuxer → MediaFrame → Option (List ℕ × TsMuxer)
frame_to_ts m frame =
    let pes = frame_pes frame (frame_payload frame) in
    let video = is_video frame.codec in
    if length (frame_payload frame) == 0
    then some ([], m)
    else elim (pes_to_ts_packets (frame_pid frame.codec) video m.pcr_clock (length pes) pes
        (counter_of video m)) [
          | none ↦ none
          | some (packets, last) ↦ some (packets, set_counter video m last)
        ]
