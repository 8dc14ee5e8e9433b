-- ===== src/Ingest/Elsewhere.antt =====
-- The ingest of one stream in src/server/webrtc/h264_rtp_ingest.rs reaches no other stream.
use vcp_media_server.Prelude.{
  ℕ, ◌≡◌, refl, ◌∙◌, subst, String, Bool, true, false, not, ◌&&◌, ◌||◌, Option, none, some, List,
  [], ◌∷◌, if◌then◌else◌, Bool-cases, Option-cases, inl, inr, arith, length, ◌==◌, ◌%◌, ◌^◌,
}
use mathlib.Core.Option.{some-injective}
use text.Mathlib.Text.{◌==◌ as ◌=ₛ◌}
use vcp_media_server.Media.{MediaFrame, new_frame}
use vcp_media_server.StreamHub.{StreamHub}
use vcp_media_server.H264.Packet.{rtp_h264_packet_info}
use vcp_media_server.H264.Depacketizer.{
  ParsedNalu, parse_rtp_h264, extract_sps_pps_from_nalus, push,
}
use vcp_media_server.H264.AnnexB.{contains_vcl_nalu, is_keyframe_annex_b, is_parameter_set_only}
use vcp_media_server.StreamManager.{
  StreamManager, get_hub, get_stream, change_hub, set_stream_sps_pps, merge_stream_nalu_config,
  publish_frame,
}
use vcp_media_server.StreamManager.Streams.{get_hub-change_hub}
use vcp_media_server.StreamManager.Independent.{frame-Effect}
use vcp_media_server.Ingest.{
  H264RtpIngest, Ingested, has_config, merge_nalus, store_config, store_nalu_config_from_rtp,
  access_frame, frame_of, concat, flush_access_unit, add_part, take_part, take_frame,
  ingest_payload, discard_partial_access_unit, accept_sequence, is_gap, ingest_rtp_packet,
}

abbrev unit_frame : H264RtpIngest → MediaFrame
unit_frame ing =
    let combined = concat ing.batch.parts in
    access_frame ing.stream_id ing.batch.timestamp combined
      (ing.batch.is_keyframe || is_keyframe_annex_b combined)

module _ (id : String) where
  change_other :
      (m : StreamManager) (k : String) (f : StreamHub → StreamHub)
      → (k =ₛ id) ≡ false
      → get_hub (change_hub m k f) id ≡ get_hub m id
  change_other m k f other = get_hub-change_hub m k id f ∙ rw other refl

  publish_other :
      (fuel : ℕ) (m : StreamManager) (f : MediaFrame) (after : StreamManager)
      → publish_frame fuel m f ≡ some after
      → (f.stream_id =ₛ id) ≡ false
      → get_hub after id ≡ get_hub m id
  publish_other fuel m f after e other =
      let (o, on, at) = frame-Effect fuel m f after e in at id ∙ rw other refl

  -- Both ways of a test leave the stream as it was.
  stays :
      (c : Bool) (m x y : StreamManager)
      → get_hub x id ≡ get_hub m id
      → get_hub y id ≡ get_hub m id
      → get_hub (if c then x else y) id ≡ get_hub m id
  stays true m x y hx hy = hx
  stays false m x y hx hy = hy

  merge_other :
      (m : StreamManager) (k : String) (nalu : List ℕ)
      → (k =ₛ id) ≡ false
      → get_hub (merge_stream_nalu_config m k nalu) id ≡ get_hub m id
  unfolding merge_stream_nalu_config
  merge_other m k [] other = refl
  merge_other m k (b ∷ bs) other =
      stays (not (b % 2 ^ 5 == 7) && not (b % 2 ^ 5 == 8)) m m _ refl (change_other m k _ other)

  merge_all_other :
      (m : StreamManager) (k : String) (ns : List ParsedNalu)
      → (k =ₛ id) ≡ false
      → get_hub (merge_nalus m k ns) id ≡ get_hub m id
  unfolding merge_nalus
  merge_all_other m k [] other = refl
  merge_all_other m k (n ∷ ns) other = elim (Bool-cases (n.nal_type == 7 || n.nal_type == 8)) [
    | inl z ↦ rw z (
        merge_all_other (merge_stream_nalu_config m k n.bytes) k ns other
        ∙ merge_other m k n.bytes other)
    | inr z ↦ rw z (merge_all_other m k ns other)
  ]

  config_other :
      (m : StreamManager) (k : String) (ns : List ParsedNalu)
      → (k =ₛ id) ≡ false
      → get_hub (if has_config (get_stream m k) then m else merge_nalus m k ns) id ≡ get_hub m id
  config_other m k ns other =
      stays (has_config (get_stream m k)) m m _ refl (merge_all_other m k ns other)

  store_other :
      (m : StreamManager) (k : String) (ns : List ParsedNalu) (sps pps : Option (List ℕ))
      → (k =ₛ id) ≡ false
      → get_hub (store_config m k ns sps pps) id ≡ get_hub m id
  unfolding store_config set_stream_sps_pps
  store_other m k ns (some sps) (some pps) other = change_other m k _ other
  store_other m k ns (some sps) none other = config_other m k ns other
  store_other m k ns none pps other = config_other m k ns other

  -- A step keeps the ingest's stream and every hub but that stream's.
  abbrev Elsewhere : StreamManager → H264RtpIngest → Ingested → Type 0
  Elsewhere m ing got =
      (get_hub got.manager id ≡ get_hub m id) × (got.ingest.stream_id ≡ ing.stream_id)

  flush-Elsewhere :
      (fuel : ℕ) (m : StreamManager) (ing : H264RtpIngest) (got : Ingested)
      → flush_access_unit fuel m ing ≡ some got
      → (ing.stream_id =ₛ id) ≡ false
      → Elsewhere m ing got
  unfolding flush_access_unit new_frame
  flush-Elsewhere fuel m ing got e other = elim (Bool-cases (length ing.batch.parts == 0)) [
    | inl z ↦
        subst (Elsewhere m ing) (some-injective _ got (rw (flush_access_unit, z) at e)) (refl, refl)
    | inr z ↦ elim (Bool-cases (not (contains_vcl_nalu (concat ing.batch.parts)))) [
      | inl y ↦
          subst (Elsewhere m ing) (some-injective _ got (rw (flush_access_unit, z, y) at e))
            (refl, refl)
      | inr y ↦ elim (Option-cases (publish_frame fuel m (unit_frame ing))) [
        | inl n ↦ absurd (ground (arith, z, y, n, e))
        | inr (after, n) ↦
            subst (Elsewhere m ing) (some-injective _ got (rw (flush_access_unit, z, y, n) at e))
              (publish_other fuel m (unit_frame ing) after n other, refl)
      ]
    ]
  ]

  take_part-Elsewhere :
      (fuel : ℕ) (m : StreamManager) (ing : H264RtpIngest) (before got : Ingested) (f : MediaFrame)
      (timestamp : ℕ) (marker : Bool)
      → Elsewhere m ing before
      → take_part fuel before f timestamp marker ≡ some got
      → (ing.stream_id =ₛ id) ≡ false
      → Elsewhere m ing got
  unfolding take_part add_part
  take_part-Elsewhere fuel m ing before got f timestamp false h e other =
      subst (Elsewhere m ing) (some-injective _ got e) h
  take_part-Elsewhere fuel m ing before got f timestamp true h e other =
      let added = add_part before.ingest f timestamp in
      elim (Option-cases (flush_access_unit fuel before.manager added)) [
        | inl n ↦ absurd (ground (arith, n, e))
        | inr (flushed, n) ↦
            let there = flush-Elsewhere fuel before.manager added flushed n (rw h.1 other) in
            subst (Elsewhere m ing) (some-injective _ got (rw n at e))
              (there.0 ∙ h.0, there.1 ∙ h.1)
      ]

  take_frame-Elsewhere :
      (fuel : ℕ) (m : StreamManager) (ing : H264RtpIngest) (got : Ingested) (f : MediaFrame)
      (timestamp : ℕ) (marker : Bool)
      → take_frame fuel m ing f timestamp marker ≡ some got
      → (ing.stream_id =ₛ id) ≡ false
      → Elsewhere m ing got
  unfolding take_frame
  take_frame-Elsewhere fuel m ing got f timestamp marker e other =
      elim (Bool-cases (is_parameter_set_only f.bytes)) [
        | inl z ↦
            subst (Elsewhere m ing) (some-injective _ got (rw (take_frame, z) at e)) (refl, refl)
        | inr z ↦
            elim (Bool-cases
              (not (length ing.batch.parts == 0) && not (ing.batch.timestamp == timestamp))) [
                | inr y ↦
                    take_part-Elsewhere fuel m ing
                      (record { published = false; ingest = ing; manager = m }) got f timestamp
                      marker (refl, refl) (rw (take_frame, z, y) at e) other
                | inl y ↦ elim (Option-cases (flush_access_unit fuel m ing)) [
                  | inl n ↦ absurd (ground (arith, z, y, n, e))
                  | inr (flushed, n) ↦
                      take_part-Elsewhere fuel m ing flushed got f timestamp marker
                        (flush-Elsewhere fuel m ing flushed n other) (rw (take_frame, z, y, n) at e)
                        other
                ]
              ]
      ]

  ingest_payload-Elsewhere :
      (fuel : ℕ) (m : StreamManager) (ing : H264RtpIngest) (payload : List ℕ) (timestamp : ℕ)
      (marker : Bool) (got : Ingested)
      → ingest_payload fuel m ing payload timestamp marker ≡ some got
      → (ing.stream_id =ₛ id) ≡ false
      → Elsewhere m ing got
  unfolding ingest_payload store_nalu_config_from_rtp
  ingest_payload-Elsewhere fuel m ing [] timestamp marker got e other =
      subst (Elsewhere m ing) (some-injective _ got e) (refl, refl)
  ingest_payload-Elsewhere fuel m ing (b ∷ bs) timestamp marker got e other =
      let payload = b ∷ bs in
      let pushed = push ing.depacketizer payload in
      let sets = extract_sps_pps_from_nalus (parse_rtp_h264 payload) in
      let stored = store_nalu_config_from_rtp m ing.stream_id payload in
      let kept : get_hub stored id ≡ get_hub m id =
        store_other m ing.stream_id (parse_rtp_h264 payload) sets.0 sets.1 other in
      let next : H264RtpIngest = record ing { depacketizer = pushed.1 } in
      elim (Option-cases (frame_of ing.stream_id timestamp payload pushed.0)) [
        | inl n ↦ absurd (ground (arith, n, e))
        | inr (o, n) ↦ elim (Option-cases o) [
          | inl y ↦
              subst (Elsewhere m ing) (some-injective _ got (rw (ingest_payload, n, y) at e))
                (kept, refl)
          | inr (f, y) ↦
              let there =
                take_frame-Elsewhere fuel stored next got f timestamp marker
                  (rw (ingest_payload, n, y) at e) other in
              (there.0 ∙ kept, there.1)
        ]
      ]

accept_stream :
    (ing : H264RtpIngest) (seq : ℕ) (payload : List ℕ)
    → (accept_sequence ing seq payload).1.stream_id ≡ ing.stream_id
unfolding accept_sequence discard_partial_access_unit
accept_stream ing seq payload = elim (Bool-cases (is_gap ing.expected_seq seq)) [
  | inl z ↦ rw z refl
  | inr z ↦ rw z refl
]

-- An RTP packet of one stream, whatever its bytes, leaves every other stream's hub as it was, if the call
-- returns.
ingest_rtp_packet_elsewhere :
    (fuel : ℕ) (m : StreamManager) (ing : H264RtpIngest) (rtp : List ℕ) (got : Ingested)
    (id : String)
    → ingest_rtp_packet fuel m ing rtp ≡ some got
    → (ing.stream_id =ₛ id) ≡ false
    → (get_hub got.manager id ≡ get_hub m id) × (got.ingest.stream_id ≡ ing.stream_id)
unfolding ingest_rtp_packet
ingest_rtp_packet_elsewhere fuel m ing rtp got id e other =
    elim (Option-cases (rtp_h264_packet_info rtp)) [
      | inl n ↦
          subst (Elsewhere id m ing) (some-injective _ got (rw (ingest_rtp_packet, n) at e))
            (refl, refl)
      | inr (info, n) ↦
          let taken = accept_sequence ing info.sequence_number info.payload in
          let same = accept_stream ing info.sequence_number info.payload in
          elim (Bool-cases taken.0) [
            | inl y ↦
                let there =
                  ingest_payload-Elsewhere id fuel m taken.1 info.payload info.timestamp info.marker
                    got (rw (ingest_rtp_packet, n, y) at e) (rw same other) in
                (there.0, there.1 ∙ same)
            | inr y ↦
                subst (Elsewhere id m ing)
                  (some-injective _ got (rw (ingest_rtp_packet, n, y) at e)) (refl, same)
          ]
    ]
