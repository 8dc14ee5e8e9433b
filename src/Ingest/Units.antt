-- ===== src/Ingest/Units.antt =====
-- How src/server/webrtc/h264_rtp_ingest.rs assembles an access unit from the packets of its units.
use vcp_media_server.Prelude.{
  ℕ, ◌^◌, ◌%◌, ◌<◌, ◌≡◌, refl, ap, ap₂, ◌∙◌, sym, subst, String, Bool, true, false, ◌||◌, Option,
  none, some, List, [], ◌∷◌, arith, length, ◌==◌, ◌++◌, append_assoc, append-nil, All,
  length-append,
}
use vcp_media_server.Prelude.Words.{add64}
use vcp_media_server.Media.{MediaFrame, new_frame}
use vcp_media_server.H264.Packet.{nth}
use vcp_media_server.H264.Depacketizer.{
  H264RtpDepacketizer, start_code, push, parse_rtp_h264, contains_idr, is_idr_rtp_payload,
  extract_sps_pps_from_nalus, sps_pps_loop, nalus_to_annex_b, ok,
}
use vcp_media_server.H264.StapA.{annex_b}
use vcp_media_server.H264.AnnexB.{
  contains_vcl_nalu, is_keyframe_annex_b, is_parameter_set_only, nalu_type, is_type, is_vcl,
}
use vcp_media_server.H264.AnnexB.Split.{Units}
use vcp_media_server.H264.AnnexB.Types.{
  found_ranges, any_of, any_unit-annex_b, is_keyframe_annex_b-annex_b,
}
use vcp_media_server.StreamManager.{StreamManager, publish_frame}
use vcp_media_server.Ingest.{
  H264RtpIngest, Ingested, AccessUnitBatch, merge_nalus, store_config, store_nalu_config_from_rtp,
  access_frame, frame_of, concat, flush_access_unit, add_part, take_part, take_frame,
  ingest_payload,
}

-- A slice (type 1) or an IDR (type 5).
abbrev pub vcl : List ℕ → Bool
vcl u = nth u 0 % 2 ^ 5 == 1 || nth u 0 % 2 ^ 5 == 5

first_type :
    (u : List ℕ) (us : List (List ℕ))
    → Units (u ∷ us)
    → nalu_type (annex_b (u ∷ us)) 4 ≡ some (nth u 0 % 2 ^ 5)
unfolding nalu_type annex_b Units
first_type [] us h = absurd (omega (arith, h.0))
first_type (b ∷ bs) us h = ground arith

vcl_found :
    (u : List ℕ) (us : List (List ℕ))
    → Units (u ∷ us)
    → vcl u ≡ true
    → contains_vcl_nalu (annex_b (u ∷ us)) ≡ true
unfolding contains_vcl_nalu
vcl_found u us h v = any_unit-annex_b is_vcl u us h ∙ ap (λ x. x || any_of is_vcl us) v

not_parameter_set :
    (u : List ℕ) → Units (u ∷ []) → vcl u ≡ true → is_parameter_set_only (annex_b (u ∷ [])) ≡ false
unfolding is_parameter_set_only
not_parameter_set u h v =
    rw (is_parameter_set_only, found_ranges u [] h) (rw (first_type u [] h) (ground (arith, v)))

-- A packet with one such unit: nothing is stored, and its frame is the unit behind a start code.
vcl_stored :
    (m : StreamManager) (k : String) (u : List ℕ)
    → vcl u ≡ true
    → 0 < length u
    → store_nalu_config_from_rtp m k u ≡ m
unfolding store_nalu_config_from_rtp parse_rtp_h264 extract_sps_pps_from_nalus sps_pps_loop
    store_config merge_nalus
vcl_stored m k [] v pos = absurd (omega arith)
vcl_stored m k (b ∷ bs) v pos = ground (arith, v)

vcl_pushed :
    (d : H264RtpDepacketizer) (u : List ℕ)
    → vcl u ≡ true
    → 0 < length u
    → push d u ≡ (ok (some (annex_b (u ∷ []))), d)
unfolding push nalus_to_annex_b annex_b
vcl_pushed d [] v pos = absurd (omega arith)
vcl_pushed d (b ∷ bs) v pos = ground (arith, v)

abbrev pub idr : List ℕ → Bool
idr u = nth u 0 % 2 ^ 5 == 5

idr_in_packet :
    (u : List ℕ)
    → vcl u ≡ true
    → 0 < length u
    → (contains_idr (parse_rtp_h264 u) || is_idr_rtp_payload u) ≡ idr u
unfolding contains_idr parse_rtp_h264 is_idr_rtp_payload
idr_in_packet [] v pos = absurd (omega arith)
idr_in_packet (b ∷ bs) v pos = ground (arith, v)

or_false : (x : Bool) → (x || false) ≡ x
or_false true = refl
or_false false = refl

idr_in_buffer : (u : List ℕ) → Units (u ∷ []) → is_keyframe_annex_b (annex_b (u ∷ [])) ≡ idr u
idr_in_buffer u h = is_keyframe_annex_b-annex_b u [] h ∙ or_false (idr u)

-- A batch takes a packet without being flushed.
abbrev pub takes : AccessUnitBatch → ℕ → Bool
takes batch timestamp = length batch.parts == 0 || batch.timestamp == timestamp

abbrev pub unit_frame : String → ℕ → List ℕ → MediaFrame
unit_frame stream_id timestamp u = access_frame stream_id timestamp (annex_b (u ∷ [])) (idr u)

or_self : (x : Bool) → (x || x) ≡ x
or_self true = refl
or_self false = refl

frame_of_unit :
    (stream_id : String) (timestamp : ℕ) (u : List ℕ)
    → Units (u ∷ [])
    → vcl u ≡ true
    → frame_of stream_id timestamp u (ok (some (annex_b (u ∷ []))))
      ≡ some (some (unit_frame stream_id timestamp u))
unfolding frame_of Units
frame_of_unit stream_id timestamp u h v =
    ap (λ key. some (some (access_frame stream_id timestamp (annex_b (u ∷ [])) key)))
      (ap₂ ◌||◌ (idr_in_packet u v h.0) (idr_in_buffer u h) ∙ or_self (idr u))

take_unit :
    (fuel : ℕ) (m : StreamManager) (ing : H264RtpIngest) (u : List ℕ) (timestamp : ℕ)
    (marker : Bool)
    → Units (u ∷ [])
    → vcl u ≡ true
    → takes ing.batch timestamp ≡ true
    → take_frame fuel m ing (unit_frame ing.stream_id timestamp u) timestamp marker
      ≡ take_part fuel
          (record { published = false; ingest = ing; manager = m })
          (unit_frame ing.stream_id timestamp u)
          timestamp
          marker
unfolding take_frame new_frame
take_unit fuel m ing u timestamp marker h v t =
    rw (take_frame, not_parameter_set u h v) (ground (arith, t))

ingest_unit :
    (fuel : ℕ) (m : StreamManager) (ing : H264RtpIngest) (u : List ℕ) (timestamp : ℕ)
    (marker : Bool)
    → Units (u ∷ [])
    → vcl u ≡ true
    → takes ing.batch timestamp ≡ true
    → ingest_payload fuel m ing u timestamp marker
      ≡ take_part fuel
          (record { published = false; ingest = ing; manager = m })
          (unit_frame ing.stream_id timestamp u)
          timestamp
          marker
unfolding ingest_payload Units
ingest_unit fuel m ing [] timestamp marker h v t = absurd (omega (arith, h.0))
ingest_unit fuel m ing (b ∷ bs) timestamp marker h v t =
    rw
      (
        ingest_payload,
        vcl_pushed ing.depacketizer (b ∷ bs) v h.0,
        frame_of_unit ing.stream_id timestamp (b ∷ bs) h v,
        vcl_stored m ing.stream_id (b ∷ bs) v h.0,
        vcl_pushed ing.depacketizer (b ∷ bs) v h.0,
      )
      (take_unit fuel m ing (b ∷ bs) timestamp marker h v t)

-- The packets of one access unit: all have its timestamp, and the last one has the marker.
unfoldable pub ingest_units :
    ℕ → StreamManager → H264RtpIngest → List ℕ → List (List ℕ) → ℕ → Option Ingested
ingest_units fuel m ing u [] timestamp = ingest_payload fuel m ing u timestamp true
ingest_units fuel m ing u (w ∷ us) timestamp = elim (ingest_payload fuel m ing u timestamp false) [
  | none ↦ none
  | some got ↦ ingest_units fuel got.manager got.ingest w us timestamp
]

-- One of the units is an IDR.
abbrev pub any_idr : List (List ℕ) → Bool
any_idr us = any_of (is_type 5) us

-- The ingest once the unit is flushed.
abbrev pub flushed : H264RtpIngest → ℕ → H264RtpIngest
flushed ing timestamp = record ing {
  batch = record { timestamp = timestamp; parts = []; is_keyframe = false };
  units = add64 ing.units 1;
}

abbrev pub with_unit : H264RtpIngest → List ℕ → ℕ → H264RtpIngest
with_unit ing u timestamp = record ing {
  batch = record {
    timestamp = timestamp;
    parts = ing.batch.parts ++ (annex_b (u ∷ []) ∷ []);
    is_keyframe = ing.batch.is_keyframe || idr u;
  };
}

added_unit :
    (ing : H264RtpIngest) (u : List ℕ) (timestamp : ℕ)
    → takes ing.batch timestamp ≡ true
    → add_part ing (unit_frame ing.stream_id timestamp u) timestamp ≡ with_unit ing u timestamp
unfolding add_part new_frame
added_unit ing u timestamp t = ground (arith, t)

concat-append : (xs ys : List (List ℕ)) → concat (xs ++ ys) ≡ concat xs ++ concat ys
unfolding concat
concat-append [] ys = refl
concat-append (x ∷ xs) ys =
    ap (λ zs. x ++ zs) (concat-append xs ys) ∙ sym (append_assoc x (concat xs) (concat ys))

concat_unit :
    (parts : List (List ℕ)) (u : List ℕ) (us : List (List ℕ))
    → concat (parts ++ (annex_b (u ∷ []) ∷ [])) ++ annex_b us ≡ concat parts ++ annex_b (u ∷ us)
unfolding concat annex_b
concat_unit parts u us =
    ap (λ xs. xs ++ annex_b us) (concat-append parts (annex_b (u ∷ []) ∷ []))
    ∙ append_assoc (concat parts) (annex_b (u ∷ []) ++ []) (annex_b us)
    ∙ ap (λ xs. concat parts ++ xs)
        (ap (λ xs. xs ++ annex_b us) (append-nil (annex_b (u ∷ [])))
          ∙ ap (λ xs. start_code ++ (xs ++ annex_b us)) (append-nil u))

abbrev whole_frame : H264RtpIngest → MediaFrame
whole_frame ing =
    access_frame ing.stream_id ing.batch.timestamp (concat ing.batch.parts)
      (ing.batch.is_keyframe || is_keyframe_annex_b (concat ing.batch.parts))

last_taken :
    (fuel : ℕ) (m after : StreamManager) (ing : H264RtpIngest) (f : MediaFrame) (timestamp : ℕ)
    → (length (add_part ing f timestamp).batch.parts == 0) ≡ false
    → contains_vcl_nalu (concat (add_part ing f timestamp).batch.parts) ≡ true
    → publish_frame fuel m (whole_frame (add_part ing f timestamp)) ≡ some after
    → take_part fuel (record { published = false; ingest = ing; manager = m }) f timestamp true
      ≡ some (record {
        published = true;
        ingest = flushed ing (add_part ing f timestamp).batch.timestamp;
        manager = after;
      })
unfolding take_part flush_access_unit add_part
last_taken fuel m after ing f timestamp some_part has_vcl e = ground (arith, some_part, has_vcl, e)

some_unit :
    (ing : H264RtpIngest) (u : List ℕ) (timestamp : ℕ)
    → (length (with_unit ing u timestamp).batch.parts == 0) ≡ false
some_unit ing u timestamp = ground (arith, length-append ing.batch.parts (annex_b (u ∷ []) ∷ []))

last_unit :
    (fuel : ℕ) (m after : StreamManager) (ing : H264RtpIngest) (u : List ℕ) (timestamp : ℕ)
    → takes ing.batch timestamp ≡ true
    → contains_vcl_nalu (concat (with_unit ing u timestamp).batch.parts) ≡ true
    → publish_frame fuel m (whole_frame (with_unit ing u timestamp)) ≡ some after
    → take_part fuel
        (record { published = false; ingest = ing; manager = m })
        (unit_frame ing.stream_id timestamp u)
        timestamp
        true
      ≡ some (record { published = true; ingest = flushed ing timestamp; manager = after })
last_unit fuel m after ing u timestamp t has_vcl e =
    let added = added_unit ing u timestamp t in
    last_taken fuel m after ing (unit_frame ing.stream_id timestamp u) timestamp
      (rw added (some_unit ing u timestamp)) (rw added has_vcl) (rw added e)
    ∙ ap
        (λ x.
          some
            (record { published = true; ingest = flushed ing x.batch.timestamp; manager = after }))
        added

take_more :
    (fuel : ℕ) (m : StreamManager) (ing : H264RtpIngest) (u : List ℕ) (timestamp : ℕ)
    → takes ing.batch timestamp ≡ true
    → take_part fuel
        (record { published = false; ingest = ing; manager = m })
        (unit_frame ing.stream_id timestamp u)
        timestamp
        false
      ≡ some (record { published = false; ingest = with_unit ing u timestamp; manager = m })
unfolding take_part
take_more fuel m ing u timestamp t =
    ap (λ x. some (record { published = false; ingest = x; manager = m }))
      (added_unit ing u timestamp t)

last_published :
    (fuel : ℕ) (m after : StreamManager) (ing : H264RtpIngest) (u : List ℕ) (timestamp : ℕ)
    (whole : List ℕ)
    → Units (u ∷ [])
    → vcl u ≡ true
    → takes ing.batch timestamp ≡ true
    → concat ing.batch.parts ++ annex_b (u ∷ []) ≡ whole
    → contains_vcl_nalu whole ≡ true
    → publish_frame fuel m (
        access_frame ing.stream_id timestamp whole
          ((ing.batch.is_keyframe || idr u) || is_keyframe_annex_b whole))
      ≡ some after
    → ingest_payload fuel m ing u timestamp true
      ≡ some (record { published = true; ingest = flushed ing timestamp; manager = after })
unfolding concat annex_b
last_published fuel m after ing u timestamp whole h v t w has_vcl e =
    let same : concat (with_unit ing u timestamp).batch.parts ≡ whole =
      sym (append-nil (concat (with_unit ing u timestamp).batch.parts))
      ∙ concat_unit ing.batch.parts u []
      ∙ w in
    ingest_unit fuel m ing u timestamp true h v t
    ∙ last_unit fuel m after ing u timestamp t (rw same has_vcl) (rw same e)

-- A unit on its own, taken from several.
alone : (u : List ℕ) (us : List (List ℕ)) → Units (u ∷ us) → Units (u ∷ [])
unfolding Units
alone u us (pos, plain, rest) = (pos, plain, tt)

others : (u : List ℕ) (us : List (List ℕ)) → Units (u ∷ us) → Units us
unfolding Units
others u us (pos, plain, rest) = rest

or_assoc : (x y z : Bool) → ((x || y) || z) ≡ (x || (y || z))
or_assoc true y z = refl
or_assoc false y z = refl

gather :
    (fuel : ℕ) (m after : StreamManager) (ing : H264RtpIngest) (u : List ℕ) (us : List (List ℕ))
    (timestamp : ℕ) (whole : List ℕ)
    → Units (u ∷ us)
    → All (λ w. vcl w ≡ true) (u ∷ us)
    → takes ing.batch timestamp ≡ true
    → concat ing.batch.parts ++ annex_b (u ∷ us) ≡ whole
    → contains_vcl_nalu whole ≡ true
    → publish_frame fuel m (
        access_frame ing.stream_id timestamp whole
          ((ing.batch.is_keyframe || any_idr (u ∷ us)) || is_keyframe_annex_b whole))
      ≡ some after
    → ingest_units fuel m ing u us timestamp
      ≡ some (record { published = true; ingest = flushed ing timestamp; manager = after })
unfolding ingest_units
gather fuel m after ing u [] timestamp whole h v t w has_vcl e =
    last_published fuel m after ing u timestamp whole h v.0 t w has_vcl (
      subst
        (λ k.
          publish_frame fuel m (
            access_frame ing.stream_id timestamp whole
              ((ing.batch.is_keyframe || k) || is_keyframe_annex_b whole))
          ≡ some after)
        (or_false (idr u)) e)
gather fuel m after ing u (x ∷ us) timestamp whole h v t w has_vcl e =
    let step : ingest_payload fuel m ing u timestamp false
        ≡ some (record { published = false; ingest = with_unit ing u timestamp; manager = m }) =
      ingest_unit fuel m ing u timestamp false (alone u (x ∷ us) h) v.0 t
      ∙ take_more fuel m ing u timestamp t in
    rw (ingest_units, step)
      (gather fuel m after (with_unit ing u timestamp) x us timestamp whole (others u (x ∷ us) h)
        v.1 (ground arith) (concat_unit ing.batch.parts u (x ∷ us) ∙ w) has_vcl
        (subst
          (λ k.
            publish_frame fuel m
              (access_frame ing.stream_id timestamp whole (k || is_keyframe_annex_b whole))
            ≡ some after)
          (sym (or_assoc ing.batch.is_keyframe (idr u) (any_idr (x ∷ us)))) e))

-- Slices and IDRs, in none of which a start code occurs, arrive one after the other, each whole in an RTP payload of its
-- own, with one timestamp and the marker on the last, and the batch is empty before them. If the manager takes the
-- frame, the ingest then publishes one with that timestamp: its payload is these units in their order, each behind a
-- start code, and it is marked as a key frame exactly when one of the units is an IDR. Afterwards the batch is empty
-- again and one more access unit is counted.
pub ingest_units-publish_frame :
    (fuel : ℕ) (m after : StreamManager) (ing : H264RtpIngest) (u : List ℕ) (us : List (List ℕ))
    (timestamp : ℕ)
    → Units (u ∷ us)
    → All (λ w. vcl w ≡ true) (u ∷ us)
    → ing.batch.parts ≡ []
    → ing.batch.is_keyframe ≡ false
    → publish_frame fuel m
        (access_frame ing.stream_id timestamp (annex_b (u ∷ us)) (any_idr (u ∷ us)))
      ≡ some after
    → ingest_units fuel m ing u us timestamp
      ≡ some (record { published = true; ingest = flushed ing timestamp; manager = after })
unfolding concat
ingest_units-publish_frame fuel m after ing u us timestamp h v empty plain_start e =
    let key : (any_idr (u ∷ us) || is_keyframe_annex_b (annex_b (u ∷ us))) ≡ any_idr (u ∷ us) =
      ap (◌||◌ (any_idr (u ∷ us))) (is_keyframe_annex_b-annex_b u us h)
      ∙ or_self (any_idr (u ∷ us)) in
    gather fuel m after ing u us timestamp (annex_b (u ∷ us)) h v (ground (arith, empty))
      (rw empty refl) (vcl_found u us h v.0) (rw (plain_start, key) e)
