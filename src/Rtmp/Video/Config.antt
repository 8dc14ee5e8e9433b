-- ===== src/Rtmp/Video/Config.antt =====
-- The AVC sequence header of src/server/rtmp/session.rs, read by src/server/rtmp/mod.rs.
use vcp_media_server.Prelude.{
  ℕ, ◌%◌, ◌^◌, ◌<◌, ◌≡◌, refl, sym, ap, ◌∙◌, false, some, List, [], ◌∷◌, ◌++◌, length, drop, ltb,
  leb, ◌==◌, arith, length-append, append-nil, take-append_length, drop-append_length,
}
use vcp_media_server.Rtmp.Amf0.{be16, put16}
use vcp_media_server.Rtmp.Session.{build_avc_sequence_header}
use vcp_media_server.Rtmp.Video.{last_set, pps_of, avc_config}

-- One set behind its length.
last_set-one :
    (set rest : List ℕ)
    → length set < 2 ^ 16
    → last_set 1 (put16 (length set % 2 ^ 16) ++ (set ++ rest)) [] ≡ (set, rest)
unfolding last_set
last_set-one set rest h =
    let all = put16 (length set % 2 ^ 16) ++ (set ++ rest) in
    let long : ltb (length all) 2 ≡ false = ground arith in
    let len : be16 all ≡ length set = omega arith in
    let room : ltb (length (set ++ rest)) (length set) ≡ false =
      ground (arith, length-append set rest) in
    rw (long, len, room, take-append_length set rest, drop-append_length set rest) refl

pps_of-one :
    (pps : List ℕ)
    → length pps < 2 ^ 16
    → pps_of (0x01 ∷ (put16 (length pps % 2 ^ 16) ++ pps)) ≡ pps
unfolding pps_of
pps_of-one pps h =
    ap (λ xs. (last_set 1 (put16 (length pps % 2 ^ 16) ++ xs) []).0) (sym (append-nil pps))
    ∙ ap (λ r. r.0) (last_set-one pps [] h)

-- The header that a player is sent holds the stream's parameter sets: a publisher that sends it has exactly these
-- stored for its stream. Both fit into 16 bits, and there is an SPS.
pub avc_config-build_avc_sequence_header :
    (sps pps : List ℕ)
    → 0 < length sps
    → length sps < 2 ^ 16
    → length pps < 2 ^ 16
    → avc_config (build_avc_sequence_header sps pps) ≡ some (sps, pps)
unfolding avc_config build_avc_sequence_header
avc_config-build_avc_sequence_header sps pps pos hs hp =
    let rest = 0x01 ∷ (put16 (length pps % 2 ^ 16) ++ pps) in
    let long : leb (length (build_avc_sequence_header sps pps)) 13 ≡ false =
      ground (arith, length-append sps rest) in
    let longer : leb (length (drop 5 (build_avc_sequence_header sps pps))) 7 ≡ false =
      ground (arith, length-append sps rest) in
    let there : (length sps == 0) ≡ false = ground arith in
    rw (long, longer, last_set-one sps rest hs, there, pps_of-one pps hp) refl
