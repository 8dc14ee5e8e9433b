-- ===== src/H264/Depacketizer.antt =====
-- src/server/webrtc/rtp_h264.rs: RTP payloads to NAL units in Annex B form (RFC 6184).
-- `STAP-A` is a loop on fuel; `stuck` is no value of the source, it says that the fuel was used up.
use vcp_media_server.Prelude.{
  ℕ, zero, suc, ◌+◌, ◌*◌, ◌/◌, ◌%◌, ◌^◌, Bool, true, false, not, ◌&&◌, ◌||◌, Option, none, some,
  List, [], ◌∷◌, ◌++◌, ltb, leb, ◌==◌, if◌then◌else◌, length, take, drop,
}
use vcp_media_server.H264.Packet.{nth}

abbrev pub stap_a : ℕ
stap_a = 24

abbrev pub fu_a : ℕ
fu_a = 28

pub record ParsedNalu : Type 0 where
  pub nal_type : ℕ
  pub bytes : List ℕ

pub data H264DepacketizeError : Type 0 where
  short_packet stap_a_size_larger_than_buffer missing_fu_start : H264DepacketizeError
  unsupported_nalu_type : ℕ → H264DepacketizeError

pub data Result {ℓ} (A : Type ℓ) : Type ℓ where
  ok : A → Result A
  err : H264DepacketizeError → Result A
  stuck : Result A

-- `None` of `fu_buffer` is no fragmented unit under way.
pub record H264RtpDepacketizer : Type 0 where
  pub fu_buffer : Option (List ℕ)

abbrev pub default_depacketizer : H264RtpDepacketizer
default_depacketizer = record { fu_buffer = none }

abbrev pub start_code : List ℕ
start_code = 0 ∷ 0 ∷ 0 ∷ 1 ∷ []

unfoldable pub nalus_to_annex_b : List ParsedNalu → List ℕ
nalus_to_annex_b [] = []
nalus_to_annex_b (n ∷ ns) = start_code ++ (n.bytes ++ nalus_to_annex_b ns)

abbrev pub with_nalu : List ℕ → Result (List ParsedNalu) → Result (List ParsedNalu)
with_nalu nalu (ok nalus) = ok (record { nal_type = nth nalu 0 % 2 ^ 5; bytes = nalu } ∷ nalus)
with_nalu nalu (err e) = err e
with_nalu nalu stuck = stuck

-- The loop of `parse_stap_a_checked` over what is left from `i` on.
unfoldable pub stap_a_loop : ℕ → List ℕ → Result (List ParsedNalu)
stap_a_loop zero left = stuck
stap_a_loop (suc fuel) left =
    let nalu_len = nth left 0 * 2 ^ 8 + nth left 1 in
    let rest = stap_a_loop fuel (drop (2 + nalu_len) left) in
    if ltb (length left) 2
    then ok []
    else if nalu_len == 0 || ltb (length left) (2 + nalu_len)
    then err stap_a_size_larger_than_buffer
    else with_nalu (take nalu_len (drop 2 left)) rest

unfoldable pub parse_stap_a_checked : List ℕ → Result (List ParsedNalu)
parse_stap_a_checked payload = stap_a_loop (suc (length payload)) (drop 1 payload)

-- `unwrap_or_default`
unfoldable pub parse_stap_a : List ℕ → List ParsedNalu
parse_stap_a payload = elim (parse_stap_a_checked payload) [ ok nalus ↦ nalus | _ ↦ [] ]

unfoldable pub parse_rtp_h264 : List ℕ → List ParsedNalu
parse_rtp_h264 [] = []
parse_rtp_h264 (b ∷ bs) =
    let nal_type = b % 2 ^ 5 in
    if leb 1 nal_type && leb nal_type 23
    then record { nal_type = nal_type; bytes = b ∷ bs } ∷ []
    else if nal_type == stap_a
    then parse_stap_a (b ∷ bs)
    else []

unfoldable pub annex_b_from_rtp_payload : List ℕ → Option (List ℕ)
annex_b_from_rtp_payload payload = elim (parse_rtp_h264 payload) [
  | [] ↦ none
  | n ∷ ns ↦ some (nalus_to_annex_b (n ∷ ns))
]

unfoldable pub contains_idr : List ParsedNalu → Bool
contains_idr [] = false
contains_idr (n ∷ ns) = n.nal_type == 5 || contains_idr ns

unfoldable pub is_idr_rtp_payload : List ℕ → Bool
is_idr_rtp_payload [] = false
is_idr_rtp_payload (b ∷ bs) =
    let nal_type = b % 2 ^ 5 in
    if nal_type == 5
    then true
    else if nal_type == stap_a
    then contains_idr (parse_stap_a (b ∷ bs))
    else if nal_type == fu_a && leb 2 (length (b ∷ bs))
    then nth (b ∷ bs) 1 % 2 ^ 5 == 5
    else false

-- Later units replace earlier ones.
unfoldable pub sps_pps_loop :
    List ParsedNalu → Option (List ℕ) → Option (List ℕ) → Option (List ℕ) × Option (List ℕ)
sps_pps_loop [] sps pps = (sps, pps)
sps_pps_loop (n ∷ ns) sps pps =
    sps_pps_loop ns (if n.nal_type == 7 then some n.bytes else sps)
      (if n.nal_type == 8 then some n.bytes else pps)

unfoldable pub extract_sps_pps_from_nalus : List ParsedNalu → Option (List ℕ) × Option (List ℕ)
extract_sps_pps_from_nalus nalus = sps_pps_loop nalus none none

unfoldable pub is_fu_a_continuation : List ℕ → Bool
is_fu_a_continuation payload =
    if ltb (length payload) 2 || not (nth payload 0 % 2 ^ 5 == fu_a)
    then false
    else nth payload 1 / 2 ^ 7 % 2 == 0

-- `H264RtpDepacketizer::reset`
abbrev pub reset_depacketizer : H264RtpDepacketizer → H264RtpDepacketizer
reset_depacketizer d = record { fu_buffer = none }

-- What a fragment leaves in the buffer; `none` is a fragment with no start before it.
abbrev pub fragment_buffer : Option (List ℕ) → List ℕ → Option (List ℕ)
fragment_buffer held payload =
    if not (nth payload 1 / 2 ^ 7 % 2 == 0)
    then some (
        start_code
        ++ ((nth payload 0 / 2 ^ 5 % 2 ^ 3 * 2 ^ 5 + nth payload 1 % 2 ^ 5) ∷ drop 2 payload))
    else elim held [ none ↦ none | some buffer ↦ some (buffer ++ drop 2 payload) ]

unfoldable pub push_fu_a :
    H264RtpDepacketizer → List ℕ → Result (Option (List ℕ)) × H264RtpDepacketizer
push_fu_a d payload =
    if ltb (length payload) 2
    then (err short_packet, reset_depacketizer d)
    else elim (fragment_buffer d.fu_buffer payload) [
      | none ↦ (err missing_fu_start, d)
      | some buffer ↦
          if nth payload 1 / 2 ^ 6 % 2 == 0
          then (ok none, record { fu_buffer = some buffer })
          else (ok (some buffer), record { fu_buffer = none })
    ]

-- `push`; the depacketizer is kept wherever the source does not write to it.
unfoldable pub push : H264RtpDepacketizer → List ℕ → Result (Option (List ℕ)) × H264RtpDepacketizer
unfolding push_fu_a nalus_to_annex_b
push d [] = (ok none, d)
push d (b ∷ bs) =
    let nal_type = b % 2 ^ 5 in
    if leb 1 nal_type && leb nal_type 23
    then (ok (some (nalus_to_annex_b (record { nal_type = nal_type; bytes = b ∷ bs } ∷ []))), d)
    else if nal_type == stap_a
    then elim (parse_stap_a_checked (b ∷ bs)) [
      | ok nalus ↦ (ok (some (nalus_to_annex_b nalus)), d)
      | err e ↦ (err e, d)
      | stuck ↦ (stuck, d)
    ]
    else if nal_type == fu_a
    then push_fu_a d (b ∷ bs)
    else (err (unsupported_nalu_type nal_type), d)
