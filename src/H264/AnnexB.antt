-- ===== src/H264/AnnexB.antt =====
-- src/server/webrtc/h264_util.rs: NAL units in an Annex B buffer, found by four-byte start codes, and
-- the tests on their types. An index into the buffer goes with what is left of the buffer from there on.
pub mod Split
pub mod Types
use vcp_media_server.Prelude.{
  ℕ, zero, suc, ◌+◌, ◌-◌, ◌%◌, ◌^◌, Bool, true, false, not, ◌&&◌, ◌||◌, Option, none, some, List,
  [], ◌∷◌, ◌++◌, map, ltb, ◌==◌, if◌then◌else◌, length, take, drop,
}
use vcp_media_server.Prelude.Bytes.{starts_with}
use vcp_media_server.H264.Packet.{nth}
use vcp_media_server.H264.Depacketizer.{start_code}

abbrev pub short_start_code : List ℕ
short_start_code = 0 ∷ 0 ∷ 1 ∷ []

unfoldable pub ensure_annex_b : List ℕ → List ℕ
ensure_annex_b [] = []
ensure_annex_b (b ∷ bs) =
    if starts_with (b ∷ bs) start_code || starts_with (b ∷ bs) short_start_code
    then b ∷ bs
    else start_code ++ (b ∷ bs)

-- The inner loop: the next start code at `j` or behind it, or the buffer's end.
unfoldable pub find_end : ℕ → List ℕ → ℕ
find_end j [] = j
find_end j (b ∷ bs) =
    let later = find_end (suc j) bs in if starts_with (b ∷ bs) start_code then j else later

-- The outer loop at `i`. Where the source jumps from `i` to `end`, `skip` counts the bytes to pass over.
unfoldable pub nal_walk : ℕ → ℕ → List ℕ → List (ℕ × ℕ)
nal_walk skip i [] = []
nal_walk (suc skip) i (b ∷ bs) = nal_walk skip (suc i) bs
nal_walk zero i (b ∷ bs) =
    let start = i + 4 in
    let end = find_end start (drop 4 (b ∷ bs)) in
    let behind = nal_walk (end - suc i) (suc i) bs in
    let next = nal_walk zero (suc i) bs in
    if starts_with (b ∷ bs) start_code
    then (if ltb start end then (start, end) ∷ behind else behind)
    else next

-- The header's place if the buffer begins with a unit.
unfoldable pub first_nalu_header_offset : List ℕ → Option ℕ
first_nalu_header_offset bytes =
    if starts_with bytes start_code
    then some 4
    else if starts_with bytes short_start_code
    then some 3
    else if not (length bytes == 0)
    then some 0
    else none

-- The single unit of a buffer with no start code of four bytes, or with nothing behind one.
abbrev pub raw_range : List ℕ → List (ℕ × ℕ)
raw_range bytes =
    let start =
      if starts_with bytes start_code
      then 4
      else if starts_with bytes short_start_code
      then 3
      else 0 in
    if not (length bytes == 0) && ltb start (length bytes) then (start, length bytes) ∷ [] else []

unfoldable pub iter_annex_b_nal_ranges : List ℕ → List (ℕ × ℕ)
iter_annex_b_nal_ranges bytes = elim (nal_walk zero zero bytes) [
  | [] ↦ raw_range bytes
  | r ∷ rs ↦ r ∷ rs
]

-- `data[start..end]`
abbrev pub slice : List ℕ → ℕ × ℕ → List ℕ
slice bytes (start, end) = take (end - start) (drop start bytes)

unfoldable pub nalu_type : List ℕ → ℕ → Option ℕ
nalu_type bytes header_idx =
    if ltb header_idx (length bytes) then some (nth bytes header_idx % 2 ^ 5) else none

unfoldable pub first_nalu_type : List ℕ → Option ℕ
first_nalu_type bytes = elim (first_nalu_header_offset bytes) [
  | none ↦ none
  | some idx ↦ nalu_type bytes idx
]

-- `Some(t) => t == target`, and the patterns `Some(1) | Some(5)` and `Some(7) | Some(8) | Some(9)`.
abbrev pub is_type : ℕ → Option ℕ → Bool
is_type target none = false
is_type target (some t) = t == target

abbrev pub is_vcl : Option ℕ → Bool
is_vcl t = is_type 1 t || is_type 5 t

abbrev pub is_parameter_set : Option ℕ → Bool
is_parameter_set t = is_type 7 t || is_type 8 t || is_type 9 t

abbrev pub any_unit : (Option ℕ → Bool) → List ℕ → List (ℕ × ℕ) → Bool
any_unit p bytes [] = false
any_unit p bytes ((start, end) ∷ rs) = p (nalu_type bytes start) || any_unit p bytes rs

abbrev pub all_units : (Option ℕ → Bool) → List ℕ → List (ℕ × ℕ) → Bool
all_units p bytes [] = true
all_units p bytes ((start, end) ∷ rs) = p (nalu_type bytes start) && all_units p bytes rs

unfoldable pub contains_nalu_type : List ℕ → ℕ → Bool
contains_nalu_type bytes target = any_unit (is_type target) bytes (iter_annex_b_nal_ranges bytes)

unfoldable pub contains_idr_nalu : List ℕ → Bool
contains_idr_nalu bytes = contains_nalu_type bytes 5

unfoldable pub contains_vcl_nalu : List ℕ → Bool
contains_vcl_nalu bytes = any_unit is_vcl bytes (iter_annex_b_nal_ranges bytes)

unfoldable pub contains_sps_or_pps_nalu : List ℕ → Bool
contains_sps_or_pps_nalu bytes = contains_nalu_type bytes 7 || contains_nalu_type bytes 8

unfoldable pub is_parameter_set_only : List ℕ → Bool
is_parameter_set_only bytes = elim (iter_annex_b_nal_ranges bytes) [
  | [] ↦ false
  | r ∷ rs ↦ all_units is_parameter_set bytes (r ∷ rs)
]

unfoldable pub is_keyframe_annex_b : List ℕ → Bool
is_keyframe_annex_b bytes = is_type 5 (first_nalu_type bytes) || contains_idr_nalu bytes

-- The loop of `extract_sps_pps`: later units replace earlier ones.
unfoldable pub extract_loop :
    List ℕ → List (ℕ × ℕ) → Option (List ℕ) → Option (List ℕ) → Option (List ℕ) × Option (List ℕ)
extract_loop bytes [] sps pps = (sps, pps)
extract_loop bytes (r ∷ rs) sps pps =
    let t = nalu_type bytes r.0 in
    extract_loop bytes rs (if is_type 7 t then some (slice bytes r) else sps)
      (if is_type 8 t then some (slice bytes r) else pps)

unfoldable pub extract_sps_pps : List ℕ → Option (List ℕ) × Option (List ℕ)
extract_sps_pps bytes = extract_loop bytes (iter_annex_b_nal_ranges bytes) none none

unfoldable pub looks_like_h265_misread_as_h264 : List ℕ → Bool
looks_like_h265_misread_as_h264 bytes = elim (first_nalu_header_offset bytes) [
  | none ↦ false
  | some idx ↦
      ltb idx (length bytes)
      && (nth bytes idx == 0x30 || nth bytes idx == 0x26 || nth bytes idx == 0x28)
]
