-- ===== src/Rtmp/Video.antt =====
-- The video payloads that `handle_rtmp_message` of src/server/rtmp/mod.rs reads: the AVC configuration, and
-- units behind their lengths.
pub mod Relay
pub mod Config
use vcp_media_server.Prelude.{
  ℕ, zero, suc, ◌+◌, ◌%◌, ◌^◌, Option, none, some, List, [], ◌∷◌, ◌++◌, length, take, drop, ltb,
  leb, ◌==◌, if◌then◌else◌,
}
use vcp_media_server.H264.Depacketizer.{start_code}
use vcp_media_server.Rtmp.Chunk.{byte_at, be32}
use vcp_media_server.Rtmp.Amf0.{be16}

-- The loop over the parameter sets of one kind: the last one, and what is behind them.
unfoldable pub last_set : ℕ → List ℕ → List ℕ → List ℕ × List ℕ
last_set zero bytes last = (last, bytes)
last_set (suc n) bytes last =
    let len = be16 bytes in
    let body = drop 2 bytes in
    let later = last_set n (drop len body) (take len body) in
    if ltb (length bytes) 2
    then (last, bytes)
    else if ltb (length body) len
    then (last, body)
    else later

-- The sets behind the SPS.
unfoldable pub pps_of : List ℕ → List ℕ
pps_of [] = []
pps_of (b ∷ bs) = (last_set (b % 2 ^ 5) bs []).0

-- What an AVC sequence header gives to `set_stream_sps_pps`, if it does.
unfoldable pub avc_config : List ℕ → Option (List ℕ × List ℕ)
avc_config payload =
    let config_data = drop 5 payload in
    let read = last_set (byte_at config_data 5 % 2 ^ 5) (drop 6 config_data) [] in
    if leb (length payload) 13
    then none
    else if leb (length config_data) 7
    then none
    else if length read.0 == 0
    then none
    else some (read.0, pps_of read.1)

-- The loop that puts start codes in place of lengths. Each round takes four bytes at least, so that as many rounds as
-- there are bytes are enough.
unfoldable pub annex_b_from : ℕ → List ℕ → List ℕ
annex_b_from zero payload = []
annex_b_from (suc rounds) payload =
    let nalu_len = be32 payload 0 in
    let body = drop 4 payload in
    let more = annex_b_from rounds (drop nalu_len body) in
    if ltb (length payload) 4
    then []
    else if ltb (length body) nalu_len
    then []
    else start_code ++ (take nalu_len body ++ more)
