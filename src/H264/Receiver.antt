-- ===== src/H264/Receiver.antt =====
-- The depacketizer of src/server/webrtc/rtp_h264.rs on the payloads of RTP packets, whatever their numbers, and what
-- a FU-A fragment does to it.
use vcp_media_server.Prelude.{
  ℕ, ◌+◌, ◌*◌, ◌/◌, ◌%◌, ◌^◌, ◌≤◌, ◌<◌, ◌≡◌, Bool, true, false, Option, none, some, List, [], ◌∷◌,
  ◌++◌, arith, if◌then◌else◌, length, append-nil,
}
use vcp_media_server.H264.Packet.{
  build_rtp_packet, rtp_h264_packet_info, rtp_h264_packet_info-build_rtp_packet,
}
use vcp_media_server.H264.Depacketizer.{
  H264RtpDepacketizer, Result, ok, err, stuck, start_code, push, push_fu_a, nalus_to_annex_b,
}
use vcp_media_server.H264.Packetizer.{fu_header}

-- What is made of one payload: the unit that it completes, if any, and the depacketizer.
abbrev pub accept :
    Result (Option (List ℕ)) × H264RtpDepacketizer → Option (List (List ℕ) × H264RtpDepacketizer)
accept (ok none, d) = some ([], d)
accept (ok (some unit), d) = some (unit ∷ [], d)
accept (err e, d) = none
accept (stuck, d) = none

-- The payloads of RTP packets in a row: the units that they complete, in order. `none`: a packet is refused.
unfoldable pub depacketize :
    H264RtpDepacketizer → List (List ℕ) → Option (List (List ℕ) × H264RtpDepacketizer)
depacketize d [] = some ([], d)
depacketize d (p ∷ ps) = elim (rtp_h264_packet_info p) [
  | none ↦ none
  | some info ↦ elim (accept (push d info.payload)) [
    | none ↦ none
    | some (units, d') ↦ elim (depacketize d' ps) [
      | none ↦ none
      | some (more, last) ↦ some (units ++ more, last)
    ]
  ]
]

module _ (d d' : H264RtpDepacketizer) (units : List (List ℕ)) (payload_type seq ts ssrc : ℕ)
    (marker : Bool) (payload : List ℕ) (ps : List (List ℕ)) (hp : payload_type < 2 ^ 7)
    (hs : seq < 2 ^ 16) (ht : ts < 2 ^ 32) (pos : 0 < length payload)
    (taken : accept (push d payload) ≡ some (units, d')) where
  pub depacketize_built :
      (more : List (List ℕ)) (last : H264RtpDepacketizer)
      → depacketize d' ps ≡ some (more, last)
      → depacketize d (build_rtp_packet payload_type seq ts ssrc marker payload ∷ ps)
        ≡ some (units ++ more, last)
  unfolding depacketize
  depacketize_built more last e = ground (
    arith,
    rtp_h264_packet_info-build_rtp_packet payload_type seq ts ssrc marker payload hp hs ht pos,
    taken,
    e,
  )

-- The FU-A payload for a piece of a unit whose header byte is `first`.
abbrev pub fragment : ℕ → Bool → Bool → List ℕ → List ℕ
fragment first is_start is_end piece =
    (first / 2 ^ 5 % 2 ^ 2 * 2 ^ 5 + 28) ∷ fu_header is_start is_end (first % 2 ^ 5) ∷ piece

pub fragment_pos :
    (first : ℕ) (is_start is_end : Bool) (piece : List ℕ)
    → 0 < length (fragment first is_start is_end piece)
fragment_pos first is_start is_end piece = omega arith

pub push-fragment :
    (d : H264RtpDepacketizer) (first : ℕ) (is_start is_end : Bool) (piece : List ℕ)
    → push d (fragment first is_start is_end piece)
      ≡ push_fu_a d (fragment first is_start is_end piece)
unfolding push
push-fragment d first is_start is_end piece = ground arith

-- The unit's header byte as a first fragment carries it.
header-again :
    (first : ℕ) (is_end : Bool)
    → first < 2 ^ 7
    → (first / 2 ^ 5 % 2 ^ 2 * 2 ^ 5 + 28) / 2 ^ 5 % 2 ^ 3 * 2 ^ 5
        + fu_header true is_end (first % 2 ^ 5) % 2 ^ 5
      ≡ first
header-again first true h = omega arith
header-again first false h = omega arith

-- A first fragment opens the buffer with the start code and the unit's own header byte.
pub push_start :
    (d : H264RtpDepacketizer) (first : ℕ) (is_end : Bool) (piece : List ℕ)
    → first < 2 ^ 7
    → push_fu_a d (fragment first true is_end piece) ≡ (
        let buffer = start_code ++ (first ∷ piece) in
        if is_end
        then (ok (some buffer), record { fu_buffer = none })
        else (ok none, record { fu_buffer = some buffer }))
unfolding push_fu_a
push_start d first true piece h = rw (header-again first true h) (ground arith)
push_start d first false piece h = rw (header-again first false h) (ground arith)

-- A later fragment grows the buffer.
pub push_later :
    (buffer : List ℕ) (first : ℕ) (is_end : Bool) (piece : List ℕ)
    → push_fu_a (record { fu_buffer = some buffer }) (fragment first false is_end piece) ≡ (
        if is_end
        then (ok (some (buffer ++ piece)), record { fu_buffer = none })
        else (ok none, record { fu_buffer = some (buffer ++ piece) }))
unfolding push_fu_a
push_later buffer first is_end piece = ground arith

-- The packets that a sender made, if its fuel was enough.
unfoldable pub depacketize_sent :
    H264RtpDepacketizer → Option (List (List ℕ) × ℕ) → Option (List (List ℕ) × H264RtpDepacketizer)
depacketize_sent d none = none
depacketize_sent d (some (packets, last)) = depacketize d packets

-- A unit of a type that is sent whole is given out as it is.
pub push_whole :
    (d : H264RtpDepacketizer) (first : ℕ) (rest : List ℕ)
    → 1 ≤ first % 2 ^ 5
    → first % 2 ^ 5 ≤ 23
    → push d (first ∷ rest) ≡ (ok (some (start_code ++ (first ∷ rest))), d)
unfolding push nalus_to_annex_b
push_whole d first rest low high = ground (arith, append-nil rest)
