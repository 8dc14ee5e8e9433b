-- ===== src/H264/Numbers.antt =====
-- RTP packets with their sequence numbers: those of the packetizer of src/server/rtsp/common.rs, as the ingest of
-- src/server/webrtc/h264_rtp_ingest.rs takes them in, which drops what is under way when a number is missing.
use vcp_media_server.Prelude.{
  ℕ, zero, suc, ◌+◌, ◌%◌, ◌^◌, ◌≤◌, ◌<◌, ◌≡◌, refl, ap, ap₂, sym, subst, ◌==◌, ◌∙◌, Bool, true,
  false, Option, none, some, List, [], ◌∷◌, ◌++◌, arith, leb, length, Option-cases, Bool-cases, inl,
  inr, if◌then◌else◌,
}
use vcp_media_server.H264.Packet.{
  RtpH264PacketInfo, rtp_h264_packet_info, rtp_h264_packet_info-build_rtp_packet, build_rtp_packet,
}
use vcp_media_server.H264.Depacketizer.{H264RtpDepacketizer, start_code, push}
use vcp_media_server.H264.Packetizer.{with_packet, fragment_loop, packetize_h264_nal_for_rtp}
use vcp_media_server.H264.Receiver.{accept, depacketize, depacketize_sent}
use vcp_media_server.H264.Fragments.{depacketize_sent-packetize}
use vcp_media_server.Ingest.{H264RtpIngest, is_gap, accept_sequence}

-- A payload, with the answer of `accept_sequence`: what is not accepted goes no further.
unfoldable pub receive_accepted :
    Bool × H264RtpIngest → List ℕ → Option (List (List ℕ) × H264RtpIngest)
receive_accepted (false, next) payload = some ([], next)
receive_accepted (true, next) payload = elim (accept (push next.depacketizer payload)) [
  | none ↦ none
  | some (units, d) ↦ some (units, record next { depacketizer = d })
]

-- The receiver of RTP packets: `ingest_rtp_packet` with the units that the depacketizer gives out in place of the frames
-- made of them. `none`: a packet is malformed or its payload refused.
unfoldable pub receive : H264RtpIngest → List (List ℕ) → Option (List (List ℕ) × H264RtpIngest)
receive ing [] = some ([], ing)
receive ing (p ∷ ps) = elim (rtp_h264_packet_info p) [
  | none ↦ none
  | some info ↦
      elim (receive_accepted (accept_sequence ing info.sequence_number info.payload) info.payload) [
        | none ↦ none
        | some (units, next) ↦ elim (receive next ps) [
          | none ↦ none
          | some (more, last) ↦ some (units ++ more, last)
        ]
      ]
]

-- A well-formed packet of this number.
abbrev HasNumber : ℕ → List ℕ → Type 0
HasNumber seq p =
    (info : RtpH264PacketInfo) × (rtp_h264_packet_info p ≡ some info) × (info.sequence_number ≡ seq)

-- The packets have numbers that follow one another from `seq` on, and `last` would be next.
unfoldable pub Numbered : ℕ → List (List ℕ) → ℕ → Type 0
Numbered seq [] last = seq ≡ last
Numbered seq (p ∷ ps) last = HasNumber seq p × Numbered ((seq + 1) % 2 ^ 16) ps last

abbrev moved : H264RtpIngest → H264RtpDepacketizer → ℕ → H264RtpIngest
moved ing d next = record ing { depacketizer = d; expected_seq = some next }

accepted_in_order :
    (ing : H264RtpIngest) (seq : ℕ) (payload : List ℕ)
    → is_gap ing.expected_seq seq ≡ false
    → accept_sequence ing seq payload
      ≡ (true, record ing { expected_seq = some ((seq + 1) % 2 ^ 16) })
unfolding accept_sequence
accepted_in_order ing seq payload h = rw h refl

receive_step :
    (ing : H264RtpIngest) (seq : ℕ) (p : List ℕ) (ps units more : List (List ℕ))
    (info : RtpH264PacketInfo) (d : H264RtpDepacketizer) (last : H264RtpIngest)
    → is_gap ing.expected_seq seq ≡ false
    → rtp_h264_packet_info p ≡ some info
    → info.sequence_number ≡ seq
    → accept (push ing.depacketizer info.payload) ≡ some (units, d)
    → receive (moved ing d ((seq + 1) % 2 ^ 16)) ps ≡ some (more, last)
    → receive ing (p ∷ ps) ≡ some (units ++ more, last)
unfolding receive receive_accepted
receive_step ing seq p ps units more info d last h e n taken later =
    let order : accept_sequence ing info.sequence_number info.payload
        ≡ (true, record ing { expected_seq = some ((seq + 1) % 2 ^ 16) }) =
      ap (λ k. accept_sequence ing k info.payload) n ∙ accepted_in_order ing seq info.payload h in
    rw (receive, e, order, receive_accepted, taken, later) refl

-- What the depacketizer made of the first packet and of the others.
depacketize-cases :
    (d end : H264RtpDepacketizer) (p : List ℕ) (ps all : List (List ℕ)) (info : RtpH264PacketInfo)
    → rtp_h264_packet_info p ≡ some info
    → depacketize d (p ∷ ps) ≡ some (all, end)
    → (units : List (List ℕ)) × (d' : H264RtpDepacketizer) × (more : List (List ℕ)) × (accept
          (push d info.payload)
        ≡ some (units, d'))
      × (depacketize d' ps ≡ some (more, end))
      × (units ++ more ≡ all)
unfolding depacketize
depacketize-cases d end p ps all info e h = elim (Option-cases (accept (push d info.payload))) [
  | inl n ↦ absurd (ground (arith, e, n, h))
  | inr ((units, d'), n) ↦ elim (Option-cases (depacketize d' ps)) [
    | inl k ↦ absurd (ground (arith, e, n, k, h))
    | inr ((more, last), k) ↦
        let same : (units ++ more ≡ all) × (last ≡ end) = ground (arith, e, n, k, h) in
        (units, d', more, n, k ∙ ap (λ l. some (more, l)) same.1, same.0)
  ]
]

first_received :
    (ing : H264RtpIngest) (end : H264RtpDepacketizer) (seq last : ℕ) (p : List ℕ)
    (ps all : List (List ℕ))
    → ((next : H264RtpIngest) (more : List (List ℕ))
        → next.expected_seq ≡ some ((seq + 1) % 2 ^ 16)
        → depacketize next.depacketizer ps ≡ some (more, end)
        → receive next ps ≡ some (more, moved next end last))
    → is_gap ing.expected_seq seq ≡ false
    → HasNumber seq p
    → depacketize ing.depacketizer (p ∷ ps) ≡ some (all, end)
    → receive ing (p ∷ ps) ≡ some (all, moved ing end last)
first_received ing end seq last p ps all later h (info, e, n) whole =
    let (units, d, more, taken, rest, sum) =
      depacketize-cases ing.depacketizer end p ps all info e whole in
    receive_step ing seq p ps units more info d (moved ing end last) h e n taken
      (later (moved ing d ((seq + 1) % 2 ^ 16)) more refl rest)
    ∙ ap (λ us. some (us, moved ing end last)) sum

no_gap : (expected : Option ℕ) (seq : ℕ) → expected ≡ some seq → is_gap expected seq ≡ false
no_gap expected seq e = rw e (ground arith)

-- Packets in order, from the number that is expected on, lose nothing.
receive_expected :
    (ing : H264RtpIngest) (end : H264RtpDepacketizer) (seq last : ℕ) (ps all : List (List ℕ))
    → ing.expected_seq ≡ some seq
    → Numbered seq ps last
    → depacketize ing.depacketizer ps ≡ some (all, end)
    → receive ing ps ≡ some (all, moved ing end last)
unfolding Numbered
receive_expected ing end seq last [] all e same whole =
    let ends : ([] ≡ all) × (ing.depacketizer ≡ end) =
      unfold depacketize in ground (arith, whole) in
    unfold receive in
    ap₂ (λ us x. some (us, x)) ends.0
      (ap₂ (λ d n. record ing { depacketizer = d; expected_seq = n }) ends.1 (e ∙ ap some same))
receive_expected ing end seq last (p ∷ ps) all e (number, numbers) whole =
    first_received ing end seq last p ps all
      (λ next more e' whole'.
        receive_expected next end ((seq + 1) % 2 ^ 16) last ps more e' numbers whole')
      (no_gap ing.expected_seq seq e) number whole

-- The first packet's number is expected, or none is.
receive_sent :
    (ing : H264RtpIngest) (end : H264RtpDepacketizer) (seq last : ℕ) (ps : List (List ℕ))
    (unit : List ℕ) (all : List (List ℕ))
    → is_gap ing.expected_seq seq ≡ false
    → Numbered seq ps last
    → depacketize ing.depacketizer ps ≡ some (unit ∷ all, end)
    → receive ing ps ≡ some (unit ∷ all, moved ing end last)
unfolding Numbered
receive_sent ing end seq last [] unit all h numbers whole =
    absurd (unfold depacketize in ground (arith, whole))
receive_sent ing end seq last (p ∷ ps) unit all h (number, numbers) whole =
    first_received ing end seq last p ps (unit ∷ all)
      (λ next more e whole'.
        receive_expected next end ((seq + 1) % 2 ^ 16) last ps more e numbers whole')
      h number whole

none_sent :
    (seq last : ℕ) (packets : List (List ℕ))
    → ◌≡◌ {A = Option (List (List ℕ) × ℕ)} (some ([], seq)) (some (packets, last))
    → Numbered seq packets last
unfolding Numbered
none_sent seq last [] e = ground arith
none_sent seq last (p ∷ ps) e = absurd (ground (arith, e))

one_more_sent :
    (seq last : ℕ) (p : List ℕ) (rest : Option (List (List ℕ) × ℕ)) (packets : List (List ℕ))
    → ((ps : List (List ℕ)) (l : ℕ) → rest ≡ some (ps, l) → Numbered ((seq + 1) % 2 ^ 16) ps l)
    → HasNumber seq p
    → with_packet p rest ≡ some (packets, last)
    → Numbered seq packets last
unfolding Numbered
one_more_sent seq last p none packets later number e = absurd (ground (arith, e))
one_more_sent seq last p (some (ps, l)) packets later number e =
    let same : ((p ∷ ps) ≡ packets) × (l ≡ last) = ground (arith, e) in
    subst (λ (n : ℕ). Numbered seq packets n) same.1
      (subst (λ (qs : List (List ℕ)). Numbered seq qs l) same.0 (number, later ps l refl))

module _ (payload_type ts ssrc : ℕ) (marker : Bool) (hp : payload_type < 2 ^ 7)
    (ht : ts < 2 ^ 32) where
  built-HasNumber :
      (seq : ℕ) (mark : Bool) (payload : List ℕ)
      → seq < 2 ^ 16
      → 0 < length payload
      → HasNumber seq (build_rtp_packet payload_type seq ts ssrc mark payload)
  built-HasNumber seq mark payload hs pos = (
    _,
    rtp_h264_packet_info-build_rtp_packet payload_type seq ts ssrc mark payload hp hs ht pos,
    refl,
  )

  fragment_loop-Numbered :
      (fuel first seq last : ℕ) (is_start : Bool) (left : List ℕ) (packets : List (List ℕ))
      → seq < 2 ^ 16
      → fragment_loop payload_type ts ssrc marker fuel first seq is_start left
        ≡ some (packets, last)
      → Numbered seq packets last
  unfolding fragment_loop Numbered
  fragment_loop-Numbered zero first seq last is_start left packets hs e =
      elim (Bool-cases (length left == 0)) [
        | inl nothing ↦ none_sent seq last packets (rw nothing at e)
        | inr left_over ↦ absurd (ground (arith, rw left_over at e))
      ]
  fragment_loop-Numbered (suc fuel) first seq last is_start left packets hs e =
      elim (Bool-cases (length left == 0)) [
        | inl nothing ↦ none_sent seq last packets (rw nothing at e)
        | inr left_over ↦
            one_more_sent seq last _ _ packets
              (λ ps l.
                fragment_loop-Numbered fuel first ((seq + 1) % 2 ^ 16) l false _ ps (omega arith))
              (built-HasNumber seq _ _ hs (omega arith)) (rw left_over at e)
      ]

  packetize-Numbered :
      (fuel first seq last : ℕ) (rest : List ℕ) (packets : List (List ℕ))
      → seq < 2 ^ 16
      → packetize_h264_nal_for_rtp payload_type ts ssrc marker fuel (first ∷ rest) seq
        ≡ some (packets, last)
      → Numbered seq packets last
  unfolding packetize_h264_nal_for_rtp
  packetize-Numbered fuel first seq last rest packets hs e =
      elim (Bool-cases (leb (suc (length rest)) 1200)) [
        | inl short ↦
            one_more_sent seq last (build_rtp_packet payload_type seq ts ssrc marker (first ∷ rest))
              (some ([], (seq + 1) % 2 ^ 16)) packets
              (λ ps l e'. none_sent ((seq + 1) % 2 ^ 16) l ps e')
              (built-HasNumber seq marker (first ∷ rest) hs (omega arith)) (rw short at e)
        | inr long ↦ fragment_loop-Numbered fuel first seq last true rest packets hs (rw long at e)
      ]

  -- A NAL unit of type 1 to 23 with its F bit clear is cut into RTP packets, with enough fuel for a byte per fragment,
  -- and a receiver that expects the first packet's number, or none yet, gives the unit out once and whole behind a start code. It
  -- then expects the number that the sender goes on with, also across the wrap at 2 ^ 16, and is otherwise as
  -- before but for the depacketizer, which a unit of several packets leaves empty. The payload type is below 128, and
  -- timestamp and number fit 32 and 16 bits.
  pub receive-packetize_h264_nal_for_rtp :
      (ing : H264RtpIngest) (fuel first seq : ℕ) (rest : List ℕ)
      → first < 2 ^ 7
      → 1 ≤ first % 2 ^ 5
      → first % 2 ^ 5 ≤ 23
      → seq < 2 ^ 16
      → length rest ≤ fuel
      → is_gap ing.expected_seq seq ≡ false
      → (packets : List (List ℕ)) × (next : ℕ) × (packetize_h264_nal_for_rtp payload_type ts ssrc
            marker fuel
            (first ∷ rest)
            seq
          ≡ some (packets, next))
        × (receive ing packets
            ≡ some (
              (start_code ++ (first ∷ rest)) ∷ [],
              record ing {
                depacketizer =
                    if leb (suc (length rest)) 1200
                    then ing.depacketizer
                    else record { fu_buffer = none };
                expected_seq = some next;
              },
            ))
  receive-packetize_h264_nal_for_rtp ing fuel first seq rest hf low high hs enough in_order =
      let whole =
        depacketize_sent-packetize payload_type ts ssrc marker hp ht ing.depacketizer fuel first seq
          rest hf low high hs enough in
      elim (Option-cases
        (packetize_h264_nal_for_rtp payload_type ts ssrc marker fuel (first ∷ rest) seq)) [
          | inl n ↦ absurd (
              unfold depacketize_sent in
              ground (arith, sym whole ∙ ap (depacketize_sent ing.depacketizer) n))
          | inr ((packets, next), n) ↦ (
            packets,
            next,
            n,
            receive_sent ing _ seq next packets _ _ in_order
                (packetize-Numbered fuel first seq next rest packets hs n)
                (unfold depacketize_sent in sym (ap (depacketize_sent ing.depacketizer) n) ∙ whole),
          )
        ]
