-- ===== src/H264/Fragments.antt =====
-- A NAL unit that src/server/rtsp/common.rs cuts into RTP packets is put together again by the
-- depacketizer of src/server/webrtc/rtp_h264.rs.
use vcp_media_server.Prelude.{
  le_or_lt, take_all, drop_all, ℕ, zero, suc, ◌+◌, ◌%◌, ◌^◌, ◌≤◌, ◌<◌, ◌≡◌, refl, ap, ap₂, subst,
  ◌∙◌, min, Bool, true, false, ◌&&◌, Option, none, some, List, [], ◌∷◌, ◌++◌, append_assoc, arith,
  leb, ◌==◌, if◌then◌else◌, length, take, drop, length-drop, take-append-drop, le→leb, inl, inr,
}
use vcp_media_server.H264.Packet.{build_rtp_packet}
use vcp_media_server.H264.Depacketizer.{H264RtpDepacketizer, ok, start_code, push}
use vcp_media_server.H264.Packetizer.{
  next_seq, with_packet, fragment_loop, packetize_h264_nal_for_rtp,
}
use vcp_media_server.H264.Receiver.{
  accept, depacketize, depacketize_built, depacketize_sent, fragment, fragment_pos, push-fragment,
  push_start, push_later, push_whole,
}

loop_nil :
    (payload_type ts ssrc : ℕ) (marker is_start : Bool) (fuel first seq : ℕ)
    → fragment_loop payload_type ts ssrc marker fuel first seq is_start [] ≡ some ([], seq)
unfolding fragment_loop
loop_nil payload_type ts ssrc marker is_start zero first seq = ground arith
loop_nil payload_type ts ssrc marker is_start (suc fuel) first seq = ground arith

not_leb : (a b : ℕ) → b < a → leb a b ≡ false
not_leb a b h = ground arith

rejoin : (n : ℕ) (buffer left : List ℕ) → (buffer ++ take n left) ++ drop n left ≡ buffer ++ left
rejoin n buffer left =
    append_assoc buffer (take n left) (drop n left)
    ∙ ap (λ xs. buffer ++ xs) (take-append-drop n left)

left_after : (n m : ℕ) (left : List ℕ) → length left ≡ n + m → length (drop n left) ≡ m
left_after n m left e = omega (arith, length-drop n left)

module _ (payload_type ts ssrc : ℕ) (marker is_start : Bool) (fuel first seq : ℕ)
    (left : List ℕ) where
  -- The packet with the next `size` bytes, and what follows it.
  abbrev fragment_then : ℕ → Bool → Option (List (List ℕ) × ℕ)
  fragment_then size is_end =
      with_packet
        (build_rtp_packet payload_type seq ts ssrc (marker && is_end)
          (fragment first is_start is_end (take size left)))
        (fragment_loop payload_type ts ssrc marker fuel first (next_seq seq) false (drop size left))

  loop_cut :
      (size : ℕ) (is_end : Bool)
      → 0 < length left
      → min (length left) 1198 ≡ size
      → leb (length left) size ≡ is_end
      → fragment_loop payload_type ts ssrc marker (suc fuel) first seq is_start left
        ≡ fragment_then size is_end
  unfolding fragment_loop
  loop_cut size is_end pos e f =
      let some_left : length left == 0 ≡ false = ground arith in
      rw some_left (ap₂ fragment_then e (ap (leb (length left)) e ∙ f))

  loop_last :
      0 < length left
      → length left ≤ 1198
      → fragment_loop payload_type ts ssrc marker (suc fuel) first seq is_start left
        ≡ some (
          build_rtp_packet payload_type seq ts ssrc
                (marker && true)
                (fragment first is_start true left)
              ∷ [],
          next_seq seq,
        )
  loop_last pos short =
      let sent : fragment_then (length left) true
          ≡ some (
            build_rtp_packet payload_type seq ts ssrc (marker && true)
                  (fragment first is_start true left)
                ∷ [],
            next_seq seq,
          ) =
        rw
          (
            drop_all left,
            loop_nil payload_type ts ssrc marker false fuel first (next_seq seq),
            take_all left,
          )
          refl in
      loop_cut (length left) true pos (omega arith) (ground arith) ∙ sent

module _ (payload_type ts ssrc : ℕ) (marker : Bool) (hp : payload_type < 2 ^ 7)
    (ht : ts < 2 ^ 32) where
  -- One packet more at the front.
  sent_packet :
      (d d' e : H264RtpDepacketizer) (units more : List (List ℕ)) (seq : ℕ) (mark : Bool)
      (payload : List ℕ) (rest : Option (List (List ℕ) × ℕ))
      → seq < 2 ^ 16
      → 0 < length payload
      → accept (push d payload) ≡ some (units, d')
      → depacketize_sent d' rest ≡ some (more, e)
      → depacketize_sent d
          (with_packet (build_rtp_packet payload_type seq ts ssrc mark payload) rest)
        ≡ some (units ++ more, e)
  unfolding depacketize_sent
  sent_packet d d' e units more seq mark payload none hs pos taken h = ground arith
  sent_packet d d' e units more seq mark payload (some (packets, last)) hs pos taken h =
      depacketize_built d d' units payload_type seq ts ssrc mark payload packets hp hs ht pos taken
        more e h

  -- A packet of the loop, to a depacketizer that makes `grown piece` of a fragment with `piece`.
  module _ (d : H264RtpDepacketizer) (first : ℕ) (is_start : Bool) (grown : List ℕ → List ℕ)
      (taken : (is_end : Bool) (piece : List ℕ)
        → push d (fragment first is_start is_end piece) ≡ (
            if is_end
            then (ok (some (grown piece)), record { fu_buffer = none })
            else (ok none, record { fu_buffer = some (grown piece) })))
      (fuel seq : ℕ) (left : List ℕ) (hs : seq < 2 ^ 16) where
    sent_last :
        0 < length left
        → length left ≤ 1198
        → depacketize_sent d
            (fragment_loop payload_type ts ssrc marker (suc fuel) first seq is_start left)
          ≡ some (grown left ∷ [], record { fu_buffer = none })
    unfolding depacketize_sent depacketize
    sent_last pos short =
        rw (loop_last payload_type ts ssrc marker is_start fuel first seq left pos short) (
          depacketize_built d (record { fu_buffer = none }) (grown left ∷ []) payload_type seq ts
            ssrc (marker && true) (fragment first is_start true left) [] hp hs ht
            (fragment_pos first is_start true left) (ap accept (taken true left)) []
            (record { fu_buffer = none }) refl)

    sent_more :
        (e : H264RtpDepacketizer) (units : List (List ℕ))
        → 1198 < length left
        → depacketize_sent
            (record { fu_buffer = some (grown (take 1198 left)) })
            (fragment_loop payload_type ts ssrc marker fuel first
              (next_seq seq)
              false
              (drop 1198 left))
          ≡ some (units, e)
        → depacketize_sent d
            (fragment_loop payload_type ts ssrc marker (suc fuel) first seq is_start left)
          ≡ some (units, e)
    sent_more e units long h =
        rw
          (loop_cut payload_type ts ssrc marker is_start fuel first seq left 1198 false
            (omega arith) (omega arith) (not_leb (length left) 1198 long))
          (sent_packet d (record { fu_buffer = some (grown (take 1198 left)) }) e [] units seq
            (marker && false) (fragment first is_start false (take 1198 left))
            (fragment_loop payload_type ts ssrc marker fuel first (next_seq seq) false
              (drop 1198 left))
            hs (fragment_pos first is_start false (take 1198 left))
            (ap accept (taken false (take 1198 left))) h)

  -- The fragments after the first grow the buffer to the whole unit.
  sent_rest :
      (fuel first seq : ℕ) (left buffer : List ℕ)
      → seq < 2 ^ 16
      → 0 < length left
      → length left ≤ fuel
      → depacketize_sent
          (record { fu_buffer = some buffer })
          (fragment_loop payload_type ts ssrc marker fuel first seq false left)
        ≡ some ((buffer ++ left) ∷ [], record { fu_buffer = none })
  sent_rest zero first seq left buffer hs pos enough = ground arith
  sent_rest (suc fuel) first seq left buffer hs pos enough =
      let taken : (is_end : Bool) (piece : List ℕ)
          → push (record { fu_buffer = some buffer }) (fragment first false is_end piece) ≡ (
              if is_end
              then (ok (some (buffer ++ piece)), record { fu_buffer = none })
              else (ok none, record { fu_buffer = some (buffer ++ piece) })) =
        λ is_end piece.
          push-fragment (record { fu_buffer = some buffer }) first false is_end piece
          ∙ push_later buffer first is_end piece in
      let d : H264RtpDepacketizer = record { fu_buffer = some buffer } in
      elim (le_or_lt (length left) 1198) [
        | inl short ↦
            sent_last d first false (λ piece. buffer ++ piece) taken fuel seq left hs pos short
        | inr long ↦
            sent_more d first false (λ piece. buffer ++ piece) taken fuel seq left hs
              (record { fu_buffer = none }) ((buffer ++ left) ∷ []) long
              (subst
                (λ unit.
                  depacketize_sent (record { fu_buffer = some (buffer ++ take 1198 left) })
                    (fragment_loop payload_type ts ssrc marker fuel first (next_seq seq) false
                      (drop 1198 left))
                  ≡ some (unit ∷ [], record { fu_buffer = none }))
                (rejoin 1198 buffer left)
                (sent_rest fuel first (next_seq seq) (drop 1198 left) (buffer ++ take 1198 left)
                  (omega arith) (omega (arith, length-drop 1198 left))
                  (omega (arith, length-drop 1198 left))))
      ]

  sent_start :
      (d : H264RtpDepacketizer) (fuel first seq : ℕ) (left : List ℕ)
      → first < 2 ^ 7
      → seq < 2 ^ 16
      → 0 < length left
      → length left ≤ fuel
      → depacketize_sent d (fragment_loop payload_type ts ssrc marker fuel first seq true left)
        ≡ some ((start_code ++ (first ∷ left)) ∷ [], record { fu_buffer = none })
  sent_start d zero first seq left hf hs pos enough = ground arith
  sent_start d (suc fuel) first seq left hf hs pos enough =
      let grown : List ℕ → List ℕ = λ piece. start_code ++ (first ∷ piece) in
      let taken : (is_end : Bool) (piece : List ℕ)
          → push d (fragment first true is_end piece) ≡ (
              if is_end
              then (ok (some (grown piece)), record { fu_buffer = none })
              else (ok none, record { fu_buffer = some (grown piece) })) =
        λ is_end piece.
          push-fragment d first true is_end piece ∙ push_start d first is_end piece hf in
      elim (le_or_lt (length left) 1198) [
        | inl short ↦ sent_last d first true grown taken fuel seq left hs pos short
        | inr long ↦
            sent_more d first true grown taken fuel seq left hs (record { fu_buffer = none })
              ((start_code ++ (first ∷ left)) ∷ []) long
              (subst
                (λ unit.
                  depacketize_sent (record { fu_buffer = some (grown (take 1198 left)) })
                    (fragment_loop payload_type ts ssrc marker fuel first (next_seq seq) false
                      (drop 1198 left))
                  ≡ some (unit ∷ [], record { fu_buffer = none }))
                (rejoin 1198 (start_code ++ (first ∷ [])) left)
                (sent_rest fuel first (next_seq seq) (drop 1198 left) (grown (take 1198 left))
                  (omega arith) (omega (arith, length-drop 1198 left))
                  (omega (arith, length-drop 1198 left))))
      ]

  -- A NAL unit of type 1 to 23 with its F bit clear, cut into RTP packets with enough fuel for a byte
  -- per fragment, is given out once and whole behind a start code, whatever the depacketizer held. A
  -- unit of one packet leaves the depacketizer as it was, a longer one leaves it empty.
  pub depacketize_sent-packetize :
      (d : H264RtpDepacketizer) (fuel first seq : ℕ) (rest : List ℕ)
      → first < 2 ^ 7
      → 1 ≤ first % 2 ^ 5
      → first % 2 ^ 5 ≤ 23
      → seq < 2 ^ 16
      → length rest ≤ fuel
      → depacketize_sent d
          (packetize_h264_nal_for_rtp payload_type ts ssrc marker fuel (first ∷ rest) seq)
        ≡ some (
          (start_code ++ (first ∷ rest)) ∷ [],
          (if leb (suc (length rest)) 1200 then d else record { fu_buffer = none }),
        )
  unfolding packetize_h264_nal_for_rtp depacketize_sent depacketize
  depacketize_sent-packetize d fuel first seq rest hf low high hs enough =
      elim (le_or_lt (suc (length rest)) 1200) [
        | inl short ↦
            let fits : leb (suc (length rest)) 1200 ≡ true =
              le→leb (suc (length rest)) 1200 short in
            rw fits (
              depacketize_built d d ((start_code ++ (first ∷ rest)) ∷ []) payload_type seq ts ssrc
                marker (first ∷ rest) [] hp hs ht (omega arith)
                (ap accept (push_whole d first rest low high)) [] d refl)
        | inr long ↦
            let cut : leb (suc (length rest)) 1200 ≡ false =
              not_leb (suc (length rest)) 1200 long in
            rw cut (sent_start d fuel first seq rest hf hs (omega arith) enough)
      ]
