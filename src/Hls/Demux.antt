-- ===== src/Hls/Demux.antt =====
-- The transport packets of a PES packet (`pes_to_ts_packets` of src/server/hls/ts_muxer.rs), read back.
use vcp_media_server.Prelude.{
  le_or_lt, take_all, drop_all, ℕ, zero, suc, ◌-◌, ◌≤◌, ◌<◌, ◌≡◌, inl, inr, refl, sym, ap, ◌∙◌, min,
  Bool, true, false, some, List, [], ◌∷◌, ◌++◌, append-nil, arith, ◌==◌, if◌then◌else◌, length,
  take, drop, length-drop, take-append-drop,
}
use vcp_media_server.Hls.Packets.{
  filler, next_cc, first_video_packet, plain_packet, pes_packet, pes_room, pes_loop, with_bytes,
  pes_to_ts_packets,
}
use vcp_media_server.Hls.Payload.{
  demuxed, demux_nil, ts_payload-plain_packet, length-plain_packet, ts_payload-first_video_packet,
  length-first_video_packet, demuxed-with_bytes,
}

module _ (pid : ℕ) (is_video : Bool) (pcr : ℕ) where
  pes_loop_nil :
      (fuel : ℕ) (first : Bool) (cc : ℕ)
      → pes_loop pid is_video pcr fuel first cc [] ≡ some ([], cc)
  unfolding pes_loop
  pes_loop_nil zero first cc = refl
  pes_loop_nil (suc fuel) first cc = refl

  pes_loop_packet :
      (fuel : ℕ) (first : Bool) (cc : ℕ) (left : List ℕ)
      → 0 < length left
      → pes_loop pid is_video pcr (suc fuel) first cc left
        ≡ with_bytes (pes_packet pid is_video pcr first cc left) (
            pes_loop pid is_video pcr fuel false
              (next_cc cc)
              (drop (min (length left) (pes_room pid is_video pcr first)) left))
  unfolding pes_loop
  pes_loop_packet fuel first cc left pos =
      let some_left : length left == 0 ≡ false = ground arith in rw some_left refl

  -- The packets behind the first give their bytes out again.
  demuxed-pes_loop :
      (fuel cc : ℕ) (left : List ℕ)
      → cc < 16
      → length left ≤ fuel
      → demuxed fuel (pes_loop pid is_video pcr fuel false cc left) ≡ some left
  unfolding pes_packet
  demuxed-pes_loop fuel cc [] small enough = rw (pes_loop_nil fuel false cc, demux_nil fuel) refl
  demuxed-pes_loop zero cc (b ∷ bs) small enough = ground arith
  demuxed-pes_loop (suc fuel) cc (b ∷ bs) small enough =
      let left : List ℕ = b ∷ bs in
      let n : ℕ = min (length left) 184 in
      let rest : demuxed fuel (pes_loop pid is_video pcr fuel false (next_cc cc) (drop n left))
          ≡ some (drop n left) =
        demuxed-pes_loop fuel (next_cc cc) (drop n left) (omega arith)
          (omega (arith, length-drop n left)) in
      let front =
        demuxed-with_bytes fuel (plain_packet pid false cc left)
          (pes_loop pid is_video pcr fuel false (next_cc cc) (drop n left)) (drop n left)
          (length-plain_packet pid false cc small left) rest in
      rw (pes_loop_packet fuel false cc left (omega arith)) (
        front
        ∙ ap some (
            ap (λ xs. xs ++ drop n left) (ts_payload-plain_packet pid false cc small left)
            ∙ take-append-drop n left))

-- A front that is filled up to `room` bytes, and what is behind it.
rejoin :
    (room : ℕ) (pes : List ℕ)
    → (take (min (length pes) room) pes ++ filler (room - min (length pes) room))
        ++ drop (min (length pes) room) pes
      ≡ pes ++ filler (room - length pes)
rejoin room pes = elim (le_or_lt (length pes) room) [
  | inl short ↦
      let n : min (length pes) room ≡ length pes = omega arith in
      rw (n, take_all pes, drop_all pes) (append-nil (pes ++ filler (room - length pes)))
  | inr long ↦
      let n : min (length pes) room ≡ room = omega arith in
      let none_left : room - length pes ≡ 0 = omega arith in
      let full : room - room ≡ 0 = omega arith in
      rw (n, none_left, full, append-nil (take room pes), append-nil pes)
        (take-append-drop room pes)
]

demuxed_audio :
    (pid pcr fuel cc : ℕ) (pes : List ℕ)
    → cc < 16
    → 0 < length pes
    → length pes ≤ fuel
    → demuxed fuel (pes_loop pid false pcr fuel true cc pes) ≡ some pes
unfolding pes_packet
demuxed_audio pid pcr zero cc pes small pos enough = ground arith
demuxed_audio pid pcr (suc fuel) cc pes small pos enough =
    let n : ℕ = min (length pes) 184 in
    let rest =
      demuxed-pes_loop pid false pcr fuel (next_cc cc) (drop n pes) (omega arith)
        (omega (arith, length-drop n pes)) in
    let front =
      demuxed-with_bytes fuel (plain_packet pid true cc pes)
        (pes_loop pid false pcr fuel false (next_cc cc) (drop n pes)) (drop n pes)
        (length-plain_packet pid true cc small pes) rest in
    rw (pes_loop_packet pid false pcr fuel true cc pes pos) (
      front
      ∙ ap some (
          ap (λ xs. xs ++ drop n pes) (ts_payload-plain_packet pid true cc small pes)
          ∙ take-append-drop n pes))

demuxed_video :
    (pid pcr fuel cc : ℕ) (pes : List ℕ)
    → cc < 16
    → 0 < length pes
    → length pes ≤ fuel
    → demuxed fuel (pes_loop pid true pcr fuel true cc pes)
      ≡ some (pes ++ filler (176 - length pes))
unfolding pes_packet
demuxed_video pid pcr zero cc pes small pos enough = ground arith
demuxed_video pid pcr (suc fuel) cc pes small pos enough =
    let n : ℕ = min (length pes) 176 in
    let rest =
      demuxed-pes_loop pid true pcr fuel (next_cc cc) (drop n pes) (omega arith)
        (omega (arith, length-drop n pes)) in
    let front =
      demuxed-with_bytes fuel (first_video_packet pid cc pcr pes)
        (pes_loop pid true pcr fuel false (next_cc cc) (drop n pes)) (drop n pes)
        (length-first_video_packet pid true cc small pcr pes) rest in
    rw (pes_loop_packet pid true pcr fuel true cc pes pos) (
      front
      ∙ ap some (
          ap (λ xs. xs ++ drop n pes) (ts_payload-first_video_packet pid true cc small pcr pes)
          ∙ rejoin 176 pes))

-- What the source puts behind a video PES packet that does not fill its first transport packet.
unfoldable pub padding : Bool → List ℕ → List ℕ
padding is_video pes = if is_video then filler (176 - length pes) else []

-- The transport packets of a PES packet, within as many rounds as it has bytes, give a demuxer its bytes
-- in their order, and behind them, for a video packet of fewer than 176 bytes, the bytes 0xFF that fill
-- the first packet up.
pub demuxed-pes_to_ts_packets :
    (pid : ℕ) (is_video : Bool) (pcr fuel cc : ℕ) (pes : List ℕ)
    → cc < 16
    → 0 < length pes
    → length pes ≤ fuel
    → demuxed fuel (pes_to_ts_packets pid is_video pcr fuel pes cc)
      ≡ some (pes ++ padding is_video pes)
unfolding pes_to_ts_packets padding
demuxed-pes_to_ts_packets pid true pcr fuel cc pes small pos enough =
    demuxed_video pid pcr fuel cc pes small pos enough
demuxed-pes_to_ts_packets pid false pcr fuel cc pes small pos enough =
    demuxed_audio pid pcr fuel cc pes small pos enough ∙ ap some (sym (append-nil pes))
