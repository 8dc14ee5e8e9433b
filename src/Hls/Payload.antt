-- ===== src/Hls/Payload.antt =====
-- What a demuxer reads from the transport stream packets of src/server/hls/ts_muxer.rs (ISO/IEC 13818-1,
-- 2.4.3.2): the payload of each packet of 188 bytes, behind its adaptation field if it has one.
use vcp_media_server.Prelude.{
  ℕ, zero, suc, ◌+◌, ◌-◌, ◌/◌, ◌%◌, ◌^◌, ◌<◌, ◌≡◌, refl, ap, subst, min, Bool, Option, none, some,
  List, [], ◌∷◌, ◌++◌, arith, ◌==◌, if◌then◌else◌, length, take, drop, length-append, length-take,
  take-append_length, drop-append_length,
}
use vcp_media_server.H264.Packet.{nth}
use vcp_media_server.Hls.Pes.{write_pcr}
use vcp_media_server.Hls.Packets.{
  filler, pid_bytes, sync_byte, write_adaptation_prefix, stuffed, first_video_packet, plain_packet,
  with_bytes,
}

-- The payload of one packet.
unfoldable pub ts_payload : List ℕ → List ℕ
ts_payload packet =
    if nth packet 3 / 2 ^ 4 % 4 == 1
    then drop 4 packet
    else if nth packet 3 / 2 ^ 4 % 4 == 3
    then drop (5 + nth packet 4) packet
    else []

-- The payloads of the first `packets` packets, one behind the other.
unfoldable pub demux : ℕ → List ℕ → List ℕ
demux zero bytes = []
demux (suc packets) bytes = ts_payload (take 188 bytes) ++ demux packets (drop 188 bytes)

abbrev pub demuxed : ℕ → Option (List ℕ × ℕ) → Option (List ℕ)
demuxed packets none = none
demuxed packets (some (output, cc)) = some (demux packets output)

pub demux_nil : (packets : ℕ) → demux packets [] ≡ []
unfolding demux ts_payload
demux_nil zero = refl
demux_nil (suc packets) = demux_nil packets

length-filler : (n : ℕ) → length (filler n) ≡ n
length-filler zero = refl
length-filler (suc n) = ap suc (length-filler n)

drop-filler : (n : ℕ) (payload : List ℕ) → drop n (filler n ++ payload) ≡ payload
drop-filler zero payload = refl
drop-filler (suc n) payload = drop-filler n payload

length-stuffed :
    (cc s : ℕ) (payload : List ℕ) → length (stuffed cc s payload) ≡ suc (s + length payload)
unfolding stuffed
length-stuffed cc zero payload = omega arith
length-stuffed cc (suc zero) payload = omega arith
length-stuffed cc (suc (suc n)) payload =
    omega (arith, length-append (filler n) payload, length-filler n)

module _ (pid : ℕ) (first : Bool) (cc : ℕ) (small : cc < 16) where
  ts_payload-stuffed :
      (s : ℕ) (payload : List ℕ)
      → ts_payload (sync_byte ∷ pid_bytes pid first (stuffed cc s payload)) ≡ payload
  unfolding ts_payload stuffed
  ts_payload-stuffed zero payload =
      let afc : (0x10 + cc) / 2 ^ 4 % 4 ≡ 1 = omega arith in rw afc refl
  ts_payload-stuffed (suc zero) payload =
      let afc : (0x30 + cc) / 2 ^ 4 % 4 ≡ 3 = omega arith in rw afc refl
  ts_payload-stuffed (suc (suc n)) payload =
      let afc : (0x30 + cc) / 2 ^ 4 % 4 ≡ 3 = omega arith in
      let behind : 5 + suc n ≡ suc (suc (suc (suc (suc (suc n))))) = omega arith in
      rw (afc, behind) (drop-filler n payload)

  pub ts_payload-plain_packet :
      (left : List ℕ)
      → ts_payload (plain_packet pid first cc left) ≡ take (min (length left) 184) left
  unfolding plain_packet
  ts_payload-plain_packet left =
      ts_payload-stuffed (184 - min (length left) 184) (take (min (length left) 184) left)

  pub length-plain_packet : (left : List ℕ) → length (plain_packet pid first cc left) ≡ 188
  unfolding plain_packet
  length-plain_packet left = omega (
    arith,
    length-stuffed cc (184 - min (length left) 184) (take (min (length left) 184) left),
    length-take (min (length left) 184) left,
  )

  pub ts_payload-first_video_packet :
      (pcr : ℕ) (left : List ℕ)
      → ts_payload (first_video_packet pid cc pcr left)
        ≡ take (min (length left) 176) left ++ filler (176 - min (length left) 176)
  unfolding ts_payload first_video_packet write_adaptation_prefix write_pcr
  ts_payload-first_video_packet pcr left =
      let afc : (0x30 + cc) / 2 ^ 4 % 4 ≡ 3 = omega arith in rw afc refl

  pub length-first_video_packet :
      (pcr : ℕ) (left : List ℕ) → length (first_video_packet pid cc pcr left) ≡ 188
  unfolding first_video_packet write_adaptation_prefix write_pcr
  length-first_video_packet pcr left = omega (
    arith,
    length-append (take (min (length left) 176) left) (filler (176 - min (length left) 176)),
    length-filler (176 - min (length left) 176),
    length-take (min (length left) 176) left,
  )

take_front : (n : ℕ) (p rest : List ℕ) → length p ≡ n → take n (p ++ rest) ≡ p
take_front n p rest e = subst (λ k. take k (p ++ rest) ≡ p) e (take-append_length p rest)

drop_behind : (n : ℕ) (p rest : List ℕ) → length p ≡ n → drop n (p ++ rest) ≡ rest
drop_behind n p rest e = subst (λ k. drop k (p ++ rest) ≡ rest) e (drop-append_length p rest)

-- A packet more at the front.
pub demuxed-with_bytes :
    (packets : ℕ) (p : List ℕ) (rest : Option (List ℕ × ℕ)) (bytes : List ℕ)
    → length p ≡ 188
    → demuxed packets rest ≡ some bytes
    → demuxed (suc packets) (with_bytes p rest) ≡ some (ts_payload p ++ bytes)
unfolding demux
demuxed-with_bytes packets p none bytes e h = ground (arith, h)
demuxed-with_bytes packets p (some (output, cc)) bytes e h =
    rw (take_front 188 p output e, drop_behind 188 p output e)
      (ap (λ o. elim o [ none ↦ none | some read ↦ some (ts_payload p ++ read) ]) h)
