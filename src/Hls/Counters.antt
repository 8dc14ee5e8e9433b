-- ===== src/Hls/Counters.antt =====
-- The continuity counters of `TsMuxer` (src/server/hls/ts_muxer.rs): every operation ends, and keeps them
-- in their four bits.
use vcp_media_server.Prelude.{
  ℕ, zero, suc, ◌-◌, ◌≤◌, ◌<◌, ◌≡◌, refl, ◌∙◌, ap, min, Bool, true, false, ◌&&◌, Option, some, List,
  [], ◌∷◌, ◌++◌, arith, ◌==◌, length, drop, take, length-drop, inl, inr, Bool-cases,
}
use vcp_media_server.Media.{MediaFrame, is_video}
use vcp_media_server.Hls.Packets.{
  pes_room, pes_loop, pes_packet, pes_to_ts_packets, next_cc, with_bytes, pat_pid, pmt_pid,
  psi_stuffing, psi_body, ts_loop, ts_packet, sync_byte, pid_bytes,
}
use vcp_media_server.Hls.TsMuxer.{
  TsMuxer, counter_of, set_counter, checked, pat_section, pmt_section, frame_to_ts, frame_pes,
  frame_payload, frame_pid, generate_pat, generate_pmt, generate_pat_pmt,
}

pub record IsValid (m : TsMuxer) : Type 0 where
  pub video : m.continuity_counter_video < 16
  pub audio : m.continuity_counter_audio < 16
  pub pat : m.continuity_counter_pat < 16
  pub pmt : m.continuity_counter_pmt < 16

-- A loop's result with a counter of four bits.
abbrev Counts : Option (List ℕ × ℕ) → Type 0
Counts r = (output : List ℕ) × (cc : ℕ) × (r ≡ some (output, cc)) × (cc < 16)

with_bytes-Counts :
    (packet : List ℕ) (r : Option (List ℕ × ℕ)) → Counts r → Counts (with_bytes packet r)
with_bytes-Counts packet r (output, cc, e, small) =
    (packet ++ output, cc, ap (with_bytes packet) e, small)

module _ (pid : ℕ) (video : Bool) (pcr : ℕ) where
  room_pos : (first : Bool) → 0 < pes_room pid video pcr first
  room_pos first = ground arith

  pes_loop-Counts :
      (fuel : ℕ) (first : Bool) (cc : ℕ) (left : List ℕ)
      → cc < 16
      → length left ≤ fuel
      → Counts (pes_loop pid video pcr fuel first cc left)
  unfolding pes_loop
  pes_loop-Counts zero first cc [] small enough = ([], cc, refl, small)
  pes_loop-Counts (suc fuel) first cc [] small enough = ([], cc, refl, small)
  pes_loop-Counts zero first cc (b ∷ bs) small enough = ground arith
  pes_loop-Counts (suc fuel) first cc (b ∷ bs) small enough =
      let left : List ℕ = b ∷ bs in
      let n : ℕ = min (length left) (pes_room pid video pcr first) in
      let some_left : length left == 0 ≡ false = ground arith in
      rw some_left (
        with_bytes-Counts (pes_packet pid video pcr first cc left)
          (pes_loop pid video pcr fuel false (next_cc cc) (drop n left))
          (pes_loop-Counts fuel false (next_cc cc) (drop n left) (omega arith)
            (omega (arith, length-drop n left, room_pos first))))

stuffing_short :
    (discontinuity : Bool) (left : List ℕ) → 0 < length left → psi_stuffing discontinuity left < 184
stuffing_short discontinuity left pos = ground arith

module _ (pid : ℕ) (payload_start discontinuity : Bool) where
  ts_loop-Counts :
      (fuel : ℕ) (first : Bool) (cc : ℕ) (left : List ℕ)
      → cc < 16
      → length left ≤ fuel
      → Counts (ts_loop pid payload_start discontinuity fuel first cc left)
  unfolding ts_loop
  ts_loop-Counts zero first cc [] small enough = ([], cc, refl, small)
  ts_loop-Counts (suc fuel) first cc [] small enough = ([], cc, refl, small)
  ts_loop-Counts zero first cc (b ∷ bs) small enough = ground arith
  ts_loop-Counts (suc fuel) first cc (b ∷ bs) small enough =
      let left : List ℕ = b ∷ bs in
      let stuffing : ℕ = psi_stuffing (first && discontinuity) left in
      let n : ℕ = min (length left) (184 - stuffing) in
      let some_left : length left == 0 ≡ false = ground arith in
      rw some_left (
        with_bytes-Counts
          (sync_byte
            ∷ pid_bytes pid (first && payload_start)
                (psi_body (first && discontinuity) cc stuffing (take n left)))
          (ts_loop pid payload_start discontinuity fuel false (next_cc cc) (drop n left))
          (ts_loop-Counts fuel false (next_cc cc) (drop n left) (omega arith) (
            omega (
              arith,
              length-drop n left,
              stuffing_short (first && discontinuity) left (omega arith),
            ))))

  ts_packet-Counts :
      (payload : List ℕ) (cc : ℕ)
      → cc < 16
      → Counts (ts_packet pid payload_start discontinuity (length payload) payload cc)
  unfolding ts_packet
  ts_packet-Counts [] cc small = (_, _, refl, omega arith)
  ts_packet-Counts (b ∷ bs) cc small =
      ts_loop-Counts (length (b ∷ bs)) true cc (b ∷ bs) small (omega arith)

counter_of-small : (video : Bool) (m : TsMuxer) → IsValid m → counter_of video m < 16
counter_of-small true m v = v.video
counter_of-small false m v = v.audio

set_counter-IsValid :
    (video : Bool) (m : TsMuxer) (cc : ℕ) → IsValid m → cc < 16 → IsValid (set_counter video m cc)
set_counter-IsValid true m cc v small = record {
  video = small;
  audio = v.audio;
  pat = v.pat;
  pmt = v.pmt;
}
set_counter-IsValid false m cc v small = record {
  video = v.video;
  audio = small;
  pat = v.pat;
  pmt = v.pmt;
}

-- Muxing a frame ends, whatever the frame, and keeps the counters in their four bits.
frame_to_ts-IsValid :
    (m : TsMuxer) (frame : MediaFrame)
    → IsValid m
    → (output : List ℕ) × (m' : TsMuxer) × (frame_to_ts m frame ≡ some (output, m')) × IsValid m'
unfolding frame_to_ts pes_to_ts_packets
frame_to_ts-IsValid m frame v = elim (Bool-cases (length (frame_payload frame) == 0)) [
  | inl empty ↦ ([], m, rw empty refl, v)
  | inr some_left ↦
      let video : Bool = is_video frame.codec in
      let (output, cc, e, small) =
        pes_loop-Counts (frame_pid frame.codec) video m.pcr_clock
          (length (frame_pes frame (frame_payload frame))) true (counter_of video m)
          (frame_pes frame (frame_payload frame)) (counter_of-small video m v) (omega arith) in
      (
        output,
        set_counter video m cc,
        rw (some_left, e) refl,
        set_counter-IsValid video m cc v small,
      )
]

generate_pat-IsValid :
    (m : TsMuxer)
    → IsValid m
    → (output : List ℕ) × (m' : TsMuxer) × (generate_pat m ≡ some (output, m'))
      × IsValid m'
      × (m'.segment_discontinuity ≡ false)
unfolding generate_pat
generate_pat-IsValid m v =
    let (output, cc, e, small) =
      ts_packet-Counts pat_pid true m.segment_discontinuity (checked pat_section)
        m.continuity_counter_pat v.pat in
    (
      output,
      record m { continuity_counter_pat = cc; segment_discontinuity = false },
      rw (generate_pat, e) refl,
      record { video = v.video; audio = v.audio; pat = small; pmt = v.pmt },
      refl,
    )

generate_pmt-IsValid :
    (m : TsMuxer) (has_video has_audio : Bool)
    → IsValid m
    → (output : List ℕ) × (m' : TsMuxer) × (generate_pmt m has_video has_audio ≡ some (output, m'))
      × IsValid m'
      × (m'.segment_discontinuity ≡ m.segment_discontinuity)
unfolding generate_pmt
generate_pmt-IsValid m has_video has_audio v =
    let (output, cc, e, small) =
      ts_packet-Counts pmt_pid true false (checked (pmt_section has_video has_audio))
        m.continuity_counter_pmt v.pmt in
    (
      output,
      record m { continuity_counter_pmt = cc },
      rw (generate_pmt, e) refl,
      record { video = v.video; audio = v.audio; pat = v.pat; pmt = small },
      refl,
    )

-- The tables in front of a segment are written whatever the muxer, the counters stay in their four bits,
-- and a marked discontinuity is cleared.
generate_pat_pmt-IsValid :
    (m : TsMuxer) (has_video has_audio : Bool)
    → IsValid m
    → (output : List ℕ) × (m' : TsMuxer) × (generate_pat_pmt m has_video has_audio
        ≡ some (output, m'))
      × IsValid m'
      × (m'.segment_discontinuity ≡ false)
unfolding generate_pat_pmt
generate_pat_pmt-IsValid m has_video has_audio v =
    let (pat, m', e, v', cleared) = generate_pat-IsValid m v in
    let (pmt, m'', e', v'', kept) = generate_pmt-IsValid m' has_video has_audio v' in
    (pat ++ pmt, m'', rw (generate_pat_pmt, e, e') refl, v'', kept ∙ cleared)
