-- ===== src/Hls/Packets.antt =====
-- Transport stream packets of src/server/hls/ts_muxer.rs: `pes_to_ts_packets` and `ts_packet`. The source
-- fills a packet of 188 bytes, all 0xFF, by positions; here its bytes stand in their order. A continuity
-- counter is below 16, so `0x30 | cc` is a sum. The loops run on fuel; `none`: it was used up.
use vcp_media_server.Prelude.{
  ℕ, zero, suc, ◌+◌, ◌-◌, ◌/◌, ◌%◌, ◌^◌, min, Bool, true, false, ◌&&◌, Option, none, some, List, [],
  ◌∷◌, ◌++◌, ltb, ◌==◌, if◌then◌else◌, length, take, drop,
}
use vcp_media_server.Hls.Pes.{write_pcr}

abbrev pub ts_packet_size : ℕ
ts_packet_size = 188

abbrev pub sync_byte : ℕ
sync_byte = 0x47

abbrev pub pat_pid : ℕ
pat_pid = 0x0000

abbrev pub pmt_pid : ℕ
pmt_pid = 0x1000

abbrev pub video_pid : ℕ
video_pid = 0x100

abbrev pub audio_pid : ℕ
audio_pid = 0x101

abbrev pub af_discontinuity : ℕ
af_discontinuity = 0x80

abbrev pub af_pcr : ℕ
af_pcr = 0x10

-- What is left of the 0xFF that the packet is made of.
abbrev pub filler : ℕ → List ℕ
filler zero = []
filler (suc n) = 0xFF ∷ filler n

abbrev pub zeros : ℕ → List ℕ
zeros zero = []
zeros (suc n) = 0 ∷ zeros n

-- Bytes 1 and 2: the packet identifier and the payload unit start indicator.
abbrev pub pid_bytes : ℕ → Bool → List ℕ → List ℕ
pid_bytes pid unit_start rest =
    (pid / 2 ^ 8 % 2 ^ 5 + (if unit_start then 0x40 else 0)) ∷ pid % 2 ^ 8 ∷ rest

-- `(cc_val + 1) & 0x0F`
abbrev pub next_cc : ℕ → ℕ
next_cc cc = (cc + 1) % 2 ^ 4

-- `write_adaptation_prefix` from byte 3 on, at the one call with a program clock.
unfoldable pub write_adaptation_prefix : ℕ → Bool → ℕ → List ℕ
write_adaptation_prefix cc_val discontinuity pcr =
    (0x30 + cc_val) ∷ 7 ∷ ((if discontinuity then af_discontinuity else 0) + af_pcr) ∷ write_pcr pcr

-- Bytes 3 on of a packet with a payload and an adaptation field of `stuffing` bytes.
unfoldable pub stuffed : ℕ → ℕ → List ℕ → List ℕ
stuffed cc_val zero payload = (0x10 + cc_val) ∷ payload
stuffed cc_val (suc zero) payload = (0x30 + cc_val) ∷ 0 ∷ payload
stuffed cc_val (suc (suc n)) payload = (0x30 + cc_val) ∷ suc n ∷ 0x00 ∷ (filler n ++ payload)

-- One packet for the front of `left`.
unfoldable pub first_video_packet : ℕ → ℕ → ℕ → List ℕ → List ℕ
first_video_packet pid cc_val pcr_clock left =
    let copy_len = min (length left) 176 in
    sync_byte
    ∷ pid_bytes pid true (
        write_adaptation_prefix cc_val false pcr_clock
        ++ (take copy_len left ++ filler (176 - copy_len)))

unfoldable pub plain_packet : ℕ → Bool → ℕ → List ℕ → List ℕ
plain_packet pid first cc_val left =
    let copy_len = min (length left) 184 in
    sync_byte ∷ pid_bytes pid first (stuffed cc_val (184 - copy_len) (take copy_len left))

abbrev pub with_bytes : List ℕ → Option (List ℕ × ℕ) → Option (List ℕ × ℕ)
with_bytes packet none = none
with_bytes packet (some (output, cc)) = some (packet ++ output, cc)

module _ (pid : ℕ) (is_video : Bool) (pcr_clock : ℕ) where
  unfoldable pub pes_packet : Bool → ℕ → List ℕ → List ℕ
  pes_packet first cc_val left =
      if first && is_video
      then first_video_packet pid cc_val pcr_clock left
      else plain_packet pid first cc_val left

  -- What `pes_packet` leaves of `left`.
  abbrev pub pes_room : Bool → ℕ
  pes_room first = if first && is_video then 176 else 184

  -- The packets and the continuity counter behind them.
  unfoldable pub pes_loop : ℕ → Bool → ℕ → List ℕ → Option (List ℕ × ℕ)
  pes_loop zero first cc left = if length left == 0 then some ([], cc) else none
  pes_loop (suc fuel) first cc left =
      let rest =
        pes_loop fuel false (next_cc cc) (drop (min (length left) (pes_room first)) left) in
      if length left == 0 then some ([], cc) else with_bytes (pes_packet first cc left) rest

  unfoldable pub pes_to_ts_packets : ℕ → List ℕ → ℕ → Option (List ℕ × ℕ)
  pes_to_ts_packets fuel pes cc = pes_loop fuel true cc pes

-- Bytes 3 on of a packet of `ts_packet`, and how many payload bytes it takes: `stuffing` is at least two
-- where a discontinuity is signalled.
abbrev pub psi_stuffing : Bool → List ℕ → ℕ
psi_stuffing discontinuity left =
    let stuffing = 184 - min 184 (length left) in
    if discontinuity && ltb stuffing 2 then 2 else stuffing

unfoldable pub psi_body : Bool → ℕ → ℕ → List ℕ → List ℕ
psi_body discontinuity cc_val zero payload = (0x10 + cc_val) ∷ payload
psi_body discontinuity cc_val (suc zero) payload = (0x30 + cc_val) ∷ 0 ∷ payload
psi_body discontinuity cc_val (suc (suc n)) payload =
    (0x30 + cc_val)
    ∷ suc n
    ∷ (if discontinuity then af_discontinuity else 0x00)
    ∷ (filler n ++ payload)

module _ (pid : ℕ) (payload_start : Bool) (discontinuity : Bool) where
  unfoldable pub ts_loop : ℕ → Bool → ℕ → List ℕ → Option (List ℕ × ℕ)
  ts_loop zero first cc left = if length left == 0 then some ([], cc) else none
  ts_loop (suc fuel) first cc left =
      let stuffing = psi_stuffing (first && discontinuity) left in
      let copy_len = min (length left) (184 - stuffing) in
      let packet =
        sync_byte
        ∷ pid_bytes pid (first && payload_start)
            (psi_body (first && discontinuity) cc stuffing (take copy_len left)) in
      let rest = ts_loop fuel false (next_cc cc) (drop copy_len left) in
      if length left == 0 then some ([], cc) else with_bytes packet rest

  unfoldable pub ts_packet : ℕ → List ℕ → ℕ → Option (List ℕ × ℕ)
  ts_packet fuel [] cc =
      some (sync_byte ∷ pid_bytes pid payload_start ((0x10 + cc) ∷ zeros 184), next_cc cc)
  ts_packet fuel (b ∷ bs) cc = ts_loop fuel true cc (b ∷ bs)
