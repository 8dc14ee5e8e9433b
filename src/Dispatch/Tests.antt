-- ===== src/Dispatch/Tests.antt =====
-- Tests and witnesses for the dispatch readers (src/core/dispatch.rs).
use vcp_media_server.Dispatch.Stuck.{receive_all, idr_at_edge_stops}
use vcp_media_server.H264.AnnexB.{is_keyframe_annex_b}
use vcp_media_server.Prelude.{
  length, All, ℕ, zero, suc, ◌≤◌, ◌≡◌, refl, true, false, none, some, List, [], ◌∷◌, ◌++◌, arith,
  Bool, ◌*◌,
}
use vcp_media_server.Media.{MediaFrame, CodecType, new_frame, with_optional_clock_rate, h264, aac}
use vcp_media_server.FrameRing
use vcp_media_server.FrameRing.{
  FrameRing, StoredFrame, SnapMode, latest_idr, with_capacity, is_playable_video, get, find_seq,
  latest_seq, oldest_seq, frames_from, to_media_frame, snap, latest_idr_seq, append_frame,
  evict_if_needed, new_ring, stored,
}
use vcp_media_server.FrameRing.Invariant.{IsValid}
use vcp_media_server.StreamHub.{
  StreamHub, new_hub, with_stream, publish, reset, get_stored, get_frame, hub_latest_seq,
  hub_oldest_seq, hub_frames_from,
}
use vcp_media_server.Dispatch.Coalesce.{
  is_playable_idr, idr_search, last_playable_idr_seq, non_video,
}
use vcp_media_server.Dispatch.Reader.{
  DispatchReader, DispatchPolicy, live_coalesce, live_sequential,
}
use vcp_media_server.Dispatch.Receive.{nothing, has_data, recv_ready}
use vcp_media_server.Dispatch.Drain.{drain, batches, joined, drain-sequential}
use vcp_media_server.Dispatch.Gap.{gap_unnoticed}
use vcp_media_server.Dispatch.Collapse.{found_frame, last_idr, last_playable_idr_seq_lem}
use vcp_media_server.Dispatch.Resend.{Collapses, resends}
use vcp_media_server.Dispatch.Restart.{publish_all, starves}

abbrev at : ℕ → CodecType → Bool → List ℕ → StoredFrame
at seq codec is_keyframe bytes = record {
  seq = seq;
  stream_id = "live";
  track_id = 0;
  timestamp = 40 * seq;
  clock_rate = none;
  codec = codec;
  is_keyframe = is_keyframe;
  bytes = bytes;
}

-- A ring from the number `seq` on: an IDR, a frame of sound and a slice.
abbrev ring_from : ℕ → FrameRing
ring_from seq = record {
  capacity_frames = 512;
  capacity_bytes = 4096;
  slots =
      at seq h264 true (0x65 ∷ [])
      ∷ at (suc seq) aac false (7 ∷ [])
      ∷ at (suc (suc seq)) h264 false (0x41 ∷ [])
      ∷ [];
  idr_seqs = seq ∷ [];
  gop_starts = seq ∷ [];
  write_seq = suc (suc (suc seq));
  bytes_used = 3;
}

ring_from-IsValid : (seq : ℕ) → IsValid (ring_from seq)
ring_from-IsValid seq = record {
  sorted = (omega arith, (omega arith, (omega arith, omega arith)));
  exact = refl;
  starts = (omega arith, omega arith);
  index = refl;
  keyed = (ground arith, (ground arith, (ground arith, tt)));
}

abbrev hub_from : ℕ → StreamHub
hub_from seq = record (new_hub "live") { ring = ring_from seq }

abbrev reader_at : DispatchPolicy → ℕ → DispatchReader
reader_at policy cursor = record {
  stream_id = "live";
  policy = policy;
  cursor = cursor;
  primed = true;
  pending_muxer_resync = false;
  pending_live_snap = false;
  video_catchup_until = none;
}

all_stored : (n : ℕ) → 0 ≤ n → n ≤ 2 → (f : StoredFrame) × (get_stored (hub_from 0) n ≡ some f)
unfolding get_stored get find_seq
all_stored zero low high = (at 0 h264 true (0x65 ∷ []), refl)
all_stored (suc zero) low high = (at 1 aac false (7 ∷ []), refl)
all_stored (suc (suc zero)) low high = (at 2 h264 false (0x41 ∷ []), refl)
all_stored (suc (suc (suc n))) low high = absurd (omega arith)

drain-sequential_example :
    (drain 1 (hub_from 0) (reader_at live_sequential 0)
      ≡ (hub_frames_from (hub_from 0) 0 2, reader_at live_sequential 3))
    × (joined (batches 1 (hub_from 0) (reader_at live_sequential 0))
        ≡ hub_frames_from (hub_from 0) 0 2)
    × All (λ frames. length frames ≤ 96) (batches 1 (hub_from 0) (reader_at live_sequential 0))
unfolding hub_latest_seq latest_seq
drain-sequential_example =
    drain-sequential 1 (hub_from 0) (reader_at live_sequential 0) refl (ring_from-IsValid 0)
      (omega arith) (omega arith) all_stored (omega arith)

gap_unnoticed_example : recv_ready (hub_from 5) (reader_at live_sequential 2) ≡ record {
  frames = hub_frames_from (hub_from 5) 5 7;
  reader = reader_at live_sequential 8;
  keyframe_requested = false;
}
unfolding hub_latest_seq latest_seq hub_oldest_seq oldest_seq
gap_unnoticed_example =
    gap_unnoticed (hub_from 5) (reader_at live_sequential 2) 5 refl (ring_from-IsValid 5) refl
      (omega arith) (omega arith)

last_playable_idr_seq_lem_example :
    found_frame (hub_from 5) (last_playable_idr_seq (hub_from 5) 4 7)
    ≡ last_idr (hub_frames_from (hub_from 5) 4 7)
last_playable_idr_seq_lem_example = last_playable_idr_seq_lem (hub_from 5) (ring_from-IsValid 5) 4 7

-- The slice of number 1 and the IDR of number 3, with sound behind it.
abbrev burst : StreamHub
burst = record (new_hub "live") {
  ring = record (ring_from 3) {
    slots = at 1 h264 false (0x41 ∷ []) ∷ at 3 h264 true (0x65 ∷ []) ∷ at 4 aac false (7 ∷ []) ∷ [];
    write_seq = 5;
  };
}

burst-IsValid : IsValid burst.ring
burst-IsValid = record {
  sorted = (omega arith, (omega arith, (omega arith, omega arith)));
  exact = refl;
  starts = (omega arith, omega arith);
  index = refl;
  keyed = (ground arith, (ground arith, (ground arith, tt)));
}

burst-Collapses : Collapses burst (reader_at live_coalesce 1) 3
unfolding hub_latest_seq latest_seq hub_frames_from frames_from to_media_frame new_frame
    with_optional_clock_rate is_playable_video last_playable_idr_seq idr_search get_frame get
    find_seq is_playable_idr is_keyframe_annex_b
burst-Collapses = record {
  policy = refl;
  idle = refl;
  here = omega arith;
  several = refl;
  search = refl;
}

resends_example :
    let first = recv_ready burst (reader_at live_coalesce 1) in
    let second = recv_ready burst first.reader in
    (second.frames ≡ hub_frames_from burst 4 4)
    × (idr : MediaFrame) × (get_frame burst 3 ≡ some idr)
    × (is_playable_idr idr ≡ true)
    × (first.frames
        ≡ non_video (hub_frames_from burst 1 3) ++ non_video second.frames ++ (idr ∷ []))
unfolding hub_latest_seq latest_seq
resends_example =
    resends burst (reader_at live_coalesce 1) 3 burst-IsValid (omega arith) burst-Collapses

abbrev slice_frame : MediaFrame
slice_frame = new_frame "live" 0 40 (0x41 ∷ []) false h264

abbrev restarted : StreamHub
restarted = record (reset (hub_from 5)) {
  ring = append_frame new_ring slice_frame;
  seq_tx = 0 ∷ 0 ∷ [];
}

restarted_by : publish_all 1 (reset (hub_from 5)) (slice_frame ∷ []) ≡ some restarted
unfolding publish_all publish reset FrameRing.push evict_if_needed append_frame new_frame new_hub
    with_stream
restarted_by = refl

starves_example :
    (has_data restarted (reader_at live_coalesce 6) ≡ false)
    × (recv_ready restarted (reader_at live_coalesce 6) ≡ nothing (reader_at live_coalesce 6) false)
starves_example =
    starves 1 (hub_from 5) restarted (reader_at live_coalesce 6) (slice_frame ∷ []) restarted_by
      (omega arith) (omega arith)

-- The slice of number 1, and the IDR of number 3 as the newest frame.
abbrev edge : StreamHub
edge = record (new_hub "live") {
  ring = record (ring_from 3) {
    slots = at 1 h264 false (0x41 ∷ []) ∷ at 3 h264 true (0x65 ∷ []) ∷ [];
    write_seq = 4;
  };
}

edge-Collapses : Collapses edge (reader_at live_coalesce 1) (hub_latest_seq edge)
unfolding hub_latest_seq latest_seq hub_frames_from frames_from to_media_frame new_frame
    with_optional_clock_rate is_playable_video last_playable_idr_seq idr_search get_frame get
    find_seq is_playable_idr is_keyframe_annex_b
edge-Collapses = record {
  policy = refl;
  idle = refl;
  here = omega arith;
  several = refl;
  search = refl;
}

idr_at_edge_stops_example :
    receive_all (hub_from 4 ∷ hub_from 70 ∷ []) (recv_ready edge (reader_at live_coalesce 1)).reader
    ≡ ([], (recv_ready edge (reader_at live_coalesce 1)).reader)
idr_at_edge_stops_example =
    idr_at_edge_stops edge (reader_at live_coalesce 1) (hub_from 4 ∷ hub_from 70 ∷ []) (omega arith)
      edge-Collapses
