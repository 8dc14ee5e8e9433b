-- ===== src/Dispatch/Gap.antt =====
-- A sequential reader of src/core/dispatch.rs whose next frame the ring has evicted.
use vcp_media_server.Prelude.{
  ℕ, ◌≤◌, ◌<◌, ◌^◌, ◌≡◌, refl, ◌∙◌, max, true, false, some, List, [], ◌∷◌, arith, ◌==◌, length,
}
use vcp_media_server.Media.{MediaFrame}
use vcp_media_server.FrameRing.{SnapMode, latest_seq}
use vcp_media_server.FrameRing.Invariant.{IsValid}
use vcp_media_server.FrameRing.Window.{
  oldest-frames_from, frames_from_before, frames_from_evicted, frames_from_reversed,
}
use vcp_media_server.StreamHub.{
  StreamHub, hub_latest_seq, hub_oldest_seq, hub_snap, hub_frames_from,
}
use vcp_media_server.Dispatch.Reader.{DispatchReader}
use vcp_media_server.Dispatch.Receive.{
  is_coalescing, sequential_end, recv_ready, recv_range, recv_empty, recv_gap,
}
use vcp_media_server.Dispatch.Drain.{
  next_end, next_reader, recv_ready-sequential, recv_ready-window, batch_end-sequential,
}

pub empty_length : (xs : List MediaFrame) → (length xs == 0) ≡ true → xs ≡ []
empty_length [] h = refl
empty_length (x ∷ xs) h = absurd (ground arith)

-- A sequential reader behind the oldest stored frame, which its next batch still reaches: it gets
-- the frames from the oldest one on, so that the frames between its cursor and the oldest are lost, but
-- it is not marked for a resync and no keyframe is asked for.
pub gap_unnoticed :
    (hub : StreamHub) (r : DispatchReader) (oldest : ℕ)
    → is_coalescing r.policy ≡ false
    → IsValid hub.ring
    → hub_oldest_seq hub ≡ some oldest
    → r.cursor < oldest
    → oldest ≤ next_end hub r
    → recv_ready hub r ≡ record {
      frames = hub_frames_from hub oldest (next_end hub r);
      reader = next_reader hub r;
      keyframe_requested = false;
    }
unfolding hub_oldest_seq hub_frames_from
gap_unnoticed hub r oldest p v o behind reached =
    recv_ready-window hub r p (omega arith) (
      ground (
        arith,
        oldest-frames_from hub.ring r.cursor (next_end hub r) oldest o (omega arith) reached,
      ))
    ∙ ground (arith, frames_from_before hub.ring r.cursor oldest (next_end hub r) v o behind)

recv_ready-gap :
    (hub : StreamHub) (r : DispatchReader) (oldest : ℕ)
    → is_coalescing r.policy ≡ false
    → IsValid hub.ring
    → hub_oldest_seq hub ≡ some oldest
    → r.cursor < oldest
    → next_end hub r < oldest
    → r.cursor ≤ hub_latest_seq hub
    → recv_ready hub r ≡ recv_gap hub r oldest
unfolding hub_frames_from recv_range recv_empty hub_oldest_seq
recv_ready-gap hub r oldest p v o below behind le =
    recv_ready-sequential hub r p
    ∙ rw (batch_end-sequential r.policy (hub_latest_seq hub) r.cursor p)
        (ground (arith, frames_from_evicted hub.ring r.cursor (next_end hub r) oldest v o behind))

-- Where the jump over a gap ends.
abbrev pub target : StreamHub → ℕ → ℕ
target hub oldest = max (hub_snap hub SnapMode.latest_idr) oldest

jumped_frames :
    (hub : StreamHub) (r : DispatchReader) (oldest : ℕ)
    → (recv_gap hub r oldest).frames
      ≡ hub_frames_from hub
          (target hub oldest)
          (sequential_end (hub_latest_seq hub) (target hub oldest))
unfolding recv_gap hub_frames_from
jumped_frames hub r oldest = ground (
  arith,
  empty_length (
      hub_frames_from hub (target hub oldest)
        (sequential_end (hub_latest_seq hub) (target hub oldest))),
  frames_from_reversed hub.ring (target hub oldest)
      (sequential_end (hub_latest_seq hub) (target hub oldest)),
)

jumped_reader :
    (hub : StreamHub) (r : DispatchReader) (oldest : ℕ)
    → hub.ring.write_seq < 2 ^ 64
    → let got = recv_gap hub r oldest in
      (got.reader.pending_muxer_resync ≡ true)
      × (got.keyframe_requested ≡ true)
      × (oldest ≤ got.reader.cursor)
unfolding recv_gap hub_latest_seq latest_seq
jumped_reader hub r oldest bound = ground arith

-- A sequential reader whose whole next batch lies before the oldest stored frame jumps: to the latest IDR
-- or to the oldest frame, whichever is later. It is marked for a resync, a keyframe is asked for, and the frames from the
-- place it jumped to come with the same call, if there are any.
gap_noticed :
    (hub : StreamHub) (r : DispatchReader) (oldest : ℕ)
    → is_coalescing r.policy ≡ false
    → IsValid hub.ring
    → hub.ring.write_seq < 2 ^ 64
    → hub_oldest_seq hub ≡ some oldest
    → r.cursor < oldest
    → next_end hub r < oldest
    → r.cursor ≤ hub_latest_seq hub
    → let got = recv_ready hub r in
      (got.frames
        ≡ hub_frames_from hub
            (target hub oldest)
            (sequential_end (hub_latest_seq hub) (target hub oldest)))
      × (got.reader.pending_muxer_resync ≡ true)
      × (got.keyframe_requested ≡ true)
      × (oldest ≤ got.reader.cursor)
gap_noticed hub r oldest p v bound o below behind le =
    let (resync, asked, beyond) = jumped_reader hub r oldest bound in
    rw (recv_ready-gap hub r oldest p v o below behind le)
      (jumped_frames hub r oldest, resync, asked, beyond)
