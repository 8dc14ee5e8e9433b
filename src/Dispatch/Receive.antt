-- ===== src/Dispatch/Receive.antt =====
-- `recv_batch` of src/core/dispatch.rs. A call reads the hub in one state; where it waits first, that is the
-- state it wakes up to.
use vcp_media_server.Prelude.{
  ℕ, ◌-◌, min, max, Bool, true, false, not, ◌&&◌, ◌||◌, Option, none, some, List, [], leb, ltb,
  ◌==◌, if◌then◌else◌, length,
}
use vcp_media_server.Prelude.Words.{saturating_add}
use vcp_media_server.Media.{MediaFrame}
use vcp_media_server.FrameRing.{SnapMode}
use vcp_media_server.StreamHub.{
  StreamHub, hub_latest_seq, hub_is_empty, hub_snap, hub_frames_from, hub_oldest_seq,
}
use vcp_media_server.Dispatch.Coalesce.{coalesce_flv_batch, last_playable_idr_seq, video_in_batch}
use vcp_media_server.Dispatch.Reader.{
  DispatchReader, DispatchPolicy, live_coalesce, sequential_from_idr, web_rtc_play, live_sequential,
  snap_to_live_edge, begin_video_catchup_after_idr,
}

abbrev pub max_sequential_batch : ℕ
max_sequential_batch = 96

abbrev pub webrtc_lag_snap_threshold : ℕ
webrtc_lag_snap_threshold = 45

abbrev pub live_coalesce_lag_snap_threshold : ℕ
live_coalesce_lag_snap_threshold = 2

-- What a call answers: its frames, the reader, and whether it asks the publisher for a keyframe.
pub record Received : Type 0 where
  pub frames : List MediaFrame
  pub reader : DispatchReader
  pub keyframe_requested : Bool

abbrev pub nothing : DispatchReader → Bool → Received
nothing r requested = record { frames = []; reader = r; keyframe_requested = requested }

-- `latest.min(cursor.saturating_add(MAX_SEQUENTIAL_BATCH.saturating_sub(1)))`
abbrev pub sequential_end : ℕ → ℕ → ℕ
sequential_end latest cursor = min latest (saturating_add cursor (max_sequential_batch - 1))

unfoldable pub batch_end : DispatchPolicy → ℕ → ℕ → ℕ
batch_end sequential_from_idr latest cursor = sequential_end latest cursor
batch_end live_sequential latest cursor = sequential_end latest cursor
batch_end live_coalesce latest cursor = latest
batch_end web_rtc_play latest cursor = cursor

-- The frames of a catch-up behind an IDR, up to `until`.
unfoldable pub recv_catchup : StreamHub → DispatchReader → ℕ → Received
recv_catchup hub r until =
    let latest = hub_latest_seq hub in
    let end = min latest until in
    let frames = hub_frames_from hub r.cursor end in
    let cursor = saturating_add end 1 in
    if ltb latest r.cursor || length frames == 0 then nothing r false else record {
      frames = frames;
      reader = record r {
        cursor = cursor;
        video_catchup_until = if ltb until cursor then none else r.video_catchup_until;
      };
      keyframe_requested = false;
    }

-- The jump over a gap: the reader has a cursor below the ring's oldest frame.
unfoldable pub recv_gap : StreamHub → DispatchReader → ℕ → Received
recv_gap hub r oldest =
    let latest = hub_latest_seq hub in
    let cursor = max (hub_snap hub SnapMode.latest_idr) oldest in
    let jumped = record r { pending_muxer_resync = true; cursor = cursor } in
    let end = sequential_end latest cursor in
    let retry = hub_frames_from hub cursor end in
    if leb cursor latest && not (length retry == 0)
    then record {
      frames = retry;
      reader = record jumped { cursor = saturating_add end 1 };
      keyframe_requested = true;
    }
    else nothing jumped true

-- A batch with no frame.
unfoldable pub recv_empty : StreamHub → DispatchReader → Bool → Received
recv_empty hub r requested = elim (hub_oldest_seq hub) [
  | none ↦ nothing r requested
  | some oldest ↦ if ltb r.cursor oldest then recv_gap hub r oldest else nothing r requested
]

-- A batch that collapsed several video frames.
unfoldable pub recv_collapsed : StreamHub → DispatchReader → List MediaFrame → ℕ → Bool → Received
recv_collapsed hub r frames end requested = elim (last_playable_idr_seq hub r.cursor end) [
  | none ↦ record {
    frames = coalesce_flv_batch frames;
    reader = record r { cursor = saturating_add end 1 };
    keyframe_requested = true;
  }
  | some idr_seq ↦ record {
    frames = coalesce_flv_batch frames;
    reader = begin_video_catchup_after_idr r idr_seq end;
    keyframe_requested = requested;
  }
]

abbrev pub is_coalescing : DispatchPolicy → Bool
is_coalescing live_coalesce = true
is_coalescing web_rtc_play = true
is_coalescing _ = false

abbrev pub is_live_coalesce : DispatchPolicy → Bool
is_live_coalesce live_coalesce = true
is_live_coalesce _ = false

unfoldable pub recv_frames : StreamHub → DispatchReader → List MediaFrame → ℕ → Bool → Received
recv_frames hub r frames end requested =
    if is_live_coalesce r.policy && ltb 1 (length (video_in_batch frames))
    then recv_collapsed hub r frames end requested
    else record {
      frames = if is_coalescing r.policy then coalesce_flv_batch frames else frames;
      reader = record r { cursor = saturating_add end 1 };
      keyframe_requested = requested;
    }

-- From `batch_end` on.
unfoldable pub recv_range : StreamHub → DispatchReader → Bool → Received
recv_range hub r requested =
    let latest = hub_latest_seq hub in
    let end = batch_end r.policy latest r.cursor in
    let frames = hub_frames_from hub r.cursor end in
    if ltb latest r.cursor
    then nothing r requested
    else if length frames == 0
    then recv_empty hub r requested
    else recv_frames hub r frames end requested

unfoldable pub recv_lagging : StreamHub → DispatchReader → Received
recv_lagging hub r =
    let lag = hub_latest_seq hub - r.cursor in
    elim r.policy [
      | live_coalesce ↦ recv_range hub r (ltb live_coalesce_lag_snap_threshold lag)
      | web_rtc_play ↦
          if ltb webrtc_lag_snap_threshold lag
          then recv_range hub (snap_to_live_edge hub (record r { pending_live_snap = true })) true
          else recv_range hub r false
      | _ ↦ recv_range hub r false
    ]

-- The call from `ensure_data` on.
unfoldable pub recv_ready : StreamHub → DispatchReader → Received
recv_ready hub r =
    let plain = recv_lagging hub r in
    if is_live_coalesce r.policy
    then elim r.video_catchup_until [ none ↦ plain | some until ↦ recv_catchup hub r until ]
    else plain

-- `ensure_data` returns without waiting.
unfoldable pub has_data : StreamHub → DispatchReader → Bool
has_data hub r = not (hub_is_empty hub) && leb r.cursor (hub_latest_seq hub)

-- `none`: the channel is closed. `woken` is the hub's state when the wait is over.
unfoldable pub recv_batch : StreamHub → Option StreamHub → DispatchReader → Option Received
recv_batch hub woken r =
    if has_data hub r
    then some (recv_ready hub r)
    else elim woken [ none ↦ none | some later ↦ some (recv_ready later r) ]

-- `recv_live_edge_batch`: the cursor, the latest number and the frames between them.
unfoldable pub recv_live_edge_batch :
    StreamHub → Option StreamHub → DispatchReader → Option (ℕ × ℕ × List MediaFrame)
recv_live_edge_batch hub woken r =
    let edge : StreamHub → ℕ × ℕ × List MediaFrame = λ h. (
      r.cursor,
      hub_latest_seq h,
      (if ltb (hub_latest_seq h) r.cursor
          then []
          else hub_frames_from h r.cursor (hub_latest_seq h)),
    ) in
    if has_data hub r
    then some (edge hub)
    else elim woken [ none ↦ none | some later ↦ some (edge later) ]
