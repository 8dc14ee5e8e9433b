-- ===== src/Dispatch/Reader.antt =====
-- `DispatchReader` of src/core/dispatch.rs: its state and the operations on its cursor. The hub is an
-- argument of the operations that read it, and the channel that wakes a reader is the runtime's.
use vcp_media_server.Prelude.{
  ℕ, ◌-◌, String, Bool, true, false, ◌&&◌, Option, none, some, leb, ltb, if◌then◌else◌, keep, last?,
}
use vcp_media_server.Prelude.Words.{saturating_add}
use vcp_media_server.Timestamp.{media_frame_timestamp_delta_ms}
use vcp_media_server.FrameRing.{SnapMode, is_playable_video}
use vcp_media_server.StreamHub.{StreamHub, get_frame, hub_latest_seq, hub_snap, hub_frames_from}

pub data DispatchPolicy : Type 0 where
  live_coalesce sequential_from_idr web_rtc_play live_sequential : DispatchPolicy

pub record DispatchReader : Type 0 where
  pub stream_id : String
  pub policy : DispatchPolicy
  pub cursor : ℕ
  pub primed : Bool
  pub pending_muxer_resync : Bool
  pub pending_live_snap : Bool
  pub video_catchup_until : Option ℕ

abbrev pub prime_existing_idr_max_lag : ℕ
prime_existing_idr_max_lag = 30

abbrev pub prime_existing_idr_max_media_lag_ms : ℕ
prime_existing_idr_max_media_lag_ms = 1000

abbrev pub first_cursor : StreamHub → DispatchPolicy → ℕ
first_cursor hub sequential_from_idr = hub_snap hub SnapMode.latest_idr
first_cursor hub _ = saturating_add (hub_snap hub SnapMode.live_edge) 1

unfoldable pub new_reader : StreamHub → DispatchPolicy → DispatchReader
new_reader hub policy = record {
  stream_id = hub.stream_id;
  policy = policy;
  cursor = first_cursor hub policy;
  primed = false;
  pending_muxer_resync = false;
  pending_live_snap = false;
  video_catchup_until = none;
}

unfoldable pub begin_video_catchup_after_idr : DispatchReader → ℕ → ℕ → DispatchReader
begin_video_catchup_after_idr r idr_seq batch_end = record r {
  video_catchup_until = some batch_end;
  cursor = saturating_add idr_seq 1;
}

unfoldable pub clear_video_catchup : DispatchReader → DispatchReader
clear_video_catchup r = record r { video_catchup_until = none }

unfoldable pub set_cursor : DispatchReader → ℕ → DispatchReader
set_cursor r cursor = record r { cursor = cursor }

unfoldable pub advance_cursor : DispatchReader → DispatchReader
advance_cursor r = record r { cursor = saturating_add r.cursor 1 }

unfoldable pub snap_to_live_edge : StreamHub → DispatchReader → DispatchReader
snap_to_live_edge hub r = record r {
  video_catchup_until = none;
  cursor = saturating_add (hub_snap hub SnapMode.live_edge) 1;
}

unfoldable pub snap_to_latest_idr : StreamHub → DispatchReader → DispatchReader
snap_to_latest_idr hub r = record r { cursor = hub_snap hub SnapMode.latest_idr }

-- `recover_lag` snaps; its hint is only logged.
unfoldable pub recover_lag : StreamHub → DispatchReader → DispatchReader
recover_lag hub r = snap_to_live_edge hub r

unfoldable pub finish_prime : StreamHub → DispatchReader → DispatchReader
finish_prime hub r = elim r.policy [
  | sequential_from_idr ↦ snap_to_latest_idr hub r
  | _ ↦ snap_to_live_edge hub r
]

unfoldable pub take_muxer_resync : DispatchReader → Bool × DispatchReader
take_muxer_resync r = (r.pending_muxer_resync, record r { pending_muxer_resync = false })

unfoldable pub take_live_snap : DispatchReader → Bool × DispatchReader
take_live_snap r = (r.pending_live_snap, record r { pending_live_snap = false })

unfoldable pub media_lag_from_seq_ms : StreamHub → ℕ → Option ℕ
media_lag_from_seq_ms hub from_seq =
    let latest = hub_latest_seq hub in
    if ltb latest from_seq then some 0 else elim (get_frame hub from_seq) [
      | none ↦ none
      | some from_frame ↦
          elim (last? (keep is_playable_video (hub_frames_from hub from_seq latest))) [
            | none ↦ none
            | some latest_video ↦ some (media_frame_timestamp_delta_ms from_frame latest_video)
          ]
    ]

unfoldable pub cursor_media_lag_ms : StreamHub → DispatchReader → Option ℕ
cursor_media_lag_ms hub r = media_lag_from_seq_ms hub r.cursor

-- `map(..).unwrap_or(true)`
abbrev pub media_close : Option ℕ → Bool
media_close none = true
media_close (some lag) = leb lag prime_existing_idr_max_media_lag_ms

unfoldable pub idr_is_close_to_live : StreamHub → ℕ → Bool
idr_is_close_to_live hub idr_seq =
    leb (hub_latest_seq hub - idr_seq) prime_existing_idr_max_lag
    && media_close (media_lag_from_seq_ms hub idr_seq)
