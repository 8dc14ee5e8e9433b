-- ===== src/StreamManager/FirstFrame.antt =====
-- The start of a session, through src/core/stream_manager.rs, stream_hub.rs, frame_ring.rs and dispatch.rs.
use vcp_media_server.Prelude.{
  ℕ, ◌≤◌, ◌≡◌, refl, ap, ◌∙◌, sym, subst, String, true, false, none, some, [], ◌∷◌, length, arith,
}
use text.Mathlib.TextPositions.{eq_refl}
use vcp_media_server.Media.{MediaFrame, is_video}
use vcp_media_server.FrameRing
use vcp_media_server.FrameRing.{
  FrameRing, SnapMode, new_ring, append_frame, stored, is_video_keyframe, needs_evict,
  evict_if_needed, latest_idr_frame, latest_idr_seq, snap, frames_from, latest_seq, to_media_frame,
  find_seq, default_capacity_bytes,
}
use vcp_media_server.StreamHub.{
  StreamHub, publish, reset, update_stream, latest_idr_bytes, hub_snap, hub_latest_seq,
  hub_frames_from,
}
use vcp_media_server.Dispatch.Reader.{DispatchPolicy, sequential_from_idr, new_reader}
use vcp_media_server.Dispatch.Receive.{recv_ready, is_coalescing}
use vcp_media_server.Dispatch.Drain.{recv_ready-window, next_window}
use vcp_media_server.StreamManager.{
  StreamManager, get_hub, reset_media, started, publish_frame, manager_acquire_publisher,
  get_last_keyframe, dispatch_subscribe, get_or_create_hub,
}
use vcp_media_server.StreamManager.Sessions.{
  held_by_other, fresh, manager_acquire_publisher_lem, publish_frame_lem,
}

-- A frame as the ring gives it back.
abbrev pub delivered : MediaFrame → MediaFrame
delivered f = record f { rtp_data = none }

publish_of_push :
    (fuel : ℕ) (hub : StreamHub) (f : MediaFrame) (seq : ℕ) (ring : FrameRing)
    → FrameRing.push fuel hub.ring f ≡ some (seq, ring)
    → publish fuel hub f ≡ some (seq, record hub { ring = ring; seq_tx = seq ∷ hub.seq_tx })
unfolding publish
publish_of_push fuel hub f seq ring e = rw (publish, e) refl

sequential : (hub : StreamHub) → is_coalescing (new_reader hub sequential_from_idr).policy ≡ false
unfolding new_reader
sequential hub = refl

module _ (f : MediaFrame) (key : f.is_keyframe ≡ true) (video : is_video f.codec ≡ true) where
  abbrev one_ring : FrameRing
  one_ring = append_frame new_ring f

  opens : is_video_keyframe f ≡ true
  unfolding is_video_keyframe
  opens = ground (arith, key, video)

  one_latest : latest_idr_frame one_ring ≡ some (delivered f)
  unfolding latest_idr_frame append_frame stored to_media_frame FrameRing.get find_seq
      latest_idr_seq
  one_latest = rw opens refl

  one_snap : snap one_ring SnapMode.latest_idr ≡ 0
  unfolding snap append_frame latest_idr_seq
  one_snap = rw opens refl

  one_window : frames_from one_ring 0 0 ≡ delivered f ∷ []
  unfolding frames_from append_frame stored to_media_frame
  one_window = refl

  one_room : length f.bytes ≤ default_capacity_bytes → needs_evict one_ring ≡ false
  unfolding append_frame
  one_room h = ground arith

  one_push :
      length f.bytes ≤ default_capacity_bytes → FrameRing.push 1 new_ring f ≡ some (0, one_ring)
  unfolding FrameRing.push evict_if_needed
  one_push h = ground (arith, one_room h)

  one_publish :
      (hub : StreamHub)
      → length f.bytes ≤ default_capacity_bytes
      → hub.ring ≡ new_ring
      → publish 1 hub f ≡ some (0, record hub { ring = one_ring; seq_tx = 0 ∷ hub.seq_tx })
  one_publish hub h empty =
      publish_of_push 1 hub f 0 one_ring
        (subst (λ r. FrameRing.push 1 r f ≡ some (0, one_ring)) (sym empty) (one_push h))

  one_keyframe :
      (hub : StreamHub)
      → hub.ring ≡ one_ring
      → latest_idr_bytes hub ≡ some (f.bytes, f.timestamp, f.clock_rate)
  unfolding latest_idr_bytes
  one_keyframe hub e = rw (e, one_latest) refl

  one_cursor :
      (hub : StreamHub) → hub.ring ≡ one_ring → (new_reader hub sequential_from_idr).cursor ≡ 0
  unfolding new_reader hub_snap
  one_cursor hub e = rw (e, one_snap) refl

  one_number : (hub : StreamHub) → hub.ring ≡ one_ring → hub_latest_seq hub ≡ 0
  unfolding hub_latest_seq latest_seq append_frame
  one_number hub e = rw e refl

  one_unread :
      (hub : StreamHub)
      → hub.ring ≡ one_ring
      → next_window hub (new_reader hub sequential_from_idr) ≡ delivered f ∷ []
  unfolding hub_frames_from
  one_unread hub e = rw (one_cursor hub e, one_number hub e, e) one_window

  one_received :
      (hub : StreamHub)
      → hub.ring ≡ one_ring
      → (recv_ready hub (new_reader hub sequential_from_idr)).frames ≡ delivered f ∷ []
  one_received hub e =
      let r = new_reader hub sequential_from_idr in
      let call =
        recv_ready-window hub r (sequential hub) (omega (arith, one_cursor hub e))
          (rw (one_unread hub e) refl) in
      ap (λ got. got.frames) call ∙ one_unread hub e

last_keyframe_of :
    (m : StreamManager) (k : String) (hub : StreamHub)
    → get_hub m k ≡ some hub
    → get_last_keyframe m k ≡ latest_idr_bytes hub
unfolding get_last_keyframe
last_keyframe_of m k hub e = rw (get_last_keyframe, e) refl

subscribed_to :
    (m : StreamManager) (k : String) (hub : StreamHub) (p : DispatchPolicy)
    → get_hub m k ≡ some hub
    → dispatch_subscribe m k p ≡ some (new_reader hub p)
unfolding dispatch_subscribe get_or_create_hub
subscribed_to m k hub p e = rw e refl

-- A stream that no other publisher holds is acquired, and a flagged video keyframe of it is
-- published, which fits the ring's capacity in bytes. Then the publish returns, the stream's last keyframe is this
-- frame, and a sequential reader that subscribes now gets exactly this frame with its first call: nothing of
-- an earlier session is left.
pub first_frame :
    (m : StreamManager) (f : MediaFrame) (publisher_id : String) (hub : StreamHub)
    → f.is_keyframe ≡ true
    → is_video f.codec ≡ true
    → length f.bytes ≤ default_capacity_bytes
    → get_hub m f.stream_id ≡ some hub
    → held_by_other hub publisher_id ≡ false
    → (after : StreamManager) × (live : StreamHub) × (publish_frame 1
          (manager_acquire_publisher m f.stream_id publisher_id).1
          f
        ≡ some after)
      × (get_hub after f.stream_id ≡ some live)
      × (get_last_keyframe after f.stream_id ≡ some (f.bytes, f.timestamp, f.clock_rate))
      × (dispatch_subscribe after f.stream_id sequential_from_idr
          ≡ some (new_reader live sequential_from_idr))
      × ((recv_ready live (new_reader live sequential_from_idr)).frames ≡ delivered f ∷ [])
unfolding update_stream reset_media reset
first_frame m f publisher_id hub key video h e free =
    let held = manager_acquire_publisher_lem m f.stream_id publisher_id f.stream_id hub e in
    let acquired : StreamManager = (manager_acquire_publisher m f.stream_id publisher_id).1 in
    let started_hub : get_hub acquired f.stream_id ≡ some (fresh hub (some publisher_id)) =
      held.1 ∙ rw (free, eq_refl f.stream_id) refl in
    let published = one_publish f key video (fresh hub (some publisher_id)) h refl in
    let (after, finished, found) =
      publish_frame_lem 1 acquired f f.stream_id (fresh hub (some publisher_id)) _ 0 started_hub
        published in
    let live : StreamHub =
      update_stream
        (record (fresh hub (some publisher_id)) {
          ring = append_frame new_ring f;
          seq_tx = 0 ∷ 0 ∷ hub.seq_tx;
        })
        started in
    let there : get_hub after f.stream_id ≡ some live = found ∙ rw (eq_refl f.stream_id) refl in
    (
      after,
      live,
      finished,
      there,
      last_keyframe_of after f.stream_id live there ∙ one_keyframe f key video live refl,
      subscribed_to after f.stream_id live sequential_from_idr there,
      one_received f key video live refl,
    )
