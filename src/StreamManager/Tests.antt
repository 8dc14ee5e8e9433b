-- ===== src/StreamManager/Tests.antt =====
-- Tests and witnesses for the stream manager (src/core/stream_manager.rs).
use vcp_media_server.Prelude.{◌≡◌, refl, true, false, none, some, [], ◌∷◌, arith, List, String}
use vcp_media_server.Media.{
  MediaFrame, new_frame, h264, StreamSourceMode, StreamStatus, StreamProtocol, PlaybackStatus,
}
use vcp_media_server.Prelude.StringMap.{find, insert, delete}
use vcp_media_server.StreamHub.{StreamHub, with_stream, acquire_publisher, reset, update_stream}
use vcp_media_server.Dispatch.Reader.{sequential_from_idr, new_reader}
use vcp_media_server.Dispatch.Receive.{recv_ready}
use vcp_media_server.StreamManager.{
  StreamManager, done, new_manager, set_stream_sps_pps, create_stream, get_hub, change_hub,
  publish_frame, manager_acquire_publisher, get_last_keyframe, dispatch_subscribe, list_streams,
  reset_stream_media, reset_media, remove_stream,
}
use vcp_media_server.StreamManager.Sessions.{held_by_other, fresh, manager_acquire_publisher_lem}
use vcp_media_server.StreamManager.FirstFrame.{delivered, first_frame}
use vcp_media_server.StreamManager.Calls.{Call, create, acquire, remove, call, run, run_stream}
use vcp_media_server.StreamManager.Independent.{run-run_stream}

abbrev served : StreamManager
served = (create_stream new_manager "live" StreamSourceMode.push StreamProtocol.rtmp none).1

abbrev hub_of : String → StreamHub
hub_of stream_id = with_stream (record {
  id = stream_id;
  tracks = [];
  status = StreamStatus.created;
  playback_status = PlaybackStatus.idle;
  source = StreamSourceMode.push;
  protocol = StreamProtocol.rtmp;
  pull_url = none;
  sps = none;
  pps = none;
})

abbrev live_hub : StreamHub
live_hub = hub_of "live"

live_there : get_hub served "live" ≡ some live_hub
unfolding create_stream get_hub find insert
live_there = refl

created_once :
    list_streams (create_stream served "live" StreamSourceMode.pull StreamProtocol.rtsp none).1
    ≡ "live" ∷ []
unfolding create_stream get_hub find insert list_streams
created_once = refl

live_free : held_by_other live_hub "camera" ≡ false
unfolding with_stream
live_free = refl

-- The stream with the parameter sets of an earlier session.
abbrev used : StreamManager
used = set_stream_sps_pps served "live" (0x67 ∷ []) (0x68 ∷ [])

abbrev used_hub : StreamHub
used_hub = record live_hub {
  stream = record live_hub.stream { sps = some (0x67 ∷ []); pps = some (0x68 ∷ []) };
}

used_there : get_hub used "live" ≡ some used_hub
unfolding create_stream get_hub find insert set_stream_sps_pps change_hub update_stream with_stream
used_there = refl

manager_acquire_publisher_lem_example :
    ((manager_acquire_publisher used "live" "camera").0 ≡ done)
    × (get_hub (manager_acquire_publisher used "live" "camera").1 "live"
        ≡ some (fresh live_hub (some "camera")))
unfolding with_stream
manager_acquire_publisher_lem_example =
    manager_acquire_publisher_lem used "live" "camera" "live" used_hub used_there

abbrev key_frame : MediaFrame
key_frame = new_frame "live" 0 3000 (0 ∷ 0 ∷ 0 ∷ 1 ∷ 0x65 ∷ 7 ∷ []) true h264

first_frame_example :
    (after : StreamManager) × (live : StreamHub) × (publish_frame 1
        (manager_acquire_publisher served "live" "camera").1
        key_frame
      ≡ some after)
    × (get_hub after "live" ≡ some live)
    × (get_last_keyframe after "live" ≡ some (0 ∷ 0 ∷ 0 ∷ 1 ∷ 0x65 ∷ 7 ∷ [], 3000, none))
    × (dispatch_subscribe after "live" sequential_from_idr
        ≡ some (new_reader live sequential_from_idr))
    × ((recv_ready live (new_reader live sequential_from_idr)).frames ≡ delivered key_frame ∷ [])
unfolding new_frame
first_frame_example =
    first_frame served key_frame "camera" live_hub refl refl (omega arith) live_there live_free

abbrev calls : List Call
calls =
    create "b" StreamSourceMode.push StreamProtocol.rtmp none
    ∷ acquire "b" "camera"
    ∷ remove "live"
    ∷ []

abbrev after_calls : StreamManager
after_calls = record { hubs = ("b", fresh (hub_of "b") (some "camera")) ∷ [] }

calls-run : run 1 served calls ≡ some after_calls
unfolding run call create_stream get_hub find insert delete manager_acquire_publisher
    acquire_publisher change_hub reset_stream_media remove_stream with_stream reset_media
    update_stream reset
calls-run = refl

run-run_stream_example :
    run_stream 1 "b" calls (get_hub served "b") ≡ some (get_hub after_calls "b")
run-run_stream_example = run-run_stream 1 served after_calls calls "b" calls-run
