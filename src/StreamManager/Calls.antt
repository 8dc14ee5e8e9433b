-- ===== src/StreamManager/Calls.antt =====
-- Calls on the manager of src/core/stream_manager.rs: a run of them, and what each does to its own stream.
use vcp_media_server.Prelude.{ℕ, String, Option, none, some, List, [], ◌∷◌, if◌then◌else◌}
use text.Mathlib.Text.{◌==◌}
use vcp_media_server.Media.{
  MediaFrame, StreamStatus, PlaybackStatus, StreamSourceMode, StreamProtocol, Track,
}
use vcp_media_server.StreamHub.{StreamHub, with_stream, update_stream, publish, release_publisher}
use vcp_media_server.StreamManager.{
  StreamManager, create_stream, set_stream_tracks, set_stream_sps_pps, set_status,
  set_playback_status, remove_stream, manager_acquire_publisher, manager_release_publisher,
  publish_frame, started,
}
use vcp_media_server.StreamManager.Sessions.{held_by_other, fresh}

-- Calls that change one stream, each with the stream's identifier.
pub data Call : Type 0 where
  create : String → StreamSourceMode → StreamProtocol → Option String → Call
  tracks : String → List Track → Call
  parameter_sets : String → List ℕ → List ℕ → Call
  status : String → StreamStatus → Call
  playback : String → PlaybackStatus → Call
  acquire release : String → String → Call
  remove : String → Call
  frame : MediaFrame → Call

abbrev pub target : Call → String
target (create k source protocol url) = k
target (tracks k ts) = k
target (parameter_sets k sps pps) = k
target (status k s) = k
target (playback k s) = k
target (acquire k p) = k
target (release k p) = k
target (remove k) = k
target (frame f) = f.stream_id

unfoldable pub call : ℕ → StreamManager → Call → Option StreamManager
call fuel m (create k source protocol url) = some (create_stream m k source protocol url).1
call fuel m (tracks k ts) = some (set_stream_tracks m k ts)
call fuel m (parameter_sets k sps pps) = some (set_stream_sps_pps m k sps pps)
call fuel m (status k s) = some (set_status m k s).1
call fuel m (playback k s) = some (set_playback_status m k s).1
call fuel m (acquire k p) = some (manager_acquire_publisher m k p).1
call fuel m (release k p) = some (manager_release_publisher m k p).1
call fuel m (remove k) = some (remove_stream m k).1
call fuel m (frame f) = publish_frame fuel m f

-- The specification: what a call does to its stream, which is there or not.
abbrev pub created_hub : String → StreamSourceMode → StreamProtocol → Option String → StreamHub
created_hub k source protocol url = with_stream (record {
  id = k;
  tracks = [];
  status = StreamStatus.created;
  playback_status = PlaybackStatus.idle;
  source = source;
  protocol = protocol;
  pull_url = url;
  sps = none;
  pps = none;
})

abbrev pub started_hub : StreamHub → StreamHub
started_hub hub = update_stream hub started

unfoldable pub on_stream : ℕ → Call → Option StreamHub → Option (Option StreamHub)
on_stream fuel (create k source protocol url) none = some (some (created_hub k source protocol url))
on_stream fuel (create k source protocol url) (some hub) = some (some hub)
on_stream fuel (remove k) o = some none
on_stream fuel c none = some none
on_stream fuel (tracks k ts) (some hub) =
    some (some (record hub { stream = record hub.stream { tracks = ts } }))
on_stream fuel (parameter_sets k sps pps) (some hub) =
    some (some (record hub { stream = record hub.stream { sps = some sps; pps = some pps } }))
on_stream fuel (status k s) (some hub) =
    some (some (record hub { stream = record hub.stream { status = s } }))
on_stream fuel (playback k s) (some hub) =
    some (some (record hub { stream = record hub.stream { playback_status = s } }))
on_stream fuel (acquire k p) (some hub) =
    some (some (if held_by_other hub p then hub else fresh hub (some p)))
on_stream fuel (release k p) (some hub) =
    some (some (if (release_publisher hub p).0 then fresh hub none else hub))
on_stream fuel (frame f) (some hub) = elim (publish fuel hub f) [
  | none ↦ none
  | some (seq, published) ↦ some (some (started_hub published))
]

unfoldable pub run : ℕ → StreamManager → List Call → Option StreamManager
run fuel m [] = some m
run fuel m (c ∷ cs) = elim (call fuel m c) [ none ↦ none | some next ↦ run fuel next cs ]

-- The calls of one stream, on that stream alone.
unfoldable pub run_stream : ℕ → String → List Call → Option StreamHub → Option (Option StreamHub)
run_stream fuel id [] o = some o
run_stream fuel id (c ∷ cs) o =
    let later = run_stream fuel id cs o in
    if target c == id
    then elim (on_stream fuel c o) [ none ↦ none | some next ↦ run_stream fuel id cs next ]
    else later
