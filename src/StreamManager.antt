-- ===== src/StreamManager.antt =====
-- src/core/stream_manager.rs: the hubs of all streams, by the stream's identifier. A hub is shared through
-- an `Arc`; an operation on one replaces it in the map. Where the source answers an error with a text, the model
-- has a constructor. The UUID of a new receiver is an argument, and logging is left out.
pub mod Clients
pub mod Streams
pub mod Sessions
pub mod FirstFrame
pub mod Calls
pub mod Independent
mod Tests
use vcp_media_server.Prelude.{
  ℕ, ◌%◌, ◌^◌, String, Bool, true, false, not, ◌&&◌, ◌||◌, Option, none, some, List, [], ◌∷◌, ◌++◌,
  map, ◌==◌, if◌then◌else◌, or_else,
}
use mathlib.Core.Option.{map as map_option}
use vcp_media_server.Prelude.StringMap.{find, insert, delete}
use vcp_media_server.Media.{
  MediaFrame, Stream, StreamStatus, PlaybackStatus, StreamSourceMode, StreamProtocol, Track,
}
use vcp_media_server.StreamHub.{
  StreamHub, Acquired, ok, err, with_stream, update_stream, set_tracks, acquire_publisher,
  release_publisher, current_publisher, publish, latest_idr_bytes, reset,
}
use vcp_media_server.Dispatch.Reader.{DispatchPolicy, DispatchReader, new_reader}

pub record StreamManager : Type 0 where
  pub hubs : List (String × StreamHub)

pub data ManagerError : Type 0 where
  stream_not_found already_published receiver_not_found : String → ManagerError

-- `Result<()>`
pub data Outcome : Type 0 where
  done : Outcome
  failed : ManagerError → Outcome

abbrev pub new_manager : StreamManager
new_manager = record { hubs = [] }

unfoldable pub get_hub : StreamManager → String → Option StreamHub
get_hub m stream_id = find m.hubs stream_id

-- The hub of a stream, if there is one, changed in place.
unfoldable pub change_hub : StreamManager → String → (StreamHub → StreamHub) → StreamManager
change_hub m stream_id f = elim (get_hub m stream_id) [
  | none ↦ m
  | some hub ↦ record m { hubs = insert m.hubs stream_id (f hub) }
]

unfoldable pub create_stream :
    StreamManager
    → String
    → StreamSourceMode
    → StreamProtocol
    → Option String
    → Stream × StreamManager
create_stream m stream_id source protocol pull_url =
    let stream : Stream = record {
      id = stream_id;
      tracks = [];
      status = StreamStatus.created;
      playback_status = PlaybackStatus.idle;
      source = source;
      protocol = protocol;
      pull_url = pull_url;
      sps = none;
      pps = none;
    } in
    elim (get_hub m stream_id) [
      | some existing ↦ (existing.stream, m)
      | none ↦ (stream, record m { hubs = insert m.hubs stream_id (with_stream stream) })
    ]

unfoldable pub set_stream_tracks : StreamManager → String → List Track → StreamManager
set_stream_tracks m stream_id tracks = change_hub m stream_id (λ hub. set_tracks hub tracks)

unfoldable pub set_stream_sps_pps : StreamManager → String → List ℕ → List ℕ → StreamManager
set_stream_sps_pps m stream_id sps pps =
    change_hub m stream_id
      (λ hub. update_stream hub (λ stream. record stream { sps = some sps; pps = some pps }))

-- The closure of `merge_stream_nalu_config`: a parameter set that is there already stays.
unfoldable pub merge_nalu : ℕ → List ℕ → Stream → Stream
merge_nalu nal_type nalu stream =
    if nal_type == 7
    then record stream { sps = some (or_else stream.sps nalu) }
    else if nal_type == 8
    then record stream { pps = some (or_else stream.pps nalu) }
    else stream

unfoldable pub merge_stream_nalu_config : StreamManager → String → List ℕ → StreamManager
merge_stream_nalu_config m stream_id [] = m
merge_stream_nalu_config m stream_id (head ∷ rest) =
    let nal_type = head % 2 ^ 5 in
    if not (nal_type == 7) && not (nal_type == 8)
    then m
    else change_hub m stream_id (λ hub. update_stream hub (merge_nalu nal_type (head ∷ rest)))

-- A hub is made by `create_stream` only: this finds it.
unfoldable pub get_or_create_hub : StreamManager → String → Option StreamHub
get_or_create_hub m stream_id = get_hub m stream_id

unfoldable pub remove_stream : StreamManager → String → Option Stream × StreamManager
remove_stream m stream_id = (
  map_option (λ hub. hub.stream) (get_hub m stream_id),
  record m { hubs = delete m.hubs stream_id },
)

unfoldable pub get_stream : StreamManager → String → Option Stream
get_stream m stream_id = map_option (λ hub. hub.stream) (get_hub m stream_id)

unfoldable pub list_streams : StreamManager → List String
list_streams m = map (λ entry. entry.0) m.hubs

unfoldable pub found_or_error : StreamManager → String → Outcome
found_or_error m stream_id = elim (get_hub m stream_id) [
  | none ↦ failed (stream_not_found stream_id)
  | some hub ↦ done
]

unfoldable pub set_status : StreamManager → String → StreamStatus → Outcome × StreamManager
set_status m stream_id status = (
  found_or_error m stream_id,
  change_hub m stream_id (λ hub. update_stream hub (λ stream. record stream { status = status })),
)

unfoldable pub set_playback_status :
    StreamManager → String → PlaybackStatus → Outcome × StreamManager
set_playback_status m stream_id status = (
  found_or_error m stream_id,
  change_hub m stream_id
      (λ hub. update_stream hub (λ stream. record stream { playback_status = status })),
)

unfoldable pub update_stream_status : StreamManager → String → StreamStatus → StreamManager
update_stream_status m stream_id status =
    change_hub m stream_id (λ hub. update_stream hub (λ stream. record stream { status = status }))

-- The two calls on the hub of `reset_stream_media`.
unfoldable pub reset_media : StreamHub → StreamHub
reset_media hub = update_stream (reset hub) (λ stream. record stream { sps = none; pps = none })

unfoldable pub reset_stream_media : StreamManager → String → StreamManager
reset_stream_media m stream_id = change_hub m stream_id reset_media

unfoldable pub manager_acquire_publisher : StreamManager → String → String → Outcome × StreamManager
manager_acquire_publisher m stream_id publisher_id = elim (get_hub m stream_id) [
  | none ↦ (failed (stream_not_found stream_id), m)
  | some hub ↦
      let called = change_hub m stream_id (λ h. (acquire_publisher h publisher_id).1) in
      elim (acquire_publisher hub publisher_id).0 [
        | ok ↦ (done, reset_stream_media called stream_id)
        | err current ↦ (failed (already_published stream_id), called)
      ]
]

unfoldable pub manager_release_publisher : StreamManager → String → String → Bool × StreamManager
manager_release_publisher m stream_id publisher_id =
    let called = change_hub m stream_id (λ h. (release_publisher h publisher_id).1) in
    let released : Bool = elim (get_hub m stream_id) [
      | none ↦ false
      | some hub ↦ (release_publisher hub publisher_id).0
    ] in
    (released, (if released then reset_stream_media called stream_id else called))

unfoldable pub manager_current_publisher : StreamManager → String → Option String
manager_current_publisher m stream_id = elim (get_hub m stream_id) [
  | none ↦ none
  | some hub ↦ current_publisher hub
]

unfoldable pub get_last_keyframe : StreamManager → String → Option (List ℕ × ℕ × Option ℕ)
get_last_keyframe m stream_id = elim (get_hub m stream_id) [
  | none ↦ none
  | some hub ↦ latest_idr_bytes hub
]

unfoldable pub dispatch_subscribe : StreamManager → String → DispatchPolicy → Option DispatchReader
dispatch_subscribe m stream_id policy =
    map_option (λ hub. new_reader hub policy) (get_or_create_hub m stream_id)

-- The closure at the end of `publish_frame`.
unfoldable pub started : Stream → Stream
started stream = elim stream.status [
  | StreamStatus.created ↦ record stream { status = StreamStatus.publishing }
  | StreamStatus.unpublished ↦ record stream { status = StreamStatus.publishing }
  | _ ↦ stream
]

-- `none`: the ring's push does not return.
unfoldable pub publish_frame : ℕ → StreamManager → MediaFrame → Option StreamManager
publish_frame fuel m frame = elim (get_or_create_hub m frame.stream_id) [
  | none ↦ some m
  | some hub ↦ elim (publish fuel hub frame) [
    | none ↦ none
    | some (seq, published) ↦ some (
        change_hub (record m { hubs = insert m.hubs frame.stream_id published }) frame.stream_id
          (λ h. update_stream h started))
  ]
]
