-- ===== src/StreamHub.antt =====
-- src/core/stream_hub.rs: a stream's metadata, its receivers, its publisher slot and its frame ring. The
-- watch channel is the runtime's: `seq_tx` holds the numbers that were sent on it, newest first. A lock is held for one operation, so an interleaving of
-- clients is a sequence of operations. `publish` passes the ring's fuel on.
pub mod Publisher
pub mod InStep
pub mod Receivers
mod Tests
use vcp_media_server.Prelude.{
  ℕ, String, Bool, true, false, Option, none, some, List, [], ◌∷◌, map, if◌then◌else◌,
}
use mathlib.Core.Option.{map as map_option}
use text.Mathlib.Text.{◌==◌}
use vcp_media_server.Prelude.StringMap.{find, insert, delete}
use vcp_media_server.Media.{
  MediaFrame, Stream, StreamStatus, PlaybackStatus, StreamSourceMode, StreamProtocol,
  StreamReceiver, ReceiverStatus, Track,
}
use vcp_media_server.FrameRing
use vcp_media_server.FrameRing.{FrameRing, StoredFrame, SnapMode, new_ring, to_media_frame}

pub record StreamHub : Type 0 where
  pub stream_id : String
  pub stream : Stream
  pub receivers : List (String × StreamReceiver)
  pub publisher : Option String
  pub ring : FrameRing
  pub seq_tx : List ℕ

unfoldable pub with_stream : Stream → StreamHub
with_stream stream = record {
  stream_id = stream.id;
  stream = stream;
  receivers = [];
  publisher = none;
  ring = new_ring;
  seq_tx = [];
}

unfoldable pub new_hub : String → StreamHub
new_hub stream_id = with_stream (record {
  id = stream_id;
  tracks = [];
  status = StreamStatus.created;
  playback_status = PlaybackStatus.idle;
  source = StreamSourceMode.push;
  protocol = StreamProtocol.unknown;
  pull_url = none;
  sps = none;
  pps = none;
})

unfoldable pub update_stream : StreamHub → (Stream → Stream) → StreamHub
update_stream hub f = record hub { stream = f hub.stream }

unfoldable pub set_tracks : StreamHub → List Track → StreamHub
set_tracks hub tracks = update_stream hub (λ stream. record stream { tracks = tracks })

unfoldable pub add_receiver : StreamHub → StreamReceiver → StreamReceiver × StreamHub
add_receiver hub receiver =
    (receiver, record hub { receivers = insert hub.receivers receiver.id receiver })

unfoldable pub remove_receiver : StreamHub → String → Option StreamReceiver × StreamHub
remove_receiver hub id = (find hub.receivers id, record hub { receivers = delete hub.receivers id })

unfoldable pub get_receiver : StreamHub → String → Option StreamReceiver
get_receiver hub id = find hub.receivers id

unfoldable pub list_receiver_ids : StreamHub → List String
list_receiver_ids hub = map (λ entry. entry.0) hub.receivers

unfoldable pub list_receivers : StreamHub → List StreamReceiver
list_receivers hub = map (λ entry. entry.1) hub.receivers

unfoldable pub set_receiver_status :
    StreamHub → String → ReceiverStatus → Option ReceiverStatus × StreamHub
set_receiver_status hub id status = elim (find hub.receivers id) [
  | none ↦ (none, hub)
  | some receiver ↦ (
    some receiver.status,
    record hub { receivers = insert hub.receivers id (record receiver { status = status }) },
  )
]

-- `Result<(), String>` of `acquire_publisher`: the holder if the slot is taken.
pub data Acquired : Type 0 where
  ok : Acquired
  err : String → Acquired

unfoldable pub acquire_publisher : StreamHub → String → Acquired × StreamHub
acquire_publisher hub publisher_id =
    let taken = record hub { publisher = some publisher_id } in
    elim hub.publisher [
      | none ↦ (ok, taken)
      | some current ↦ if current == publisher_id then (ok, taken) else (err current, hub)
    ]

unfoldable pub release_publisher : StreamHub → String → Bool × StreamHub
release_publisher hub publisher_id = elim hub.publisher [
  | none ↦ (false, hub)
  | some current ↦
      if current == publisher_id then (true, record hub { publisher = none }) else (false, hub)
]

unfoldable pub current_publisher : StreamHub → Option String
current_publisher hub = hub.publisher

-- `none`: the ring's push does not return.
unfoldable pub publish : ℕ → StreamHub → MediaFrame → Option (ℕ × StreamHub)
publish fuel hub frame = elim (FrameRing.push fuel hub.ring frame) [
  | none ↦ none
  | some (seq, ring) ↦ some (seq, record hub { ring = ring; seq_tx = seq ∷ hub.seq_tx })
]

unfoldable pub get_stored : StreamHub → ℕ → Option StoredFrame
get_stored hub seq = FrameRing.get hub.ring seq

unfoldable pub get_frame : StreamHub → ℕ → Option MediaFrame
get_frame hub seq = map_option to_media_frame (FrameRing.get hub.ring seq)

unfoldable pub hub_latest_seq : StreamHub → ℕ
hub_latest_seq hub = FrameRing.latest_seq hub.ring

unfoldable pub hub_is_empty : StreamHub → Bool
hub_is_empty hub = FrameRing.is_empty hub.ring

unfoldable pub hub_snap : StreamHub → SnapMode → ℕ
hub_snap hub mode = FrameRing.snap hub.ring mode

unfoldable pub hub_oldest_seq : StreamHub → Option ℕ
hub_oldest_seq hub = FrameRing.oldest_seq hub.ring

unfoldable pub hub_latest_idr_seq : StreamHub → Option ℕ
hub_latest_idr_seq hub = FrameRing.latest_idr_seq hub.ring

unfoldable pub hub_latest_idr_frame : StreamHub → Option MediaFrame
hub_latest_idr_frame hub = FrameRing.latest_idr_frame hub.ring

unfoldable pub hub_frames_from : StreamHub → ℕ → ℕ → List MediaFrame
hub_frames_from hub from_seq to_seq = FrameRing.frames_from hub.ring from_seq to_seq

unfoldable pub latest_idr_bytes : StreamHub → Option (List ℕ × ℕ × Option ℕ)
latest_idr_bytes hub =
    map_option (λ f. (f.bytes, f.timestamp, f.clock_rate)) (FrameRing.latest_idr_frame hub.ring)

unfoldable pub reset : StreamHub → StreamHub
reset hub = record hub { ring = new_ring; seq_tx = 0 ∷ hub.seq_tx }
