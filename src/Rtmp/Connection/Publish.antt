-- ===== src/Rtmp/Connection/Publish.antt =====
-- What `publish` does to the stream manager and to the connection (src/server/rtmp/mod.rs).
use text.Mathlib.Text.{◌==◌ as ◌=ˢ◌}
use vcp_media_server.Prelude.{
  ℕ, ◌≤◌, ◌≡◌, refl, ap, ◌∙◌, String, Bool, true, none, some, List, [], ◌∷◌, if◌then◌else◌,
  Bool-cases, inl, inr, ◌++◌,
}
use vcp_media_server.Media.{StreamStatus}
use vcp_media_server.StreamManager.{
  StreamManager, failed, done, already_published, manager_current_publisher,
  manager_acquire_publisher, set_status,
}
use vcp_media_server.Rtmp.Chunk.Message.{encode_message-returns}
use vcp_media_server.Rtmp.Amf0.{Amf0Value, Utf8}
use vcp_media_server.Rtmp.Session.{build_on_status, handle_publish, stream_name_of}
use vcp_media_server.Rtmp.Connection.{
  RtmpConnection, proceed, write_message, write_all, rtmp_publisher,
}
use vcp_media_server.Rtmp.Connection.Commands.{
  on_publish, write_status, start_publishing, with_push_stream, with_live_tracks,
}
use vcp_media_server.Rtmp.Connection.Holder.{
  taken_by_other, current-acquire, current-set_status, current-with_live_tracks,
  current-with_push_stream, with_push_stream-there,
}

-- A message to a socket that takes it, in chunks of one byte at least.
write_message-done :
    (conn : RtmpConnection) (msg_type sid : ℕ) (payload : List ℕ) (size csid : ℕ)
    → conn.writable ≡ true
    → 1 ≤ size
    → (w : List ℕ) × (write_message conn msg_type sid payload size csid
        ≡ proceed none (record conn { written = w }))
unfolding write_message write_all
write_message-done conn msg_type sid payload size csid open_ h =
    let (bytes, e) = encode_message-returns msg_type 0 sid size csid payload h in
    (conn.written ++ bytes, rw (write_message, e, open_) refl)

write_status-done :
    (utf8 : Utf8) (conn : RtmpConnection) (code description level : String)
    → conn.writable ≡ true
    → 1 ≤ conn.session.chunk_size
    → (w : List ℕ) × (write_status utf8 conn code description level
        ≡ proceed none (record conn { written = w }))
unfolding write_status
write_status-done utf8 conn code description level open_ h =
    write_message-done conn 0x14 conn.session.server_stream_id
      (build_on_status utf8 code description level) conn.session.chunk_size 3 open_ h

-- The stream that a `publish` asks for, and whether another publisher has it.
abbrev pub asked : RtmpConnection → List Amf0Value → String
asked conn args = stream_name_of conn.session.stream_name args

abbrev pub refused : RtmpConnection → List Amf0Value → Bool
refused conn args =
    taken_by_other (manager_current_publisher conn.stream_manager (asked conn args))
      (rtmp_publisher conn.session.peer_addr)

-- What a `publish` makes of the connection and of the streams' publishers.
pub record PublishEnd (conn : RtmpConnection) (args : List Amf0Value) (after : RtmpConnection)
    : Type 0 where
  pub session : after.session ≡ handle_publish conn.session args
  pub writable : after.writable ≡ true
  pub is_publishing : after.is_publishing ≡ (if refused conn args then conn.is_publishing else true)
  pub stream_id : after.stream_id ≡ (if refused conn args then conn.stream_id else asked conn args)
  pub publisher_id : after.publisher_id ≡ (
      if refused conn args then conn.publisher_id else some (rtmp_publisher conn.session.peer_addr))
  pub publishers :
      (id : String)
      → manager_current_publisher after.stream_manager id ≡ (
          if refused conn args
          then manager_current_publisher conn.stream_manager id
          else (if asked conn args =ˢ id
              then some (rtmp_publisher conn.session.peer_addr)
              else manager_current_publisher conn.stream_manager id))

acquired :
    (conn : RtmpConnection) (args : List Amf0Value) (id : String)
    → let name = asked conn args in
      let pid = rtmp_publisher conn.session.peer_addr in
      let (outcome, after) =
        manager_acquire_publisher (with_push_stream conn.stream_manager name) name pid in
      (outcome ≡ (if refused conn args then failed (already_published name) else done))
      × (manager_current_publisher after id ≡ (
          if refused conn args
          then manager_current_publisher conn.stream_manager id
          else (if name =ˢ id then some pid else manager_current_publisher conn.stream_manager id)))
acquired conn args id =
    let m = conn.stream_manager in
    let name = asked conn args in
    let (hub, there) = with_push_stream-there m name in
    let (outcome, publishers) =
      current-acquire (with_push_stream m name) name (rtmp_publisher conn.session.peer_addr) id hub
        there in
    let same = current-with_push_stream m name name in
    let same_id = current-with_push_stream m name id in
    (rw (← same) outcome, rw (← same, ← same_id) publishers)

-- The manager once the stream has tracks and is on air.
abbrev on_air : StreamManager → String → StreamManager
on_air m name =
    (set_status (set_status (with_live_tracks m name) name StreamStatus.unpublished).1 name
      StreamStatus.publishing).1

start_publishing-done :
    (utf8 : Utf8) (conn : RtmpConnection) (name : String)
    → conn.writable ≡ true
    → 1 ≤ conn.session.chunk_size
    → (w : List ℕ) × (restarts : List String) × (start_publishing utf8 conn name
        ≡ proceed none (record conn {
          stream_manager = on_air conn.stream_manager name;
          written = w;
          restarts = restarts;
        }))
unfolding start_publishing
start_publishing-done utf8 conn name open_ h =
    let c : RtmpConnection = record conn {
      stream_manager =
          (set_status (with_live_tracks conn.stream_manager name) name StreamStatus.unpublished).1;
    } in
    let (w, e) =
      write_status-done utf8 c "NetStream.Publish.Start" "Publishing started." "status" open_ h in
    (w, (if conn.hls_server then conn.restarts ++ (name ∷ []) else conn.restarts), rw e refl)

abbrev after_acquire : RtmpConnection → List Amf0Value → StreamManager
after_acquire conn args =
    (manager_acquire_publisher (with_push_stream conn.stream_manager (asked conn args))
      (asked conn args) (rtmp_publisher conn.session.peer_addr)).1

-- `publish` in both cases, for any socket that takes the answer and any manager. A stream that another publisher has is
-- refused: the connection publishes what it published before, and no stream's publisher changes. Otherwise the
-- connection publishes the stream that it asked for and is its publisher in the manager, and every other stream keeps its own.
pub on_publish_lem :
    (utf8 : Utf8) (conn : RtmpConnection) (args : List Amf0Value)
    → conn.writable ≡ true
    → 1 ≤ conn.session.chunk_size
    → (after : RtmpConnection) × (on_publish utf8 conn args ≡ proceed none after)
      × PublishEnd conn args after
unfolding on_publish handle_publish
on_publish_lem utf8 conn args open_ h = elim (Bool-cases (refused conn args)) [
  | inl r ↦
      let c : RtmpConnection = record conn {
        session = handle_publish conn.session args;
        stream_manager = after_acquire conn args;
      } in
      let (w, e) =
        write_status-done utf8 c "NetStream.Publish.BadName"
          "Stream already has an active publisher." "error" open_ h in
      let outcome =
        (acquired conn args "").0
        ∙ ap (λ b. if b then failed (already_published (asked conn args)) else done) r in
      (
        record c { written = w },
        rw (on_publish, outcome) e,
        record {
          session = refl;
          writable = open_;
          is_publishing = rw r refl;
          stream_id = rw r refl;
          publisher_id = rw r refl;
          publishers = λ id. (acquired conn args id).1;
        },
      )
  | inr g ↦
      let name = asked conn args in
      let c : RtmpConnection = record conn {
        session = handle_publish conn.session args;
        stream_manager = after_acquire conn args;
        is_publishing = true;
        stream_id = name;
        publisher_id = some (rtmp_publisher conn.session.peer_addr);
      } in
      let (w, restarts, e) = start_publishing-done utf8 c name open_ h in
      let outcome =
        (acquired conn args "").0
        ∙ ap (λ b. if b then failed (already_published (asked conn args)) else done) g in
      (
        record c {
          stream_manager = on_air c.stream_manager name;
          written = w;
          restarts = restarts;
        },
        rw (on_publish, outcome) e,
        record {
          session = refl;
          writable = open_;
          is_publishing = rw g refl;
          stream_id = rw g refl;
          publisher_id = rw g refl;
          publishers = λ id.
              current-set_status _ name id StreamStatus.publishing
              ∙ current-set_status _ name id StreamStatus.unpublished
              ∙ current-with_live_tracks _ name id
              ∙ (acquired conn args id).1;
        },
      )
]
