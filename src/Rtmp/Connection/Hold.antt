-- ===== src/Rtmp/Connection/Hold.antt =====
-- How long a connection of src/server/rtmp/mod.rs holds the streams that it publishes.
use text.Mathlib.Text.{◌==◌ as ◌=ˢ◌}
use text.Mathlib.TextEquality.{eq_iff}
use text.Mathlib.TextPositions.{eq_refl}
use vcp_media_server.Prelude.{
  ℕ, ◌≤◌, ◌<◌, ◌≡◌, refl, ap, sym, subst, ◌∙◌, String, true, false, none, some, List, [], length,
  if◌then◌else◌, Option-cases, Bool-cases, inl, inr, arith, ltb, ◌==◌,
}
use vcp_media_server.StreamHub.{StreamHub}
use vcp_media_server.StreamManager.{StreamManager, get_hub, manager_current_publisher}
use vcp_media_server.Rtmp.Chunk.{RtmpMessage, byte_at}
use vcp_media_server.Rtmp.Amf0.{Amf0Value, Utf8}
use vcp_media_server.Prelude.Words.{add64}
use vcp_media_server.Rtmp.Amf0.Keys.{apart_sym}
use vcp_media_server.Rtmp.Session.{handle_publish, stream_name_of}
use vcp_media_server.Rtmp.Connection.{
  RtmpConnection, proceed, panicked, release_publish_connection, rtmp_publisher,
}
use vcp_media_server.Rtmp.Connection.Commands.{on_publish}
use vcp_media_server.Rtmp.Connection.Messages.{handle_rtmp_message, on_video, on_avc_units}
use vcp_media_server.Rtmp.Connection.Serve.{Serving, ended, on_read, received}
use vcp_media_server.Rtmp.Connection.Holder.{current-slot, current-released, taken_by_other}
use vcp_media_server.Rtmp.Connection.Publish.{PublishEnd, asked, refused, on_publish_lem}

held_hub :
    (m : StreamManager) (k publisher_id : String)
    → manager_current_publisher m k ≡ some publisher_id
    → (hub : StreamHub) × (get_hub m k ≡ some hub) × (hub.publisher ≡ some publisher_id)
held_hub m k publisher_id held = elim (Option-cases (get_hub m k)) [
  | inl e ↦ absurd (cc (rw (current-slot m k, e) at held))
  | inr (hub, e) ↦ (hub, e, rw (current-slot m k, e) at held)
]

-- The end of a connection that is its stream's publisher.
release_held :
    (conn : RtmpConnection) (publisher_id id : String)
    → conn.is_publishing ≡ true
    → conn.publisher_id ≡ some publisher_id
    → manager_current_publisher conn.stream_manager conn.stream_id ≡ some publisher_id
    → manager_current_publisher (release_publish_connection conn).stream_manager id
      ≡ (if conn.stream_id =ˢ id then none else manager_current_publisher conn.stream_manager id)
unfolding release_publish_connection
release_held conn publisher_id id p q held =
    let (hub, there, own) = held_hub conn.stream_manager conn.stream_id publisher_id held in
    rw (release_publish_connection, p, q)
      (current-released conn.stream_manager conn.stream_id publisher_id id hub there own)

-- The state after a `publish` that is not refused.
module _ (conn after : RtmpConnection) (args : List Amf0Value) (h : PublishEnd conn args after)
    (granted : refused conn args ≡ false) where
  now_publishing : after.is_publishing ≡ true
  now_publishing = h.is_publishing ∙ rw granted refl

  now_stream : after.stream_id ≡ asked conn args
  now_stream = h.stream_id ∙ rw granted refl

  now_publisher : after.publisher_id ≡ some (rtmp_publisher conn.session.peer_addr)
  now_publisher = h.publisher_id ∙ rw granted refl

  now_publishers :
      (id : String)
      → manager_current_publisher after.stream_manager id ≡ (
          if asked conn args =ˢ id
          then some (rtmp_publisher conn.session.peer_addr)
          else manager_current_publisher conn.stream_manager id)
  now_publishers id = h.publishers id ∙ rw granted refl

  now_held :
      manager_current_publisher after.stream_manager (asked conn args)
      ≡ some (rtmp_publisher conn.session.peer_addr)
  now_held = now_publishers (asked conn args) ∙ rw (eq_refl (asked conn args)) refl

-- After a release everybody's slots are as they are, but for that of the last stream that was published.
end_publishers :
    (conn after : RtmpConnection) (args : List Amf0Value) (id : String)
    → PublishEnd conn args after
    → refused conn args ≡ false
    → manager_current_publisher
        (release_publish_connection (record after { player = none })).stream_manager
        id
      ≡ (if asked conn args =ˢ id then none else manager_current_publisher after.stream_manager id)
end_publishers conn after args id h granted =
    let at_stream = now_stream conn after args h granted in
    release_held (record after { player = none }) (rtmp_publisher conn.session.peer_addr) id
      (now_publishing conn after args h granted) (now_publisher conn after args h granted)
      (rw at_stream (now_held conn after args h granted))
    ∙ rw at_stream refl

-- A client publishes a stream that was free and then closes its connection: the stream has no publisher again, and
-- every other stream has the one that it had before. The socket takes the server's answers, and a chunk of them holds one byte
-- at least.
pub publish_then_close :
    (utf8 : Utf8) (fuel : ℕ) (s : Serving) (args : List Amf0Value)
    → s.conn.writable ≡ true
    → 1 ≤ s.conn.session.chunk_size
    → manager_current_publisher s.conn.stream_manager (asked s.conn args) ≡ none
    → (published closed : RtmpConnection) × (on_publish utf8 s.conn args ≡ proceed none published)
      × (on_read utf8 fuel (record s { conn = published }) (received []) ≡ ended closed)
      × ((id : String)
          → manager_current_publisher closed.stream_manager id
            ≡ manager_current_publisher s.conn.stream_manager id)
unfolding on_read
publish_then_close utf8 fuel s args open_ size free =
    let (after, e, h) = on_publish_lem utf8 s.conn args open_ size in
    let granted : refused s.conn args ≡ false = rw free refl in
    (
      after,
      release_publish_connection (record after { player = none }),
      e,
      refl,
      λ id.
          end_publishers s.conn after args id h granted
          ∙ elim (Bool-cases (asked s.conn args =ˢ id)) [
            | inl z ↦ rw z (
                sym free
                ∙ ap (manager_current_publisher s.conn.stream_manager)
                    ((eq_iff (asked s.conn args) id).0 z))
            | inr n ↦ rw n (now_publishers s.conn after args h granted id ∙ rw n refl)
          ],
    )

-- Whoever else asks for a stream that is held is refused.
others_refused :
    (m : StreamManager) (k publisher_id : String) (other : RtmpConnection) (args : List Amf0Value)
    → manager_current_publisher m k ≡ some publisher_id
    → other.stream_manager ≡ m
    → asked other args ≡ k
    → (publisher_id =ˢ rtmp_publisher other.session.peer_addr) ≡ false
    → refused other args ≡ true
others_refused m k publisher_id other args held same asks differs =
    ap (λ o. taken_by_other o (rtmp_publisher other.session.peer_addr))
      (ap (λ n. manager_current_publisher n (asked other args)) same
        ∙ ap (manager_current_publisher m) asks
        ∙ held)
    ∙ rw differs refl

-- The stream of the second of two `publish` commands.
abbrev pub second_asked : RtmpConnection → List Amf0Value → List Amf0Value → String
second_asked conn first second = stream_name_of (asked conn first) second

-- The second `publish` of a connection, of another stream that is free.
second_publish :
    (utf8 : Utf8) (conn published : RtmpConnection) (first second : List Amf0Value)
    → 1 ≤ conn.session.chunk_size
    → PublishEnd conn first published
    → refused conn first ≡ false
    → (asked conn first =ˢ second_asked conn first second) ≡ false
    → manager_current_publisher conn.stream_manager (second_asked conn first second) ≡ none
    → (again : RtmpConnection) × (on_publish utf8 published second ≡ proceed none again)
      × (manager_current_publisher
            (release_publish_connection (record again { player = none })).stream_manager
            (asked conn first)
          ≡ some (rtmp_publisher conn.session.peer_addr))
unfolding handle_publish
second_publish utf8 conn published first second size h granted differs free =
    let name = asked conn first in
    let k = second_asked conn first second in
    let asks : asked published second ≡ k =
      ap (λ x. stream_name_of x.stream_name second) h.session in
    let there = now_publishers conn published first h granted in
    let free_still : manager_current_publisher published.stream_manager k ≡ none =
      there k
      ∙ ap
          (λ b.
            if b
            then some (rtmp_publisher conn.session.peer_addr)
            else manager_current_publisher conn.stream_manager k)
          differs
      ∙ free in
    let granted2 : refused published second ≡ false =
      ap (λ o. taken_by_other o (rtmp_publisher published.session.peer_addr))
        (ap (manager_current_publisher published.stream_manager) asks ∙ free_still) in
    let apart : (asked published second =ˢ name) ≡ false = rw asks (apart_sym name k differs) in
    let (again, e, h2) =
      on_publish_lem utf8 published second h.writable
        (subst (λ x. 1 ≤ x.chunk_size) (sym h.session) size) in
    (
      again,
      e,
      end_publishers published again second name h2 granted2
          ∙ rw apart (
              now_publishers published again second h2 granted2 name
              ∙ rw apart (now_held conn published first h granted)),
    )

-- A client publishes a free stream, then another free one on the same connection, and closes it. The first stream keeps
-- the client as its publisher: a `publish` of it on a connection from another address is refused.
pub publish_twice_keeps_first :
    (utf8 : Utf8) (fuel : ℕ) (s : Serving) (first second : List Amf0Value)
    → s.conn.writable ≡ true
    → 1 ≤ s.conn.session.chunk_size
    → manager_current_publisher s.conn.stream_manager (asked s.conn first) ≡ none
    → (asked s.conn first =ˢ second_asked s.conn first second) ≡ false
    → manager_current_publisher s.conn.stream_manager (second_asked s.conn first second) ≡ none
    → (published again closed : RtmpConnection) × (on_publish utf8 s.conn first
        ≡ proceed none published)
      × (on_publish utf8 published second ≡ proceed none again)
      × (on_read utf8 fuel (record s { conn = again }) (received []) ≡ ended closed)
      × ((other : RtmpConnection) (args : List Amf0Value)
          → other.stream_manager ≡ closed.stream_manager
          → asked other args ≡ asked s.conn first
          → (rtmp_publisher s.conn.session.peer_addr =ˢ rtmp_publisher other.session.peer_addr)
            ≡ false
          → refused other args ≡ true)
unfolding on_read
publish_twice_keeps_first utf8 fuel s first second open_ size free differs free2 =
    let (published, e, h) = on_publish_lem utf8 s.conn first open_ size in
    let granted : refused s.conn first ≡ false = rw free refl in
    let (again, e2, held) =
      second_publish utf8 s.conn published first second size h granted differs free2 in
    let closed = release_publish_connection (record again { player = none }) in
    (
      published,
      again,
      closed,
      e,
      e2,
      refl,
      λ other args.
          others_refused closed.stream_manager (asked s.conn first)
            (rtmp_publisher s.conn.session.peer_addr) other args held,
    )

short_video_panics :
    (utf8 : Utf8) (fuel : ℕ) (conn : RtmpConnection) (msg : RtmpMessage)
    → msg.msg_type ≡ 0x09
    → byte_at msg.payload 1 ≡ 1
    → 1 < length msg.payload
    → length msg.payload < 5
    → handle_rtmp_message utf8 fuel conn msg
      ≡ panicked (record conn { frames_received = add64 conn.frames_received 1 })
unfolding handle_rtmp_message on_video on_avc_units
short_video_panics utf8 fuel conn msg video units long short =
    let longer : ltb 1 (length msg.payload) ≡ true = ground arith in
    let some_bytes : (length msg.payload == 0) ≡ false = ground arith in
    let shorter : ltb (length msg.payload) 5 ≡ true = ground arith in
    rw (video, longer, some_bytes, units, shorter) refl

-- A client publishes a free stream and then sends a video message of 2 to 4 bytes whose second byte is 1. Its connection
-- panics without a release: a `publish` of the stream on a connection from another address is refused.
pub short_video_keeps_stream :
    (utf8 : Utf8) (fuel : ℕ) (conn : RtmpConnection) (args : List Amf0Value) (msg : RtmpMessage)
    → conn.writable ≡ true
    → 1 ≤ conn.session.chunk_size
    → manager_current_publisher conn.stream_manager (asked conn args) ≡ none
    → msg.msg_type ≡ 0x09
    → byte_at msg.payload 1 ≡ 1
    → 1 < length msg.payload
    → length msg.payload < 5
    → (published gone : RtmpConnection) × (on_publish utf8 conn args ≡ proceed none published)
      × (handle_rtmp_message utf8 fuel published msg ≡ panicked gone)
      × ((other : RtmpConnection) (name : List Amf0Value)
          → other.stream_manager ≡ gone.stream_manager
          → asked other name ≡ asked conn args
          → (rtmp_publisher conn.session.peer_addr =ˢ rtmp_publisher other.session.peer_addr)
            ≡ false
          → refused other name ≡ true)
short_video_keeps_stream utf8 fuel conn args msg open_ size free video units long short =
    let (published, e, h) = on_publish_lem utf8 conn args open_ size in
    let granted : refused conn args ≡ false = rw free refl in
    (
      published,
      _,
      e,
      short_video_panics utf8 fuel published msg video units long short,
      λ other name.
          others_refused published.stream_manager (asked conn args)
            (rtmp_publisher conn.session.peer_addr) other name
            (now_held conn published args h granted),
    )
