-- ===== src/Rtmp/Connection/Serve.antt =====
-- `handle_connection` of src/server/rtmp/mod.rs: what a connection does with what the socket gives it.
use vcp_media_server.Prelude.{
  ℕ, zero, suc, Bool, true, false, Option, none, some, List, [], ◌∷◌, ◌++◌, length, ◌==◌,
  if◌then◌else◌,
}
use vcp_media_server.Rtmp.Chunk.{ChunkState, parse_chunks}
use vcp_media_server.Rtmp.Amf0.{Utf8}
use vcp_media_server.Rtmp.Session.{SessionState}
use vcp_media_server.Rtmp.Connection.{
  RtmpConnection, Reply, proceed, write_failed, panicked, out_of_rounds, write_all,
  release_publish_connection, handle_handshake, Handshake,
}
use vcp_media_server.Rtmp.Connection.Messages.{handle_rtmp_message}

-- The variables of the loop; the buffer is that of the chunk parser.
pub record Serving : Type 0 where
  pub conn : RtmpConnection
  pub chunks : ChunkState
  pub chunk_size : ℕ
  pub handshake_done : Bool
  pub handshake_first_call : Bool

-- What `read` answers; no bytes mean that the peer has closed.
pub data ReadResult : Type 0 where
  received : List ℕ → ReadResult
  read_failed : ReadResult

-- The loop goes on; it has ended, by a break or an error; it has panicked; or it does not return.
pub data Served : Type 0 where
  serving : Serving → Served
  ended crashed : RtmpConnection → Served
  hanging : Served

-- The `while let` over the messages in the buffer. A new chunk size is kept until the last one.
unfoldable pub serve_messages : Utf8 → ℕ → ℕ → Serving → Option ℕ → Served
serve_messages utf8 fuel zero s pending = hanging
serve_messages utf8 fuel (suc rounds) s pending =
    elim (parse_chunks (suc (length s.chunks.buf)) s.chunk_size s.chunks) [
      | none ↦ hanging
      | some (chunks, none) ↦ serving (record s {
        chunks = chunks;
        chunk_size = elim pending [ some size ↦ size | none ↦ s.chunk_size ];
      })
      | some (chunks, some msg) ↦ elim (handle_rtmp_message utf8 fuel s.conn msg) [
        | proceed size conn ↦
            serve_messages utf8 fuel rounds (record s { conn = conn; chunks = chunks })
              (elim size [ some n ↦ some n | none ↦ pending ])
        | write_failed conn ↦ ended conn
        | panicked conn ↦ crashed conn
        | out_of_rounds ↦ hanging
      ]
    ]

unfoldable pub with_buffer : Serving → List ℕ → Serving
with_buffer s buf = record s { chunks = record s.chunks { buf = buf } }

-- The messages, once the handshake is done.
unfoldable pub after_handshake : Utf8 → ℕ → Serving → Served
after_handshake utf8 fuel s = serve_messages utf8 fuel (suc (length s.chunks.buf)) s none

-- What follows a call of `handle_handshake`, and the write of its answer.
unfoldable pub after_answer : Utf8 → ℕ → Serving → Handshake → Served
after_answer utf8 fuel s h =
    let left = with_buffer s h.buffer in
    let answered : Reply =
      if length h.response == 0 then proceed none s.conn else write_all s.conn h.response in
    elim answered [
      | proceed size conn ↦
          if h.finished
          then after_handshake utf8 fuel (record left {
            conn = record conn { session = record conn.session { state = SessionState.connected } };
            handshake_done = true;
          })
          else serving (record left { conn = conn; handshake_first_call = false })
      | write_failed conn ↦ ended conn
      | panicked conn ↦ crashed conn
      | out_of_rounds ↦ hanging
    ]

unfoldable pub on_handshake : Utf8 → ℕ → Serving → Served
on_handshake utf8 fuel s =
    after_answer utf8 fuel s (handle_handshake s.chunks.buf s.handshake_first_call)

-- One round of the loop.
unfoldable pub on_read : Utf8 → ℕ → Serving → ReadResult → Served
on_read utf8 fuel s read_failed = ended (release_publish_connection s.conn)
on_read utf8 fuel s (received []) =
    ended (release_publish_connection (record s.conn { player = none }))
on_read utf8 fuel s (received (b ∷ bs)) =
    let t = with_buffer s (s.chunks.buf ++ (b ∷ bs)) in
    if t.handshake_done then after_handshake utf8 fuel t else on_handshake utf8 fuel t

-- The loop, on what the reads give one after the other.
unfoldable pub serve : Utf8 → ℕ → Served → List ReadResult → Served
serve utf8 fuel s [] = s
serve utf8 fuel (serving s) (r ∷ rs) = serve utf8 fuel (on_read utf8 fuel s r) rs
serve utf8 fuel (ended conn) (r ∷ rs) = ended conn
serve utf8 fuel (crashed conn) (r ∷ rs) = crashed conn
serve utf8 fuel hanging (r ∷ rs) = hanging
