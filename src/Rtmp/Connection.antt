-- ===== src/Rtmp/Connection.antt =====
-- src/server/rtmp/mod.rs: a client's connection. What it writes is collected in the record; `writable` says whether a
-- write to the socket succeeds. The stream manager is shared by all connections: an operation takes it as it is and
-- leaves it as it makes it. The task that forwards frames to a player is the reader that it is started with, and
-- the requests to restart an HLS stream are collected; logging is left out.
pub mod Commands
pub mod Messages
pub mod Serve
pub mod Holder
pub mod Publish
pub mod Hold
pub mod Handshakes
pub mod ChunkSize
use Prim.Native.String.{◌++◌ as ◌++ˢ◌}
use vcp_media_server.Prelude.{
  ℕ, zero, suc, String, Bool, true, false, not, Option, none, some, List, [], ◌∷◌, ◌++◌, length,
  take, drop, ltb, leb, ◌==◌, if◌then◌else◌, ◌&&◌,
}
use vcp_media_server.Media.{StreamStatus}
use vcp_media_server.StreamManager.{StreamManager, manager_release_publisher, set_status}
use vcp_media_server.Dispatch.Reader.{DispatchReader}
use vcp_media_server.Rtmp.Chunk.{encode_message, byte_at}
use vcp_media_server.Rtmp.Session.{RtmpSession, new_session}

pub record RtmpConnection : Type 0 where
  pub stream_manager : StreamManager
  pub hls_server : Bool
  pub session : RtmpSession
  pub chunk_size : ℕ
  pub frames_received : ℕ
  pub is_publishing : Bool
  pub stream_id : String
  pub publisher_id : Option String
  pub player : Option DispatchReader
  pub writable : Bool
  pub written : List ℕ
  pub restarts : List String

-- `RtmpConnection::new`
abbrev pub new_connection : StreamManager → Bool → String → Bool → RtmpConnection
new_connection m hls_server peer_addr writable = record {
  stream_manager = m;
  hls_server = hls_server;
  session = new_session peer_addr;
  chunk_size = 4096;
  frames_received = 0;
  is_publishing = false;
  stream_id = "";
  publisher_id = none;
  player = none;
  writable = writable;
  written = [];
  restarts = [];
}

-- How a handler ends: it goes on, with the new chunk size if there is one; a write fails and the connection ends
-- by `?`; it panics; or a loop has run out of rounds.
pub data Reply : Type 0 where
  proceed : Option ℕ → RtmpConnection → Reply
  write_failed : RtmpConnection → Reply
  panicked : RtmpConnection → Reply
  out_of_rounds : Reply

abbrev pub and_then : Reply → (RtmpConnection → Reply) → Reply
and_then (proceed size conn) f = f conn
and_then (write_failed conn) f = write_failed conn
and_then (panicked conn) f = panicked conn
and_then out_of_rounds f = out_of_rounds

abbrev pub done : RtmpConnection → Reply
done conn = proceed none conn

-- `write_all`
unfoldable pub write_all : RtmpConnection → List ℕ → Reply
write_all conn bytes =
    if conn.writable
    then done (record conn { written = conn.written ++ bytes })
    else write_failed conn

-- `encode_message` and `write_all`; the rounds are enough for every payload.
unfoldable pub write_message : RtmpConnection → ℕ → ℕ → List ℕ → ℕ → ℕ → Reply
unfolding write_all
write_message conn msg_type msg_stream_id payload chunk_size csid =
    elim (encode_message (length payload) msg_type 0 msg_stream_id payload chunk_size csid) [
      | none ↦ out_of_rounds
      | some bytes ↦ write_all conn bytes
    ]

abbrev pub rtmp_publisher : String → String
rtmp_publisher peer_addr = "rtmp:" ++ˢ peer_addr

-- The manager once the publisher has left the stream.
unfoldable pub released : StreamManager → String → String → StreamManager
released m stream_id publisher_id =
    let (released, after) = manager_release_publisher m stream_id publisher_id in
    if released then (set_status after stream_id StreamStatus.unpublished).1 else after

unfoldable pub release_publish_connection : RtmpConnection → RtmpConnection
release_publish_connection conn =
    if conn.is_publishing
    then elim conn.publisher_id [
      | none ↦ record conn { is_publishing = false }
      | some publisher_id ↦ record conn {
        stream_manager = released conn.stream_manager conn.stream_id publisher_id;
        publisher_id = none;
        is_publishing = false;
      }
    ]
    else conn

-- What `handle_handshake` answers: whether the handshake is done, what is left of the buffer, and the bytes that
-- it sends.
pub record Handshake : Type 0 where
  pub finished : Bool
  pub buffer : List ℕ
  pub response : List ℕ

unfoldable pub zero_bytes : ℕ → List ℕ
zero_bytes zero = []
zero_bytes (suc n) = 0 ∷ zero_bytes n

unfoldable pub handle_handshake : List ℕ → Bool → Handshake
handle_handshake buf first_call =
    let left = if first_call then drop 1537 buf else buf in
    let response = if first_call then 3 ∷ (zero_bytes 1536 ++ take 1536 (drop 1 buf)) else [] in
    if ltb (length buf) 1537
    then record { finished = false; buffer = buf; response = [] }
    else if first_call && not (byte_at buf 0 == 3)
    then record { finished = false; buffer = []; response = [] }
    else if leb 1536 (length left)
    then record { finished = true; buffer = drop 1536 left; response = response }
    else record { finished = false; buffer = left; response = response }
