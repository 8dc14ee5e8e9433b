-- ===== src/Rtmp/Chunk/Reparse.antt =====
-- src/server/rtmp/chunk.rs: a chunk that comes in two reads. `parse_chunk_header` records the header
-- before the chunk's bytes have all come, and a header with a timestamp delta adds it once more when
-- it is parsed again.
use vcp_media_server.Prelude.{ℕ, ◌+◌, ◌/◌, ◌%◌, ◌^◌, ◌≤◌, ◌<◌, ◌≡◌, false, some, List, ◌∷◌, length}
use vcp_media_server.Prelude.Words.{add32}
use vcp_media_server.Rtmp.Chunk.{ChunkFmt, ChunkHeader, ParsedHeader, ChunkState, insert}
use vcp_media_server.Rtmp.Chunk.Continue.{IsIdle}

-- A chunk header of type 1 with a one-byte basic header.
abbrev pub type1_bytes : ℕ → ℕ → ℕ → ℕ → List ℕ → List ℕ
type1_bytes csid delta len ty more =
    (64 + csid)
    ∷ delta / 2 ^ 16 % 256
    ∷ delta / 2 ^ 8 % 256
    ∷ delta % 256
    ∷ len / 2 ^ 16 % 256
    ∷ len / 2 ^ 8 % 256
    ∷ len % 256
    ∷ ty
    ∷ more

abbrev pub type1_header : ℕ → ℕ → ℕ → ℕ → ChunkHeader → ChunkHeader
type1_header csid delta len ty last = record {
  fmt = ChunkFmt.type1;
  chunk_stream_id = csid;
  timestamp = add32 delta last.timestamp;
  msg_length = len;
  msg_type_id = ty;
  msg_stream_id = last.msg_stream_id;
  has_extended_timestamp = false;
}

module _ (cs csid delta ty : ℕ) (st : ChunkState) (last : ChunkHeader) (payload : List ℕ)
    (lo : 2 ≤ csid) (hi : csid < 64) (hd : delta < 0xFFFFFF) (hl : length payload < 2 ^ 24)
    (known : st.headers csid ≡ some last) (idle : IsIdle st csid) (fits : length payload ≤ cs)
    (pos : 0 < length payload)
    (whole : st.buf ≡ type1_bytes csid delta (length payload) ty payload) where
  abbrev parsed : ParsedHeader
  parsed = record {
    header = type1_header csid delta (length payload) ty last;
    size = 8;
    headers = insert st.headers csid (type1_header csid delta (length payload) ty last);
  }
