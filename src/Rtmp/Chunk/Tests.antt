-- ===== src/Rtmp/Chunk/Tests.antt =====
-- src/server/rtmp/chunk.rs at concrete inputs.
use vcp_media_server.Prelude.{ℕ, ◌≡◌, refl, false, Option, none, some, List, [], ◌∷◌, ◌++◌, arith}
use vcp_media_server.Rtmp.Chunk.{
  ChunkFmt, ChunkHeader, RtmpMessage, IdMap, insert, ChunkState, parse_chunks, encode_message,
  encode_rest, encode_basic_header, encode_type0_header,
}
use vcp_media_server.Rtmp.Chunk.Continue.{IsIdle, message, Delivers}
use vcp_media_server.Rtmp.Chunk.Message.{parse_chunks-encode_message}
use vcp_media_server.Rtmp.Chunk.Progress.{parse_chunks-returns}
use vcp_media_server.Rtmp.Chunk.Reparse.{type1_bytes}

abbrev five : List ℕ
five = 104 ∷ 101 ∷ 108 ∷ 108 ∷ 111 ∷ []

-- Five bytes in chunks of two on chunk stream 3: one full header and two continuations.
abbrev five_chunks : List ℕ
five_chunks =
    3 ∷ 0 ∷ 0 ∷ 100 ∷ 0 ∷ 0 ∷ 5 ∷ 0x14 ∷ 1 ∷ 0 ∷ 0 ∷ 0 ∷ 104 ∷ 101 ∷ 0xC3 ∷ 108 ∷ 108 ∷ 0xC3 ∷ 111
    ∷ []

encode_five : encode_message 5 0x14 100 1 five 2 3 ≡ some five_chunks
unfolding encode_message encode_rest encode_basic_header encode_type0_header
encode_five = refl

abbrev empty_map : {V : Type 0} → IdMap V
empty_map k = none

abbrev reading : List ℕ → ChunkState
reading buf = record { buf = buf; assemblers = empty_map; headers = empty_map }

reading-IsIdle : (buf : List ℕ) → IsIdle (reading buf) 3
reading-IsIdle buf = record { idle = λ a e. ground arith }

parse_chunks-encode_message_example :
    Delivers
      (parse_chunks 6 2 (reading (five_chunks ++ (7 ∷ []))))
      3
      (message 0x14 100 1 five)
      (7 ∷ [])
parse_chunks-encode_message_example =
    parse_chunks-encode_message 5 5 0x14 100 1 2 3 five five_chunks (7 ∷ [])
      (reading (five_chunks ++ (7 ∷ []))) (omega arith) (omega arith) (omega arith) (omega arith)
      (omega arith) (omega arith) (reading-IsIdle (five_chunks ++ (7 ∷ []))) encode_five refl
      (omega arith)

parse_chunks-returns_example :
    (r : ChunkState × Option RtmpMessage) × (parse_chunks 20 2 (reading five_chunks) ≡ some r)
parse_chunks-returns_example = parse_chunks-returns 20 2 (reading five_chunks) (omega arith)

abbrev last_video : ChunkHeader
last_video = record {
  fmt = ChunkFmt.type0;
  chunk_stream_id = 6;
  timestamp = 1000;
  msg_length = 3;
  msg_type_id = 9;
  msg_stream_id = 1;
  has_extended_timestamp = false;
}

abbrev mid_stream : ChunkState
mid_stream = record {
  buf = type1_bytes 6 40 3 9 (1 ∷ []);
  assemblers = empty_map;
  headers = insert empty_map 6 last_video;
}
