-- ===== src/Rtmp/Chunk/Headers.antt =====
-- The chunk headers of src/server/rtmp/chunk.rs: what the encoder writes, the parser reads back.
use vcp_media_server.Prelude.{
  ℕ, ◌/◌, ◌%◌, ◌^◌, ◌≤◌, ◌<◌, ◌≡◌, ◌∙◌, true, false, some, List, ◌++◌, arith, leb, if◌then◌else◌,
  length, length-append, drop-append_length, Bool-cases, inl, inr,
}
use vcp_media_server.Rtmp.Chunk.{
  ChunkFmt, ChunkHeader, IdMap, insert, byte_at, basic_header, fmt_of, RawHeader, message_header,
  inherit, parse_message_header, parse_chunk_header, encode_basic_header, encode_type0_header,
}

-- A chunk stream id that the basic header can carry; 0 and 1 announce the longer forms.
abbrev pub IsId : ℕ → Type 0
IsId csid = (2 ≤ csid) × (csid < 65600)

-- The basic header reads back, whatever follows it.
basic_header-encode :
    (fmt csid : ℕ) (more : List ℕ)
    → fmt < 4
    → IsId csid
    → basic_header (encode_basic_header fmt csid ++ more)
      ≡ some (length (encode_basic_header fmt csid), csid)
unfolding basic_header encode_basic_header
basic_header-encode fmt csid more h id = ground (arith, id)

fmt-encode :
    (fmt csid : ℕ) (more : List ℕ)
    → fmt < 4
    → IsId csid
    → byte_at (encode_basic_header fmt csid ++ more) 0 / 2 ^ 6 % 2 ^ 2 ≡ fmt
unfolding encode_basic_header
fmt-encode fmt csid more h id = ground (arith, id)

pub length-encode_basic : (fmt csid : ℕ) → 1 ≤ length (encode_basic_header fmt csid)
unfolding encode_basic_header
length-encode_basic fmt csid = ground arith

-- So the parser goes on behind it.
parse_behind_basic :
    (fmt csid : ℕ) (more : List ℕ) (hs : IdMap ChunkHeader)
    → fmt < 4
    → IsId csid
    → parse_chunk_header (encode_basic_header fmt csid ++ more) hs
      ≡ parse_message_header
          (encode_basic_header fmt csid ++ more)
          hs
          (length (encode_basic_header fmt csid))
          csid
          (fmt_of fmt)
unfolding parse_chunk_header
parse_behind_basic fmt csid more hs h id = ground (
  arith,
  basic_header-encode fmt csid more h id,
  fmt-encode fmt csid more h id,
  length-encode_basic fmt csid,
  length-append (encode_basic_header fmt csid) more,
)

-- The header that a full chunk header announces.
abbrev pub full_header : ℕ → ℕ → ℕ → ℕ → ℕ → ChunkHeader
full_header csid timestamp len ty sid = record {
  fmt = ChunkFmt.type0;
  chunk_stream_id = csid;
  timestamp = timestamp;
  msg_length = len;
  msg_type_id = ty;
  msg_stream_id = sid;
  has_extended_timestamp = leb 0xFFFFFF timestamp;
}

abbrev full_raw : ℕ → ℕ → ℕ → ℕ → RawHeader
full_raw timestamp len ty sid = record {
  timestamp = timestamp;
  msg_length = len;
  msg_type_id = ty;
  msg_stream_id = sid;
  has_extended_timestamp = leb 0xFFFFFF timestamp;
  size = if leb 0xFFFFFF timestamp then 15 else 11;
}

message_header-encode_short :
    (timestamp len ty sid : ℕ) (more : List ℕ)
    → leb 0xFFFFFF timestamp ≡ false
    → len < 2 ^ 24
    → sid < 2 ^ 32
    → message_header ChunkFmt.type0 (encode_type0_header timestamp len ty sid ++ more)
      ≡ some (full_raw timestamp len ty sid)
unfolding message_header encode_type0_header
message_header-encode_short timestamp len ty sid more long hl hs = rw long (ground (arith, long))

message_header-encode_long :
    (timestamp len ty sid : ℕ) (more : List ℕ)
    → leb 0xFFFFFF timestamp ≡ true
    → timestamp < 2 ^ 32
    → len < 2 ^ 24
    → sid < 2 ^ 32
    → message_header ChunkFmt.type0 (encode_type0_header timestamp len ty sid ++ more)
      ≡ some (full_raw timestamp len ty sid)
unfolding message_header encode_type0_header
message_header-encode_long timestamp len ty sid more long ht hl hs = rw long (ground (arith, long))

message_header-encode :
    (timestamp len ty sid : ℕ) (more : List ℕ)
    → timestamp < 2 ^ 32
    → len < 2 ^ 24
    → sid < 2 ^ 32
    → message_header ChunkFmt.type0 (encode_type0_header timestamp len ty sid ++ more)
      ≡ some (full_raw timestamp len ty sid)
message_header-encode timestamp len ty sid more ht hl hs =
    elim (Bool-cases (leb 0xFFFFFF timestamp)) [
      | inl long ↦ message_header-encode_long timestamp len ty sid more long ht hl hs
      | inr short ↦ message_header-encode_short timestamp len ty sid more short hl hs
    ]

pub length-encode_type0 :
    (timestamp len ty sid : ℕ)
    → length (encode_type0_header timestamp len ty sid)
      ≡ (if leb 0xFFFFFF timestamp then 15 else 11)
unfolding encode_type0_header
length-encode_type0 timestamp len ty sid = elim (Bool-cases (leb 0xFFFFFF timestamp)) [
  | inl long ↦ rw long
  | inr short ↦ rw short
]

-- The bytes of a full chunk header.
abbrev pub full_bytes : ℕ → ℕ → ℕ → ℕ → ℕ → List ℕ
full_bytes csid timestamp len ty sid =
    encode_basic_header 0 csid ++ encode_type0_header timestamp len ty sid

-- A full header reads back, whatever follows it and whatever headers are recorded, and is recorded.
pub parse-full_header :
    (csid timestamp len ty sid : ℕ) (more : List ℕ) (hs : IdMap ChunkHeader)
    → IsId csid
    → timestamp < 2 ^ 32
    → len < 2 ^ 24
    → sid < 2 ^ 32
    → parse_chunk_header
        (encode_basic_header 0 csid ++ (encode_type0_header timestamp len ty sid ++ more))
        hs
      ≡ some (record {
        header = full_header csid timestamp len ty sid;
        size = length (full_bytes csid timestamp len ty sid);
        headers = insert hs csid (full_header csid timestamp len ty sid);
      })
parse-full_header csid timestamp len ty sid more hs id ht hl hsid =
    parse_behind_basic 0 csid (encode_type0_header timestamp len ty sid ++ more) hs (omega arith) id
    ∙ unfold parse_message_header inherit in
      ground (
        arith,
        drop-append_length (encode_basic_header 0 csid)
            (encode_type0_header timestamp len ty sid ++ more),
        message_header-encode timestamp len ty sid more ht hl hsid,
        length-append (encode_basic_header 0 csid)
            (encode_type0_header timestamp len ty sid ++ more),
        length-append (encode_type0_header timestamp len ty sid) more,
        length-append (encode_basic_header 0 csid) (encode_type0_header timestamp len ty sid),
        length-encode_type0 timestamp len ty sid,
      )

-- The header of a continuation chunk.
abbrev pub again_header : ℕ → ChunkHeader → ChunkHeader
again_header csid last = record last {
  fmt = ChunkFmt.type3;
  chunk_stream_id = csid;
  has_extended_timestamp = false;
}

-- A continuation header reads back as the last header of its chunk stream.
pub parse-again_header :
    (csid : ℕ) (more : List ℕ) (hs : IdMap ChunkHeader) (last : ChunkHeader)
    → IsId csid
    → hs csid ≡ some last
    → parse_chunk_header (encode_basic_header 3 csid ++ more) hs
      ≡ some (record {
        header = again_header csid last;
        size = length (encode_basic_header 3 csid);
        headers = insert hs csid (again_header csid last);
      })
parse-again_header csid more hs last id known =
    parse_behind_basic 3 csid more hs (omega arith) id
    ∙ unfold parse_message_header inherit message_header in
      ground (
        arith,
        drop-append_length (encode_basic_header 3 csid) more,
        length-append (encode_basic_header 3 csid) more,
        known,
      )
