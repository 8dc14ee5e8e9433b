-- ===== src/Rtmp/Chunk.antt =====
-- src/server/rtmp/chunk.rs: the chunk stream, its headers, and messages cut into chunks.
-- The `HashMap`s by chunk stream id are functions into `Option`. A buffer of bytes is a list; `a << 16
-- | b << 8 | c` of three bytes is a sum, since the bytes do not overlap. `timestamp +=` on `u32` wraps
-- (in a release build). Loops run on fuel, and `none` outside a result says that it was used up.
pub mod Headers
pub mod Continue
pub mod RoundTrip
mod Tests
pub mod Reparse
pub mod Progress
pub mod Message
pub mod Oversized
use vcp_media_server.Prelude.{
  ℕ, zero, suc, ◌+◌, ◌-◌, ◌*◌, ◌/◌, ◌%◌, ◌^◌, min, Bool, true, false, ◌&&◌, ◌||◌, Option, none,
  some, List, [], ◌∷◌, ◌++◌, ltb, leb, ◌==◌, if◌then◌else◌, length, take, drop, or_else,
}
use vcp_media_server.Prelude.Words.{add32}

pub data ChunkFmt : Type 0 where
  type0 type1 type2 type3 : ChunkFmt

pub record ChunkHeader : Type 0 where
  pub fmt : ChunkFmt
  pub chunk_stream_id : ℕ
  pub timestamp : ℕ
  pub msg_length : ℕ
  pub msg_type_id : ℕ
  pub msg_stream_id : ℕ
  pub has_extended_timestamp : Bool

pub record ChunkAssembler : Type 0 where
  pub timestamp : ℕ
  pub msg_length : ℕ
  pub msg_type_id : ℕ
  pub msg_stream_id : ℕ
  pub received : ℕ
  pub buffer : List ℕ

abbrev pub default_assembler : ChunkAssembler
default_assembler = record {
  timestamp = 0;
  msg_length = 0;
  msg_type_id = 0;
  msg_stream_id = 0;
  received = 0;
  buffer = [];
}

pub record RtmpMessage : Type 0 where
  pub msg_type : ℕ
  pub timestamp : ℕ
  pub msg_stream_id : ℕ
  pub payload : List ℕ

-- A hash map by chunk stream id.
abbrev pub IdMap : Type 0 → Type 0
IdMap V = ℕ → Option V

abbrev pub insert : {V : Type 0} → IdMap V → ℕ → V → IdMap V
insert m k v j = if j == k then some v else m j

-- `buf[i]`; each use is behind a check of the length.
abbrev pub byte_at : List ℕ → ℕ → ℕ
byte_at [] i = 0
byte_at (b ∷ bs) zero = b
byte_at (b ∷ bs) (suc i) = byte_at bs i

abbrev pub be24 : List ℕ → ℕ → ℕ
be24 bs i = byte_at bs i * 2 ^ 16 + byte_at bs (i + 1) * 2 ^ 8 + byte_at bs (i + 2)

abbrev pub be32 : List ℕ → ℕ → ℕ
be32 bs i =
    byte_at bs i * 2 ^ 24
    + byte_at bs (i + 1) * 2 ^ 16
    + byte_at bs (i + 2) * 2 ^ 8
    + byte_at bs (i + 3)

abbrev pub le32 : List ℕ → ℕ → ℕ
le32 bs i =
    byte_at bs i
    + byte_at bs (i + 1) * 2 ^ 8
    + byte_at bs (i + 2) * 2 ^ 16
    + byte_at bs (i + 3) * 2 ^ 24

-- The size of the basic header and the chunk stream id.
unfoldable pub basic_header : List ℕ → Option (ℕ × ℕ)
basic_header buf =
    let cs_id_raw = byte_at buf 0 % 2 ^ 6 in
    if cs_id_raw == 0
    then (if ltb (length buf) 2 then none else some (2, 64 + byte_at buf 1))
    else if cs_id_raw == 1
    then (if ltb (length buf) 3 then none else some (3, 64 + byte_at buf 1 + byte_at buf 2 * 256))
    else some (1, cs_id_raw)

-- `fmt_val` is a number of two bits.
abbrev pub fmt_of : ℕ → ChunkFmt
fmt_of v =
    if v == 0
    then ChunkFmt.type0
    else if v == 1
    then ChunkFmt.type1
    else if v == 2
    then ChunkFmt.type2
    else ChunkFmt.type3

abbrev pub msg_header_size : ChunkFmt → ℕ
msg_header_size ChunkFmt.type0 = 11
msg_header_size ChunkFmt.type1 = 7
msg_header_size ChunkFmt.type2 = 3
msg_header_size ChunkFmt.type3 = 0

-- What the message header's own bytes say, and where the header ends behind the basic header.
pub record RawHeader : Type 0 where
  pub timestamp : ℕ
  pub msg_length : ℕ
  pub msg_type_id : ℕ
  pub msg_stream_id : ℕ
  pub has_extended_timestamp : Bool
  pub size : ℕ

abbrev pub raw_fields : ChunkFmt → List ℕ → RawHeader
raw_fields ChunkFmt.type0 rest = record {
  timestamp = be24 rest 0;
  msg_length = be24 rest 3;
  msg_type_id = byte_at rest 6;
  msg_stream_id = le32 rest 7;
  has_extended_timestamp = false;
  size = 11;
}
raw_fields ChunkFmt.type1 rest = record {
  timestamp = be24 rest 0;
  msg_length = be24 rest 3;
  msg_type_id = byte_at rest 6;
  msg_stream_id = 0;
  has_extended_timestamp = false;
  size = 7;
}
raw_fields ChunkFmt.type2 rest = record {
  timestamp = be24 rest 0;
  msg_length = 0;
  msg_type_id = 0;
  msg_stream_id = 0;
  has_extended_timestamp = false;
  size = 3;
}
raw_fields ChunkFmt.type3 rest = record {
  timestamp = 0;
  msg_length = 0;
  msg_type_id = 0;
  msg_stream_id = 0;
  has_extended_timestamp = false;
  size = 0;
}

-- The extended timestamp, where the three-byte one is all ones.
unfoldable pub message_header : ChunkFmt → List ℕ → Option RawHeader
message_header fmt rest =
    let raw = raw_fields fmt rest in
    if raw.timestamp == 0xFFFFFF
    then (if ltb (length rest) (raw.size + 4)
        then none
        else some (record raw {
          timestamp = be32 rest raw.size;
          has_extended_timestamp = true;
          size = raw.size + 4;
        }))
    else some raw

abbrev pub own_header : ChunkFmt → ℕ → RawHeader → ChunkHeader
own_header fmt csid raw = record {
  fmt = fmt;
  chunk_stream_id = csid;
  timestamp = raw.timestamp;
  msg_length = raw.msg_length;
  msg_type_id = raw.msg_type_id;
  msg_stream_id = raw.msg_stream_id;
  has_extended_timestamp = raw.has_extended_timestamp;
}

-- The fields that a shorter header takes from the last header of its chunk stream.
unfoldable pub inherit : ChunkFmt → ℕ → RawHeader → Option ChunkHeader → Option ChunkHeader
inherit ChunkFmt.type0 csid raw last = some (own_header ChunkFmt.type0 csid raw)
inherit ChunkFmt.type1 csid raw none = none
inherit ChunkFmt.type1 csid raw (some last) = some (record (own_header ChunkFmt.type1 csid raw) {
  timestamp = add32 raw.timestamp last.timestamp;
  msg_stream_id = last.msg_stream_id;
})
inherit ChunkFmt.type2 csid raw none = none
inherit ChunkFmt.type2 csid raw (some last) = some (record (own_header ChunkFmt.type2 csid raw) {
  timestamp = add32 raw.timestamp last.timestamp;
  msg_length = last.msg_length;
  msg_type_id = last.msg_type_id;
  msg_stream_id = last.msg_stream_id;
})
inherit ChunkFmt.type3 csid raw none = none
inherit ChunkFmt.type3 csid raw (some last) = some (record (own_header ChunkFmt.type3 csid raw) {
  timestamp = last.timestamp;
  msg_length = last.msg_length;
  msg_type_id = last.msg_type_id;
  msg_stream_id = last.msg_stream_id;
})

pub record ParsedHeader : Type 0 where
  pub header : ChunkHeader
  pub size : ℕ
  pub headers : IdMap ChunkHeader

-- The part of `parse_chunk_header` behind the basic header of `basic` bytes.
unfoldable pub parse_message_header :
    List ℕ → IdMap ChunkHeader → ℕ → ℕ → ChunkFmt → Option ParsedHeader
parse_message_header buf headers basic csid fmt =
    if ltb (length buf) (basic + msg_header_size fmt)
    then none
    else elim (message_header fmt (drop basic buf)) [
      | none ↦ none
      | some raw ↦ elim (inherit fmt csid raw (headers csid)) [
        | none ↦ none
        | some header ↦ some (record {
          header = header;
          size = basic + raw.size;
          headers = insert headers csid header;
        })
      ]
    ]

-- The map is changed only where a header is returned.
unfoldable pub parse_chunk_header : List ℕ → IdMap ChunkHeader → Option ParsedHeader
parse_chunk_header buf headers = if length buf == 0 then none else elim (basic_header buf) [
  | none ↦ none
  | some (basic, csid) ↦
      parse_message_header buf headers basic csid (fmt_of (byte_at buf 0 / 2 ^ 6 % 2 ^ 2))
]

-- The arguments of `parse_chunks` that it changes.
pub record ChunkState : Type 0 where
  pub buf : List ℕ
  pub assemblers : IdMap ChunkAssembler
  pub headers : IdMap ChunkHeader

-- How one round of the loop ends: it returns `None`, goes round again, or returns a message.
pub data ChunkStep : Type 0 where
  wait : ChunkState → ChunkStep
  again : ChunkState → ChunkStep
  complete : ChunkState → RtmpMessage → ChunkStep

abbrev pub remaining_msg : Option ChunkAssembler → ChunkHeader → ℕ
remaining_msg none header = header.msg_length
remaining_msg (some a) header =
    if ltb 0 a.msg_length then a.msg_length - a.received else header.msg_length

abbrev pub absorb : ChunkAssembler → ChunkHeader → List ℕ → ChunkAssembler
absorb a header bytes = record {
  timestamp = header.timestamp;
  msg_length = header.msg_length;
  msg_type_id = header.msg_type_id;
  msg_stream_id = header.msg_stream_id;
  received = a.received + length bytes;
  buffer = a.buffer ++ bytes;
}

abbrev pub message_of : ChunkAssembler → RtmpMessage
message_of a = record {
  msg_type = a.msg_type_id;
  timestamp = a.timestamp;
  msg_stream_id = a.msg_stream_id;
  payload = a.buffer;
}

abbrev pub cleared : ChunkAssembler → ChunkAssembler
cleared a = record a { msg_length = 0; received = 0; buffer = [] }

-- The rest of a round, once the chunk's bytes are at hand.
unfoldable pub assemble : ChunkState → ParsedHeader → ℕ → ChunkStep
assemble st p data_size =
    let csid = p.header.chunk_stream_id in
    let a =
      absorb (or_else (st.assemblers csid) default_assembler) p.header
        (take data_size (drop p.size st.buf)) in
    let rest = drop (p.size + data_size) st.buf in
    if leb a.msg_length a.received && ltb 0 a.msg_length
    then complete
        (record {
          buf = rest;
          assemblers = insert st.assemblers csid (cleared a);
          headers = p.headers;
        })
        (message_of a)
    else again
        (record { buf = rest; assemblers = insert st.assemblers csid a; headers = p.headers })

-- A chunk whose bytes have not all come leaves the buffer, but its header is recorded already.
unfoldable pub chunk_step : ℕ → ChunkState → ChunkStep
chunk_step chunk_size st = elim (parse_chunk_header st.buf st.headers) [
  | none ↦ wait st
  | some p ↦
      let data_size =
        min chunk_size (remaining_msg (st.assemblers p.header.chunk_stream_id) p.header) in
      if ltb (length st.buf) (p.size + data_size)
      then wait (record st { headers = p.headers })
      else assemble st p data_size
]

unfoldable pub parse_chunks : ℕ → ℕ → ChunkState → Option (ChunkState × Option RtmpMessage)
parse_chunks zero chunk_size st = none
parse_chunks (suc fuel) chunk_size st = elim (chunk_step chunk_size st) [
  | wait s ↦ some (s, none)
  | again s ↦ parse_chunks fuel chunk_size s
  | complete s msg ↦ some (s, some msg)
]

-- `encode_basic_header`; `fmt` is a number of two bits.
unfoldable pub encode_basic_header : ℕ → ℕ → List ℕ
encode_basic_header fmt cs_id =
    if ltb cs_id 64
    then (fmt * 2 ^ 6 + cs_id) ∷ []
    else if ltb cs_id 320
    then fmt * 2 ^ 6 ∷ (cs_id - 64) % 256 ∷ []
    else (fmt * 2 ^ 6 + 1) ∷ (cs_id - 64) % 256 ∷ (cs_id - 64) / 2 ^ 8 % 256 ∷ []

abbrev pub put24 : ℕ → List ℕ
put24 v = v / 2 ^ 16 % 256 ∷ v / 2 ^ 8 % 256 ∷ v % 256 ∷ []

-- `u32::to_be_bytes`
abbrev pub put32 : ℕ → List ℕ
put32 v = v / 2 ^ 24 % 256 ∷ v / 2 ^ 16 % 256 ∷ v / 2 ^ 8 % 256 ∷ v % 256 ∷ []

abbrev pub put32_le : ℕ → List ℕ
put32_le v = v % 256 ∷ v / 2 ^ 8 % 256 ∷ v / 2 ^ 16 % 256 ∷ v / 2 ^ 24 % 256 ∷ []

unfoldable pub encode_type0_header : ℕ → ℕ → ℕ → ℕ → List ℕ
encode_type0_header timestamp msg_length msg_type msg_stream_id =
    (if leb 0xFFFFFF timestamp then 0xFF ∷ 0xFF ∷ 0xFF ∷ [] else put24 timestamp)
    ++ (put24 msg_length
        ++ ((msg_type ∷ put32_le msg_stream_id)
            ++ (if leb 0xFFFFFF timestamp then put32 timestamp else [])))

-- The `while` loop behind the first chunk: what it appends for the payload still to be sent.
unfoldable pub encode_rest : ℕ → ℕ → ℕ → List ℕ → Option (List ℕ)
encode_rest zero chunk_size csid left = if length left == 0 then some [] else none
encode_rest (suc fuel) chunk_size csid left =
    let rest = encode_rest fuel chunk_size csid (drop (min chunk_size (length left)) left) in
    if length left == 0 then some [] else elim rest [
      | none ↦ none
      | some more ↦
          some (encode_basic_header 3 csid ++ (take (min chunk_size (length left)) left ++ more))
    ]

-- The first round writes the full header, also for an empty payload. `none`: the fuel is used up.
unfoldable pub encode_message : ℕ → ℕ → ℕ → ℕ → List ℕ → ℕ → ℕ → Option (List ℕ)
encode_message fuel msg_type timestamp msg_stream_id payload chunk_size csid =
    let data_len = min chunk_size (length payload) in
    elim (encode_rest fuel chunk_size csid (drop data_len payload)) [
      | none ↦ none
      | some more ↦ some (
          encode_basic_header 0 csid
          ++ (encode_type0_header timestamp (length payload % 2 ^ 32) msg_type msg_stream_id
              ++ (take data_len payload ++ more)))
    ]
