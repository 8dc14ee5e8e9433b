-- ===== src/Rtmp/Chunk/Continue.antt =====
-- src/server/rtmp/chunk.rs: one round of the assembler on a continuation chunk.
use vcp_media_server.Prelude.{
  ℕ, suc, ◌+◌, ◌≤◌, ◌<◌, ◌≡◌, refl, ap, ◌∙◌, min, ◌&&◌, Option, some, List, [], ◌∷◌, ◌++◌, arith,
  ltb, leb, if◌then◌else◌, length, drop, or_else, length-append, drop-append_length,
  take-append_length,
}
use vcp_media_server.Rtmp.Chunk.{
  ChunkHeader, ChunkAssembler, RtmpMessage, default_assembler, IdMap, insert, ParsedHeader,
  parse_chunk_header, ChunkState, ChunkStep, again, complete, remaining_msg, absorb, message_of,
  cleared, assemble, chunk_step, parse_chunks, encode_basic_header,
}
use vcp_media_server.Rtmp.Chunk.Headers.{IsId, again_header, parse-again_header}

pub drop-append_more : (xs ys : List ℕ) (n : ℕ) → drop (length xs + n) (xs ++ ys) ≡ drop n ys
drop-append_more [] ys n = let e : 0 + n ≡ n = omega arith in rw e
drop-append_more (x ∷ xs) ys n =
    let e : suc (length xs) + n ≡ suc (length xs + n) = omega arith in
    rw e (drop-append_more xs ys n)

-- How a round ends on a chunk whose bytes are `piece`, with `tail` behind it.
abbrev pub finish : ChunkState → ParsedHeader → List ℕ → List ℕ → ChunkStep
finish st p piece tail =
    let csid = p.header.chunk_stream_id in
    let a = absorb (or_else (st.assemblers csid) default_assembler) p.header piece in
    if leb a.msg_length a.received && ltb 0 a.msg_length
    then complete
        (record {
          buf = tail;
          assemblers = insert st.assemblers csid (cleared a);
          headers = p.headers;
        })
        (message_of a)
    else again
        (record { buf = tail; assemblers = insert st.assemblers csid a; headers = p.headers })

module _ (cs : ℕ) (st : ChunkState) (p : ParsedHeader) (pre piece tail : List ℕ)
    (parsed : parse_chunk_header st.buf st.headers ≡ some p) (size : p.size ≡ length pre)
    (whole : st.buf ≡ pre ++ (piece ++ tail))
    (room : length piece
      ≡ min cs (remaining_msg (st.assemblers p.header.chunk_stream_id) p.header)) where
  length-buf : length st.buf ≡ length pre + (length piece + length tail)
  length-buf =
      omega (arith, ap length whole, length-append pre (piece ++ tail), length-append piece tail)

  assemble-finish : assemble st p (length piece) ≡ finish st p piece tail
  unfolding assemble
  assemble-finish = rw (
    size,
    whole,
    drop-append_more pre (piece ++ tail) (length piece),
    drop-append_length pre (piece ++ tail),
    take-append_length piece tail,
    drop-append_length piece tail,
  )

  pub chunk_step-finish : chunk_step cs st ≡ finish st p piece tail
  unfolding chunk_step
  chunk_step-finish = ground (arith, parsed, room, size, length-buf, assemble-finish)

-- The message that is being put together: its first bytes are `got`, and its header is recorded.
pub record Partial (st : ChunkState) (csid timestamp len ty sid : ℕ) (got : List ℕ) : Type 0 where
  pub a : ChunkAssembler
  pub last : ChunkHeader
  pub held : st.assemblers csid ≡ some a
  pub known : st.headers csid ≡ some last
  pub a_length : a.msg_length ≡ len
  pub a_received : a.received ≡ length got
  pub a_buffer : a.buffer ≡ got
  pub h_timestamp : last.timestamp ≡ timestamp
  pub h_length : last.msg_length ≡ len
  pub h_type : last.msg_type_id ≡ ty
  pub h_stream : last.msg_stream_id ≡ sid

-- No message of this chunk stream is under way.
pub record IsIdle (st : ChunkState) (csid : ℕ) : Type 0 where
  pub idle :
      (a : ChunkAssembler)
      → st.assemblers csid ≡ some a
      → (a.msg_length ≡ 0) × (a.received ≡ 0) × (a.buffer ≡ [])

abbrev pub message : ℕ → ℕ → ℕ → List ℕ → RtmpMessage
message ty timestamp sid payload = record {
  msg_type = ty;
  timestamp = timestamp;
  msg_stream_id = sid;
  payload = payload;
}

-- The parser returns the message `m` and leaves `tail`, with the chunk stream idle again.
abbrev pub Delivers : Option (ChunkState × Option RtmpMessage) → ℕ → RtmpMessage → List ℕ → Type 0
Delivers r csid m tail =
    (st : ChunkState) × (r ≡ some (st, some m)) × (st.buf ≡ tail) × IsIdle st csid

module _ (fuel cs : ℕ) (st : ChunkState) where
  pub parse_again :
      (s : ChunkState)
      → chunk_step cs st ≡ again s
      → parse_chunks (suc fuel) cs st ≡ parse_chunks fuel cs s
  unfolding parse_chunks
  parse_again s e = rw (e, parse_chunks)

  pub parse_complete :
      (s : ChunkState) (m : RtmpMessage)
      → chunk_step cs st ≡ complete s m
      → parse_chunks (suc fuel) cs st ≡ some (s, some m)
  unfolding parse_chunks
  parse_complete s m e = rw (e, parse_chunks)

finish_last :
    (st : ChunkState) (p : ParsedHeader) (piece tail : List ℕ)
    → let a =
        absorb
          (or_else (st.assemblers p.header.chunk_stream_id) default_assembler)
          p.header
          piece in
      0 < a.msg_length
      → a.msg_length ≤ a.received
      → finish st p piece tail
        ≡ complete
            (record {
              buf = tail;
              assemblers = insert st.assemblers p.header.chunk_stream_id (cleared a);
              headers = p.headers;
            })
            (message_of a)
finish_last st p piece tail pos all = ground (arith, pos, all)

finish_more :
    (st : ChunkState) (p : ParsedHeader) (piece tail : List ℕ)
    → let a =
        absorb
          (or_else (st.assemblers p.header.chunk_stream_id) default_assembler)
          p.header
          piece in
      a.received < a.msg_length
      → finish st p piece tail
        ≡ again (record {
          buf = tail;
          assemblers = insert st.assemblers p.header.chunk_stream_id a;
          headers = p.headers;
        })
finish_more st p piece tail less = ground (arith, less)

pub insert-IsIdle :
    (m : IdMap ChunkAssembler) (csid : ℕ) (a : ChunkAssembler) (buf : List ℕ)
    (hs : IdMap ChunkHeader)
    → IsIdle (record { buf = buf; assemblers = insert m csid (cleared a); headers = hs }) csid
insert-IsIdle m csid a buf hs = record { idle = λ b e. ground (arith, e) }

-- One continuation chunk: `piece` is what it carries, `over` what is still to come after it.
module _ (cs csid timestamp len ty sid : ℕ) (st : ChunkState) (got piece over : List ℕ)
    (tail : List ℕ) (id : IsId csid) (h : Partial st csid timestamp len ty sid got)
    (sum : length got + (length piece + length over) ≡ len)
    (full : length piece ≡ min cs (length piece + length over)) (some_left : 0 < length piece)
    (whole : st.buf ≡ encode_basic_header 3 csid ++ (piece ++ tail)) where
  abbrev pub continued : ParsedHeader
  continued = record {
    header = again_header csid h.last;
    size = length (encode_basic_header 3 csid);
    headers = insert st.headers csid (again_header csid h.last);
  }

  continued_parsed : parse_chunk_header st.buf st.headers ≡ some continued
  continued_parsed =
      ap (λ b. parse_chunk_header b st.headers) whole
      ∙ parse-again_header csid (piece ++ tail) st.headers h.last id h.known

  continued_room :
      length piece ≡ min cs (remaining_msg (st.assemblers csid) (again_header csid h.last))
  continued_room = ground (arith, h.held, h.a_length, h.a_received, sum, full, some_left)

  continued_step : chunk_step cs st ≡ finish st continued piece tail
  continued_step =
      chunk_step-finish cs st continued (encode_basic_header 3 csid) piece tail continued_parsed
        refl whole continued_room

  abbrev pub grown : ChunkAssembler
  grown = absorb h.a (again_header csid h.last) piece

  grown_held :
      absorb (or_else (st.assemblers csid) default_assembler) (again_header csid h.last) piece
      ≡ grown
  grown_held = rw h.held

  grown-message : over ≡ [] → message_of grown ≡ message ty timestamp sid (got ++ piece)
  grown-message e = ground (arith, h.a_buffer, h.h_type, h.h_stream, h.h_timestamp)

  abbrev pub settled : ChunkState
  settled = record {
    buf = tail;
    assemblers = insert st.assemblers csid (cleared grown);
    headers = continued.headers;
  }

  settled_step : over ≡ [] → chunk_step cs st ≡ complete settled (message_of grown)
  settled_step e =
      continued_step
      ∙ ground (arith, grown_held, h.held, h.h_length, h.a_received, sum, some_left, ap length e)

  pub last_chunk :
      (fuel : ℕ)
      → over ≡ []
      → Delivers (parse_chunks (suc fuel) cs st) csid (message ty timestamp sid (got ++ piece)) tail
  last_chunk fuel e = (
    settled,
    parse_complete fuel cs st settled (message_of grown) (settled_step e)
        ∙ ap (λ m. some (settled, some m)) (grown-message e),
    refl,
    insert-IsIdle st.assemblers csid grown tail continued.headers,
  )

  abbrev pub carried : ChunkState
  carried = record {
    buf = tail;
    assemblers = insert st.assemblers csid grown;
    headers = continued.headers;
  }

  pub carried_step : 0 < length over → chunk_step cs st ≡ again carried
  carried_step pos =
      continued_step ∙ ground (arith, grown_held, h.held, h.h_length, h.a_received, sum, some_left)

  pub carried-Partial : Partial carried csid timestamp len ty sid (got ++ piece)
  carried-Partial = record {
    a = grown;
    last = again_header csid h.last;
    held = ground arith;
    known = ground arith;
    a_length = h.h_length;
    a_received = omega (arith, h.a_received, length-append got piece);
    a_buffer = ap (λ b. b ++ piece) h.a_buffer;
    h_timestamp = h.h_timestamp;
    h_length = h.h_length;
    h_type = h.h_type;
    h_stream = h.h_stream;
  }
