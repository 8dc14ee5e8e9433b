-- ===== src/Rtmp/Chunk/Oversized.antt =====
-- src/server/rtmp/chunk.rs: a chunk that is longer than the chunk size it is parsed with.
use vcp_media_server.Prelude.{
  ℕ, zero, suc, ◌+◌, ◌-◌, ◌/◌, ◌%◌, false, ◌==◌, drop_all, take_all, sym, ◌^◌, ◌≤◌, ◌<◌, ◌≡◌, ◌≢◌,
  refl, ap, ap₂, ◌∙◌, min, none, some, List, [], ◌∷◌, ◌++◌, append-nil, append_assoc, arith, length,
  length-append, take, drop,
}
use vcp_media_server.Rtmp.Chunk.{
  ChunkFmt, IdMap, ChunkHeader, ChunkState, parse_chunk_header, parse_message_header,
  message_header, inherit, encode_rest, basic_header, chunk_step, parse_chunks, encode_message,
  encode_basic_header, encode_type0_header, put32,
}
use vcp_media_server.Rtmp.Chunk.Headers.{IsId}
use vcp_media_server.Rtmp.Chunk.Continue.{IsIdle, message, parse_again, parse_complete}
use vcp_media_server.Rtmp.Chunk.RoundTrip.{encode_rest-nil}
use vcp_media_server.Rtmp.Chunk.Message.{
  only, only_step, begun-message, started, started_step, encode_message-cases,
}

-- A byte that, as a basic header, asks for the last header of a chunk stream, of identifier 3 or more.
abbrev pub IsLetter : ℕ → Type 0
IsLetter b = (66 < b) × (b < 128)

no_type1 :
    (csid : ℕ) (buf : List ℕ) (headers : IdMap ChunkHeader)
    → headers csid ≡ none
    → parse_message_header buf headers 1 csid ChunkFmt.type1 ≡ none
unfolding parse_message_header message_header inherit
no_type1 csid buf headers new = ground (arith, new)

-- Without a last header of its chunk stream no chunk can begin with it.
letter_unparsed :
    (b : ℕ) (more : List ℕ) (headers : IdMap ChunkHeader)
    → IsLetter b
    → headers (b - 64) ≡ none
    → parse_chunk_header (b ∷ more) headers ≡ none
unfolding parse_chunk_header basic_header
letter_unparsed b more headers letter new =
    let csid : b % 2 ^ 6 ≡ b - 64 = omega arith in
    let fmt : b / 2 ^ 6 % 2 ^ 2 ≡ 1 = omega arith in
    let zero_less : (b - 64 == 0) ≡ false = ground arith in
    let one_less : (b - 64 == 1) ≡ false = ground arith in
    let full : (length (b ∷ more) == 0) ≡ false = ground arith in
    rw (full, csid, zero_less, one_less, fmt) (no_type1 (b - 64) (b ∷ more) headers new)

pub parse_chunks-letter :
    (fuel cs b : ℕ) (more : List ℕ) (st : ChunkState)
    → IsLetter b
    → st.buf ≡ b ∷ more
    → st.headers (b - 64) ≡ none
    → parse_chunks (suc fuel) cs st ≡ some (st, none)
unfolding parse_chunks chunk_step
parse_chunks-letter fuel cs b more st letter whole new =
    let h : parse_chunk_header st.buf st.headers ≡ none =
      ap (λ x. parse_chunk_header x st.headers) whole
      ∙ letter_unparsed b more st.headers letter new in
    rw (parse_chunks, chunk_step, h) refl

-- A message that was written in one chunk.
one_chunk :
    (f ty timestamp sid cs csid : ℕ) (payload enc : List ℕ)
    → length payload ≤ cs
    → length payload < 2 ^ 24
    → encode_message f ty timestamp sid payload cs csid ≡ some enc
    → enc
      ≡ encode_basic_header 0 csid
        ++ (encode_type0_header timestamp (length payload) ty sid ++ payload)
one_chunk f ty timestamp sid cs csid payload enc fits hl e =
    let (more, next, shape) = encode_message-cases f ty timestamp sid cs csid payload enc e in
    let n : min cs (length payload) ≡ length payload = omega arith in
    let short : length payload % 2 ^ 32 ≡ length payload = omega arith in
    let dropped : drop (min cs (length payload)) payload ≡ [] =
      ap (λ k. drop k payload) n ∙ drop_all payload in
    let none_left : more ≡ [] =
      encode_rest-nil f cs csid more (ap (encode_rest f cs csid) (sym dropped) ∙ next) in
    let taken : take (min cs (length payload)) payload ++ more ≡ payload =
      ap₂ (λ k m. take k payload ++ m) n none_left
      ∙ append-nil (take (length payload) payload)
      ∙ take_all payload in
    shape
    ∙ ap₂ (λ k b. encode_basic_header 0 csid ++ (encode_type0_header timestamp k ty sid ++ b)) short
        taken

pub length-one_chunk :
    (f ty timestamp sid cs csid : ℕ) (payload enc : List ℕ)
    → length payload ≤ cs
    → length payload < 2 ^ 24
    → encode_message f ty timestamp sid payload cs csid ≡ some enc
    → length payload ≤ length enc
length-one_chunk f ty timestamp sid cs csid payload enc fits hl e =
    let header = encode_type0_header timestamp (length payload) ty sid in
    let shape = one_chunk f ty timestamp sid cs csid payload enc fits hl e in
    omega (
      arith,
      ap length shape,
      length-append (encode_basic_header 0 csid) (header ++ payload),
      length-append header payload,
    )

-- Set Chunk Size, on chunk stream 2.
pub parse_chunks-set_chunk_size :
    (f fuel size cs : ℕ) (announce tail : List ℕ) (st : ChunkState)
    → 4 ≤ cs
    → IsIdle st 2
    → encode_message f 0x01 0 0 (put32 size) 128 2 ≡ some announce
    → st.buf ≡ announce ++ tail
    → (t : ChunkState) × (parse_chunks (suc fuel) cs st
        ≡ some (t, some (message 0x01 0 0 (put32 size))))
      × (t.buf ≡ tail)
      × ((c : ℕ) → c ≢ 2 → (t.headers c ≡ st.headers c) × (t.assemblers c ≡ st.assemblers c))
parse_chunks-set_chunk_size f fuel size cs announce tail st hc idle e whole =
    let four = put32 size in
    let id : IsId 2 = (omega arith, omega arith) in
    let shape : st.buf
        ≡ encode_basic_header 0 2 ++ (encode_type0_header 0 4 1 0 ++ (four ++ tail)) =
      whole
      ∙ ap (λ x. x ++ tail) (one_chunk f 1 0 0 128 2 four announce (omega arith) (omega arith) e)
      ∙ simp append_assoc in
    let small : 0 < 2 ^ 32 = omega arith in
    let len : 4 < 2 ^ 24 = omega arith in
    let room : length four ≡ min cs 4 = omega arith in
    let some_bytes : 0 < length four = omega arith in
    let t = only cs 2 0 4 1 0 st four [] tail id small len small idle refl room some_bytes shape in
    let step =
      only_step cs 2 0 4 1 0 st four [] tail id small len small idle refl room some_bytes shape
        refl in
    let msg =
      begun-message cs 2 0 4 1 0 st four [] tail id small len small idle refl room some_bytes shape
        refl in
    (
      t,
      parse_complete fuel cs st t _ step ∙ ap (λ m. some (t, some m)) msg,
      refl,
      λ c other. (ground (arith, other), ground (arith, other)),
    )

-- Of a chunk that is longer than the chunk size the parser takes the first bytes, and stops at a letter behind them.
pub parse_chunks-oversized :
    (f fuel ty timestamp sid cs size csid b : ℕ) (piece more enc : List ℕ) (st : ChunkState)
    → IsId csid
    → timestamp < 2 ^ 32
    → sid < 2 ^ 32
    → IsIdle st csid
    → 0 < cs
    → length piece ≡ cs
    → length (piece ++ (b ∷ more)) ≤ size
    → length (piece ++ (b ∷ more)) < 2 ^ 24
    → encode_message f ty timestamp sid (piece ++ (b ∷ more)) size csid ≡ some enc
    → st.buf ≡ enc
    → IsLetter b
    → b - 64 ≢ csid
    → st.headers (b - 64) ≡ none
    → 1 ≤ fuel
    → (t : ChunkState) × (parse_chunks (suc fuel) cs st ≡ some (t, none))
      × (t.buf ≡ b ∷ more)
      × (t.headers (b - 64) ≡ none)
parse_chunks-oversized f zero ty timestamp sid cs size csid b piece more enc st id ht hs idle pos
      full fits hl e whole letter other new rounds =
    absurd (omega arith)
parse_chunks-oversized f (suc fuel) ty timestamp sid cs size csid b piece more enc st id ht hs idle
      pos full fits hl e whole letter other new rounds =
    let over = b ∷ more in
    let shape : st.buf
        ≡ encode_basic_header 0 csid
          ++ (encode_type0_header timestamp (length (piece ++ over)) ty sid ++ (piece ++ over)) =
      whole ∙ one_chunk f ty timestamp sid size csid (piece ++ over) enc fits hl e in
    let sum : length piece + length over ≡ length (piece ++ over) =
      omega (arith, length-append piece over) in
    let room : length piece ≡ min cs (length (piece ++ over)) =
      omega (arith, length-append piece over) in
    let some_bytes : 0 < length piece = omega arith in
    let t =
      started cs csid timestamp (length (piece ++ over)) ty sid st piece over over id ht hl hs idle
        sum room some_bytes shape in
    let step =
      started_step cs csid timestamp (length (piece ++ over)) ty sid st piece over over id ht hl hs
        idle sum room some_bytes shape (omega arith) in
    let unseen : t.headers (b - 64) ≡ none = ground (arith, other, new) in
    (
      t,
      parse_again (suc fuel) cs st t step ∙ parse_chunks-letter fuel cs b more t letter refl unseen,
      refl,
      unseen,
    )
