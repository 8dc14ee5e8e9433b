-- ===== src/Rtmp/Chunk/Message.antt =====
-- src/server/rtmp/chunk.rs: `encode_message` and `parse_chunks` on a whole message.
use vcp_media_server.Prelude.{
  ℕ, zero, suc, ◌+◌, ◌%◌, ◌^◌, ◌≤◌, ◌<◌, ◌≡◌, refl, sym, ap, subst, ◌∙◌, min, some, List, [], ◌∷◌,
  ◌++◌, append_assoc, append-nil, arith, length, take, drop, or_else, length-take, length-drop,
  take-append-drop, Option-cases, inl, inr,
}
use vcp_media_server.Rtmp.Chunk.{
  ChunkHeader, ChunkAssembler, default_assembler, insert, ParsedHeader, parse_chunk_header,
  ChunkState, again, complete, remaining_msg, absorb, message_of, cleared, chunk_step, parse_chunks,
  encode_basic_header, encode_type0_header, encode_rest, encode_message,
}
use vcp_media_server.Rtmp.Chunk.Headers.{IsId, full_header, full_bytes, parse-full_header}
use vcp_media_server.Rtmp.Chunk.Continue.{
  finish, chunk_step-finish, Partial, IsIdle, message, Delivers, parse_again, parse_complete,
  insert-IsIdle,
}
use vcp_media_server.Rtmp.Chunk.RoundTrip.{List-cases, encode_rest-nil, rest-Delivers}

-- The assembler of an idle chunk stream starts from nothing.
abbrev pub fresh : ChunkState → ℕ → ChunkAssembler
fresh st csid = or_else (st.assemblers csid) default_assembler

pub fresh_idle :
    (st : ChunkState) (csid : ℕ) (header : ChunkHeader)
    → IsIdle st csid
    → ((fresh st csid).received ≡ 0)
      × ((fresh st csid).buffer ≡ [])
      × (remaining_msg (st.assemblers csid) header ≡ header.msg_length)
fresh_idle st csid header h = elim (Option-cases (st.assemblers csid)) [
  | inl n ↦ rw n (refl, refl, refl)
  | inr (a, n) ↦ ground (arith, n, h.idle a n)
]

-- The first chunk: the full header, `piece`, and `over` still to come.
module _ (cs csid timestamp len ty sid : ℕ) (st : ChunkState) (piece over tail : List ℕ)
    (id : IsId csid) (ht : timestamp < 2 ^ 32) (hl : len < 2 ^ 24) (hs : sid < 2 ^ 32)
    (idle : IsIdle st csid) (sum : length piece + length over ≡ len)
    (full : length piece ≡ min cs len) (nonempty : 0 < length piece)
    (whole : st.buf
      ≡ encode_basic_header 0 csid
        ++ (encode_type0_header timestamp len ty sid ++ (piece ++ tail))) where
  abbrev pub opened : ParsedHeader
  opened = record {
    header = full_header csid timestamp len ty sid;
    size = length (full_bytes csid timestamp len ty sid);
    headers = insert st.headers csid (full_header csid timestamp len ty sid);
  }

  opened_parsed : parse_chunk_header st.buf st.headers ≡ some opened
  opened_parsed =
      ap (λ b. parse_chunk_header b st.headers) whole
      ∙ parse-full_header csid timestamp len ty sid (piece ++ tail) st.headers id ht hl hs

  pub opened_step : chunk_step cs st ≡ finish st opened piece tail
  opened_step =
      chunk_step-finish cs st opened (full_bytes csid timestamp len ty sid) piece tail opened_parsed
        refl
        (whole
          ∙ sym (
              append_assoc (encode_basic_header 0 csid) (encode_type0_header timestamp len ty sid)
                (piece ++ tail)))
        (ground (arith, full, fresh_idle st csid opened.header idle))

  abbrev pub begun : ChunkAssembler
  begun = absorb (fresh st csid) opened.header piece

  pub begun-message : over ≡ [] → message_of begun ≡ message ty timestamp sid piece
  begun-message e = ground (arith, fresh_idle st csid opened.header idle)

  abbrev pub only : ChunkState
  only = record {
    buf = tail;
    assemblers = insert st.assemblers csid (cleared begun);
    headers = opened.headers;
  }

  pub only_step : over ≡ [] → chunk_step cs st ≡ complete only (message_of begun)
  only_step e =
      opened_step
      ∙ ground (arith, fresh_idle st csid opened.header idle, sum, nonempty, ap length e)

  only_chunk :
      (fuel : ℕ)
      → over ≡ []
      → Delivers (parse_chunks (suc fuel) cs st) csid (message ty timestamp sid piece) tail
  only_chunk fuel e = (
    only,
    parse_complete fuel cs st only (message_of begun) (only_step e)
        ∙ ap (λ m. some (only, some m)) (begun-message e),
    refl,
    insert-IsIdle st.assemblers csid begun tail opened.headers,
  )

  abbrev pub started : ChunkState
  started = record {
    buf = tail;
    assemblers = insert st.assemblers csid begun;
    headers = opened.headers;
  }

  pub started_step : 0 < length over → chunk_step cs st ≡ again started
  started_step pos =
      opened_step ∙ ground (arith, fresh_idle st csid opened.header idle, sum, nonempty)

  started-Partial : Partial started csid timestamp len ty sid piece
  started-Partial = record {
    a = begun;
    last = opened.header;
    held = ground arith;
    known = ground arith;
    a_length = refl;
    a_received = omega (arith, (fresh_idle st csid opened.header idle).0);
    a_buffer = ap (λ b. b ++ piece) (fresh_idle st csid opened.header idle).1;
    h_timestamp = refl;
    h_length = refl;
    h_type = refl;
    h_stream = refl;
  }

  first-Delivers :
      (f fuel : ℕ) (more rest : List ℕ)
      → 1 ≤ cs
      → tail ≡ more ++ rest
      → encode_rest f cs csid over ≡ some more
      → len ≤ fuel
      → Delivers
          (parse_chunks (suc fuel) cs st)
          csid
          (message ty timestamp sid (piece ++ over))
          rest
  first-Delivers f fuel more rest hc shape next hf = elim (List-cases over) [
    | inl e ↦
        let no_more : more ≡ [] =
          encode_rest-nil f cs csid more (ap (encode_rest f cs csid) (sym e) ∙ next) in
        let all : piece ≡ piece ++ over = sym (append-nil piece) ∙ ap (λ b. piece ++ b) (sym e) in
        subst
          (λ (t : List ℕ).
            Delivers (parse_chunks (suc fuel) cs st) csid (message ty timestamp sid (piece ++ over))
              t)
          (shape ∙ ap (λ m. m ++ rest) no_more)
          (subst
            (λ (b : List ℕ).
              Delivers (parse_chunks (suc fuel) cs st) csid (message ty timestamp sid b) tail)
            all (only_chunk fuel e))
    | inr pos ↦ rw (parse_again fuel cs st started (started_step pos)) (
        rest-Delivers f fuel cs csid timestamp len ty sid started piece over more rest id hc
          started-Partial sum pos next shape (omega (arith, sum)))
  ]

encode_rest-step :
    (f cs csid : ℕ) (left more : List ℕ)
    → encode_rest f cs csid (drop (min cs (length left)) left) ≡ some more
    → (enc : List ℕ) × (encode_rest (suc f) cs csid left ≡ some enc)
unfolding encode_rest
encode_rest-step f cs csid [] more e = ([], refl)
encode_rest-step f cs csid (x ∷ xs) more e =
    let n : ℕ = min cs (length (x ∷ xs)) in
    (encode_basic_header 3 csid ++ (take n (x ∷ xs) ++ more), ground (arith, e))

encode_rest-returns :
    (f cs csid : ℕ) (left : List ℕ)
    → 1 ≤ cs
    → length left ≤ f
    → (enc : List ℕ) × (encode_rest f cs csid left ≡ some enc)
encode_rest-returns zero cs csid [] hc h = ([], unfold encode_rest in refl)
encode_rest-returns zero cs csid (x ∷ left) hc h = absurd (omega arith)
encode_rest-returns (suc f) cs csid [] hc h = ([], unfold encode_rest in refl)
encode_rest-returns (suc f) cs csid (x ∷ left) hc h =
    let n : ℕ = min cs (length (x ∷ left)) in
    let (more, e) =
      encode_rest-returns f cs csid (drop n (x ∷ left)) hc
        (omega (arith, length-drop n (x ∷ left))) in
    encode_rest-step f cs csid (x ∷ left) more e

pub encode_message-cases :
    (f ty timestamp sid cs csid : ℕ) (payload enc : List ℕ)
    → encode_message f ty timestamp sid payload cs csid ≡ some enc
    → (more : List ℕ) × (encode_rest f cs csid (drop (min cs (length payload)) payload) ≡ some more)
      × (enc
          ≡ encode_basic_header 0 csid
            ++ (encode_type0_header timestamp (length payload % 2 ^ 32) ty sid
                ++ (take (min cs (length payload)) payload ++ more)))
unfolding encode_message
encode_message-cases f ty timestamp sid cs csid payload enc e =
    elim (Option-cases (encode_rest f cs csid (drop (min cs (length payload)) payload))) [
      | inl n ↦ absurd (ground (arith, n))
      | inr (more, n) ↦ (more, n, ground (arith, n))
    ]

-- With a chunk size of at least one, the encoder returns; as many rounds as the payload has bytes are
-- enough.
pub encode_message-returns :
    (ty timestamp sid cs csid : ℕ) (payload : List ℕ)
    → 1 ≤ cs
    → (enc : List ℕ) × (encode_message (length payload) ty timestamp sid payload cs csid ≡ some enc)
unfolding encode_message
encode_message-returns ty timestamp sid cs csid payload hc =
    let n : ℕ = min cs (length payload) in
    let (more, e) =
      encode_rest-returns (length payload) cs csid (drop n payload) hc
        (omega (arith, length-drop n payload)) in
    (
      encode_basic_header 0 csid
          ++ (encode_type0_header timestamp (length payload % 2 ^ 32) ty sid
              ++ (take n payload ++ more)),
      ground (arith, e),
    )

-- A message that is encoded is parsed back: from a buffer that begins with its chunks, and with no
-- message of its chunk stream under way, the parser returns the message whole and leaves exactly the
-- bytes behind it, with the chunk stream idle again. The payload is not empty and below 2 ^ 24 bytes,
-- the chunk stream id lies in 2 to 65599, the chunk size is the same on both sides and at least one,
-- and as many rounds as the payload has bytes, and one, are enough.
pub parse_chunks-encode_message :
    (f fuel ty timestamp sid cs csid : ℕ) (payload enc rest : List ℕ) (st : ChunkState)
    → IsId csid
    → 1 ≤ cs
    → timestamp < 2 ^ 32
    → sid < 2 ^ 32
    → 0 < length payload
    → length payload < 2 ^ 24
    → IsIdle st csid
    → encode_message f ty timestamp sid payload cs csid ≡ some enc
    → st.buf ≡ enc ++ rest
    → length payload ≤ fuel
    → Delivers (parse_chunks (suc fuel) cs st) csid (message ty timestamp sid payload) rest
parse_chunks-encode_message f fuel ty timestamp sid cs csid payload enc rest st id hc ht hs pos hl
      idle e whole hf =
    let n : ℕ = min cs (length payload) in
    let (more, next, shape) = encode_message-cases f ty timestamp sid cs csid payload enc e in
    let short : length payload % 2 ^ 32 ≡ length payload = omega arith in
    let whole' : st.buf
        ≡ encode_basic_header 0 csid
          ++ (encode_type0_header timestamp (length payload) ty sid
              ++ (take n payload ++ (more ++ rest))) =
      rw (whole, shape, short) (simp append_assoc) in
    subst
      (λ (b : List ℕ).
        Delivers (parse_chunks (suc fuel) cs st) csid (message ty timestamp sid b) rest)
      (take-append-drop n payload)
      (first-Delivers cs csid timestamp (length payload) ty sid st (take n payload) (drop n payload)
        (more ++ rest) id ht hl hs idle
        (omega (arith, length-take n payload, length-drop n payload))
        (omega (arith, length-take n payload)) (omega (arith, length-take n payload)) whole' f fuel
        more rest hc refl next hf)
