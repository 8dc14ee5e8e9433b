-- ===== src/Rtmp/Connection/ChunkSize.antt =====
-- src/server/rtmp/mod.rs: a Set Chunk Size message and, in the same read, a chunk of the new size.
use vcp_media_server.Prelude.{
  ℕ, suc, ◌-◌, ◌^◌, ◌≤◌, ◌<◌, ◌≡◌, ◌≢◌, refl, ap, ◌∙◌, true, none, some, List, [], ◌∷◌, ◌++◌, map,
  arith, if◌then◌else◌, length, length-append,
}
use vcp_media_server.Rtmp.Chunk.{ChunkState, parse_chunks, encode_message, put32, be32}
use vcp_media_server.Rtmp.Chunk.Headers.{IsId}
use vcp_media_server.Rtmp.Chunk.Continue.{IsIdle, message}
use vcp_media_server.Rtmp.Chunk.Oversized.{
  IsLetter, length-one_chunk, parse_chunks-letter, parse_chunks-set_chunk_size,
  parse_chunks-oversized,
}
use vcp_media_server.Rtmp.Amf0.{Utf8}
use vcp_media_server.Rtmp.Connection.{RtmpConnection, proceed}
use vcp_media_server.Rtmp.Connection.Messages.{handle_rtmp_message, on_set_chunk_size}
use vcp_media_server.Rtmp.Connection.Handshakes.{NonEmpty}
use vcp_media_server.Rtmp.Connection.Serve.{
  Serving, serving, received, serve, on_read, on_handshake, after_handshake, serve_messages,
  with_buffer,
}

-- A buffer at whose front no chunk can begin.
pub record Deaf (s : Serving) : Type 0 where
  pub b : ℕ
  pub more : List ℕ
  pub letter : IsLetter b
  pub is_done : s.handshake_done ≡ true
  pub front : s.chunks.buf ≡ b ∷ more
  pub unseen : s.chunks.headers (b - 64) ≡ none

read_messages :
    (utf8 : Utf8) (fuel : ℕ) (s : Serving) (b : ℕ) (bs : List ℕ)
    → s.handshake_done ≡ true
    → on_read utf8 fuel s (received (b ∷ bs))
      ≡ after_handshake utf8 fuel (with_buffer s (s.chunks.buf ++ (b ∷ bs)))
unfolding on_read with_buffer
read_messages utf8 fuel s b bs open_ =
    let t = with_buffer s (s.chunks.buf ++ (b ∷ bs)) in
    ap (λ d. if d then after_handshake utf8 fuel t else on_handshake utf8 fuel t) open_

no_message :
    (utf8 : Utf8) (fuel : ℕ) (s : Serving) → Deaf s → after_handshake utf8 fuel s ≡ serving s
unfolding after_handshake serve_messages
no_message utf8 fuel s deaf =
    rw
      (
        after_handshake,
        serve_messages,
        parse_chunks-letter (length s.chunks.buf) s.chunk_size deaf.b deaf.more s.chunks deaf.letter
            deaf.front deaf.unseen,
      )
      refl

later_unanswered :
    (utf8 : Utf8) (fuel : ℕ) (s : Serving) (ps : List (List ℕ))
    → Deaf s
    → NonEmpty ps
    → (after : Serving) × (serve utf8 fuel (serving s) (map received ps) ≡ serving after)
      × (after.conn ≡ s.conn)
unfolding serve with_buffer
later_unanswered utf8 fuel s [] deaf h = (s, refl, refl)
later_unanswered utf8 fuel s ([] ∷ ps) deaf h = absurd (omega (arith, h.0))
later_unanswered utf8 fuel s ((x ∷ xs) ∷ ps) deaf h =
    let t = with_buffer s (s.chunks.buf ++ (x ∷ xs)) in
    let still : Deaf t = record {
      b = deaf.b;
      more = deaf.more ++ (x ∷ xs);
      letter = deaf.letter;
      is_done = deaf.is_done;
      front = ap (λ y. y ++ (x ∷ xs)) deaf.front;
      unseen = deaf.unseen;
    } in
    let (after, e, w) = later_unanswered utf8 fuel t ps still h.1 in
    (
      after,
      ap (λ r. serve utf8 fuel r (map received ps))
            (read_messages utf8 fuel s x xs deaf.is_done ∙ no_message utf8 fuel t still)
          ∙ e,
      w,
    )

abbrev with_size : RtmpConnection → ℕ → RtmpConnection
with_size conn size = record conn { chunk_size = size }

set_size :
    (utf8 : Utf8) (fuel : ℕ) (conn : RtmpConnection) (size : ℕ)
    → size < 2 ^ 32
    → handle_rtmp_message utf8 fuel conn (message 0x01 0 0 (put32 size))
      ≡ proceed (some size) (with_size conn size)
unfolding handle_rtmp_message on_set_chunk_size
set_size utf8 fuel conn size h =
    let back : be32 (put32 size) 0 ≡ size = omega arith in
    ap (λ n. proceed (some n) (with_size conn n)) back

two_rounds :
    (utf8 : Utf8) (fuel rounds : ℕ) (s : Serving) (size : ℕ) (t u : ChunkState)
    → size < 2 ^ 32
    → parse_chunks (suc (length s.chunks.buf)) s.chunk_size s.chunks
      ≡ some (t, some (message 0x01 0 0 (put32 size)))
    → parse_chunks (suc (length t.buf)) s.chunk_size t ≡ some (u, none)
    → serve_messages utf8 fuel (suc (suc rounds)) s none
      ≡ serving (record s { conn = with_size s.conn size; chunks = u; chunk_size = size })
unfolding serve_messages
two_rounds utf8 fuel rounds s size t u h first second =
    rw (serve_messages, first, set_size utf8 fuel s.conn size h, serve_messages, second) refl

-- The read that brings both messages, the first of them not empty.
one_read :
    (utf8 : Utf8) (fuel : ℕ) (s : Serving) (bytes : List ℕ) (size : ℕ) (t u : ChunkState)
    → s.handshake_done ≡ true
    → s.chunks.buf ≡ []
    → 2 ≤ length bytes
    → size < 2 ^ 32
    → let buf = s.chunks.buf ++ bytes in
      parse_chunks (suc (length buf)) s.chunk_size (record s.chunks { buf = buf })
        ≡ some (t, some (message 0x01 0 0 (put32 size)))
      → parse_chunks (suc (length t.buf)) s.chunk_size t ≡ some (u, none)
      → on_read utf8 fuel s (received bytes)
        ≡ serving (record s { conn = with_size s.conn size; chunks = u; chunk_size = size })
unfolding after_handshake with_buffer
one_read utf8 fuel s [] size t u open_ empty two h first second = absurd (omega arith)
one_read utf8 fuel s (x ∷ []) size t u open_ empty two h first second = absurd (omega arith)
one_read utf8 fuel s (x ∷ y ∷ xs) size t u open_ empty two h first second =
    let from = with_buffer s (s.chunks.buf ++ (x ∷ y ∷ xs)) in
    let rounds : suc (length from.chunks.buf) ≡ suc (suc (suc (length xs))) =
      ap (λ b. suc (length (b ++ (x ∷ y ∷ xs)))) empty in
    read_messages utf8 fuel s x (y ∷ xs) open_
    ∙ ap (λ n. serve_messages utf8 fuel n from none) rounds
    ∙ two_rounds utf8 fuel (suc (length xs)) from size t u h first second

-- A client whose read brings Set Chunk Size and, behind it, a message in one chunk of at most the new and more than
-- the old size is not answered, to this message or to any later one, whatever it sends: the connection stays as it is but
-- for its chunk size. No chunk was read before, and the payload's first byte beyond the old size is one of 67 to 127, such
-- as a letter, but not 64 more than the message's chunk stream identifier, which is not 2. The old size is 4 at least.
pub set_chunk_size_deafens :
    (utf8 : Utf8) (fuel : ℕ) (s : Serving) (size f g ty timestamp sid csid b : ℕ)
    (piece more announce enc : List ℕ) (later : List (List ℕ))
    → s.handshake_done ≡ true
    → s.chunks.buf ≡ []
    → ((c : ℕ) → s.chunks.headers c ≡ none)
    → ((c : ℕ) → s.chunks.assemblers c ≡ none)
    → 4 ≤ s.chunk_size
    → size < 2 ^ 32
    → encode_message f 0x01 0 0 (put32 size) 128 2 ≡ some announce
    → IsId csid
    → csid ≢ 2
    → timestamp < 2 ^ 32
    → sid < 2 ^ 32
    → length piece ≡ s.chunk_size
    → IsLetter b
    → b - 64 ≢ csid
    → length (piece ++ (b ∷ more)) ≤ size
    → length (piece ++ (b ∷ more)) < 2 ^ 24
    → encode_message g ty timestamp sid (piece ++ (b ∷ more)) size csid ≡ some enc
    → NonEmpty later
    → (after : Serving) × (serve utf8 fuel (serving s) (map received ((announce ++ enc) ∷ later))
        ≡ serving after)
      × (after.conn ≡ record s.conn { chunk_size = size })
unfolding serve
set_chunk_size_deafens utf8 fuel s size f g ty timestamp sid csid b piece more announce enc later
      open_ empty new idle hc h ea id own ht hs full letter other fits hl ee h_later =
    let bytes = announce ++ enc in
    let buf = s.chunks.buf ++ bytes in
    let from : ChunkState = record s.chunks { buf = buf } in
    let (t, first, t_buf, kept) =
      parse_chunks-set_chunk_size f (length buf) size s.chunk_size announce enc from hc
        (record { idle = λ a e. ground (arith, idle 2, e) }) ea (ap (λ x. x ++ bytes) empty) in
    let t_idle : IsIdle t csid = record {
      idle = λ a e. ground (arith, (kept csid own).1, idle csid, e);
    } in
    let unseen : t.headers (b - 64) ≡ none =
      (kept (b - 64) λ e. omega (arith, letter)).0 ∙ new (b - 64) in
    let some_bytes : 1 ≤ length t.buf = omega (
      arith,
      ap length t_buf,
      length-append piece (b ∷ more),
      length-one_chunk g ty timestamp sid size csid (piece ++ (b ∷ more)) enc fits hl ee,
    ) in
    let (u, second, u_buf, u_unseen) =
      parse_chunks-oversized g (length t.buf) ty timestamp sid s.chunk_size size csid b piece more
        enc t id ht hs t_idle (omega arith) full fits hl ee t_buf letter other unseen some_bytes in
    let then_ : Serving = record s {
      conn = with_size s.conn size;
      chunks = u;
      chunk_size = size;
    } in
    let deaf : Deaf then_ = record {
      b = b;
      more = more;
      letter = letter;
      is_done = open_;
      front = u_buf;
      unseen = u_unseen;
    } in
    let two : 2 ≤ length bytes = omega (
      arith,
      length-append announce enc,
      length-one_chunk f 1 0 0 128 2 (put32 size) announce (omega arith) (omega arith) ea,
    ) in
    let (after, e, w) = later_unanswered utf8 fuel then_ later deaf h_later in
    (
      after,
      ap (λ r. serve utf8 fuel r (map received later))
            (one_read utf8 fuel s bytes size t u open_ empty two h first second)
          ∙ e,
      w,
    )
