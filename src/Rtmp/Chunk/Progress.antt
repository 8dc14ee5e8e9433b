-- ===== src/Rtmp/Chunk/Progress.antt =====
-- src/server/rtmp/chunk.rs: the parser's loop ends on every buffer.
use vcp_media_server.Prelude.{
  ℕ, zero, suc, ◌+◌, ◌-◌, ◌/◌, ◌%◌, ◌^◌, ◌≤◌, ◌<◌, ◌≡◌, refl, ◌∙◌, min, Option, none, some, List,
  arith, length, length-drop, Option-cases, inl, inr, ◌⊎◌,
}
use vcp_media_server.Rtmp.Chunk.Continue.{parse_again, parse_complete}
use vcp_media_server.Rtmp.Chunk.{
  ChunkFmt, ChunkHeader, IdMap, RtmpMessage, ParsedHeader, basic_header, parse_message_header,
  parse_chunk_header, ChunkState, ChunkStep, wait, again, complete, assemble, chunk_step,
  parse_chunks, remaining_msg, fmt_of, byte_at,
}

basic_header-pos : (buf : List ℕ) (n csid : ℕ) → basic_header buf ≡ some (n, csid) → 1 ≤ n
unfolding basic_header
basic_header-pos buf n csid e = ground arith

parse_message_header-size :
    (buf : List ℕ) (hs : IdMap ChunkHeader) (basic csid : ℕ) (fmt : ChunkFmt) (p : ParsedHeader)
    → parse_message_header buf hs basic csid fmt ≡ some p
    → basic ≤ p.size
unfolding parse_message_header
parse_message_header-size buf hs basic csid fmt p e = ground arith

-- A parsed header takes a byte at least.
pub parse_chunk_header-pos :
    (buf : List ℕ) (hs : IdMap ChunkHeader) (p : ParsedHeader)
    → parse_chunk_header buf hs ≡ some p
    → 1 ≤ p.size
unfolding parse_chunk_header
parse_chunk_header-pos buf hs p e = elim (Option-cases (basic_header buf)) [
  | inl n ↦ absurd (ground (arith, n))
  | inr ((basic, csid), n) ↦ ground (
    arith,
    n,
    basic_header-pos buf basic csid n,
    parse_message_header-size buf hs basic csid (fmt_of (byte_at buf 0 / 2 ^ 6 % 2 ^ 2)) p,
  )
]

assemble-shrinks :
    (st s : ChunkState) (p : ParsedHeader) (n : ℕ)
    → assemble st p n ≡ again s
    → length s.buf ≡ length st.buf - (p.size + n)
unfolding assemble
assemble-shrinks st s p n e = ground (arith, length-drop (p.size + n) st.buf)

-- A round that goes on has taken bytes off the buffer.
chunk_step-shrinks :
    (cs : ℕ) (st s : ChunkState) → chunk_step cs st ≡ again s → length s.buf < length st.buf
unfolding chunk_step
chunk_step-shrinks cs st s e = elim (Option-cases (parse_chunk_header st.buf st.headers)) [
  | inl n ↦ absurd (ground (arith, n))
  | inr (p, n) ↦
      let d : ℕ = min cs (remaining_msg (st.assemblers p.header.chunk_stream_id) p.header) in
      ground (arith, n, parse_chunk_header-pos st.buf st.headers p n, assemble-shrinks st s p d)
]

step_cases :
    (t : ChunkStep)
    → ((s : ChunkState) × (t ≡ wait s))
      ⊎ (((s : ChunkState) × (t ≡ again s))
          ⊎ ((s : ChunkState) × (m : RtmpMessage) × (t ≡ complete s m)))
step_cases (wait s) = inl (s, refl)
step_cases (again s) = inr (inl (s, refl))
step_cases (complete s m) = inr (inr (s, m, refl))

-- The parser's loop ends on every buffer, whatever the bytes and the chunk size: it returns a message
-- or waits for more, within one round more than there are bytes.
pub parse_chunks-returns :
    (fuel cs : ℕ) (st : ChunkState)
    → length st.buf < fuel
    → (r : ChunkState × Option RtmpMessage) × (parse_chunks fuel cs st ≡ some r)
parse_chunks-returns zero cs st h = absurd (omega arith)
parse_chunks-returns (suc fuel) cs st h = elim (step_cases (chunk_step cs st)) [
  | inl (s, e) ↦ ((s, none), unfold parse_chunks in rw (e, parse_chunks))
  | inr (inl (s, e)) ↦
      let (r, done) =
        parse_chunks-returns fuel cs s (omega (arith, chunk_step-shrinks cs st s e)) in
      (r, parse_again fuel cs st s e ∙ done)
  | inr (inr (s, m, e)) ↦ ((s, some m), parse_complete fuel cs st s m e)
]
