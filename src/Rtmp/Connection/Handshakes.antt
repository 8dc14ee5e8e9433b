-- ===== src/Rtmp/Connection/Handshakes.antt =====
-- The handshake of src/server/rtmp/mod.rs, and how the bytes of its first messages may arrive.
use vcp_media_server.Prelude.{
  ℕ, suc, ◌+◌, ◌/◌, ◌%◌, ◌^◌, ◌<◌, ◌≡◌, refl, ap, ap₂, ◌∙◌, Bool, true, false, none, some, List, [],
  ◌∷◌, ◌++◌, map, length, take, drop, ltb, leb, ◌==◌, if◌then◌else◌, Bool-cases, inl, inr, arith,
  length-append, length-drop, take-append_length, drop-append_length, All,
}
use vcp_media_server.Rtmp.Chunk.{
  IdMap, ChunkFmt, ChunkHeader, ChunkState, basic_header, message_header, inherit,
  parse_message_header, parse_chunk_header, chunk_step, parse_chunks, fmt_of,
}
use vcp_media_server.Rtmp.Amf0.{Utf8}
use vcp_media_server.Rtmp.Connection.{handle_handshake, zero_bytes}
use vcp_media_server.Rtmp.Session.{SessionState}
use vcp_media_server.Rtmp.Connection.Serve.{
  Serving, serving, received, serve, on_read, on_handshake, after_answer, after_handshake,
  serve_messages, with_buffer,
}

take-length : (n : ℕ) (xs ys : List ℕ) → length xs ≡ n → take n (xs ++ ys) ≡ xs
take-length n xs ys e = rw (← e) (take-append_length xs ys)

drop-length : (n : ℕ) (xs ys : List ℕ) → length xs ≡ n → drop n (xs ++ ys) ≡ ys
drop-length n xs ys e = rw (← e) (drop-append_length xs ys)

-- The server's answer to the client's version byte and challenge.
abbrev pub answer : List ℕ → List ℕ
answer c1 = 3 ∷ (zero_bytes 1536 ++ c1)

whole_first :
    (c1 part : List ℕ)
    → length c1 ≡ 1536
    → handle_handshake (3 ∷ (c1 ++ part)) true ≡ (
        if leb 1536 (length part)
        then record { finished = true; buffer = drop 1536 part; response = answer c1 }
        else record { finished = false; buffer = part; response = answer c1 })
unfolding handle_handshake
whole_first c1 part n =
    let long : ltb (length (3 ∷ (c1 ++ part))) 1537 ≡ false =
      ground (arith, length-append c1 part) in
    rw (long, take-length 1536 c1 part n, drop-length 1536 c1 part n) refl

later_whole :
    (c2 rest : List ℕ)
    → length c2 ≡ 1536
    → 0 < length rest
    → handle_handshake (c2 ++ rest) false ≡ record { finished = true; buffer = rest; response = [] }
unfolding handle_handshake
later_whole c2 rest n pos =
    let long : ltb (length (c2 ++ rest)) 1537 ≡ false = ground (arith, length-append c2 rest) in
    let enough : leb 1536 (length (c2 ++ rest)) ≡ true = ground (arith, length-append c2 rest) in
    rw (long, enough, drop-length 1536 c2 rest n) refl

too_short :
    (buf : List ℕ) (first_call : Bool)
    → length buf < 1537
    → handle_handshake buf first_call ≡ record { finished = false; buffer = buf; response = [] }
unfolding handle_handshake
too_short buf first_call h =
    let short : ltb (length buf) 1537 ≡ true = ground arith in rw short refl

-- A handshake whose version byte and challenge come in one read is completed and answered once, whether the client's
-- echo and what follows come with them or afterwards: what is left of the bytes is what follows the echo. Where the
-- echo comes afterwards, a byte behind it must be there too.
pub handle_handshake_lem :
    (c1 c2 rest : List ℕ)
    → length c1 ≡ 1536
    → length c2 ≡ 1536
    → (handle_handshake (3 ∷ (c1 ++ (c2 ++ rest))) true
        ≡ record { finished = true; buffer = rest; response = answer c1 })
      × (handle_handshake (3 ∷ (c1 ++ [])) true
          ≡ record { finished = false; buffer = []; response = answer c1 })
      × (0 < length rest
          → handle_handshake (c2 ++ rest) false
            ≡ record { finished = true; buffer = rest; response = [] })
      × (handle_handshake (c2 ++ []) false
          ≡ record { finished = false; buffer = c2 ++ []; response = [] })
handle_handshake_lem c1 c2 rest n1 n2 =
    let enough : leb 1536 (length (c2 ++ rest)) ≡ true = ground (arith, length-append c2 rest) in
    (
      whole_first c1 (c2 ++ rest) n1 ∙ rw (enough, drop-length 1536 c2 rest n2) refl,
      whole_first c1 [] n1 ∙ ground arith,
      later_whole c2 rest n2,
      too_short (c2 ++ []) false (omega (arith, length-append c2 [])),
    )

-- One byte is no chunk, where no chunk has been read before.
no_header :
    (b csid : ℕ) (fmt : ChunkFmt) (headers : IdMap ChunkHeader)
    → headers csid ≡ none
    → parse_message_header (b ∷ []) headers 1 csid fmt ≡ none
unfolding parse_message_header message_header inherit
no_header b csid ChunkFmt.type0 headers e = ground arith
no_header b csid ChunkFmt.type1 headers e = ground arith
no_header b csid ChunkFmt.type2 headers e = ground arith
no_header b csid ChunkFmt.type3 headers e = ground (arith, e)

no_chunk :
    (b : ℕ) (headers : IdMap ChunkHeader)
    → ((csid : ℕ) → headers csid ≡ none)
    → parse_chunk_header (b ∷ []) headers ≡ none
unfolding parse_chunk_header basic_header
no_chunk b headers e =
    let fmt = fmt_of (b / 2 ^ 6 % 2 ^ 2) in
    elim (Bool-cases (b % 2 ^ 6 == 0)) [
      | inl z ↦ rw z refl
      | inr nz ↦ elim (Bool-cases (b % 2 ^ 6 == 1)) [
        | inl o ↦ rw (nz, o) refl
        | inr long ↦ rw (nz, long) (no_header b (b % 2 ^ 6) fmt headers (e (b % 2 ^ 6)))
      ]
    ]

on_handshake_short :
    (utf8 : Utf8) (fuel : ℕ) (s : Serving)
    → length s.chunks.buf < 1537
    → on_handshake utf8 fuel s ≡ serving (record s { handshake_first_call = false })
unfolding on_handshake after_answer with_buffer
on_handshake_short utf8 fuel s short =
    ap (after_answer utf8 fuel s) (too_short s.chunks.buf s.handshake_first_call short)

-- Before the handshake is done.
read_pending :
    (utf8 : Utf8) (fuel : ℕ) (s : Serving) (b : ℕ) (bs : List ℕ)
    → s.handshake_done ≡ false
    → on_read utf8 fuel s (received (b ∷ bs))
      ≡ on_handshake utf8 fuel (with_buffer s (s.chunks.buf ++ (b ∷ bs)))
unfolding on_read with_buffer
read_pending utf8 fuel s b bs pending =
    let t = with_buffer s (s.chunks.buf ++ (b ∷ bs)) in
    ap (λ d. if d then after_handshake utf8 fuel t else on_handshake utf8 fuel t) pending

-- One byte is left of as many as version byte and challenge have.
one_left : (buf : List ℕ) → length buf ≡ 1537 → (b : ℕ) × (drop 1536 buf ≡ b ∷ [])
one_left buf n = only (drop 1536 buf) (omega (arith, length-drop 1536 buf))
  where
    only : (xs : List ℕ) → length xs ≡ 1 → (b : ℕ) × (xs ≡ b ∷ [])
    only [] h = absurd (omega (arith, h))
    only (x ∷ []) h = (x, refl)
    only (x ∷ y ∷ xs) h = absurd (omega (arith, h))

full_later :
    (buf : List ℕ)
    → length buf ≡ 1537
    → handle_handshake buf false ≡ record { finished = true; buffer = drop 1536 buf; response = [] }
unfolding handle_handshake
full_later buf n =
    let long : ltb (length buf) 1537 ≡ false = ground arith in
    let enough : leb 1536 (length buf) ≡ true = ground arith in rw (long, enough) refl

parse_chunks-one :
    (n size : ℕ) (st : ChunkState) (b : ℕ)
    → st.buf ≡ b ∷ []
    → ((csid : ℕ) → st.headers csid ≡ none)
    → parse_chunks (suc n) size st ≡ some (st, none)
unfolding parse_chunks chunk_step
parse_chunks-one n size st b e new =
    let h : parse_chunk_header st.buf st.headers ≡ none =
      ap (λ x. parse_chunk_header x st.headers) e ∙ no_chunk b st.headers new in
    rw (parse_chunks, chunk_step, h) refl

waits_for_more :
    (utf8 : Utf8) (fuel : ℕ) (s : Serving) (b : ℕ)
    → s.chunks.buf ≡ b ∷ []
    → ((csid : ℕ) → s.chunks.headers csid ≡ none)
    → after_handshake utf8 fuel s ≡ serving s
unfolding after_handshake serve_messages
waits_for_more utf8 fuel s b e new =
    rw
      (
        after_handshake,
        serve_messages,
        parse_chunks-one (length s.chunks.buf) s.chunk_size s.chunks b e new,
      )
      refl

-- The buffer that is full without an answer having been given.
on_handshake_full :
    (utf8 : Utf8) (fuel : ℕ) (s : Serving)
    → s.handshake_first_call ≡ false
    → length s.chunks.buf ≡ 1537
    → ((csid : ℕ) → s.chunks.headers csid ≡ none)
    → (after : Serving) × (on_handshake utf8 fuel s ≡ serving after)
      × (after.conn.written ≡ s.conn.written)
unfolding on_handshake after_answer with_buffer
on_handshake_full utf8 fuel s later n new =
    let (b, left) = one_left s.chunks.buf n in
    let t : Serving = record (with_buffer s (drop 1536 s.chunks.buf)) {
      conn = record s.conn { session = record s.conn.session { state = SessionState.connected } };
      handshake_done = true;
    } in
    let full : handle_handshake s.chunks.buf s.handshake_first_call
        ≡ record { finished = true; buffer = drop 1536 s.chunks.buf; response = [] } =
      ap (handle_handshake s.chunks.buf) later ∙ full_later s.chunks.buf n in
    (t, ap (after_answer utf8 fuel s) full ∙ waits_for_more utf8 fuel t b left new, refl)

-- How many bytes the reads bring, and that each brings one at least.
abbrev pub total : List (List ℕ) → ℕ
total [] = 0
total (p ∷ ps) = length p + total ps

abbrev pub NonEmpty : List (List ℕ) → Type 0
NonEmpty ps = All (λ p. 0 < length p) ps

no_more : (ps : List (List ℕ)) → NonEmpty ps → total ps ≡ 0 → ps ≡ []
no_more [] h e = refl
no_more (p ∷ ps) h e = absurd (omega (arith, h.0))

-- Reads that bring version byte and challenge in full, once a first one has brought less.
silent_later :
    (utf8 : Utf8) (fuel : ℕ) (s : Serving) (ps : List (List ℕ))
    → s.handshake_done ≡ false
    → s.handshake_first_call ≡ false
    → ((csid : ℕ) → s.chunks.headers csid ≡ none)
    → length s.chunks.buf < 1537
    → NonEmpty ps
    → length s.chunks.buf + total ps ≡ 1537
    → (after : Serving) × (serve utf8 fuel (serving s) (map received ps) ≡ serving after)
      × (after.conn.written ≡ s.conn.written)
unfolding serve with_buffer
silent_later utf8 fuel s [] pending later new short h n = (s, refl, refl)
silent_later utf8 fuel s ([] ∷ ps) pending later new short h n = absurd (omega (arith, h.0))
silent_later utf8 fuel s ((b ∷ bs) ∷ ps) pending later new short h n =
    let t = with_buffer s (s.chunks.buf ++ (b ∷ bs)) in
    let size : length (s.chunks.buf ++ (b ∷ bs)) ≡ length s.chunks.buf + length (b ∷ bs) =
      length-append s.chunks.buf (b ∷ bs) in
    elim (Bool-cases (ltb (length (s.chunks.buf ++ (b ∷ bs))) 1537)) [
      | inl less ↦
          let few : length (s.chunks.buf ++ (b ∷ bs)) < 1537 = ground (arith, less) in
          let (after, e, w) =
            silent_later utf8 fuel (record t { handshake_first_call = false }) ps pending refl new
              few h.1 (omega arith) in
          (
            after,
            ap (λ r. serve utf8 fuel r (map received ps))
                  (read_pending utf8 fuel s b bs pending ∙ on_handshake_short utf8 fuel t few)
                ∙ e,
            w,
          )
      | inr enough ↦
          let full : length (s.chunks.buf ++ (b ∷ bs)) ≡ 1537 = ground (arith, enough) in
          let (after, e, w) = on_handshake_full utf8 fuel t later full new in
          let none_left : ps ≡ [] = no_more ps h.1 (omega arith) in
          (
            after,
            ap₂ (λ r qs. serve utf8 fuel r (map received qs))
                (read_pending utf8 fuel s b bs pending ∙ e) none_left,
            w,
          )
    ]

-- A client whose version byte and challenge come in several reads, as they may over TCP, and which then waits for the answer, as the
-- protocol demands, never gets one: after all these reads the connection has written nothing. The connection is new: no
-- bytes and no chunk headers are there yet.
pub split_handshake_unanswered :
    (utf8 : Utf8) (fuel : ℕ) (s : Serving) (first : List ℕ) (later : List (List ℕ))
    → s.handshake_done ≡ false
    → s.chunks.buf ≡ []
    → ((csid : ℕ) → s.chunks.headers csid ≡ none)
    → 0 < length first
    → NonEmpty later
    → 0 < length later
    → length first + total later ≡ 1537
    → (after : Serving) × (serve utf8 fuel (serving s) (map received (first ∷ later))
        ≡ serving after)
      × (after.conn.written ≡ s.conn.written)
unfolding serve with_buffer
split_handshake_unanswered utf8 fuel s [] later pending empty new pos h several n =
    absurd (omega arith)
split_handshake_unanswered utf8 fuel s (b ∷ bs) [] pending empty new pos h several n =
    absurd (omega arith)
split_handshake_unanswered utf8 fuel s (b ∷ bs) (p ∷ ps) pending empty new pos h several n =
    let t = with_buffer s (s.chunks.buf ++ (b ∷ bs)) in
    let size : length (s.chunks.buf ++ (b ∷ bs)) ≡ length (b ∷ bs) =
      ap (λ x. length (x ++ (b ∷ bs))) empty in
    let few : length (s.chunks.buf ++ (b ∷ bs)) < 1537 = omega (arith, h.0) in
    let (after, e, w) =
      silent_later utf8 fuel (record t { handshake_first_call = false }) (p ∷ ps) pending refl new
        few h (omega arith) in
    (
      after,
      ap (λ r. serve utf8 fuel r (map received (p ∷ ps)))
            (read_pending utf8 fuel s b bs pending ∙ on_handshake_short utf8 fuel t few)
          ∙ e,
      w,
    )
