-- ===== src/Rtmp/Chunk/RoundTrip.antt =====
-- src/server/rtmp/chunk.rs: a message that is cut into chunks is put together again.
use vcp_media_server.Prelude.{
  ℕ, zero, suc, ◌+◌, ◌≤◌, ◌<◌, ◌≡◌, ◌≢◌, refl, sym, ap, subst, ◌∙◌, min, some, List, [], ◌∷◌, ◌++◌,
  append_assoc, append-nil, arith, length, take, drop, length-append, length-take, length-drop,
  take-append-drop, Option-cases, inl, inr, ◌⊎◌,
}
use vcp_media_server.Rtmp.Chunk.{ChunkState, parse_chunks, encode_basic_header, encode_rest}
use vcp_media_server.Rtmp.Chunk.Headers.{IsId}
use vcp_media_server.Rtmp.Chunk.Continue.{
  Partial, message, Delivers, parse_again, carried, carried_step, carried-Partial, last_chunk,
}

-- The encoder's loop, one round at a time.
encode_rest-cases :
    (f cs csid : ℕ) (left enc : List ℕ)
    → 0 < length left
    → encode_rest (suc f) cs csid left ≡ some enc
    → (more : List ℕ) × (encode_rest f cs csid (drop (min cs (length left)) left) ≡ some more)
      × (enc ≡ encode_basic_header 3 csid ++ (take (min cs (length left)) left ++ more))
unfolding encode_rest
encode_rest-cases f cs csid left enc pos e =
    elim (Option-cases (encode_rest f cs csid (drop (min cs (length left)) left))) [
      | inl n ↦ absurd (ground (arith, n))
      | inr (more, n) ↦ (more, n, ground (arith, n))
    ]

pub encode_rest-nil :
    (f cs csid : ℕ) (enc : List ℕ) → encode_rest f cs csid [] ≡ some enc → enc ≡ []
unfolding encode_rest
encode_rest-nil zero cs csid enc e = ground arith
encode_rest-nil (suc f) cs csid enc e = ground arith

encode_rest-zero :
    (cs csid : ℕ) (left enc : List ℕ) → 0 < length left → encode_rest zero cs csid left ≢ some enc
unfolding encode_rest
encode_rest-zero cs csid left enc pos e = ground arith

pub List-cases : (xs : List ℕ) → (xs ≡ []) ⊎ (0 < length xs)
List-cases [] = inl refl
List-cases (x ∷ xs) = inr (omega arith)

-- One round of the encoder's loop against one round of the parser's.
module _ (f fuel cs csid timestamp len ty sid : ℕ) (st : ChunkState) (got piece over : List ℕ)
    (more tail : List ℕ) (id : IsId csid) (h : Partial st csid timestamp len ty sid got)
    (sum : length got + (length piece + length over) ≡ len)
    (full : length piece ≡ min cs (length piece + length over)) (nonempty : 0 < length piece)
    (whole : st.buf ≡ encode_basic_header 3 csid ++ (piece ++ (more ++ tail)))
    (next : encode_rest f cs csid over ≡ some more) where
  ends_here :
      over ≡ []
      → Delivers
          (parse_chunks (suc fuel) cs st)
          csid
          (message ty timestamp sid (got ++ (piece ++ over)))
          tail
  ends_here none_left =
      let no_more : more ≡ [] =
        encode_rest-nil f cs csid more (ap (encode_rest f cs csid) (sym none_left) ∙ next) in
      let all : piece ≡ piece ++ over =
        sym (append-nil piece) ∙ ap (λ b. piece ++ b) (sym none_left) in
      subst
        (λ (t : List ℕ).
          Delivers (parse_chunks (suc fuel) cs st) csid
            (message ty timestamp sid (got ++ (piece ++ over))) t)
        (ap (λ m. m ++ tail) no_more)
        (subst
          (λ (b : List ℕ).
            Delivers (parse_chunks (suc fuel) cs st) csid (message ty timestamp sid (got ++ b))
              (more ++ tail))
          all
          (last_chunk cs csid timestamp len ty sid st got piece over (more ++ tail) id h sum full
            nonempty whole fuel none_left))

  abbrev after : ChunkState
  after =
      carried cs csid timestamp len ty sid st got piece over (more ++ tail) id h sum full nonempty
        whole

  after-Partial : Partial after csid timestamp len ty sid (got ++ piece)
  after-Partial =
      carried-Partial cs csid timestamp len ty sid st got piece over (more ++ tail) id h sum full
        nonempty whole

  goes_on :
      0 < length over
      → Delivers
          (parse_chunks fuel cs after)
          csid
          (message ty timestamp sid ((got ++ piece) ++ over))
          tail
      → Delivers
          (parse_chunks (suc fuel) cs st)
          csid
          (message ty timestamp sid (got ++ (piece ++ over)))
          tail
  goes_on pos later =
      let step =
        carried_step cs csid timestamp len ty sid st got piece over (more ++ tail) id h sum full
          nonempty whole pos in
      rw (parse_again fuel cs st after step, ← append_assoc got piece over) later

-- The chunks that follow the first one deliver the rest of the message.
pub rest-Delivers :
    (f fuel cs csid timestamp len ty sid : ℕ) (st : ChunkState) (got left enc tail : List ℕ)
    → IsId csid
    → 1 ≤ cs
    → Partial st csid timestamp len ty sid got
    → length got + length left ≡ len
    → 0 < length left
    → encode_rest f cs csid left ≡ some enc
    → st.buf ≡ enc ++ tail
    → length left ≤ fuel
    → Delivers (parse_chunks fuel cs st) csid (message ty timestamp sid (got ++ left)) tail
rest-Delivers zero fuel cs csid timestamp len ty sid st got left enc tail id hc h sum pos e whole
      hf =
    absurd (encode_rest-zero cs csid left enc pos e)
rest-Delivers (suc f) zero cs csid timestamp len ty sid st got left enc tail id hc h sum pos e whole
      hf =
    absurd (omega arith)
rest-Delivers (suc f) (suc fuel) cs csid timestamp len ty sid st got left enc tail id hc h sum pos e
      whole hf =
    let n : ℕ = min cs (length left) in
    let piece : List ℕ = take n left in
    let over : List ℕ = drop n left in
    let (more, next, shape) = encode_rest-cases f cs csid left enc pos e in
    let parts : length piece + length over ≡ length left =
      omega (arith, length-take n left, length-drop n left) in
    let sum' : length got + (length piece + length over) ≡ len = omega (arith, parts) in
    let full : length piece ≡ min cs (length piece + length over) =
      omega (arith, parts, length-take n left) in
    let nonempty : 0 < length piece = omega (arith, length-take n left) in
    let whole' : st.buf ≡ encode_basic_header 3 csid ++ (piece ++ (more ++ tail)) =
      rw (whole, shape) (simp append_assoc) in
    subst
      (λ (b : List ℕ).
        Delivers (parse_chunks (suc fuel) cs st) csid (message ty timestamp sid (got ++ b)) tail)
      (take-append-drop n left)
      (elim (List-cases over) [
        | inl none_left ↦
            ends_here f fuel cs csid timestamp len ty sid st got piece over more tail id h sum' full
              nonempty whole' next none_left
        | inr some_over ↦
            goes_on f fuel cs csid timestamp len ty sid st got piece over more tail id h sum' full
              nonempty whole' next some_over
              (rest-Delivers f fuel cs csid timestamp len ty sid
                (after f fuel cs csid timestamp len ty sid st got piece over more tail id h sum'
                  full nonempty whole' next)
                (got ++ piece) over more tail id hc
                (after-Partial f fuel cs csid timestamp len ty sid st got piece over more tail id h
                  sum' full nonempty whole' next)
                (omega (arith, sum', length-append got piece)) some_over next refl
                (omega (arith, parts)))
      ])
