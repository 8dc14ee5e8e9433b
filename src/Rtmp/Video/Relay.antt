-- ===== src/Rtmp/Video/Relay.antt =====
-- Frames that go out through `frame_to_rtmp_video` of src/server/rtmp/session.rs and come in through
-- `handle_rtmp_message` of src/server/rtmp/mod.rs.
use vcp_media_server.Prelude.{
  ℕ, zero, suc, ◌+◌, ◌%◌, ◌^◌, ◌<◌, ◌≤◌, ◌≡◌, refl, ap, ap₂, ◌∙◌, false, List, [], ◌∷◌, ◌++◌, ◌||◌,
  length, take, drop, ltb, arith, length-append, take-append_length, drop-append_length,
}
use vcp_media_server.Prelude.Bytes.{starts_with}
use vcp_media_server.Media.{MediaFrame}
use vcp_media_server.H264.Depacketizer.{start_code}
use vcp_media_server.H264.StapA.{annex_b}
use vcp_media_server.Rtmp.Chunk.{be32, put32}
use vcp_media_server.H264.AnnexB.{short_start_code}
use vcp_media_server.Rtmp.Session.{unit_length, length_prefixed, frame_to_rtmp_video}
use vcp_media_server.Rtmp.Video.{annex_b_from}

-- No start code of three bytes begins within the unit, hence none of four.
unfoldable pub Bare : List ℕ → Type 0
Bare [] = Unit
Bare (b ∷ bs) = (starts_with (b ∷ bs) short_start_code ≡ false) × Bare bs

-- Each fits into 32 bits.
unfoldable pub BareUnits : List (List ℕ) → Type 0
BareUnits [] = Unit
BareUnits (u ∷ us) = (length u < 2 ^ 32) × Bare u × BareUnits us

unfoldable pub prefixed : List (List ℕ) → List ℕ
prefixed [] = []
prefixed (u ∷ us) = put32 (length u % 2 ^ 32) ++ (u ++ prefixed us)

-- No start code begins at a byte of the unit, with other units behind it.
no_code :
    (b : ℕ) (bs : List ℕ) (us : List (List ℕ))
    → Bare (b ∷ bs)
    → (starts_with (b ∷ (bs ++ annex_b us)) short_start_code
        || starts_with (b ∷ (bs ++ annex_b us)) start_code)
      ≡ false
unfolding Bare starts_with annex_b
no_code b [] [] h = ground arith
no_code b (c ∷ []) [] h = ground arith
no_code b (c ∷ d ∷ []) [] h = ground (arith, h.0)
no_code b [] (u ∷ us) h = ground arith
no_code b (c ∷ []) (u ∷ us) h = ground arith
no_code b (c ∷ d ∷ []) (u ∷ us) h = ground (arith, h.0)
no_code b (c ∷ d ∷ e ∷ bs) us h = ground (arith, h.0, h.1)

unit_length-annex_b :
    (u : List ℕ) (us : List (List ℕ)) → Bare u → unit_length (u ++ annex_b us) ≡ length u
unfolding unit_length Bare annex_b starts_with
unit_length-annex_b [] [] h = refl
unit_length-annex_b [] (u ∷ us) h = refl
unit_length-annex_b (b ∷ bs) us h = rw (no_code b bs us h) (ap suc (unit_length-annex_b bs us h.1))

length_prefixed-skip :
    (xs ys : List ℕ) → length_prefixed (length xs) (xs ++ ys) ≡ length_prefixed zero ys
unfolding length_prefixed
length_prefixed-skip [] ys = refl
length_prefixed-skip (x ∷ xs) ys = length_prefixed-skip xs ys

length_prefixed-start_code :
    (body : List ℕ)
    → length_prefixed zero (start_code ++ body)
      ≡ put32 (unit_length body % 2 ^ 32)
        ++ (take (unit_length body) body
            ++ length_prefixed (3 + unit_length body) (0 ∷ 0 ∷ 1 ∷ body))
unfolding length_prefixed starts_with
length_prefixed-start_code body = refl

length_prefixed-annex_b :
    (us : List (List ℕ)) → BareUnits us → length_prefixed zero (annex_b us) ≡ prefixed us
unfolding prefixed annex_b BareUnits length_prefixed
length_prefixed-annex_b [] h = refl
length_prefixed-annex_b (u ∷ us) (fits, bare, h) =
    let body = u ++ annex_b us in
    let size : 3 + length u ≡ length (0 ∷ 0 ∷ 1 ∷ u) = omega arith in
    let rest : length_prefixed (3 + length u) (0 ∷ 0 ∷ 1 ∷ body) ≡ prefixed us =
      ap (λ k. length_prefixed k (0 ∷ 0 ∷ 1 ∷ body)) size
      ∙ length_prefixed-skip (0 ∷ 0 ∷ 1 ∷ u) (annex_b us)
      ∙ length_prefixed-annex_b us h in
    length_prefixed-start_code body
    ∙ ap (λ n. put32 (n % 2 ^ 32) ++ (take n body ++ length_prefixed (3 + n) (0 ∷ 0 ∷ 1 ∷ body)))
        (unit_length-annex_b u us bare)
    ∙ ap₂ (λ xs ys. put32 (length u % 2 ^ 32) ++ (xs ++ ys)) (take-append_length u (annex_b us))
        rest

annex_b_from-prefixed :
    (rounds : ℕ) (us : List (List ℕ))
    → BareUnits us
    → length (prefixed us) ≤ rounds
    → annex_b_from rounds (prefixed us) ≡ annex_b us
unfolding prefixed annex_b annex_b_from BareUnits
annex_b_from-prefixed zero [] h le = refl
annex_b_from-prefixed zero (u ∷ us) h le = absurd (omega arith)
annex_b_from-prefixed (suc rounds) [] h le = refl
annex_b_from-prefixed (suc rounds) (u ∷ us) (fits, bare, h) le =
    let all = put32 (length u % 2 ^ 32) ++ (u ++ prefixed us) in
    let long : ltb (length all) 4 ≡ false = ground arith in
    let len : be32 all 0 ≡ length u = omega arith in
    let room : ltb (length (u ++ prefixed us)) (length u) ≡ false =
      ground (arith, length-append u (prefixed us)) in
    rw (long, len, room, take-append_length u (prefixed us), drop-append_length u (prefixed us))
      (ap (λ xs. start_code ++ (u ++ xs))
        (annex_b_from-prefixed rounds us h (omega (arith, length-append u (prefixed us)))))

-- A frame that is sent to an RTMP player, and published again by it, has the same units as before, each behind a start
-- code of four bytes. It is written with such start codes, and no unit has a start code of three bytes in it.
pub annex_b_from-frame_to_rtmp_video :
    (frame : MediaFrame) (us : List (List ℕ))
    → frame.bytes ≡ annex_b us
    → BareUnits us
    → let body = drop 5 (frame_to_rtmp_video frame) in annex_b_from (length body) body ≡ annex_b us
unfolding frame_to_rtmp_video
annex_b_from-frame_to_rtmp_video frame us e h =
    let same : length_prefixed zero frame.bytes ≡ prefixed us =
      ap (length_prefixed zero) e ∙ length_prefixed-annex_b us h in
    ap (λ xs. annex_b_from (length xs) xs) same
    ∙ annex_b_from-prefixed (length (prefixed us)) us h (omega arith)
