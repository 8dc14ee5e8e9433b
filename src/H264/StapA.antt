-- ===== src/H264/StapA.antt =====
-- Aggregation packets of src/server/webrtc/rtp_h264.rs (STAP-A, RFC 6184 5.7.1).
use vcp_media_server.Prelude.{
  le_or_lt, ℕ, zero, suc, ◌+◌, ◌*◌, ◌/◌, ◌%◌, ◌^◌, ◌≤◌, ◌<◌, ◌≡◌, ◌≢◌, inl, inr, refl, ap, ◌∙◌,
  Bool, true, false, ◌||◌, some, List, [], ◌∷◌, ◌++◌, map, arith, ltb, ◌==◌, if◌then◌else◌, length,
  take, drop, length-drop, length-append, take-append_length, drop-append_length,
}
use vcp_media_server.H264.Packet.{nth}
use vcp_media_server.H264.Depacketizer.{
  H264RtpDepacketizer, Result, ok, err, stuck, stap_a_size_larger_than_buffer, ParsedNalu, push,
  stap_a, with_nalu, stap_a_loop, parse_stap_a_checked, nalus_to_annex_b, start_code,
}

-- The payload's format: each unit behind its length in two bytes.
unfoldable pub sized : List (List ℕ) → List ℕ
sized [] = []
sized (n ∷ ns) = length n / 2 ^ 8 ∷ length n % 2 ^ 8 ∷ (n ++ sized ns)

unfoldable pub annex_b : List (List ℕ) → List ℕ
annex_b [] = []
annex_b (n ∷ ns) = start_code ++ (n ++ annex_b ns)

-- Each unit has a length that two bytes hold, and is not empty.
unfoldable pub Sizable : List (List ℕ) → Type 0
Sizable [] = Unit
Sizable (n ∷ ns) = (0 < length n) × (length n < 2 ^ 16) × Sizable ns

abbrev pub parsed : List ℕ → ParsedNalu
parsed n = record { nal_type = nth n 0 % 2 ^ 5; bytes = n }

-- A length of two bytes.
length_bytes : (n : ℕ) → n / 2 ^ 8 * 2 ^ 8 + n % 2 ^ 8 ≡ n
length_bytes n = omega arith

skip_two : (len a b : ℕ) (tail : List ℕ) → drop (2 + len) (a ∷ b ∷ tail) ≡ drop len tail
skip_two len a b tail = let two : 2 + len ≡ suc (suc len) = omega arith in rw two refl

stap_a_loop_unit :
    (fuel len a b : ℕ) (tail : List ℕ)
    → a * 2 ^ 8 + b ≡ len
    → 0 < len
    → len ≤ length tail
    → stap_a_loop (suc fuel) (a ∷ b ∷ tail)
      ≡ with_nalu (take len tail) (stap_a_loop fuel (drop len tail))
unfolding stap_a_loop
stap_a_loop_unit fuel len a b tail e pos fits =
    let long : ltb (length (a ∷ b ∷ tail)) 2 ≡ false = ground arith in
    let sound : (len == 0 || ltb (length (a ∷ b ∷ tail)) (2 + len)) ≡ false = ground arith in
    rw e (rw long (rw sound (rw (skip_two len a b tail) refl)))

stap_a_loop-sized :
    (ns : List (List ℕ)) (fuel : ℕ)
    → Sizable ns
    → length (sized ns) < fuel
    → stap_a_loop fuel (sized ns) ≡ ok (map parsed ns)
unfolding stap_a_loop sized Sizable
stap_a_loop-sized [] zero s h = ground arith
stap_a_loop-sized [] (suc fuel) s h = refl
stap_a_loop-sized (n ∷ ns) zero s h = ground arith
stap_a_loop-sized (n ∷ ns) (suc fuel) (pos, small, s) h =
    stap_a_loop_unit fuel (length n) (length n / 2 ^ 8) (length n % 2 ^ 8) (n ++ sized ns)
      (length_bytes (length n)) pos (omega (arith, length-append n (sized ns)))
    ∙ rw
        (
          take-append_length n (sized ns),
          drop-append_length n (sized ns),
          stap_a_loop-sized ns fuel s (omega (arith, length-append n (sized ns))),
        )
        refl

with_nalu-returns :
    (nalu : List ℕ) (r : Result (List ParsedNalu)) → r ≢ stuck → with_nalu nalu r ≢ stuck
with_nalu-returns nalu (ok nalus) h e = ground arith
with_nalu-returns nalu (err x) h e = ground arith
with_nalu-returns nalu stuck h e = h refl

branches-returns :
    (c c' : Bool) (r : Result (List ParsedNalu))
    → r ≢ stuck
    → (if c then ok [] else if c' then err stap_a_size_larger_than_buffer else r) ≢ stuck
branches-returns true c' r h e = ground arith
branches-returns false true r h e = ground arith
branches-returns false false r h e = h e

-- The fuel is never used up.
stap_a_loop-returns :
    (fuel : ℕ) (left : List ℕ) → length left < fuel → stap_a_loop fuel left ≢ stuck
unfolding stap_a_loop
stap_a_loop-returns zero left h = ground arith
stap_a_loop-returns (suc fuel) left h =
    let len : ℕ = nth left 0 * 2 ^ 8 + nth left 1 in
    elim (le_or_lt 2 (length left)) [
      | inl long ↦
          let more : stap_a_loop fuel (drop (2 + len) left) ≢ stuck =
            stap_a_loop-returns fuel (drop (2 + len) left)
              (omega (arith, length-drop (2 + len) left)) in
          let added : with_nalu (take len (drop 2 left)) (stap_a_loop fuel (drop (2 + len) left))
              ≢ stuck =
            with_nalu-returns (take len (drop 2 left)) (stap_a_loop fuel (drop (2 + len) left))
              more in
          branches-returns (ltb (length left) 2) (len == 0 || ltb (length left) (2 + len))
            (with_nalu (take len (drop 2 left)) (stap_a_loop fuel (drop (2 + len) left))) added
      | inr short ↦ λ e. ground (arith, e)
    ]

-- The loop of a STAP-A payload ends: its fuel, a unit per byte, is never used up.
parse_stap_a_checked-returns : (payload : List ℕ) → parse_stap_a_checked payload ≢ stuck
unfolding parse_stap_a_checked
parse_stap_a_checked-returns payload =
    stap_a_loop-returns (suc (length payload)) (drop 1 payload)
      (omega (arith, length-drop 1 payload))

nalus_to_annex_b-parsed : (ns : List (List ℕ)) → nalus_to_annex_b (map parsed ns) ≡ annex_b ns
unfolding nalus_to_annex_b annex_b
nalus_to_annex_b-parsed [] = refl
nalus_to_annex_b-parsed (n ∷ ns) = ap (λ xs. start_code ++ (n ++ xs)) (nalus_to_annex_b-parsed ns)

-- A STAP-A payload with units of 1 to 2 ^ 16 - 1 bytes, each behind its length in two bytes, is given out
-- as these units, each behind a start code, and leaves the depacketizer as it was.
pub push-sized :
    (d : H264RtpDepacketizer) (header : ℕ) (ns : List (List ℕ))
    → header % 2 ^ 5 ≡ stap_a
    → Sizable ns
    → push d (header ∷ sized ns) ≡ (ok (some (annex_b ns)), d)
unfolding push parse_stap_a_checked
push-sized d header ns h s =
    let units = stap_a_loop-sized ns (suc (suc (length (sized ns)))) s (omega arith) in
    rw h (rw units (rw (nalus_to_annex_b-parsed ns) refl))
