-- ===== src/H264/AnnexB/Split.antt =====
-- The units that an Annex B buffer is written from are found again (src/server/webrtc/h264_util.rs).
use vcp_media_server.Prelude.{
  ℕ, zero, suc, ◌+◌, ◌-◌, ◌<◌, ◌≡◌, refl, sym, ap, subst, ◌∙◌, true, false, List, [], ◌∷◌, ◌++◌,
  map, append_assoc, append-nil, arith, ltb, length, length-append, take-append_length,
  drop-append_length,
}
use vcp_media_server.Prelude.Bytes.{starts_with}
use vcp_media_server.H264.Depacketizer.{start_code}
use vcp_media_server.H264.StapA.{annex_b}
use vcp_media_server.H264.AnnexB.{find_end, nal_walk, iter_annex_b_nal_ranges, slice}

-- No start code begins within the unit.
unfoldable pub Plain : List ℕ → Type 0
Plain [] = Unit
Plain (b ∷ bs) = (starts_with (b ∷ bs) start_code ≡ false) × Plain bs

-- Units with at least a header byte, and no start code within.
unfoldable pub Units : List (List ℕ) → Type 0
Units [] = Unit
Units (u ∷ us) = (0 < length u) × Plain u × Units us

-- A start code does not begin in a plain unit, whatever is behind it, if that is a start code or nothing.
straddle :
    (b : ℕ) (bs rest : List ℕ)
    → starts_with (b ∷ bs) start_code ≡ false
    → starts_with ((b ∷ bs) ++ (start_code ++ rest)) start_code ≡ false
unfolding starts_with
straddle b [] rest h = ground arith
straddle b (c ∷ []) rest h = ground arith
straddle b (c ∷ d ∷ []) rest h = ground arith
straddle b (c ∷ d ∷ e ∷ bs) rest h = h

find_end-Plain : (j : ℕ) (u : List ℕ) → Plain u → find_end j u ≡ j + length u
unfolding find_end Plain
find_end-Plain j [] p = omega arith
find_end-Plain j (b ∷ bs) (h, p) = rw h (find_end-Plain (suc j) bs p ∙ omega arith)

find_end-start_code :
    (j : ℕ) (u rest : List ℕ) → Plain u → find_end j (u ++ (start_code ++ rest)) ≡ j + length u
unfolding find_end Plain starts_with
find_end-start_code j [] rest p = omega arith
find_end-start_code j (b ∷ bs) rest (h, p) =
    rw (straddle b bs rest h) (find_end-start_code (suc j) bs rest p ∙ omega arith)

nal_walk-skip :
    (xs ys : List ℕ) (i : ℕ) → nal_walk (length xs) i (xs ++ ys) ≡ nal_walk zero (i + length xs) ys
unfolding nal_walk
nal_walk-skip [] ys i = ap (λ k. nal_walk zero k ys) (omega arith)
nal_walk-skip (x ∷ xs) ys i =
    nal_walk-skip xs ys (suc i) ∙ ap (λ k. nal_walk zero k ys) (omega arith)

find_end-annex_b :
    (j : ℕ) (u : List ℕ) (us : List (List ℕ))
    → Plain u
    → find_end j (u ++ annex_b us) ≡ j + length u
unfolding annex_b
find_end-annex_b j u [] p = rw (append-nil u) (find_end-Plain j u p)
find_end-annex_b j u (v ∷ vs) p = find_end-start_code j u (v ++ annex_b vs) p

-- Where the units stand in the buffer that is written from them at `i`.
abbrev pub ranges_from : ℕ → List (List ℕ) → List (ℕ × ℕ)
ranges_from i [] = []
ranges_from i (u ∷ us) = (i + 4, i + 4 + length u) ∷ ranges_from (i + 4 + length u) us

nal_walk-unit :
    (i end : ℕ) (u rest : List ℕ)
    → 0 < length u
    → find_end (i + 4) (u ++ rest) ≡ end
    → end ≡ i + 4 + length u
    → nal_walk zero i (start_code ++ (u ++ rest)) ≡ (i + 4, end) ∷ nal_walk zero end rest
unfolding nal_walk starts_with
nal_walk-unit i end u rest pos e n =
    let found : ltb (i + 4) end ≡ true = ground arith in
    let skip : end - suc i ≡ length (0 ∷ 0 ∷ 1 ∷ u) = omega arith in
    let there : suc i + length (0 ∷ 0 ∷ 1 ∷ u) ≡ end = omega arith in
    rw (e, found, skip)
      (ap (λ rs. (i + 4, end) ∷ rs)
        (nal_walk-skip (0 ∷ 0 ∷ 1 ∷ u) rest (suc i) ∙ ap (λ k. nal_walk zero k rest) there))

pub nal_walk-annex_b :
    (i : ℕ) (us : List (List ℕ)) → Units us → nal_walk zero i (annex_b us) ≡ ranges_from i us
unfolding annex_b Units nal_walk
nal_walk-annex_b i [] h = refl
nal_walk-annex_b i (u ∷ us) (pos, p, h) =
    nal_walk-unit i (i + 4 + length u) u (annex_b us) pos (find_end-annex_b (i + 4) u us p) refl
    ∙ ap (λ rs. (i + 4, i + 4 + length u) ∷ rs) (nal_walk-annex_b (i + 4 + length u) us h)

-- A part of a list between two others.
slice_part :
    (pre u rest : List ℕ) (start end : ℕ)
    → start ≡ length pre
    → end ≡ start + length u
    → slice (pre ++ (u ++ rest)) (start, end) ≡ u
slice_part pre u rest start end s e =
    let size : end - start ≡ length u = omega arith in
    rw (size, s, drop-append_length pre (u ++ rest)) (take-append_length u rest)

slices-annex_b :
    (pre : List ℕ) (us : List (List ℕ)) (whole : List ℕ)
    → whole ≡ pre ++ annex_b us
    → map (slice whole) (ranges_from (length pre) us) ≡ us
unfolding annex_b
slices-annex_b pre [] whole w = refl
slices-annex_b pre (u ∷ us) whole w =
    let front : whole ≡ (pre ++ start_code) ++ (u ++ annex_b us) =
      w ∙ sym (append_assoc pre start_code (u ++ annex_b us)) in
    let back : whole ≡ (pre ++ (start_code ++ u)) ++ annex_b us =
      w ∙ sym (append_assoc pre (start_code ++ u) (annex_b us)) in
    let first : slice whole (length pre + 4, length pre + 4 + length u) ≡ u =
      ap (λ x. slice x (length pre + 4, length pre + 4 + length u)) front
      ∙ slice_part (pre ++ start_code) u (annex_b us) (length pre + 4) (length pre + 4 + length u)
          (omega (arith, length-append pre start_code)) refl in
    let place : length (pre ++ (start_code ++ u)) ≡ length pre + 4 + length u =
      omega (arith, length-append pre (start_code ++ u)) in
    ap (λ x. x ∷ map (slice whole) (ranges_from (length pre + 4 + length u) us)) first
    ∙ ap (◌∷◌ u) (
        subst (λ k. map (slice whole) (ranges_from k us) ≡ us) place
          (slices-annex_b (pre ++ (start_code ++ u)) us whole back))

pub iter_found :
    (bytes : List ℕ) (r : ℕ × ℕ) (rs : List (ℕ × ℕ))
    → nal_walk zero zero bytes ≡ r ∷ rs
    → iter_annex_b_nal_ranges bytes ≡ r ∷ rs
unfolding iter_annex_b_nal_ranges
iter_found bytes r rs e = rw (iter_annex_b_nal_ranges, e) refl

-- A buffer that is written from units, each behind a start code of four bytes, is cut into exactly these
-- units again. Each unit has a byte at least, and no such start code begins within it.
pub slice-iter_annex_b_nal_ranges :
    (us : List (List ℕ))
    → Units us
    → map (slice (annex_b us)) (iter_annex_b_nal_ranges (annex_b us)) ≡ us
unfolding iter_annex_b_nal_ranges annex_b nal_walk
slice-iter_annex_b_nal_ranges [] h = refl
slice-iter_annex_b_nal_ranges (u ∷ us) h =
    ap (map (slice (annex_b (u ∷ us)))) (
      iter_found (annex_b (u ∷ us)) (4, 4 + length u) (ranges_from (4 + length u) us)
        (nal_walk-annex_b zero (u ∷ us) h))
    ∙ slices-annex_b [] (u ∷ us) (annex_b (u ∷ us)) refl
