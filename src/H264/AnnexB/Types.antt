-- ===== src/H264/AnnexB/Types.antt =====
-- The unit types that the scans of src/server/webrtc/h264_util.rs see in an Annex B buffer.
use vcp_media_server.Prelude.{
  ℕ, zero, ◌+◌, ◌≡◌, refl, sym, ap, ap₂, subst, ◌∙◌, true, false, List, [], ◌∷◌, ◌++◌, Bool, Option,
  some, ◌||◌, ◌%◌, ◌^◌, append_assoc, arith, ltb, length, length-append,
}
use vcp_media_server.Prelude.Bytes.{starts_with}
use vcp_media_server.H264.Packet.{nth}
use vcp_media_server.H264.Depacketizer.{start_code}
use vcp_media_server.H264.StapA.{annex_b}
use vcp_media_server.H264.AnnexB.{
  iter_annex_b_nal_ranges, nalu_type, any_unit, is_type, first_nalu_type, first_nalu_header_offset,
  is_keyframe_annex_b, contains_idr_nalu, contains_nalu_type,
}
use vcp_media_server.H264.AnnexB.Split.{Units, ranges_from, iter_found, nal_walk-annex_b}

nth-append_length :
    (pre : List ℕ) (b : ℕ) (rest : List ℕ) → nth (pre ++ (b ∷ rest)) (length pre) ≡ b
nth-append_length [] b rest = refl
nth-append_length (x ∷ xs) b rest = nth-append_length xs b rest

header_type :
    (front : List ℕ) (b : ℕ) (rest : List ℕ)
    → nalu_type (front ++ (b ∷ rest)) (length front) ≡ some (b % 2 ^ 5)
unfolding nalu_type
header_type front b rest =
    let here : ltb (length front) (length (front ++ (b ∷ rest))) ≡ true =
      ground (arith, length-append front (b ∷ rest)) in
    rw (here, nth-append_length front b rest) refl

abbrev pub any_of : (Option ℕ → Bool) → List (List ℕ) → Bool
any_of p [] = false
any_of p (u ∷ us) = p (some (nth u 0 % 2 ^ 5)) || any_of p us

any_unit-ranges_from :
    (p : Option ℕ → Bool) (front : List ℕ) (us : List (List ℕ)) (whole : List ℕ)
    → Units us
    → whole ≡ front ++ annex_b us
    → any_unit p whole (ranges_from (length front) us) ≡ any_of p us
unfolding annex_b Units
any_unit-ranges_from p front [] whole h w = refl
any_unit-ranges_from p front ([] ∷ us) whole h w = absurd (omega (arith, h.0))
any_unit-ranges_from p front ((b ∷ bs) ∷ us) whole (pos, plain, h) w =
    let begin : whole ≡ (front ++ start_code) ++ (b ∷ (bs ++ annex_b us)) =
      w ∙ sym (append_assoc front start_code (b ∷ (bs ++ annex_b us))) in
    let back : whole ≡ (front ++ (start_code ++ (b ∷ bs))) ++ annex_b us =
      w ∙ sym (append_assoc front (start_code ++ (b ∷ bs)) (annex_b us)) in
    let first : nalu_type whole (length front + 4) ≡ some (b % 2 ^ 5) =
      ap₂ nalu_type begin (sym (length-append front start_code))
      ∙ header_type (front ++ start_code) b (bs ++ annex_b us) in
    let place : length (front ++ (start_code ++ (b ∷ bs))) ≡ length front + 4 + length (b ∷ bs) =
      omega (arith, length-append front (start_code ++ (b ∷ bs))) in
    ap₂ ◌||◌ (ap p first) (
      subst (λ k. any_unit p whole (ranges_from k us) ≡ any_of p us) place
        (any_unit-ranges_from p (front ++ (start_code ++ (b ∷ bs))) us whole h back))

pub found_ranges :
    (u : List ℕ) (us : List (List ℕ))
    → Units (u ∷ us)
    → iter_annex_b_nal_ranges (annex_b (u ∷ us)) ≡ ranges_from zero (u ∷ us)
found_ranges u us h =
    iter_found (annex_b (u ∷ us)) (4, 4 + length u) (ranges_from (4 + length u) us)
      (nal_walk-annex_b zero (u ∷ us) h)

pub any_unit-annex_b :
    (p : Option ℕ → Bool) (u : List ℕ) (us : List (List ℕ))
    → Units (u ∷ us)
    → any_unit p (annex_b (u ∷ us)) (iter_annex_b_nal_ranges (annex_b (u ∷ us))) ≡ any_of p (u ∷ us)
any_unit-annex_b p u us h =
    ap (any_unit p (annex_b (u ∷ us))) (found_ranges u us h)
    ∙ any_unit-ranges_from p [] (u ∷ us) (annex_b (u ∷ us)) h refl

first_nalu_type-annex_b :
    (u : List ℕ) (us : List (List ℕ))
    → Units (u ∷ us)
    → first_nalu_type (annex_b (u ∷ us)) ≡ some (nth u 0 % 2 ^ 5)
unfolding first_nalu_type first_nalu_header_offset starts_with nalu_type annex_b Units
first_nalu_type-annex_b [] us h = absurd (omega (arith, h.0))
first_nalu_type-annex_b (b ∷ bs) us h = ground arith

or_absorbs : (x y : Bool) → (x || (x || y)) ≡ (x || y)
or_absorbs true y = refl
or_absorbs false y = refl

pub is_keyframe_annex_b-annex_b :
    (u : List ℕ) (us : List (List ℕ))
    → Units (u ∷ us)
    → is_keyframe_annex_b (annex_b (u ∷ us)) ≡ any_of (is_type 5) (u ∷ us)
unfolding is_keyframe_annex_b contains_idr_nalu contains_nalu_type
is_keyframe_annex_b-annex_b u us h =
    ap₂ (λ t x. is_type 5 t || x) (first_nalu_type-annex_b u us h)
      (any_unit-annex_b (is_type 5) u us h)
    ∙ or_absorbs (is_type 5 (some (nth u 0 % 2 ^ 5))) (any_of (is_type 5) us)
