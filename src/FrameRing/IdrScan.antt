-- ===== src/FrameRing/IdrScan.antt =====
-- The start-code scan `annex_b_contains_idr` of src/core/frame_ring.rs.
use vcp_media_server.Prelude.{
  ℕ, ◌%◌, ◌^◌, ◌≡◌, refl, Bool, false, ◌&&◌, ◌||◌, ◌∙◌, List, [], ◌∷◌, arith, ◌==◌,
}
use vcp_media_server.FrameRing.{annex_b_contains_idr}

-- A start code of three bytes with an IDR header behind it; one of four bytes ends in such a one.
abbrev pub idr_at : ℕ → ℕ → ℕ → ℕ → Bool
idr_at a b c d = a == 0 && b == 0 && c == 1 && d % 2 ^ 5 == 5

-- At whatever position of the bytes, the last one included.
unfoldable pub idr_anywhere : List ℕ → Bool
idr_anywhere (a ∷ b ∷ c ∷ d ∷ rest) = idr_at a b c d || idr_anywhere (b ∷ c ∷ d ∷ rest)
idr_anywhere _ = false

unfoldable pub but_last : List ℕ → List ℕ
but_last [] = []
but_last (a ∷ []) = []
but_last (a ∷ b ∷ rest) = a ∷ but_last (b ∷ rest)

-- The bytes end with a start code of four bytes and an IDR header.
unfoldable pub ends_with_idr : List ℕ → Bool
ends_with_idr (a ∷ b ∷ c ∷ d ∷ e ∷ []) = a == 0 && idr_at b c d e
ends_with_idr (a ∷ b ∷ c ∷ d ∷ e ∷ f ∷ rest) = ends_with_idr (b ∷ c ∷ d ∷ e ∷ f ∷ rest)
ends_with_idr _ = false

-- The window of five bytes that the scan looks at in each of its positions.
idr_here : ℕ → ℕ → ℕ → ℕ → ℕ → Bool
idr_here a b c d e = (a == 0 && idr_at b c d e) || idr_at a b c d

idr_windows : List ℕ → Bool
idr_windows (a ∷ b ∷ c ∷ d ∷ e ∷ rest) = idr_here a b c d e || idr_windows (b ∷ c ∷ d ∷ e ∷ rest)
idr_windows _ = false

-- No start code begins inside another.
skip_three :
    (d : ℕ) (rest : List ℕ)
    → (d % 2 ^ 5 == 5) ≡ false
    → idr_windows (0 ∷ 1 ∷ d ∷ rest) ≡ idr_windows (d ∷ rest)
unfolding idr_windows idr_here
skip_three d [] h = refl
skip_three d (e ∷ []) h = refl
skip_three d (e ∷ f ∷ []) h = ground arith
skip_three d (e ∷ f ∷ g ∷ rest) h = ground arith

skip_four :
    (e : ℕ) (rest : List ℕ)
    → (e % 2 ^ 5 == 5) ≡ false
    → idr_windows (0 ∷ 0 ∷ 1 ∷ e ∷ rest) ≡ idr_windows (e ∷ rest)
unfolding idr_windows idr_here
skip_four e [] h = refl
skip_four e (f ∷ rest) h = ground (arith, skip_three e (f ∷ rest) h)

-- The scan skips over each start code that it meets, and loses nothing by it.
skips_nothing : (bytes : List ℕ) → annex_b_contains_idr bytes ≡ idr_windows bytes
unfolding annex_b_contains_idr idr_windows idr_here
skips_nothing [] = refl
skips_nothing (a ∷ []) = refl
skips_nothing (a ∷ b ∷ []) = refl
skips_nothing (a ∷ b ∷ c ∷ []) = refl
skips_nothing (a ∷ b ∷ c ∷ d ∷ []) = refl
skips_nothing (a ∷ b ∷ c ∷ d ∷ e ∷ rest) = ground (
  arith,
  skips_nothing (b ∷ c ∷ d ∷ e ∷ rest),
  skips_nothing (d ∷ e ∷ rest),
  skips_nothing (e ∷ rest),
  skip_three d (e ∷ rest),
  skip_four e rest,
)

windows_but_last :
    (bytes : List ℕ) → idr_windows bytes ≡ idr_anywhere (but_last bytes) || ends_with_idr bytes
unfolding idr_windows idr_here idr_anywhere but_last ends_with_idr
windows_but_last [] = refl
windows_but_last (a ∷ []) = refl
windows_but_last (a ∷ b ∷ []) = refl
windows_but_last (a ∷ b ∷ c ∷ []) = refl
windows_but_last (a ∷ b ∷ c ∷ d ∷ []) = refl
windows_but_last (a ∷ b ∷ c ∷ d ∷ e ∷ []) = ground arith
windows_but_last (a ∷ b ∷ c ∷ d ∷ e ∷ f ∷ []) =
    ground (arith, windows_but_last (b ∷ c ∷ d ∷ e ∷ f ∷ []))
windows_but_last (a ∷ b ∷ c ∷ d ∷ e ∷ f ∷ g ∷ rest) =
    ground (arith, windows_but_last (b ∷ c ∷ d ∷ e ∷ f ∷ g ∷ rest))

-- The scan, which skips over each start code that it meets, answers true exactly if an IDR header stands behind a start
-- code at some position but the last byte, or at the last byte behind a start code of four bytes: an IDR header in the last
-- byte behind a start code of three is not found.
pub annex_b_contains_idr-eq-idr_anywhere :
    (bytes : List ℕ)
    → annex_b_contains_idr bytes ≡ idr_anywhere (but_last bytes) || ends_with_idr bytes
annex_b_contains_idr-eq-idr_anywhere bytes = skips_nothing bytes ∙ windows_but_last bytes
