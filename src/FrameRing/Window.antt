-- ===== src/FrameRing/Window.antt =====
-- Windows of the frame ring of src/core/frame_ring.rs: what `frames_from` reads.
use mathlib.Core.Option.{map as map_option}
use vcp_media_server.Media.{MediaFrame}
use vcp_media_server.Prelude.{
  ℕ, suc, ◌+◌, ◌-◌, max, ◌≤◌, ◌<◌, ◌≡◌, refl, ap, ◌∙◌, sym, Bool, false, ◌&&◌, some, List, [], ◌∷◌,
  ◌++◌, map, arith, leb, ◌==◌, length, keep, Option, none,
}
use vcp_media_server.FrameRing.{
  StoredFrame, FrameRing, find_seq, get, is_empty, frames_from, to_media_frame, oldest_seq,
  front_seq,
}
use vcp_media_server.FrameRing.Rising.{Rising, seqs}
use vcp_media_server.FrameRing.Invariant.{IsValid}

abbrev pub one_or_none : Option MediaFrame → List MediaFrame
one_or_none none = []
one_or_none (some f) = f ∷ []

abbrev pub within : ℕ → ℕ → StoredFrame → Bool
within a b f = leb a f.seq && leb f.seq b

keep_below :
    (a b lo : ℕ) (fs : List StoredFrame) (hi : ℕ)
    → Rising lo (seqs fs) hi
    → b < lo
    → keep (within a b) fs ≡ []
keep_below a b lo [] hi h lt = refl
keep_below a b lo (f ∷ fs) hi h lt = ground (arith, h.0, keep_below a b (suc f.seq) fs hi h.1)

-- Two windows that follow one another.
keep_windows :
    (a b c lo : ℕ) (fs : List StoredFrame) (hi : ℕ)
    → Rising lo (seqs fs) hi
    → a ≤ b + 1
    → b ≤ c
    → keep (within a b) fs ++ keep (within (b + 1) c) fs ≡ keep (within a c) fs
keep_windows a b c lo [] hi h ab bc = refl
keep_windows a b c lo (f ∷ fs) hi h ab bc = ground (
  arith,
  h.0,
  keep_windows a b c (suc f.seq) fs hi h.1 ab bc,
  keep_below a b (suc f.seq) fs hi h.1,
)

map-append :
    (xs ys : List StoredFrame)
    → map to_media_frame (xs ++ ys) ≡ map to_media_frame xs ++ map to_media_frame ys
map-append [] ys = refl
map-append (x ∷ xs) ys = ap (◌∷◌ (to_media_frame x)) (map-append xs ys)

pub frames_from-append :
    (r : FrameRing) (a b c : ℕ)
    → IsValid r
    → a ≤ b + 1
    → b ≤ c
    → frames_from r a b ++ frames_from r (b + 1) c ≡ frames_from r a c
unfolding frames_from
frames_from-append r a b c v ab bc =
    sym (map-append (keep (within a b) r.slots) (keep (within (b + 1) c) r.slots))
    ∙ ap (map to_media_frame) (keep_windows a b c 0 r.slots r.write_seq v.sorted ab bc)

keep_found :
    (a b n : ℕ) (fs : List StoredFrame) (f : StoredFrame)
    → find_seq fs n ≡ some f
    → a ≤ n
    → n ≤ b
    → (length (map to_media_frame (keep (within a b) fs)) == 0) ≡ false
unfolding find_seq
keep_found a b n [] f h le ge = cc
keep_found a b n (g ∷ fs) f h le ge = ground (arith, keep_found a b n fs f)

-- A window with a stored frame in it is not empty.
pub frames_from_found :
    (r : FrameRing) (a b n : ℕ) (f : StoredFrame)
    → get r n ≡ some f
    → a ≤ n
    → n ≤ b
    → (length (frames_from r a b) == 0) ≡ false
unfolding frames_from get
frames_from_found r a b n f h le ge = keep_found a b n r.slots f h le ge

keep_reversed : (a b : ℕ) (fs : List StoredFrame) → b < a → keep (within a b) fs ≡ []
keep_reversed a b [] lt = refl
keep_reversed a b (f ∷ fs) lt = ground (arith, keep_reversed a b fs)

pub frames_from_reversed : (r : FrameRing) (a b : ℕ) → b < a → frames_from r a b ≡ []
unfolding frames_from
frames_from_reversed r a b lt = ap (map to_media_frame) (keep_reversed a b r.slots lt)

find_seq-some :
    (fs : List StoredFrame) (n : ℕ) (f : StoredFrame)
    → find_seq fs n ≡ some f
    → (length fs == 0) ≡ false
unfolding find_seq
find_seq-some [] n f h = cc
find_seq-some (g ∷ fs) n f h = ground arith

pub get-is_empty : (r : FrameRing) (n : ℕ) (f : StoredFrame) → get r n ≡ some f → is_empty r ≡ false
unfolding get is_empty
get-is_empty r n f h = find_seq-some r.slots n f h

keep_from :
    (a b lo : ℕ) (fs : List StoredFrame) (hi c : ℕ)
    → Rising lo (seqs fs) hi
    → a ≤ c
    → c ≤ lo
    → keep (within a b) fs ≡ keep (within c b) fs
keep_from a b lo [] hi c h ac lo_c = refl
keep_from a b lo (f ∷ fs) hi c h ac lo_c =
    ground (arith, h.0, keep_from a b (suc f.seq) fs hi c h.1 ac)

from_front :
    (a b : ℕ) (fs : List StoredFrame) (hi oldest : ℕ)
    → Rising 0 (seqs fs) hi
    → front_seq fs ≡ some oldest
    → a < oldest
    → keep (within a b) fs ≡ keep (within oldest b) fs
from_front a b [] hi oldest h o lt = refl
from_front a b (f ∷ fs) hi oldest h o lt =
    ground (arith, h.0, keep_from a b (suc f.seq) fs hi oldest h.1)

-- Nothing is stored below the oldest number.
pub frames_from_before :
    (r : FrameRing) (a oldest b : ℕ)
    → IsValid r
    → oldest_seq r ≡ some oldest
    → a < oldest
    → frames_from r a b ≡ frames_from r oldest b
unfolding frames_from oldest_seq
frames_from_before r a oldest b v o lt =
    ap (map to_media_frame) (from_front a b r.slots r.write_seq oldest v.sorted o lt)

front_found :
    (fs : List StoredFrame) (oldest a b : ℕ)
    → front_seq fs ≡ some oldest
    → a ≤ oldest
    → oldest ≤ b
    → (length (map to_media_frame (keep (within a b) fs)) == 0) ≡ false
front_found [] oldest a b o le ge = cc
front_found (f ∷ fs) oldest a b o le ge = ground arith

pub oldest-frames_from :
    (r : FrameRing) (a b oldest : ℕ)
    → oldest_seq r ≡ some oldest
    → a ≤ oldest
    → oldest ≤ b
    → (length (frames_from r a b) == 0) ≡ false
unfolding frames_from oldest_seq
oldest-frames_from r a b oldest o le ge = front_found r.slots oldest a b o le ge

evicted :
    (a b : ℕ) (fs : List StoredFrame) (hi oldest : ℕ)
    → Rising 0 (seqs fs) hi
    → front_seq fs ≡ some oldest
    → b < oldest
    → map to_media_frame (keep (within a b) fs) ≡ []
evicted a b [] hi oldest h o lt = refl
evicted a b (f ∷ fs) hi oldest h o lt = ground (arith, keep_below a b (suc f.seq) fs hi h.1)

-- A window that ends below the oldest number is empty.
pub frames_from_evicted :
    (r : FrameRing) (a b oldest : ℕ)
    → IsValid r
    → oldest_seq r ≡ some oldest
    → b < oldest
    → frames_from r a b ≡ []
unfolding frames_from oldest_seq
frames_from_evicted r a b oldest v o lt = evicted a b r.slots r.write_seq oldest v.sorted o lt

keep_one :
    (n lo : ℕ) (fs : List StoredFrame) (hi : ℕ)
    → Rising lo (seqs fs) hi
    → map to_media_frame (keep (within n n) fs)
      ≡ one_or_none (map_option to_media_frame (find_seq fs n))
unfolding find_seq
keep_one n lo [] hi h = refl
keep_one n lo (f ∷ fs) hi h =
    ground (arith, h.0, keep_one n (suc f.seq) fs hi h.1, keep_below n n (suc f.seq) fs hi h.1)

-- A window of one number.
pub frames_from_one :
    (r : FrameRing) (n : ℕ)
    → IsValid r
    → frames_from r n n ≡ one_or_none (map_option to_media_frame (get r n))
unfolding frames_from get
frames_from_one r n v = keep_one n 0 r.slots r.write_seq v.sorted

length-keep :
    (a b lo : ℕ) (fs : List StoredFrame) (hi : ℕ)
    → Rising lo (seqs fs) hi
    → length (map to_media_frame (keep (within a b) fs)) ≤ b + 1 - max lo a
length-keep a b lo [] hi h = omega arith
length-keep a b lo (f ∷ fs) hi h = ground (arith, h.0, length-keep a b (suc f.seq) fs hi h.1)

-- A window holds no more frames than numbers.
pub length-frames_from :
    (r : FrameRing) (a b : ℕ) → IsValid r → length (frames_from r a b) ≤ b + 1 - a
unfolding frames_from
length-frames_from r a b v = omega (arith, length-keep a b 0 r.slots r.write_seq v.sorted)
