-- ===== src/FrameRing/Returns.antt =====
-- When `evict_if_needed` of src/core/frame_ring.rs stops, and within how many rounds.
use vcp_media_server.Prelude.{
  ℕ, zero, suc, ◌+◌, ◌-◌, ◌≤◌, ◌<◌, ◌^◌, ◌≡◌, refl, subst, ◌∙◌, true, false, not, Option, none,
  some, List, [], ◌∷◌, arith, ltb, leb, if◌then◌else◌, length, inl, inr, Bool-cases, Option-cases,
  keep, last?, ltb→lt,
}
use vcp_media_server.Media.{MediaFrame}
use vcp_media_server.FrameRing.{
  StoredFrame, FrameRing, in_seq_range, remove_seq_range, evict_gop_from, evict_oldest_gop,
  drop_front, evict_front_until_keyframe_or_empty, evict_if_needed, needs_evict, append_frame, push,
}
use vcp_media_server.FrameRing.Rising.{Rising, seqs, total_bytes, drop_front-exact}
use vcp_media_server.FrameRing.Invariant.{
  IsValid, Keyed, evict_oldest_gop-IsValid, append_frame-IsValid,
}

-- The frames from sequence number `g` on.
abbrev pub from_seq : ℕ → List StoredFrame → List StoredFrame
from_seq g = keep (λ f. leb g f.seq)

-- The frames of the newest GOP of a list, by the index of GOP starts.
abbrev pub newest : Option ℕ → List StoredFrame → List StoredFrame
newest none fs = []
newest (some g) fs = from_seq g fs

abbrev pub newest_gop : FrameRing → List StoredFrame
newest_gop r = newest (last? r.gop_starts) r.slots

from_seq_all :
    (g lo : ℕ) (fs : List StoredFrame) (hi : ℕ)
    → g ≤ lo
    → Rising lo (seqs fs) hi
    → from_seq g fs ≡ fs
from_seq_all g lo [] hi le h = refl
from_seq_all g lo (f ∷ fs) hi le h =
    ground (arith, h.0, from_seq_all g (suc f.seq) fs hi (omega (arith, h.0)) h.1)

from_seq-keep :
    (g start stop : ℕ) (fs : List StoredFrame)
    → stop ≤ g
    → from_seq g (keep (λ f. not (in_seq_range start stop f)) fs) ≡ from_seq g fs
from_seq-keep g start stop [] le = refl
from_seq-keep g start stop (f ∷ fs) le = ground (arith, from_seq-keep g start stop fs le)

pub last-ge :
    (lo x : ℕ) (xs : List ℕ) (hi g : ℕ) → Rising lo (x ∷ xs) hi → last? (x ∷ xs) ≡ some g → x ≤ g
last-ge lo x [] hi g h e = ground arith
last-ge lo x (y ∷ ys) hi g h e = omega (arith, h.1.0, last-ge (suc x) y ys hi g h.1 e)

-- One GOP round leaves the newest GOP alone.
newest-evict :
    (r : FrameRing) (s t : ℕ) (rest : List ℕ)
    → r.gop_starts ≡ s ∷ t ∷ rest
    → Rising 0 (s ∷ t ∷ rest) r.write_seq
    → newest_gop (evict_gop_from r (s ∷ t ∷ rest)) ≡ newest_gop r
unfolding evict_gop_from remove_seq_range
newest-evict r s t rest e h = rw e (elim (Option-cases (last? (t ∷ rest))) [
  | inl n ↦ rw n
  | inr (g, n) ↦ rw n (from_seq-keep g s t r.slots (last-ge (suc s) t rest r.write_seq g h.1 n))
])

-- What the front loop leaves of a ring with one GOP start at most lies in the newest GOP.
drop_front-newest :
    (o : Option ℕ) (g : List ℕ) (lo : ℕ) (fs : List StoredFrame) (used hi : ℕ)
    → length g ≤ 1
    → last? g ≡ o
    → Keyed g fs
    → Rising lo (seqs fs) hi
    → (length (drop_front fs used).0 ≤ length (newest o fs))
      × (total_bytes (drop_front fs used).0 ≤ total_bytes (newest o fs))
unfolding drop_front
drop_front-newest o g lo [] used hi l e k h = omega arith
drop_front-newest none [] lo (f ∷ fs) used hi l e k h =
    ground
      (arith, k.0, drop_front-newest none [] (suc f.seq) fs (used - length f.bytes) hi l e k.1 h.1)
drop_front-newest (some x) [] lo (f ∷ fs) used hi l e k h = cc
drop_front-newest none (y ∷ []) lo (f ∷ fs) used hi l e k h = cc
drop_front-newest none (y ∷ z ∷ zs) lo (f ∷ fs) used hi l e k h = absurd (omega arith)
drop_front-newest (some x) (y ∷ []) lo (f ∷ fs) used hi l e k h = ground (
  arith,
  k.0,
  from_seq_all x (suc f.seq) fs hi,
  h.1,
  drop_front-newest (some x) (y ∷ []) (suc f.seq) fs (used - length f.bytes) hi l e k.1 h.1,
)
drop_front-newest (some x) (y ∷ z ∷ zs) lo (f ∷ fs) used hi l e k h = absurd (omega arith)

-- The newest GOP of the ring is within both capacities.
pub record NewestFits (r : FrameRing) : Type 0 where
  pub frames : length (newest_gop r) ≤ r.capacity_frames
  pub bytes : total_bytes (newest_gop r) ≤ r.capacity_bytes

front_makes_room :
    (r : FrameRing)
    → IsValid r
    → NewestFits r
    → length r.gop_starts ≤ 1
    → needs_evict (evict_front_until_keyframe_or_empty r) ≡ false
unfolding evict_front_until_keyframe_or_empty
front_makes_room r v n l = ground (
  arith,
  n.frames,
  n.bytes,
  drop_front-newest (last? r.gop_starts) r.gop_starts 0 r.slots r.bytes_used r.write_seq l refl
      v.keyed v.sorted,
  drop_front-exact r.slots r.bytes_used v.exact,
)

evict_gop-NewestFits :
    (r : FrameRing) (g : List ℕ)
    → r.gop_starts ≡ g
    → 1 < length g
    → IsValid r
    → NewestFits r
    → NewestFits (evict_gop_from r g) × (length (evict_gop_from r g).gop_starts + 1 ≡ length g)
evict_gop-NewestFits r [] e l v n = absurd (omega arith)
evict_gop-NewestFits r (s ∷ []) e l v n = absurd (omega arith)
evict_gop-NewestFits r (s ∷ t ∷ rest) e l v n =
    let same = newest-evict r s t rest e (subst (λ g. Rising 0 g r.write_seq) e v.starts) in
    (
      record {
        frames = rw same (unfold evict_gop_from remove_seq_range in n.frames);
        bytes = rw same (unfold evict_gop_from remove_seq_range in n.bytes);
      },
      unfold evict_gop_from remove_seq_range in omega arith,
    )

evict_one :
    (fuel : ℕ) (r : FrameRing) → needs_evict r ≡ false → evict_if_needed (suc fuel) r ≡ some r
unfolding evict_if_needed
evict_one fuel r n = rw n

evict_step :
    (fuel : ℕ) (r : FrameRing)
    → needs_evict r ≡ true
    → evict_if_needed (suc fuel) r ≡ (
        if ltb 1 (length r.gop_starts)
        then evict_if_needed fuel (evict_oldest_gop r)
        else if ltb 1 (length r.slots)
        then evict_if_needed fuel (evict_front_until_keyframe_or_empty r)
        else some r)
unfolding evict_if_needed
evict_step fuel r n = rw n

-- The eviction of a valid ring stops if its newest GOP is within both capacities; two rounds more
-- than there are GOP starts are enough.
pub evict_if_needed-returns :
    (fuel : ℕ) (r : FrameRing)
    → IsValid r
    → NewestFits r
    → length r.gop_starts + 2 ≤ fuel
    → (s : FrameRing) × (evict_if_needed fuel r ≡ some s)
evict_if_needed-returns zero r v n l = absurd (omega arith)
evict_if_needed-returns (suc zero) r v n l = absurd (omega arith)
evict_if_needed-returns (suc (suc fuel)) r v n l = elim (Bool-cases (needs_evict r)) [
  | inr done ↦ (r, evict_one (suc fuel) r done)
  | inl more ↦ elim (Bool-cases (ltb 1 (length r.gop_starts))) [
    | inl gops ↦
        let (n', c) = evict_gop-NewestFits r r.gop_starts refl (ltb→lt _ _ gops) v n in
        let (s, e) =
          evict_if_needed-returns (suc fuel) (evict_oldest_gop r) (evict_oldest_gop-IsValid r v)
            (unfold evict_oldest_gop in n') (unfold evict_oldest_gop in omega (arith, c)) in
        (s, evict_step (suc fuel) r more ∙ rw gops e)
    | inr one ↦ elim (Bool-cases (ltb 1 (length r.slots))) [
      | inl slots ↦
          let q = front_makes_room r v n (ground (arith, one)) in
          (
            evict_front_until_keyframe_or_empty r,
            evict_step (suc fuel) r more ∙ rw (one, slots) (evict_one fuel _ q),
          )
      | inr few ↦ (r, evict_step (suc fuel) r more ∙ rw (one, few))
    ]
  ]
]

push_of_evict :
    (fuel : ℕ) (r : FrameRing) (f : MediaFrame) (s : FrameRing)
    → evict_if_needed fuel (append_frame r f) ≡ some s
    → push fuel r f ≡ some (r.write_seq, s)
unfolding push
push_of_evict fuel r f s e = ground (arith, e)

-- `push` returns when, with the new frame, the newest GOP is within both capacities: two rounds more
-- than the new number of GOP starts are enough. The counters must not wrap in `u64`.
pub push-returns :
    (fuel : ℕ) (r : FrameRing) (f : MediaFrame)
    → IsValid r
    → r.write_seq + 1 < 2 ^ 64
    → r.bytes_used + length f.bytes < 2 ^ 64
    → NewestFits (append_frame r f)
    → length (append_frame r f).gop_starts + 2 ≤ fuel
    → (s : FrameRing) × (push fuel r f ≡ some (r.write_seq, s))
push-returns fuel r f v hs hb n l =
    let (s, e) =
      evict_if_needed-returns fuel (append_frame r f) (append_frame-IsValid r f v hs hb) n l in
    (s, push_of_evict fuel r f s e)
