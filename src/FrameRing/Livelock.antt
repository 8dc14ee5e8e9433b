-- ===== src/FrameRing/Livelock.antt =====
-- When `evict_if_needed` of src/core/frame_ring.rs never stops.
use vcp_media_server.Prelude.{
  ℕ, zero, suc, ◌+◌, ◌≤◌, ◌<◌, ◌≡◌, refl, ◌∙◌, true, false, Option, none, some, List, [], ◌∷◌, ◌++◌,
  arith, length, length-append, inl, inr, Bool-cases, All,
}
use vcp_media_server.Media.{MediaFrame, is_video}
use vcp_media_server.FrameRing.{
  StoredFrame, FrameRing, with_capacity, drop_front, evict_front_until_keyframe_or_empty,
  evict_if_needed, needs_evict, append_frame, stored, is_video_keyframe, push,
}
use vcp_media_server.FrameRing.Rising.{flagged}

-- A ring that holds one GOP, whose first frame is flagged as a video keyframe.
abbrev pub OneGop : FrameRing → Type 0
OneGop r =
    (length r.gop_starts ≤ 1)
    × (k : StoredFrame) × (rest : List StoredFrame) × (r.slots ≡ k ∷ rest)
    × (flagged k ≡ true)

-- The front loop stops at once on such a ring.
evict_front_idle : (r : FrameRing) → OneGop r → evict_front_until_keyframe_or_empty r ≡ r
unfolding evict_front_until_keyframe_or_empty drop_front
evict_front_idle r (_, k, rest, e, h) = ground (arith, e, h)

-- The round changes nothing, so the loop repeats it for ever.
evict_if_needed_stuck :
    (fuel : ℕ) (r : FrameRing)
    → OneGop r
    → needs_evict r ≡ true
    → 1 < length r.slots
    → evict_if_needed fuel r ≡ none
unfolding evict_if_needed
evict_if_needed_stuck zero r g n l = refl
evict_if_needed_stuck (suc fuel) r g n l =
    ground (arith, evict_front_idle r g, evict_if_needed_stuck fuel r g n l)

append_plain-OneGop :
    (r : FrameRing) (f : MediaFrame)
    → OneGop r
    → is_video_keyframe f ≡ false
    → OneGop (append_frame r f)
unfolding append_frame
append_plain-OneGop r f (l, k, rest, e, h) p =
    (ground (arith, l), k, rest ++ (stored r f ∷ []), ground (arith, e), h)

length-append_frame :
    (r : FrameRing) (f : MediaFrame) → length (append_frame r f).slots ≡ length r.slots + 1
unfolding append_frame
length-append_frame r f = omega (arith, length-append r.slots (stored r f ∷ []))

capacity-append_frame :
    (r : FrameRing) (f : MediaFrame) → (append_frame r f).capacity_frames ≡ r.capacity_frames
unfolding append_frame
capacity-append_frame r f = refl

-- A publisher's frames, pushed one after another with the same bound on the rounds of each.
unfoldable pub push_all : ℕ → FrameRing → List MediaFrame → Option FrameRing
unfolding push
push_all fuel r [] = some r
push_all fuel r (f ∷ fs) = elim (push fuel r f) [ none ↦ none | some (seq, s) ↦ push_all fuel s fs ]

length-OneGop : (r : FrameRing) → OneGop r → 1 ≤ length r.slots
length-OneGop r (_, k, rest, e, _) = ground (arith, e)

push_all-none :
    (fuel : ℕ) (r : FrameRing) (f : MediaFrame) (fs : List MediaFrame)
    → evict_if_needed fuel (append_frame r f) ≡ none
    → push_all fuel r (f ∷ fs) ≡ none
unfolding push_all
push_all-none fuel r f fs e = ground (arith, e)

push_all_next :
    (fuel : ℕ) (r : FrameRing) (f : MediaFrame) (fs : List MediaFrame)
    → needs_evict (append_frame r f) ≡ false
    → push_all fuel (append_frame r f) fs ≡ none
    → push_all fuel r (f ∷ fs) ≡ none
unfolding push_all evict_if_needed
push_all_next zero r f fs n e = refl
push_all_next (suc fuel) r f fs n e = ground (arith, n, e)

fits_frames : (r : FrameRing) → needs_evict r ≡ false → length r.slots ≤ r.capacity_frames
fits_frames r n = ground (arith, n)

push_all_stuck :
    (fuel : ℕ) (fs : List MediaFrame) (r : FrameRing)
    → OneGop r
    → length r.slots ≤ r.capacity_frames
    → All (λ f. is_video_keyframe f ≡ false) fs
    → r.capacity_frames < length r.slots + length fs
    → push_all fuel r fs ≡ none
push_all_stuck fuel [] r g room p over = absurd (omega arith)
push_all_stuck fuel (f ∷ fs) r g room p over =
    let s : FrameRing = append_frame r f in
    let one : OneGop s = append_plain-OneGop r f g p.0 in
    elim (Bool-cases (needs_evict s)) [
      | inl n ↦ push_all-none fuel r f fs (
          evict_if_needed_stuck fuel s one n
            (omega (arith, length-append_frame r f, length-OneGop r g)))
      | inr n ↦ push_all_next fuel r f fs n (
          push_all_stuck fuel fs s one (fits_frames s n) p.1
            (omega (arith, length-append_frame r f, capacity-append_frame r f)))
    ]

-- A key frame that is flagged, alone in a new ring, is the one GOP of that ring.
first_frame-OneGop :
    (frames bytes : ℕ) (k : MediaFrame)
    → k.is_keyframe ≡ true
    → is_video k.codec ≡ true
    → OneGop (append_frame (with_capacity frames bytes) k)
unfolding append_frame is_video_keyframe stored
first_frame-OneGop frames bytes k key video = (
  ground (arith, key, video),
  stored (with_capacity frames bytes) k,
  [],
  refl,
  ground (arith, key, video),
)

first_frame_kept :
    (fuel frames bytes : ℕ) (k : MediaFrame) (fs : List MediaFrame)
    → 1 ≤ frames
    → k.is_keyframe ≡ true
    → is_video k.codec ≡ true
    → push_all (suc fuel) (with_capacity frames bytes) (k ∷ fs)
      ≡ push_all (suc fuel) (append_frame (with_capacity frames bytes) k) fs
unfolding push_all push evict_if_needed append_frame is_video_keyframe
first_frame_kept fuel frames bytes k fs h key video = ground (arith, key, video)

-- A GOP longer than the ring's frame capacity hangs the ring: after a flagged video keyframe, frames
-- that open no GOP (delta frames or audio) reach a push that does not return within any number of
-- rounds of the eviction loop, as soon as there are more frames in all than the capacity.
pub gop_over_capacity_hangs :
    (fuel frames bytes : ℕ) (k : MediaFrame) (fs : List MediaFrame)
    → 1 ≤ frames
    → k.is_keyframe ≡ true
    → is_video k.codec ≡ true
    → All (λ f. is_video_keyframe f ≡ false) fs
    → frames < 1 + length fs
    → push_all fuel (with_capacity frames bytes) (k ∷ fs) ≡ none
gop_over_capacity_hangs zero frames bytes k fs h key video p over =
    unfold push_all push evict_if_needed in refl
gop_over_capacity_hangs (suc fuel) frames bytes k fs h key video p over =
    first_frame_kept fuel frames bytes k fs h key video
    ∙ push_all_stuck (suc fuel) fs (append_frame (with_capacity frames bytes) k)
        (first_frame-OneGop frames bytes k key video)
        (omega (
          arith,
          length-append_frame (with_capacity frames bytes) k,
          capacity-append_frame (with_capacity frames bytes) k,
        ))
        p
        (omega (
          arith,
          length-append_frame (with_capacity frames bytes) k,
          capacity-append_frame (with_capacity frames bytes) k,
        ))
