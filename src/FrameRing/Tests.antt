-- ===== src/FrameRing/Tests.antt =====
-- The ring of src/core/frame_ring.rs at concrete inputs: the tests of that file, and the theorems.
use vcp_media_server.Prelude.{
  ◌||◌, ℕ, ◌≡◌, refl, Bool, true, false, Option, none, some, List, [], ◌∷◌, arith, if◌then◌else◌,
}
use vcp_media_server.Media.{CodecType, MediaFrame, new_frame}
use vcp_media_server.FrameRing.{
  FrameRing, SnapMode, with_capacity, push, append_frame, stored, evict_if_needed, evict_oldest_gop,
  evict_front_until_keyframe_or_empty, is_video_keyframe, annex_b_contains_idr, snap,
  to_media_frame, latest_idr_frame,
}
use vcp_media_server.FrameRing.Rising.{seqs}
use vcp_media_server.FrameRing.Invariant.{with_capacity-IsValid}
use vcp_media_server.FrameRing.Livelock.{push_all, gop_over_capacity_hangs}
use vcp_media_server.FrameRing.Returns.{push-returns}
use vcp_media_server.FrameRing.Latest.{push-latest_idr}
use vcp_media_server.FrameRing.IdrScan.{
  idr_anywhere, ends_with_idr, but_last, annex_b_contains_idr-eq-idr_anywhere,
}

abbrev video_frame : ℕ → Bool → MediaFrame
unfolding new_frame
video_frame ts key =
    new_frame "s1" 0 ts (0 ∷ 0 ∷ 0 ∷ 1 ∷ (if key then 0x65 else 0x41) ∷ []) key CodecType.h264

abbrev kept_seqs : Option FrameRing → Option (List ℕ)
kept_seqs none = none
kept_seqs (some r) = some (seqs r.slots)

-- Five frames of two GOPs in a ring of four: the first GOP goes as a whole.
evict_whole_gop :
    kept_seqs (
      push_all 5 (with_capacity 4 1024) (
        video_frame 1 true
        ∷ video_frame 2 false
        ∷ video_frame 3 false
        ∷ video_frame 4 true
        ∷ video_frame 5 false
        ∷ []))
    ≡ some (3 ∷ 4 ∷ [])
unfolding push_all push evict_if_needed append_frame new_frame is_video_keyframe
    annex_b_contains_idr evict_oldest_gop evict_front_until_keyframe_or_empty
evict_whole_gop = refl

abbrev empty_ring : FrameRing
empty_ring = with_capacity 4 1024

abbrev key_frame : MediaFrame
unfolding new_frame
key_frame = video_frame 1 true

abbrev delta_frame : MediaFrame
unfolding new_frame
delta_frame = video_frame 2 false

push_key : push 3 empty_ring key_frame ≡ some (0, append_frame empty_ring key_frame)
unfolding push append_frame evict_if_needed new_frame is_video_keyframe
push_key = refl

-- A ring of four hangs on the fifth frame of a GOP.
gop_over_capacity_hangs_example :
    push_all 100 empty_ring (key_frame ∷ delta_frame ∷ delta_frame ∷ delta_frame ∷ delta_frame ∷ [])
    ≡ none
unfolding new_frame is_video_keyframe annex_b_contains_idr
gop_over_capacity_hangs_example =
    gop_over_capacity_hangs 100 4 1024 key_frame
      (delta_frame ∷ delta_frame ∷ delta_frame ∷ delta_frame ∷ []) (omega arith) refl refl
      (refl, (refl, (refl, (refl, tt)))) (omega arith)

push-returns_example : (s : FrameRing) × (push 3 empty_ring key_frame ≡ some (0, s))
unfolding new_frame append_frame is_video_keyframe
push-returns_example =
    push-returns 3 empty_ring key_frame (with_capacity-IsValid 4 1024) (omega arith) (omega arith)
      (record { frames = omega arith; bytes = omega arith }) (omega arith)

push-latest_idr_example :
    (snap (append_frame empty_ring key_frame) SnapMode.latest_idr ≡ 0)
    × (latest_idr_frame (append_frame empty_ring key_frame)
        ≡ some (to_media_frame (stored empty_ring key_frame)))
unfolding new_frame
push-latest_idr_example =
    push-latest_idr 3 empty_ring key_frame 0 (append_frame empty_ring key_frame)
      (with_capacity-IsValid 4 1024) (omega arith) (omega arith) refl refl push_key

annex_b_contains_idr-eq-idr_anywhere_example :
    annex_b_contains_idr (0 ∷ 0 ∷ 1 ∷ 0x41 ∷ 0 ∷ 0 ∷ 0 ∷ 1 ∷ 0x65 ∷ [])
    ≡ idr_anywhere (0 ∷ 0 ∷ 1 ∷ 0x41 ∷ 0 ∷ 0 ∷ 0 ∷ 1 ∷ [])
      || ends_with_idr (0 ∷ 0 ∷ 1 ∷ 0x41 ∷ 0 ∷ 0 ∷ 0 ∷ 1 ∷ 0x65 ∷ [])
unfolding but_last
annex_b_contains_idr-eq-idr_anywhere_example =
    annex_b_contains_idr-eq-idr_anywhere (0 ∷ 0 ∷ 1 ∷ 0x41 ∷ 0 ∷ 0 ∷ 0 ∷ 1 ∷ 0x65 ∷ [])

finds_idr : annex_b_contains_idr (0 ∷ 0 ∷ 1 ∷ 0x41 ∷ 0 ∷ 0 ∷ 0 ∷ 1 ∷ 0x65 ∷ []) ≡ true
unfolding annex_b_contains_idr
finds_idr = refl

-- The IDR unit has one byte only, behind a start code of three.
misses_last : annex_b_contains_idr (0 ∷ 0 ∷ 1 ∷ 0x65 ∷ []) ≡ false
unfolding annex_b_contains_idr
misses_last = refl

idr_in_last_byte : idr_anywhere (0 ∷ 0 ∷ 1 ∷ 0x65 ∷ []) ≡ true
unfolding idr_anywhere
idr_in_last_byte = refl
