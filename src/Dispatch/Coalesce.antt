-- ===== src/Dispatch/Coalesce.antt =====
-- Batches of frames for live players: `coalesce_flv_batch` and the test for an IDR of src/core/dispatch.rs.
use vcp_media_server.Prelude.{
  ℕ, zero, suc, ◌+◌, ◌-◌, Bool, not, ◌&&◌, ◌||◌, Option, none, some, List, [], ◌∷◌, ◌++◌,
  if◌then◌else◌, keep, last?,
}
use vcp_media_server.Media.{MediaFrame}
use vcp_media_server.FrameRing.{is_playable_video}
use vcp_media_server.StreamHub.{StreamHub, get_frame}
use vcp_media_server.H264.AnnexB.{is_keyframe_annex_b}

unfoldable pub is_playable_idr : MediaFrame → Bool
is_playable_idr frame =
    is_playable_video frame && (frame.is_keyframe || is_keyframe_annex_b frame.bytes)

-- The search from `to_seq` down; `n` numbers from `from_seq` on are left.
unfoldable pub idr_search : StreamHub → ℕ → ℕ → Option ℕ
idr_search hub from_seq zero = none
idr_search hub from_seq (suc n) =
    let below = idr_search hub from_seq n in
    elim (get_frame hub (from_seq + n)) [
      | none ↦ below
      | some frame ↦ if is_playable_idr frame then some (from_seq + n) else below
    ]

unfoldable pub last_playable_idr_seq : StreamHub → ℕ → ℕ → Option ℕ
last_playable_idr_seq hub from_seq to_seq = idr_search hub from_seq (to_seq + 1 - from_seq)

-- The frames that the source's loop puts into `out` and into `video_in_batch`.
abbrev pub non_video : List MediaFrame → List MediaFrame
non_video = keep (λ f. not (is_playable_video f))

abbrev pub video_in_batch : List MediaFrame → List MediaFrame
video_in_batch = keep is_playable_video

-- `chosen`, as a list of at most one frame.
unfoldable pub chosen_video : List MediaFrame → List MediaFrame
chosen_video [] = []
chosen_video (v ∷ []) = v ∷ []
chosen_video (v ∷ w ∷ vs) = elim (last? (keep is_playable_idr (v ∷ w ∷ vs))) [
  | none ↦ []
  | some idr ↦ idr ∷ []
]

unfoldable pub coalesce_flv_batch : List MediaFrame → List MediaFrame
coalesce_flv_batch frames = non_video frames ++ chosen_video (video_in_batch frames)
