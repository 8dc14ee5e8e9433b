-- ===== src/Dispatch/Resend.antt =====
-- Two calls of `recv_batch` (src/core/dispatch.rs) for a live player: a collapsed batch, and the catch-up
-- behind its IDR.
use vcp_media_server.Prelude.{
  ℕ, ◌+◌, ◌≤◌, ◌<◌, ◌^◌, ◌≡◌, refl, ap, ◌∙◌, sym, min, Bool, true, false, not, none, some, List, [],
  ◌∷◌, ◌++◌, arith, ltb, ◌==◌, length, keep,
}
use vcp_media_server.Prelude.Words.{saturating_add}
use vcp_media_server.Media.{MediaFrame}
use vcp_media_server.FrameRing.{latest_seq, is_playable_video}
use vcp_media_server.FrameRing.Invariant.{IsValid}
use vcp_media_server.FrameRing.Window.{frames_from_reversed}
use vcp_media_server.StreamHub.{StreamHub, get_frame, hub_latest_seq, hub_frames_from}
use vcp_media_server.Dispatch.Coalesce.{
  is_playable_idr, last_playable_idr_seq, video_in_batch, non_video, chosen_video,
  coalesce_flv_batch,
}
use vcp_media_server.Dispatch.Collapse.{
  keep-append, idrs_of_video, found_frame, last_playable_idr_seq_lem, last_playable_idr_seq_bounds,
  frames_split, last_idr, last_playable_idr_seq_found,
}
use vcp_media_server.Dispatch.Gap.{empty_length}
use vcp_media_server.Dispatch.Reader.{DispatchReader, live_coalesce, begin_video_catchup_after_idr}
use vcp_media_server.Dispatch.Receive.{
  recv_ready, recv_catchup, recv_lagging, recv_range, recv_frames, recv_collapsed, batch_end,
}

length-keep : (p : MediaFrame → Bool) (xs : List MediaFrame) → length (keep p xs) ≤ length xs
length-keep p [] = omega arith
length-keep p (x ∷ xs) = ground (arith, length-keep p xs)

-- The frames that a reader has not read yet.
abbrev pub unread : StreamHub → DispatchReader → List MediaFrame
unread hub r = hub_frames_from hub r.cursor (hub_latest_seq hub)

-- A live player with several video frames to read, and an IDR among them.
pub record Collapses (hub : StreamHub) (r : DispatchReader) (idr_seq : ℕ) : Type 0 where
  pub policy : r.policy ≡ live_coalesce
  pub idle : r.video_catchup_until ≡ none
  pub here : r.cursor ≤ hub_latest_seq hub
  pub several : ltb 1 (length (video_in_batch (unread hub r))) ≡ true
  pub search : last_playable_idr_seq hub r.cursor (hub_latest_seq hub) ≡ some idr_seq

abbrev pub catching_up : StreamHub → DispatchReader → ℕ → DispatchReader
catching_up hub r idr_seq = record r {
  video_catchup_until = some (hub_latest_seq hub);
  cursor = saturating_add idr_seq 1;
}

some_unread :
    (fs : List MediaFrame) → ltb 1 (length (video_in_batch fs)) ≡ true → (length fs == 0) ≡ false
some_unread fs h = ground (arith, length-keep is_playable_video fs)

pub first_call :
    (hub : StreamHub) (r : DispatchReader) (idr_seq : ℕ)
    → Collapses hub r idr_seq
    → ((recv_ready hub r).frames ≡ coalesce_flv_batch (unread hub r))
      × ((recv_ready hub r).reader ≡ catching_up hub r idr_seq)
unfolding recv_ready recv_lagging recv_range recv_frames recv_collapsed batch_end
    begin_video_catchup_after_idr
first_call hub r idr_seq c =
    rw (c.policy, c.idle)
      (ground (arith, c.here, c.several, c.search, some_unread (unread hub r) c.several))

second_call :
    (hub : StreamHub) (r : DispatchReader) (idr_seq : ℕ)
    → r.policy ≡ live_coalesce
    → (recv_ready hub (catching_up hub r idr_seq)).frames ≡ unread hub (catching_up hub r idr_seq)
unfolding recv_ready recv_catchup hub_frames_from
second_call hub r idr_seq p =
    let same : min (hub_latest_seq hub) (hub_latest_seq hub) ≡ hub_latest_seq hub = omega arith in
    rw (p, same)
      (ground (
        arith,
        empty_length (unread hub (catching_up hub r idr_seq)),
        frames_from_reversed hub.ring (saturating_add idr_seq 1) (hub_latest_seq hub),
      ))

chosen_several :
    (vs : List MediaFrame) (idr : MediaFrame)
    → ltb 1 (length vs) ≡ true
    → last_idr vs ≡ some idr
    → chosen_video vs ≡ idr ∷ []
unfolding chosen_video
chosen_several [] idr several last = cc
chosen_several (v ∷ []) idr several last = absurd (ground arith)
chosen_several (v ∷ w ∷ vs) idr several last = ground (arith, last)

-- With several video frames, the batch is its other frames and its last IDR.
coalesce_several :
    (fs : List MediaFrame) (idr : MediaFrame)
    → ltb 1 (length (video_in_batch fs)) ≡ true
    → last_idr fs ≡ some idr
    → coalesce_flv_batch fs ≡ non_video fs ++ (idr ∷ [])
unfolding coalesce_flv_batch
coalesce_several fs idr several last =
    ap (◌++◌ (non_video fs))
      (chosen_several (video_in_batch fs) idr several (rw (idrs_of_video fs) last))

unwrapped :
    (hub : StreamHub) (seq : ℕ)
    → hub.ring.write_seq < 2 ^ 64
    → seq ≤ hub_latest_seq hub
    → saturating_add seq 1 ≡ seq + 1
unfolding hub_latest_seq latest_seq
unwrapped hub seq bound le = omega arith

-- A live player that has several video frames to read, an IDR among them, gets in one call all unread frames
-- that are no video and the last IDR, and in the next call every frame behind that IDR. So the frames
-- behind the IDR that are no video (audio, data) come twice, the first time before the IDR.
pub resends :
    (hub : StreamHub) (r : DispatchReader) (idr_seq : ℕ)
    → IsValid hub.ring
    → hub.ring.write_seq < 2 ^ 64
    → Collapses hub r idr_seq
    → let first = recv_ready hub r in
      let second = recv_ready hub first.reader in
      (second.frames ≡ hub_frames_from hub (idr_seq + 1) (hub_latest_seq hub))
      × (idr : MediaFrame) × (get_frame hub idr_seq ≡ some idr)
      × (is_playable_idr idr ≡ true)
      × (first.frames
          ≡ non_video (hub_frames_from hub r.cursor idr_seq)
            ++ non_video second.frames
            ++ (idr ∷ []))
resends hub r idr_seq v bound c =
    let latest = hub_latest_seq hub in
    let (low, high) = last_playable_idr_seq_bounds hub r.cursor latest idr_seq c.search in
    let (idr, found, playable) = last_playable_idr_seq_found hub r.cursor latest idr_seq c.search in
    let last : last_idr (unread hub r) ≡ some idr =
      sym (last_playable_idr_seq_lem hub v r.cursor latest)
      ∙ ap (found_frame hub) c.search
      ∙ found in
    let parts : non_video (unread hub r)
        ≡ non_video (hub_frames_from hub r.cursor idr_seq)
          ++ non_video (hub_frames_from hub (idr_seq + 1) latest) =
      ap non_video
        (frames_split hub v r.cursor idr_seq (idr_seq + 1) latest refl (omega arith) high)
      ∙ keep-append (λ f. not (is_playable_video f)) (hub_frames_from hub r.cursor idr_seq)
          (hub_frames_from hub (idr_seq + 1) latest) in
    let (frames, reader) = first_call hub r idr_seq c in
    let second : (recv_ready hub (recv_ready hub r).reader).frames
        ≡ hub_frames_from hub (idr_seq + 1) latest =
      rw reader (second_call hub r idr_seq c.policy)
      ∙ ap (λ k. hub_frames_from hub k latest) (unwrapped hub idr_seq bound high) in
    (
      second,
      idr,
      found,
      playable,
      frames
          ∙ coalesce_several (unread hub r) idr c.several last
          ∙ ap (λ fs. fs ++ (idr ∷ []))
              (parts
                ∙ ap (λ fs. non_video (hub_frames_from hub r.cursor idr_seq) ++ non_video fs)
                    (sym second)),
    )
