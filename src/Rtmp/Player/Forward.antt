-- ===== src/Rtmp/Player/Forward.antt =====
-- What the task of src/server/rtmp/mod.rs that forwards frames to an RTMP player sends.
use vcp_media_server.Prelude.{
  ℕ, ◌≡◌, sym, ◌∙◌, String, Bool, true, false, not, ◌&&◌, ◌||◌, List, [], ◌∷◌, ◌++◌, map,
  append-nil, Bool-cases, inl, inr, refl,
}
use vcp_media_server.Media.{MediaFrame}
use vcp_media_server.StreamManager.{StreamManager}
use vcp_media_server.LivePlay.{is_idr_frame}
use vcp_media_server.Rtmp.Session.{frame_to_rtmp_video, frame_to_rtmp_audio}
use vcp_media_server.Rtmp.Player.{
  PlayTask, send_tag, prepend_rtmp_video_config, forward_frames, forward_batch,
}
use vcp_media_server.Rtmp.Player.Steps.{
  tag_of, video_silent, has_video, audible_frame, before_idr, from_idr, for_player, frame_tag,
  sends_one, tags-send_tag, streaming-send_tag, forward_frame-taken, forward_frame-waits,
  forward_frame-heard, forward_frame-skips, after_frame,
}

module _ (sid : ℕ) (m : StreamManager) (id : String) (readings : ℕ → ℕ × ℕ) where
  -- What a run over frames sends.
  abbrev Sent : PlayTask → List MediaFrame → List MediaFrame → Type 0
  Sent task fs chosen =
      map tag_of (forward_frames sid m id readings task fs).sent
      ≡ map tag_of task.sent ++ map (frame_tag sid m id) chosen

  Sent-taken :
      (task : PlayTask) (f : MediaFrame) (fs chosen : List MediaFrame)
      → ((next : PlayTask) → next.video_streaming ≡ true → Sent next fs chosen)
      → has_video f ≡ true
      → (task.video_streaming || is_idr_frame f) ≡ true
      → Sent task (f ∷ fs) (f ∷ chosen)
  unfolding frame_to_rtmp_video
  Sent-taken task f fs chosen later video go =
      let from = record task { video_streaming = true } in
      let payload = frame_to_rtmp_video (prepend_rtmp_video_config m id f) in
      let next = send_tag sid readings from 0x09 payload in
      rw video (
        after_frame sid m id readings task next f fs
          (forward_frame-taken sid m id readings task f video go)
        ∙ sends_one (map tag_of task.sent) (0x09, sid, payload) _
            (tags-send_tag sid readings from 0x09 _ _)
            (later next (streaming-send_tag sid readings from 0x09 _ _)))

  Sent-heard :
      (task : PlayTask) (f : MediaFrame) (fs chosen : List MediaFrame)
      → ((next : PlayTask) → next.video_streaming ≡ task.video_streaming → Sent next fs chosen)
      → has_video f ≡ false
      → audible_frame f ≡ true
      → Sent task (f ∷ fs) (f ∷ chosen)
  unfolding frame_to_rtmp_audio
  Sent-heard task f fs chosen later other heard =
      let next = send_tag sid readings task 0x08 (frame_to_rtmp_audio f) in
      rw other (
        after_frame sid m id readings task next f fs
          (forward_frame-heard sid m id readings task f other heard)
        ∙ sends_one (map tag_of task.sent) (0x08, sid, frame_to_rtmp_audio f) _
            (tags-send_tag sid readings task 0x08 _ _)
            (later next (streaming-send_tag sid readings task 0x08 _ _)))

  streams :
      (task : PlayTask) (fs : List MediaFrame)
      → task.video_streaming ≡ true
      → Sent task fs (for_player true fs)
  unfolding forward_frames
  streams task [] on = sym (append-nil (map tag_of task.sent))
  streams task (f ∷ fs) on = elim (Bool-cases (has_video f)) [
    | inl video ↦
        let go : (task.video_streaming || is_idr_frame f) ≡ true = rw on refl in
        rw video (Sent-taken task f fs (for_player true fs) (λ next e. streams next fs e) video go)
    | inr other ↦ elim (Bool-cases (audible_frame f)) [
      | inl heard ↦
          rw (other, heard)
            (Sent-heard task f fs (for_player true fs) (λ next e. streams next fs (e ∙ on)) other
              heard)
      | inr skipped ↦
          rw (other, skipped)
            (after_frame sid m id readings task task f fs
                (forward_frame-skips sid m id readings task f other skipped)
              ∙ streams task fs on)
    ]
  ]

  waits :
      (task : PlayTask) (fs : List MediaFrame)
      → task.video_streaming ≡ false
      → Sent task fs (for_player false fs)
  unfolding forward_frames before_idr from_idr
  waits task [] off = sym (append-nil (map tag_of task.sent))
  waits task (f ∷ fs) off = elim (Bool-cases (has_video f)) [
    | inl video ↦ elim (Bool-cases (is_idr_frame f)) [
      | inl idr ↦
          let go : (task.video_streaming || is_idr_frame f) ≡ true = rw (off, idr) refl in
          rw (video, idr, video)
            (Sent-taken task f fs (for_player true fs) (λ next e. streams next fs e) video go)
      | inr delta ↦
          let wait : (task.video_streaming || is_idr_frame f) ≡ false = rw (off, delta) refl in
          rw (video, delta, video_silent f.codec video)
            (after_frame sid m id readings task task f fs
                (forward_frame-waits sid m id readings task f video wait)
              ∙ waits task fs off)
    ]
    | inr other ↦ elim (Bool-cases (audible_frame f)) [
      | inl heard ↦
          rw (other, heard)
            (Sent-heard task f fs (for_player false fs) (λ next e. waits next fs (e ∙ off)) other
              heard)
      | inr skipped ↦
          rw (other, skipped)
            (after_frame sid m id readings task task f fs
                (forward_frame-skips sid m id readings task f other skipped)
              ∙ waits task fs off)
    ]
  ]

  by_streaming :
      (task : PlayTask) (fs : List MediaFrame) (b : Bool)
      → task.video_streaming ≡ b
      → Sent task fs (for_player b fs)
  by_streaming task fs true on = streams task fs on
  by_streaming task fs false off = waits task fs off

  -- Of a batch of frames the player gets exactly these, one tag for each, in the batch's order and behind what was sent
  -- before: the video frames and the AAC frames of 8 bytes and more; but before the first IDR frame of the batch only
  -- the latter, if the player does not stream yet or the ring had a gap. A video tag has the parameter sets in front that
  -- the stream has. Every write to the player's socket succeeds.
  pub forward_batch_lem :
      (resync : Bool) (task : PlayTask) (frames : List MediaFrame)
      → map tag_of (forward_batch sid m id readings resync task frames).sent
        ≡ map tag_of task.sent
          ++ map (frame_tag sid m id) (for_player (not resync && task.video_streaming) frames)
  unfolding forward_batch
  forward_batch_lem true task frames = waits (record task { video_streaming = false }) frames refl
  forward_batch_lem false task frames = by_streaming task frames task.video_streaming refl
