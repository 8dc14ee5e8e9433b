-- ===== src/Rtmp/Player/Steps.antt =====
-- What one frame makes the task of src/server/rtmp/mod.rs send that forwards frames to an RTMP player.
use vcp_media_server.Prelude.{
  ℕ, ◌≡◌, refl, ap, sym, ◌∙◌, String, Bool, map, keep, true, false, not, ◌&&◌, ◌||◌, List, [], ◌∷◌,
  ◌++◌, append_assoc, length, ltb, ◌==◌, if◌then◌else◌, Bool-cases, inl, inr, arith,
}
use vcp_media_server.Media.{CodecType, MediaFrame, is_video}
use vcp_media_server.StreamManager.{StreamManager}
use vcp_media_server.LivePlay.{is_idr_frame}
use vcp_media_server.Rtmp.Chunk.{RtmpMessage}
use vcp_media_server.Rtmp.Connection.Commands.{is_aac}
use vcp_media_server.Rtmp.Session.{frame_to_rtmp_video, frame_to_rtmp_audio}
use vcp_media_server.Rtmp.Player.{
  PlayTask, prepend_rtmp_video_config, send_tag, forward_video, forward_frame, forward_frames,
}

-- A message without its time: its type, its stream and its payload.
abbrev pub tag_of : RtmpMessage → ℕ × ℕ × List ℕ
tag_of msg = (msg.msg_type, msg.msg_stream_id, msg.payload)

abbrev pub has_video : MediaFrame → Bool
has_video frame = is_video frame.codec

-- AAC frames of 8 bytes and more.
abbrev pub audible_frame : MediaFrame → Bool
audible_frame frame = is_aac frame.codec && not (ltb (length frame.bytes) 8)

pub video_silent : (c : CodecType) → is_video c ≡ true → is_aac c ≡ false
video_silent CodecType.h264 v = refl
video_silent CodecType.h265 v = refl
video_silent CodecType.aac v = sym v
video_silent CodecType.opus v = refl
video_silent CodecType.g711 v = refl
video_silent CodecType.unknown v = refl

abbrev pub playable_frame : MediaFrame → Bool
playable_frame frame = has_video frame || audible_frame frame

abbrev pub opens_video : MediaFrame → Bool
opens_video frame = has_video frame && is_idr_frame frame

-- The frames in front of the first IDR frame, and those from it on.
unfoldable pub before_idr : List MediaFrame → List MediaFrame
before_idr [] = []
before_idr (f ∷ fs) = let rest = before_idr fs in if opens_video f then [] else f ∷ rest

unfoldable pub from_idr : List MediaFrame → List MediaFrame
from_idr [] = []
from_idr (f ∷ fs) = let rest = from_idr fs in if opens_video f then f ∷ fs else rest

-- The frames for a player: all that it can play, but before the first IDR frame no video, if it does not stream.
abbrev pub for_player : Bool → List MediaFrame → List MediaFrame
for_player true fs = keep playable_frame fs
for_player false fs = keep audible_frame (before_idr fs) ++ keep playable_frame (from_idr fs)

-- The tag of a frame in a message of the player's stream.
abbrev pub frame_tag : ℕ → StreamManager → String → MediaFrame → ℕ × ℕ × List ℕ
frame_tag sid m id frame =
    if has_video frame
    then (0x09, sid, frame_to_rtmp_video (prepend_rtmp_video_config m id frame))
    else (0x08, sid, frame_to_rtmp_audio frame)

map_tag-append : (xs ys : List RtmpMessage) → map tag_of (xs ++ ys) ≡ map tag_of xs ++ map tag_of ys
map_tag-append [] ys = refl
map_tag-append (x ∷ xs) ys = ap (◌∷◌ (tag_of x)) (map_tag-append xs ys)

abbrev Tags : Type 0
Tags = List (ℕ × ℕ × List ℕ)

pub sends_one :
    (before : Tags) {after end : Tags} (x : ℕ × ℕ × List ℕ) (xs : Tags)
    → after ≡ before ++ (x ∷ [])
    → end ≡ after ++ xs
    → end ≡ before ++ (x ∷ xs)
sends_one before x xs e h = h ∙ ap (λ ys. ys ++ xs) e ∙ append_assoc before (x ∷ []) xs

module _ (sid : ℕ) (readings : ℕ → ℕ × ℕ) where
  pub tags-send_tag :
      (task : PlayTask) (t b : ℕ) (bs : List ℕ)
      → map tag_of (send_tag sid readings task t (b ∷ bs)).sent
        ≡ map tag_of task.sent ++ ((t, sid, b ∷ bs) ∷ [])
  unfolding send_tag
  tags-send_tag task t b bs =
      let full : (length (b ∷ bs) == 0) ≡ false = ground arith in
      rw full (map_tag-append task.sent _)

  pub streaming-send_tag :
      (task : PlayTask) (t b : ℕ) (bs : List ℕ)
      → (send_tag sid readings task t (b ∷ bs)).video_streaming ≡ task.video_streaming
  unfolding send_tag
  streaming-send_tag task t b bs =
      let full : (length (b ∷ bs) == 0) ≡ false = ground arith in rw full refl

module _ (sid : ℕ) (m : StreamManager) (id : String) (readings : ℕ → ℕ × ℕ) where
  forward_frame-video :
      (task : PlayTask) (f : MediaFrame) (c : CodecType)
      → f.codec ≡ c
      → is_video c ≡ true
      → forward_frame sid m id readings task f ≡ forward_video sid m id readings task f
  unfolding forward_frame
  forward_frame-video task f CodecType.h264 e v = rw e refl
  forward_frame-video task f CodecType.h265 e v = rw e refl
  forward_frame-video task f CodecType.aac e v = cc
  forward_frame-video task f CodecType.opus e v = cc
  forward_frame-video task f CodecType.g711 e v = cc
  forward_frame-video task f CodecType.unknown e v = cc

  forward_frame-other :
      (task : PlayTask) (f : MediaFrame) (c : CodecType)
      → f.codec ≡ c
      → is_video c ≡ false
      → forward_frame sid m id readings task f ≡ (
          if audible_frame f then send_tag sid readings task 0x08 (frame_to_rtmp_audio f) else task)
  unfolding forward_frame
  forward_frame-other task f CodecType.h264 e v = cc
  forward_frame-other task f CodecType.h265 e v = cc
  forward_frame-other task f CodecType.aac e v = elim (Bool-cases (ltb (length f.bytes) 8)) [
    | inl short ↦ rw (e, short) refl
    | inr long ↦ rw (e, long) refl
  ]
  forward_frame-other task f CodecType.opus e v = rw e refl
  forward_frame-other task f CodecType.g711 e v = rw e refl
  forward_frame-other task f CodecType.unknown e v = rw e refl

  -- The four ways of a frame through the loop.
  pub forward_frame-taken :
      (task : PlayTask) (f : MediaFrame)
      → is_video f.codec ≡ true
      → (task.video_streaming || is_idr_frame f) ≡ true
      → forward_frame sid m id readings task f
        ≡ send_tag sid readings
            (record task { video_streaming = true })
            0x09
            (frame_to_rtmp_video (prepend_rtmp_video_config m id f))
  unfolding forward_video
  forward_frame-taken task f video go = forward_frame-video task f f.codec refl video ∙ rw go refl

  pub forward_frame-waits :
      (task : PlayTask) (f : MediaFrame)
      → is_video f.codec ≡ true
      → (task.video_streaming || is_idr_frame f) ≡ false
      → forward_frame sid m id readings task f ≡ task
  unfolding forward_video
  forward_frame-waits task f video wait =
      forward_frame-video task f f.codec refl video ∙ rw wait refl

  pub forward_frame-heard :
      (task : PlayTask) (f : MediaFrame)
      → is_video f.codec ≡ false
      → audible_frame f ≡ true
      → forward_frame sid m id readings task f
        ≡ send_tag sid readings task 0x08 (frame_to_rtmp_audio f)
  forward_frame-heard task f other heard =
      forward_frame-other task f f.codec refl other ∙ rw heard refl

  pub forward_frame-skips :
      (task : PlayTask) (f : MediaFrame)
      → is_video f.codec ≡ false
      → audible_frame f ≡ false
      → forward_frame sid m id readings task f ≡ task
  forward_frame-skips task f other skipped =
      forward_frame-other task f f.codec refl other ∙ rw skipped refl

  -- What is left to send behind a frame, in terms of the task after it.
  pub after_frame :
      (task next : PlayTask) (f : MediaFrame) (fs : List MediaFrame)
      → forward_frame sid m id readings task f ≡ next
      → map tag_of (forward_frames sid m id readings task (f ∷ fs)).sent
        ≡ map tag_of (forward_frames sid m id readings next fs).sent
  unfolding forward_frames
  after_frame task next f fs e = ap (λ x. map tag_of (forward_frames sid m id readings x fs).sent) e
