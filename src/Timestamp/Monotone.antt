-- ===== src/Timestamp/Monotone.antt =====
-- The tag timelines of src/core/timestamp.rs never run backward.
use vcp_media_server.Prelude.{
  ℕ, ◌-◌, ◌*◌, ◌/◌, ◌%◌, ◌^◌, ◌≤◌, ◌<◌, ◌≡◌, Option, none, some, List, [], ◌∷◌, arith, ◌⊎◌, inl,
  inr, or_else, Option-cases,
}
use vcp_media_server.Media.{CodecType, MediaFrame}
use vcp_media_server.Timestamp.{
  FlvPlayTimeline, WallclockMsTimeline, map_ms, ideal_ms, map_frame, map_all, emit_ms,
  next_video_ms, next_audio_ms, video_step, audio_step,
}

-- The clocks are `u64` values.
pub record InRange (tl : FlvPlayTimeline) : Type 0 where
  pub emit : tl.last_emit_ms < 2 ^ 64
  pub video : tl.video_ms < 2 ^ 64
  pub audio : tl.audio_ms < 2 ^ 64

-- One step of the emitted clock: it never falls, and it stands still only at 0 or at the top of `u64`.
abbrev pub Advances : ℕ → ℕ → Type 0
Advances last next = (last ≤ next) × ((last < next) ⊎ ((next ≡ 0) ⊎ (next ≡ 2 ^ 64 - 1)))

emit_ms-Advances : (last ideal : ℕ) → last < 2 ^ 64 → Advances last (emit_ms last ideal)
emit_ms-Advances last ideal h = ground arith

next_video_ms-lt :
    (tl : FlvPlayTimeline) (f : MediaFrame) (o : Option ℕ)
    → InRange tl
    → next_video_ms tl f o < 2 ^ 64
unfolding video_step
next_video_ms-lt tl f none v = v.video
next_video_ms-lt tl f (some last) v = ground (arith, v.video)

next_audio_ms-lt :
    (tl : FlvPlayTimeline) (f : MediaFrame) (step : ℕ) (o : Option ℕ)
    → InRange tl
    → next_audio_ms tl f step o < 2 ^ 64
unfolding audio_step
next_audio_ms-lt tl f step none v = omega arith
next_audio_ms-lt tl f step (some last) v = ground (arith, v.audio)

-- The codec's clock is in range, and the emitted clock is not touched yet.
ideal_ms-InRange :
    (tl moved : FlvPlayTimeline) (f : MediaFrame) (c : CodecType) (ideal : ℕ)
    → InRange tl
    → ideal_ms tl f c ≡ some (moved, ideal)
    → InRange moved × (ideal < 2 ^ 64) × (moved.last_emit_ms ≡ tl.last_emit_ms)
unfolding ideal_ms
ideal_ms-InRange tl moved f CodecType.h264 ideal v e =
    ground (arith, v, next_video_ms-lt tl f tl.last_raw_video_ts v)
ideal_ms-InRange tl moved f CodecType.h265 ideal v e =
    ground (arith, v, next_video_ms-lt tl f tl.last_raw_video_ts v)
ideal_ms-InRange tl moved f CodecType.aac ideal v e = ground (
  arith,
  v,
  next_audio_ms-lt tl f (1024 * 1000 / or_else f.clock_rate 44_100) tl.last_raw_audio_ts v,
)
ideal_ms-InRange tl moved f _ ideal v e = ground (arith, v)

map_frame_cases :
    (tl next : FlvPlayTimeline) (f : MediaFrame) (ts : ℕ)
    → map_frame tl f ≡ some (next, ts)
    → (moved : FlvPlayTimeline) × (ideal : ℕ) × (ideal_ms tl f f.codec ≡ some (moved, ideal))
      × (next ≡ record moved { last_emit_ms = emit_ms moved.last_emit_ms ideal })
      × (ts ≡ emit_ms moved.last_emit_ms ideal % 2 ^ 32)
unfolding map_frame
map_frame_cases tl next f ts e = elim (Option-cases (ideal_ms tl f f.codec)) [
  | inl n ↦ absurd (ground (arith, n))
  | inr ((moved, ideal), n) ↦ (moved, ideal, n, ground (arith, n), ground (arith, n))
]

-- Mapping a frame keeps the clocks in range; the emitted clock never falls and stands still only at
-- 0 or at the top of `u64`; and the tag carries the clock's low 32 bits.
map_frame-Advances :
    (tl next : FlvPlayTimeline) (f : MediaFrame) (ts : ℕ)
    → InRange tl
    → map_frame tl f ≡ some (next, ts)
    → InRange next × Advances tl.last_emit_ms next.last_emit_ms × (ts ≡ next.last_emit_ms % 2 ^ 32)
map_frame-Advances tl next f ts v e =
    let (moved, ideal, n, same, tag) = map_frame_cases tl next f ts e in
    let (range, small, kept) = ideal_ms-InRange tl moved f f.codec ideal v n in
    rw same (
      ground (arith, range, small),
      ground (arith, kept, emit_ms-Advances moved.last_emit_ms ideal range.emit),
      tag,
    )

-- Each number is at least the one before it.
abbrev pub Climbs : ℕ → List ℕ → Type 0
Climbs lo [] = Unit {0}
Climbs lo (x ∷ xs) = (lo ≤ x) × Climbs x xs

map_all_cases :
    (tl last : FlvPlayTimeline) (f : MediaFrame) (fs : List MediaFrame) (tags : List ℕ)
    → map_all tl (f ∷ fs) ≡ some (last, tags)
    → (next : FlvPlayTimeline) × (ts : ℕ) × (rest : List ℕ) × (map_frame tl f ≡ some (next, ts))
      × (map_all next fs ≡ some (last, rest))
      × (tags ≡ ts ∷ rest)
unfolding map_all
map_all_cases tl last f fs tags e = elim (Option-cases (map_frame tl f)) [
  | inl n ↦ absurd (ground (arith, n))
  | inr ((next, ts), n) ↦ elim (Option-cases (map_all next fs)) [
    | inl m ↦ absurd (ground (arith, n, m))
    | inr ((end, rest), m) ↦ (next, ts, rest, n, rw m (ground (arith, n, m)), ground (arith, n, m))
  ]
]

map_all-last :
    (tl last : FlvPlayTimeline) (fs : List MediaFrame) (tags : List ℕ)
    → InRange tl
    → map_all tl fs ≡ some (last, tags)
    → tl.last_emit_ms ≤ last.last_emit_ms
map_all-last tl last [] tags v e = unfold map_all in ground arith
map_all-last tl last (f ∷ fs) tags v e =
    let (next, ts, rest, n, m, _) = map_all_cases tl last f fs tags e in
    let (v', up, _) = map_frame-Advances tl next f ts v n in
    omega (arith, up.0, map_all-last next last fs rest v' m)

-- The tags of a session, audio and video interleaved as they come, never decrease, so long as the
-- session's clock stays below 2 ^ 32 ms (some 49 days, where the tag wraps round).
pub map_all-Climbs :
    (tl last : FlvPlayTimeline) (fs : List MediaFrame) (tags : List ℕ)
    → InRange tl
    → map_all tl fs ≡ some (last, tags)
    → last.last_emit_ms < 2 ^ 32
    → Climbs tl.last_emit_ms tags
map_all-Climbs tl last [] [] v e h = tt
map_all-Climbs tl last [] (x ∷ xs) v e h = unfold map_all in cc
map_all-Climbs tl last (f ∷ fs) tags v e h =
    let (next, ts, rest, n, m, same) = map_all_cases tl last f fs tags e in
    let (v', up, tag) = map_frame-Advances tl next f ts v n in
    let below : next.last_emit_ms ≤ last.last_emit_ms = map_all-last next last fs rest v' m in
    let exact : ts ≡ next.last_emit_ms = omega (arith, tag, below) in
    rw (same, exact) (up.0, map_all-Climbs next last fs rest v' m h)

-- The wall-clock timeline: the emitted clock never falls and stands still only at the top of `u64`.
map_ms-climbs :
    (tl : WallclockMsTimeline) (first now : ℕ)
    → tl.last_emit_ms < 2 ^ 64
    → let (next, ts) = map_ms tl first now in
      (tl.last_emit_ms ≤ next.last_emit_ms)
      × ((tl.last_emit_ms < next.last_emit_ms) ⊎ (next.last_emit_ms ≡ 2 ^ 64 - 1))
      × (ts ≡ next.last_emit_ms % 2 ^ 32)
unfolding map_ms
map_ms-climbs tl first now h = ground arith
