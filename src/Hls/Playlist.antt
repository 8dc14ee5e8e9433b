-- ===== src/Hls/Playlist.antt =====
-- `M3u8Generator` of src/server/hls/m3u8.rs: the sliding window of the playlist. Durations and times are
-- floating point and clock values of the source; the window only carries them, so they are parameters.
use vcp_media_server.Prelude.{
  ℕ, ◌+◌, ◌^◌, ◌≤◌, ◌<◌, ◌≡◌, ◌⊎◌, refl, max, Bool, true, false, List, [], ◌∷◌, ◌++◌, arith, ltb,
  if◌then◌else◌, length, length-append, le_or_lt, lt→ltb, inl, inr,
}
use vcp_media_server.Prelude.Words.{add64}

module _ (Duration Time : Type 0) where
  -- The file name of a segment is that of its sequence number.
  pub record Segment : Type 0 where
    pub sequence : ℕ
    pub duration : Duration
    pub program_date_time : Time
    pub discontinuity : Bool

  pub record M3u8Generator : Type 0 where
    pub target_duration : Duration
    pub max_segments : ℕ
    pub media_sequence : ℕ
    pub segments : List Segment
    pub next_sequence : ℕ
    pub discontinuity_sequence : ℕ
    pub ended : Bool

  unfoldable pub new_generator : Duration → ℕ → M3u8Generator
  new_generator target_duration max_segments = record {
    target_duration = target_duration;
    max_segments = max max_segments 1;
    media_sequence = 0;
    segments = [];
    next_sequence = 0;
    discontinuity_sequence = 0;
    ended = false;
  }

  -- The loop that pops the front, over the segments from the front on.
  unfoldable pub pop_loop : M3u8Generator → List Segment → M3u8Generator
  pop_loop g [] = record g { segments = [] }
  pop_loop g (removed ∷ rest) =
      let popped =
        pop_loop
          (record g {
            media_sequence = add64 g.media_sequence 1;
            discontinuity_sequence =
                if removed.discontinuity
                then add64 g.discontinuity_sequence 1
                else g.discontinuity_sequence;
          })
          rest in
      if ltb g.max_segments (length (removed ∷ rest))
      then popped
      else record g { segments = removed ∷ rest }

  unfoldable pub add_segment : M3u8Generator → Duration → ℕ → Time → Bool → M3u8Generator
  add_segment g duration sequence program_date_time discontinuity =
      let segment : Segment = record {
        sequence = sequence;
        duration = duration;
        program_date_time = program_date_time;
        discontinuity = discontinuity;
      } in
      pop_loop (record g { next_sequence = add64 sequence 1 }) (g.segments ++ (segment ∷ []))

  unfoldable pub set_ended : M3u8Generator → M3u8Generator
  set_ended g = record g { ended = true }

  unfoldable pub segment_count : M3u8Generator → ℕ
  segment_count g = length g.segments

  -- How many of the segments begin after a discontinuity.
  unfoldable pub discontinuities : List Segment → ℕ
  discontinuities [] = 0
  discontinuities (s ∷ ss) = (if s.discontinuity then 1 else 0) + discontinuities ss

  discontinuities-append :
      (xs ys : List Segment) → discontinuities (xs ++ ys) ≡ discontinuities xs + discontinuities ys
  unfolding discontinuities
  discontinuities-append [] ys = omega arith
  discontinuities-append (x ∷ xs) ys = omega (arith, discontinuities-append xs ys)

  breaks_after :
      (d : Bool) (before rest breaks : ℕ)
      → breaks < 2 ^ 64
      → before + ((if d then 1 else 0) + rest) ≡ breaks
      → (if d then add64 before 1 else before) + rest ≡ breaks
  breaks_after true before rest breaks few e = omega arith
  breaks_after false before rest breaks few e = omega (arith, e)

  -- The window's numbers: `added` segments and `breaks` discontinuities so far, in the window or before it.
  -- A segment has left the window only when this is full.
  pub record IsWindow (added breaks : ℕ) (g : M3u8Generator) : Type 0 where
    pub short : length g.segments ≤ g.max_segments
    pub counted : g.media_sequence + length g.segments ≡ added
    pub broken : g.discontinuity_sequence + discontinuities g.segments ≡ breaks
    pub full : (g.media_sequence ≡ 0) ⊎ (length g.segments ≡ g.max_segments)

  pop_loop-IsWindow :
      (added breaks : ℕ) (g : M3u8Generator) (left : List Segment)
      → 0 < g.max_segments
      → added < 2 ^ 64
      → breaks < 2 ^ 64
      → g.media_sequence + length left ≡ added
      → g.discontinuity_sequence + discontinuities left ≡ breaks
      → (g.media_sequence ≡ 0) ⊎ (g.max_segments ≤ length left)
      → IsWindow added breaks (pop_loop g left)
  unfolding pop_loop discontinuities
  pop_loop-IsWindow added breaks g [] pos small few counted broken full = record {
    short = omega arith;
    counted = omega arith;
    broken = omega arith;
    full = ground arith;
  }
  pop_loop-IsWindow added breaks g (removed ∷ rest) pos small few counted broken full =
      elim (le_or_lt (length (removed ∷ rest)) g.max_segments) [
        | inl fits ↦
            let stays : ltb g.max_segments (length (removed ∷ rest)) ≡ false = ground arith in
            rw stays
              (record { short = fits; counted = counted; broken = broken; full = ground arith })
        | inr over ↦ rw (lt→ltb g.max_segments (length (removed ∷ rest)) over) (
            pop_loop-IsWindow added breaks
              (record g {
                media_sequence = add64 g.media_sequence 1;
                discontinuity_sequence =
                    if removed.discontinuity
                    then add64 g.discontinuity_sequence 1
                    else g.discontinuity_sequence;
              })
              rest pos small few (omega arith)
              (breaks_after removed.discontinuity g.discontinuity_sequence (discontinuities rest)
                breaks few broken)
              (inr (omega arith)))
      ]

  pub new_generator-IsWindow :
      (target_duration : Duration) (max_segments : ℕ)
      → IsWindow 0 0 (new_generator target_duration max_segments)
  unfolding new_generator discontinuities
  new_generator-IsWindow target_duration max_segments = record {
    short = omega arith;
    counted = refl;
    broken = refl;
    full = inl refl;
  }

  -- One segment more: the window stays within its bound and segments leave it only when it is full, and the
  -- counts of the segments and of the discontinuities that left it stay exact. The counters
  -- must not wrap in `u64`.
  pub add_segment-IsWindow :
      (added breaks : ℕ) (g : M3u8Generator) (duration : Duration) (sequence : ℕ) (time : Time)
      (discontinuity : Bool)
      → 0 < g.max_segments
      → added + 1 < 2 ^ 64
      → breaks + 1 < 2 ^ 64
      → IsWindow added breaks g
      → IsWindow
          (added + 1)
          (breaks + (if discontinuity then 1 else 0))
          (add_segment g duration sequence time discontinuity)
  unfolding add_segment discontinuities
  add_segment-IsWindow added breaks g duration sequence time discontinuity pos small few w =
      let segment : Segment = record {
        sequence = sequence;
        duration = duration;
        program_date_time = time;
        discontinuity = discontinuity;
      } in
      let grows : (g.media_sequence ≡ 0) ⊎ (length g.segments ≡ g.max_segments)
          → (g.media_sequence ≡ 0) ⊎ (g.max_segments ≤ length (g.segments ++ (segment ∷ []))) =
        λ c. elim c [
          | inl start ↦ inl start
          | inr whole ↦ inr (omega (arith, whole, length-append g.segments (segment ∷ [])))
        ] in
      pop_loop-IsWindow (added + 1) (breaks + (if discontinuity then 1 else 0))
        (record g { next_sequence = add64 sequence 1 }) (g.segments ++ (segment ∷ [])) pos small
        (ground arith) (omega (arith, length-append g.segments (segment ∷ []), w.counted))
        (omega (arith, discontinuities-append g.segments (segment ∷ []), w.broken)) (grows w.full)
