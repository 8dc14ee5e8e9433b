-- ===== src/FrameRing.antt =====
-- src/core/frame_ring.rs: the bounded per-stream ring of media frames, with its index of GOP starts.
-- `&mut self` is a ring that is passed in and returned. `evict_if_needed` is a loop on fuel: `none`
-- says that it has not stopped within that many rounds.
pub mod Rising
pub mod Livelock
mod Tests
pub mod IdrScan
pub mod Latest
pub mod Returns
pub mod Invariant
pub mod Window
use vcp_media_server.Prelude.{
  ℕ, zero, suc, ◌+◌, ◌-◌, ◌*◌, ◌%◌, ◌^◌, String, Bool, true, false, not, ◌&&◌, ◌||◌, Option, none,
  some, List, [], ◌∷◌, ◌++◌, map, ltb, leb, ◌==◌, if◌then◌else◌, length, keep, last?, or_else,
}
use vcp_media_server.Prelude.Words.{add64}
use vcp_media_server.Media.{CodecType, MediaFrame, is_video, new_frame, with_optional_clock_rate}

pub data SnapMode : Type 0 where
  live_edge latest_idr : SnapMode

pub record StoredFrame : Type 0 where
  pub seq : ℕ
  pub stream_id : String
  pub track_id : ℕ
  pub timestamp : ℕ
  pub clock_rate : Option ℕ
  pub codec : CodecType
  pub is_keyframe : Bool
  pub bytes : List ℕ

unfoldable pub to_media_frame : StoredFrame → MediaFrame
unfolding new_frame with_optional_clock_rate
to_media_frame f =
    with_optional_clock_rate
      (new_frame f.stream_id f.track_id f.timestamp f.bytes f.is_keyframe f.codec) f.clock_rate

pub record FrameRing : Type 0 where
  pub capacity_frames : ℕ
  pub capacity_bytes : ℕ
  pub slots : List StoredFrame
  pub idr_seqs : List ℕ
  pub gop_starts : List ℕ
  pub write_seq : ℕ
  pub bytes_used : ℕ

abbrev pub default_capacity_frames : ℕ
default_capacity_frames = 512

abbrev pub default_capacity_bytes : ℕ
default_capacity_bytes = 32 * 1024 * 1024

abbrev pub min_gops_retained : ℕ
min_gops_retained = 1

abbrev pub with_capacity : ℕ → ℕ → FrameRing
with_capacity capacity_frames capacity_bytes = record {
  capacity_frames = capacity_frames;
  capacity_bytes = capacity_bytes;
  slots = [];
  idr_seqs = [];
  gop_starts = [];
  write_seq = 0;
  bytes_used = 0;
}

abbrev pub new_ring : FrameRing
new_ring = with_capacity default_capacity_frames default_capacity_bytes

-- The index loop over `data[i..]` is a recursion on what is left from `i`; `& 0x1F` is `% 2 ^ 5`.
unfoldable pub annex_b_contains_idr : List ℕ → Bool
annex_b_contains_idr (a ∷ b ∷ c ∷ d ∷ e ∷ rest) =
    let by_one = annex_b_contains_idr (b ∷ c ∷ d ∷ e ∷ rest) in
    let by_three = annex_b_contains_idr (d ∷ e ∷ rest) in
    let by_four = annex_b_contains_idr (e ∷ rest) in
    if a == 0 && b == 0 && c == 0 && d == 1
    then (if e % 2 ^ 5 == 5 then true else by_four)
    else if a == 0 && b == 0 && c == 1
    then (if d % 2 ^ 5 == 5 then true else by_three)
    else by_one
annex_b_contains_idr _ = false

unfoldable pub is_video_keyframe : MediaFrame → Bool
is_video_keyframe f =
    if not (is_video f.codec)
    then false
    else if f.is_keyframe
    then true
    else annex_b_contains_idr f.bytes

unfoldable pub is_playable_video : MediaFrame → Bool
is_playable_video f = is_video f.codec && not (length f.bytes == 0)

abbrev pub needs_evict : FrameRing → Bool
needs_evict r = ltb r.capacity_frames (length r.slots) || ltb r.capacity_bytes r.bytes_used

abbrev pub in_seq_range : ℕ → ℕ → StoredFrame → Bool
in_seq_range start stop f = leb start f.seq && ltb f.seq stop

-- The closure of `retain` lowers `bytes_used` for each frame that it drops.
unfoldable pub drop_bytes : ℕ → ℕ → List StoredFrame → ℕ → ℕ
drop_bytes start stop [] used = used
drop_bytes start stop (f ∷ fs) used =
    drop_bytes start stop fs (if in_seq_range start stop f then used - length f.bytes else used)

unfoldable pub remove_seq_range : FrameRing → ℕ → ℕ → FrameRing
unfolding drop_bytes
remove_seq_range r start stop = record r {
  slots = keep (λ f. not (in_seq_range start stop f)) r.slots;
  bytes_used = drop_bytes start stop r.slots r.bytes_used;
}

abbrev pub front_or : List ℕ → ℕ → ℕ
front_or [] d = d
front_or (x ∷ xs) d = x

unfoldable pub evict_gop_from : FrameRing → List ℕ → FrameRing
unfolding remove_seq_range
evict_gop_from r [] = r
evict_gop_from r (start ∷ starts) =
    let popped : FrameRing = record r { gop_starts = starts } in
    let removed = remove_seq_range popped start (front_or starts r.write_seq) in
    record removed { idr_seqs = keep (λ s. not (s == start)) r.idr_seqs }

unfoldable pub evict_oldest_gop : FrameRing → FrameRing
unfolding evict_gop_from
evict_oldest_gop r = evict_gop_from r r.gop_starts

-- What the front loop leaves: the frames, and `bytes_used`.
unfoldable pub drop_front : List StoredFrame → ℕ → List StoredFrame × ℕ
drop_front [] used = ([], used)
drop_front (f ∷ fs) used =
    let rest = drop_front fs (used - length f.bytes) in
    if f.is_keyframe && is_video f.codec then (f ∷ fs, used) else rest

unfoldable pub evict_front_until_keyframe_or_empty : FrameRing → FrameRing
unfolding drop_front
evict_front_until_keyframe_or_empty r =
    let (slots, used) = drop_front r.slots r.bytes_used in
    record r { slots = slots; bytes_used = used }

unfoldable pub evict_if_needed : ℕ → FrameRing → Option FrameRing
evict_if_needed zero r = none
evict_if_needed (suc fuel) r =
    let after_gop = evict_if_needed fuel (evict_oldest_gop r) in
    let after_front = evict_if_needed fuel (evict_front_until_keyframe_or_empty r) in
    if needs_evict r
    then (if ltb min_gops_retained (length r.gop_starts)
        then after_gop
        else if ltb 1 (length r.slots)
        then after_front
        else some r)
    else some r

unfoldable pub stored : FrameRing → MediaFrame → StoredFrame
stored r frame = record {
  seq = r.write_seq;
  stream_id = frame.stream_id;
  track_id = frame.track_id;
  timestamp = frame.timestamp;
  clock_rate = frame.clock_rate;
  codec = frame.codec;
  is_keyframe = frame.is_keyframe;
  bytes = frame.bytes;
}

-- `push` up to its call of `evict_if_needed`.
unfoldable pub append_frame : FrameRing → MediaFrame → FrameRing
unfolding stored
append_frame r frame =
    let key = is_video_keyframe frame in
    record r {
      gop_starts = if key then r.gop_starts ++ (r.write_seq ∷ []) else r.gop_starts;
      idr_seqs = if key then r.idr_seqs ++ (r.write_seq ∷ []) else r.idr_seqs;
      bytes_used = add64 r.bytes_used (length frame.bytes);
      slots = r.slots ++ (stored r frame ∷ []);
      write_seq = add64 r.write_seq 1;
    }

-- The sequence number that `push` returns is that of the ring before, `r.write_seq`.
unfoldable pub push : ℕ → FrameRing → MediaFrame → Option (ℕ × FrameRing)
unfolding append_frame
push fuel r frame = elim (evict_if_needed fuel (append_frame r frame)) [
  | none ↦ none
  | some evicted ↦ some (r.write_seq, evicted)
]

unfoldable pub find_seq : List StoredFrame → ℕ → Option StoredFrame
find_seq [] seq = none
find_seq (f ∷ fs) seq = if f.seq == seq then some f else find_seq fs seq

unfoldable pub get : FrameRing → ℕ → Option StoredFrame
unfolding find_seq
get r seq = find_seq r.slots seq

unfoldable pub latest_seq : FrameRing → ℕ
latest_seq r = r.write_seq - 1

abbrev pub front_seq : List StoredFrame → Option ℕ
front_seq [] = none
front_seq (f ∷ fs) = some f.seq

unfoldable pub oldest_seq : FrameRing → Option ℕ
oldest_seq r = front_seq r.slots

unfoldable pub is_empty : FrameRing → Bool
is_empty r = length r.slots == 0

unfoldable pub latest_idr_seq : FrameRing → Option ℕ
latest_idr_seq r = last? r.idr_seqs

unfoldable pub latest_idr_frame : FrameRing → Option MediaFrame
unfolding latest_idr_seq get to_media_frame
latest_idr_frame r = elim (latest_idr_seq r) [
  | none ↦ none
  | some seq ↦ elim (get r seq) [ none ↦ none | some f ↦ some (to_media_frame f) ]
]

unfoldable pub snap : FrameRing → SnapMode → ℕ
unfolding latest_seq latest_idr_seq
snap r SnapMode.live_edge = latest_seq r
snap r SnapMode.latest_idr = or_else (latest_idr_seq r) (latest_seq r)

unfoldable pub frames_from : FrameRing → ℕ → ℕ → List MediaFrame
unfolding to_media_frame
frames_from r from_seq to_seq =
    map to_media_frame (keep (λ f. leb from_seq f.seq && leb f.seq to_seq) r.slots)
