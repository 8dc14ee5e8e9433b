-- ===== src/FrameRing/Latest.antt =====
-- What a push to the frame ring of src/core/frame_ring.rs leaves for its readers.
use vcp_media_server.Prelude.{
  ℕ, zero, suc, ◌+◌, ◌≤◌, ◌<◌, ◌^◌, ◌≡◌, refl, subst, sym, ◌∙◌, true, false, not, ◌&&◌, some, List,
  [], ◌∷◌, ◌++◌, arith, ltb, leb, ◌==◌, if◌then◌else◌, length, inl, inr, Bool-cases, last?, ltb→lt,
}
use vcp_media_server.Media.{MediaFrame, is_video}
use vcp_media_server.FrameRing.{
  StoredFrame, FrameRing, SnapMode, remove_seq_range, evict_gop_from, evict_oldest_gop,
  evict_front_until_keyframe_or_empty, evict_if_needed, needs_evict, append_frame, push, stored,
  find_seq, get, is_video_keyframe, latest_idr_frame, to_media_frame, snap,
}
use vcp_media_server.FrameRing.Rising.{
  Rising, flagged, find_seq-drop_front, find_seq-keep, find_seq-append,
}
use vcp_media_server.FrameRing.Invariant.{
  IsValid, evict_oldest_gop-IsValid, evict_front-IsValid, append_frame-IsValid,
}
use vcp_media_server.FrameRing.Returns.{last-ge}

-- The ring's newest GOP start is `x`, a flagged keyframe that is still stored.
record Holds (x : StoredFrame) (r : FrameRing) : Type 0 where
  found : find_seq r.slots x.seq ≡ some x
  newest : last? r.gop_starts ≡ some x.seq
  key : flagged x ≡ true

evict_gop-Holds :
    (r : FrameRing) (x : StoredFrame) (g : List ℕ)
    → r.gop_starts ≡ g
    → 1 < length g
    → Rising 0 g r.write_seq
    → Holds x r
    → Holds x (evict_gop_from r g)
unfolding evict_gop_from remove_seq_range
evict_gop-Holds r x [] e l s h = absurd (omega arith)
evict_gop-Holds r x (a ∷ []) e l s h = absurd (omega arith)
evict_gop-Holds r x (a ∷ b ∷ rest) e l s h =
    let n : last? (b ∷ rest) ≡ some x.seq = subst (λ g. last? g ≡ some x.seq) e h.newest in
    let above : b ≤ x.seq = last-ge (suc a) b rest r.write_seq x.seq s.1 n in
    record {
      found =
          find_seq-keep (λ q. not (leb a q && ltb q b)) r.slots x.seq x h.found
            (ground (arith, above));
      newest = n;
      key = h.key;
    }

evict_front-Holds :
    (r : FrameRing) (x : StoredFrame) → Holds x r → Holds x (evict_front_until_keyframe_or_empty r)
unfolding evict_front_until_keyframe_or_empty
evict_front-Holds r x h = record {
  found = find_seq-drop_front r.slots r.bytes_used x.seq x h.found h.key;
  newest = h.newest;
  key = h.key;
}

evict_oldest_gop-Holds :
    (r : FrameRing) (x : StoredFrame)
    → ltb 1 (length r.gop_starts) ≡ true
    → IsValid r
    → Holds x r
    → Holds x (evict_oldest_gop r)
unfolding evict_oldest_gop
evict_oldest_gop-Holds r x l v h = evict_gop-Holds r x r.gop_starts refl (ltb→lt _ _ l) v.starts h

evict_if_needed-Holds :
    (fuel : ℕ) (r : FrameRing) (x : StoredFrame) (s : FrameRing)
    → IsValid r
    → Holds x r
    → evict_if_needed fuel r ≡ some s
    → IsValid s × Holds x s
unfolding evict_if_needed
evict_if_needed-Holds zero r x s v h e = cc
evict_if_needed-Holds (suc fuel) r x s v h e = elim (Bool-cases (needs_evict r)) [
  | inr done ↦
      let same : r ≡ s = ground (arith, done) in (subst IsValid same v, subst (Holds x) same h)
  | inl more ↦ elim (Bool-cases (ltb 1 (length r.gop_starts))) [
    | inl gops ↦
        evict_if_needed-Holds fuel (evict_oldest_gop r) x s (evict_oldest_gop-IsValid r v)
          (evict_oldest_gop-Holds r x gops v h) (rw (more, gops) at e)
    | inr one ↦ elim (Bool-cases (ltb 1 (length r.slots))) [
      | inl slots ↦
          evict_if_needed-Holds fuel (evict_front_until_keyframe_or_empty r) x s
            (evict_front-IsValid r v) (evict_front-Holds r x h) (rw (more, one, slots) at e)
      | inr few ↦
          let same : r ≡ s = ground (arith, more, one, few) in
          (subst IsValid same v, subst (Holds x) same h)
    ]
  ]
]

last?-snoc : (xs : List ℕ) (y : ℕ) → last? (xs ++ (y ∷ [])) ≡ some y
last?-snoc [] y = refl
last?-snoc (x ∷ []) y = refl
last?-snoc (x ∷ z ∷ zs) y = last?-snoc (z ∷ zs) y

append_key-Holds :
    (r : FrameRing) (f : MediaFrame)
    → IsValid r
    → f.is_keyframe ≡ true
    → is_video f.codec ≡ true
    → Holds (stored r f) (append_frame r f)
unfolding append_frame is_video_keyframe stored
append_key-Holds r f v key video = record {
  found = ground (arith, find_seq-append 0 r.slots (stored r f) r.write_seq v.sorted);
  newest = ground (arith, key, video, last?-snoc r.gop_starts r.write_seq);
  key = ground (arith, key, video);
}

latest_of_Holds :
    (r : FrameRing) (x : StoredFrame)
    → IsValid r
    → Holds x r
    → (snap r SnapMode.latest_idr ≡ x.seq) × (latest_idr_frame r ≡ some (to_media_frame x))
unfolding snap latest_idr_frame
latest_of_Holds r x v h =
    let n : last? r.idr_seqs ≡ some x.seq = rw v.index h.newest in
    (ground (arith, n), ground (arith, n, h.found))

push_cases :
    (fuel : ℕ) (r : FrameRing) (f : MediaFrame) (seq : ℕ) (s : FrameRing)
    → push fuel r f ≡ some (seq, s)
    → (seq ≡ r.write_seq) × (evict_if_needed fuel (append_frame r f) ≡ some s)
unfolding push
push_cases fuel r f seq s e = ground arith

-- After a push of a flagged video keyframe that returns, the newest IDR of the ring is that frame:
-- readers that snap to it get the number that the push returned, and the frame itself is stored. The
-- counters must not wrap in `u64`.
pub push-latest_idr :
    (fuel : ℕ) (r : FrameRing) (f : MediaFrame) (seq : ℕ) (s : FrameRing)
    → IsValid r
    → r.write_seq + 1 < 2 ^ 64
    → r.bytes_used + length f.bytes < 2 ^ 64
    → f.is_keyframe ≡ true
    → is_video f.codec ≡ true
    → push fuel r f ≡ some (seq, s)
    → (snap s SnapMode.latest_idr ≡ seq) × (latest_idr_frame s ≡ some (to_media_frame (stored r f)))
unfolding stored
push-latest_idr fuel r f seq s v hs hb key video e =
    let (same, done) = push_cases fuel r f seq s e in
    let (valid, holds) =
      evict_if_needed-Holds fuel (append_frame r f) (stored r f) s
        (append_frame-IsValid r f v hs hb) (append_key-Holds r f v key video) done in
    let (snapped, framed) = latest_of_Holds s (stored r f) valid holds in
    (snapped ∙ sym same, framed)

-- A push that evicts nothing adds one readable frame, under the number of the ring before, and every
-- other sequence number reads as before.
push-get :
    (fuel : ℕ) (r : FrameRing) (f : MediaFrame) (n : ℕ)
    → IsValid r
    → needs_evict (append_frame r f) ≡ false
    → (s : FrameRing) × (push (suc fuel) r f ≡ some (r.write_seq, s))
      × (get s n ≡ (if n == r.write_seq then some (stored r f) else get r n))
unfolding push get append_frame stored evict_if_needed
push-get fuel r f n v room =
    (append_frame r f, ground (arith, room), find_seq-append 0 r.slots (stored r f) n v.sorted)
