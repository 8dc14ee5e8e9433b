-- ===== src/FrameRing/Invariant.antt =====
-- The invariant of the frame ring of src/core/frame_ring.rs, and that its operations keep it.
use vcp_media_server.Prelude.{
  ℕ, zero, suc, ◌+◌, ◌-◌, ◌≤◌, ◌<◌, ◌^◌, ◌≡◌, refl, ap, ◌∙◌, subst, Bool, true, false, not, ◌||◌,
  some, List, [], ◌∷◌, ◌++◌, arith, ◌==◌, length, keep, inl, inr, ◌⊎◌, Bool-cases, All,
  Option-cases,
}
use vcp_media_server.Prelude.Words.{add64}
use vcp_media_server.Media.{MediaFrame}
use vcp_media_server.FrameRing.{
  StoredFrame, FrameRing, with_capacity, in_seq_range, front_or, evict_gop_from, evict_oldest_gop,
  drop_front, evict_front_until_keyframe_or_empty, evict_if_needed, needs_evict, append_frame,
  stored, is_video_keyframe, push,
}
use vcp_media_server.FrameRing.Rising.{
  Rising, Rising-weaken, Rising-snoc, Rising-up, seqs, seqs-append, total_bytes, total_bytes-append,
  Rising-keep, drop_bytes-keep, flagged, drop_front-exact, drop_front-Rising,
}

abbrev pub contains : ℕ → List ℕ → Bool
contains x [] = false
contains x (y ∷ ys) = x == y || contains x ys

-- Every flagged keyframe of the list is recorded as the start of a GOP.
abbrev pub Keyed : List ℕ → List StoredFrame → Type 0
Keyed g = All (λ f. (not (flagged f) || contains f.seq g) ≡ true)

pub record IsValid (r : FrameRing) : Type 0 where
  pub sorted : Rising 0 (seqs r.slots) r.write_seq
  pub exact : r.bytes_used ≡ total_bytes r.slots
  pub starts : Rising 0 r.gop_starts r.write_seq
  pub index : r.idr_seqs ≡ r.gop_starts
  pub keyed : Keyed r.gop_starts r.slots

pub with_capacity-IsValid : (frames bytes : ℕ) → IsValid (with_capacity frames bytes)
with_capacity-IsValid frames bytes = record {
  sorted = omega arith;
  exact = refl;
  starts = omega arith;
  index = refl;
  keyed = tt;
}

contains-append : (x y : ℕ) (g : List ℕ) → contains x g ≡ true → contains x (g ++ (y ∷ [])) ≡ true
contains-append x y [] h = ground arith
contains-append x y (z ∷ g) h = ground (arith, contains-append x y g)

contains_snoc : (y : ℕ) (g : List ℕ) → contains y (g ++ (y ∷ [])) ≡ true
contains_snoc y [] = ground arith
contains_snoc y (z ∷ g) = ground (arith, contains_snoc y g)

Keyed-append : (g : List ℕ) (y : ℕ) (fs : List StoredFrame) → Keyed g fs → Keyed (g ++ (y ∷ [])) fs
Keyed-append g y [] h = tt
Keyed-append g y (f ∷ fs) h =
    (ground (arith, h.0, contains-append f.seq y g), Keyed-append g y fs h.1)

Keyed-snoc :
    (g : List ℕ) (fs : List StoredFrame) (f : StoredFrame)
    → Keyed g fs
    → (not (flagged f) || contains f.seq g) ≡ true
    → Keyed g (fs ++ (f ∷ []))
Keyed-snoc g [] f h k = (k, tt)
Keyed-snoc g (x ∷ fs) f h k = (h.0, Keyed-snoc g fs f h.1 k)

Keyed-drop_front :
    (g : List ℕ) (fs : List StoredFrame) (used : ℕ) → Keyed g fs → Keyed g (drop_front fs used).0
unfolding drop_front
Keyed-drop_front g [] used h = h
Keyed-drop_front g (f ∷ fs) used h =
    ground (arith, h, Keyed-drop_front g fs (used - length f.bytes) h.1)

-- Dropping the frames of `[start, stop)` loses the key `start` only.
Keyed-keep :
    (start stop : ℕ) (g : List ℕ) (fs : List StoredFrame)
    → start < stop
    → Keyed (start ∷ g) fs
    → Keyed g (keep (λ f. not (in_seq_range start stop f)) fs)
Keyed-keep start stop g [] lt h = tt
Keyed-keep start stop g (f ∷ fs) lt h = ground (arith, h.0, Keyed-keep start stop g fs lt h.1)

-- Beyond `start` nothing equals it, so `retain(|s| *s != start)` keeps all.
keep_ne :
    (start lo : ℕ) (g : List ℕ) (hi : ℕ)
    → start < lo
    → Rising lo g hi
    → keep (λ s. not (s == start)) g ≡ g
keep_ne start lo [] hi lt h = refl
keep_ne start lo (x ∷ g) hi lt h =
    ground (arith, h.0, keep_ne start (suc x) g hi (omega (arith, h.0)) h.1)

front_above : (start : ℕ) (g : List ℕ) (hi : ℕ) → Rising (suc start) g hi → start < front_or g hi
front_above start [] hi h = h
front_above start (x ∷ g) hi h = h.0

evict_gop_from-IsValid :
    (r : FrameRing) (g : List ℕ) → r.gop_starts ≡ g → IsValid r → IsValid (evict_gop_from r g)
unfolding evict_gop_from
evict_gop_from-IsValid r [] e v = v
evict_gop_from-IsValid r (start ∷ rest) e v =
    let starts : Rising 0 (start ∷ rest) r.write_seq =
      subst (λ g. Rising 0 g r.write_seq) e v.starts in
    record {
      sorted = Rising-keep _ 0 r.slots r.write_seq v.sorted;
      exact = ground (
        arith,
        drop_bytes-keep start (front_or rest r.write_seq) r.slots 0 r.bytes_used,
        v.exact,
      );
      starts = Rising-weaken 0 (suc start) rest r.write_seq (omega arith) starts.1;
      index =
          rw (v.index, e)
            (ground (arith, keep_ne start (suc start) rest r.write_seq (omega arith) starts.1));
      keyed =
          Keyed-keep start (front_or rest r.write_seq) rest r.slots
            (front_above start rest r.write_seq starts.1) (subst (λ g. Keyed g r.slots) e v.keyed);
    }

pub evict_oldest_gop-IsValid : (r : FrameRing) → IsValid r → IsValid (evict_oldest_gop r)
unfolding evict_oldest_gop
evict_oldest_gop-IsValid r v = evict_gop_from-IsValid r r.gop_starts refl v

pub evict_front-IsValid :
    (r : FrameRing) → IsValid r → IsValid (evict_front_until_keyframe_or_empty r)
unfolding evict_front_until_keyframe_or_empty
evict_front-IsValid r v = record {
  sorted = drop_front-Rising 0 r.slots r.bytes_used r.write_seq v.sorted;
  exact = drop_front-exact r.slots r.bytes_used v.exact;
  starts = v.starts;
  index = v.index;
  keyed = Keyed-drop_front r.gop_starts r.slots r.bytes_used v.keyed;
}

-- The stored frame's own flag is one of the two ways to count as a keyframe.
flagged-stored :
    (r : FrameRing) (f : MediaFrame) → is_video_keyframe f ≡ false → flagged (stored r f) ≡ false
unfolding is_video_keyframe stored
flagged-stored r f h = ground arith

module _ (r : FrameRing) (f : MediaFrame) (v : IsValid r) where
  next_seq : r.write_seq + 1 < 2 ^ 64 → add64 r.write_seq 1 ≡ suc r.write_seq
  next_seq h = omega arith

  append_sorted : Rising 0 (seqs (r.slots ++ (stored r f ∷ []))) (suc r.write_seq)
  unfolding stored
  append_sorted =
      rw (seqs-append r.slots (stored r f ∷ [])) (Rising-snoc 0 (seqs r.slots) r.write_seq v.sorted)

  append_exact :
      r.bytes_used + length f.bytes < 2 ^ 64
      → add64 r.bytes_used (length f.bytes) ≡ total_bytes (r.slots ++ (stored r f ∷ []))
  unfolding stored
  append_exact h = omega (arith, v.exact, total_bytes-append r.slots (stored r f ∷ []))

  -- A frame that opens no GOP.
  append_plain :
      is_video_keyframe f ≡ false
      → r.write_seq + 1 < 2 ^ 64
      → r.bytes_used + length f.bytes < 2 ^ 64
      → IsValid (append_frame r f)
  unfolding append_frame
  append_plain key hs hb =
      rw (key, next_seq hs)
        (record {
          sorted = append_sorted;
          exact = append_exact hb;
          starts = Rising-up 0 r.gop_starts r.write_seq v.starts;
          index = v.index;
          keyed =
              Keyed-snoc r.gop_starts r.slots (stored r f) v.keyed
                (ground (arith, flagged-stored r f key));
        })

  append_key :
      is_video_keyframe f ≡ true
      → r.write_seq + 1 < 2 ^ 64
      → r.bytes_used + length f.bytes < 2 ^ 64
      → IsValid (append_frame r f)
  unfolding append_frame
  append_key key hs hb =
      rw (key, next_seq hs)
        (record {
          sorted = append_sorted;
          exact = append_exact hb;
          starts = Rising-snoc 0 r.gop_starts r.write_seq v.starts;
          index = ap (λ g. g ++ (r.write_seq ∷ [])) v.index;
          keyed =
              Keyed-snoc (r.gop_starts ++ (r.write_seq ∷ [])) r.slots (stored r f)
                (Keyed-append r.gop_starts r.write_seq r.slots v.keyed)
                (ground (arith, contains_snoc r.write_seq r.gop_starts));
        })

  pub append_frame-IsValid :
      r.write_seq + 1 < 2 ^ 64 → r.bytes_used + length f.bytes < 2 ^ 64 → IsValid (append_frame r f)
  append_frame-IsValid hs hb = elim (Bool-cases (is_video_keyframe f)) [
    | inl key ↦ append_key key hs hb
    | inr key ↦ append_plain key hs hb
  ]

-- What a finished eviction leaves: room within both capacities, or at most one frame.
abbrev pub Fits : FrameRing → Type 0
Fits r = (needs_evict r ≡ false) ⊎ (length r.slots ≤ 1)

pub evict_if_needed-IsValid :
    (fuel : ℕ) (r s : FrameRing) → IsValid r → evict_if_needed fuel r ≡ some s → IsValid s × Fits s
unfolding evict_if_needed
evict_if_needed-IsValid zero r s v e = cc
evict_if_needed-IsValid (suc fuel) r s v e = ground (
  arith,
  evict_if_needed-IsValid fuel (evict_oldest_gop r) s (evict_oldest_gop-IsValid r v),
  evict_if_needed-IsValid fuel (evict_front_until_keyframe_or_empty r) s (evict_front-IsValid r v),
)

-- The two capacities are as before.
abbrev pub SameCapacities : FrameRing → FrameRing → Type 0
SameCapacities r s = (s.capacity_frames ≡ r.capacity_frames) × (s.capacity_bytes ≡ r.capacity_bytes)

evict_gop_from-capacities : (r : FrameRing) (g : List ℕ) → SameCapacities r (evict_gop_from r g)
unfolding evict_gop_from
evict_gop_from-capacities r [] = (refl, refl)
evict_gop_from-capacities r (start ∷ rest) = (refl, refl)

evict_oldest_gop-capacities : (r : FrameRing) → SameCapacities r (evict_oldest_gop r)
unfolding evict_oldest_gop
evict_oldest_gop-capacities r = evict_gop_from-capacities r r.gop_starts

evict_if_needed-capacities :
    (fuel : ℕ) (r s : FrameRing) → evict_if_needed fuel r ≡ some s → SameCapacities r s
unfolding evict_if_needed evict_front_until_keyframe_or_empty
evict_if_needed-capacities zero r s e = cc
evict_if_needed-capacities (suc fuel) r s e = ground (
  arith,
  evict_oldest_gop-capacities r,
  evict_if_needed-capacities fuel (evict_oldest_gop r) s,
  evict_if_needed-capacities fuel (evict_front_until_keyframe_or_empty r) s,
)

append_frame-capacities : (r : FrameRing) (f : MediaFrame) → SameCapacities r (append_frame r f)
unfolding append_frame
append_frame-capacities r f = (refl, refl)

pub push-IsValid :
    (fuel : ℕ) (r : FrameRing) (f : MediaFrame) (seq : ℕ) (s : FrameRing)
    → IsValid r
    → r.write_seq + 1 < 2 ^ 64
    → r.bytes_used + length f.bytes < 2 ^ 64
    → push fuel r f ≡ some (seq, s)
    → (seq ≡ r.write_seq) × IsValid s × Fits s × SameCapacities r s
unfolding push
push-IsValid fuel r f seq s v hs hb e =
    elim (Option-cases (evict_if_needed fuel (append_frame r f))) [
      | inl n ↦ absurd (ground (arith, n))
      | inr (t, n) ↦
          let same : (seq ≡ r.write_seq) × (t ≡ s) = ground (arith, n) in
          let (valid, fits) =
            evict_if_needed-IsValid fuel (append_frame r f) t (append_frame-IsValid r f v hs hb)
              n in
          let kept = evict_if_needed-capacities fuel (append_frame r f) t n in
          (
            same.0,
            subst IsValid same.1 valid,
            subst Fits same.1 fits,
            subst (SameCapacities r) same.1
                (let own = append_frame-capacities r f in (kept.0 ∙ own.0, kept.1 ∙ own.1)),
          )
    ]
