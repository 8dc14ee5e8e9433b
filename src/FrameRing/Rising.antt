-- ===== src/FrameRing/Rising.antt =====
-- Strictly rising lists of sequence numbers, and how the list passes of src/core/frame_ring.rs treat
-- them. Also the bytes that a list of stored frames holds.
use vcp_media_server.Prelude.{
  ℕ, suc, ◌+◌, ◌-◌, ◌≤◌, ◌≡◌, refl, Bool, true, not, ◌&&◌, some, List, [], ◌∷◌, ◌++◌, arith, ◌==◌,
  if◌then◌else◌, length, keep, inl, inr, Bool-cases,
}
use vcp_media_server.FrameRing.{StoredFrame, in_seq_range, drop_bytes, drop_front, find_seq}
use vcp_media_server.Media.{is_video}

-- The numbers rise strictly, from `lo` on, and stay below `hi`.
abbrev pub Rising : ℕ → List ℕ → ℕ → Type 0
Rising lo [] hi = lo ≤ hi
Rising lo (x ∷ xs) hi = (lo ≤ x) × Rising (suc x) xs hi

abbrev pub seqs : List StoredFrame → List ℕ
seqs [] = []
seqs (f ∷ fs) = f.seq ∷ seqs fs

abbrev pub total_bytes : List StoredFrame → ℕ
total_bytes [] = 0
total_bytes (f ∷ fs) = length f.bytes + total_bytes fs

pub Rising-le : (lo : ℕ) (xs : List ℕ) (hi : ℕ) → Rising lo xs hi → lo ≤ hi
Rising-le lo [] hi h = h
Rising-le lo (x ∷ xs) hi h = omega (arith, Rising-le (suc x) xs hi h.1)

pub Rising-weaken :
    (lo lo' : ℕ) (xs : List ℕ) (hi : ℕ) → lo ≤ lo' → Rising lo' xs hi → Rising lo xs hi
Rising-weaken lo lo' [] hi le h = omega arith
Rising-weaken lo lo' (x ∷ xs) hi le h = (omega arith, h.1)

pub Rising-snoc :
    (lo : ℕ) (xs : List ℕ) (hi : ℕ) → Rising lo xs hi → Rising lo (xs ++ (hi ∷ [])) (suc hi)
Rising-snoc lo [] hi h = omega arith
Rising-snoc lo (x ∷ xs) hi h = (h.0, Rising-snoc (suc x) xs hi h.1)

pub Rising-up : (lo : ℕ) (xs : List ℕ) (hi : ℕ) → Rising lo xs hi → Rising lo xs (suc hi)
Rising-up lo [] hi h = omega arith
Rising-up lo (x ∷ xs) hi h = (h.0, Rising-up (suc x) xs hi h.1)

pub seqs-append : (xs ys : List StoredFrame) → seqs (xs ++ ys) ≡ seqs xs ++ seqs ys
seqs-append [] ys = refl
seqs-append (x ∷ xs) ys = λ i. x.seq ∷ seqs-append xs ys i

pub total_bytes-append :
    (xs ys : List StoredFrame) → total_bytes (xs ++ ys) ≡ total_bytes xs + total_bytes ys
total_bytes-append [] ys = omega arith
total_bytes-append (x ∷ xs) ys = omega (arith, total_bytes-append xs ys)

pub Rising-keep :
    (p : StoredFrame → Bool) (lo : ℕ) (xs : List StoredFrame) (hi : ℕ)
    → Rising lo (seqs xs) hi
    → Rising lo (seqs (keep p xs)) hi
Rising-keep p lo [] hi h = h
Rising-keep p lo (x ∷ xs) hi h =
    ground (
      arith,
      Rising-keep p (suc x.seq) xs hi h.1,
      Rising-weaken lo (suc x.seq) (seqs (keep p xs)) hi,
    )

-- `retain` lowers the count by exactly the bytes that it drops, and never saturates.
pub drop_bytes-keep :
    (start stop : ℕ) (xs : List StoredFrame) (c used : ℕ)
    → used ≡ total_bytes xs + c
    → drop_bytes start stop xs used
      ≡ total_bytes (keep (λ f. not (in_seq_range start stop f)) xs) + c
unfolding drop_bytes
drop_bytes-keep start stop [] c used h = h
drop_bytes-keep start stop (x ∷ xs) c used h = ground (
  arith,
  drop_bytes-keep start stop xs c (used - length x.bytes),
  drop_bytes-keep start stop xs (c + length x.bytes) used,
)

-- A frame that the front loop takes for a keyframe.
abbrev pub flagged : StoredFrame → Bool
flagged f = f.is_keyframe && is_video f.codec

-- The front loop keeps the byte count exact.
pub drop_front-exact :
    (xs : List StoredFrame) (used : ℕ)
    → used ≡ total_bytes xs
    → (drop_front xs used).1 ≡ total_bytes (drop_front xs used).0
unfolding drop_front
drop_front-exact [] used h = h
drop_front-exact (x ∷ xs) used h = ground (arith, drop_front-exact xs (used - length x.bytes))

pub drop_front-Rising :
    (lo : ℕ) (xs : List StoredFrame) (used hi : ℕ)
    → Rising lo (seqs xs) hi
    → Rising lo (seqs (drop_front xs used).0) hi
unfolding drop_front
drop_front-Rising lo [] used hi h = h
drop_front-Rising lo (x ∷ xs) used hi h = ground (
  arith,
  drop_front-Rising (suc x.seq) xs (used - length x.bytes) hi h.1,
  Rising-weaken lo (suc x.seq) (seqs (drop_front xs (used - length x.bytes)).0) hi,
)

-- What the front loop leaves is empty or begins with a flagged keyframe.
abbrev pub StartsFlagged : List StoredFrame → Type 0
StartsFlagged [] = Unit {0}
StartsFlagged (f ∷ fs) = flagged f ≡ true

pub drop_front-StartsFlagged :
    (xs : List StoredFrame) (used : ℕ) → StartsFlagged (drop_front xs used).0
unfolding drop_front
drop_front-StartsFlagged [] used = tt
drop_front-StartsFlagged (x ∷ xs) used =
    ground (arith, drop_front-StartsFlagged xs (used - length x.bytes))

pub find_seq-drop_front :
    (xs : List StoredFrame) (used s : ℕ) (x : StoredFrame)
    → find_seq xs s ≡ some x
    → flagged x ≡ true
    → find_seq (drop_front xs used).0 s ≡ some x
unfolding drop_front find_seq
find_seq-drop_front [] used s x h k = h
find_seq-drop_front (y ∷ xs) used s x h k =
    ground (arith, find_seq-drop_front xs (used - length y.bytes) s x)

pub find_seq-keep :
    (p : ℕ → Bool) (xs : List StoredFrame) (s : ℕ) (x : StoredFrame)
    → find_seq xs s ≡ some x
    → p s ≡ true
    → find_seq (keep (λ f. p f.seq) xs) s ≡ some x
unfolding find_seq
find_seq-keep p [] s x h k = h
find_seq-keep p (y ∷ xs) s x h k = elim (Bool-cases (y.seq == s)) [
  | inl e ↦
      let same : y.seq ≡ s = ground arith in
      let q : p y.seq ≡ true = rw same k in rw (q, e) (rw e at h)
  | inr e ↦ elim (Bool-cases (p y.seq)) [
    | inl q ↦ rw (q, e) (find_seq-keep p xs s x (rw e at h) k)
    | inr q ↦ rw q (find_seq-keep p xs s x (rw e at h) k)
  ]
]

-- Beyond every number in the list, `find_seq` sees only what is added.
pub find_seq-append :
    (lo : ℕ) (xs : List StoredFrame) (x : StoredFrame) (s : ℕ)
    → Rising lo (seqs xs) x.seq
    → find_seq (xs ++ (x ∷ [])) s ≡ (if s == x.seq then some x else find_seq xs s)
unfolding find_seq
find_seq-append lo [] x s h = ground arith
find_seq-append lo (y ∷ xs) x s h =
    ground
      (arith, find_seq-append (suc y.seq) xs x s h.1, Rising-le (suc y.seq) (seqs xs) x.seq h.1)
