-- ===== src/Dispatch/Collapse.antt =====
-- Collapsed batches of live players: `recv_collapsed` and `recv_catchup` of src/core/dispatch.rs.
use vcp_media_server.Prelude.{
  ℕ, zero, suc, ◌+◌, ◌-◌, ◌≤◌, ◌<◌, ◌≡◌, refl, ap, ◌∙◌, sym, subst, Bool, true, Option, none, some,
  List, [], ◌∷◌, ◌++◌, arith, if◌then◌else◌, keep, last?, inl, inr, Bool-cases, Option-cases,
  le_or_lt, append-nil,
}
use vcp_media_server.Media.{MediaFrame}
use vcp_media_server.FrameRing.{frames_from}
use vcp_media_server.FrameRing.Invariant.{IsValid}
use vcp_media_server.FrameRing.Window.{
  one_or_none, frames_from-append, frames_from_one, frames_from_reversed,
}
use vcp_media_server.StreamHub.{StreamHub, get_frame, hub_frames_from}
use vcp_media_server.Dispatch.Coalesce.{
  is_playable_idr, idr_search, last_playable_idr_seq, video_in_batch,
}

pub keep-append :
    (p : MediaFrame → Bool) (xs ys : List MediaFrame) → keep p (xs ++ ys) ≡ keep p xs ++ keep p ys
keep-append p [] ys = refl
keep-append p (x ∷ xs) ys = ground (arith, keep-append p xs ys)

-- An IDR is a video frame.
pub idrs_of_video :
    (fs : List MediaFrame) → keep is_playable_idr (video_in_batch fs) ≡ keep is_playable_idr fs
unfolding is_playable_idr
idrs_of_video [] = refl
idrs_of_video (f ∷ fs) = ground (arith, idrs_of_video fs)

last?_one : (xs : List MediaFrame) (y : MediaFrame) → last? (xs ++ (y ∷ [])) ≡ some y
last?_one [] y = refl
last?_one (x ∷ []) y = refl
last?_one (x ∷ z ∷ zs) y = last?_one (z ∷ zs) y

abbrev pub found_frame : StreamHub → Option ℕ → Option MediaFrame
found_frame hub none = none
found_frame hub (some seq) = get_frame hub seq

abbrev pub last_idr : List MediaFrame → Option MediaFrame
last_idr fs = last? (keep is_playable_idr fs)

last_idr_one :
    (fs : List MediaFrame) (o : Option MediaFrame)
    → last_idr (fs ++ one_or_none o)
      ≡ elim o [ none ↦ last_idr fs | some f ↦ if is_playable_idr f then some f else last_idr fs ]
last_idr_one fs none = ap last_idr (append-nil fs)
last_idr_one fs (some f) =
    rw (keep-append is_playable_idr fs (f ∷ []))
      (ground (arith, append-nil (keep is_playable_idr fs), last?_one (keep is_playable_idr fs) f))

module _ (hub : StreamHub) (v : IsValid hub.ring) where
  one_frame : (n : ℕ) → hub_frames_from hub n n ≡ one_or_none (get_frame hub n)
  unfolding hub_frames_from get_frame
  one_frame n = frames_from_one hub.ring n v

  extend :
      (k : ℕ) (below : Option ℕ) (before : List MediaFrame)
      → last_idr before ≡ found_frame hub below
      → last_idr (before ++ one_or_none (get_frame hub k))
        ≡ found_frame hub (elim (get_frame hub k) [
          | none ↦ below
          | some frame ↦ if is_playable_idr frame then some k else below
        ])
  extend k below before h = elim (Option-cases (get_frame hub k)) [
    | inl e ↦ rw e (ap last_idr (append-nil before) ∙ h)
    | inr (f, e) ↦ ground (arith, e, h, last_idr_one before (some f))
  ]

  frame_at : (a k : ℕ) → k ≡ a → hub_frames_from hub a k ≡ one_or_none (get_frame hub k)
  frame_at a k e =
      subst (λ b. hub_frames_from hub b k ≡ one_or_none (get_frame hub k)) e (one_frame k)

  pub frames_split :
      (a b m c : ℕ)
      → b + 1 ≡ m
      → a ≤ m
      → b ≤ c
      → hub_frames_from hub a c ≡ hub_frames_from hub a b ++ hub_frames_from hub m c
  unfolding hub_frames_from
  frames_split a b m c e am bc =
      subst (λ k. frames_from hub.ring a c ≡ frames_from hub.ring a b ++ frames_from hub.ring k c) e
        (sym (frames_from-append hub.ring a b c v (omega arith) bc))

  idr_search_step :
      (a n : ℕ)
      → last_idr (hub_frames_from hub a (a + n)) ≡ found_frame hub (idr_search hub a (suc n))
  unfolding idr_search
  idr_search_step a zero =
      ap last_idr (frame_at a (a + 0) (omega arith)) ∙ extend (a + 0) none [] refl
  idr_search_step a (suc n) =
      ap last_idr (
        frames_split a (a + n) (a + suc n) (a + suc n) (omega arith) (omega arith) (omega arith)
        ∙ ap (◌++◌ (hub_frames_from hub a (a + n))) (one_frame (a + suc n)))
      ∙ extend (a + suc n) (idr_search hub a (suc n)) (hub_frames_from hub a (a + n))
          (idr_search_step a n)

  search_to :
      (a n b : ℕ)
      → a + n ≡ b
      → found_frame hub (idr_search hub a (suc n)) ≡ last_idr (hub_frames_from hub a b)
  search_to a n b e = sym (
      subst (λ k. last_idr (hub_frames_from hub a k) ≡ found_frame hub (idr_search hub a (suc n))) e
        (idr_search_step a n))

  -- The search by numbers agrees with a scan of the window that it searches: it finds the number of the
  -- last playable IDR there, and nothing where there is none.
  pub last_playable_idr_seq_lem :
      (a b : ℕ)
      → found_frame hub (last_playable_idr_seq hub a b) ≡ last_idr (hub_frames_from hub a b)
  unfolding last_playable_idr_seq idr_search hub_frames_from
  last_playable_idr_seq_lem a b =
      let Agrees : ℕ → Type 0 =
        λ k. found_frame hub (idr_search hub a k) ≡ last_idr (hub_frames_from hub a b) in
      elim (le_or_lt a b) [
        | inl le ↦
            let n : suc (b - a) ≡ b + 1 - a = omega arith in
            subst Agrees n (search_to a (b - a) b (omega arith))
        | inr lt ↦
            let n : 0 ≡ b + 1 - a = omega arith in
            subst Agrees n (sym (ap last_idr (frames_from_reversed hub.ring a b lt)))
      ]

idr_search_bounds :
    (hub : StreamHub) (a n seq : ℕ) → idr_search hub a n ≡ some seq → (a ≤ seq) × (seq < a + n)
unfolding idr_search
idr_search_bounds hub a zero seq h = cc
idr_search_bounds hub a (suc n) seq h = ground (arith, idr_search_bounds hub a n seq)

pub last_playable_idr_seq_bounds :
    (hub : StreamHub) (a b seq : ℕ)
    → last_playable_idr_seq hub a b ≡ some seq
    → (a ≤ seq) × (seq ≤ b)
unfolding last_playable_idr_seq
last_playable_idr_seq_bounds hub a b seq h =
    omega (arith, idr_search_bounds hub a (b + 1 - a) seq h)

idr_search_found :
    (hub : StreamHub) (a n seq : ℕ)
    → idr_search hub a n ≡ some seq
    → (idr : MediaFrame) × (get_frame hub seq ≡ some idr) × (is_playable_idr idr ≡ true)
unfolding idr_search
idr_search_found hub a zero seq h = absurd (cc)
idr_search_found hub a (suc n) seq h = elim (Option-cases (get_frame hub (a + n))) [
  | inl e ↦ idr_search_found hub a n seq (rw (idr_search, e) at h)
  | inr (f, e) ↦ elim (Bool-cases (is_playable_idr f)) [
    | inr dull ↦ idr_search_found hub a n seq (rw (idr_search, e, dull) at h)
    | inl playable ↦
        let same : a + n ≡ seq = ground (arith, e, playable) in
        (f, subst (λ k. get_frame hub k ≡ some f) same e, playable)
  ]
]

pub last_playable_idr_seq_found :
    (hub : StreamHub) (a b seq : ℕ)
    → last_playable_idr_seq hub a b ≡ some seq
    → (idr : MediaFrame) × (get_frame hub seq ≡ some idr) × (is_playable_idr idr ≡ true)
unfolding last_playable_idr_seq
last_playable_idr_seq_found hub a b seq h = idr_search_found hub a (b + 1 - a) seq h
