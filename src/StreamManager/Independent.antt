-- ===== src/StreamManager/Independent.antt =====
-- The streams of src/core/stream_manager.rs do not disturb one another: a run of calls on the manager is, for
-- each stream, the run of that stream's own calls on its own hub.
use vcp_media_server.Prelude.{
  ℕ, ◌≡◌, refl, ap, ◌∙◌, sym, subst, String, Option, none, some, List, [], ◌∷◌, if◌then◌else◌,
  Bool-cases, Option-cases, inl, inr, arith,
}
use mathlib.Core.Option.{map as map_option, some-injective}
use text.Mathlib.Text.{◌==◌}
use text.Mathlib.TextEquality.{eq_iff}
use vcp_media_server.Prelude.StringMap.{find-delete}
use vcp_media_server.Media.{MediaFrame, StreamSourceMode, StreamProtocol}
use vcp_media_server.StreamHub.{StreamHub, set_tracks, update_stream, publish, release_publisher}
use vcp_media_server.StreamManager.{
  StreamManager, get_hub, change_hub, create_stream, set_stream_tracks, set_stream_sps_pps,
  set_status, set_playback_status, remove_stream, manager_acquire_publisher,
  manager_release_publisher, publish_frame, get_or_create_hub,
}
use vcp_media_server.StreamManager.Streams.{get_hub-change_hub, get_hub-insert}
use vcp_media_server.StreamManager.Sessions.{
  held_by_other, fresh, manager_acquire_publisher_lem, publish_frame_lem,
  manager_release_publisher_lem,
}
use vcp_media_server.StreamManager.Calls.{
  Call, create, tracks, parameter_sets, status, playback, acquire, release, remove, frame, target,
  call, created_hub, started_hub, on_stream, run, run_stream,
}

-- What a call leaves: the specification's answer at its own stream, and every other stream as it was.
abbrev pub Effect : ℕ → Call → StreamManager → StreamManager → Type 0
Effect fuel c m after =
    (o : Option StreamHub) × (on_stream fuel c (get_hub m (target c)) ≡ some o)
    × ((id : String) → get_hub after id ≡ (if target c == id then o else get_hub m id))

change-Effect :
    (fuel : ℕ) (c : Call) (m : StreamManager) (f : StreamHub → StreamHub)
    → on_stream fuel c none ≡ some none
    → ((hub : StreamHub) → on_stream fuel c (some hub) ≡ some (some (f hub)))
    → Effect fuel c m (change_hub m (target c) f)
change-Effect fuel c m f missing there = (
  map_option f (get_hub m (target c)),
  elim (Option-cases (get_hub m (target c))) [
    | inl e ↦ rw e missing
    | inr (hub, e) ↦ rw e (there hub)
  ],
  λ id. get_hub-change_hub m (target c) id f,
)

-- Nothing changes at any stream.
same-Effect :
    (fuel : ℕ) (c : Call) (m after : StreamManager)
    → on_stream fuel c (get_hub m (target c)) ≡ some (get_hub m (target c))
    → ((id : String) → get_hub after id ≡ get_hub m id)
    → Effect fuel c m after
same-Effect fuel c m after on same = (
  get_hub m (target c),
  on,
  λ id. same id ∙ elim (Bool-cases (target c == id)) [
    | inl z ↦ rw z (ap (get_hub m) (sym ((eq_iff (target c) id).0 z)))
    | inr z ↦ rw z refl
  ],
)

create-Effect :
    (fuel : ℕ) (m : StreamManager) (k : String) (source : StreamSourceMode)
    (protocol : StreamProtocol) (url : Option String)
    → Effect fuel (create k source protocol url) m (create_stream m k source protocol url).1
unfolding create_stream on_stream
create-Effect fuel m k source protocol url = elim (Option-cases (get_hub m k)) [
  | inl e ↦
      rw (create_stream, e)
        (
          some (created_hub k source protocol url),
          refl,
          λ id. get_hub-insert m k id (created_hub k source protocol url),
        )
  | inr (hub, e) ↦
      same-Effect fuel (create k source protocol url) m _ (rw e refl)
        (λ id. rw (create_stream, e) refl)
]

acquire-Effect :
    (fuel : ℕ) (m : StreamManager) (k p : String)
    → Effect fuel (acquire k p) m (manager_acquire_publisher m k p).1
unfolding manager_acquire_publisher on_stream
acquire-Effect fuel m k p = elim (Option-cases (get_hub m k)) [
  | inl e ↦
      same-Effect fuel (acquire k p) m _ (rw e refl) (λ id. rw (manager_acquire_publisher, e) refl)
  | inr (hub, e) ↦ elim (Bool-cases (held_by_other hub p)) [
    | inl held ↦
        same-Effect fuel (acquire k p) m _ (rw (e, held) refl)
          (λ id. (manager_acquire_publisher_lem m k p id hub e).1 ∙ rw held refl)
    | inr free ↦ (
      some (fresh hub (some p)),
      rw (e, free) refl,
      λ id. (manager_acquire_publisher_lem m k p id hub e).1 ∙ rw free refl,
    )
  ]
]

release-Effect :
    (fuel : ℕ) (m : StreamManager) (k p : String)
    → Effect fuel (release k p) m (manager_release_publisher m k p).1
unfolding manager_release_publisher change_hub on_stream
release-Effect fuel m k p = elim (Option-cases (get_hub m k)) [
  | inl e ↦
      same-Effect fuel (release k p) m _ (rw e refl)
        (λ id. rw (manager_release_publisher, change_hub, e) refl)
  | inr (hub, e) ↦ elim (Bool-cases (release_publisher hub p).0) [
    | inr other ↦
        same-Effect fuel (release k p) m _ (rw (e, other) refl)
          (λ id. manager_release_publisher_lem m k p id hub e ∙ rw other refl)
    | inl own ↦ (
      some (fresh hub none),
      rw (e, own) refl,
      λ id. manager_release_publisher_lem m k p id hub e ∙ rw own refl,
    )
  ]
]

remove-Effect :
    (fuel : ℕ) (m : StreamManager) (k : String) → Effect fuel (remove k) m (remove_stream m k).1
unfolding remove_stream on_stream get_hub
remove-Effect fuel m k = (none, refl, λ id. find-delete m.hubs k id)

pub frame-Effect :
    (fuel : ℕ) (m : StreamManager) (f : MediaFrame) (after : StreamManager)
    → publish_frame fuel m f ≡ some after
    → Effect fuel (frame f) m after
unfolding publish_frame get_or_create_hub on_stream
frame-Effect fuel m f after e = elim (Option-cases (get_hub m f.stream_id)) [
  | inl n ↦
      same-Effect fuel (frame f) m after (rw n refl)
        (λ id. ap (λ x. get_hub x id) (sym (some-injective m after (rw (publish_frame, n) at e))))
  | inr (hub, n) ↦ elim (Option-cases (publish fuel hub f)) [
    | inl stuck ↦ absurd (ground (arith, n, stuck, e))
    | inr ((seq, published), ended) ↦ (
      some (started_hub published),
      rw (n, on_stream, ended) refl,
      λ id.
          let (x, answer, found) = publish_frame_lem fuel m f id hub published seq n ended in
          subst
            (λ y.
              get_hub y id
              ≡ (if f.stream_id == id then some (started_hub published) else get_hub m id))
            (some-injective x after (sym answer ∙ e)) found,
    )
  ]
]

some_same :
    (x after : StreamManager) (fuel : ℕ) (c : Call) (m : StreamManager)
    → some x ≡ some after
    → Effect fuel c m x
    → Effect fuel c m after
some_same x after fuel c m e = subst (Effect fuel c m) (some-injective x after e)

call-Effect :
    (fuel : ℕ) (m : StreamManager) (c : Call) (after : StreamManager)
    → call fuel m c ≡ some after
    → Effect fuel c m after
unfolding call on_stream set_stream_tracks set_stream_sps_pps set_status set_playback_status
    set_tracks update_stream
call-Effect fuel m (create k source protocol url) after e =
    some_same _ after fuel (create k source protocol url) m e
      (create-Effect fuel m k source protocol url)
call-Effect fuel m (tracks k ts) after e =
    some_same _ after fuel (tracks k ts) m e
      (change-Effect fuel (tracks k ts) m _ refl (λ hub. refl))
call-Effect fuel m (parameter_sets k sps pps) after e =
    some_same _ after fuel (parameter_sets k sps pps) m e
      (change-Effect fuel (parameter_sets k sps pps) m _ refl (λ hub. refl))
call-Effect fuel m (status k s) after e =
    some_same _ after fuel (status k s) m e (change-Effect fuel (status k s) m _ refl (λ hub. refl))
call-Effect fuel m (playback k s) after e =
    some_same _ after fuel (playback k s) m e
      (change-Effect fuel (playback k s) m _ refl (λ hub. refl))
call-Effect fuel m (acquire k p) after e =
    some_same _ after fuel (acquire k p) m e (acquire-Effect fuel m k p)
call-Effect fuel m (release k p) after e =
    some_same _ after fuel (release k p) m e (release-Effect fuel m k p)
call-Effect fuel m (remove k) after e =
    some_same _ after fuel (remove k) m e (remove-Effect fuel m k)
call-Effect fuel m (frame f) after e = frame-Effect fuel m f after e

-- For each stream, a run of calls on the manager that returns leaves what the run of that stream's own
-- calls leaves on that stream alone: whether it is there, and its hub. So no call on a stream reaches another.
pub run-run_stream :
    (fuel : ℕ) (m after : StreamManager) (calls : List Call) (id : String)
    → run fuel m calls ≡ some after
    → run_stream fuel id calls (get_hub m id) ≡ some (get_hub after id)
unfolding run run_stream
run-run_stream fuel m after [] id e = ap (λ x. some (get_hub x id)) (some-injective m after e)
run-run_stream fuel m after (c ∷ cs) id e = elim (Option-cases (call fuel m c)) [
  | inl stuck ↦ absurd (ground (arith, stuck, e))
  | inr (next, n) ↦
      let (o, on, found) = call-Effect fuel m c next n in
      let later = run-run_stream fuel next after cs id (rw (run, n) at e) in
      elim (Bool-cases (target c == id)) [
        | inl own ↦
            let on_own : on_stream fuel c (get_hub m id) ≡ some o =
              subst (λ k. on_stream fuel c (get_hub m k) ≡ some o) ((eq_iff (target c) id).0 own)
                on in
            rw (own, on_own)
              (subst (λ x. run_stream fuel id cs x ≡ some (get_hub after id))
                (found id ∙ rw own refl) later)
        | inr other ↦ rw other (
            subst (λ x. run_stream fuel id cs x ≡ some (get_hub after id))
              (found id ∙ rw other refl) later)
      ]
]
