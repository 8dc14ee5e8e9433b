-- ===== src/Rtmp/Connection/Holder.antt =====
-- Who publishes a stream of src/core/stream_manager.rs, through the calls that an RTMP connection makes.
use mathlib.Core.Option.{map as map_option}
use text.Mathlib.Text.{◌==◌ as ◌=ˢ◌}
use text.Mathlib.TextEquality.{eq_iff}
use text.Mathlib.TextPositions.{eq_refl}
use vcp_media_server.Prelude.{
  ◌≡◌, refl, sym, ap, ◌∙◌, String, Bool, true, false, not, Option, none, some, [], if◌then◌else◌,
  Bool-cases, Option-cases, inl, inr, length, ◌==◌,
}
use vcp_media_server.Media.{PlaybackStatus, StreamStatus, StreamSourceMode, StreamProtocol}
use vcp_media_server.StreamHub.{
  StreamHub, update_stream, set_tracks, with_stream, release_publisher, current_publisher,
}
use vcp_media_server.StreamManager.{
  StreamManager, done, failed, already_published, get_hub, change_hub, get_stream, create_stream,
  set_status, set_stream_tracks, manager_current_publisher, manager_acquire_publisher,
  manager_release_publisher, reset_media,
}
use vcp_media_server.StreamManager.Streams.{get_hub-change_hub, get_hub-insert}
use vcp_media_server.StreamManager.Sessions.{
  held_by_other, manager_acquire_publisher_lem, manager_release_publisher_lem,
}
use vcp_media_server.Rtmp.Connection.{released}
use vcp_media_server.Rtmp.Connection.Commands.{with_push_stream, with_live_tracks}

abbrev slot : Option StreamHub → Option String
slot none = none
slot (some hub) = hub.publisher

pub current-slot :
    (m : StreamManager) (id : String) → manager_current_publisher m id ≡ slot (get_hub m id)
unfolding manager_current_publisher current_publisher
current-slot m id = elim (Option-cases (get_hub m id)) [
  | inl e ↦ rw (manager_current_publisher, e) refl
  | inr (hub, e) ↦ rw (manager_current_publisher, e) refl
]

slot-map :
    (f : StreamHub → StreamHub) (o : Option StreamHub)
    → ((hub : StreamHub) → (f hub).publisher ≡ hub.publisher)
    → slot (map_option f o) ≡ slot o
slot-map f none keeps = refl
slot-map f (some hub) keeps = keeps hub

-- A change of one hub that leaves its publisher alone leaves all publishers alone.
current-change_hub :
    (m : StreamManager) (k id : String) (f : StreamHub → StreamHub)
    → ((hub : StreamHub) → (f hub).publisher ≡ hub.publisher)
    → manager_current_publisher (change_hub m k f) id ≡ manager_current_publisher m id
current-change_hub m k id f keeps =
    current-slot (change_hub m k f) id
    ∙ ap slot (get_hub-change_hub m k id f)
    ∙ elim (Bool-cases (k =ˢ id)) [
      | inl z ↦
          rw z (slot-map f (get_hub m k) keeps ∙ ap (λ j. slot (get_hub m j)) ((eq_iff k id).0 z))
      | inr z ↦ rw z refl
    ]
    ∙ sym (current-slot m id)

pub current-set_status :
    (m : StreamManager) (k id : String) (status : StreamStatus)
    → manager_current_publisher (set_status m k status).1 id ≡ manager_current_publisher m id
unfolding set_status update_stream
current-set_status m k id status = current-change_hub m k id _ (λ hub. refl)

pub current-with_live_tracks :
    (m : StreamManager) (k id : String)
    → manager_current_publisher (with_live_tracks m k) id ≡ manager_current_publisher m id
unfolding with_live_tracks set_stream_tracks set_tracks update_stream
current-with_live_tracks m k id = elim (Option-cases (get_stream m k)) [
  | inl e ↦ rw (with_live_tracks, e) refl
  | inr (stream, e) ↦ elim (Bool-cases (length stream.tracks == 0)) [
    | inl z ↦ rw (with_live_tracks, e, z) (current-change_hub m k id _ (λ hub. refl))
    | inr z ↦ rw (with_live_tracks, e, z) refl
  ]
]

abbrev created : String → StreamHub
created k = with_stream (record {
  id = k;
  tracks = [];
  status = StreamStatus.created;
  playback_status = PlaybackStatus.idle;
  source = StreamSourceMode.push;
  protocol = StreamProtocol.rtmp;
  pull_url = none;
  sps = none;
  pps = none;
})

get_hub-with_push_stream :
    (m : StreamManager) (k id : String)
    → get_hub m k ≡ none
    → get_hub (with_push_stream m k) id ≡ (if k =ˢ id then some (created k) else get_hub m id)
unfolding with_push_stream get_stream create_stream
get_hub-with_push_stream m k id e =
    rw (with_push_stream, e, create_stream, e) (get_hub-insert m k id (created k))

with_push_stream-same :
    (m : StreamManager) (k : String) (hub : StreamHub)
    → get_hub m k ≡ some hub
    → with_push_stream m k ≡ m
unfolding with_push_stream get_stream
with_push_stream-same m k hub e = rw (with_push_stream, e) refl

-- The stream that a publisher asks for is there then, and nothing else about publishers has changed.
pub with_push_stream-there :
    (m : StreamManager) (k : String)
    → (hub : StreamHub) × (get_hub (with_push_stream m k) k ≡ some hub)
with_push_stream-there m k = elim (Option-cases (get_hub m k)) [
  | inl e ↦ (created k, get_hub-with_push_stream m k k e ∙ rw (eq_refl k) refl)
  | inr (hub, e) ↦ (hub, ap (λ n. get_hub n k) (with_push_stream-same m k hub e) ∙ e)
]

pub current-with_push_stream :
    (m : StreamManager) (k id : String)
    → manager_current_publisher (with_push_stream m k) id ≡ manager_current_publisher m id
unfolding with_stream
current-with_push_stream m k id = elim (Option-cases (get_hub m k)) [
  | inl e ↦
      current-slot (with_push_stream m k) id
      ∙ ap slot (get_hub-with_push_stream m k id e)
      ∙ elim (Bool-cases (k =ˢ id)) [
        | inl z ↦ rw z (ap slot (sym e) ∙ ap (λ j. slot (get_hub m j)) ((eq_iff k id).0 z))
        | inr z ↦ rw z refl
      ]
      ∙ sym (current-slot m id)
  | inr (hub, e) ↦ ap (λ n. manager_current_publisher n id) (with_push_stream-same m k hub e)
]

-- Somebody else publishes.
abbrev pub taken_by_other : Option String → String → Bool
taken_by_other none publisher_id = false
taken_by_other (some current) publisher_id = not (current =ˢ publisher_id)

held_by_other-slot :
    (hub : StreamHub) (publisher_id : String)
    → held_by_other hub publisher_id ≡ taken_by_other hub.publisher publisher_id
held_by_other-slot hub publisher_id = elim (Option-cases hub.publisher) [
  | inl e ↦ rw e refl
  | inr (current, e) ↦ rw e refl
]

-- An acquire of a stream that is there.
pub current-acquire :
    (m : StreamManager) (k publisher_id id : String) (hub : StreamHub)
    → get_hub m k ≡ some hub
    → let taken = taken_by_other (manager_current_publisher m k) publisher_id in
      let (outcome, after) = manager_acquire_publisher m k publisher_id in
      (outcome ≡ (if taken then failed (already_published k) else done))
      × (manager_current_publisher after id ≡ (
          if taken
          then manager_current_publisher m id
          else (if k =ˢ id then some publisher_id else manager_current_publisher m id)))
unfolding reset_media update_stream vcp_media_server.StreamHub.reset
current-acquire m k publisher_id id hub e =
    let (outcome, there) = manager_acquire_publisher_lem m k publisher_id id hub e in
    let same : taken_by_other (manager_current_publisher m k) publisher_id
        ≡ held_by_other hub publisher_id =
      ap (λ o. taken_by_other o publisher_id) (current-slot m k ∙ ap slot e)
      ∙ sym (held_by_other-slot hub publisher_id) in
    rw (same, current-slot m id)
      (
        outcome,
        current-slot _ id ∙ ap slot there ∙ elim (Bool-cases (held_by_other hub publisher_id)) [
          | inl y ↦ rw y refl
          | inr n ↦ rw n (elim (Bool-cases (k =ˢ id)) [ inl z ↦ rw z refl | inr z ↦ rw z refl ])
        ],
      )

own_release :
    (hub : StreamHub) (publisher_id : String)
    → hub.publisher ≡ some publisher_id
    → (release_publisher hub publisher_id).0 ≡ true
unfolding release_publisher
own_release hub publisher_id own = rw (own, eq_refl publisher_id) refl

release-flag :
    (m : StreamManager) (k publisher_id : String) (hub : StreamHub)
    → get_hub m k ≡ some hub
    → (manager_release_publisher m k publisher_id).0 ≡ (release_publisher hub publisher_id).0
unfolding manager_release_publisher
release-flag m k publisher_id hub e = rw (manager_release_publisher, e) refl

-- A publisher leaves: its stream has no publisher then, if it was the one; the other streams keep theirs.
pub current-released :
    (m : StreamManager) (k publisher_id id : String) (hub : StreamHub)
    → get_hub m k ≡ some hub
    → hub.publisher ≡ some publisher_id
    → manager_current_publisher (released m k publisher_id) id
      ≡ (if k =ˢ id then none else manager_current_publisher m id)
unfolding released reset_media update_stream vcp_media_server.StreamHub.reset
current-released m k publisher_id id hub e own =
    let flag = own_release hub publisher_id own in
    rw (release-flag m k publisher_id hub e ∙ flag) (
      current-set_status (manager_release_publisher m k publisher_id).1 k id
        StreamStatus.unpublished
      ∙ current-slot (manager_release_publisher m k publisher_id).1 id
      ∙ ap slot (manager_release_publisher_lem m k publisher_id id hub e)
      ∙ rw (flag, current-slot m id)
          (elim (Bool-cases (k =ˢ id)) [ inl z ↦ rw z refl | inr z ↦ rw z refl ]))
