-- ===== src/StreamManager/Sessions.antt =====
-- Publishers' sessions in src/core/stream_manager.rs: the calls of a session on the hubs.
use vcp_media_server.Prelude.StringMap.{insert}
use vcp_media_server.Prelude.{
  ℕ, ◌≡◌, refl, ◌∙◌, sym, String, Bool, true, false, not, Option, none, some, if◌then◌else◌,
  Bool-cases, Option-cases, [], ◌∷◌, inl, inr,
}
use mathlib.Core.Bool.{true≢false}
use text.Mathlib.Text.{◌==◌}
use text.Mathlib.TextPositions.{eq_refl}
use vcp_media_server.FrameRing.{FrameRing}
use vcp_media_server.Media.{MediaFrame}
use vcp_media_server.StreamHub.{
  StreamHub, ok, err, reset, update_stream, publish, acquire_publisher, release_publisher,
}
use vcp_media_server.StreamManager.{
  StreamManager, done, failed, already_published, get_hub, change_hub, publish_frame,
  get_or_create_hub, started, reset_media, reset_stream_media, manager_acquire_publisher,
  manager_release_publisher,
}
use vcp_media_server.StreamManager.Streams.{
  get_hub-change_hub, get_hub-insert, change_same, change_twice,
}

-- Another publisher than this one holds the hub.
abbrev pub held_by_other : StreamHub → String → Bool
held_by_other hub publisher_id = elim hub.publisher [
  | none ↦ false
  | some current ↦ not (current == publisher_id)
]

-- A ring with nothing in it, that takes 512 frames and 32 MiB and whose next number is 0.
abbrev pub nothing_stored : FrameRing
nothing_stored = record {
  capacity_frames = 512;
  capacity_bytes = 33_554_432;
  slots = [];
  idr_seqs = [];
  gop_starts = [];
  write_seq = 0;
  bytes_used = 0;
}

-- A hub at the start of a session: nothing is stored, no parameter sets are known, and the channel has 0.
abbrev pub fresh : StreamHub → Option String → StreamHub
fresh hub publisher = record hub {
  publisher = publisher;
  stream = record hub.stream { sps = none; pps = none };
  ring = nothing_stored;
  seq_tx = 0 ∷ hub.seq_tx;
}

acquire_granted :
    (hub : StreamHub) (publisher_id : String)
    → held_by_other hub publisher_id ≡ false
    → acquire_publisher hub publisher_id ≡ (ok, record hub { publisher = some publisher_id })
unfolding acquire_publisher
acquire_granted hub publisher_id free = elim (Option-cases hub.publisher) [
  | inl n ↦ rw n refl
  | inr (current, n) ↦ elim (Bool-cases (current == publisher_id)) [
    | inl own ↦ rw (n, own) refl
    | inr other ↦ absurd (true≢false (rw (n, other) at free))
  ]
]

acquire_refused :
    (hub : StreamHub) (publisher_id : String)
    → held_by_other hub publisher_id ≡ true
    → (current : String) × (acquire_publisher hub publisher_id ≡ (err current, hub))
unfolding acquire_publisher
acquire_refused hub publisher_id held = elim (Option-cases hub.publisher) [
  | inl n ↦ absurd (true≢false (sym (rw n at held)))
  | inr (current, n) ↦ elim (Bool-cases (current == publisher_id)) [
    | inl own ↦ absurd (true≢false (sym (rw (n, own) at held)))
    | inr other ↦ (current, rw (n, other) refl)
  ]
]

-- An acquire of a stream's publisher slot. A stream that is not there, and one that another
-- publisher holds, refuse, and every hub stays as it is. Otherwise the caller holds the slot and the stream starts
-- afresh: its ring is empty and counts from 0, and its parameter sets are forgotten; all other hubs stay as they are.
pub manager_acquire_publisher_lem :
    (m : StreamManager) (k publisher_id id : String) (hub : StreamHub)
    → get_hub m k ≡ some hub
    → let (outcome, after) = manager_acquire_publisher m k publisher_id in
      (outcome ≡ (if held_by_other hub publisher_id then failed (already_published k) else done))
      × (get_hub after id ≡ (
          if held_by_other hub publisher_id
          then get_hub m id
          else (if k == id then some (fresh hub (some publisher_id)) else get_hub m id)))
unfolding manager_acquire_publisher reset_stream_media reset_media update_stream reset
manager_acquire_publisher_lem m k publisher_id id hub e =
    elim (Bool-cases (held_by_other hub publisher_id)) [
      | inl held ↦
          let (current, refused) = acquire_refused hub publisher_id held in
          rw (manager_acquire_publisher, e, refused, held)
            (
              refl,
              change_same m k id (λ h. (acquire_publisher h publisher_id).1) hub e
                  (rw refused refl),
            )
      | inr free ↦
          let granted = acquire_granted hub publisher_id free in
          rw (manager_acquire_publisher, e, granted, free)
            (
              refl,
              change_twice m k id (λ h. (acquire_publisher h publisher_id).1) reset_media hub e
                  ∙ rw granted refl,
            )
    ]

-- A published frame goes to the hub of its stream, which is then publishing, if it was only created or
-- unpublished; all other hubs stay as they are.
pub publish_frame_lem :
    (fuel : ℕ) (m : StreamManager) (f : MediaFrame) (id : String) (hub published : StreamHub)
    (seq : ℕ)
    → get_hub m f.stream_id ≡ some hub
    → publish fuel hub f ≡ some (seq, published)
    → (after : StreamManager) × (publish_frame fuel m f ≡ some after)
      × (get_hub after id
          ≡ (if f.stream_id == id then some (update_stream published started) else get_hub m id))
unfolding publish_frame get_or_create_hub
publish_frame_lem fuel m f id hub published seq e p = (
  change_hub (record m { hubs = insert m.hubs f.stream_id published }) f.stream_id
      (λ h. update_stream h started),
  rw (publish_frame, e, p) refl,
  get_hub-change_hub (record m { hubs = insert m.hubs f.stream_id published }) f.stream_id id
        (λ h. update_stream h started)
      ∙ rw
          (
            get_hub-insert m f.stream_id id published,
            get_hub-insert m f.stream_id f.stream_id published,
            eq_refl f.stream_id,
          )
          (elim (Bool-cases (f.stream_id == id)) [ inl z ↦ rw z refl | inr z ↦ rw z refl ]),
)

released_hub :
    (hub : StreamHub) (publisher_id : String)
    → (release_publisher hub publisher_id).1
      ≡ (if (release_publisher hub publisher_id).0 then record hub { publisher = none } else hub)
unfolding release_publisher
released_hub hub publisher_id = elim (Option-cases hub.publisher) [
  | inl n ↦ rw n refl
  | inr (current, n) ↦ elim (Bool-cases (current == publisher_id)) [
    | inl own ↦ rw (n, own) refl
    | inr other ↦ rw (n, other) refl
  ]
]

-- A release by the holder of a stream's publisher slot frees it and empties the stream's media; any other
-- release changes nothing.
pub manager_release_publisher_lem :
    (m : StreamManager) (k publisher_id id : String) (hub : StreamHub)
    → get_hub m k ≡ some hub
    → get_hub (manager_release_publisher m k publisher_id).1 id ≡ (
        if (release_publisher hub publisher_id).0
        then (if k == id then some (fresh hub none) else get_hub m id)
        else get_hub m id)
unfolding manager_release_publisher reset_stream_media reset_media update_stream reset
manager_release_publisher_lem m k publisher_id id hub e =
    let f : StreamHub → StreamHub = λ h. (release_publisher h publisher_id).1 in
    elim (Bool-cases (release_publisher hub publisher_id).0) [
      | inl own ↦
          rw (e, own)
            (change_twice m k id f reset_media hub e ∙ rw (released_hub hub publisher_id, own) refl)
      | inr other ↦
          rw (e, other) (change_same m k id f hub e (released_hub hub publisher_id ∙ rw other refl))
    ]
