-- ===== src/StreamHub/Receivers.antt =====
-- The receivers of a hub (src/core/stream_hub.rs) are a map from identifiers.
use vcp_media_server.Prelude.{
  String, ◌≡◌, refl, subst, none, some, if◌then◌else◌, Bool-cases, inl, inr, Option-cases,
}
use mathlib.Core.Option.{map as map_option}
use text.Mathlib.Text.{◌==◌}
use text.Mathlib.TextEquality.{eq_iff}
use vcp_media_server.Prelude.StringMap.{find, find-insert, find-delete}
use vcp_media_server.Media.{StreamReceiver, ReceiverStatus}
use vcp_media_server.StreamHub.{
  StreamHub, add_receiver, remove_receiver, get_receiver, set_receiver_status,
}

abbrev pub with_status : ReceiverStatus → StreamReceiver → StreamReceiver
with_status status r = record r { status = status }

get_receiver-add_receiver :
    (hub : StreamHub) (r : StreamReceiver) (id : String)
    → get_receiver (add_receiver hub r).1 id ≡ (if r.id == id then some r else get_receiver hub id)
unfolding get_receiver add_receiver
get_receiver-add_receiver hub r id = find-insert hub.receivers r.id id r

get_receiver-remove_receiver :
    (hub : StreamHub) (k id : String)
    → ((remove_receiver hub k).0 ≡ get_receiver hub k)
      × (get_receiver (remove_receiver hub k).1 id
          ≡ (if k == id then none else get_receiver hub id))
unfolding get_receiver remove_receiver
get_receiver-remove_receiver hub k id = (refl, find-delete hub.receivers k id)

get_receiver-set_receiver_status :
    (hub : StreamHub) (k id : String) (status : ReceiverStatus)
    → ((set_receiver_status hub k status).0 ≡ map_option (λ r. r.status) (get_receiver hub k))
      × (get_receiver (set_receiver_status hub k status).1 id ≡ (
          if k == id
          then map_option (with_status status) (get_receiver hub k)
          else get_receiver hub id))
unfolding get_receiver set_receiver_status
get_receiver-set_receiver_status hub k id status = elim (Option-cases (find hub.receivers k)) [
  | inl e ↦ (
    rw (set_receiver_status, e) refl,
    elim (Bool-cases (k == id)) [
      | inl z ↦
          rw (set_receiver_status, e, z)
            (subst (λ j. find hub.receivers j ≡ none) ((eq_iff k id).0 z) e)
      | inr z ↦ rw (set_receiver_status, e, z) refl
    ],
  )
  | inr (r, e) ↦ (
    rw (set_receiver_status, e) refl,
    rw (set_receiver_status, e) (find-insert hub.receivers k id (record r { status = status })),
  )
]

-- The receivers of a hub are a map from identifiers. After a receiver is added, its identifier finds it; a
-- removal answers the receiver that the identifier had found, which then finds none; a new status
-- answers the old one, if the identifier finds a receiver, and changes nothing else of that receiver. Every
-- other identifier finds what it found before.
receivers_as_map :
    (hub : StreamHub) (r : StreamReceiver) (k id : String) (status : ReceiverStatus)
    → (get_receiver (add_receiver hub r).1 id
        ≡ (if r.id == id then some r else get_receiver hub id))
      × ((remove_receiver hub k).0 ≡ get_receiver hub k)
      × (get_receiver (remove_receiver hub k).1 id
          ≡ (if k == id then none else get_receiver hub id))
      × ((set_receiver_status hub k status).0 ≡ map_option (λ s. s.status) (get_receiver hub k))
      × (get_receiver (set_receiver_status hub k status).1 id ≡ (
          if k == id
          then map_option (with_status status) (get_receiver hub k)
          else get_receiver hub id))
receivers_as_map hub r k id status =
    let (removed, after) = get_receiver-remove_receiver hub k id in
    let (old, changed) = get_receiver-set_receiver_status hub k id status in
    (get_receiver-add_receiver hub r id, removed, after, old, changed)
