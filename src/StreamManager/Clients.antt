-- ===== src/StreamManager/Clients.antt =====
-- The receivers that src/core/stream_manager.rs keeps in its hubs. A search over `hubs.values()` goes
-- through the list; in the source the map's order is open.
use vcp_media_server.Prelude.{String, Option, none, some, List, [], ◌∷◌, ◌++◌}
use vcp_media_server.Media.{
  StreamReceiver, StreamSinkMode, StreamProtocol, ReceiverStatus, new_receiver, with_client_addr,
  with_push_addr,
}
use vcp_media_server.StreamHub.{
  StreamHub, add_receiver, remove_receiver, get_receiver, list_receiver_ids, list_receivers,
  set_receiver_status,
}
use vcp_media_server.StreamManager.{
  StreamManager, Outcome, done, failed, receiver_not_found, get_hub, change_hub,
}

abbrev pub register : StreamManager → String → StreamReceiver → StreamReceiver × StreamManager
register m stream_id receiver =
    (receiver, change_hub m stream_id (λ hub. (add_receiver hub receiver).1))

unfoldable pub create_receiver :
    StreamManager
    → String
    → String
    → StreamSinkMode
    → StreamProtocol
    → StreamReceiver × StreamManager
create_receiver m tag stream_id mode protocol =
    register m stream_id (new_receiver tag stream_id mode protocol)

unfoldable pub create_pull_receiver :
    StreamManager → String → String → StreamProtocol → String → StreamReceiver × StreamManager
create_pull_receiver m tag stream_id protocol client_addr =
    register m stream_id
      (with_client_addr (new_receiver tag stream_id StreamSinkMode.pull protocol) client_addr)

unfoldable pub create_push_receiver :
    StreamManager → String → String → StreamProtocol → String → StreamReceiver × StreamManager
create_push_receiver m tag stream_id protocol push_addr =
    register m stream_id
      (with_push_addr (new_receiver tag stream_id StreamSinkMode.push protocol) push_addr)

-- `find_map` over the hubs: each is changed until one answers.
unfoldable pub first_answer {ℓ} :
    {A : Type ℓ}
    → (StreamHub → Option A × StreamHub)
    → List (String × StreamHub)
    → Option A × List (String × StreamHub)
first_answer ask [] = (none, [])
first_answer ask ((key, hub) ∷ rest) =
    let later = first_answer ask rest in
    let (answer, changed) = ask hub in
    elim answer [
      | some a ↦ (some a, (key, changed) ∷ rest)
      | none ↦ (later.0, (key, changed) ∷ later.1)
    ]

unfoldable pub manager_remove_receiver :
    StreamManager → String → Option StreamReceiver × StreamManager
manager_remove_receiver m receiver_id =
    let (answer, hubs) = first_answer (λ hub. remove_receiver hub receiver_id) m.hubs in
    (answer, record m { hubs = hubs })

unfoldable pub manager_get_receiver : StreamManager → String → Option StreamReceiver
manager_get_receiver m receiver_id =
    (first_answer (λ hub. (get_receiver hub receiver_id, hub)) m.hubs).0

unfoldable pub receiver_ids : List (String × StreamHub) → List String
receiver_ids [] = []
receiver_ids ((key, hub) ∷ rest) = list_receiver_ids hub ++ receiver_ids rest

unfoldable pub manager_list_receivers : StreamManager → List String
manager_list_receivers m = receiver_ids m.hubs

unfoldable pub list_receivers_for_stream : StreamManager → String → List StreamReceiver
list_receivers_for_stream m stream_id = elim (get_hub m stream_id) [
  | none ↦ []
  | some hub ↦ list_receivers hub
]

unfoldable pub manager_set_receiver_status :
    StreamManager → String → ReceiverStatus → Outcome × StreamManager
manager_set_receiver_status m receiver_id status =
    let (answer, hubs) = first_answer (λ hub. set_receiver_status hub receiver_id status) m.hubs in
    (
      elim answer [ none ↦ failed (receiver_not_found receiver_id) | some old ↦ done ],
      record m { hubs = hubs },
    )
