-- ===== src/Dispatch/Prime.antt =====
-- `prime_from_idr` of src/core/dispatch.rs: the frame that a player starts with. The source polls the hub
-- until a deadline; `polls` holds the states of the hub that it sees, `last` the state it sees at the end.
use vcp_media_server.Prelude.{
  ℕ, String, true, ◌&&◌, ◌||◌, Option, none, some, List, [], ◌∷◌, ltb, if◌then◌else◌,
}
use vcp_media_server.Media.{MediaFrame, new_frame, with_optional_clock_rate, h264}
use vcp_media_server.FrameRing.{SnapMode}
use vcp_media_server.StreamHub.{StreamHub, get_frame, hub_latest_idr_seq, hub_is_empty, hub_snap}
use vcp_media_server.Dispatch.Coalesce.{is_playable_idr}
use vcp_media_server.Dispatch.Reader.{DispatchReader, idr_is_close_to_live}

-- The hub's newest IDR, if it is playable and fresh or close to the live edge.
unfoldable pub prime_step : StreamHub → ℕ → DispatchReader → Option (MediaFrame × DispatchReader)
prime_step hub baseline_latest r = elim (hub_latest_idr_seq hub) [
  | none ↦ none
  | some idr_seq ↦ elim (get_frame hub idr_seq) [
    | none ↦ none
    | some idr ↦
        if (ltb baseline_latest idr_seq || idr_is_close_to_live hub idr_seq) && is_playable_idr idr
        then some (idr, record r { cursor = idr_seq; primed = true })
        else none
  ]
]

unfoldable pub prime_polls :
    List StreamHub → ℕ → DispatchReader → Option (MediaFrame × DispatchReader)
prime_polls [] baseline_latest r = none
prime_polls (hub ∷ hubs) baseline_latest r =
    let later = prime_polls hubs baseline_latest r in
    elim (prime_step hub baseline_latest r) [ none ↦ later | some hit ↦ some hit ]

-- The last keyframe of the stream manager, if the ring is empty.
unfoldable pub prime_metadata :
    StreamHub
    → String
    → Option (List ℕ × ℕ × Option ℕ)
    → DispatchReader
    → Option (MediaFrame × DispatchReader)
prime_metadata hub stream_id none r = none
prime_metadata hub stream_id (some (bytes, ts, clock_rate)) r =
    if hub_is_empty hub
    then some (
      with_optional_clock_rate (new_frame stream_id 0 ts bytes true h264) clock_rate,
      record r { cursor = hub_snap hub SnapMode.latest_idr; primed = true },
    )
    else none

unfoldable pub prime_from_idr :
    ℕ
    → List StreamHub
    → StreamHub
    → String
    → Option (List ℕ × ℕ × Option ℕ)
    → DispatchReader
    → Option (MediaFrame × DispatchReader)
prime_from_idr baseline_latest polls last stream_id last_keyframe r =
    elim (prime_polls polls baseline_latest r) [
      | some hit ↦ some hit
      | none ↦ elim (prime_step last baseline_latest r) [
        | some hit ↦ some hit
        | none ↦ prime_metadata last stream_id last_keyframe r
      ]
    ]
