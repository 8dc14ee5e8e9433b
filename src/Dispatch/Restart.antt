-- ===== src/Dispatch/Restart.antt =====
-- Readers of src/core/dispatch.rs across a `reset` of the hub, as a new publisher's session makes it.
use vcp_media_server.Prelude.{
  ℕ, ◌+◌, ◌≤◌, ◌<◌, ◌≡◌, subst, false, Option, none, some, List, [], ◌∷◌, arith, length, inl, inr,
  Option-cases,
}
use vcp_media_server.Media.{MediaFrame}
use vcp_media_server.FrameRing
use vcp_media_server.FrameRing.{FrameRing, latest_seq}
use vcp_media_server.StreamHub.{StreamHub, publish, reset, hub_latest_seq}
use vcp_media_server.StreamHub.InStep.{push-write_seq}
use vcp_media_server.Dispatch.Reader.{DispatchReader}
use vcp_media_server.Dispatch.Receive.{
  nothing, recv_ready, recv_catchup, recv_lagging, recv_range, has_data,
}

-- The frames of a session, published one after the other.
unfoldable pub publish_all : ℕ → StreamHub → List MediaFrame → Option StreamHub
publish_all fuel hub [] = some hub
publish_all fuel hub (f ∷ fs) = elim (publish fuel hub f) [
  | none ↦ none
  | some (seq, next) ↦ publish_all fuel next fs
]

publish_number :
    (fuel : ℕ) (hub hub' : StreamHub) (f : MediaFrame) (seq : ℕ)
    → publish fuel hub f ≡ some (seq, hub')
    → hub'.ring.write_seq ≤ hub.ring.write_seq + 1
unfolding publish
publish_number fuel hub hub' f seq e = elim (Option-cases (FrameRing.push fuel hub.ring f)) [
  | inl n ↦ absurd (ground (arith, n, e))
  | inr ((k, ring), n) ↦
      let next = push-write_seq fuel hub.ring ring f k n in
      let h : StreamHub = record hub { ring = ring; seq_tx = k ∷ hub.seq_tx } in
      let same : h ≡ hub' = ground (arith, n, e) in
      subst (λ u. u.ring.write_seq ≤ hub.ring.write_seq + 1) same (omega (arith, next))
]

publish_all_number :
    (fuel : ℕ) (hub hub' : StreamHub) (fs : List MediaFrame)
    → publish_all fuel hub fs ≡ some hub'
    → hub'.ring.write_seq ≤ hub.ring.write_seq + length fs
unfolding publish_all
publish_all_number fuel hub hub' [] e = ground (arith, e)
publish_all_number fuel hub hub' (f ∷ fs) e = elim (Option-cases (publish fuel hub f)) [
  | inl n ↦ absurd (ground (arith, n, e))
  | inr ((seq, next), n) ↦ omega (
    arith,
    publish_number fuel hub next f seq n,
    publish_all_number fuel next hub' fs (rw (publish_all, n) at e),
  )
]

-- A reader beyond the latest number gets nothing.
recv_ready_beyond :
    (hub : StreamHub) (r : DispatchReader)
    → hub_latest_seq hub < r.cursor
    → recv_ready hub r ≡ nothing r false
unfolding recv_ready recv_catchup recv_lagging recv_range
recv_ready_beyond hub r lt = ground arith

-- A reader keeps its cursor when the hub is reset, whose numbers start at 0 again. So whatever its
-- policy, a reader that has reached the number `n` gets none of the first `n` frames published after the reset:
-- after that many there is still no data for it, and a call answers nothing.
pub starves :
    (fuel : ℕ) (hub hub' : StreamHub) (r : DispatchReader) (fs : List MediaFrame)
    → publish_all fuel (reset hub) fs ≡ some hub'
    → length fs ≤ r.cursor
    → 0 < r.cursor
    → (has_data hub' r ≡ false) × (recv_ready hub' r ≡ nothing r false)
unfolding reset has_data hub_latest_seq latest_seq
starves fuel hub hub' r fs e le pos =
    let number = publish_all_number fuel (reset hub) hub' fs e in
    (ground (arith, number), recv_ready_beyond hub' r (omega (arith, number)))
