-- ===== src/Dispatch/Stuck.antt =====
-- A catch-up of src/core/dispatch.rs that never ends: `recv_batch` clears `video_catchup_until` only in a call
-- that delivers frames.
use vcp_media_server.Prelude.{ℕ, ◌<◌, ◌^◌, ◌≡◌, refl, min, false, some, List, [], ◌∷◌, ◌++◌, arith}
use vcp_media_server.Media.{MediaFrame}
use vcp_media_server.FrameRing.{latest_seq}
use vcp_media_server.FrameRing.Window.{frames_from_reversed}
use vcp_media_server.StreamHub.{StreamHub, hub_latest_seq, hub_frames_from}
use vcp_media_server.Dispatch.Reader.{DispatchReader, live_coalesce}
use vcp_media_server.Dispatch.Receive.{nothing, recv_ready, recv_catchup}
use vcp_media_server.Dispatch.Resend.{Collapses, catching_up, first_call}

-- The frames of one call after another, each on the hub as it is then, and the reader behind them.
unfoldable pub receive_all : List StreamHub → DispatchReader → List MediaFrame × DispatchReader
receive_all [] r = ([], r)
receive_all (hub ∷ later) r =
    let got = recv_ready hub r in
    let rest = receive_all later got.reader in (got.frames ++ rest.0, rest.1)

-- The catch-up's end lies behind the cursor.
past_catchup :
    (hub : StreamHub) (r : DispatchReader) (until : ℕ)
    → r.policy ≡ live_coalesce
    → r.video_catchup_until ≡ some until
    → until < r.cursor
    → recv_ready hub r ≡ nothing r false
unfolding recv_ready recv_catchup hub_frames_from
past_catchup hub r until p c lt =
    rw (p, c)
      (ground (
        arith,
        frames_from_reversed hub.ring r.cursor (min (hub_latest_seq hub) until) (omega arith),
      ))

past_catchup_all :
    (later : List StreamHub) (r : DispatchReader) (until : ℕ)
    → r.policy ≡ live_coalesce
    → r.video_catchup_until ≡ some until
    → until < r.cursor
    → receive_all later r ≡ ([], r)
unfolding receive_all
past_catchup_all [] r until p c lt = refl
past_catchup_all (hub ∷ later) r until p c lt =
    rw (past_catchup hub r until p c lt) (past_catchup_all later r until p c lt)

-- A live player whose collapsed batch ends with the last IDR, the newest frame of the ring, never gets a frame again:
-- however many calls it makes, on whatever states of the hub, each answers nothing and leaves the reader as it is.
pub idr_at_edge_stops :
    (hub : StreamHub) (r : DispatchReader) (later : List StreamHub)
    → hub.ring.write_seq < 2 ^ 64
    → Collapses hub r (hub_latest_seq hub)
    → receive_all later (recv_ready hub r).reader ≡ ([], (recv_ready hub r).reader)
unfolding hub_latest_seq latest_seq
idr_at_edge_stops hub r later bound c = rw (first_call hub r (hub_latest_seq hub) c).1 (
    past_catchup_all later (catching_up hub r (hub_latest_seq hub)) (hub_latest_seq hub) c.policy
      refl (omega arith))
