-- ===== src/Dispatch/Drain.antt =====
-- The sequential policies of src/core/dispatch.rs: repeated calls of `recv_batch` on a hub.
use vcp_media_server.FrameRing.Invariant.{IsValid}
use vcp_media_server.FrameRing.Window.{
  frames_from-append, frames_from_found, frames_from_reversed, get-is_empty, length-frames_from,
}
use vcp_media_server.FrameRing.{StoredFrame, latest_seq}
use vcp_media_server.Prelude.{
  ℕ, zero, suc, ◌≤◌, ◌≡◌, refl, ◌∙◌, ap, sym, All, Bool-cases, ◌∷◌, false, List, [], ◌++◌, arith,
  ◌==◌, if◌then◌else◌, length, ◌+◌, ◌*◌, ◌<◌, ◌^◌, le_or_lt, inl, inr, some, true,
}
use vcp_media_server.Prelude.Words.{saturating_add}
use vcp_media_server.Media.{MediaFrame}
use vcp_media_server.StreamHub.{
  StreamHub, hub_latest_seq, hub_frames_from, hub_is_empty, get_stored,
}
use vcp_media_server.Dispatch.Reader.{
  DispatchReader, DispatchPolicy, live_coalesce, sequential_from_idr, web_rtc_play, live_sequential,
}
use vcp_media_server.Dispatch.Receive.{
  batch_end, sequential_end, recv_range, recv_frames, recv_lagging, recv_ready, has_data,
  is_coalescing,
}

-- The calls that a reader makes as long as there is data: the frames of all of them, and the reader.
unfoldable pub drain : ℕ → StreamHub → DispatchReader → List MediaFrame × DispatchReader
drain zero hub r = ([], r)
drain (suc calls) hub r =
    let got = recv_ready hub r in
    let later = drain calls hub got.reader in
    if has_data hub r then (got.frames ++ later.0, later.1) else ([], r)

-- The batches that these calls deliver, one for each call, and their frames in a row.
unfoldable pub batches : ℕ → StreamHub → DispatchReader → List (List MediaFrame)
batches zero hub r = []
batches (suc calls) hub r =
    let got = recv_ready hub r in
    let later = batches calls hub got.reader in if has_data hub r then got.frames ∷ later else []

abbrev pub joined : List (List MediaFrame) → List MediaFrame
joined [] = []
joined (frames ∷ rest) = frames ++ joined rest

-- The window that a sequential reader reads next.
abbrev pub next_end : StreamHub → DispatchReader → ℕ
next_end hub r = sequential_end (hub_latest_seq hub) r.cursor

abbrev pub next_window : StreamHub → DispatchReader → List MediaFrame
next_window hub r = hub_frames_from hub r.cursor (next_end hub r)

pub batch_end-sequential :
    (p : DispatchPolicy) (latest cursor : ℕ)
    → is_coalescing p ≡ false
    → batch_end p latest cursor ≡ sequential_end latest cursor
unfolding batch_end
batch_end-sequential live_coalesce latest cursor h = cc
batch_end-sequential sequential_from_idr latest cursor h = refl
batch_end-sequential web_rtc_play latest cursor h = cc
batch_end-sequential live_sequential latest cursor h = refl

pub recv_ready-sequential :
    (hub : StreamHub) (r : DispatchReader)
    → is_coalescing r.policy ≡ false
    → recv_ready hub r ≡ recv_range hub r false
unfolding recv_ready recv_lagging
recv_ready-sequential hub r h = ground arith

-- A call on a window that holds a frame delivers that window.
pub recv_ready-window :
    (hub : StreamHub) (r : DispatchReader)
    → is_coalescing r.policy ≡ false
    → r.cursor ≤ hub_latest_seq hub
    → (length (next_window hub r) == 0) ≡ false
    → recv_ready hub r ≡ record {
      frames = next_window hub r;
      reader = record r { cursor = saturating_add (next_end hub r) 1 };
      keyframe_requested = false;
    }
unfolding recv_range recv_frames
recv_ready-window hub r p le some_frame =
    recv_ready-sequential hub r p
    ∙ rw (batch_end-sequential r.policy (hub_latest_seq hub) r.cursor p) (ground arith)

-- Every number from the cursor to the latest is stored.
abbrev pub AllStored : StreamHub → DispatchReader → Type 0
AllStored hub r =
    (n : ℕ)
    → r.cursor ≤ n
    → n ≤ hub_latest_seq hub
    → (f : StoredFrame) × (get_stored hub n ≡ some f)

abbrev pub caught_up : StreamHub → DispatchReader → DispatchReader
caught_up hub r = record r { cursor = hub_latest_seq hub + 1 }

drain_done :
    (calls : ℕ) (hub : StreamHub) (r : DispatchReader)
    → r.cursor ≡ hub_latest_seq hub + 1
    → drain calls hub r ≡ (hub_frames_from hub r.cursor (hub_latest_seq hub), caught_up hub r)
unfolding drain has_data hub_frames_from
drain_done zero hub r e =
    ground (arith, e, frames_from_reversed hub.ring r.cursor (hub_latest_seq hub))
drain_done (suc calls) hub r e =
    ground (arith, e, frames_from_reversed hub.ring r.cursor (hub_latest_seq hub))

-- What is stored makes the next window non-empty and the hub's data available.
window_found :
    (hub : StreamHub) (r : DispatchReader)
    → hub.ring.write_seq < 2 ^ 64
    → r.cursor ≤ hub_latest_seq hub
    → AllStored hub r
    → ((length (next_window hub r) == 0) ≡ false) × (has_data hub r ≡ true)
unfolding hub_frames_from has_data hub_is_empty get_stored hub_latest_seq latest_seq
window_found hub r bound le all =
    let (f, found) = all r.cursor (omega arith) le in
    (
      frames_from_found hub.ring r.cursor (next_end hub r) r.cursor f found (omega arith)
          (omega arith),
      ground (arith, get-is_empty hub.ring r.cursor f found),
    )

abbrev pub next_reader : StreamHub → DispatchReader → DispatchReader
next_reader hub r = record r { cursor = saturating_add (next_end hub r) 1 }

drain_step :
    (calls : ℕ) (hub : StreamHub) (r : DispatchReader)
    → is_coalescing r.policy ≡ false
    → r.cursor ≤ hub_latest_seq hub
    → (length (next_window hub r) == 0) ≡ false
    → has_data hub r ≡ true
    → drain (suc calls) hub r ≡ (
      next_window hub r ++ (drain calls hub (next_reader hub r)).0,
      (drain calls hub (next_reader hub r)).1,
    )
unfolding drain
drain_step calls hub r p le found ready = ground (arith, recv_ready-window hub r p le found)

next_cursor :
    (hub : StreamHub) (r : DispatchReader)
    → hub.ring.write_seq < 2 ^ 64
    → r.cursor ≤ hub_latest_seq hub
    → (next_reader hub r).cursor ≡ next_end hub r + 1
unfolding hub_latest_seq latest_seq
next_cursor hub r bound le = omega arith

windows :
    (hub : StreamHub) (r : DispatchReader)
    → IsValid hub.ring
    → hub.ring.write_seq < 2 ^ 64
    → r.cursor ≤ hub_latest_seq hub
    → next_window hub r ++ hub_frames_from hub (next_reader hub r).cursor (hub_latest_seq hub)
      ≡ hub_frames_from hub r.cursor (hub_latest_seq hub)
unfolding hub_frames_from hub_latest_seq latest_seq
windows hub r v bound le = rw (next_cursor hub r bound le) (
    frames_from-append hub.ring r.cursor (next_end hub r) (hub_latest_seq hub) v (omega arith)
      (omega arith))

drained :
    (calls : ℕ) (hub : StreamHub) (r : DispatchReader)
    → is_coalescing r.policy ≡ false
    → IsValid hub.ring
    → hub.ring.write_seq < 2 ^ 64
    → r.cursor ≤ hub_latest_seq hub + 1
    → AllStored hub r
    → hub_latest_seq hub + 1 ≤ calls * 96 + r.cursor
    → drain calls hub r ≡ (hub_frames_from hub r.cursor (hub_latest_seq hub), caught_up hub r)
drained zero hub r p v bound le all enough = drain_done zero hub r (omega arith)
drained (suc calls) hub r p v bound le all enough = elim (le_or_lt r.cursor (hub_latest_seq hub)) [
  | inr past ↦ drain_done (suc calls) hub r (omega arith)
  | inl here ↦
      let (found, ready) = window_found hub r bound here all in
      let next = next_cursor hub r bound here in
      drain_step calls hub r p here found ready
      ∙ ground (
        arith,
        windows hub r v bound here,
        drained calls hub (next_reader hub r) p v bound (omega (arith, next))
            (λ n low high. all n (omega (arith, next)) high) (omega (arith, next)),
      )
]

next_window-small :
    (hub : StreamHub) (r : DispatchReader) → IsValid hub.ring → length (next_window hub r) ≤ 96
unfolding hub_frames_from
next_window-small hub r v = omega (arith, length-frames_from hub.ring r.cursor (next_end hub r) v)

batches_step :
    (calls : ℕ) (hub : StreamHub) (r : DispatchReader)
    → is_coalescing r.policy ≡ false
    → r.cursor ≤ hub_latest_seq hub
    → (length (next_window hub r) == 0) ≡ false
    → has_data hub r ≡ true
    → batches (suc calls) hub r ≡ next_window hub r ∷ batches calls hub (next_reader hub r)
unfolding batches
batches_step calls hub r p le found ready = ground (arith, recv_ready-window hub r p le found)

batches_done :
    (calls : ℕ) (hub : StreamHub) (r : DispatchReader)
    → r.cursor ≡ hub_latest_seq hub + 1
    → batches calls hub r ≡ []
unfolding batches has_data
batches_done zero hub r e = refl
batches_done (suc calls) hub r e = ground (arith, e)

batches_small :
    (calls : ℕ) (hub : StreamHub) (r : DispatchReader)
    → is_coalescing r.policy ≡ false
    → IsValid hub.ring
    → hub.ring.write_seq < 2 ^ 64
    → r.cursor ≤ hub_latest_seq hub + 1
    → AllStored hub r
    → All (λ frames. length frames ≤ 96) (batches calls hub r)
batches_small zero hub r p v bound le all = unfold batches in tt
batches_small (suc calls) hub r p v bound le all = elim (le_or_lt r.cursor (hub_latest_seq hub)) [
  | inr past ↦ rw (batches_done (suc calls) hub r (omega arith)) tt
  | inl here ↦
      let (found, ready) = window_found hub r bound here all in
      let next = next_cursor hub r bound here in
      rw (batches_step calls hub r p here found ready) (
        next_window-small hub r v,
        batches_small calls hub (next_reader hub r) p v bound (omega (arith, next))
            (λ n low high. all n (omega (arith, next)) high),
      )
]

joined-batches :
    (calls : ℕ) (hub : StreamHub) (r : DispatchReader)
    → (drain calls hub r).0 ≡ joined (batches calls hub r)
unfolding drain batches
joined-batches zero hub r = refl
joined-batches (suc calls) hub r = elim (Bool-cases (has_data hub r)) [
  | inl ready ↦ rw ready (
      ap (λ fs. (recv_ready hub r).frames ++ fs)
        (joined-batches calls hub (recv_ready hub r).reader))
  | inr idle ↦ rw idle refl
]

-- A sequential reader whose frames are all stored gets each of them once, in order: enough calls deliver
-- exactly the window from its cursor to the latest frame, in batches of 96 frames at most, and leave the cursor behind
-- that frame and the rest of the reader, its resync flag among it, as it was.
pub drain-sequential :
    (calls : ℕ) (hub : StreamHub) (r : DispatchReader)
    → is_coalescing r.policy ≡ false
    → IsValid hub.ring
    → hub.ring.write_seq < 2 ^ 64
    → r.cursor ≤ hub_latest_seq hub + 1
    → AllStored hub r
    → hub_latest_seq hub + 1 ≤ calls * 96 + r.cursor
    → (drain calls hub r ≡ (hub_frames_from hub r.cursor (hub_latest_seq hub), caught_up hub r))
      × (joined (batches calls hub r) ≡ hub_frames_from hub r.cursor (hub_latest_seq hub))
      × All (λ frames. length frames ≤ 96) (batches calls hub r)
drain-sequential calls hub r p v bound le all enough =
    let whole = drained calls hub r p v bound le all enough in
    (
      whole,
      sym (joined-batches calls hub r) ∙ ap (λ end. end.0) whole,
      batches_small calls hub r p v bound le all,
    )
